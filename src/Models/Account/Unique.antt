-- ===== src/Models/Account/Unique.antt =====
-- The users of a database over any run of `accountCreate`: emails and ids stay apart.
use mathlib.Core.Option
use facebooc.Base.{
  ◌≡◌, ◌≢◌, ap, subst, sym, ◌∙◌, inl, inr, Bool, false, Option, some, List, [], ◌∷◌, Bytes, streq,
  streq_refl, streq_ne, Run, ok, Bool-cases,
}
use facebooc.Base.Int.{ℤ, negsuc, ◌==ℤ◌, ==ℤ_refl, ==ℤ_ne}
use facebooc.BasicString.{BasicString, whole}
use facebooc.Base64.Injective.{IsText}
use facebooc.Database.{Sqlite}
use facebooc.Database.Tables.{Tables}
use facebooc.Models.Account.{Account, account_create, account_get_by_email, account_get_by_id}
use facebooc.Models.Account.Users.{User, row_of, account_of, has_email, register}
use facebooc.Models.Account.Reading.{IsStored, account_get_by_email_lem, account_get_by_id_lem}
use facebooc.Models.Account.Writing.{new_user, account_create_lem}
use facebooc.Models.Sql.{any, IsReading, IsWriting}
use facebooc.Models.Sql.First.{first, any-map}
use facebooc.Models.Sql.Distinct.{Distinct, Distinct-last, Member, Member-append, first_of_Member}

-- Users in the order in which they were taken up, with the key that tells them apart.
unfoldable pub same_email : User → User → Bool
same_email v u = streq v.email u.email

unfoldable pub same_id : User → User → Bool
same_id v u = v.id ==ℤ u.id

-- No two users have the same email or the same id.
pub record AreUnique (us : List User) : Type 0 where
  pub emails : Distinct same_email us
  pub ids : Distinct same_id us

pub streq_swap : (s t : Bytes) → streq s t ≡ false → streq t s ≡ false
streq_swap s t h = streq_ne t s (λ e. absurd (cc (h, streq_refl t, ap (λ x. streq x t) e)))

pub ==ℤ_swap : (a b : ℤ) → (a ==ℤ b) ≡ false → (b ==ℤ a) ≡ false
==ℤ_swap a b h = ==ℤ_ne b a (λ e. absurd (cc (h, ==ℤ_refl b, ap (λ x. x ==ℤ b) e)))

-- Registering keeps users apart, for a user with an id that no user has.
pub register-AreUnique :
    (u : User) (us : List User)
    → AreUnique us
    → any (λ v. v.id ==ℤ u.id) us ≡ false
    → AreUnique (register u us).0
unfolding register
register-AreUnique u us apart fresh = elim (Bool-cases (has_email u.email us)) [
  | inl taken ↦ rw taken apart
  | inr free ↦ rw free (record {
    emails =
        Distinct-last same_email us u (λ a b h. unfold same_email in streq_swap a.email b.email h)
          apart.emails (unfold same_email has_email in free);
    ids =
        Distinct-last same_id us u (λ a b h. unfold same_id in ==ℤ_swap a.id b.id h) apart.ids
          (unfold same_id in fresh);
  })
]

register_keeps : (v : User) (us : List User) (u : User) → Member u us → Member u (register v us).0
unfolding register
register_keeps v us u is = elim (Bool-cases (has_email v.email us)) [
  | inl taken ↦ rw taken is
  | inr free ↦ rw free (Member-append u us (v ∷ []) is)
]

module _ (S : Sqlite) (view : S.Db → Tables) (reading : IsReading S view)
    (writing : IsWriting S view) where
  -- One call of `accountCreate` that ends, on names that are texts.
  pub data Creates (digest : Bytes → Bytes) (db : S.Db) : S.Db → Type 0 where
    creates :
        (db' : S.Db) (now : ℤ) (name email username : Bytes) (password : BasicString)
        (account : Option Account)
        → IsText name
        → IsText email
        → IsText username
        → account_create S db digest now (whole name) (whole email) (whole username) password
          ≡ ok (db', account)
        → Creates digest db db'

  -- Any number of calls.
  pub data Reaches (digest : Bytes → Bytes) (db : S.Db) : S.Db → Type 0 where
    start : Reaches digest db db
    next : (b c : S.Db) → Reaches digest db b → Creates digest b c → Reaches digest db c

  ok_state :
      (a b : S.Db) (x y : Option Account)
      → ◌≡◌ {A = Run (S.Db × Option Account)} (ok (a, x)) (ok (b, y))
      → a ≡ b
  ok_state a b x y h = cc

  fresh_user :
      (db : S.Db) (us : List User)
      → IsStored S view db us
      → any (λ u. u.id ==ℤ writing.fresh_account (view db)) us ≡ false
  unfolding row_of
  fresh_user db us stored =
      sym (any-map row_of (λ r. r.id ==ℤ writing.fresh_account (view db)) us)
      ∙ ap (any (λ r. r.id ==ℤ writing.fresh_account (view db))) (sym stored.rows)
      ∙ writing.account_is_new (view db)

  -- The users that a database holds, apart from each other.
  pub record Holds (db : S.Db) (us : List User) : Type 0 where
    pub stored : IsStored S view db us
    pub apart : AreUnique us

  -- No user is lost.
  abbrev pub Keeps : List User → List User → Type 0
  Keeps us us' = (u : User) → Member u us → Member u us'

  Creates-step :
      (digest : Bytes → Bytes) (db db' : S.Db) (us : List User)
      → Holds db us
      → Creates digest db db'
      → (us' : List User) × Holds db' us' × Keeps us us'
  unfolding new_user
  Creates-step digest db _ us held
        (creates db' now name email username password account n e u run) =
      let made =
        account_create_lem S view reading writing db us digest now name email username password
          held.stored n e u in
      let user =
        new_user (writing.fresh_account (view db)) digest now name email username password in
      (
        (register user us).0,
        record {
          stored =
              subst (λ d. IsStored S view d (register user us).0)
                (ok_state made.0 db' _ account (sym made.1 ∙ run)) made.3;
          apart = register-AreUnique user us held.apart (fresh_user db us held.stored);
        },
        register_keeps user us,
      )

  run-Keeps :
      (digest : Bytes → Bytes) (db db' : S.Db) (us : List User)
      → Holds db us
      → Reaches digest db db'
      → (us' : List User) × Holds db' us' × Keeps us us'
  run-Keeps digest db _ us held start = (us, held, λ u is. is)
  run-Keeps digest db _ us held (next b c before step) =
      let there = run-Keeps digest db b us held before in
      let after = Creates-step digest b c there.0 there.1 step in
      (after.0, after.1, λ u is. after.2 u (there.2 u is))

  first_with_email :
      (us : List User) (u : User)
      → AreUnique us
      → Member u us
      → first (λ v. streq v.email u.email) us ≡ some u
  unfolding same_email
  first_with_email us u apart is =
      first_of_Member same_email us u (λ a b h. streq_swap a.email b.email h) (streq_refl u.email)
        apart.emails is

  pub first_with_id :
      (us : List User) (u : User)
      → AreUnique us
      → Member u us
      → first (λ v. v.id ==ℤ u.id) us ≡ some u
  unfolding same_id
  first_with_id us u apart is =
      first_of_Member same_id us u (λ a b h. ==ℤ_swap a.id b.id h) (==ℤ_refl u.id) apart.ids is

  -- Where sqlite3 answers as `IsReading` and `IsWriting` say, on a database of users without a
  -- common email or id, whatever accounts are created by calls that end, every user is found by an
  -- email that can be encoded and decoded, and by an id that is not -1, as the same account.
  pub Reaches-found :
      (digest : Bytes → Bytes) (db db' : S.Db) (us : List User) (u : User)
      → Holds db us
      → Reaches digest db db'
      → Member u us
      → IsText u.email
      → u.id ≢ negsuc 0
      → (account_get_by_email S db' (some (whole u.email)) ≡ ok (some (account_of u)))
        × (account_get_by_id S db' u.id ≡ ok (some (account_of u)))
  Reaches-found digest db db' us u held run is t some_id =
      let there = run-Keeps digest db db' us held run in
      let us' = there.0 in
      let stored = there.1.stored in
      let apart = there.1.apart in
      let member = there.2 u is in
      (
        account_get_by_email_lem S view reading db' us' u.email stored t
            ∙ ap (λ o. ok (Option.map account_of o)) (first_with_email us' u apart member),
        account_get_by_id_lem S view reading db' us' u.id stored some_id
            ∙ ap (λ o. ok (Option.map account_of o)) (first_with_id us' u apart member),
      )

  -- Over any run of `accountCreate`, a database of users without a common email or id stays one.
  pub Reaches-AreUnique :
      (digest : Bytes → Bytes) (db db' : S.Db) (us : List User)
      → Holds db us
      → Reaches digest db db'
      → (us' : List User) × Holds db' us'
  Reaches-AreUnique digest db db' us held run =
      let there = run-Keeps digest db db' us held run in (there.0, there.1)
