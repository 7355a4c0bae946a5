-- ===== src/Models/Account/Writing.antt =====
-- What `accountCreate` of src/models/account.c does to the users of a database.
use mathlib.Core.Option
use facebooc.Base.{
  ℕ, zero, suc, ◌*◌, ◌≡◌, ◌≤◌, refl, ap, sym, ◌∙◌, inl, inr, true, false, Option, none, some, List,
  [], ◌∷◌, ◌++◌, map, Bytes, length, All-append, take, streq, streq_refl, Run, ok, ◌>>=◌, arith,
  Bool-cases,
}
use facebooc.Base.Int.{ℤ}
use facebooc.BasicString.{BasicString, whole}
use facebooc.Base64.{base64_encode}
use facebooc.Base64.Injective.{IsText}
use facebooc.Utility.Digest.{sha256_string, hex_digits, hex2}
use facebooc.Database.{Value, int, text, Answer, Sqlite, execute}
use facebooc.Database.Tables.{Tables}
use facebooc.Models.Account.{
  Account, account_create, account_stored, account_get_by_email, insert_account, encoded,
}
use facebooc.Models.Account.Users.{User, row_of, account_of, IsUser, has_email, register}
use facebooc.Models.Account.Rows.{encoded-whole, any_email}
use facebooc.Models.Account.Reading.{IsStored, account_get_by_email_lem}
use facebooc.Models.Sql.{any, changed, refused, IsReading, IsWriting}
use facebooc.Models.Sql.Ready.{execute_answers}
use facebooc.Models.Sql.First.{first, first-last}

hex_length : (n : ℕ) (hash : Bytes) → length (hex_digits (take n hash)) ≤ 2 * n
unfolding hex_digits hex2
hex_length zero hash = omega arith
hex_length (suc n) [] = omega arith
hex_length (suc n) (b ∷ hash) = omega (arith, hex_length n hash)

-- A digest has 64 characters at most.
pub sha256-length :
    (digest : Bytes → Bytes) (s : BasicString) → length (sha256_string digest s) ≤ 64
unfolding sha256_string
sha256-length digest s = hex_length 32 (digest (take s.size s.bytes))

map-append {ℓ κ} :
    {A : Type ℓ} {B : Type κ} (f : A → B) (xs : List A) (y : A)
    → map f (xs ++ y ∷ []) ≡ map f xs ++ f y ∷ []
map-append f [] y = refl
map-append f (x ∷ xs) y = ap (λ t. f x ∷ t) (map-append f xs y)

-- The user whom `accountCreate` makes.
unfoldable pub new_user : ℤ → (Bytes → Bytes) → ℤ → Bytes → Bytes → Bytes → BasicString → User
new_user id digest now name email username password = record {
  id = id;
  created_at = now;
  name = name;
  email = email;
  username = username;
  password = sha256_string digest password;
}

module _ (S : Sqlite) (view : S.Db → Tables) (reading : IsReading S view)
    (writing : IsWriting S view) (db : S.Db) (us : List User) (digest : Bytes → Bytes) (now : ℤ)
    (name email username : Bytes) (password : BasicString) (stored : IsStored S view db us)
    (name_text : IsText name) (email_text : IsText email) (username_text : IsText username) where
  -- The user that is made here.
  abbrev new : User
  new = new_user (writing.fresh_account (view db)) digest now name email username password

  new-IsUser : IsUser new
  unfolding new_user
  new-IsUser = record {
    name_text = name_text;
    email_text = email_text;
    username_text = username_text;
    hash_length = sha256-length digest password;
  }

  values : List Value
  values =
      int now
      ∷ text (base64_encode name).bytes
      ∷ text (base64_encode email).bytes
      ∷ text (base64_encode username).bytes
      ∷ text (sha256_string digest password)
      ∷ []

  after : S.Db
  after = (S.run db insert_account values).0

  hash : Value
  hash = text (sha256_string digest password)

  -- What follows the INSERT.
  inserted : Option (S.Db × Answer) → Run (S.Db × Option Account)
  inserted none = ok (db, none)
  inserted (some (db', answer)) = account_stored S db' answer.ending (whole email)

  -- The call once the INSERT has its answer.
  create-run :
      (a : Answer)
      → (S.run db insert_account values).1 ≡ a
      → account_create S db digest now (whole name) (whole email) (whole username) password
        ≡ account_stored S after a.ending (whole email)
  unfolding account_create values after hash inserted
  create-run a h =
      ap
        (λ n. inserted (
          execute S db insert_account
            (int now ∷ n ∷ encoded (whole email) ∷ encoded (whole username) ∷ hash ∷ [])))
        (encoded-whole name)
      ∙ ap
          (λ e. inserted (
            execute S db insert_account (
              int now
              ∷ text (base64_encode name).bytes
              ∷ e
              ∷ encoded (whole username)
              ∷ hash
              ∷ [])))
          (encoded-whole email)
      ∙ ap
          (λ u. inserted (
            execute S db insert_account (
              int now
              ∷ text (base64_encode name).bytes
              ∷ text (base64_encode email).bytes
              ∷ u
              ∷ hash
              ∷ [])))
          (encoded-whole username)
      ∙ ap inserted (execute_answers S view reading db insert_account values a h)

  same_email :
      any (λ r. streq r.email (base64_encode email).bytes) (view db).accounts ≡ has_email email us
  same_email =
      ap (any (λ r. streq r.email (base64_encode email).bytes)) stored.rows
      ∙ any_email us stored.users email email_text

  inserts :
      has_email email us ≡ false
      → (view after ≡ record (view db) { accounts = (view db).accounts ++ row_of new ∷ [] })
        × ((S.run db insert_account values).1 ≡ changed)
  unfolding values after row_of new_user
  inserts free =
      writing.adds_account db now (base64_encode name).bytes (base64_encode email).bytes
        (base64_encode username).bytes (sha256_string digest password) (same_email ∙ free)

  then_stored : has_email email us ≡ false → IsStored S view after (us ++ new ∷ [])
  then_stored free = record {
    rows =
        ap (λ t. t.accounts) (inserts free).0
        ∙ ap (λ rows. rows ++ row_of new ∷ []) stored.rows
        ∙ sym (map-append row_of us new);
    users = All-append IsUser us (new ∷ []) stored.users (new-IsUser, tt);
  }

  first-new :
      has_email email us ≡ false → first (λ u. streq u.email email) (us ++ new ∷ []) ≡ some new
  unfolding has_email new_user
  first-new free = first-last (λ u. streq u.email email) us new free (streq_refl email)

  -- An email that no user has.
  create-free :
      has_email email us ≡ false
      → account_create S db digest now (whole name) (whole email) (whole username) password
        ≡ ok (after, some (account_of new))
  unfolding account_stored
  create-free free =
      create-run changed (inserts free).1 ∙ ap (λ r. r >>= λ a. ok (after, a)) (read_back free)
    where
      read_back :
          has_email email us ≡ false
          → account_get_by_email S after (some (whole email)) ≡ ok (some (account_of new))
      read_back e =
          account_get_by_email_lem S view reading after (us ++ new ∷ []) email (then_stored e)
            email_text
          ∙ ap (λ o. ok (Option.map account_of o)) (first-new e)

  -- An email that a user has.
  create-taken :
      has_email email us ≡ true
      → (account_create S db digest now (whole name) (whole email) (whole username) password
          ≡ ok (after, none))
        × (view after ≡ view db)
  create-taken taken = (create-run refused refuses.1 ∙ unfold account_stored in refl, refuses.0)
    where
      refuses : (view after ≡ view db) × ((S.run db insert_account values).1 ≡ refused)
      refuses =
          unfold values after in
          writing.refuses_account db now (base64_encode name).bytes (base64_encode email).bytes
            (base64_encode username).bytes (sha256_string digest password) (same_email ∙ taken)

  -- Where sqlite3 answers as `IsReading` and `IsWriting` say, on a database that stands for a list
  -- of users, and for a name, an email and a username that can be encoded and decoded,
  -- `accountCreate` does what `register` does to the list: it adds the new user and gives that
  -- user's account, unless the email is taken, in which case there is no account. The table of
  -- accounts is that of the new list, and the other tables stay as they are.
  pub account_create_lem :
      (db' : S.Db) × (account_create S db digest now
          (whole name)
          (whole email)
          (whole username)
          password
        ≡ ok (db', Option.map account_of (register new us).1))
      × (view db' ≡ record (view db) { accounts = map row_of (register new us).0 })
      × IsStored S view db' (register new us).0
  unfolding register new_user
  account_create_lem = elim (Bool-cases (has_email email us)) [
    | inl taken ↦ rw taken (
      after,
      (create-taken taken).0,
      (create-taken taken).1 ∙ ap (λ rows. record (view db) { accounts = rows }) stored.rows,
      record {
        rows = ap (λ t. t.accounts) (create-taken taken).1 ∙ stored.rows;
        users = stored.users;
      },
    )
    | inr free ↦ rw free (
      after,
      create-free free,
      (inserts free).0
          ∙ ap (λ rows. record (view db) { accounts = rows })
              (ap (λ rows. rows ++ row_of new ∷ []) stored.rows ∙ sym (map-append row_of us new)),
      then_stored free,
    )
  ]
