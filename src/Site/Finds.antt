-- ===== src/Site/Finds.antt =====
-- The lookups of src/models and src/handler/helper.c: what they find, and the rows of the tables.
use mathlib.Core.Option
use facebooc.Base.{
  ◌≡◌, refl, ap, subst, sym, inl, inr, Bool, true, ◌&&◌, Option, none, some, List, [], ◌∷◌, Bytes,
  codes, streq, Bool-cases, Run, ok, fault, Gives, bind-Gives, bind-any, if-Gives,
}
use facebooc.Base.Int.{ℤ, negsuc, ◌==ℤ◌, ==ℤ_refl}
use facebooc.BasicString.{BasicString, whole}
use facebooc.Base64.{base64_encode}
use facebooc.Utility.Digest.{sha256_string}
use facebooc.Http.Cookies.{Cookie, Cookies, cookies_get}
use facebooc.Database.{int, text, Row, Answer, Sqlite, column_int, int_value, value_at}
use facebooc.Database.Tables.{AccountRow, PostRow, Tables}
use facebooc.Models.Account.{
  Account, account_from_db, account_new_move, decoded, account_of_id, account_select,
  account_get_by_id, account_get_by_sid, select_by_id,
}
use facebooc.Models.Session.{Session, session_get_by_sid, login_id, select_login}
use facebooc.Models.Post.{Post, post_get_by_id}
use facebooc.Models.Post.Stored.{post_from, post_get_by_id_lem}
use facebooc.Models.Sql.{select, IsReading}
use facebooc.Models.Sql.Distinct.{any_of_Member, first-Member}
use facebooc.Models.Sql.Ready.{execute_answers}
use facebooc.Models.Sql.First.{first, first_meets, any_of_some, select_cases}
use facebooc.Handler.Account.{get_account}
use facebooc.Site.Sound.{has_account, has_post, IsPost, IsSound}

-- An account that is there, or none.
abbrev pub IsKnown : Tables → Option Account → Type 0
IsKnown t none = Unit
IsKnown t (some a) = has_account t.accounts a.id ≡ true

abbrev pub IsKnownId : Tables → Option ℤ → Type 0
IsKnownId t none = Unit
IsKnownId t (some id) = has_account t.accounts id ≡ true

-- A post that is there, with its author, or none.
abbrev pub IsKnownPost : Tables → Option Post → Type 0
IsKnownPost t none = Unit
IsKnownPost t (some p) =
    (has_post t.posts p.id ≡ true) × (has_account t.accounts p.author_id ≡ true)

from_db-id :
    (id created_at : ℤ) (name email username : Option Bytes)
    → Gives (λ a. a.id ≡ id) (account_from_db id created_at name email username)
unfolding account_from_db account_new_move
from_db-id id created_at name email username =
    bind-any _ (decoded name) _
      (λ n. bind-any _ (decoded email) _ (λ e. bind-any _ (decoded username) _ (λ u. refl)))

module _ (S : Sqlite) (view : S.Db → Tables) (reading : IsReading S view) where
  account_of_id-IsKnown :
      (t : Tables) (id : ℤ) (rows : List Row)
      → has_account t.accounts id ≡ true
      → Gives (IsKnown t) (account_of_id S id rows)
  unfolding account_of_id
  account_of_id-IsKnown t id [] h = tt
  account_of_id-IsKnown t id (row ∷ rows) h =
      bind-Gives (λ a. a.id ≡ id) (IsKnown t) _ _ (from_db-id id _ _ _ _)
        (λ a same. subst (λ i. has_account t.accounts i ≡ true) (sym same) h)

  account_of_id-none : (t : Tables) (id : ℤ) → Gives (IsKnown t) (account_of_id S id [])
  unfolding account_of_id
  account_of_id-none t id = tt

  pub account_select-IsKnown :
      (db : S.Db) (id : ℤ) → Gives (IsKnown (view db)) (account_select S db id)
  unfolding account_select
  account_select-IsKnown db id = subst (Gives (IsKnown (view db))) (sym read) (
      select_cases (λ rows. Gives (IsKnown (view db)) (account_of_id S id rows)) (λ r. r.id ==ℤ id)
        (λ r. int r.created_at ∷ text r.name ∷ text r.email ∷ text r.username ∷ [])
        (view db).accounts (account_of_id-none (view db) id)
        (λ r rest found.
          account_of_id-IsKnown (view db) id (_ ∷ rest)
            (unfold has_account in any_of_some (λ r. r.id ==ℤ id) (view db).accounts r found)))
    where
      id_read : Option (S.Db × Answer) → Run (Option Account)
      id_read none = ok none
      id_read (some (d, answer)) = account_of_id S id answer.rows

      read :
          account_select S db id
          ≡ account_of_id S id (
              select
                (λ r. r.id ==ℤ id)
                (λ r. int r.created_at ∷ text r.name ∷ text r.email ∷ text r.username ∷ [])
                (view db).accounts)
      read =
          ap id_read
            (execute_answers S view reading db select_by_id (int id ∷ []) _ (reading.by_id id db))

  pub get_by_id-IsKnown :
      (db : S.Db) (id : ℤ) → Gives (IsKnown (view db)) (account_get_by_id S db id)
  unfolding account_get_by_id
  get_by_id-IsKnown db id =
      if-Gives (IsKnown (view db)) (id ==ℤ negsuc 0) (ok none) (account_select S db id) tt
        (account_select-IsKnown db id)

  get_by_sid-IsKnown :
      (db : S.Db) (sid : BasicString)
      → Gives (IsKnown (view db)) (account_get_by_sid S db (some sid))
  unfolding account_get_by_sid
  get_by_sid-IsKnown db sid =
      bind-any (IsKnown (view db)) (session_get_by_sid S db sid.bytes) account_for
        (λ s. for_session s)
    where
      account_for : Option Session → Run (Option Account)
      account_for none = ok none
      account_for (some s) = account_select S db s.account_id

      for_session : (s : Option Session) → Gives (IsKnown (view db)) (account_for s)
      for_session none = tt
      for_session (some s) = account_select-IsKnown db s.account_id

  -- Who sends a request is an account of the table.
  pub get_account-IsKnown :
      (db : S.Db) (c : Option Cookies) → Gives (IsKnown (view db)) (get_account S db c)
  unfolding get_account
  get_account-IsKnown db none = tt
  get_account-IsKnown db (some c) = of_cookie (cookies_get (some c) (codes "sid"))
    where
      of_value :
          (o : Option Bytes)
          → Gives
              (IsKnown (view db))
              (elim o [ none ↦ fault | some sid ↦ account_get_by_sid S db (some (whole sid)) ])
      of_value none = tt
      of_value (some sid) = get_by_sid-IsKnown db (whole sid)

      of_cookie :
          (o : Option Cookie)
          → Gives (IsKnown (view db)) (elim o [
            | none ↦ fault
            | some cookie ↦ elim cookie.value [
              | none ↦ fault
              | some sid ↦ account_get_by_sid S db (some (whole sid))
            ]
          ])
      of_cookie none = tt
      of_cookie (some cookie) = of_value cookie.value

  -- The id that the credentials give.
  pub login_id-IsKnown :
      (db : S.Db) (digest : Bytes → Bytes) (username password : Bytes)
      → IsKnownId (view db) (login_id S db digest username password)
  unfolding login_id
  login_id-IsKnown db digest username password = subst (IsKnownId (view db)) (sym read) (
      select_cases (λ rows. IsKnownId (view db) (of_rows rows)) test (λ r. int r.id ∷ [])
        (view db).accounts tt (λ r rest found. known r found))
    where
      hash : Bytes
      hash = sha256_string digest (whole password)

      test : AccountRow → Bool
      test r = streq r.username (base64_encode username).bytes && streq r.password hash

      of_rows : List Row → Option ℤ
      of_rows [] = none
      of_rows (row ∷ rows) = some (column_int S row 0)

      id_read : Option (S.Db × Answer) → Option ℤ
      id_read none = none
      id_read (some (d, answer)) = of_rows answer.rows

      read :
          login_id S db digest username password
          ≡ of_rows (select test (λ r. int r.id ∷ []) (view db).accounts)
      read = ap id_read (
          execute_answers S view reading db select_login _ _
            (reading.with_login (base64_encode username).bytes hash db))

      known :
          (r : AccountRow)
          → first test (view db).accounts ≡ some r
          → IsKnownId (view db) (some (column_int S (int r.id ∷ []) 0))
      known r found =
          unfold has_account int_value value_at in
          any_of_Member (λ x. x.id ==ℤ r.id) r (view db).accounts
            (first-Member test (view db).accounts r found) (==ℤ_refl r.id)

  -- A post that is found stands in the table, and so does its author.
  pub post_get_by_id-IsKnown :
      (db : S.Db) (id : ℤ) → IsSound (view db) → IsKnownPost (view db) (post_get_by_id S db id)
  unfolding post_get_by_id post_from has_account has_post
  post_get_by_id-IsKnown db id sound = elim (Bool-cases (id ==ℤ negsuc 0)) [
    | inl minus_one ↦ rw minus_one tt
    | inr other ↦
        rw
          (post_get_by_id_lem S view reading db id
            (λ e. cc (other, ==ℤ_refl id, ap (λ x. id ==ℤ x) e)))
          (of_row (first (λ r. r.id ==ℤ id) (view db).posts) refl)
  ]
    where
      of_row :
          (o : Option PostRow)
          → first (λ r. r.id ==ℤ id) (view db).posts ≡ o
          → IsKnownPost (view db) (Option.map post_from o)
      of_row none found = tt
      of_row (some r) found = (
        any_of_Member (λ x. x.id ==ℤ r.id) r (view db).posts
            (first-Member (λ x. x.id ==ℤ id) (view db).posts r found) (==ℤ_refl r.id),
        (first_meets (IsPost (view db).accounts) (λ x. x.id ==ℤ id) (view db).posts r sound.posts
            found).0.known,
      )
