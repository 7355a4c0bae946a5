-- ===== src/Models/Account/Reading.antt =====
-- What the SELECTs of src/models/account.c tell about the users of a database.
use mathlib.Core.Option
use facebooc.Base.{
  ◌≡◌, ◌≢◌, refl, ap, sym, ◌∙◌, Bool, true, false, not, Option, none, some, List, [], ◌∷◌, map,
  Bytes, take, take-short, All, streq, Run, ok, arith,
}
use facebooc.Base.Int.{ℤ, negsuc, ◌==ℤ◌, eq_of_==ℤ, ==ℤ_ne}
use facebooc.BasicString.{BasicString, whole}
use facebooc.Base64.{base64_encode}
use facebooc.Base64.Injective.{IsText}
use facebooc.Utility.Digest.{sha256_string}
use facebooc.Database.{int, text, Row, Answer, Sqlite, execute, int_value, text_value, value_at}
use facebooc.Database.Tables.{AccountRow, Tables}
use facebooc.Models.Account.{
  Account, account_select, account_of_id, account_of_rows, account_of_row, account_get_by_id,
  account_get_by_email, account_check_email, account_check_username, account_auth, stored_hash,
  select_by_id, select_by_email, select_email, select_username, select_password, no_row,
}
use facebooc.Models.Account.Users.{User, row_of, account_of, IsUser, has_email, has_username, knows}
use facebooc.Models.Account.Rows.{
  encoded-whole, from_db-row_of, any_email, any_username, first_email, first_username,
}
use facebooc.Models.Sql.{any, select, selected, IsReading}
use facebooc.Models.Sql.Ready.{execute_answers, no_row-select}
use facebooc.Models.Sql.First.{first, select-map, select-first}

-- A database that holds a list of users.
pub record IsStored (S : Sqlite) (view : S.Db → Tables) (db : S.Db) (us : List User) : Type 0 where
  pub rows : (view db).accounts ≡ map row_of us
  pub users : All IsUser us

module _ {κ} {X : Type κ} (S : Sqlite) (view : S.Db → Tables) (db : S.Db) (us : List User)
    (stored : IsStored S view db us) (test : AccountRow → Bool) (columns : AccountRow → Row) where
  -- What looks at the first account of a SELECT looks at the first user who meets its condition.
  pub first_user :
      (rows_to : List Row → X) (found : Option User → X)
      → rows_to [] ≡ found none
      → ((u : User) (rest : List Row)
          → IsUser u
          → test (row_of u) ≡ true
          → rows_to (columns (row_of u) ∷ rest) ≡ found (some u))
      → rows_to (select test columns (view db).accounts) ≡ found (first (λ u. test (row_of u)) us)
  first_user rows_to found missing here =
      ap (λ rows. rows_to (select test columns rows)) stored.rows
      ∙ ap rows_to (select-map row_of test columns us)
      ∙ select-first IsUser (λ u. test (row_of u)) (λ u. columns (row_of u)) rows_to found us
          stored.users missing here

module _ (S : Sqlite) where
  -- What `account_get_by_email` does with the answer.
  abbrev email_read : Option (S.Db × Answer) → Run (Option Account)
  email_read none = ok none
  email_read (some (db, answer)) = account_of_rows S answer.rows

  abbrev id_read : ℤ → Option (S.Db × Answer) → Run (Option Account)
  id_read id none = ok none
  id_read id (some (db, answer)) = account_of_id S id answer.rows

  account_of_row-row_of :
      (u : User) (rest : List Row)
      → IsUser u
      → account_of_rows S (
          (int (row_of u).id
            ∷ int (row_of u).created_at
            ∷ text (row_of u).name
            ∷ text (row_of u).email
            ∷ text (row_of u).username
            ∷ [])
          ∷ rest)
        ≡ ok (some (account_of u))
  unfolding account_of_rows account_of_row int_value text_value value_at row_of
  account_of_row-row_of u rest user = rw (from_db-row_of u user) refl

  account_of_id-row_of :
      (u : User) (rest : List Row) (id : ℤ)
      → IsUser u
      → (row_of u).id ≡ id
      → account_of_id S id (
          (int (row_of u).created_at
            ∷ text (row_of u).name
            ∷ text (row_of u).email
            ∷ text (row_of u).username
            ∷ [])
          ∷ rest)
        ≡ ok (some (account_of u))
  unfolding account_of_id int_value text_value value_at row_of
  account_of_id-row_of u rest id user same = rw (sym same, from_db-row_of u user) refl

  -- The comparison of `account_auth` with the first column of the answer.
  abbrev auth_read : Bytes → Option (S.Db × Answer) → Bool
  auth_read hash answer = elim (stored_hash S answer) [
    | none ↦ false
    | some h ↦ streq hash (take 65 h)
  ]

  auth_read-row_of :
      (u : User) (rest : List Row) (db : S.Db) (hash : Bytes)
      → IsUser u
      → auth_read hash (some (db, selected ((text (row_of u).password ∷ []) ∷ rest)))
        ≡ streq hash u.password
  unfolding stored_hash int_value text_value value_at row_of
  auth_read-row_of u rest db hash user =
      ap (streq hash) (take-short u.password 65 (omega (arith, user.hash_length)))

module _ (S : Sqlite) (view : S.Db → Tables) (reading : IsReading S view) where
  -- `accountCheckEmail` tells whether no user has the email.
  pub account_check_email_lem :
      (db : S.Db) (us : List User) (email : Bytes)
      → IsStored S view db us
      → IsText email
      → account_check_email S db (whole email) ≡ not (has_email email us)
  unfolding account_check_email
  account_check_email_lem db us email h t =
      ap (λ v. no_row S (execute S db select_email (v ∷ []))) (encoded-whole email)
      ∙ ap (no_row S) (
          execute_answers S view reading db select_email (text (base64_encode email).bytes ∷ []) _
            (reading.with_email (base64_encode email).bytes db))
      ∙ no_row-select S (λ r. streq r.email (base64_encode email).bytes) (λ r. int r.id ∷ [])
          (view db).accounts (S.run db select_email (text (base64_encode email).bytes ∷ [])).0
      ∙ ap (λ rows. not (any (λ r. streq r.email (base64_encode email).bytes) rows)) h.rows
      ∙ ap not (any_email us h.users email t)

  -- `accountCheckUsername` tells whether no user has the username.
  pub account_check_username_lem :
      (db : S.Db) (us : List User) (username : Bytes)
      → IsStored S view db us
      → IsText username
      → account_check_username S db (whole username) ≡ not (has_username username us)
  unfolding account_check_username
  account_check_username_lem db us username h t =
      ap (λ v. no_row S (execute S db select_username (v ∷ []))) (encoded-whole username)
      ∙ ap (no_row S) (
          execute_answers S view reading db select_username
            (text (base64_encode username).bytes ∷ []) _
            (reading.with_username (base64_encode username).bytes db))
      ∙ no_row-select S (λ r. streq r.username (base64_encode username).bytes) (λ r. int r.id ∷ [])
          (view db).accounts (S.run db select_username (text (base64_encode username).bytes ∷ [])).0
      ∙ ap (λ rows. not (any (λ r. streq r.username (base64_encode username).bytes) rows)) h.rows
      ∙ ap not (any_username us h.users username t)

  -- `accountGetByEmail` reads the first user with the email.
  pub account_get_by_email_lem :
      (db : S.Db) (us : List User) (email : Bytes)
      → IsStored S view db us
      → IsText email
      → account_get_by_email S db (some (whole email))
        ≡ ok (Option.map account_of (first (λ u. streq u.email email) us))
  unfolding account_get_by_email
  account_get_by_email_lem db us email h t =
      ap (λ v. email_read S (execute S db select_by_email (v ∷ []))) (encoded-whole email)
      ∙ ap (email_read S) (
          execute_answers S view reading db select_by_email (text (base64_encode email).bytes ∷ [])
            _ (reading.by_email (base64_encode email).bytes db))
      ∙ first_user S view db us h (λ r. streq r.email (base64_encode email).bytes) _
          (account_of_rows S) (λ o. ok (Option.map account_of o)) (unfold account_of_rows in refl)
          (λ u rest user met. account_of_row-row_of S u rest user)
      ∙ ap (λ o. ok (Option.map account_of o)) (first_email us h.users email t)

  -- The SELECT by id reads the first user with the id.
  pub account_select_lem :
      (db : S.Db) (us : List User) (id : ℤ)
      → IsStored S view db us
      → account_select S db id ≡ ok (Option.map account_of (first (λ u. u.id ==ℤ id) us))
  unfolding account_select
  account_select_lem db us id h =
      ap (id_read S id)
        (execute_answers S view reading db select_by_id (int id ∷ []) _ (reading.by_id id db))
      ∙ first_user S view db us h (λ r. r.id ==ℤ id) _ (account_of_id S id)
          (λ o. ok (Option.map account_of o)) (unfold account_of_id in refl)
          (λ u rest user met.
            account_of_id-row_of S u rest id user (eq_of_==ℤ (row_of u).id id met))
      ∙ unfold row_of in refl

  -- `accountGetById`, where no user has the id -1.
  pub account_get_by_id_lem :
      (db : S.Db) (us : List User) (id : ℤ)
      → IsStored S view db us
      → id ≢ negsuc 0
      → account_get_by_id S db id ≡ ok (Option.map account_of (first (λ u. u.id ==ℤ id) us))
  unfolding account_get_by_id
  account_get_by_id_lem db us id h some_id =
      rw (==ℤ_ne id (negsuc 0) some_id) (account_select_lem db us id h)

  -- Where sqlite3 answers as `IsReading` says, on a database that stands for a list of users, and for a
  -- username that can be encoded and decoded, `account_auth` compares the digest of the password
  -- with the stored one of the first user with the username, and accepts nothing without such a user.
  pub account_auth_lem :
      (db : S.Db) (us : List User) (digest : Bytes → Bytes) (username : Bytes)
      (password : BasicString)
      → IsStored S view db us
      → IsText username
      → account_auth S db digest (some (whole username)) (some password)
        ≡ knows username (sha256_string digest password) us
  unfolding account_auth knows
  account_auth_lem db us digest username password h t =
      ap (λ v. auth_read S hash (execute S db select_password (v ∷ []))) (encoded-whole username)
      ∙ ap (auth_read S hash) (
          execute_answers S view reading db select_password
            (text (base64_encode username).bytes ∷ []) _
            (reading.password_of (base64_encode username).bytes db))
      ∙ first_user S view db us h (λ r. streq r.username (base64_encode username).bytes) _
          (λ rows. auth_read S hash (
            some (
              (S.run db select_password (text (base64_encode username).bytes ∷ [])).0,
              selected rows,
            )))
          (λ o. elim o [ none ↦ false | some u ↦ streq hash u.password ])
          (unfold stored_hash in refl) (λ u rest user met. auth_read-row_of S u rest _ hash user)
      ∙ ap (λ o. elim o [ none ↦ false | some u ↦ streq hash u.password ])
          (first_username us h.users username t)
    where
      hash : Bytes
      hash = sha256_string digest password
