-- ===== src/Models/Account.antt =====
-- src/models/account.c: the accounts of the users. Names, emails and usernames stand in the database in
-- base64. The time and the digest of OpenSSL are arguments.
pub mod Reading
pub mod Rows
pub mod Unique
pub mod Users
pub mod Writing
use facebooc.Base.{
  ℕ, ◌*◌, Bool, true, false, Option, none, some, List, [], ◌∷◌, ◌++◌, Bytes, codes, length, take,
  streq, if◌then◌else◌, Run, ok, fault, ◌>>=◌,
}
use facebooc.Base.Int.{ℤ, pos, negsuc, ◌==ℤ◌}
use facebooc.BasicString.{BasicString, whole, init}
use facebooc.Base64.{base64_encode, base64_decode2str}
use facebooc.Utility.Digest.{sha256_string}
use facebooc.Database.{
  Value, int, text, Row, Ending, done, failed, Answer, Sqlite, execute, column_int, column_text,
}
use facebooc.Models.Session.{Session, session_get_by_sid}

-- `Account`
pub record Account : Type 0 where
  pub id : ℤ
  pub created_at : ℤ
  pub name : BasicString
  pub email : BasicString
  pub username : BasicString

-- `accountNew`
unfoldable pub account_new : ℤ → ℤ → Option Bytes → Option Bytes → Option Bytes → Account
account_new id created_at name email username = record {
  id = id;
  created_at = created_at;
  name = init name;
  email = init email;
  username = init username;
}

-- `accountNew_move`
unfoldable pub account_new_move : ℤ → ℤ → BasicString → BasicString → BasicString → Account
account_new_move id created_at name email username = record {
  id = id;
  created_at = created_at;
  name = name;
  email = email;
  username = username;
}

-- A column in base64, decoded; `strlen` of NULL is a fault.
unfoldable pub decoded : Option Bytes → Run BasicString
decoded none = fault
decoded (some t) = base64_decode2str (whole t)

-- `new_Account_from_db__`
unfoldable pub account_from_db : ℤ → ℤ → Option Bytes → Option Bytes → Option Bytes → Run Account
account_from_db id created_at name email username = do
  n ← decoded name
  e ← decoded email
  u ← decoded username
  ok (account_new_move id created_at n e u)

-- The content of a string as `base64_encode` reads it.
unfoldable pub encoded : BasicString → Value
encoded s = text (base64_encode (take s.size s.bytes)).bytes

unfoldable pub select_by_id : Bytes
select_by_id = codes "SELECT createdAt, name, email, username  FROM accounts WHERE id = ?"

unfoldable pub insert_account : Bytes
insert_account =
    codes
      "INSERT INTO accounts(createdAt, name, email, username, password)     VALUES         (        ?,    ?,     ?,        ?,        ?)"

unfoldable pub select_by_email : Bytes
select_by_email = codes "SELECT id, createdAt, name, email, username  FROM accounts WHERE email = ?"

unfoldable pub select_like : Bytes
select_like =
    codes
      "SELECT id, createdAt, name, email, username  FROM accounts WHERE name     LIKE '%' || ? || '%'    OR email    LIKE '%' || ? || '%'    OR username LIKE '%' || ? || '%' ORDER BY createdAt DESC LIMIT 10 OFFSET ?"

unfoldable pub select_username : Bytes
select_username = codes "SELECT id FROM accounts WHERE username = ?"

unfoldable pub select_email : Bytes
select_email = codes "SELECT id FROM accounts WHERE email = ?"

unfoldable pub select_password : Bytes
select_password = codes "SELECT password FROM accounts WHERE username = ?"

-- A page of ten rows.
unfoldable pub page_offset : ℕ → ℤ
page_offset page = pos (page * 10)

module _ (S : Sqlite) where
  -- The first row of `select_by_id` as an account.
  unfoldable pub account_of_id : ℤ → List Row → Run (Option Account)
  account_of_id id [] = ok none
  account_of_id id (row ∷ rows) = do
    a ←
        account_from_db id (column_int S row 0) (column_text S row 1) (column_text S row 2)
          (column_text S row 3)
    ok (some a)

  -- A row with the id as an account.
  unfoldable pub account_of_row : Row → Run Account
  account_of_row row =
      account_from_db (column_int S row 0) (column_int S row 1) (column_text S row 2)
        (column_text S row 3) (column_text S row 4)

  unfoldable pub account_of_rows : List Row → Run (Option Account)
  account_of_rows [] = ok none
  account_of_rows (row ∷ rows) = do a ← account_of_row row; ok (some a)

  -- The SELECT by id, as `accountGetById` and `accountGetBySId` make it.
  unfoldable pub account_select : S.Db → ℤ → Run (Option Account)
  account_select db id = elim (execute S db select_by_id (int id ∷ [])) [
    | none ↦ ok none
    | some (db', answer) ↦ account_of_id id answer.rows
  ]

  -- `accountGetById`
  unfoldable pub account_get_by_id : S.Db → ℤ → Run (Option Account)
  account_get_by_id db id = if id ==ℤ negsuc 0 then ok none else account_select db id

  -- `accountGetByEmail`, where NULL is `none`.
  unfoldable pub account_get_by_email : S.Db → Option BasicString → Run (Option Account)
  account_get_by_email db none = ok none
  account_get_by_email db (some email) = elim (execute S db select_by_email (encoded email ∷ [])) [
    | none ↦ ok none
    | some (db', answer) ↦ account_of_rows answer.rows
  ]

  -- `accountGetBySId`
  unfoldable pub account_get_by_sid : S.Db → Option BasicString → Run (Option Account)
  account_get_by_sid db none = ok none
  account_get_by_sid db (some sid) = do
    session ← session_get_by_sid S db sid.bytes
    elim session [ none ↦ ok none | some s ↦ account_select db s.account_id ]

  -- What follows the INSERT: the new account is read back by its email.
  unfoldable pub account_stored : S.Db → Ending → BasicString → Run (S.Db × Option Account)
  account_stored db failed email = ok (db, none)
  account_stored db done email = do account ← account_get_by_email db (some email); ok (db, account)

  -- `accountCreate`
  unfoldable pub account_create :
      S.Db
      → (Bytes → Bytes)
      → ℤ
      → BasicString
      → BasicString
      → BasicString
      → BasicString
      → Run (S.Db × Option Account)
  account_create db digest now name email username password =
      elim (execute S db insert_account (
        int now
        ∷ encoded name
        ∷ encoded email
        ∷ encoded username
        ∷ text (sha256_string digest password)
        ∷ [])) [
          | none ↦ ok (db, none)
          | some (db', answer) ↦ account_stored db' answer.ending email
        ]

  -- The loop of `accountSearch`, which appends at the tail.
  unfoldable pub accounts_of_rows : List Row → Run (List Account)
  accounts_of_rows [] = ok []
  accounts_of_rows (row ∷ rows) = do
    a ← account_of_row row
    more ← accounts_of_rows rows
    ok (a ∷ more)

  -- `accountSearch`
  unfoldable pub account_search : S.Db → Option BasicString → ℕ → Run (Option (List Account))
  account_search db none page = ok none
  account_search db (some query) page =
      elim (execute S db select_like
        (encoded query ∷ encoded query ∷ encoded query ∷ int (page_offset page) ∷ [])) [
          | none ↦ ok (some [])
          | some (db', answer) ↦ do accounts ← accounts_of_rows answer.rows; ok (some accounts)
        ]

  -- `sqlite3_step(statement) != SQLITE_ROW`
  unfoldable pub no_row : Option (S.Db × Answer) → Bool
  no_row none = false
  no_row (some (db, answer)) = elim answer.rows [ [] ↦ true | row ∷ rows ↦ false ]

  -- `accountCheckUsername`
  unfoldable pub account_check_username : S.Db → BasicString → Bool
  account_check_username db username = no_row (execute S db select_username (encoded username ∷ []))

  -- `accountCheckEmail`
  unfoldable pub account_check_email : S.Db → BasicString → Bool
  account_check_email db email = no_row (execute S db select_email (encoded email ∷ []))

  -- The hash in the first column of the current row; without a row the column is NULL.
  unfoldable pub stored_hash : Option (S.Db × Answer) → Option Bytes
  stored_hash none = none
  stored_hash (some (db, answer)) = elim answer.rows [
    | [] ↦ none
    | row ∷ rows ↦ column_text S row 0
  ]

  -- `account_auth`, whose `strncmp` looks at 65 bytes.
  unfoldable pub account_auth :
      S.Db → (Bytes → Bytes) → Option BasicString → Option BasicString → Bool
  account_auth db digest none password = false
  account_auth db digest (some username) none = false
  account_auth db digest (some username) (some password) =
      elim (stored_hash (execute S db select_password (encoded username ∷ []))) [
        | none ↦ false
        | some hash ↦ streq (sha256_string digest password) (take 65 hash)
      ]

-- `accounts_is_empty`
unfoldable pub accounts_is_empty : List Account → Bool
accounts_is_empty [] = true
accounts_is_empty (a ∷ accounts) = false
