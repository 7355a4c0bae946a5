-- ===== src/Models/Session.antt =====
-- src/models/session.c: the sessions of accounts that are logged in. The time, the digest of
-- OpenSSL and the random text of `gen_random_dummy_string` are arguments.
pub mod Login
pub mod Reading
use facebooc.Base.{
  ℕ, Bool, Option, none, some, List, [], ◌∷◌, Bytes, codes, length, if◌then◌else◌, Run, ok, fault,
  ◌>>=◌,
}
use facebooc.Base.Int.{ℤ}
use facebooc.BasicString.{BasicString, whole}
use facebooc.Base64.{base64_encode}
use facebooc.Utility.Digest.{sha256_string}
use facebooc.Database.{
  Value, int, text, Row, Ending, done, failed, Answer, Sqlite, execute, column_int, column_text,
}

-- `Session`
pub record Session : Type 0 where
  pub id : ℤ
  pub created_at : ℤ
  pub account_id : ℤ
  pub session_id : Bytes

-- `sessionNew`, where `strdup` of NULL is a fault.
unfoldable pub session_new : ℤ → ℤ → ℤ → Option Bytes → Run Session
session_new id created_at account_id none = fault
session_new id created_at account_id (some session_id) =
    ok (record {
      id = id;
      created_at = created_at;
      account_id = account_id;
      session_id = session_id;
    })

unfoldable pub select_session : Bytes
select_session = codes "SELECT id, createdAt, account, session  FROM sessions WHERE session = ?"

unfoldable pub select_login : Bytes
select_login = codes "SELECT id  FROM accounts WHERE username = ?   AND password = ?"

unfoldable pub insert_session : Bytes
insert_session =
    codes
      "INSERT INTO sessions(createdAt, account, session)     VALUES         (        ?,       ?,       ?)"

module _ (S : Sqlite) where
  -- The first row as a session.
  unfoldable pub session_of : List Row → Run (Option Session)
  session_of [] = ok none
  session_of (row ∷ rows) = do
    s ←
        session_new (column_int S row 0) (column_int S row 1) (column_int S row 2)
          (column_text S row 3)
    ok (some s)

  -- `sessionGetBySId`
  unfoldable pub session_get_by_sid : S.Db → Bytes → Run (Option Session)
  session_get_by_sid db sid = elim (execute S db select_session (text sid ∷ [])) [
    | none ↦ ok none
    | some (db', answer) ↦ session_of answer.rows
  ]

  -- What follows the INSERT: the new session is read back.
  unfoldable pub session_stored : S.Db → Ending → Bytes → Run (S.Db × Option Session)
  session_stored db failed sid = ok (db, none)
  session_stored db done sid = do session ← session_get_by_sid db sid; ok (db, session)

  -- The INSERT for the account that the credentials gave.
  unfoldable pub session_insert : S.Db → ℤ → ℤ → Bytes → Run (S.Db × Option Session)
  session_insert db now aid sid =
      elim (execute S db insert_session (int now ∷ int aid ∷ text sid ∷ [])) [
        | none ↦ ok (db, none)
        | some (db', answer) ↦ session_stored db' answer.ending sid
      ]

  -- The id of the first account with the credentials, if there is one.
  unfoldable pub login_id : S.Db → (Bytes → Bytes) → Bytes → Bytes → Option ℤ
  login_id db digest username password =
      elim (execute S db select_login
        (text (base64_encode username).bytes ∷ text (sha256_string digest (whole password)) ∷ [])) [
          | none ↦ none
          | some (db', answer) ↦ elim answer.rows [
            | [] ↦ none
            | row ∷ rows ↦ some (column_int S row 0)
          ]
        ]

  -- `sessionCreate`, where `sid` is the text that `gen_random_dummy_string(64)` makes.
  unfoldable pub session_create :
      S.Db → (Bytes → Bytes) → ℤ → Bytes → Bytes → Bytes → Run (S.Db × Option Session)
  session_create db digest now sid username password = elim (login_id db digest username password) [
    | none ↦ ok (db, none)
    | some aid ↦ session_insert db now aid sid
  ]
