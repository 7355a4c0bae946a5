-- ===== src/Models/Connection.antt =====
-- src/models/connection.c: which account follows which.
use facebooc.Base.{◌||◌, Option, none, some, List, [], ◌∷◌, Bytes, codes, if◌then◌else◌}
use facebooc.Base.Int.{ℤ, negsuc, ◌==ℤ◌}
use facebooc.Database.{int, Row, Ending, done, failed, Sqlite, execute, column_int}

-- `Connection`
pub record Connection : Type 0 where
  pub id : ℤ
  pub created_at : ℤ
  pub account1_id : ℤ
  pub account2_id : ℤ

-- `connectionNew`
unfoldable pub connection_new : ℤ → ℤ → ℤ → ℤ → Connection
connection_new id created_at account1_id account2_id = record {
  id = id;
  created_at = created_at;
  account1_id = account1_id;
  account2_id = account2_id;
}

unfoldable pub insert_connection : Bytes
insert_connection =
    codes
      "INSERT INTO connections(createdAt, account1, account2)     VALUES            (        ?,        ?,        ?)"

unfoldable pub select_connection : Bytes
select_connection =
    codes
      "SELECT id, createdAt, account1, account2  FROM connections WHERE account1 = ?   AND account2 = ?"

module _ (S : Sqlite) where
  unfoldable pub connection_stored : S.Db → Ending → ℤ → ℤ → ℤ → S.Db × Option Connection
  connection_stored db failed t account1_id account2_id = (db, none)
  connection_stored db done t account1_id account2_id =
      (db, some (connection_new (S.last_insert_rowid db) t account1_id account2_id))

  -- `connectionCreate`
  unfoldable pub connection_create : S.Db → ℤ → ℤ → ℤ → S.Db × Option Connection
  connection_create db t account1_id account2_id =
      elim (execute S db insert_connection (int t ∷ int account1_id ∷ int account2_id ∷ [])) [
        | none ↦ (db, none)
        | some (db', answer) ↦ connection_stored db' answer.ending t account1_id account2_id
      ]

  unfoldable pub connection_of : List Row → Option Connection
  connection_of [] = none
  connection_of (row ∷ rows) = some (
      connection_new (column_int S row 0) (column_int S row 1) (column_int S row 2)
        (column_int S row 3))

  unfoldable pub connection_select : S.Db → ℤ → ℤ → Option Connection
  connection_select db account1_id account2_id =
      elim (execute S db select_connection (int account1_id ∷ int account2_id ∷ [])) [
        | none ↦ none
        | some (db', answer) ↦ connection_of answer.rows
      ]

  -- `connectionGetByAccountIds`
  unfoldable pub connection_get_by_account_ids : S.Db → ℤ → ℤ → Option Connection
  connection_get_by_account_ids db account1_id account2_id =
      if (account1_id ==ℤ negsuc 0) || (account2_id ==ℤ negsuc 0)
      then none
      else connection_select db account1_id account2_id
