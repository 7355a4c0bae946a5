-- ===== src/Database.antt =====
-- The database, as src/db.c and src/models use it. sqlite3 is not part of the repository: its state and
-- its functions are a parameter, with text and numbers as the values of a row. The
-- models go on with the state from before a SELECT, which changes nothing.
pub mod Tables
use facebooc.Base.{
  ℕ, zero, suc, ◌+◌, Bool, true, false, ◌&&◌, Option, none, some, List, [], ◌∷◌, Bytes,
  if◌then◌else◌,
}
use facebooc.Base.Int.{ℤ, pos}

-- A value that is bound to a statement, or that stands in a column.
pub data Value : Type 0 where
  null : Value
  int : ℤ → Value
  text : Bytes → Value

abbrev pub Row : Type 0
Row = List Value

-- How a statement ends, once it has no more rows: SQLITE_DONE, or an error.
pub data Ending : Type 0 where
  done : Ending
  failed : Ending

-- What the calls of `sqlite3_step` on one statement give in a row.
pub record Answer : Type 0 where
  pub rows : List Row
  pub ending : Ending

-- The functions of sqlite3. `prepare` and `bind` tell whether the call returns SQLITE_OK; `run` is
-- all the calls of `sqlite3_step` on a statement with its bound values, and the state after them.
pub record Sqlite : Type 1 where
  pub Db : Type 0
  pub prepare : Db → Bytes → Bool
  pub bind : Db → Bytes → ℕ → Value → Bool
  pub run : Db → Bytes → List Value → Db × Answer
  pub last_insert_rowid : Db → ℤ
  pub int_of_text : Bytes → ℤ
  pub text_of_int : ℤ → Bytes

module _ (S : Sqlite) where
  -- The parameters are bound in order, from the first one on.
  unfoldable pub bind_all : S.Db → Bytes → ℕ → List Value → Bool
  bind_all db sql i [] = true
  bind_all db sql i (v ∷ vs) = S.bind db sql i v && bind_all db sql (i + 1) vs

  -- `sqlite3_prepare_v2`, the calls of `sqlite3_bind_*` and those of `sqlite3_step`, as the models
  -- chain them: `none` is a statement that cannot be prepared or bound.
  unfoldable pub execute : S.Db → Bytes → List Value → Option (S.Db × Answer)
  execute db sql vs =
      if S.prepare db sql
      then if bind_all db sql 1 vs then some (S.run db sql vs) else none
      else none

  -- `sqlite3_column_int`: the number of a column is taken as that function gives it, of 32 bits, as all
  -- ids and times are that the models read.
  unfoldable pub int_value : Value → ℤ
  int_value null = pos 0
  int_value (int n) = n
  int_value (text t) = S.int_of_text t

  -- `sqlite3_column_text`, where `none` is NULL.
  unfoldable pub text_value : Value → Option Bytes
  text_value null = none
  text_value (int n) = some (S.text_of_int n)
  text_value (text t) = some t

-- A column of a row; one that the row lacks is NULL.
unfoldable pub value_at : Row → ℕ → Value
value_at [] i = null
value_at (v ∷ row) zero = v
value_at (v ∷ row) (suc i) = value_at row i

module _ (S : Sqlite) where
  abbrev pub column_int : Row → ℕ → ℤ
  column_int row i = int_value S (value_at row i)

  abbrev pub column_text : Row → ℕ → Option Bytes
  column_text row i = text_value S (value_at row i)
