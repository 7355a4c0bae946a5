-- ===== src/Models/Sql/Ready.antt =====
-- A database that reads and writes as the models expect: what `execute` gives.
use facebooc.Base.{
  ℕ, ◌+◌, ◌≡◌, refl, ap, ◌∙◌, inl, inr, Bool, true, not, some, List, [], ◌∷◌, Bytes, Option-cases,
}
use facebooc.Database.{Value, Row, Answer, Sqlite, execute, bind_all}
use facebooc.Database.Tables.{Tables}
use facebooc.Models.Account.{no_row}
use facebooc.Models.Sql.{select, any, selected, IsReading}
use facebooc.Models.Sql.First.{first, select-none, select-some, any_of_first, any_of_some}

module _ (S : Sqlite) (view : S.Db → Tables) (reading : IsReading S view) where
  bind_all-ready :
      (db : S.Db) (sql : Bytes) (i : ℕ) (vs : List Value) → bind_all S db sql i vs ≡ true
  unfolding bind_all
  bind_all-ready db sql i [] = refl
  bind_all-ready db sql i (v ∷ vs) =
      rw (reading.binds db sql i v) (bind_all-ready db sql (i + 1) vs)

  -- A statement is executed.
  pub execute-ready :
      (db : S.Db) (sql : Bytes) (vs : List Value) → execute S db sql vs ≡ some (S.run db sql vs)
  unfolding execute
  execute-ready db sql vs = rw (reading.prepares db sql, bind_all-ready db sql 1 vs) refl

  pub execute_answers :
      (db : S.Db) (sql : Bytes) (vs : List Value) (a : Answer)
      → (S.run db sql vs).1 ≡ a
      → execute S db sql vs ≡ some ((S.run db sql vs).0, a)
  execute_answers db sql vs a h =
      execute-ready db sql vs ∙ ap (λ x. some ((S.run db sql vs).0, x)) h

module _ (S : Sqlite) {A : Type 0} (test : A → Bool) (columns : A → Row) (xs : List A) where
  -- A SELECT has no row when no row meets its condition.
  pub no_row-select :
      (db : S.Db) → no_row S (some (db, selected (select test columns xs))) ≡ not (any test xs)
  unfolding no_row
  no_row-select db = elim (Option-cases (first test xs)) [
    | inl missing ↦ rw (select-none test columns xs missing, any_of_first test xs missing) refl
    | inr (a, found) ↦
        rw ((select-some test columns xs a found).1, any_of_some test xs a found) refl
  ]
