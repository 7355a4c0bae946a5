-- ===== src/Models/Like.antt =====
-- src/models/like.c: which account likes which post.
pub mod Toggle
use facebooc.Base.{
  Bool, true, false, Option, none, some, List, [], ◌∷◌, Bytes, codes, if◌then◌else◌,
}
use facebooc.Base.Int.{ℤ}
use facebooc.Database.{Value, int, Row, Ending, done, failed, Answer, Sqlite, execute}

-- `Like`
pub record Like : Type 0 where
  pub id : ℤ
  pub created_at : ℤ
  pub account_id : ℤ
  pub author_id : ℤ
  pub post_id : ℤ

-- `likeNew`
unfoldable pub like_new : ℤ → ℤ → ℤ → ℤ → ℤ → Like
like_new id created_at account_id author_id post_id = record {
  id = id;
  created_at = created_at;
  account_id = account_id;
  author_id = author_id;
  post_id = post_id;
}

unfoldable pub insert_like : Bytes
insert_like =
    codes
      "INSERT INTO likes(createdAt, account, author, post)     VALUES      (        ?,       ?,      ?,    ?)"

unfoldable pub delete_like : Bytes
delete_like = codes "DELETE FROM likes WHERE account = ?   AND post = ?"

unfoldable pub select_liked : Bytes
select_liked = codes "SELECT id  FROM likes WHERE account = ?   AND post = ?"

module _ (S : Sqlite) where
  unfoldable pub like_stored : S.Db → Ending → ℤ → ℤ → ℤ → ℤ → S.Db × Option Like
  like_stored db failed t account_id author_id post_id = (db, none)
  like_stored db done t account_id author_id post_id =
      (db, some (like_new (S.last_insert_rowid db) t account_id author_id post_id))

  -- `likeCreate`
  unfoldable pub like_create : S.Db → ℤ → ℤ → ℤ → ℤ → S.Db × Option Like
  like_create db t account_id author_id post_id =
      elim (execute S db insert_like (int t ∷ int account_id ∷ int author_id ∷ int post_id ∷ [])) [
        | none ↦ (db, none)
        | some (db', answer) ↦ like_stored db' answer.ending t account_id author_id post_id
      ]

  -- `likeDelete`
  unfoldable pub like_delete : S.Db → ℤ → ℤ → ℤ → ℤ → S.Db × Option Like
  like_delete db t account_id author_id post_id =
      elim (execute S db delete_like (int account_id ∷ int post_id ∷ [])) [
        | none ↦ (db, none)
        | some (db', answer) ↦ like_stored db' answer.ending t account_id author_id post_id
      ]

  unfoldable pub has_row : List Row → Bool
  has_row [] = false
  has_row (row ∷ rows) = true

  -- `likeLiked`
  unfoldable pub like_liked : S.Db → ℤ → ℤ → Bool
  like_liked db account_id post_id =
      elim (execute S db select_liked (int account_id ∷ int post_id ∷ [])) [
        | none ↦ false
        | some (db', answer) ↦ has_row answer.rows
      ]
