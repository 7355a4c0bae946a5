-- ===== src/Models/Post.antt =====
-- src/models/post.c: posts, which are escaped when they are stored and get their line breaks when they
-- are read.
pub mod Stored
use facebooc.Base.{
  ℕ, ◌*◌, Bool, true, false, Option, none, some, List, [], ◌∷◌, Bytes, codes, c_str, if◌then◌else◌,
}
use facebooc.Base.Int.{ℤ, pos, negsuc, ◌==ℤ◌}
use facebooc.BasicString.{BasicString, init}
use facebooc.Utility.Escape.{html_escape_trans, newline_to_br}
use facebooc.Database.{
  Value, int, text, null, Row, Ending, done, failed, Answer, Sqlite, execute, column_int,
  column_text,
}

-- `Post`
pub record Post : Type 0 where
  pub id : ℤ
  pub created_at : ℤ
  pub author_id : ℤ
  pub body : Option BasicString

-- `postNew`
unfoldable pub post_new : ℤ → ℤ → ℤ → Option Bytes → Post
post_new id created_at author_id body = record {
  id = id;
  created_at = created_at;
  author_id = author_id;
  body = some (init body);
}

-- `postNew_move`
unfoldable pub post_new_move : ℤ → ℤ → ℤ → Option BasicString → Post
post_new_move id created_at author_id body = record {
  id = id;
  created_at = created_at;
  author_id = author_id;
  body = body;
}

unfoldable pub insert_post : Bytes
insert_post =
    codes "INSERT INTO posts(createdAt, author, body)     VALUES      (        ?,      ?,    ?)"

unfoldable pub select_post : Bytes
select_post = codes "SELECT id, createdAt, author, body  FROM posts WHERE id = ?"

unfoldable pub select_posts : Bytes
select_posts =
    codes
      "SELECT id, createdAt, author, body  FROM posts WHERE author = ? ORDER BY createdAt DESC LIMIT 10 OFFSET ?"

unfoldable pub select_graph : Bytes
select_graph =
    codes
      "SELECT posts.id, posts.createdAt, posts.author, posts.body  FROM posts  LEFT OUTER JOIN connections    ON posts.author = connections.account2 WHERE connections.account1 = ?    OR posts.author = ? ORDER BY posts.createdAt DESC LIMIT 10 OFFSET ?"

-- The text of a body as a value: up to its first NUL.
unfoldable pub body_value : Option BasicString → Value
body_value none = null
body_value (some body) = text (c_str body.bytes)

module _ (S : Sqlite) where
  -- `postCreate_move`
  unfoldable pub post_create_move : S.Db → ℤ → ℤ → BasicString → S.Db
  post_create_move db now author_id body =
      elim (execute S db insert_post
        (int now ∷ int author_id ∷ body_value (html_escape_trans (some body)) ∷ [])) [
          | none ↦ db
          | some (db', answer) ↦ db'
        ]

  -- A row as a post.
  unfoldable pub post_of_row : Row → Post
  post_of_row row =
      post_new_move (column_int S row 0) (column_int S row 1) (column_int S row 2)
        (newline_to_br (some (init (column_text S row 3))))

  unfoldable pub post_of_rows : List Row → Option Post
  post_of_rows [] = none
  post_of_rows (row ∷ rows) = some (post_of_row row)

  unfoldable pub post_select : S.Db → ℤ → Option Post
  post_select db id = elim (execute S db select_post (int id ∷ [])) [
    | none ↦ none
    | some (db', answer) ↦ post_of_rows answer.rows
  ]

  -- `postGetById`
  unfoldable pub post_get_by_id : S.Db → ℤ → Option Post
  post_get_by_id db id = if id ==ℤ negsuc 0 then none else post_select db id

  -- The loop of `postGetLatest` and of `postGetLatestGraph`, which appends at the tail.
  unfoldable pub posts_of_rows : List Row → List Post
  posts_of_rows [] = []
  posts_of_rows (row ∷ rows) = post_of_row row ∷ posts_of_rows rows

  -- The posts of a statement; one that cannot be prepared gives NULL, and one that cannot be bound
  -- none.
  unfoldable pub posts_select : S.Db → Bytes → List Value → Option (List Post)
  posts_select db sql vs =
      if S.prepare db sql
      then elim (execute S db sql vs) [
        | none ↦ some []
        | some (db', answer) ↦ some (posts_of_rows answer.rows)
      ]
      else none

  -- `postGetLatest`
  unfoldable pub post_get_latest : S.Db → ℤ → ℕ → Option (List Post)
  post_get_latest db account_id page =
      if account_id ==ℤ negsuc 0
      then none
      else posts_select db select_posts (int account_id ∷ int (pos (page * 10)) ∷ [])

  -- `postGetLatestGraph`
  unfoldable pub post_get_latest_graph : S.Db → ℤ → ℕ → Option (List Post)
  post_get_latest_graph db account_id page =
      if account_id ==ℤ negsuc 0
      then none
      else posts_select db select_graph
          (int account_id ∷ int account_id ∷ int (pos (page * 10)) ∷ [])

-- `Posts_is_empty`
unfoldable pub posts_is_empty : List Post → Bool
posts_is_empty [] = true
posts_is_empty (p ∷ posts) = false
