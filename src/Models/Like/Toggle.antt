-- ===== src/Models/Like/Toggle.antt =====
-- Liking and unliking: the operations of src/models/like.c on one post after each other.
use facebooc.Base.{
  ◌≡◌, refl, ap, ap₂, sym, ◌∙◌, Bool, true, false, ◌&&◌, Option, none, some, List, [], ◌∷◌, ◌++◌,
  arith, if◌then◌else◌,
}
use facebooc.Base.Int.{ℤ, pos, negsuc, eq_of_==ℤ, ◌==ℤ◌}
use facebooc.Database.{int, Row, Answer, Sqlite}
use facebooc.Database.Tables.{LikeRow, Tables}
use facebooc.Models.Like.{
  Like, like_create, like_delete, like_liked, like_stored, has_row, insert_like, delete_like,
  select_liked,
}
use facebooc.Models.Sql.{any, select, delete, changed, IsReading, IsWriting}
use facebooc.Models.Sql.Distinct.{any-append}
use facebooc.Models.Sql.Ready.{execute_answers}

-- Whether a row is the like of a post by an account.
unfoldable pub is_like : ℤ → ℤ → LikeRow → Bool
is_like account post r = (r.account ==ℤ account) && (r.post ==ℤ post)

-- Whether an account likes a post.
unfoldable pub likes : Tables → ℤ → ℤ → Bool
likes t account post = any (is_like account post) t.likes

-- Whether two pairs of an account and a post are the same.
unfoldable pub same_like : ℤ → ℤ → ℤ → ℤ → Bool
same_like account post a p = (account ==ℤ a) && (post ==ℤ p)

==ℤ_comm : (a b : ℤ) → (a ==ℤ b) ≡ (b ==ℤ a)
==ℤ_comm (pos m) (pos n) = ground arith
==ℤ_comm (pos m) (negsuc n) = refl
==ℤ_comm (negsuc m) (pos n) = refl
==ℤ_comm (negsuc m) (negsuc n) = ground arith

same_comm : (a p b q : ℤ) → same_like a p b q ≡ same_like b q a p
unfolding same_like
same_comm a p b q = rw (==ℤ_comm a b, ==ℤ_comm p q) refl

both : (x y : Bool) → (x && y) ≡ true → (x ≡ true) × (y ≡ true)
both true y h = (refl, h)
both false y h = absurd (cc)

-- A row that is the like of one pair is that of another when the pairs are the same.
is_like-same :
    (a p b q : ℤ) (r : LikeRow) → is_like b q r ≡ true → is_like a p r ≡ same_like b q a p
unfolding is_like same_like
is_like-same a p b q r h =
    let keys = both (r.account ==ℤ b) (r.post ==ℤ q) h in
    ap₂ (λ x y. (x ==ℤ a) && (y ==ℤ p)) (eq_of_==ℤ r.account b keys.0) (eq_of_==ℤ r.post q keys.1)

-- One row, with what is said of the others.
delete_step :
    (here gone same : Bool) (rest left : Bool)
    → (gone ≡ true → here ≡ same)
    → (here ≡ true → gone ≡ same)
    → left ≡ (if same then false else rest)
    → (if gone then left else (if here then true else left))
      ≡ (if same then false else (if here then true else rest))
delete_step here gone same rest left g h l = ground (arith, g, h, l)

any-if :
    (test : LikeRow → Bool) (gone : Bool) (r : LikeRow) (rows : List LikeRow)
    → any test (if gone then rows else r ∷ rows)
      ≡ (if gone then any test rows else (if test r then true else any test rows))
unfolding any
any-if test true r rows = refl
any-if test false r rows = refl

any-last :
    (a p : ℤ) (rows : List LikeRow) (r : LikeRow)
    → any (is_like a p) (rows ++ r ∷ [])
      ≡ (if same_like r.account r.post a p then true else any (is_like a p) rows)
unfolding any is_like same_like
any-last a p rows r =
    any-append (is_like a p) rows (r ∷ []) ∙ or_swap (any (is_like a p) rows) (is_like a p r)
  where
    or_swap :
        (x y : Bool) → (if x then true else (if y then true else false)) ≡ (if y then true else x)
    or_swap x y = ground arith

-- Deleting the rows of one pair leaves the others.
any-delete :
    (a p account post : ℤ) (rows : List LikeRow)
    → any (is_like a p) (delete (is_like account post) rows)
      ≡ (if same_like account post a p then false else any (is_like a p) rows)
unfolding any delete
any-delete a p account post [] = ground arith
any-delete a p account post (r ∷ rows) =
    any-if (is_like a p) (is_like account post r) r (delete (is_like account post) rows)
    ∙ delete_step (is_like a p r) (is_like account post r) (same_like account post a p)
        (any (is_like a p) rows) (any (is_like a p) (delete (is_like account post) rows))
        (is_like-same a p account post r)
        (λ h. is_like-same account post a p r h ∙ same_comm a p account post)
        (any-delete a p account post rows)

module _ (S : Sqlite) where
  has_row-select :
      (test : LikeRow → Bool) (columns : LikeRow → Row) (rows : List LikeRow)
      → has_row S (select test columns rows) ≡ any test rows
  unfolding has_row select any
  has_row-select test columns [] = refl
  has_row-select test columns (r ∷ rows) = ground (arith, has_row-select test columns rows)

  abbrev row_read : Option (S.Db × Answer) → Bool
  row_read none = false
  row_read (some (db, answer)) = has_row S answer.rows

module _ (S : Sqlite) (view : S.Db → Tables) (reading : IsReading S view)
    (writing : IsWriting S view) where
  -- `likeLiked` tells whether a row of the table has the account and the post.
  pub like_liked_lem :
      (db : S.Db) (account post : ℤ) → like_liked S db account post ≡ likes (view db) account post
  unfolding like_liked likes is_like
  like_liked_lem db account post =
      ap (row_read S) (
        execute_answers S view reading db select_liked (int account ∷ int post ∷ []) _
          (reading.liking account post db))
      ∙ has_row-select S (is_like account post) (λ r. int r.id ∷ []) (view db).likes

  pub create_run :
      (db : S.Db) (t account author post : ℤ)
      → (like_create S db t account author post).0
        ≡ (S.run db insert_like (int t ∷ int account ∷ int author ∷ int post ∷ [])).0
  unfolding like_create like_stored
  create_run db t account author post =
      ap (λ x. (stored x).0)
        (execute_answers S view reading db insert_like
          (int t ∷ int account ∷ int author ∷ int post ∷ []) changed
          (writing.adds_like db t account author post).1)
    where
      stored : Option (S.Db × Answer) → S.Db × Option Like
      stored none = (db, none)
      stored (some (db', answer)) = like_stored S db' answer.ending t account author post

  pub delete_run :
      (db : S.Db) (t account author post : ℤ)
      → (like_delete S db t account author post).0
        ≡ (S.run db delete_like (int account ∷ int post ∷ [])).0
  unfolding like_delete like_stored
  delete_run db t account author post =
      ap (λ x. (stored x).0)
        (execute_answers S view reading db delete_like (int account ∷ int post ∷ []) changed
          (writing.drops_likes db account post).1)
    where
      stored : Option (S.Db × Answer) → S.Db × Option Like
      stored none = (db, none)
      stored (some (db', answer)) = like_stored S db' answer.ending t account author post

  like_create_lem :
      (db : S.Db) (t account author post a p : ℤ)
      → like_liked S (like_create S db t account author post).0 a p
        ≡ (if same_like account post a p then true else like_liked S db a p)
  unfolding likes
  like_create_lem db t account author post a p =
      ap (λ d. like_liked S d a p) (create_run db t account author post)
      ∙ like_liked_lem _ a p
      ∙ ap (λ u. any (is_like a p) u.likes) (writing.adds_like db t account author post).0
      ∙ any-last a p (view db).likes row
      ∙ ap (λ b. if same_like account post a p then true else b) (sym (like_liked_lem db a p))
    where
      row : LikeRow
      row = record {
        id = writing.fresh_like (view db);
        created_at = t;
        account = account;
        author = author;
        post = post;
      }

  like_delete_lem :
      (db : S.Db) (t account author post a p : ℤ)
      → like_liked S (like_delete S db t account author post).0 a p
        ≡ (if same_like account post a p then false else like_liked S db a p)
  unfolding likes is_like
  like_delete_lem db t account author post a p =
      ap (λ d. like_liked S d a p) (delete_run db t account author post)
      ∙ like_liked_lem _ a p
      ∙ ap (λ u. any (is_like a p) u.likes) (writing.drops_likes db account post).0
      ∙ any-delete a p account post (view db).likes
      ∙ ap (λ b. if same_like account post a p then false else b) (sym (like_liked_lem db a p))

  -- Where sqlite3 answers as `IsReading` and `IsWriting` say: after `likeCreate` the account likes the
  -- post, after `likeDelete` it does not, and all other likes are as before.
  pub like_liked-after :
      (db : S.Db) (t account author post a p : ℤ)
      → (like_liked S (like_create S db t account author post).0 a p
          ≡ (if same_like account post a p then true else like_liked S db a p))
        × (like_liked S (like_delete S db t account author post).0 a p
            ≡ (if same_like account post a p then false else like_liked S db a p))
  like_liked-after db t account author post a p =
      (like_create_lem db t account author post a p, like_delete_lem db t account author post a p)
