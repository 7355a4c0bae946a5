-- ===== src/Models/Post/Stored.antt =====
-- Posts in the database: what `postCreate_move` of src/models/post.c stores, and what `postGetById`
-- makes of it.
use facebooc.Base.{
  ◌≡◌, ◌≢◌, refl, ap, ◌∙◌, Option, none, some, List, [], ◌∷◌, ◌++◌, Bytes, c_str-IsCStr, IsCStr,
  Lacks, All, arith,
}
use mathlib.Core.Option
use facebooc.Base.Int.{ℤ, negsuc, ◌==ℤ◌, ==ℤ_refl, ==ℤ_ne}
use facebooc.BasicString.{whole, init}
use facebooc.Utility.Escape.{newline_to_br, write_escapes, write_breaks}
use facebooc.Utility.Escape.Output.{
  IsSafe, write_escapes-IsCStr, html_escape_trans-write_escapes, newline_to_br-Lacks,
}
use facebooc.Database.{
  Value, int, text, Row, Answer, Sqlite, execute, int_value, text_value, value_at,
}
use facebooc.Database.Tables.{PostRow, Tables}
use facebooc.Models.Post.{
  Post, body_value, post_create_move, post_of_row, post_of_rows, post_select, post_get_by_id,
  post_new_move, insert_post, select_post,
}
use facebooc.Models.Sql.{changed, IsReading, IsWriting}
use facebooc.Models.Sql.Ready.{execute_answers}
use facebooc.Models.Sql.First.{first, first-last, select-first_row}

-- The post that is read for a row.
unfoldable pub post_from : PostRow → Post
post_from r = record {
  id = r.id;
  created_at = r.created_at;
  author_id = r.author;
  body = newline_to_br (some (init (some r.body)));
}

IsCStr-Lacks : (s : Bytes) → IsCStr s → Lacks 0 s
IsCStr-Lacks [] h = tt
IsCStr-Lacks (c ∷ s) ((some_byte, short), later) =
    (λ e. omega (arith, some_byte, e), IsCStr-Lacks s later)

module _ (S : Sqlite) where
  post_of-columns :
      (r : PostRow) (rest : List Row)
      → post_of_rows S ((int r.id ∷ int r.created_at ∷ int r.author ∷ text r.body ∷ []) ∷ rest)
        ≡ some (post_from r)
  unfolding post_of_rows post_of_row post_new_move int_value text_value value_at post_from
  post_of-columns r rest = refl

  abbrev post_read : Option (S.Db × Answer) → Option Post
  post_read none = none
  post_read (some (db, answer)) = post_of_rows S answer.rows

module _ (S : Sqlite) (view : S.Db → Tables) (reading : IsReading S view) where
  -- `postGetById` reads the post with the id.
  pub post_get_by_id_lem :
      (db : S.Db) (id : ℤ)
      → id ≢ negsuc 0
      → post_get_by_id S db id ≡ Option.map post_from (first (λ r. r.id ==ℤ id) (view db).posts)
  unfolding post_get_by_id post_select
  post_get_by_id_lem db id some_id = rw (==ℤ_ne id (negsuc 0) some_id) (
      ap (post_read S)
        (execute_answers S view reading db select_post (int id ∷ []) _ (reading.post_with id db))
      ∙ select-first_row (λ r. r.id ==ℤ id) _ (post_of_rows S) (Option.map post_from)
          (view db).posts (unfold post_of_rows in refl) (λ r rest met. post_of-columns S r rest))

module _ (S : Sqlite) (view : S.Db → Tables) (reading : IsReading S view)
    (writing : IsWriting S view) where
  module _ (db : S.Db) (now author : ℤ) (s : Bytes) (text_of : IsCStr s) where
    -- The row of a post that is made.
    abbrev pub made_post : PostRow
    made_post = record {
      id = writing.fresh_post (view db);
      created_at = now;
      author = author;
      body = write_escapes s;
    }

    values : List Value
    values = int now ∷ int author ∷ text (write_escapes s) ∷ []

    create_run : post_create_move S db now author (whole s) ≡ (S.run db insert_post values).0
    unfolding post_create_move values body_value
    create_run =
        ap (λ b. created (execute S db insert_post (int now ∷ int author ∷ body_value b ∷ [])))
          (html_escape_trans-write_escapes s).0
        ∙ ap (λ t. created (execute S db insert_post (int now ∷ int author ∷ text t ∷ [])))
            (c_str-IsCStr (write_escapes s) (write_escapes-IsCStr s text_of))
        ∙ ap created (
            execute_answers S view reading db insert_post values changed
              (writing.adds_post db now author (write_escapes s)).1)
      where
        created : Option (S.Db × Answer) → S.Db
        created none = db
        created (some (db', answer)) = db'

    inserts :
        (view (S.run db insert_post values).0
          ≡ record (view db) { posts = (view db).posts ++ made_post ∷ [] })
        × ((S.run db insert_post values).1 ≡ changed)
    unfolding values
    inserts = writing.adds_post db now author (write_escapes s)

    read_back :
        post_from made_post
        ≡ post_new_move
            (writing.fresh_post (view db))
            now
            author
            (some (whole (write_breaks (write_escapes s))))
    unfolding post_from init post_new_move
    read_back =
        ap (λ b. post_new_move (writing.fresh_post (view db)) now author b)
          (newline_to_br-Lacks (write_escapes s)
            (IsCStr-Lacks (write_escapes s) (write_escapes-IsCStr s text_of))).0

    -- Where sqlite3 answers as `IsReading` and `IsWriting` say, on a C string, and with a new id
    -- that is not -1: `postCreate_move` appends one post and changes nothing else, its body is the
    -- escaped text, which has no quote and no angle bracket, and `postGetById` gives the post with
    -- `<br>` for every newline of that text.
    pub post_create_move_lem :
        writing.fresh_post (view db) ≢ negsuc 0
        → (post_get_by_id S
              (post_create_move S db now author (whole s))
              (writing.fresh_post (view db))
            ≡ some (
                post_new_move
                  (writing.fresh_post (view db))
                  now
                  author
                  (some (whole (write_breaks (write_escapes s))))))
          × (view (post_create_move S db now author (whole s))
              ≡ record (view db) { posts = (view db).posts ++ made_post ∷ [] })
          × All IsSafe made_post.body
    post_create_move_lem some_id = (
      ap (λ d. post_get_by_id S d (writing.fresh_post (view db))) create_run
          ∙ post_get_by_id_lem S view reading _ (writing.fresh_post (view db)) some_id
          ∙ ap
              (λ t.
                Option.map post_from (first (λ r. r.id ==ℤ writing.fresh_post (view db)) t.posts))
              inserts.0
          ∙ ap (Option.map post_from) (
              first-last (λ r. r.id ==ℤ writing.fresh_post (view db)) (view db).posts made_post
                (writing.post_is_new (view db)) (==ℤ_refl (writing.fresh_post (view db))))
          ∙ ap some read_back,
      ap view create_run ∙ inserts.0,
      (html_escape_trans-write_escapes s).1,
    )
