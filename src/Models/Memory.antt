-- ===== src/Models/Memory.antt =====
-- A database of tables in memory that does what src/models asks of sqlite3: the assumptions on the
-- statements can be met.
pub mod Laws
use facebooc.Base.{
  ℕ, suc, ◌≡◌, ◌≢◌, ◌≤◌, refl, Bool, true, false, ◌&&◌, List, [], ◌∷◌, ◌++◌, Bytes, streq,
  if◌then◌else◌, ltb, arith,
}
use facebooc.Base.Int.{ℤ, pos, negsuc, ◌==ℤ◌}
use facebooc.Database.{Value, int, text, Answer, Sqlite}
use facebooc.Database.Tables.{Tables}
use facebooc.Models.Session.{select_session, select_login, insert_session}
use facebooc.Models.Account.{
  select_by_id, insert_account, select_by_email, select_username, select_email, select_password,
}
use facebooc.Models.Connection.{insert_connection, select_connection}
use facebooc.Models.Like.{insert_like, delete_like, select_liked}
use facebooc.Models.Post.{insert_post, select_post}
use facebooc.Models.Sql.{select, delete, any, selected, changed, refused, IsReading, IsWriting}

-- One more than every id of a table.
abbrev above : ℤ → ℕ → ℕ
above (pos n) m = if ltb n m then m else suc n
above (negsuc n) m = m

module _ {ℓ} {A : Type ℓ} (id_of : A → ℤ) where
  next_id : List A → ℕ
  next_id [] = 1
  next_id (r ∷ rows) = above (id_of r) (next_id rows)

-- A statement: its parameters, and what it does.
abbrev Statement : Type 0
Statement = Tables → List Value → Tables × Answer

find : List (Bytes × Statement) → Bytes → Statement
find [] sql t vs = (t, refused)
find ((s, st) ∷ rest) sql t vs =
    let other = find rest sql t vs in if streq sql s then st t vs else other

by_id : Statement
by_id t (int id ∷ []) = (
  t,
  selected (
      select (λ r. r.id ==ℤ id)
        (λ r. int r.created_at ∷ text r.name ∷ text r.email ∷ text r.username ∷ []) t.accounts),
)
by_id t vs = (t, refused)

by_email : Statement
by_email t (text email ∷ []) = (
  t,
  selected (
      select (λ r. streq r.email email)
        (λ r. int r.id ∷ int r.created_at ∷ text r.name ∷ text r.email ∷ text r.username ∷ [])
        t.accounts),
)
by_email t vs = (t, refused)

with_username : Statement
with_username t (text username ∷ []) =
    (t, selected (select (λ r. streq r.username username) (λ r. int r.id ∷ []) t.accounts))
with_username t vs = (t, refused)

with_email : Statement
with_email t (text email ∷ []) =
    (t, selected (select (λ r. streq r.email email) (λ r. int r.id ∷ []) t.accounts))
with_email t vs = (t, refused)

password_of : Statement
password_of t (text username ∷ []) =
    (t, selected (select (λ r. streq r.username username) (λ r. text r.password ∷ []) t.accounts))
password_of t vs = (t, refused)

with_login : Statement
with_login t (text username ∷ text password ∷ []) = (
  t,
  selected (
      select (λ r. streq r.username username && streq r.password password) (λ r. int r.id ∷ [])
        t.accounts),
)
with_login t vs = (t, refused)

with_session : Statement
with_session t (text sid ∷ []) = (
  t,
  selected (
      select (λ r. streq r.session sid)
        (λ r. int r.id ∷ int r.created_at ∷ int r.account ∷ text r.session ∷ []) t.sessions),
)
with_session t vs = (t, refused)

connecting : Statement
connecting t (int a ∷ int b ∷ []) = (
  t,
  selected (
      select (λ r. (r.account1 ==ℤ a) && (r.account2 ==ℤ b))
        (λ r. int r.id ∷ int r.created_at ∷ int r.account1 ∷ int r.account2 ∷ []) t.connections),
)
connecting t vs = (t, refused)

liking : Statement
liking t (int a ∷ int p ∷ []) =
    (t, selected (select (λ r. (r.account ==ℤ a) && (r.post ==ℤ p)) (λ r. int r.id ∷ []) t.likes))
liking t vs = (t, refused)

post_with : Statement
post_with t (int id ∷ []) = (
  t,
  selected (
      select (λ r. r.id ==ℤ id) (λ r. int r.id ∷ int r.created_at ∷ int r.author ∷ text r.body ∷ [])
        t.posts),
)
post_with t vs = (t, refused)

fresh {ℓ} : {A : Type ℓ} → (A → ℤ) → List A → ℤ
unfolding next_id
fresh id_of rows = pos (next_id id_of rows)

append_account : Statement
append_account t (int now ∷ text name ∷ text email ∷ text username ∷ text password ∷ []) =
    if any (λ r. streq r.email email) t.accounts then (t, refused) else (
      record t {
        accounts =
            t.accounts
            ++ record {
              id = fresh (λ r. r.id) t.accounts;
              created_at = now;
              name = name;
              username = username;
              email = email;
              password = password;
            }
              ∷ [];
      },
      changed,
    )
append_account t vs = (t, refused)

append_session : Statement
append_session t (int now ∷ int account ∷ text sid ∷ []) = (
  record t {
    sessions =
        t.sessions
        ++ record {
          id = fresh (λ r. r.id) t.sessions;
          created_at = now;
          account = account;
          session = sid;
        }
          ∷ [];
  },
  changed,
)
append_session t vs = (t, refused)

append_connection : Statement
append_connection t (int now ∷ int a ∷ int b ∷ []) = (
  record t {
    connections =
        t.connections
        ++ record {
          id = fresh (λ r. r.id) t.connections;
          created_at = now;
          account1 = a;
          account2 = b;
        }
          ∷ [];
  },
  changed,
)
append_connection t vs = (t, refused)

append_like : Statement
append_like t (int now ∷ int account ∷ int author ∷ int post ∷ []) = (
  record t {
    likes =
        t.likes
        ++ record {
          id = fresh (λ r. r.id) t.likes;
          created_at = now;
          account = account;
          author = author;
          post = post;
        }
          ∷ [];
  },
  changed,
)
append_like t vs = (t, refused)

append_post : Statement
append_post t (int now ∷ int author ∷ text body ∷ []) = (
  record t {
    posts =
        t.posts
        ++ record { id = fresh (λ r. r.id) t.posts; created_at = now; author = author; body = body }
          ∷ [];
  },
  changed,
)
append_post t vs = (t, refused)

remove_likes : Statement
remove_likes t (int account ∷ int post ∷ []) = (
  record t { likes = delete (λ r. (r.account ==ℤ account) && (r.post ==ℤ post)) t.likes },
  changed,
)
remove_likes t vs = (t, refused)

statements : List (Bytes × Statement)
unfolding by_id by_email with_username with_email password_of with_login with_session connecting
    liking post_with append_account append_session append_connection append_like append_post
    remove_likes
statements =
    (select_by_id, by_id)
    ∷ (select_by_email, by_email)
    ∷ (select_username, with_username)
    ∷ (select_email, with_email)
    ∷ (select_password, password_of)
    ∷ (select_login, with_login)
    ∷ (select_session, with_session)
    ∷ (select_connection, connecting)
    ∷ (select_liked, liking)
    ∷ (select_post, post_with)
    ∷ (insert_account, append_account)
    ∷ (insert_session, append_session)
    ∷ (insert_connection, append_connection)
    ∷ (insert_like, append_like)
    ∷ (insert_post, append_post)
    ∷ (delete_like, remove_likes)
    ∷ []

-- Finding a statement by its text is by evaluation.
unfoldable pub run_memory : Tables → Bytes → List Value → Tables × Answer
unfolding find statements fresh select_by_id select_by_email select_username select_email
    select_password select_login select_session select_connection select_liked select_post
    insert_account insert_session insert_connection insert_like insert_post delete_like streq
run_memory db sql vs = find statements sql db vs

abbrev pub memory : Sqlite
memory = record {
  Db = Tables;
  prepare = λ db sql. true;
  bind = λ db sql i v. true;
  run = run_memory;
  last_insert_rowid = λ db. pos 0;
  int_of_text = λ t. pos 0;
  text_of_int = λ n. [];
}
