-- ===== src/Models/Sql.antt =====
-- What the statements of src/models mean for the tables of src/db.c: the documented behaviour of
-- sqlite3 that the models rely on, over a view of its state as tables.
pub mod Distinct
pub mod First
pub mod Ready
use facebooc.Base.{
  ℕ, suc, ◌+◌, ◌≡◌, Bool, true, false, ◌&&◌, not, List, [], ◌∷◌, ◌++◌, Bytes, streq, if◌then◌else◌,
}
use facebooc.Base.Int.{ℤ, pos, negsuc, ◌==ℤ◌}
use facebooc.Database.{Value, int, text, Row, Ending, done, failed, Answer, Sqlite}
use facebooc.Database.Tables.{AccountRow, SessionRow, ConnectionRow, PostRow, LikeRow, Tables}
use facebooc.Models.Session.{select_session, select_login, insert_session}
use facebooc.Models.Account.{
  select_by_id, insert_account, select_by_email, select_username, select_email, select_password,
}
use facebooc.Models.Connection.{insert_connection, select_connection}
use facebooc.Models.Like.{insert_like, delete_like, select_liked}
use facebooc.Models.Post.{insert_post, select_post}

module _ {ℓ} {A : Type ℓ} where
  -- `SELECT`: the columns of the rows that meet the condition.
  unfoldable pub select : (A → Bool) → (A → Row) → List A → List Row
  select where_ columns [] = []
  select where_ columns (r ∷ rows) =
      let rest = select where_ columns rows in if where_ r then columns r ∷ rest else rest

  -- `DELETE`
  unfoldable pub delete : (A → Bool) → List A → List A
  delete where_ [] = []
  delete where_ (r ∷ rows) = let rest = delete where_ rows in if where_ r then rest else r ∷ rest

  -- Whether a row meets the condition.
  unfoldable pub any : (A → Bool) → List A → Bool
  any where_ [] = false
  any where_ (r ∷ rows) = if where_ r then true else any where_ rows

-- The rows of a SELECT, and an INSERT or a DELETE that is done or not.
abbrev pub selected : List Row → Answer
selected rows = record { rows = rows; ending = done }

abbrev pub changed : Answer
changed = record { rows = []; ending = done }

abbrev pub refused : Answer
refused = record { rows = []; ending = failed }

module _ (S : Sqlite) (view : S.Db → Tables) where
  -- A SELECT answers with rows.
  abbrev pub Selects : Bytes → List Value → (Tables → List Row) → Type 0
  Selects sql vs rows = (db : S.Db) → (S.run db sql vs).1 ≡ selected (rows (view db))

  -- Statements can be prepared and bound, and the SELECTs give the rows that they ask for.
  pub record IsReading : Type 0 where
    pub prepares : (db : S.Db) (sql : Bytes) → S.prepare db sql ≡ true
    pub binds : (db : S.Db) (sql : Bytes) (i : ℕ) (v : Value) → S.bind db sql i v ≡ true
    pub by_id :
        (id : ℤ)
        → Selects select_by_id (int id ∷ []) (λ t.
          select
            (λ r. r.id ==ℤ id)
            (λ r. int r.created_at ∷ text r.name ∷ text r.email ∷ text r.username ∷ [])
            t.accounts)
    pub by_email :
        (email : Bytes)
        → Selects select_by_email (text email ∷ []) (λ t.
          select
            (λ r. streq r.email email)
            (λ r. int r.id ∷ int r.created_at ∷ text r.name ∷ text r.email ∷ text r.username ∷ [])
            t.accounts)
    pub with_username :
        (username : Bytes)
        → Selects select_username
            (text username ∷ [])
            (λ t. select (λ r. streq r.username username) (λ r. int r.id ∷ []) t.accounts)
    pub with_email :
        (email : Bytes)
        → Selects select_email
            (text email ∷ [])
            (λ t. select (λ r. streq r.email email) (λ r. int r.id ∷ []) t.accounts)
    pub password_of :
        (username : Bytes)
        → Selects select_password
            (text username ∷ [])
            (λ t. select (λ r. streq r.username username) (λ r. text r.password ∷ []) t.accounts)
    pub with_login :
        (username password : Bytes)
        → Selects select_login (text username ∷ text password ∷ []) (λ t.
          select
            (λ r. streq r.username username && streq r.password password)
            (λ r. int r.id ∷ [])
            t.accounts)
    pub with_session :
        (sid : Bytes)
        → Selects select_session (text sid ∷ []) (λ t.
          select
            (λ r. streq r.session sid)
            (λ r. int r.id ∷ int r.created_at ∷ int r.account ∷ text r.session ∷ [])
            t.sessions)
    pub connecting :
        (a b : ℤ)
        → Selects select_connection (int a ∷ int b ∷ []) (λ t.
          select
            (λ r. (r.account1 ==ℤ a) && (r.account2 ==ℤ b))
            (λ r. int r.id ∷ int r.created_at ∷ int r.account1 ∷ int r.account2 ∷ [])
            t.connections)
    pub liking :
        (a p : ℤ)
        → Selects select_liked
            (int a ∷ int p ∷ [])
            (λ t. select (λ r. (r.account ==ℤ a) && (r.post ==ℤ p)) (λ r. int r.id ∷ []) t.likes)
    pub post_with :
        (id : ℤ)
        → Selects select_post (int id ∷ []) (λ t.
          select
            (λ r. r.id ==ℤ id)
            (λ r. int r.id ∷ int r.created_at ∷ int r.author ∷ text r.body ∷ [])
            t.posts)

  -- What a statement does to the tables, with its answer.
  abbrev pub Does : S.Db → Bytes → List Value → Tables → Answer → Type 0
  Does db sql vs t a = (view (S.run db sql vs).0 ≡ t) × ((S.run db sql vs).1 ≡ a)

  -- The INSERTs append a row whose id no row of the table has, which is the rowid after it, and an
  -- account with an email that stands in the table is refused. DELETE takes out the rows it names.
  pub record IsWriting : Type 0 where
    pub fresh_account : Tables → ℤ
    pub fresh_session : Tables → ℤ
    pub fresh_connection : Tables → ℤ
    pub fresh_post : Tables → ℤ
    pub fresh_like : Tables → ℤ
    pub account_is_new : (t : Tables) → any (λ r. r.id ==ℤ fresh_account t) t.accounts ≡ false
    pub post_is_new : (t : Tables) → any (λ r. r.id ==ℤ fresh_post t) t.posts ≡ false
    pub adds_account :
        (db : S.Db) (now : ℤ) (name email username password : Bytes)
        → any (λ r. streq r.email email) (view db).accounts ≡ false
        → Does db insert_account
            (int now ∷ text name ∷ text email ∷ text username ∷ text password ∷ [])
            (record (view db) {
              accounts =
                  (view db).accounts
                  ++ record {
                    id = fresh_account (view db);
                    created_at = now;
                    name = name;
                    username = username;
                    email = email;
                    password = password;
                  }
                    ∷ [];
            })
            changed
    pub refuses_account :
        (db : S.Db) (now : ℤ) (name email username password : Bytes)
        → any (λ r. streq r.email email) (view db).accounts ≡ true
        → Does db insert_account
            (int now ∷ text name ∷ text email ∷ text username ∷ text password ∷ [])
            (view db)
            refused
    pub adds_session :
        (db : S.Db) (now account : ℤ) (sid : Bytes)
        → Does db insert_session
            (int now ∷ int account ∷ text sid ∷ [])
            (record (view db) {
              sessions =
                  (view db).sessions
                  ++ record {
                    id = fresh_session (view db);
                    created_at = now;
                    account = account;
                    session = sid;
                  }
                    ∷ [];
            })
            changed
    pub adds_connection :
        (db : S.Db) (now a b : ℤ)
        → Does db insert_connection
            (int now ∷ int a ∷ int b ∷ [])
            (record (view db) {
              connections =
                  (view db).connections
                  ++ record {
                    id = fresh_connection (view db);
                    created_at = now;
                    account1 = a;
                    account2 = b;
                  }
                    ∷ [];
            })
            changed
    pub adds_like :
        (db : S.Db) (now account author post : ℤ)
        → Does db insert_like
            (int now ∷ int account ∷ int author ∷ int post ∷ [])
            (record (view db) {
              likes =
                  (view db).likes
                  ++ record {
                    id = fresh_like (view db);
                    created_at = now;
                    account = account;
                    author = author;
                    post = post;
                  }
                    ∷ [];
            })
            changed
    pub drops_likes :
        (db : S.Db) (account post : ℤ)
        → Does db delete_like
            (int account ∷ int post ∷ [])
            (record (view db) {
              likes = delete (λ r. (r.account ==ℤ account) && (r.post ==ℤ post)) (view db).likes;
            })
            changed
    pub adds_post :
        (db : S.Db) (now author : ℤ) (body : Bytes)
        → Does db insert_post
            (int now ∷ int author ∷ text body ∷ [])
            (record (view db) {
              posts =
                  (view db).posts
                  ++ record {
                    id = fresh_post (view db);
                    created_at = now;
                    author = author;
                    body = body;
                  }
                    ∷ [];
            })
            changed
