-- ===== src/Handler/Actions.antt =====
-- The handlers that change the database and redirect: src/handler/connect.c, src/handler/like.c and
-- src/handler/post.c. The time is an argument.
use facebooc.Base.{
  ℕ, Bool, true, false, Option, none, some, codes, ltb, ◌==◌, if◌then◌else◌, Run, ok, ◌>>=◌,
}
use facebooc.Base.Int.{ℤ}
use facebooc.BasicString.{BasicString, init}
use facebooc.Http.Body.{body_get}
use facebooc.Http.Form.{query_get}
use facebooc.Database.{Sqlite}
use facebooc.Models.Account.{Account, account_get_by_id}
use facebooc.Models.Connection.{connection_create}
use facebooc.Models.Like.{like_create, like_delete}
use facebooc.Models.Post.{Post, post_get_by_id, post_create_move}
use facebooc.Request.{Method, post, Request}
use facebooc.Response.{Response, response_new_redirect}
use facebooc.Handler.Account.{get_account, get_id, profile_path}

-- `req->method == POST`
unfoldable pub is_post : Method → Bool
is_post post = true
is_post other = false

-- `MAX_BODY_LEN`
abbrev pub max_body_len : ℕ
max_body_len = 65536

abbrev pub to_dashboard : Response
to_dashboard = response_new_redirect (codes "/dashboard/")

module _ (S : Sqlite) where
  -- The connection to the account that is found.
  unfoldable pub connect_to : S.Db → ℤ → Account → Option Account → S.Db × Response
  connect_to db now me none = (db, to_dashboard)
  connect_to db now me (some account) = (
    (connection_create S db now me.id account.id).0,
    response_new_redirect (profile_path account.id),
  )

  -- `connect`
  unfoldable pub connect_handler : S.Db → ℤ → Request → Run (S.Db × Response)
  connect_handler db now req = do
    my_acc ← get_account S db req.cookies
    elim my_acc [
      | none ↦ ok (db, to_dashboard)
      | some me ↦ do
        id ← get_id req.uri
        account ← account_get_by_id S db id
        ok (connect_to db now me account)
    ]

  -- Where the page of a like was: `r` in the query string asks for the author's profile.
  unfoldable pub back_to : Request → Post → Response
  back_to req p = elim (query_get req.query_string (codes "r")) [
    | none ↦ to_dashboard
    | some r ↦ response_new_redirect (profile_path p.author_id)
  ]

  unfoldable pub like_post : S.Db → ℤ → Request → Account → Option Post → S.Db × Response
  like_post db now req me none = (db, to_dashboard)
  like_post db now req me (some p) =
      ((like_create S db now me.id p.author_id p.id).0, back_to req p)

  unfoldable pub unlike_post : S.Db → ℤ → Request → Account → Option Post → S.Db × Response
  unlike_post db now req me none = (db, to_dashboard)
  unlike_post db now req me (some p) =
      ((like_delete S db now me.id p.author_id p.id).0, back_to req p)

  -- `like`
  unfoldable pub like_handler : S.Db → ℤ → Request → Run (S.Db × Response)
  like_handler db now req = do
    my_acc ← get_account S db req.cookies
    elim my_acc [
      | none ↦ ok (db, to_dashboard)
      | some me ↦ do id ← get_id req.uri; ok (like_post db now req me (post_get_by_id S db id))
    ]

  -- `unlike`
  unfoldable pub unlike_handler : S.Db → ℤ → Request → Run (S.Db × Response)
  unlike_handler db now req = do
    my_acc ← get_account S db req.cookies
    elim my_acc [
      | none ↦ ok (db, to_dashboard)
      | some me ↦ do id ← get_id req.uri; ok (unlike_post db now req me (post_get_by_id S db id))
    ]

  -- A post that is not empty and not too long.
  unfoldable pub post_text : S.Db → ℤ → Account → BasicString → S.Db
  post_text db now acc post_str =
      if post_str.size == 0
      then db
      else if ltb post_str.size max_body_len
      then post_create_move S db now acc.id post_str
      else db

  -- `post`
  unfoldable pub post_handler : S.Db → ℤ → Request → Run (S.Db × Response)
  post_handler db now req = do
    acc ← get_account S db req.cookies
    elim acc [
      | none ↦ ok (db, to_dashboard)
      | some me ↦
          if is_post req.method
          then ok (post_text db now me (init (body_get req.post_body (codes "post"))), to_dashboard)
          else ok (db, to_dashboard)
    ]
