-- ===== src/Handler/Views.antt =====
-- The handlers that build a page from rows: src/handler/dashboard.c, src/handler/profile.c and
-- src/handler/search.c. What `strftime` makes of a time is an argument. `none` is the answer NULL.
use facebooc.Base.{
  Option, none, some, List, [], ◌∷◌, Bytes, codes, take, ◌==◌, if◌then◌else◌, Run, ok, fault, ◌>>=◌,
}
use facebooc.Base.Int.{ℤ, ◌==ℤ◌}
use facebooc.BasicString.{BasicString, init, append_raw}
use facebooc.Http.Form.{query_get}
use facebooc.Database.{Sqlite}
use facebooc.Models.Account.{Account, account_get_by_id, account_search}
use facebooc.Models.Connection.{connection_get_by_account_ids}
use facebooc.Models.Like.{like_liked}
use facebooc.Models.Post.{Post, post_get_latest, post_get_latest_graph}
use facebooc.Request.{Request}
use facebooc.Response.{Response, response_new_redirect}
use facebooc.Template.{Template, template_new}
use facebooc.Handler.Account.{get_account, get_id, decimal, set_all}
use facebooc.Handler.Actions.{to_dashboard}
use facebooc.Handler.Pages.{Outside, show_page}
use facebooc.Handler.Markup.{
  search_results, or_text, text_of, graph_entry, profile_entry, like_button, unlike_button,
  connect_text,
}

module _ (S : Sqlite) (out : Outside) (stamp : ℤ → Bytes) where
  -- The author's name and the body of a post; the name is read through NULL without an author.
  unfoldable pub graph_post : S.Db → Post → Run Bytes
  graph_post db p = do
    author ← account_get_by_id S db p.author_id
    elim author [
      | none ↦ fault
      | some a ↦ elim p.body [ none ↦ fault | some body ↦ graph_entry a.name body ]
    ]

  unfoldable pub graph_button : S.Db → Account → Post → Run Bytes
  graph_button db me p = if like_liked S db me.id p.id then unlike_button p.id else like_button p.id

  -- The loop of `concat_posts`.
  unfoldable pub graph_posts :
      S.Db → Account → List Post → Option BasicString → Run (Option BasicString)
  graph_posts db me [] ctx = ok ctx
  graph_posts db me (p ∷ posts) ctx = do
    entry ← graph_post db p
    button ← graph_button db me p
    graph_posts db me posts (
        append_raw
          (append_raw (append_raw (append_raw ctx (some entry)) (some button))
            (some (stamp p.created_at)))
          (some (codes "</li>")))

  -- `concat_posts`
  unfoldable pub concat_posts : S.Db → Account → Option (List Post) → Run (Option BasicString)
  concat_posts db me none = fault
  concat_posts db me (some []) = ok none
  concat_posts db me (some (p ∷ posts)) = do
    ctx ← graph_posts db me (p ∷ posts) (some (init (some (codes "<ul class=\"posts\">"))))
    ok (append_raw ctx (some (codes "</ul>")))

  -- `gen_template`
  unfoldable pub gen_template : Option BasicString → Account → Run Template
  gen_template ctx me = set_all (template_new (codes "templates/dashboard.html")) 1 (
      (
        codes "graph",
        or_text ctx (codes "<ul class=\"posts\"><div class=\"not-found\">Nothing here.</div></ul>"),
      )
      ∷ (codes "active", codes "dashboard")
      ∷ (codes "loggedIn", codes "t")
      ∷ (codes "subtitle", codes "Dashboard")
      ∷ (codes "accountName", text_of me.name)
      ∷ [])

  -- `dashboard`
  unfoldable pub dashboard_handler : S.Db → Request → Run (Option Response)
  dashboard_handler db req = do
    my_acc ← get_account S db req.cookies
    elim my_acc [
      | none ↦ ok none
      | some me ↦ do
        ctx ← concat_posts db me (post_get_latest_graph S db me.id 0)
        template ← gen_template ctx me
        page ← show_page out 200 template
        ok (some page)
    ]

  -- `search`
  unfoldable pub search_page : S.Db → BasicString → Run Response
  search_page db query = do
    accounts ← account_search S db (some query) 0
    ctx ← search_results accounts
    template ← set_all (template_new (codes "templates/search.html")) 1 (
        (
          codes "results",
          or_text ctx (codes "<h4 class=\"not-found\">There were no results for your query.</h4>"),
        )
        ∷ (codes "searchQuery", text_of query)
        ∷ (codes "active", codes "search")
        ∷ (codes "loggedIn", codes "t")
        ∷ (codes "subtitle", codes "Search")
        ∷ [])
    show_page out 200 template

  unfoldable pub search_handler : S.Db → Request → Run (Option Response)
  search_handler db req = do
    my_acc ← get_account S db req.cookies
    elim my_acc [
      | none ↦ ok (some (response_new_redirect (codes "/login/")))
      | some me ↦
          (let query = init (query_get req.query_string (codes "q")) in
            if query.size == 0 then ok none else (do page ← search_page db query; ok (some page)))
    ]

  unfoldable pub profile_button : S.Db → Account → Post → Run Bytes
  profile_button db me p =
      if like_liked S db me.id p.id then ok (codes "Liked - ") else like_button p.id

  -- The loop of `profile`.
  unfoldable pub profile_posts :
      S.Db → Account → List Post → Option BasicString → Run (Option BasicString)
  profile_posts db me [] ctx = ok ctx
  profile_posts db me (p ∷ posts) ctx = do
    entry ← elim p.body [ none ↦ fault | some body ↦ profile_entry body ]
    button ← profile_button db me p
    profile_posts db me posts (
        append_raw
          (append_raw (append_raw (append_raw ctx (some entry)) (some button))
            (some (stamp p.created_at)))
          (some (codes "</li>")))

  unfoldable pub profile_list : S.Db → Account → Option (List Post) → Run (Option BasicString)
  profile_list db me none = fault
  profile_list db me (some []) = ok none
  profile_list db me (some (p ∷ posts)) = do
    ctx ← profile_posts db me (p ∷ posts) (some (init (some (codes "<ul class=\"posts\">"))))
    ok (append_raw ctx (some (codes "</ul>")))

  -- The page of another account.
  unfoldable pub profile_page : S.Db → Account → Account → Run Response
  profile_page db me acc2 = do
    connect_str ← connect_text (connection_get_by_account_ids S db me.id acc2.id) acc2
    ctx ← profile_list db me (post_get_latest S db acc2.id 0)
    template ← set_all (template_new (codes "templates/profile.html")) 1 (
        (
          codes "profilePosts",
          or_text ctx
              (codes "<h4 class=\"not-found\">This person has not posted anything yet!</h4>"),
        )
        ∷ (codes "active", codes "profile")
        ∷ (codes "loggedIn", codes "t")
        ∷ (codes "subtitle", text_of acc2.name)
        ∷ (codes "profileId", take 9 (decimal acc2.id))
        ∷ (codes "profileName", text_of acc2.name)
        ∷ (codes "profileEmail", text_of acc2.email)
        ∷ (codes "profileConnect", connect_str)
        ∷ (codes "accountName", text_of me.name)
        ∷ [])
    show_page out 200 template

  -- `profile`
  unfoldable pub profile_handler : S.Db → Request → Run (Option Response)
  profile_handler db req = do
    my_acc ← get_account S db req.cookies
    elim my_acc [
      | none ↦ ok none
      | some me ↦ do
        id ← get_id req.uri
        account ← account_get_by_id S db id
        elim account [
          | none ↦ ok none
          | some acc2 ↦
              if acc2.id ==ℤ me.id
              then ok (some to_dashboard)
              else (do page ← profile_page db me acc2; ok (some page))
        ]
    ]
