-- ===== src/Handler/Markup.antt =====
-- The pieces of HTML that src/handler/dashboard.c, src/handler/profile.c and src/handler/search.c
-- write to arrays.
pub mod Room
use facebooc.Base.{
  ℕ, ◌+◌, ◌-◌, ◌≡◌, Bool, true, false, Option, none, some, List, [], ◌∷◌, ◌++◌, Bytes, codes, c_str,
  length, take, ltb, ◌==◌, if◌then◌else◌, Run, ok, fault, ◌>>=◌,
}
use facebooc.Base.Int.{ℤ, ◌==ℤ◌}
use facebooc.BasicString.{BasicString, init, append_raw}
use facebooc.Http.Form.{query_get}
use facebooc.Database.{Sqlite}
use facebooc.Models.Account.{Account, account_get_by_id, account_search}
use facebooc.Models.Connection.{Connection, connection_get_by_account_ids}
use facebooc.Models.Like.{like_liked}
use facebooc.Models.Post.{Post, post_get_latest, post_get_latest_graph}
use facebooc.Request.{Request}
use facebooc.Response.{Response, response_new_redirect}
use facebooc.Template.{Template, template_new}
use facebooc.Handler.Account.{get_account, get_id, decimal, set_all}
use facebooc.Handler.Actions.{to_dashboard}
use facebooc.Handler.Pages.{Outside, show_page}

-- `snprintf` of a text with a limit, to an array with room for so many bytes.
unfoldable pub snprintf : ℕ → ℕ → Bytes → Run Bytes
snprintf room limit text =
    let written = if ltb (length text) limit then length text + 1 else limit in
    if ltb room written then fault else ok (take (limit - 1) text)

abbrev pub text_of : BasicString → Bytes
text_of s = c_str s.bytes

-- A result of `search`.
unfoldable pub search_entry : Account → Run Bytes
search_entry a = snprintf 128 (62 + a.name.size + a.email.size) (
    codes "<li><a href=\"/profile/"
    ++ decimal a.id
    ++ codes "/\">"
    ++ text_of a.name
    ++ codes "</a> (<span>"
    ++ text_of a.email
    ++ codes "</span>)</li>\n")

-- The loop of `search`.
unfoldable pub search_entries : List Account → Option BasicString → Run (Option BasicString)
search_entries [] ctx = ok ctx
search_entries (a ∷ accounts) ctx = do
  entry ← search_entry a
  search_entries accounts (append_raw ctx (some entry))

-- The list of results, or NULL for none.
unfoldable pub search_results : Option (List Account) → Run (Option BasicString)
search_results none = fault
search_results (some []) = ok none
search_results (some (a ∷ accounts)) = do
  ctx ← search_entries (a ∷ accounts) (some (init (some (codes "<ul class=\"search-results\">"))))
  ok (append_raw ctx (some (codes "</ul>")))

-- A text, or another one for NULL.
unfoldable pub or_text : Option BasicString → Bytes → Bytes
or_text none other = other
or_text (some s) other = text_of s

-- An entry of the dashboard, in a buffer of its own.
unfoldable pub graph_entry : BasicString → BasicString → Run Bytes
graph_entry name body = snprintf (body.size + name.size + 87) (body.size + name.size + 86) (
    codes "<li class=\"post-item\"><div class=\"post-author\">"
    ++ text_of name
    ++ codes "</div><div class=\"post-content\">"
    ++ text_of body
    ++ codes "</div>")

-- An entry of a profile.
unfoldable pub profile_entry : BasicString → Run Bytes
profile_entry body =
    snprintf (body.size + 55) (54 + body.size) (
      codes "<li class=\"post-item\"><div class=\"post-author\">" ++ text_of body ++ codes "</div>")

unfoldable pub like_button : ℤ → Run Bytes
like_button id =
    snprintf 128 52
      (codes "<a class=\"btn\" href=\"/like/" ++ decimal id ++ codes "/\">Like</a> - ")

unfoldable pub unlike_button : ℤ → Run Bytes
unlike_button id =
    snprintf 128 55
      (codes "<a class=\"btn\" href=\"/unlike/" ++ decimal id ++ codes "/\">Liked</a> - ")

-- `connectStr`
unfoldable pub connect_text : Option Connection → Account → Run Bytes
connect_text (some connection) acc2 =
    snprintf 128 (26 + acc2.name.size)
      (codes "You and " ++ text_of acc2.name ++ codes " are connected!")
connect_text none acc2 = snprintf 128 (76 + acc2.name.size + 10) (
    codes "You and "
    ++ text_of acc2.name
    ++ codes " are not connected. <a href=\"/connect/"
    ++ decimal acc2.id
    ++ codes "/\">Click here</a> to connect!")
