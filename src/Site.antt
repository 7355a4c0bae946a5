-- ===== src/Site.antt =====
-- The site as a whole: the functions that src/facebooc_server.c registers, over one database, and
-- what stays true of the tables while src/server.c serves.
pub mod Actions
pub mod Finds
pub mod Pages
pub mod Reach
pub mod Session
pub mod Sound
pub mod Step
pub mod Steps
mod Tests
use facebooc.Base.{ℕ, Option, none, some, List, Bytes, Run, ok, ◌>>=◌}
use facebooc.Base.Int.{ℤ}
use facebooc.BasicString.{BasicString}
use facebooc.Database.{Sqlite}
use facebooc.Handler.Actions.{connect_handler, like_handler, unlike_handler, post_handler}
use facebooc.Handler.Pages.{
  Outside, home_handler, not_found_handler, login_handler, logout_handler, signup_handler,
}
use facebooc.Handler.Static.{static_handler}
use facebooc.Handler.Views.{dashboard_handler, search_handler, profile_handler}
use facebooc.Request.{Request}
use facebooc.Response.{Response}
use facebooc.Server.{Handler, Handlers, Event, Served, fb_new, server_serve}

-- What the handlers take from outside while one request is served: the time, the random text, the
-- files, and what `strftime` and `snprintf` write.
pub record World : Type 0 where
  pub out : Outside
  pub stamp : ℤ → Bytes
  pub get_static_file : Bytes → Option BasicString
  pub content_len : ℕ → Bytes

-- A handler that always answers.
unfoldable pub answered : {D : Type 0} → Run (D × Response) → Run (D × Option Response)
answered run = do (d, response) ← run; ok (d, some response)

-- A handler that only reads.
unfoldable pub read_only : {D : Type 0} → D → Run (Option Response) → Run (D × Option Response)
read_only d run = do response ← run; ok (d, response)

module _ (S : Sqlite) where
  -- The functions of `handler_table`.
  unfoldable pub site_handlers : Handlers (Handler World S.Db)
  site_handlers = record {
    connect = λ w db req. answered (connect_handler S db w.out.now req);
    dashboard = λ w db req. read_only db (dashboard_handler S w.out w.stamp db req);
    home = λ w db req. answered (home_handler S w.out db req);
    like = λ w db req. answered (like_handler S db w.out.now req);
    unlike = λ w db req. answered (unlike_handler S db w.out.now req);
    login = λ w db req. answered (login_handler S w.out db req);
    logout = λ w db req. answered (logout_handler S w.out db req);
    post = λ w db req. answered (post_handler S db w.out.now req);
    profile = λ w db req. read_only db (profile_handler S w.out w.stamp db req);
    search = λ w db req. read_only db (search_handler S w.out w.stamp db req);
    signup = λ w db req. answered (signup_handler S w.out db req);
    static_handler =
        λ w db req. read_only db (ok (static_handler w.get_static_file w.content_len req.uri));
  }

  -- The default callback.
  unfoldable pub site_not_found : Handler World S.Db
  site_not_found w db req = answered (not_found_handler S w.out db req)

  -- `FB_run` on the server that `FB_new` makes, for the events that come in; the header's buffer
  -- has 2048 bytes at first.
  unfoldable pub site_run : S.Db → List (Event World) → Run (Served S.Db)
  site_run db events = do
    server ← fb_new site_handlers site_not_found
    server_serve World S.Db server 2048 db events
