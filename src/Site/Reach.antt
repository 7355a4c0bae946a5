-- ===== src/Site/Reach.antt =====
-- What the server of src/facebooc_server.c may do for one request, and what holds after any sequence of
-- events.
use facebooc.Base.{
  ◌≡◌, refl, ◌∷◌, All, Option, List, [], Run, ok, Bytes, Gives, bind-Gives, bind-any, Gives-ok,
  Gives-weaken,
}
use facebooc.Database.{Sqlite}
use facebooc.Database.Tables.{Tables}
use facebooc.Models.Sql.{IsReading, IsWriting}
use facebooc.Request.{Request}
use facebooc.Response.{Response}
use facebooc.Server.{Handler, Event, Served, fb_new, handler_table}
use facebooc.Server.Keep.{Keeper, Guarded, fb_new-Guarded, server_serve-Keeps}
use facebooc.Site.{World, answered, read_only, site_handlers, site_not_found, site_run}
use facebooc.Site.Actions.{
  Acts, Allowed, connect_handler-Step, like_handler-Step, unlike_handler-Step, post_handler-Step,
}
use facebooc.Site.Pages.{
  home_handler-Step, not_found_handler-Step, login_handler-Step, logout_handler-Step,
  signup_handler-Step,
}
use facebooc.Site.Sound.{IsSound}
use facebooc.Site.Step.{
  unchanged, IsGrown, Step-IsSound, Step-IsGrown, further-IsGrown, same-IsGrown,
}

module _ (S : Sqlite) (view : S.Db → Tables) (reading : IsReading S view)
    (writing : IsWriting S view) where
  module _ (db : S.Db) (req : Request) where
    answered-Step :
        (r : Run (S.Db × Response))
        → Gives (Allowed S view db req) r
        → Gives (Allowed S view db req) (answered r)
    unfolding answered
    answered-Step r h =
        bind-Gives (Allowed S view db req) (Allowed S view db req) r _ h
          (λ (d, response) step. step)

    read_only-Step : (r : Run (Option Response)) → Gives (Allowed S view db req) (read_only db r)
    unfolding read_only
    read_only-Step r = bind-any (Allowed S view db req) r _ (λ response. unchanged refl)

    module _ (w : World) (sound : IsSound (view db)) where
      -- Where sqlite3 answers as `IsReading` and `IsWriting` say, on tables in order and for every
      -- request: each row of `handler_table` leaves the tables as they are or makes one step: an
      -- account with a new email and a new id, a session of an account that exists, or a
      -- connection, a post, a like or the removal of a like of the account that the cookies of the
      -- request stand for.
      pub site_handlers-Step :
          All
            (λ (name, func). Gives (Allowed S view db req) (func w db req))
            (handler_table (site_handlers S))
      unfolding site_handlers handler_table
      site_handlers-Step = (
        answered-Step _ (connect_handler-Step S view reading writing db sound w.out.now req),
        (
          read_only-Step _,
          (
            answered-Step _ (home_handler-Step S view reading writing w.out db sound req),
            (
              answered-Step _ (like_handler-Step S view reading writing db sound w.out.now req),
              (
                answered-Step _ (unlike_handler-Step S view reading writing db sound w.out.now req),
                (
                  answered-Step _ (login_handler-Step S view reading writing w.out db sound req),
                  (
                    answered-Step _ (logout_handler-Step S view reading writing w.out db sound req),
                    (
                      answered-Step _
                          (post_handler-Step S view reading writing db sound w.out.now req),
                      (
                        read_only-Step _,
                        (
                          read_only-Step _,
                          (
                            answered-Step _
                                (signup_handler-Step S view reading writing w.out db sound req),
                            (read_only-Step _, tt),
                          ),
                        ),
                      ),
                    ),
                  ),
                ),
              ),
            ),
          ),
        ),
      )

      not_found-Step : Gives (Allowed S view db req) (site_not_found S w db req)
      unfolding site_not_found
      not_found-Step =
          answered-Step _ (not_found_handler-Step S view reading writing w.out db sound req)

  -- What is kept from some tables on: the tables are in order, and have only grown.
  module _ (t : Tables) where
    record Follows (db : S.Db) : Type 0 where
      pub sound : IsSound (view db)
      pub grown : IsGrown t (view db)

    Gives-Follows :
        (db : S.Db) (req : Request) (r : Run (S.Db × Option Response))
        → Follows db
        → Gives (Allowed S view db req) r
        → Gives (λ (d, response). Follows d) r
    Gives-Follows db req r h k =
        Gives-weaken (Allowed S view db req) (λ (d, response). Follows d) r k
          (λ (d, response) step. record {
            sound = Step-IsSound (Acts S db req) (view db) (view d) step h.sound;
            grown =
                further-IsGrown t (view db) (view d) h.grown
                  (Step-IsGrown (Acts S db req) (view db) (view d) step);
          })

    handlers-Keeper :
        (table : List (Bytes × Handler World S.Db))
        → ((w : World) (db : S.Db) (req : Request)
            → IsSound (view db)
            → All (λ (name, func). Gives (Allowed S view db req) (func w db req)) table)
        → All (λ (name, func). Keeper World S.Db Follows func) table
    handlers-Keeper [] h = tt
    handlers-Keeper ((name, func) ∷ table) h = (
      λ w db req k. Gives-Follows db req (func w db req) k (h w db req k.sound).0,
      handlers-Keeper table (λ w db req sound. (h w db req sound).1),
    )

    site_run-Follows :
        (db : S.Db) (events : List (Event World))
        → Follows db
        → Gives (λ s. Follows s.db) (site_run S db events)
    unfolding site_run
    site_run-Follows db events h =
        bind-Gives (Guarded World S.Db Follows) (λ s. Follows s.db)
          (fb_new (site_handlers S) (site_not_found S)) _
          (fb_new-Guarded World S.Db Follows (site_handlers S) (site_not_found S)
            (handlers-Keeper (handler_table (site_handlers S))
              (λ w d req sound. site_handlers-Step d req w sound))
            (λ w d req k.
              Gives-Follows d req (site_not_found S w d req) k (not_found-Step d req w k.sound)))
          (λ server guarded. server_serve-Keeps World S.Db Follows server guarded 2048 db events h)

  module _ (db : S.Db) (events : List (Event World)) (served : Served S.Db)
      (sound : IsSound (view db)) (run : site_run S db events ≡ ok served) where
    follows : Follows (view db) served.db
    follows =
        Gives-ok (λ s. Follows (view db) s.db) (site_run S db events) served
          (site_run-Follows (view db) db events
            (record { sound = sound; grown = same-IsGrown (view db) }))
          run

    -- Where sqlite3 answers as `IsReading` and `IsWriting` say: when the server of `FB_new` has
    -- served a sequence of events that begins on tables in order, the tables are in order.
    pub site_run-IsSound : IsSound (view served.db)
    site_run-IsSound = follows.sound

    pub site_run-IsGrown : IsGrown (view db) (view served.db)
    site_run-IsGrown = follows.grown
