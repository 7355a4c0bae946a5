-- ===== src/Server/Keep.antt =====
-- The rule for invariants of the state that every handler of src/facebooc_server.c keeps, over the
-- loop of src/server.c.
use facebooc.Base.{
  ℕ, ◌+◌, inl, inr, Option, none, some, List, [], ◌∷◌, Bytes, codes, length, ltb, All, Bool-cases,
  Run, ok, fault, ◌>>=◌, Gives, bind-Gives, bind-any, if-Gives,
}
use facebooc.HashMap.{SPair, hash_map_get, hash_map_insert_move}
use facebooc.HashMap.Values.{
  Values, Found, hash_map_new-Values, hash_map_insert_move-Values, hash_map_get-Values,
}
use facebooc.Request.{Request, request_new}
use facebooc.Response.{Response, send, response_write}
use facebooc.Server.{
  Server, Handler, Handlers, Received, again, failed, bytes, Event, accepted, accept_failed,
  readable, tolerated, called, or_default, server_new, server_add_handler, add_handlers,
  set_callback, handler_table, fb_new, fetch_dir, read_dir, uri_path, route, answer, handle_bytes,
  handle, server_serve,
}

module _ (E : Type 0) (D : Type 0) (Inv : D → Type 0) where
  -- The invariant of the state, when a run gives a state with other values.
  abbrev pub First : {X : Type 0} → D × X → Type 0
  First (d, x) = Inv d

  abbrev pub AfterServing : D × Bytes × ℕ → Type 0
  AfterServing (d, text, room) = Inv d

  -- A handler that keeps the invariant.
  abbrev pub Keeper : Handler E D → Type 0
  Keeper f = (e : E) (d : D) (req : Request) → Inv d → Gives First (f e d req)

  -- A server whose handlers all do, the default too.
  abbrev pub Guarded : Server (Handler E D) → Type 0
  Guarded server = Values Keeper server.handlers.entries × Found Keeper server.default_callback

  add_handlers-Values :
      (table : List (Bytes × Handler E D)) (server : Server (Handler E D)) (addr : ℕ)
      → Values Keeper server.handlers.entries
      → All (λ (name, func). Keeper func) table
      → Gives (λ s. Values Keeper s.handlers.entries) (add_handlers (Handler E D) server addr table)
  unfolding add_handlers server_add_handler
  add_handlers-Values [] server addr h k = h
  add_handlers-Values ((name, func) ∷ table) server addr h (here, later) =
      bind-Gives (λ s. Values Keeper s.handlers.entries) _
        (server_add_handler (Handler E D) server addr name func) _
        (bind-Gives (λ r. Values Keeper r.1.entries) _ (hash_map_insert_move server.handlers pair) _
          (hash_map_insert_move-Values Keeper server.handlers pair h here)
          (λ (res, added) held. held))
        (λ added held. add_handlers-Values table added (addr + 1) held later)
    where
      pair : SPair (Handler E D)
      pair = record { addr = addr; key = name; value = func }

  pub fb_new-Guarded :
      (h : Handlers (Handler E D)) (not_found : Handler E D)
      → All (λ (name, func). Keeper func) (handler_table h)
      → Keeper not_found
      → Gives Guarded (fb_new h not_found)
  unfolding fb_new set_callback server_new
  fb_new-Guarded h not_found keeps keeps_default =
      bind-Gives (λ s. Values Keeper s.handlers.entries) Guarded
        (add_handlers (Handler E D) (server_new (Handler E D)) 1 (handler_table h)) _
        (add_handlers-Values (handler_table h) (server_new (Handler E D)) 1
          (hash_map_new-Values Keeper) keeps)
        (λ server held. (held, keeps_default))

  module _ (server : Server (Handler E D)) (guarded : Guarded server) where
    called-Keeper : Gives Keeper (called server.default_callback)
    unfolding called
    called-Keeper = of_callback server.default_callback guarded.1
      where
        of_callback : (o : Option (Handler E D)) → Found Keeper o → Gives Keeper (called o)
        of_callback none h = tt
        of_callback (some f) h = h

    or_default-Keeper :
        (found : Option (Handler E D))
        → Found Keeper found
        → Gives Keeper (or_default (Handler E D) found server.default_callback)
    unfolding or_default
    or_default-Keeper none h = called-Keeper
    or_default-Keeper (some f) h = h

    route-Keeper : (uri : Bytes) → Gives Keeper (route (Handler E D) server uri)
    unfolding route
    route-Keeper uri = bind-any Keeper (uri_path uri) _ (λ path.
        bind-any Keeper (fetch_dir path) _ (λ dir. bind-any Keeper (read_dir dir) _ (λ key.
          bind-Gives (Found Keeper) Keeper (hash_map_get server.handlers key) _
            (hash_map_get-Values Keeper server.handlers key guarded.0)
            (λ found held. or_default-Keeper found held))))

    answer-First :
        (func : Handler E D) (e : E) (d : D) (req : Request)
        → Keeper func
        → Inv d
        → Gives First (answer E D func server.default_callback e d req)
    unfolding answer
    answer-First func e d req h inv =
        bind-Gives First First (func e d req) _ (h e d req inv)
          (λ (d', response) kept. of_response d' response kept)
      where
        of_response :
            (d' : D) (o : Option Response)
            → Inv d'
            → Gives First (elim o [
              | none ↦ do callback ← called server.default_callback; callback e d' req
              | some r ↦ ok (d', some r)
            ])
        of_response d' none kept =
            bind-Gives Keeper First (called server.default_callback) _ called-Keeper
              (λ callback k. k e d' req kept)
        of_response d' (some r) kept = kept

    handle_bytes-AfterServing :
        (room : ℕ) (e : E) (accepts : ℕ → ℕ) (d : D) (buff : Bytes)
        → Inv d
        → Gives AfterServing (handle_bytes E D server room e accepts d buff)
    unfolding handle_bytes
    handle_bytes-AfterServing room e accepts d buff inv =
        if-Gives AfterServing (ltb (length buff) 20480) _ fault
          (bind-any AfterServing (request_new buff) _ (λ parsed. of_request parsed)) tt
      where
        serves : Request → Run (D × Bytes × ℕ)
        serves req = do
          func ← route (Handler E D) server req.uri
          (d', response) ← answer E D func server.default_callback e d req
          (sent, grown) ← response_write room accepts response
          ok (d', sent, grown)

        writes :
            (d' : D) (response : Option Response)
            → Inv d'
            → Gives AfterServing
                (response_write room accepts response >>= λ (sent, grown). ok (d', sent, grown))
        writes d' response kept =
            bind-any AfterServing (response_write room accepts response) _ (λ (sent, grown). kept)

        of_request :
            (o : Option Request)
            → Gives AfterServing (elim o [
              | none ↦
                  ok (d, send accepts 0 (codes "HTTP/1.0 400 Bad Request\r\n\r\nBad Request"), room)
              | some req ↦ serves req
            ])
        of_request none = inv
        of_request (some req) =
            bind-Gives Keeper AfterServing (route (Handler E D) server req.uri) _
              (route-Keeper req.uri)
              (λ func h.
                bind-Gives First AfterServing (answer E D func server.default_callback e d req) _
                  (answer-First func e d req h inv)
                  (λ (d', response) kept. writes d' response kept))

    handle-AfterServing :
        (room : ℕ) (e : E) (accepts : ℕ → ℕ) (d : D) (received : Received)
        → Inv d
        → Gives AfterServing (handle E D server room e accepts d received)
    unfolding handle
    handle-AfterServing room e accepts d again inv = inv
    handle-AfterServing room e accepts d failed inv = inv
    handle-AfterServing room e accepts d (bytes []) inv = inv
    handle-AfterServing room e accepts d (bytes (c ∷ buff)) inv =
        handle_bytes-AfterServing room e accepts d (c ∷ buff) inv

    -- The server keeps the invariant over every sequence of events.
    pub server_serve-Keeps :
        (room : ℕ) (d : D) (events : List (Event E))
        → Inv d
        → Gives (λ s. Inv s.db) (server_serve E D server room d events)
    unfolding server_serve
    server_serve-Keeps room d [] inv = inv
    server_serve-Keeps room d (accepted ∷ events) inv = server_serve-Keeps room d events inv
    server_serve-Keeps room d (accept_failed error ∷ events) inv =
        elim (Bool-cases (tolerated error)) [
          | inl goes_on ↦ rw (Gives, goes_on) (server_serve-Keeps room d events inv)
          | inr ends ↦ rw (Gives, ends) inv
        ]
    server_serve-Keeps room d (readable e accepts received ∷ events) inv =
        bind-Gives AfterServing _ (handle E D server room e accepts d received) _
          (handle-AfterServing room e accepts d received inv)
          (λ (d', text, grown) kept.
            bind-Gives (λ s. Inv s.db) _ (server_serve E D server grown d' events) _
              (server_serve-Keeps grown d' events kept) (λ served h. h))
