-- ===== src/Server.antt =====
-- src/server.c and src/facebooc_server.c: which handler answers a request, what is sent for it, and the
-- loop over the events. What `recv` and `accept` give is an argument; the registrations with `epoll`
-- and the log are left out.
pub mod Keep
pub mod Route
mod Tests
use facebooc.Base.{
  ℕ, ◌+◌, ◌≡◌, Bool, true, false, Option, none, some, List, [], ◌∷◌, ◌++◌, Bytes, codes, length,
  take, ltb, leb, if◌then◌else◌, strchr, Run, ok, fault, ◌>>=◌,
}
use facebooc.HashMap.{SPair, HashMap, hash_map_new, hash_map_insert_move, hash_map_get}
use facebooc.Request.{Request, request_new}
use facebooc.Response.{Response, send, response_write}

-- `fetch_dir` into an array of 32 bytes that is all NUL: a longer name is written past it.
unfoldable pub fetch_dir : Bytes → Run Bytes
fetch_dir src = elim (strchr src b'/') [
  | none ↦ ok []
  | some n ↦ if leb n 32 then ok (take n src) else fault
]

-- `dir` as a C string: a name of 32 bytes leaves no NUL in the array.
unfoldable pub read_dir : Bytes → Run Bytes
read_dir dir = if ltb (length dir) 32 then ok dir else fault

-- `req->uri + 1`, which is behind the terminator of an empty URI.
unfoldable pub uri_path : Bytes → Run Bytes
uri_path [] = fault
uri_path (c ∷ uri) = ok uri

-- What `serverNew` allocates, less the port and the descriptor of `epoll`: the callback is not set yet.
pub record Server {ℓ} (Handler : Type ℓ) : Type ℓ where
  pub handlers : HashMap Handler
  pub default_callback : Option Handler

-- A function pointer that was never set cannot be called.
unfoldable pub called {ℓ} : {H : Type ℓ} → Option H → Run H
called none = fault
called (some func) = ok func

module _ {ℓ} (Handler : Type ℓ) where
  -- `serverNew`
  unfoldable pub server_new : Server Handler
  server_new = record { handlers = hash_map_new; default_callback = none }

  -- `serverAddHandler`, with the address that the new pair gets.
  unfoldable pub server_add_handler : Server Handler → ℕ → Bytes → Handler → Run (Server Handler)
  server_add_handler server addr route_name handler = do
    (_, added) ←
        hash_map_insert_move server.handlers
          (record { addr = addr; key = route_name; value = handler })
    ok (record server { handlers = added })

  -- `set_callback`
  unfoldable pub set_callback : Server Handler → Handler → Server Handler
  set_callback server handler = record server { default_callback = some handler }

  -- The loop of `FB_new` over the rows of `handler_table`.
  unfoldable pub add_handlers : Server Handler → ℕ → List (Bytes × Handler) → Run (Server Handler)
  add_handlers server addr [] = ok server
  add_handlers server addr ((name, func) ∷ table) = do
    added ← server_add_handler server addr name func
    add_handlers added (addr + 1) table

  unfoldable pub or_default : Option Handler → Option Handler → Run Handler
  or_default none callback = called callback
  or_default (some func) callback = ok func

  -- The choice of the handler in `handle`: by the first part of the URI, or the default.
  unfoldable pub route : Server Handler → Bytes → Run Handler
  route server uri = do
    path ← uri_path uri
    dir ← fetch_dir path
    key ← read_dir dir
    found ← hash_map_get server.handlers key
    or_default found server.default_callback

-- The functions that `handler_table` names.
pub record Handlers {ℓ} (H : Type ℓ) : Type ℓ where
  pub connect : H
  pub dashboard : H
  pub home : H
  pub like : H
  pub unlike : H
  pub login : H
  pub logout : H
  pub post : H
  pub profile : H
  pub search : H
  pub signup : H
  pub static_handler : H

-- `handler_table`
unfoldable pub handler_table {ℓ} : {H : Type ℓ} → Handlers H → List (Bytes × H)
handler_table h =
    (codes "connect", h.connect)
    ∷ (codes "dashboard", h.dashboard)
    ∷ (codes "", h.home)
    ∷ (codes "like", h.like)
    ∷ (codes "unlike", h.unlike)
    ∷ (codes "login", h.login)
    ∷ (codes "logout", h.logout)
    ∷ (codes "post", h.post)
    ∷ (codes "profile", h.profile)
    ∷ (codes "search", h.search)
    ∷ (codes "signup", h.signup)
    ∷ (codes "static", h.static_handler)
    ∷ []

-- The server that `FB_new` makes.
unfoldable pub fb_new {ℓ} : {H : Type ℓ} → Handlers H → H → Run (Server H)
fb_new {H = H} h not_found = do
  server ← add_handlers H (server_new H) 1 (handler_table h)
  ok (set_callback H server not_found)

-- What `recv` gives: nothing yet (`EAGAIN`), another error, or so many bytes, none of them when the
-- other side has closed.
pub data Received : Type 0 where
  again : Received
  failed : Received
  bytes : Bytes → Received

-- Why `accept` gives no further connection.
pub data AcceptError : Type 0 where
  eagain : AcceptError
  econnaborted : AcceptError
  eproto : AcceptError
  eintr : AcceptError
  other_error : AcceptError

-- The errors after which `serverServe` goes on.
unfoldable pub tolerated : AcceptError → Bool
tolerated other_error = false
tolerated error = true

-- What the loop of `serverServe` reacts to: a connection that is accepted, the end of accepting, and a
-- connection to read from. `E` is what a handler reads from outside at that time, and the numbers are
-- how many bytes the connection accepts at each `send`.
pub data Event (E : Type 0) : Type 0 where
  accepted : Event E
  accept_failed : AcceptError → Event E
  readable : E → (ℕ → ℕ) → Received → Event E

-- What has happened so far: the state, what was sent on each connection that was read from, and
-- whether the program has ended by `exit(1)`.
pub record Served (D : Type 0) : Type 0 where
  pub db : D
  pub sent : List Bytes
  pub exited : Bool

module _ (E : Type 0) (D : Type 0) where
  -- A handler: it may change the state, and gives an answer or NULL.
  abbrev pub Handler : Type 0
  Handler = E → D → Request → Run (D × Option Response)

  -- The answer, where NULL is replaced by that of the default.
  unfoldable pub answer : Handler → Option Handler → E → D → Request → Run (D × Option Response)
  answer func default_callback e d req = do
    (d', response) ← func e d req
    elim response [
      | none ↦ do callback ← called default_callback; callback e d' req
      | some r ↦ ok (d', some r)
    ]

  -- The part of `handle` behind `recv`, for at least one byte: all that is sent, and the size of the
  -- header's buffer after it. The buffer of 20480 bytes has no place for the NUL behind 20480 bytes.
  unfoldable pub handle_bytes : Server Handler → ℕ → E → (ℕ → ℕ) → D → Bytes → Run (D × Bytes × ℕ)
  handle_bytes server room e accepts d buff =
      let served = (do
        parsed ← request_new buff
        elim parsed [
          | none ↦
              ok (d, send accepts 0 (codes "HTTP/1.0 400 Bad Request\r\n\r\nBad Request"), room)
          | some req ↦ do
            func ← route Handler server req.uri
            (d', response) ← answer func server.default_callback e d req
            (sent, grown) ← response_write room accepts response
            ok (d', sent, grown)
        ]) in
      if ltb (length buff) 20480 then served else fault

  -- `handle`: whatever `recv` gives, the connection is closed at the end, also after `EAGAIN`, where
  -- `resetOneShot` has just asked for it to be reported again.
  unfoldable pub handle : Server Handler → ℕ → E → (ℕ → ℕ) → D → Received → Run (D × Bytes × ℕ)
  handle server room e accepts d again = ok (d, [], room)
  handle server room e accepts d failed = ok (d, [], room)
  handle server room e accepts d (bytes []) = ok (d, [], room)
  handle server room e accepts d (bytes (c ∷ buff)) =
      handle_bytes server room e accepts d (c ∷ buff)

  -- What is sent goes in front.
  abbrev sent_first : Bytes → Served D → Served D
  sent_first text served = record served { sent = text ∷ served.sent }

  -- The loop of `serverServe` on a sequence of events.
  unfoldable pub server_serve : Server Handler → ℕ → D → List (Event E) → Run (Served D)
  server_serve server room d [] = ok (record { db = d; sent = []; exited = false })
  server_serve server room d (accepted ∷ events) = server_serve server room d events
  server_serve server room d (accept_failed error ∷ events) = elim (tolerated error) [
    | true ↦ server_serve server room d events
    | false ↦ ok (record { db = d; sent = []; exited = true })
  ]
  server_serve server room d (readable e accepts received ∷ events) = do
    (d', text, grown) ← handle server room e accepts d received
    served ← server_serve server grown d' events
    ok (sent_first text served)
