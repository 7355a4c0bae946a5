-- ===== src/Handler/Static.antt =====
-- src/handler/static_handler.c: the files that are served. Reading a file is a parameter, and the table
-- of files that were read, which only saves reading them again, is left out.
use facebooc.Base.{
  ℕ, ◌-◌, ◌≡◌, refl, Bool, true, false, Option, none, List, [], ◌∷◌, ◌++◌, Bytes, codes, length,
  take, drop, ltb, if◌then◌else◌, streq, ◌==◌,
}
use mathlib.Core.Option
use facebooc.BasicString.{BasicString}
use facebooc.Response.{
  Response, response_new, response_set_body, response_set_status, response_add_header,
}

-- `rev_cmp(str1, len1, str2, len2) == 0`: the shorter one is the end of the other. An empty text is the
-- end of every other.
unfoldable pub rev_cmp : Bytes → Bytes → Bool
rev_cmp str1 str2 =
    let smaller = if ltb (length str1) (length str2) then length str1 else length str2 in
    streq (drop (length str1 - smaller) str1) (drop (length str2 - smaller) str2)

-- `file_type` with `mime_type`, and the loop over them.
unfoldable pub mime_in : List (Bytes × Bytes) → Bytes → Bytes
mime_in [] path = codes "text/plain"
mime_in ((ending, mime) ∷ rest) path =
    let other = mime_in rest path in if rev_cmp path ending then mime else other

abbrev pub mime_types : List (Bytes × Bytes)
mime_types =
    (codes "html", codes "text/html")
    ∷ (codes "json", codes "application/json")
    ∷ (codes "jpeg", codes "image/jpeg")
    ∷ (codes "jpg", codes "image/jpeg")
    ∷ (codes "gif", codes "image/gif")
    ∷ (codes "png", codes "image/png")
    ∷ (codes "css", codes "text/css")
    ∷ (codes "js", codes "application/javascript")
    ∷ []

-- `mimeType_mux`
unfoldable pub mime_type_mux : Bytes → Bytes
mime_type_mux path = mime_in mime_types path

-- `strstr(str, pat) != NULL`
unfoldable pub contains : Bytes → Bytes → Bool
contains [] pat = length pat == 0
contains (c ∷ str) pat =
    let later = contains str pat in if streq (take (length pat) (c ∷ str)) pat then true else later

-- The response for a file that was found; `content_len` is how `snprintf` writes its size to an array
-- of 11 bytes.
unfoldable pub file_response : (ℕ → Bytes) → Bytes → BasicString → Response
file_response content_len uri fm =
    let with_body = response_set_status (response_set_body response_new fm) 200 in
    let with_type =
      response_add_header with_body
        (record { key = codes "Content-Type"; value = mime_type_mux uri }) in
    let with_length =
      response_add_header with_type
        (record { key = codes "Content-Length"; value = content_len fm.size }) in
    response_add_header with_length
      (record { key = codes "Cache-Control"; value = codes "max-age=2592000" })

-- `static_handler`, given what `get_static_file` finds under a name.
unfoldable pub static_handler : (Bytes → Option BasicString) → (ℕ → Bytes) → Bytes → Option Response
static_handler get_static_file content_len uri =
    if contains uri (codes "../")
    then none
    else Option.map (file_response content_len uri) (get_static_file (drop 1 uri))

if-true : (b : Bool) → (if b then true else true) ≡ true
if-true true = refl
if-true false = refl

contains-append : (a b : Bytes) → contains (a ++ (codes "../" ++ b)) (codes "../") ≡ true
unfolding contains streq
contains-append [] b = refl
contains-append (c ∷ a) b =
    rw (contains-append a b)
      (if-true (streq (take 3 (c ∷ (a ++ (codes "../" ++ b)))) (codes "../")))

-- A URI with `../` in it, anywhere, is refused, whatever files there are.
pub static_handler-contains :
    (get_static_file : Bytes → Option BasicString) (content_len : ℕ → Bytes) (a b : Bytes)
    → static_handler get_static_file content_len (a ++ (codes "../" ++ b)) ≡ none
unfolding static_handler
static_handler-contains get_static_file content_len a b = rw (contains-append a b) refl
