-- ===== src/Utility/Escape.antt =====
-- `html_escape_trans` and `newline_to_br` of src/utility.c. Both count first, allocate, and then write
-- the new text; a NULL string is `none`.
mod Tests
pub mod Output
use facebooc.Base.{
  ℕ, ◌+◌, ◌*◌, ◌≡◌, refl, Bool, true, false, ◌||◌, Option, none, some, List, [], ◌∷◌, ◌++◌, Bytes,
  codes, length, get_or, ◌==◌, if◌then◌else◌,
}
use facebooc.BasicString.{BasicString}

-- `escape_key` with `escape_map`
abbrev pub escapes : List (ℕ × Bytes)
escapes =
    (b'"', codes "&#34;")
    ∷ (b'\'', codes "&#39;")
    ∷ (b'&', codes "&#38;")
    ∷ (b'<', codes "&#60;")
    ∷ (b'>', codes "&#62;")
    ∷ []

-- The loop over the keys for one byte.
unfoldable pub escape_of : ℕ → List (ℕ × Bytes) → Bytes
escape_of c [] = c ∷ []
escape_of c ((k, e) ∷ keys) = if c == k then e else escape_of c keys

unfoldable pub is_key : ℕ → List (ℕ × Bytes) → Bool
is_key c [] = false
is_key c ((k, e) ∷ keys) = (c == k) || is_key c keys

-- The first loops: how many bytes have an escape.
unfoldable pub count_keys : Bytes → ℕ
count_keys [] = 0
count_keys (c ∷ s) = (if is_key c escapes then 1 else 0) + count_keys s

-- The second loop: the text with its escapes.
unfoldable pub write_escapes : Bytes → Bytes
write_escapes [] = []
write_escapes (c ∷ s) = escape_of c escapes ++ write_escapes s

-- `html_escape_trans`, for texts of fewer than 2 ^ 29 bytes, on which its `int` counters and their
-- products by four do not overflow; its only caller passes at most 65536. A longer text is outside
-- of the model.
unfoldable pub html_escape_trans : Option BasicString → Option BasicString
html_escape_trans none = none
html_escape_trans (some str) =
    let new_size = str.size + 4 * count_keys str.bytes in
    if new_size == str.size
    then some str
    else some (record { bytes = write_escapes str.bytes; size = new_size })

pub count_newlines : Bytes → ℕ
count_newlines [] = 0
count_newlines (c ∷ s) = (if c == b'\n' then 1 else 0) + count_newlines s

pub write_breaks : Bytes → Bytes
write_breaks [] = []
write_breaks (c ∷ s) = (if c == b'\n' then codes "<br>" else c ∷ []) ++ write_breaks s

unfoldable pub newline_to_br : Option BasicString → Option BasicString
newline_to_br none = none
newline_to_br (some str) =
    let counter = count_newlines str.bytes in
    if get_or str.bytes 0 0 == 0
    then some str
    else if counter == 0
    then some str
    else some (record { bytes = write_breaks str.bytes; size = str.size + counter * 3 })
