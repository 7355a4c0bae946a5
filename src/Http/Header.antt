-- ===== src/Http/Header.antt =====
-- src/http/header.c: the header lines of a request and of a response. The circular list that is only
-- extended at its tail is a list of entries.
pub mod Print
pub mod Read
mod Tests
use facebooc.Base.{
  ℕ, zero, suc, ◌+◌, ◌-◌, ◌*◌, ◌%◌, ◌^◌, ◌==◌, Bool, true, false, not, ◌&&◌, ◌||◌, Option, none,
  some, List, [], ◌∷◌, ◌++◌, map, Bytes, codes, length, take, drop, leb, ltb, if◌then◌else◌, streq,
  c_str, Run, ok, fault, stuck, ◌>>=◌,
}
use facebooc.Utility.Search.{StringView, string_view_ctor, string_view_dup, find_first_of}
use facebooc.Http.Form.{Entry, make_pair, find_entry}

abbrev pub Header : Type 0
Header = List Entry

unfoldable pub header_new : Header
header_new = []

-- `tolower` in the C locale
unfoldable pub tolower : ℕ → ℕ
tolower c = if leb b'A' c && leb c b'Z' then c + 32 else c

unfoldable pub to_lower_case : Bytes → Bytes
to_lower_case str = map tolower str

unfoldable pub is_space : ℕ → Bool
is_space c = (c == 32) || (leb 9 c && leb c 13)

-- `strip_head_spaces`, where a view that is left empty gets the size -1.
unfoldable pub strip_head_spaces : Bytes → ℕ → StringView
strip_head_spaces text zero = record { begin = text; size = none }
strip_head_spaces [] (suc n) = record { begin = []; size = some (suc n) }
strip_head_spaces (c ∷ text) (suc n) =
    let rest = strip_head_spaces text n in
    if is_space c then rest else record { begin = c ∷ text; size = some (suc n) }

-- What is copied of a line of `size` bytes that has its first `:` at `seperator`. The key and the value
-- are ended by a NUL in the buffer, over the `:` and the `\r`.
unfoldable pub header_entry : Bytes → ℕ → ℕ → Entry
header_entry line size seperator =
    make_pair (record { begin = to_lower_case (take seperator line); size = some seperator })
      (strip_head_spaces (drop (seperator + 1) line) (size - (seperator + 1)))

-- One round of `header_parser` at a line that is not empty. Without a line end or without a `:` there
-- is a write through NULL. A `:` behind the line end leaves a value of negative size, whose end is in
-- front of its first byte: the scan for spaces leaves the line, and `malloc` gets a negative size.
unfoldable pub header_line : Bytes → Option ℕ → Run Entry
header_line buf none = fault
header_line buf (some size) = do
  found ← find_first_of buf (codes ":")
  elim found [
    | none ↦ fault
    | some at ↦ if ltb (at - 1) size then ok (header_entry buf size (at - 1)) else fault
  ]

unfoldable pub is_zero : Option ℕ → Bool
is_zero none = false
is_zero (some n) = n == 0

unfoldable pub size_of : Option ℕ → ℕ
size_of none = 0
size_of (some n) = n

-- The loop of `header_parser`, with the list so far, and the number of bytes that it has passed.
unfoldable pub header_loop : ℕ → Bytes → Header → ℕ → Run (Header × ℕ)
header_loop fuel [] h passed = ok (h, passed)
header_loop zero (c ∷ buf) h passed = stuck
header_loop (suc fuel) (c ∷ buf) h passed = do
  line ← string_view_ctor (c ∷ buf) (codes "\r\n")
  (let go_on = (do
    entry ← header_line (c ∷ buf) line.size
    header_loop fuel (drop (size_of line.size + 2) (c ∷ buf)) (h ++ entry ∷ [])
        (passed + size_of line.size + 2)) in
      if is_zero line.size then ok (h, passed) else go_on)

-- `header_parser`: the list, and what is added to `offset`. There is one round for each byte.
unfoldable pub header_parser : Bytes → Run (Header × ℕ)
header_parser buf = do (h, passed) ← header_loop (length buf) buf header_new 0; ok (h, passed + 2)

-- `header_insert` and `header_insert_move`, whose list and pair are not NULL here.
unfoldable pub header_insert : Header → Entry → Header
header_insert h p = h ++ record { key = p.key; value = p.value } ∷ []

unfoldable pub header_insert_move : Header → Entry → Header
header_insert_move h p = h ++ p ∷ []

unfoldable pub header_get : Option Header → Bytes → Option Bytes
header_get none key = none
header_get (some h) [] = none
header_get (some h) (c ∷ key) = find_entry h (c ∷ key)

unfoldable pub header_entry_to_string : Entry → Bytes
header_entry_to_string c = c.key ++ (codes ": " ++ (c.value ++ codes "\r\n"))

-- The loop of `header_to_string`: `room` is `RESP_SIZE`, a static that is doubled at most once for an
-- entry and never reset, `index` the bytes that stand in the buffer. An entry that does not fit with
-- its terminator is written past the buffer.
unfoldable pub to_string_loop : Header → ℕ → Bytes → Run (Bytes × ℕ)
to_string_loop [] room sbuf = ok (sbuf, room)
to_string_loop (c ∷ h) room sbuf =
    let entry_len = length c.key + length c.value + 5 in
    let grown = if ltb room (entry_len + length sbuf) then room * 2 % 2 ^ 32 else room in
    let rest = to_string_loop h grown (sbuf ++ header_entry_to_string c) in
    if leb (entry_len + length sbuf) grown then rest else fault

-- `header_to_string`, given `RESP_SIZE` and returning it; the list is not empty.
unfoldable pub header_to_string : ℕ → Header → Run (Option Bytes × ℕ)
header_to_string room [] = ok (none, room)
header_to_string room (c ∷ h) = do
  (sbuf, grown) ← to_string_loop (c ∷ h) room []
  ok (some sbuf, grown)
