-- ===== src/Http/Header/Print.antt =====
-- What `header_to_string` writes, and where it writes past its buffer.
use facebooc.Base.{
  ℕ, ◌+◌, ◌*◌, ◌%◌, ◌^◌, ◌≤◌, ◌<◌, ◌≡◌, ◌≢◌, refl, ap, sym, ◌∙◌, true, false, some, [], ◌∷◌, ◌++◌,
  Bytes, codes, length, leb, ltb, if◌then◌else◌, ok, fault, arith, length-append, append_assoc,
  append-nil,
}
use facebooc.Http.Form.{Entry}
use facebooc.Http.Header.{Header, header_entry_to_string, to_string_loop, header_to_string}

-- The lines of a header, one for each entry.
unfoldable pub lines : Header → Bytes
lines [] = []
lines (c ∷ h) = header_entry_to_string c ++ lines h

length-entry : (c : Entry) → length (header_entry_to_string c) ≡ length c.key + length c.value + 4
unfolding header_entry_to_string
length-entry c = ground (
  arith,
  length-append c.key (codes ": " ++ (c.value ++ codes "\r\n")),
  length-append c.value (codes "\r\n"),
)

leb-le : (a b : ℕ) → a ≤ b → leb a b ≡ true
leb-le a b h = ground arith

ltb-ge : (a b : ℕ) → b ≤ a → ltb a b ≡ false
ltb-ge a b h = ground arith

-- An entry that fits the buffer.
loop-step :
    (c : Entry) (h : Header) (room : ℕ) (sbuf : Bytes)
    → length c.key + length c.value + 5 + length sbuf ≤ room
    → to_string_loop (c ∷ h) room sbuf ≡ to_string_loop h room (sbuf ++ header_entry_to_string c)
unfolding to_string_loop
loop-step c h room sbuf fits =
    rw
      (
        ltb-ge room (length c.key + length c.value + 5 + length sbuf) fits,
        leb-le (length c.key + length c.value + 5 + length sbuf) room fits,
      )
      refl

loop-fits :
    (h : Header) (room : ℕ) (sbuf : Bytes)
    → length sbuf + length (lines h) < room
    → to_string_loop h room sbuf ≡ ok (sbuf ++ lines h, room)
unfolding lines
loop-fits [] room sbuf fits =
    unfold to_string_loop in ap (λ s. ok (s, room)) (sym (append-nil sbuf))
loop-fits (c ∷ h) room sbuf fits =
    let entry = length-entry c in
    let both = length-append (header_entry_to_string c) (lines h) in
    loop-step c h room sbuf (omega (arith, entry, both))
    ∙ loop-fits h room (sbuf ++ header_entry_to_string c)
        (omega (arith, entry, both, length-append sbuf (header_entry_to_string c)))
    ∙ ap (λ s. ok (s, room)) (append_assoc sbuf (header_entry_to_string c) (lines h))

-- `header_to_string` of a header with at least one entry whose lines and their terminator fit the
-- buffer is the lines, one `key: value` for each entry in the order of insertion, and the buffer
-- does not grow.
pub header_to_string-fits :
    (room : ℕ) (h : Header)
    → h ≢ []
    → length (lines h) < room
    → header_to_string room h ≡ ok (some (lines h), room)
unfolding header_to_string
header_to_string-fits room [] some_entry fits = absurd (some_entry refl)
header_to_string-fits room (c ∷ h) some_entry fits =
    rw (loop-fits (c ∷ h) room [] (omega arith)) refl

doubled-short :
    (room n : ℕ)
    → room < 2 ^ 31
    → 2 * room < n
    → leb n (if ltb room n then room * 2 % 2 ^ 32 else room) ≡ false
doubled-short room n small long = ground arith

loop-fault :
    (room : ℕ) (c : Entry) (h : Header)
    → room < 2 ^ 31
    → 2 * room < length c.key + length c.value + 5
    → to_string_loop (c ∷ h) room [] ≡ fault
unfolding to_string_loop
loop-fault room c h small long =
    rw (doubled-short room (length c.key + length c.value + 5 + 0) small (omega arith)) refl

-- `header_to_string` writes past its buffer, of fewer than 2 ^ 31 bytes, when the first entry is longer
-- than the buffer after it has been doubled.
pub header_to_string-fault :
    (room : ℕ) (c : Entry) (h : Header)
    → room < 2 ^ 31
    → 2 * room < length c.key + length c.value + 5
    → header_to_string room (c ∷ h) ≡ fault
unfolding header_to_string
header_to_string-fault room c h small long = rw (loop-fault room c h small long) refl
