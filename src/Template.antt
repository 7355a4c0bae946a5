-- ===== src/Template.antt =====
-- src/template.c: pages with placeholders `{{key}}`, `{%include file%}` and `{%when key value
-- text%}`. The files are a parameter, from a name to the content that `fopen` and `fread` give.
pub mod Ends
pub mod Fill
mod Tests
use facebooc.Base.{
  ℕ, zero, suc, ◌+◌, ◌≡◌, Bool, true, false, Option, none, some, List, [], ◌∷◌, ◌++◌, Bytes, codes,
  c_str, streq, strchr, length, take, drop, ltb, ◌==◌, if◌then◌else◌, Run, ok, fault, stuck, ◌>>=◌,
}
use facebooc.BasicString.{BasicString, new, append, append_raw}
use facebooc.HashMap.{SPair, HashMap, hash_map_new, hash_map_get, hash_map_insert_move}

-- `Template`
pub record Template : Type 0 where
  pub filename : Bytes
  pub context : HashMap Bytes

-- `templateNew`
unfoldable pub template_new : Bytes → Template
template_new filename = record { filename = filename; context = hash_map_new }

-- `templateSet`, with the address of the pair that it allocates.
unfoldable pub template_set : Template → ℕ → Bytes → Bytes → Run Template
template_set template addr key value = do
  (inserted, context) ←
      hash_map_insert_move template.context (record { addr = addr; key = key; value = value })
  ok (record template { context = context })

-- `readfile`, as a C string: a space stands in front of the content, and the terminator in place of its
-- last byte.
unfoldable pub readfile : (Bytes → Option Bytes) → Bytes → Option Bytes
readfile files filename = elim (files filename) [
  | none ↦ none
  | some content ↦ some (c_str (take (length content) (b' ' ∷ content)))
]

-- `strtok_r` for one delimiter: the bytes of it in front are skipped, and the token goes to the
-- next one.
unfoldable pub skip : ℕ → Bytes → Bytes
skip d [] = []
skip d (c ∷ s) = if c == d then skip d s else c ∷ s

unfoldable pub token : ℕ → Bytes → Bytes × Bytes
token d [] = ([], [])
token d (c ∷ s) = let rest = token d s in if c == d then ([], s) else (c ∷ rest.0, rest.1)

unfoldable pub strtok : ℕ → Bytes → Option (Bytes × Bytes)
strtok d s = elim (skip d s) [ [] ↦ none | c ∷ t ↦ some (token d (c ∷ t)) ]

-- What a piece in braces does: it writes a text or nothing, includes a file, is no directive, or is one
-- that is not known.
pub data Piece : Type 0 where
  written : Option Bytes → Piece
  included : Bytes → Piece
  literal : Piece
  unknown : Piece

-- `segment[strlen(segment) - 1] = '\0'`
unfoldable pub without_last : Bytes → Bytes
without_last [] = []
without_last (c ∷ []) = []
without_last (c ∷ d ∷ s) = c ∷ without_last (d ∷ s)

-- `!strncmp(segment, word, strlen(word))`
unfoldable pub begins : Bytes → Bytes → Bool
begins word segment = streq word (take (length word) segment)

-- `include`: a directive that ends before its operand is a fault, as the code goes on behind the
-- terminator of the token.
unfoldable pub include_piece : Bytes → Run Piece
include_piece segment =
    if ltb (length segment) 8 then fault else ok (included (without_last (drop 8 segment)))

-- The value of `when`, and the text for it.
unfoldable pub when_value : Bytes → Bytes → Run Piece
when_value status segment = elim (strchr segment b' ') [
  | none ↦ fault
  | some spc ↦
      if streq status (take spc segment)
      then ok (written (some (without_last (drop (spc + 1) segment))))
      else ok (written none)
]

-- `when`
unfoldable pub when_key : HashMap Bytes → Bytes → Run Piece
when_key context segment = elim (strchr segment b' ') [
  | none ↦ fault
  | some spc ↦ do
    status ← hash_map_get context (take spc segment)
    elim status [
      | none ↦ ok (written none)
      | some value ↦ when_value value (drop (spc + 1) segment)
    ]
]

unfoldable pub when_piece : HashMap Bytes → Bytes → Run Piece
when_piece context segment =
    if ltb (length segment) 5 then fault else when_key context (drop 5 segment)

-- A piece that begins with `%`.
unfoldable pub expression : HashMap Bytes → Bytes → Run Piece
expression context segment =
    if begins (codes "include") segment
    then include_piece segment
    else if begins (codes "when") segment
    then when_piece context segment
    else ok unknown

-- A piece that begins with `{`.
unfoldable pub placeholder : HashMap Bytes → Bytes → Run Piece
placeholder context key = do val ← hash_map_get context key; ok (written val)

unfoldable pub piece : HashMap Bytes → Bytes → Run Piece
piece context [] = ok literal
piece context (c ∷ segment) =
    if c == b'{'
    then placeholder context segment
    else if c == b'%'
    then expression context segment
    else ok literal

-- The text behind a piece.
unfoldable pub put_text : Bool → Bytes → Option BasicString → Option BasicString
put_text rep segment res =
    if rep
    then append_raw res (some (drop 1 segment))
    else append_raw (append_raw res (some (codes "}"))) (some segment)

module _ (include : Bytes → Run (Option BasicString)) (context : HashMap Bytes) where
  -- The piece is appended; with it comes `rep`. `none` leaves the loop.
  unfoldable pub put_piece : Piece → Option BasicString → Run (Option (Bool × Option BasicString))
  put_piece (written val) res = ok (some (true, append_raw res val))
  put_piece (included filename) res = do
    nested_ctx ← include filename
    ok (some (true, append res nested_ctx))
  put_piece literal res = ok (some (false, append_raw res (some (codes "{"))))
  put_piece unknown res = ok none

  -- The loop, at `pos`; a round takes a byte of it at least.
  unfoldable pub render_loop : ℕ → Bytes → Option BasicString → Run (Option BasicString)
  render_loop zero pos res = stuck
  render_loop (suc fuel) pos res = elim (strtok b'}' pos) [
    | none ↦ ok res
    | some (segment, pos1) ↦ do
      p ← piece context segment
      put ← put_piece p res
      elim put [
        | none ↦ ok res
        | some (rep, res1) ↦ elim (strtok b'{' pos1) [
          | none ↦ ok res1
          | some (next, pos2) ↦ render_loop fuel pos2 (put_text rep next res1)
        ]
      ]
  ]

-- `templateRender` of a file with a context, which nested files share. The fuel is the depth of the
-- files; a file without content is a fault, as its first token is NULL.
unfoldable pub render :
    ℕ → (Bytes → Option Bytes) → HashMap Bytes → Bytes → Run (Option BasicString)
render zero files context filename = stuck
render (suc depth) files context filename = elim (readfile files filename) [
  | none ↦ ok (some new)
  | some text ↦ elim (strtok b'{' text) [
    | none ↦ fault
    | some (segment, pos) ↦
        render_loop (render depth files context) context (suc (length pos)) pos
          (append_raw (some new) (some (drop 1 segment)))
  ]
]

-- `templateRender`
unfoldable pub template_render : ℕ → (Bytes → Option Bytes) → Template → Run (Option BasicString)
template_render depth files template = render depth files template.context template.filename
