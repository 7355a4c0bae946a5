-- ===== src/Http/Form.antt =====
-- Form text, `key=value` pairs with `&` between them: `make_pair` of src/utility.c, `pair_lexer` of
-- src/http/helper.c, `query_parser` and `query_get` of src/http/query.c. A text is the bytes before its
-- NUL. The pairs stand on a circular list that is only ever built by insertion behind its head: a list.
pub mod Parse
pub mod Render
mod Tests
use facebooc.Base.{
  ℕ, zero, suc, ◌+◌, ◌-◌, ◌≡◌, Bool, true, false, Option, none, some, List, [], ◌∷◌, ◌++◌, Bytes,
  length, take, drop, ltb, ◌==◌, if◌then◌else◌, strchr, streq, c_str, Run, ok, fault, stuck, ◌>>=◌,
}
use facebooc.Utility.Search.{StringView, string_view_dup}
use facebooc.Http.Url.{Decoded, url_decoder}

-- `SSPair`, where both strings are the pair's own copies.
pub record Entry : Type 0 where
  pub key : Bytes
  pub value : Bytes

unfoldable pub make_pair : StringView → StringView → Entry
make_pair key value = record { key = string_view_dup key; value = string_view_dup value }

-- `pair_lexer`: the key is all before the first `delim`, and the value all from there to the next
-- `term`.
unfoldable pub pair_lexer : Bytes → ℕ → ℕ → Option Entry
pair_lexer [] delim term = none
pair_lexer (c ∷ s) delim term = elim (strchr (c ∷ s) delim) [
  | none ↦ none
  | some i ↦
      let after = drop (i + 1) (c ∷ s) in
      elim (strchr after term) [
        | none ↦ none
        | some j ↦ some (
            make_pair (record { begin = c ∷ s; size = some i })
              (record { begin = after; size = some j }))
      ]
]

-- `query_entry`: the first `=` ends the key. Without one the key's size is a negative number that no
-- buffer has.
unfoldable pub query_entry : Bytes → Run Entry
query_entry str = elim (strchr str b'=') [
  | none ↦ fault
  | some n ↦ ok (
      make_pair (record { begin = str; size = some n })
        (record { begin = drop (n + 1) str; size = some (length str - n - 1) }))
]

-- The loop of `query_parser`, with the list so far. The list is built from the front, and the fuel
-- counts the rounds.
unfoldable pub query_loop : ℕ → Bytes → List Entry → Run (List Entry)
query_loop fuel [] q = ok q
query_loop zero (c ∷ s) q = stuck
query_loop (suc fuel) (c ∷ s) q = elim (pair_lexer (c ∷ s) b'=' b'&') [
  | none ↦ ok q
  | some p ↦ elim (strchr (c ∷ s) b'&') [
    | none ↦ fault
    | some k ↦ query_loop fuel (drop (k + 1) (c ∷ s)) (p ∷ q)
  ]
]

-- `&` and a NUL are written over the end of the decoded text, one byte further than its terminator.
-- The loop is given one round for each byte.
unfoldable pub parse_decoded : Decoded → Run (List Entry)
parse_decoded d =
    let str = c_str d.text in
    if ltb (length str + 1) d.room then query_loop (length str + 1) (str ++ b'&' ∷ []) [] else fault

unfoldable pub query_parser : Bytes → Run (List Entry)
query_parser buffer = url_decoder buffer >>= parse_decoded

-- The loop of `query_get`
unfoldable pub find_entry : List Entry → Bytes → Option Bytes
find_entry [] key = none
find_entry (e ∷ q) key = if streq e.key key then some e.value else find_entry q key

-- `query_get`: a missing query and an empty key have no value.
unfoldable pub query_get : Option (List Entry) → Bytes → Option Bytes
query_get none key = none
query_get (some q) [] = none
query_get (some q) (c ∷ key) = find_entry q (c ∷ key)
