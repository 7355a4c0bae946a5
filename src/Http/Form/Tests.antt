-- ===== src/Http/Form/Tests.antt =====
-- The form text of src/http/query.c at a concrete text.
use facebooc.Base.{
  ◌≡◌, refl, true, some, List, [], ◌∷◌, ◌++◌, Bytes, codes, ok, arith, Lacks, ap, length, get_or,
}
use facebooc.Http.Url.{is_xdigit, urldecode2, is_escape, plain, hex_value}
use facebooc.Http.Url.Room.{escapes_whole}
use facebooc.Http.Form.{Entry, query_parser, query_get}
use facebooc.Http.Form.Parse.{query_parser-total}
use facebooc.Http.Form.Render.{render, onto, query_parser-render, query_get-last}

abbrev text : Bytes
text = codes "q=a%20b&r=1"

abbrev first : Entry
first = record { key = codes "q"; value = codes "a b" }

abbrev second : Entry
second = record { key = codes "r"; value = codes "1" }

text_whole : escapes_whole text ≡ true
unfolding is_xdigit escapes_whole
text_whole = refl

text_decoded : urldecode2 text ≡ codes "q=a b&r=1"
unfolding urldecode2 is_escape is_xdigit plain hex_value
text_decoded = refl

text_render : urldecode2 text ++ b'&' ∷ [] ≡ render (first ∷ second ∷ [])
unfolding urldecode2 is_escape is_xdigit plain hex_value render
text_render = refl

text_no_nul : Lacks 0 (urldecode2 text)
unfolding urldecode2 is_escape is_xdigit plain hex_value
text_no_nul = ground arith

query_parser-total_example : (q : List Entry) × (query_parser text ≡ ok q)
query_parser-total_example = query_parser-total text text_whole (omega arith)

query_parser-render_example : query_parser text ≡ ok (onto (first ∷ second ∷ []) [])
query_parser-render_example =
    query_parser-render text (first ∷ second ∷ []) text_whole (omega arith) text_no_nul
      (ground arith) text_render

abbrev twice : Bytes
twice = codes "q=1&q=a%20b&r=1"

abbrev older : Entry
older = record { key = codes "q"; value = codes "1" }

twice_whole : escapes_whole twice ≡ true
unfolding is_xdigit escapes_whole
twice_whole = refl

twice-render : urldecode2 twice ++ b'&' ∷ [] ≡ render (older ∷ first ∷ second ∷ [])
unfolding urldecode2 is_escape is_xdigit plain hex_value render
twice-render = refl

twice_no_nul : Lacks 0 (urldecode2 twice)
unfolding urldecode2 is_escape is_xdigit plain hex_value
twice_no_nul = ground arith

query_get-last_example :
    (q : List Entry) × (query_parser twice ≡ ok q)
    × (query_get (some q) (codes "q") ≡ some (codes "a b"))
query_get-last_example =
    query_get-last twice (older ∷ []) (second ∷ []) first twice_whole (omega arith) twice_no_nul
      (ground arith) twice-render (λ e. omega (arith, ap length e))
      (λ e. omega (arith, ap (λ s. get_or s 0 0) e), tt)
