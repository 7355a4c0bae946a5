-- ===== src/Http/Form/Render.antt =====
-- Parsing the text of a list of pairs.
use facebooc.Base.{
  ℕ, zero, suc, ◌+◌, ◌^◌, ◌≤◌, ◌<◌, ◌≡◌, ◌≢◌, refl, ap, ap₂, sym, ◌∙◌, subst, true, some, List, [],
  ◌∷◌, ◌++◌, Bytes, length, take, drop, strchr, c_str, ok, arith, All, Lacks, All-append,
  strchr-append, length-append, take-append, append_assoc, lt→ltb, streq_refl, streq_ne,
}
use facebooc.Utility.Search.{string_view_dup}
use facebooc.Http.Url.{Decoded, urldecode2}
use facebooc.Http.Url.Room.{escapes_whole, url_decoder-room}
use facebooc.Http.Form.{
  Entry, make_pair, pair_lexer, query_loop, parse_decoded, query_parser, find_entry, query_get,
}
use facebooc.Http.Form.Parse.{query_loop-step}

-- The text of a list of pairs, with an `&` behind each.
unfoldable pub render : List Entry → Bytes
render [] = []
render (p ∷ ps) = p.key ++ b'=' ∷ (p.value ++ b'&' ∷ render ps)

-- A pair whose text can be told apart.
abbrev pub IsPlain : Entry → Type 0
IsPlain p = Lacks b'=' p.key × Lacks b'&' p.key × Lacks b'&' p.value

-- The pairs in reverse, in front of a list.
pub onto : List Entry → List Entry → List Entry
onto [] q = q
onto (p ∷ ps) q = onto ps (p ∷ q)

pub drop-past : (s t : Bytes) (d : ℕ) → drop (length s + 1) (s ++ d ∷ t) ≡ t
drop-past [] t d = refl
drop-past (c ∷ s) t d =
    let e : suc (length s + 1) ≡ suc (length s) + 1 = omega arith in
    subst (λ n. drop n (c ∷ s ++ d ∷ t) ≡ t) e (drop-past s t d)

lex :
    (s : Bytes) (i j : ℕ)
    → strchr s b'=' ≡ some i
    → strchr (drop (i + 1) s) b'&' ≡ some j
    → pair_lexer s b'=' b'&' ≡ some (record { key = take i s; value = take j (drop (i + 1) s) })
lex [] i j delim term = unfold strchr in absurd (cc)
lex (c ∷ s) i j delim term =
    unfold pair_lexer make_pair string_view_dup in rw (delim, term, pair_lexer) refl

lex-render :
    (k v t : Bytes)
    → Lacks b'=' k
    → Lacks b'&' v
    → pair_lexer (k ++ b'=' ∷ (v ++ b'&' ∷ t)) b'=' b'&' ≡ some (record { key = k; value = v })
lex-render k v t in_key in_value =
    let past = drop-past k (v ++ b'&' ∷ t) b'=' in
    let lexed =
      lex (k ++ b'=' ∷ (v ++ b'&' ∷ t)) (length k) (length v)
        (strchr-append k (v ++ b'&' ∷ t) b'=' in_key)
        (ap (λ r. strchr r b'&') past ∙ strchr-append v t b'&' in_value) in
    lexed
    ∙ ap₂ (λ x y. some (record { key = x; value = y })) (take-append k (b'=' ∷ (v ++ b'&' ∷ t)))
        (ap (take (length v)) past ∙ take-append v (b'&' ∷ t))

-- The round that takes a pair off its text.
query_loop-pair :
    (fuel : ℕ) (k v t : Bytes) (q : List Entry)
    → Lacks b'=' k
    → Lacks b'&' k
    → Lacks b'&' v
    → query_loop (suc fuel) (k ++ b'=' ∷ (v ++ b'&' ∷ t)) q
      ≡ query_loop fuel t (record { key = k; value = v } ∷ q)
query_loop-pair fuel k v t q delim term in_value =
    let whole = append_assoc k (b'=' ∷ v) (b'&' ∷ t) in
    let lacks = All-append (λ c. c ≢ b'&') k (b'=' ∷ v) term (omega arith, in_value) in
    let found = ap (λ s. strchr s b'&') (sym whole) ∙ strchr-append (k ++ b'=' ∷ v) t b'&' lacks in
    let past =
      ap (drop (length (k ++ b'=' ∷ v) + 1)) (sym whole) ∙ drop-past (k ++ b'=' ∷ v) t b'&' in
    query_loop-step fuel (k ++ b'=' ∷ (v ++ b'&' ∷ t)) q (record { key = k; value = v })
      (length (k ++ b'=' ∷ v)) (lex-render k v t delim in_value) found
    ∙ ap (λ s. query_loop fuel s (record { key = k; value = v } ∷ q)) past

length-render : (p : Entry) (ps : List Entry) → length (render ps) + 1 ≤ length (render (p ∷ ps))
unfolding render
length-render p ps = omega (
  arith,
  length-append p.key (b'=' ∷ (p.value ++ b'&' ∷ render ps)),
  length-append p.value (b'&' ∷ render ps),
)

first :
    (fuel : ℕ) (p : Entry) (ps q : List Entry)
    → Lacks b'=' p.key
    → Lacks b'&' p.key
    → Lacks b'&' p.value
    → query_loop (suc fuel) (render (p ∷ ps)) q ≡ query_loop fuel (render ps) (p ∷ q)
unfolding render
first fuel p ps q = query_loop-pair fuel p.key p.value (render ps) q

after : (p : Entry) (ps q : List Entry) → ok (onto ps (p ∷ q)) ≡ ok (onto (p ∷ ps) q)
unfolding onto
after p ps q = refl

query_loop-render :
    (fuel : ℕ) (ps q : List Entry)
    → All IsPlain ps
    → length (render ps) ≤ fuel
    → query_loop fuel (render ps) q ≡ ok (onto ps q)
query_loop-render fuel [] q plain h = unfold query_loop render onto in refl
query_loop-render zero (p ∷ ps) q plain h = absurd (omega (arith, length-render p ps))
query_loop-render (suc fuel) (p ∷ ps) q ((delim, term, in_value), plain) h =
    first fuel p ps q delim term in_value
    ∙ query_loop-render fuel ps (p ∷ q) plain (omega (arith, length-render p ps))
    ∙ after p ps q

c_str-Lacks : (s : Bytes) → Lacks 0 s → c_str s ≡ s
unfolding c_str
c_str-Lacks [] h = refl
c_str-Lacks (c ∷ s) h = ground (arith, c_str-Lacks s h.1)

parse_decoded-render :
    (d : Decoded) (s : Bytes) (ps : List Entry)
    → length (Decoded.text d) + 17 ≤ Decoded.room d
    → Decoded.text d ≡ urldecode2 s
    → Lacks 0 (urldecode2 s)
    → All IsPlain ps
    → urldecode2 s ++ b'&' ∷ [] ≡ render ps
    → parse_decoded d ≡ ok (onto ps [])
unfolding parse_decoded
parse_decoded-render d s ps room text no_nul plain same =
    let str : c_str d.text ≡ urldecode2 s = ap c_str text ∙ c_str-Lacks (urldecode2 s) no_nul in
    rw (str, lt→ltb (length (urldecode2 s) + 1) d.room (omega (arith, ap length text)), same)
      (query_loop-render (length (urldecode2 s) + 1) ps [] plain
        (omega (arith, ap length same, length-append (urldecode2 s) (b'&' ∷ []))))

-- Where the decoded text is that of a list of pairs, with an `&` between them, `query_parser` returns
-- these pairs in reverse. No key holds an `=` or an `&`, no value an `&`, and the text no NUL; every
-- percent sign of the buffer begins an escape.
pub query_parser-render :
    (s : Bytes) (ps : List Entry)
    → escapes_whole s ≡ true
    → length s < 2 ^ 62
    → Lacks 0 (urldecode2 s)
    → All IsPlain ps
    → urldecode2 s ++ b'&' ∷ [] ≡ render ps
    → query_parser s ≡ ok (onto ps [])
query_parser-render s ps h small no_nul plain same =
    let (d, decoded, text, room) = url_decoder-room s h small in
    unfold query_parser in rw decoded (parse_decoded-render d s ps room text no_nul plain same)

find_entry-onto :
    (qs rest : List Entry) (key : Bytes)
    → All (λ r. r.key ≢ key) qs
    → find_entry (onto qs rest) key ≡ find_entry rest key
unfolding onto
find_entry-onto [] rest key h = refl
find_entry-onto (p ∷ qs) rest key (other, h) =
    find_entry-onto qs (p ∷ rest) key h
    ∙ (unfold find_entry in rw (streq_ne p.key key other, find_entry) refl)

onto-append : (ps qs q : List Entry) → onto (ps ++ qs) q ≡ onto qs (onto ps q)
unfolding onto
onto-append [] qs q = refl
onto-append (p ∷ ps) qs q = onto-append ps qs (p ∷ q)

get-find : (q : List Entry) (key : Bytes) → key ≢ [] → query_get (some q) key ≡ find_entry q key
unfolding query_get
get-find q [] h = absurd (h refl)
get-find q (c ∷ key) h = refl

find-here : (p : Entry) (rest : List Entry) → find_entry (p ∷ rest) p.key ≡ some p.value
unfolding find_entry
find-here p rest = rw (streq_refl p.key) refl

find-onto_last :
    (qs rest : List Entry) (p : Entry)
    → All (λ r. r.key ≢ p.key) qs
    → find_entry (onto (p ∷ qs) rest) p.key ≡ some p.value
unfolding onto
find-onto_last qs rest p h = find_entry-onto qs (p ∷ rest) p.key h ∙ find-here p rest

-- Where the decoded text is that of a list of pairs, under the conditions of `query_parser-render`:
-- of several pairs with one key, which is not empty, `query_get` finds in what `query_parser` gives
-- the last one of the text, the one behind which no pair has that key.
pub query_get-last :
    (s : Bytes) (ps qs : List Entry) (p : Entry)
    → escapes_whole s ≡ true
    → length s < 2 ^ 62
    → Lacks 0 (urldecode2 s)
    → All IsPlain (ps ++ p ∷ qs)
    → urldecode2 s ++ b'&' ∷ [] ≡ render (ps ++ p ∷ qs)
    → p.key ≢ []
    → All (λ r. r.key ≢ p.key) qs
    → (q : List Entry) × (query_parser s ≡ ok q) × (query_get (some q) p.key ≡ some p.value)
query_get-last s ps qs p whole small no_nul plain same named h = (
  onto (ps ++ p ∷ qs) [],
  query_parser-render s (ps ++ p ∷ qs) whole small no_nul plain same,
  get-find (onto (ps ++ p ∷ qs) []) p.key named
      ∙ ap (λ q. find_entry q p.key) (onto-append ps (p ∷ qs) [])
      ∙ find-onto_last qs (onto ps []) p h,
)
