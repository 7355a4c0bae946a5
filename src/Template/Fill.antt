-- ===== src/Template/Fill.antt =====
-- Filling in the placeholders of a template.
use facebooc.Base.{
  ℕ, zero, suc, ◌<◌, ◌≤◌, ◌≡◌, ◌≢◌, refl, ap, sym, ◌∙◌, Bool, true, Option, none, some, List, [],
  ◌∷◌, ◌++◌, append-nil, Bytes, c_str, c_str-IsCStr, IsCStr, length, length-append, take,
  take-append, drop, ==_ne, Run, ok, fault, ◌>>=◌, All, Lacks, arith,
}
use facebooc.BasicString.{BasicString, whole, new, append_raw, append_raw-whole}
use facebooc.HashMap.{HashMap, hash_map_get}
use facebooc.Template.{
  Piece, written, readfile, skip, token, strtok, placeholder, piece, put_piece, put_text,
  render_loop, render,
}

-- A placeholder with the value of its key, and the text behind it.
pub record Part : Type 0 where
  pub key : Bytes
  pub value : Option Bytes
  pub text : Bytes

pub record IsPart (context : HashMap Bytes) (p : Part) : Type 0 where
  pub closes : Lacks b'}' p.key
  pub opens : Lacks b'{' p.text
  pub known : hash_map_get context p.key ≡ ok p.value

-- How placeholders stand in a file.
unfoldable pub chain : List Part → Bytes
chain [] = []
chain (p ∷ ps) = b'{' ∷ (b'{' ∷ (p.key ++ b'}' ∷ (b'}' ∷ (p.text ++ chain ps))))

-- The text of a value: none for a key that is not set.
unfoldable pub shown : Option Bytes → Bytes
shown none = []
shown (some t) = t

-- The page: every placeholder replaced by its value.
unfoldable pub filled : List Part → Bytes
filled [] = []
filled (p ∷ ps) = shown p.value ++ p.text ++ filled ps

token-append : (d : ℕ) (s t : Bytes) → Lacks d s → token d (s ++ d ∷ t) ≡ (s, t)
unfolding token
token-append d [] t h = ground arith
token-append d (c ∷ s) t (here, later) = rw (==_ne c d here, token-append d s t later) refl

token-Lacks : (d : ℕ) (s : Bytes) → Lacks d s → token d s ≡ (s, [])
unfolding token
token-Lacks d [] h = refl
token-Lacks d (c ∷ s) (here, later) = rw (==_ne c d here, token-Lacks d s later) refl

skip_other : (d c : ℕ) (s : Bytes) → c ≢ d → skip d (c ∷ s) ≡ c ∷ s
unfolding skip
skip_other d c s h = rw (==_ne c d h) refl

strtok-token : (d c : ℕ) (s : Bytes) → c ≢ d → strtok d (c ∷ s) ≡ some (token d (c ∷ s))
unfolding strtok
strtok-token d c s h =
    ap (λ u. elim u [ [] ↦ none | e ∷ t ↦ some (token d (e ∷ t)) ]) (skip_other d c s h)

-- A text up to the next placeholder.
strtok-chain :
    (c : ℕ) (s : Bytes) (ps : List Part)
    → c ≢ b'{'
    → Lacks b'{' s
    → strtok b'{' (c ∷ s ++ chain ps) ≡ some (c ∷ s, drop 1 (chain ps))
unfolding chain
strtok-chain c s [] h lacks =
    ap (strtok b'{') (append-nil (c ∷ s))
    ∙ strtok-token b'{' c s h
    ∙ ap some (token-Lacks b'{' (c ∷ s) (h, lacks))
strtok-chain c s (p ∷ ps) h lacks =
    strtok-token b'{' c _ h ∙ ap some (token-append b'{' (c ∷ s) _ (h, lacks))

append_four : (s a b c : Bytes) → s ++ a ++ b ++ c ≡ s ++ (a ++ b ++ c)
append_four [] a b c = refl
append_four (x ∷ s) a b c = ap (λ t. x ∷ t) (append_four s a b c)

module _ (include : Bytes → Run (Option BasicString)) (context : HashMap Bytes) where
  -- The rest of a round, behind a piece and at it.
  abbrev behind : ℕ → Bool → Option BasicString → Option (Bytes × Bytes) → Run (Option BasicString)
  behind n rep res none = ok res
  behind n rep res (some (next, pos)) = render_loop include context n pos (put_text rep next res)

  abbrev at_piece : ℕ → Option BasicString → Bytes → Run Piece → Run (Option BasicString)
  at_piece n res pos p = do
    q ← p
    put ← put_piece include context q res
    elim put [ none ↦ ok res | some (rep, res1) ↦ behind n rep res1 (strtok b'{' pos) ]

  abbrev at_segment : ℕ → Option BasicString → Option (Bytes × Bytes) → Run (Option BasicString)
  at_segment n res none = ok res
  at_segment n res (some (segment, pos)) = at_piece n res pos (piece context segment)

  piece_known :
      (key : Bytes) (value : Option Bytes)
      → hash_map_get context key ≡ ok value
      → piece context (b'{' ∷ key) ≡ ok (written value)
  unfolding piece placeholder
  piece_known key value h = rw h refl

  -- One round of the loop.
  round :
      (n : ℕ) (p : Part) (ps : List Part) (res : Option BasicString)
      → IsPart context p
      → render_loop include context (suc n) (drop 1 (chain (p ∷ ps))) res
        ≡ render_loop include context n
            (drop 1 (chain ps))
            (append_raw (append_raw res p.value) (some p.text))
  unfolding chain render_loop put_piece put_text
  round n p ps res h =
      ap (at_segment n res) (
        strtok-token b'}' b'{' (p.key ++ b'}' ∷ (b'}' ∷ (p.text ++ chain ps)))
          (λ e. omega (arith, e))
        ∙ ap some (
            token-append b'}' (b'{' ∷ p.key) (b'}' ∷ (p.text ++ chain ps))
              ((λ e. omega (arith, e)), h.closes)))
      ∙ ap (at_piece n res (b'}' ∷ (p.text ++ chain ps))) (piece_known p.key p.value h.known)
      ∙ ap (behind n true (append_raw res p.value))
          (strtok-chain b'}' p.text ps (λ e. omega (arith, e)) h.opens)

  put_value :
      (s : Bytes) (value : Option Bytes)
      → append_raw (some (whole s)) value ≡ some (whole (s ++ shown value))
  unfolding append_raw shown
  put_value s none = ap (λ t. some (whole t)) (sym (append-nil s))
  put_value s (some t) = append_raw-whole s t

  -- The loop, with a round for every placeholder.
  fills :
      (ps : List Part) (n : ℕ) (s : Bytes)
      → All (IsPart context) ps
      → length ps < n
      → render_loop include context n (drop 1 (chain ps)) (some (whole s))
        ≡ ok (some (whole (s ++ filled ps)))
  unfolding filled render_loop chain strtok skip
  fills ps zero s h enough = absurd (omega (arith, enough))
  fills [] (suc n) s h enough = ap (λ t. ok (some (whole t))) (sym (append-nil s))
  fills (p ∷ ps) (suc n) s (here, later) enough =
      round n p ps (some (whole s)) here
      ∙ ap (λ r. render_loop include context n (drop 1 (chain ps)) (append_raw r (some p.text)))
          (put_value s p.value)
      ∙ ap (render_loop include context n (drop 1 (chain ps)))
          (append_raw-whole (s ++ shown p.value) p.text)
      ∙ fills ps n (s ++ shown p.value ++ p.text) later (omega (arith, enough))
      ∙ ap (λ t. ok (some (whole t))) (append_four s (shown p.value) p.text (filled ps))

chain_long : (ps : List Part) → length ps ≤ length (chain ps)
unfolding chain
chain_long [] = omega arith
chain_long (p ∷ ps) = omega (
  arith,
  length-append p.key (b'}' ∷ (b'}' ∷ (p.text ++ chain ps))),
  length-append p.text (chain ps),
  chain_long ps,
)

parts_short : (ps : List Part) → length ps ≤ length (drop 1 (chain ps))
unfolding chain
parts_short [] = omega arith
parts_short (p ∷ ps) = omega (
  arith,
  length-append p.key (b'}' ∷ (b'}' ∷ (p.text ++ chain ps))),
  length-append p.text (chain ps),
  chain_long ps,
)

length_last : (t : Bytes) (last : ℕ) → length (t ++ last ∷ []) ≡ suc (length t)
length_last t last = omega (arith, length-append t (last ∷ []))

read_text :
    (files : Bytes → Option Bytes) (filename t : Bytes) (last : ℕ)
    → files filename ≡ some (t ++ last ∷ [])
    → IsCStr t
    → readfile files filename ≡ some (b' ' ∷ t)
unfolding readfile
read_text files filename t last there h =
    ap
      (λ f. elim f [
        | none ↦ none
        | some content ↦ some (c_str (take (length content) (b' ' ∷ content)))
      ])
      there
    ∙ ap (λ x. some (c_str x))
        (ap (λ n. take n (b' ' ∷ (t ++ last ∷ []))) (length_last t last)
          ∙ ap (λ u. b' ' ∷ u) (take-append t (last ∷ [])))
    ∙ ap some (c_str-IsCStr (b' ' ∷ t) ((omega arith, omega arith), h))

module _ (files : Bytes → Option Bytes) (context : HashMap Bytes) where
  -- The content of a template file with placeholders is rendered with every placeholder replaced by the
  -- value of its key, a key that is not set by nothing, and without the last byte of the file.
  pub render-filled :
      (depth : ℕ) (filename text : Bytes) (ps : List Part) (last : ℕ)
      → files filename ≡ some (text ++ chain ps ++ last ∷ [])
      → IsCStr (text ++ chain ps)
      → Lacks b'{' text
      → All (IsPart context) ps
      → render (suc depth) files context filename ≡ ok (some (whole (text ++ filled ps)))
  unfolding render new
  render-filled depth filename text ps last there h lacks parts =
      ap from_text (read_text files filename (text ++ chain ps) last there h)
      ∙ ap from_first (strtok-chain b' ' text ps (λ e. omega (arith, e)) lacks)
      ∙ ap (rest (drop 1 (chain ps))) (append_raw-whole [] text)
      ∙ fills (render depth files context) context ps (suc (length (drop 1 (chain ps)))) text parts
          (omega (arith, parts_short ps))
    where
      rest : Bytes → Option BasicString → Run (Option BasicString)
      rest pos res = render_loop (render depth files context) context (suc (length pos)) pos res

      from_first : Option (Bytes × Bytes) → Run (Option BasicString)
      from_first none = fault
      from_first (some (segment, pos)) = rest pos (append_raw (some new) (some (drop 1 segment)))

      from_text : Option Bytes → Run (Option BasicString)
      from_text none = ok (some new)
      from_text (some t) = from_first (strtok b'{' t)
