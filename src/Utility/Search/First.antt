-- ===== src/Utility/Search/First.antt =====
-- The search returns the first match: the shift of Boyer and Moore skips none.
use facebooc.Base.{
  ℕ, zero, suc, ◌+◌, ◌-◌, ◌≡◌, ◌≢◌, ◌≤◌, ◌<◌, refl, ap, sym, ◌∙◌, inl, inr, Option, none, some,
  true, [], ◌∷◌, Bytes, length, get_or, ltb, leb, ◌==◌, ==_iff, lt→ltb, if◌then◌else◌, ok, All,
  arith, subst, Bool-cases, Option-cases,
}
use facebooc.Utility.Search.{bad_char, mismatch, shift_by, search_loop, is_ascii, boyer_moore}

-- The pattern stands in the text at place `s`.
pub record Matches (txt pat : Bytes) (s : ℕ) : Type 0 where
  pub fits : s + length pat ≤ length txt
  pub same : (i : ℕ) → i < length pat → get_or pat i 0 ≡ get_or txt (s + i) 0

-- The inner loop finds a place where they differ, or there is none.
mismatch-none :
    (j : ℕ) (txt pat : Bytes) (s : ℕ)
    → mismatch j txt pat s ≡ none
    → (i : ℕ) → i < j
    → get_or pat i 0 ≡ get_or txt (s + i) 0
unfolding mismatch
mismatch-none zero txt pat s h i below = absurd (omega arith)
mismatch-none (suc j) txt pat s h i below = elim (Bool-cases (i == j)) [
  | inl last ↦ let e : i ≡ j = (==_iff i j).0 last in rw e (ground arith)
  | inr before ↦ mismatch-none j txt pat s (ground arith) i (ground arith)
]

mismatch-some :
    (n : ℕ) (txt pat : Bytes) (s j : ℕ)
    → mismatch n txt pat s ≡ some j
    → (j < n) × (get_or pat j 0 ≢ get_or txt (s + j) 0)
unfolding mismatch
mismatch-some zero txt pat s j h = absurd (cc)
mismatch-some (suc n) txt pat s j h = elim (Bool-cases (get_or pat n 0 == get_or txt (s + n) 0)) [
  | inl same ↦ let r = mismatch-some n txt pat s j (ground arith) in (omega arith, r.1)
  | inr other ↦
      let e : n ≡ j = ground arith in
      (
        omega arith,
        λ eq. ground (arith, ap (λ k. get_or pat k 0) e, ap (λ k. get_or txt (s + k) 0) e),
      )
]

-- The table of the pattern has the last place of a byte: none after it.
bad_char_later :
    (pat : Bytes) (i l c : ℕ) → l ≤ i → (k : ℕ) × (bad_char pat i (some l) c ≡ some k) × (l ≤ k)
unfolding bad_char
bad_char_later [] i l c h = (l, refl, omega arith)
bad_char_later (d ∷ pat) i l c h = elim (Bool-cases (d == c)) [
  | inl hit ↦
      let (k, e, le) = bad_char_later pat (i + 1) i c (omega arith) in (k, rw hit e, omega arith)
  | inr miss ↦ let (k, e, le) = bad_char_later pat (i + 1) l c (omega arith) in (k, rw miss e, le)
]

bad_char_last :
    (pat : Bytes) (i : ℕ) (last : Option ℕ) (c p : ℕ)
    → p < length pat
    → get_or pat p 0 ≡ c
    → (k : ℕ) × (bad_char pat i last c ≡ some k) × (i + p ≤ k)
unfolding bad_char
bad_char_last [] i last c p below at = absurd (omega arith)
bad_char_last (d ∷ pat) i last c zero below at =
    let (k, e, le) = bad_char_later pat (i + 1) i c (omega arith) in
    (k, rw ((==_iff d c).1 at) e, omega arith)
bad_char_last (d ∷ pat) i last c (suc p) below at =
    let (k, e, le) =
      bad_char_last pat (i + 1) (if d == c then some i else last) c p (omega arith) at in
    (k, e, omega arith)

shift_by-near : (j k d : ℕ) → 0 < d → d ≤ j → j - d ≤ k → shift_by j (some k) ≤ d
unfolding shift_by
shift_by-near j k d pos in_range le = omega arith

shift_by-far : (j d : ℕ) (o : Option ℕ) → j < d → shift_by j o ≤ d
unfolding shift_by
shift_by-far j d none out = omega arith
shift_by-far j d (some k) out = omega arith

shift_by-pos : (j : ℕ) (o : Option ℕ) → 0 < shift_by j o
unfolding shift_by
shift_by-pos j none = omega arith
shift_by-pos j (some k) = omega arith

-- No match begins at a place that the shift jumps over.
jumps_none :
    (txt pat : Bytes) (s j d : ℕ)
    → j < length pat
    → 0 < d
    → d < shift_by j (bad_char pat 0 none (get_or txt (s + j) 0))
    → ¬ Matches txt pat (s + d)
jumps_none txt pat s j d below pos jump m = elim (Bool-cases (leb d j)) [
  | inl inside ↦
      let at : get_or pat (j - d) 0 ≡ get_or txt (s + j) 0 =
        m.same (j - d) (ground arith) ∙ ap (λ k. get_or txt k 0) (ground arith) in
      let (k, e, le) = bad_char_last pat 0 none (get_or txt (s + j) 0) (j - d) (ground arith) at in
      let h : d < shift_by j (some k) = subst (λ o. d < shift_by j o) e jump in
      omega (arith, shift_by-near j k d pos (ground arith) (omega (arith, le)))
  | inr outside ↦
      omega (arith, shift_by-far j d (bad_char pat 0 none (get_or txt (s + j) 0)) (ground arith))
]

-- The place of the first match, or `none` where there is no match.
abbrev pub IsFirst : Bytes → Bytes → Option ℕ → Type 0
IsFirst txt pat none = (s : ℕ) → ¬ Matches txt pat s
IsFirst txt pat (some r) = Matches txt pat r × ((s : ℕ) → s < r → ¬ Matches txt pat s)

abbrev pub IsAscii : Bytes → Type 0
IsAscii = All (λ c. c < 128)

get_or-IsAscii : (txt : Bytes) (i : ℕ) → IsAscii txt → get_or txt i 0 < 128
get_or-IsAscii [] i h = omega arith
get_or-IsAscii (c ∷ txt) zero h = h.0
get_or-IsAscii (c ∷ txt) (suc i) h = get_or-IsAscii txt i h.1

module _ (txt pat : Bytes) (ascii : IsAscii txt) where
  -- Nothing before the place after a jump.
  before_jump :
      (s j : ℕ)
      → ((t : ℕ) → t < s → ¬ Matches txt pat t)
      → mismatch (length pat) txt pat s ≡ some j
      → (t : ℕ) → t < s + shift_by j (bad_char pat 0 none (get_or txt (s + j) 0))
      → ¬ Matches txt pat t
  before_jump s j before differ t below m =
      let (inside, other) = mismatch-some (length pat) txt pat s j differ in
      elim (Bool-cases (ltb t s)) [
        | inl old ↦ before t (ground arith) m
        | inr new ↦ elim (Bool-cases (t == s)) [
          | inl here ↦
              let e : t ≡ s = (==_iff t s).0 here in
              other (m.same j inside ∙ ap (λ k. get_or txt (k + j) 0) e)
          | inr jumped ↦
              let e : s + (t - s) ≡ t = ground arith in
              jumps_none txt pat s j (t - s) inside (ground arith) (ground arith)
                (subst (Matches txt pat) (sym e) m)
        ]
      ]

  search_loop-IsFirst :
      (fuel s : ℕ)
      → 0 < length pat
      → length pat ≤ length txt
      → 0 < fuel
      → length txt < fuel + s
      → ((t : ℕ) → t < s → ¬ Matches txt pat t)
      → (o : Option ℕ) × (search_loop fuel txt pat s ≡ ok o) × IsFirst txt pat o
  unfolding search_loop
  search_loop-IsFirst zero s some_byte short more enough before = absurd (omega arith)
  search_loop-IsFirst (suc fuel) s some_byte short more enough before =
      elim (Bool-cases (leb s (length txt - length pat))) [
        | inl inside ↦ elim (Option-cases (mismatch (length pat) txt pat s)) [
          | inl same ↦ (
            some s,
            rw (inside, same),
            (
              record { fits = ground arith; same = mismatch-none (length pat) txt pat s same },
              before,
            ),
          )
          | inr (j, differ) ↦
              let c = get_or txt (s + j) 0 in
              let jump = shift_by j (bad_char pat 0 none c) in
              let (o, run, first) =
                search_loop-IsFirst fuel (s + jump) some_byte short (ground arith)
                  (ground (arith, shift_by-pos j (bad_char pat 0 none c)))
                  (before_jump s j before differ) in
              (o, rw (inside, differ, lt→ltb c 128 (get_or-IsAscii txt (s + j) ascii)) run, first)
        ]
        | inr past ↦ (none, rw past, λ t m. before t (ground (arith, m.fits)) m)
      ]

IsAscii-is_ascii : (s : Bytes) → IsAscii s → is_ascii s ≡ true
unfolding is_ascii
IsAscii-is_ascii [] h = refl
IsAscii-is_ascii (c ∷ s) (low, h) = rw (lt→ltb c 128 low) (IsAscii-is_ascii s h)

-- In an ASCII text, the search for an ASCII pattern of 2 to 127 bytes ends. It gives the first
-- place where the pattern stands in the text, and nothing exactly when it stands nowhere.
pub boyer_moore-IsFirst :
    (txt pat : Bytes)
    → IsAscii txt
    → IsAscii pat
    → 2 ≤ length pat
    → length pat < 128
    → (o : Option ℕ) × (boyer_moore txt pat ≡ ok o) × IsFirst txt pat o
unfolding boyer_moore
boyer_moore-IsFirst txt pat ascii plain long short =
    elim (Bool-cases (ltb (length txt) (length pat))) [
      | inl too_long ↦ (none, ground arith, λ s m. ground (arith, m.fits))
      | inr fits ↦
          let (o, run, first) =
            search_loop-IsFirst txt pat ascii (length txt + 1) 0 (omega arith) (ground arith)
              (omega arith) (omega arith) (λ t below m. omega arith) in
          let low = IsAscii-is_ascii pat plain in (o, ground (arith, low), first)
    ]
