-- ===== src/Template/Ends.antt =====
-- The loop of the renderer ends.
use facebooc.Base.{
  ℕ, zero, suc, ◌+◌, ◌<◌, ◌≤◌, ◌≡◌, refl, ap, Bool, true, false, Option, none, some, [], ◌∷◌, Bytes,
  codes, strchr, streq, length, take, drop, ltb, ◌==◌, if◌then◌else◌, Run, ok, fault, stuck, ◌>>=◌,
  arith,
}
use facebooc.BasicString.{BasicString, append}
use facebooc.HashMap.{HashMap, hash_map_get}
use facebooc.HashMap.Expand.{IsValid}
use facebooc.HashMap.Insert.{hash_map_get-value_of}
use facebooc.Template.{
  Piece, written, included, literal, unknown, skip, token, strtok, include_piece, when_value,
  when_key, when_piece, expression, placeholder, piece, put_piece, put_text, begins, without_last,
  render_loop,
}

-- A run that ends, in a value or in a fault.
abbrev pub Ends {ℓ} : {A : Type ℓ} → Run A → Type 0
Ends (ok a) = Unit
Ends fault = Unit
Ends stuck = ⊥

module _ {ℓ κ} {A : Type ℓ} {B : Type κ} where
  bind-Ends : (r : Run A) (f : A → Run B) → Ends r → ((a : A) → Ends (f a)) → Ends (r >>= f)
  bind-Ends (ok a) f h g = g a
  bind-Ends fault f h g = tt
  bind-Ends stuck f h g = absurd h

module _ {ℓ κ} {A : Type ℓ} {B : Type κ} where
  option-Ends :
      (o : Option A) (f : Option A → Run B)
      → (o ≡ none → Ends (f none))
      → ((a : A) → o ≡ some a → Ends (f (some a)))
      → Ends (f o)
  option-Ends none f h g = h refl
  option-Ends (some a) f h g = g a refl

module _ {ℓ} {A : Type ℓ} where
  if-Ends : (b : Bool) (r s : Run A) → Ends r → Ends s → Ends (if b then r else s)
  if-Ends true r s h k = h
  if-Ends false r s h k = k

some_injective : (a b : Bytes × Bytes) → some a ≡ some b → a ≡ b
some_injective a b h = cc

skip_short : (d : ℕ) (s : Bytes) → length (skip d s) ≤ length s
unfolding skip
skip_short d [] = omega arith
skip_short d (c ∷ s) = ground (arith, skip_short d s)

token_short : (d : ℕ) (s : Bytes) → length (token d s).1 ≤ length s
unfolding token
token_short d [] = omega arith
token_short d (c ∷ s) = ground (arith, token_short d s)

token_shorter : (d c : ℕ) (s : Bytes) → length (token d (c ∷ s)).1 < length (c ∷ s)
unfolding token
token_shorter d c s = ground (arith, token_short d s)

strtok_short : (d : ℕ) (s : Bytes) (r : Bytes × Bytes) → strtok d s ≡ some r → length r.1 < length s
unfolding strtok
strtok_short d s r h = of_skip (skip d s) (skip_short d s) h
  where
    of_skip :
        (u : Bytes)
        → length u ≤ length s
        → elim u [ [] ↦ none | c ∷ t ↦ some (token d (c ∷ t)) ] ≡ some r
        → length r.1 < length s
    of_skip [] short e = absurd (cc)
    of_skip (c ∷ t) short e = omega (
      arith,
      short,
      token_shorter d c t,
      ap (λ x. length x.1) (some_injective (token d (c ∷ t)) r e),
    )

module _ (context : HashMap Bytes) (valid : IsValid context) where
  get-Ends : (key : Bytes) → Ends (hash_map_get context key)
  get-Ends key = rw (hash_map_get-value_of context key valid) tt

  value-Ends : (status segment : Bytes) → Ends (when_value status segment)
  unfolding when_value
  value-Ends status segment =
      option-Ends (strchr segment b' ') at_space (λ e. tt)
        (λ spc e. if-Ends (streq status (take spc segment)) _ _ tt tt)
    where
      at_space : Option ℕ → Run Piece
      at_space none = fault
      at_space (some spc) =
          if streq status (take spc segment)
          then ok (written (some (without_last (drop (spc + 1) segment))))
          else ok (written none)

  key-Ends : (segment : Bytes) → Ends (when_key context segment)
  unfolding when_key
  key-Ends segment =
      option-Ends (strchr segment b' ') at_space (λ e. tt)
        (λ spc e.
          bind-Ends (hash_map_get context (take spc segment)) (with_status spc)
            (get-Ends (take spc segment))
            (λ status.
              option-Ends status (with_status spc) (λ e. tt)
                (λ value e. value-Ends value (drop (spc + 1) segment))))
    where
      with_status : ℕ → Option Bytes → Run Piece
      with_status spc none = ok (written none)
      with_status spc (some value) = when_value value (drop (spc + 1) segment)

      at_space : Option ℕ → Run Piece
      at_space none = fault
      at_space (some spc) = hash_map_get context (take spc segment) >>= with_status spc

  expression-Ends : (segment : Bytes) → Ends (expression context segment)
  unfolding expression include_piece when_piece
  expression-Ends segment =
      if-Ends (begins (codes "include") segment) _ _ (if-Ends (ltb (length segment) 8) _ _ tt tt) (
        if-Ends (begins (codes "when") segment) _ _
          (if-Ends (ltb (length segment) 5) _ _ tt (key-Ends (drop 5 segment))) tt)

  piece-Ends : (segment : Bytes) → Ends (piece context segment)
  unfolding piece placeholder
  piece-Ends [] = tt
  piece-Ends (c ∷ segment) =
      if-Ends (c == b'{') _ _
        (bind-Ends (hash_map_get context segment) (λ val. ok (written val)) (get-Ends segment)
          (λ val. tt))
        (if-Ends (c == b'%') _ _ (expression-Ends segment) tt)

  module _ (include : Bytes → Run (Option BasicString))
      (nested : (f : Bytes) → Ends (include f)) where
    put-Ends : (p : Piece) (res : Option BasicString) → Ends (put_piece include context p res)
    unfolding put_piece
    put-Ends (written val) res = tt
    put-Ends (included filename) res =
        bind-Ends (include filename) (λ n. ok (some (true, append res n))) (nested filename)
          (λ n. tt)
    put-Ends literal res = tt
    put-Ends unknown res = tt

    -- On a valid context, and with nested files that end, the loop ends in as many rounds as the
    -- text has bytes, and one.
    pub render_loop-Ends :
        (n : ℕ) (pos : Bytes) (res : Option BasicString)
        → length pos < n
        → Ends (render_loop include context n pos res)
    unfolding render_loop
    render_loop-Ends zero pos res h = absurd (omega (arith, h))
    render_loop-Ends (suc n) pos res h =
        option-Ends (strtok b'}' pos) at_segment (λ e. tt)
          (λ t e. bind-Ends (piece context t.0) (at_piece t.1) (piece-Ends t.0) (λ p.
            bind-Ends (put_piece include context p res) (at_put t.1) (put-Ends p res) (λ put.
              option-Ends put (at_put t.1) (λ e. tt)
                (λ q e'.
                  option-Ends (strtok b'{' t.1) (behind q) (λ e. tt)
                    (λ u e''. render_loop-Ends n u.1 (put_text q.0 u.0 q.1) (
                      omega (arith, h, strtok_short b'}' pos t e, strtok_short b'{' t.1 u e'')))))))
      where
        behind : Bool × Option BasicString → Option (Bytes × Bytes) → Run (Option BasicString)
        behind q none = ok q.1
        behind q (some (next, pos2)) = render_loop include context n pos2 (put_text q.0 next q.1)

        at_put : Bytes → Option (Bool × Option BasicString) → Run (Option BasicString)
        at_put pos1 none = ok res
        at_put pos1 (some q) = behind q (strtok b'{' pos1)

        at_piece : Bytes → Piece → Run (Option BasicString)
        at_piece pos1 p = put_piece include context p res >>= at_put pos1

        at_segment : Option (Bytes × Bytes) → Run (Option BasicString)
        at_segment none = ok res
        at_segment (some (segment, pos1)) = piece context segment >>= at_piece pos1
