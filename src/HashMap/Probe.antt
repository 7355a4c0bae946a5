-- ===== src/HashMap/Probe.antt =====
-- The slots that a probe visits, as a list, and the two ways to search it: up to the first empty slot,
-- as the code does, and through it all.
use facebooc.Base.{
  ℕ, zero, suc, ◌+◌, ◌-◌, ◌≤◌, ◌<◌, ◌≡◌, refl, ap, ◌∙◌, Bool, true, false, Option, none, some, [],
  ◌∷◌, Bytes, length, ltb, leb, if◌then◌else◌, streq, ok, arith,
}
use facebooc.Base.Bits.{bit_and-le}
use facebooc.HashMap.{Entries, hash_key, get_index, next_index, slot, get_loop}

pub get_index-lt : (cap : ℕ) (key : Bytes) → 0 < cap → get_index cap key < cap
unfolding get_index
get_index-lt cap key h = omega (arith, bit_and-le (hash_key key) (cap - 1))

pub next_index-lt : (cap index : ℕ) → 0 < cap → next_index cap index < cap
unfolding next_index
next_index-lt cap index h = ground arith

-- The slot `k` places behind `index`, round the end of the array.
abbrev pub around : ℕ → ℕ → ℕ → ℕ
around cap index k = if ltb (index + k) cap then index + k else index + k - cap

-- How many places behind `index` the slot `j` stands, round the end of the array.
abbrev pub behind : ℕ → ℕ → ℕ → ℕ
behind cap index j = if leb index j then j - index else j + cap - index

module _ {ℓ} {V : Type ℓ} where
  -- The slots from `index` on, so many of them.
  unfoldable pub probes : ℕ → Entries V → ℕ → ℕ → Entries V
  probes zero entries cap index = []
  probes (suc n) entries cap index =
      slot entries index ∷ probes n entries cap (next_index cap index)

  -- The first pair with the key before the first empty slot.
  unfoldable pub scan : Bytes → Entries V → Option V
  scan key [] = none
  scan key (none ∷ path) = none
  scan key (some e ∷ path) = if streq key e.key then some e.value else scan key path

  -- The first pair with the key.
  unfoldable pub find : Bytes → Entries V → Option V
  find key [] = none
  find key (none ∷ path) = find key path
  find key (some e ∷ path) = if streq key e.key then some e.value else find key path

  unfoldable pub has_empty : Entries V → Bool
  has_empty [] = false
  has_empty (none ∷ path) = true
  has_empty (some e ∷ path) = has_empty path

  -- The slots that `key` is looked for in.
  unfoldable pub path : Entries V → ℕ → Bytes → Entries V
  path entries cap key = probes cap entries cap (get_index cap key)

  pub get_loop-scan :
      (fuel : ℕ) (entries : Entries V) (cap : ℕ) (key : Bytes) (index : ℕ)
      → has_empty (probes fuel entries cap index) ≡ true
      → get_loop fuel entries cap key index ≡ ok (scan key (probes fuel entries cap index))
  unfolding get_loop scan probes has_empty
  get_loop-scan zero entries cap key index h = ground arith
  get_loop-scan (suc fuel) entries cap key index h =
      ground (arith, get_loop-scan fuel entries cap key (next_index cap index))

  pub probes-slot :
      (n : ℕ) (entries : Entries V) (cap index k : ℕ)
      → index < cap
      → k < n
      → n ≤ cap
      → slot (probes n entries cap index) k ≡ slot entries (around cap index k)
  unfolding probes next_index
  probes-slot zero entries cap index k i kn nc = absurd (omega arith)
  probes-slot (suc n) entries cap index zero i kn nc = ap (λ j. slot entries j) (ground arith)
  probes-slot (suc n) entries cap index (suc k) i kn nc =
      probes-slot n entries cap (next_index cap index) k (next_index-lt cap index (omega arith))
        (omega arith) (omega arith)
      ∙ ap (λ j. slot entries j) (ground arith)

  -- A probe of all slots finds an empty one, if there is one.
  has_empty-slot :
      (path : Entries V) (k : ℕ) → k < length path → slot path k ≡ none → has_empty path ≡ true
  unfolding has_empty
  has_empty-slot [] k h e = absurd (omega arith)
  has_empty-slot (none ∷ path) k h e = refl
  has_empty-slot (some x ∷ path) zero h e = ground arith
  has_empty-slot (some x ∷ path) (suc k) h e = has_empty-slot path k (omega arith) e

  empty_slot :
      (entries : Entries V)
      → has_empty entries ≡ true
      → (k : ℕ) × (k < length entries) × (slot entries k ≡ none)
  unfolding has_empty
  empty_slot [] h = ground arith
  empty_slot (none ∷ entries) h = (0, omega arith, refl)
  empty_slot (some x ∷ entries) h =
      let (k, below, e) = empty_slot entries h in (suc k, omega arith, e)

  pub length-probes :
      (n : ℕ) (entries : Entries V) (cap index : ℕ) → length (probes n entries cap index) ≡ n
  unfolding probes
  length-probes zero entries cap index = refl
  length-probes (suc n) entries cap index =
      ap suc (length-probes n entries cap (next_index cap index))

  -- A probe of as many slots as there are meets every slot.
  pub slot-probes :
      (entries : Entries V) (cap index j : ℕ)
      → index < cap
      → j < cap
      → slot (probes cap entries cap index) (behind cap index j) ≡ slot entries j
  slot-probes entries cap index j i jc =
      probes-slot cap entries cap index (behind cap index j) i (ground arith) (omega arith)
      ∙ ap (λ m. slot entries m) (ground arith)

  pub has_empty-probes :
      (entries : Entries V) (cap index : ℕ)
      → index < cap
      → length entries ≡ cap
      → has_empty entries ≡ true
      → has_empty (probes cap entries cap index) ≡ true
  has_empty-probes entries cap index i full h =
      let (j, below, e) = empty_slot entries h in
      has_empty-slot (probes cap entries cap index) (behind cap index j)
        (omega (arith, length-probes cap entries cap index, behind-lt j (omega arith)))
        (slot-probes entries cap index j i (omega arith) ∙ e)
    where
      behind-lt : (j : ℕ) → j < cap → behind cap index j < cap
      behind-lt j h = ground arith
