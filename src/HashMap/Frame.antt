-- ===== src/HashMap/Frame.antt =====
-- Filling an empty slot does not change what is found under another key.
use facebooc.Base.{
  ℕ, zero, suc, ◌<◌, ◌≡◌, refl, ap, sym, ◌∙◌, inl, inr, false, Option, none, some, [], ◌∷◌, Bytes,
  length, set, ◌==◌, streq, arith, Bool-cases, get_or-set_self, get_or-set_ne, ==_iff,
}
use facebooc.HashMap.{SPair, Entries, next_index, slot}
use facebooc.HashMap.Probe.{probes, scan, find}

module _ {ℓ} {V : Type ℓ} where
  -- The second list is the first with `p` in some of its empty slots.
  data Filled (p : SPair V) : Entries V → Entries V → Type ℓ where
    nil : Filled p [] []
    empty : {old new : Entries V} → Filled p old new → Filled p (none ∷ old) (none ∷ new)
    kept :
        {old new : Entries V} (x : SPair V)
        → Filled p old new
        → Filled p (some x ∷ old) (some x ∷ new)
    fill : {old new : Entries V} → Filled p old new → Filled p (none ∷ old) (some p ∷ new)

  same :
      {p : SPair V} {old new : Entries V} (o : Option (SPair V))
      → Filled p old new
      → Filled p (o ∷ old) (o ∷ new)
  same none r = empty r
  same (some x) r = kept x r

  Filled-probes :
      (entries : Entries V) (cap at : ℕ) (p : SPair V)
      → at < length entries
      → slot entries at ≡ none
      → (n index : ℕ)
      → Filled p (probes n entries cap index) (probes n (set entries at (some p)) cap index)
  unfolding probes
  Filled-probes entries cap at p below was zero index = nil
  Filled-probes entries cap at p below was (suc n) index =
      let rest = Filled-probes entries cap at p below was n (next_index cap index) in
      elim (Bool-cases (at == index)) [
        | inl here ↦
            let e : at ≡ index = (==_iff at index).0 here in
            rw
              (
                ap (slot entries) (sym e) ∙ was,
                ap (slot (set entries at (some p))) (sym e)
                    ∙ get_or-set_self entries at (some p) none below,
              )
              (fill rest)
        | inr elsewhere ↦
            rw (get_or-set_ne entries at index (some p) none (λ e. ground arith))
              (same (slot entries index) rest)
      ]

  find-none-scan : (key : Bytes) (path : Entries V) → find key path ≡ none → scan key path ≡ none
  unfolding find scan
  find-none-scan key [] h = refl
  find-none-scan key (none ∷ path) h = refl
  find-none-scan key (some x ∷ path) h = ground (arith, find-none-scan key path)

  module _ {p : SPair V} (key : Bytes) (other : streq key p.key ≡ false) where
    find-Filled : {old new : Entries V} → Filled p old new → find key new ≡ find key old
    unfolding find
    find-Filled nil = refl
    find-Filled (empty r) = find-Filled r
    find-Filled (kept x r) = rw (find-Filled r)
    find-Filled (fill r) = rw other (find-Filled r)

    scan-Filled :
        {old new : Entries V}
        → Filled p old new
        → find key old ≡ scan key old
        → find key new ≡ scan key new
    unfolding find scan
    scan-Filled nil h = h
    scan-Filled (empty r) h = find-Filled r ∙ h
    scan-Filled (kept x r) h = ground (arith, scan-Filled r)
    scan-Filled (fill {new} r) h =
        let gone = find-Filled r ∙ h in rw other (gone ∙ sym (find-none-scan key new gone))

-- Under another key, filling the empty slot `at` with `p` keeps what a probe finds, and keeps the probe
-- right.
module _ {ℓ} {V : Type ℓ} (entries : Entries V) (cap at : ℕ) (p : SPair V) (key : Bytes) where
  pub find_other :
      at < length entries
      → slot entries at ≡ none
      → streq key p.key ≡ false
      → (n index : ℕ)
      → find key (probes n (set entries at (some p)) cap index)
        ≡ find key (probes n entries cap index)
  find_other below was other n index =
      find-Filled key other (Filled-probes entries cap at p below was n index)

  pub scan_other :
      at < length entries
      → slot entries at ≡ none
      → streq key p.key ≡ false
      → (n index : ℕ)
      → find key (probes n entries cap index) ≡ scan key (probes n entries cap index)
      → find key (probes n (set entries at (some p)) cap index)
        ≡ scan key (probes n (set entries at (some p)) cap index)
  scan_other below was other n index h =
      scan-Filled key other (Filled-probes entries cap at p below was n index) h
