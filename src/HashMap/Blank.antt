-- ===== src/HashMap/Blank.antt =====
-- The array of empty slots that `calloc` gives.
use facebooc.Base.{
  ℕ, zero, suc, ◌<◌, ◌≡◌, refl, sym, ◌∙◌, none, some, Bytes, replicate, length-replicate,
  get_or-replicate,
}
use facebooc.HashMap.{SPair, Entries, slot, get_index}
use facebooc.HashMap.Probe.{probes, find, scan, path}
use facebooc.HashMap.Table.{IsTable, value_at, occupied}
use facebooc.HashMap.Only.{IsOnly}

module _ {ℓ} (V : Type ℓ) where
  abbrev pub blank : ℕ → Entries V
  blank n = replicate n none

  pub slot-blank : (n index : ℕ) → slot (blank n) index ≡ none
  slot-blank n index = get_or-replicate n index none

  find-blank : (n m cap index : ℕ) (key : Bytes) → find key (probes n (blank m) cap index) ≡ none
  unfolding find probes
  find-blank zero m cap index key = refl
  find-blank (suc n) m cap index key = rw (slot-blank m index) (find-blank n m cap _ key)

  scan-blank : (n m cap index : ℕ) (key : Bytes) → scan key (probes n (blank m) cap index) ≡ none
  unfolding scan probes
  scan-blank zero m cap index key = refl
  scan-blank (suc n) m cap index key = rw (slot-blank m index)

  pub occupied-blank : (n : ℕ) → occupied (blank n) ≡ 0
  unfolding occupied
  occupied-blank zero = refl
  occupied-blank (suc n) = occupied-blank n

  pub ne-slot-blank : (n index : ℕ) (x : SPair V) → slot (blank n) index ≡ some x → ⊥
  ne-slot-blank n index x h = cc (slot-blank n index)

  pub IsOnly-blank {κ} : {B : Type κ} (f : SPair V → B) (n : ℕ) → IsOnly f (blank n)
  IsOnly-blank f n i j x y hx hy same = absurd (ne-slot-blank n i x hx)

  -- An array of empty slots is a table, with nothing under any key.
  pub IsTable-blank : (cap : ℕ) → 0 < cap → IsTable (blank cap) cap
  unfolding path
  IsTable-blank cap h = record {
    long = length-replicate cap none;
    positive = h;
    placed = λ key.
        find-blank cap cap cap (get_index cap key) key
        ∙ sym (scan-blank cap cap cap (get_index cap key) key);
  }

  pub value_at-blank : (cap : ℕ) (key : Bytes) → value_at (blank cap) cap key ≡ none
  unfolding value_at
  value_at-blank cap key = scan-blank cap cap cap (get_index cap key) key
