-- ===== src/HashMap/Move.antt =====
-- `hash_map_move_entry`: the pair goes to the first empty slot of its probe.
use facebooc.Base.{
  ℕ, zero, suc, ◌<◌, ◌≡◌, ◌≢◌, refl, ap, ◌∙◌, inl, inr, true, false, Option, none, some, ◌∷◌, Bytes,
  length, set, streq, ok, arith, Bool-cases, Option-cases, get_or-set_self, get_or-set_ne,
}
use facebooc.HashMap.{SPair, Entries, next_index, slot, holds, move_loop}
use facebooc.HashMap.Probe.{next_index-lt, probes, scan, find, has_empty, path}

module _ {ℓ} {V : Type ℓ} where
  -- The first value, or else the second.
  abbrev pub or_else : Option V → Option V → Option V
  or_else none o = o
  or_else (some v) o = some v

  -- Searching up to the first empty slot is searching everything.
  abbrev pub IsPlaced : Entries V → ℕ → Type ℓ
  IsPlaced entries cap =
      (key : Bytes) → find key (path entries cap key) ≡ scan key (path entries cap key)

  -- The pointer is in no slot.
  abbrev pub IsNew : Entries V → SPair V → Type 0
  IsNew entries p = (index : ℕ) → holds (slot entries index) p ≡ false

  -- The two searches of the probe before and after: the same values in front, then the new pair.
  abbrev pub Own : SPair V → Entries V → Entries V → Bytes → Type ℓ
  Own p old new key =
      (scan key new ≡ or_else (scan key old) (some p.value)) × (find key new ≡ scan key new)

  -- What a run of the loop from `index` did.
  pub record Moved (fuel : ℕ) (entries : Entries V) (cap : ℕ) (p : SPair V) (index : ℕ)
      : Type ℓ where
    pub result : Entries V
    pub run : move_loop fuel entries cap p index ≡ ok (true, result)
    pub at : ℕ
    pub below : at < length entries
    pub was : slot entries at ≡ none
    pub now : result ≡ set entries at (some p)
    pub own :
        (key : Bytes)
        → streq key p.key ≡ true
        → Own p (probes fuel entries cap index) (probes fuel result cap index) key

  Own-here :
      (p : SPair V) (old new : Entries V) (key : Bytes)
      → streq key p.key ≡ true
      → Own p (none ∷ old) (some p ∷ new) key
  unfolding scan find
  Own-here p old new key same = rw same (refl, refl)

  Own-next :
      (p x : SPair V) (old new : Entries V) (key : Bytes)
      → Own p old new key
      → Own p (some x ∷ old) (some x ∷ new) key
  unfolding scan find
  Own-next p x old new key (s, f) = elim (Bool-cases (streq key x.key)) [
    | inl hit ↦ rw hit (refl, refl)
    | inr miss ↦ rw miss (s, f)
  ]

  slot-kept :
      (entries result : Entries V) (at index : ℕ) (p x : SPair V)
      → slot entries at ≡ none
      → slot entries index ≡ some x
      → result ≡ set entries at (some p)
      → slot result index ≡ some x
  slot-kept entries result at index p x was there now =
      rw now (get_or-set_ne entries at index (some p) none apart ∙ there)
    where
      apart : at ≢ index
      apart e = ground (arith, ap (slot entries) e)

  module _ (entries : Entries V) (cap : ℕ) (p : SPair V) where
    pub move_loop-Moved :
        (fuel index : ℕ)
        → IsNew entries p
        → length entries ≡ cap
        → index < cap
        → has_empty (probes fuel entries cap index) ≡ true
        → Moved fuel entries cap p index
    unfolding move_loop probes has_empty
    move_loop-Moved zero index new full i h = absurd (cc)
    move_loop-Moved (suc fuel) index new full i h = elim (Option-cases (slot entries index)) [
      | inl e ↦ record {
        result = set entries index (some p);
        run = rw (e, move_loop);
        at = index;
        below = omega arith;
        was = e;
        now = refl;
        own = λ key same.
            rw (e, get_or-set_self entries index (some p) none (omega arith))
              (Own-here p _ _ key same);
      }
      | inr (x, e) ↦
          let rest =
            move_loop-Moved fuel (next_index cap index) new full
              (next_index-lt cap index (omega arith)) (ground arith) in
          record {
            result = rest.result;
            run = rw (e, move_loop, new (next_index cap index)) rest.run;
            at = rest.at;
            below = rest.below;
            was = rest.was;
            now = rest.now;
            own = λ key same.
                rw (e, slot-kept entries rest.result rest.at index p x rest.was e rest.now)
                  (Own-next p x _ _ key (rest.own key same));
          }
    ]
