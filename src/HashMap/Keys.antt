-- ===== src/HashMap/Keys.antt =====
-- Where the keys of the slots differ, the order of a search does not matter.
use facebooc.Base.{
  ℕ, zero, suc, ◌<◌, ◌≡◌, ◌≢◌, refl, ap, sym, ◌∙◌, inl, inr, true, none, some, [], ◌∷◌, Bytes,
  length, streq, streq_refl, eq_of_streq, arith, Bool-cases, Option-cases,
}
use facebooc.HashMap.{SPair, Entries, slot, get_index}
use facebooc.HashMap.Probe.{
  probes, find, path, get_index-lt, probes-slot, slot-probes, length-probes, around, behind,
}
use facebooc.HashMap.Table.{IsTable, value_at}
use facebooc.HashMap.Only.{IsOnly, IsAway}

module _ {ℓ} {V : Type ℓ} where
  -- No two slots hold one key.
  abbrev pub IsDistinct : Entries V → Type ℓ
  IsDistinct = IsOnly (λ x. x.key)

  -- No two slots hold one pointer.
  abbrev pub IsApart : Entries V → Type ℓ
  IsApart = IsOnly (λ x. x.addr)

  -- Where a search that succeeds has found its value.
  record Found (key : Bytes) (entries : Entries V) (v : V) : Type ℓ where
    at : ℕ
    below : at < length entries
    pair : SPair V
    there : slot entries at ≡ some pair
    same : key ≡ pair.key
    value : v ≡ pair.value

  find-Found :
      (key : Bytes) (entries : Entries V) (v : V) → find key entries ≡ some v → Found key entries v
  unfolding find
  find-Found key [] v h = absurd (cc)
  find-Found key (none ∷ entries) v h =
      let f = find-Found key entries v h in
      record {
        at = suc f.at;
        below = omega (arith, f.below);
        pair = f.pair;
        there = f.there;
        same = f.same;
        value = f.value;
      }
  find-Found key (some x ∷ entries) v h = elim (Bool-cases (streq key x.key)) [
    | inl hit ↦ record {
      at = 0;
      below = omega arith;
      pair = x;
      there = refl;
      same = eq_of_streq key x.key hit;
      value = ground arith;
    }
    | inr miss ↦
        let f = find-Found key entries v (ground arith) in
        record {
          at = suc f.at;
          below = omega (arith, f.below);
          pair = f.pair;
          there = f.there;
          same = f.same;
          value = f.value;
        }
  ]

  -- A search that fails has met no pair with the key.
  pub find-none :
      (key : Bytes) (entries : Entries V) (at : ℕ) (x : SPair V)
      → find key entries ≡ none
      → slot entries at ≡ some x
      → key ≢ x.key
  unfolding find
  find-none key [] at x h there = ground arith
  find-none key (none ∷ entries) zero x h there = ground arith
  find-none key (none ∷ entries) (suc at) x h there = find-none key entries at x h there
  find-none key (some y ∷ entries) zero x h there =
      λ e. ground (arith, ap (streq key) e, streq_refl key)
  find-none key (some y ∷ entries) (suc at) x h there =
      find-none key entries at x (ground arith) there

  -- A key that no slot has is not found.
  find_away :
      (entries : Entries V) (p : SPair V) (key : Bytes)
      → IsAway (λ x. x.key) entries p
      → key ≡ p.key
      → find key entries ≡ none
  find_away entries p key away same = elim (Option-cases (find key entries)) [
    | inl gone ↦ gone
    | inr (v, found) ↦
        let f = find-Found key entries v found in
        absurd (away f.at f.pair f.there (sym f.same ∙ same))
  ]

  -- Two arrays with the same slots in some order, the keys of one of them distinct.
  find_same :
      (key : Bytes) (xs ys : Entries V) (to from : ℕ → ℕ)
      → ((k : ℕ) → k < length xs → slot xs k ≡ slot ys (to k))
      → ((j : ℕ) → j < length ys → slot ys j ≡ slot xs (from j))
      → IsDistinct ys
      → find key xs ≡ find key ys
  find_same key xs ys to from there back d = elim (Option-cases (find key ys)) [
    | inl gone ↦ elim (Option-cases (find key xs)) [
      | inl absent ↦ absent ∙ sym gone
      | inr (v, found) ↦
          let f = find-Found key xs v found in
          absurd
            (find-none key ys (to f.at) f.pair gone (sym (there f.at f.below) ∙ f.there) f.same)
    ]
    | inr (v, found) ↦
        let f = find-Found key ys v found in
        elim (Option-cases (find key xs)) [
          | inl absent ↦ absurd (
              find-none key xs (from f.at) f.pair absent (sym (back f.at f.below) ∙ f.there) f.same)
          | inr (w, again) ↦
              let g = find-Found key xs w again in
              let g_there = sym (there g.at g.below) ∙ g.there in
              let one = d f.at (to g.at) f.pair g.pair f.there g_there (sym f.same ∙ g.same) in
              let pairs : some f.pair ≡ some g.pair = sym f.there ∙ ap (slot ys) one ∙ g_there in
              again ∙ ground (arith, f.value, g.value) ∙ sym found
        ]
  ]

  -- The value under a key is that of the one slot with the key, wherever it is.
  pub value_at-find :
      (entries : Entries V) (cap : ℕ) (key : Bytes)
      → IsTable entries cap
      → IsDistinct entries
      → value_at entries cap key ≡ find key entries
  unfolding value_at path
  value_at-find entries cap key t d =
      let home = get_index cap key in
      let inside = get_index-lt cap key t.positive in
      sym (t.placed key)
      ∙ find_same key (probes cap entries cap home) entries (around cap home) (behind cap home)
          (λ k below.
            probes-slot cap entries cap home k inside
              (omega (arith, length-probes cap entries cap home)) (omega arith))
          (λ j below. sym (slot-probes entries cap home j inside (omega (arith, t.long)))) d

  pub value_at_away :
      (entries : Entries V) (cap : ℕ) (p : SPair V) (key : Bytes)
      → IsTable entries cap
      → IsDistinct entries
      → IsAway (λ x. x.key) entries p
      → streq key p.key ≡ true
      → value_at entries cap key ≡ none
  value_at_away entries cap p key t d away same =
      value_at-find entries cap key t d ∙ find_away entries p key away (eq_of_streq key p.key same)
