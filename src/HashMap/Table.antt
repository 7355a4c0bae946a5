-- ===== src/HashMap/Table.antt =====
-- A well-formed array of slots, what it maps a key to, and how `hash_map_move_entry` changes that.
use facebooc.Base.{
  ℕ, zero, suc, ◌<◌, ◌≡◌, refl, ap, sym, ◌∙◌, inl, inr, true, false, Option, none, some, [], ◌∷◌,
  Bytes, length, set, streq, eq_of_streq, arith, Bool-cases, if◌then◌else◌, ok, length-set,
}
use facebooc.HashMap.{SPair, Entries, HashMap, get_index, slot, move_entry, hash_map_get}
use facebooc.HashMap.Probe.{
  scan, find, has_empty, path, get_index-lt, get_loop-scan, has_empty-probes,
}
use facebooc.HashMap.Move.{or_else, IsPlaced, IsNew, Moved, move_loop-Moved}
use facebooc.HashMap.Frame.{find_other, scan_other}

module _ {ℓ} {V : Type ℓ} where
  -- The number of pairs in the slots.
  unfoldable pub occupied : Entries V → ℕ
  occupied [] = 0
  occupied (none ∷ entries) = occupied entries
  occupied (some e ∷ entries) = suc (occupied entries)

  -- The value under a key.
  unfoldable pub value_at : Entries V → ℕ → Bytes → Option V
  unfolding path
  value_at entries cap key = scan key (path entries cap key)

  pub record IsTable (entries : Entries V) (cap : ℕ) : Type ℓ where
    pub long : length entries ≡ cap
    pub positive : 0 < cap
    pub placed : IsPlaced entries cap

  pub has_empty_of_occupied :
      (entries : Entries V) → occupied entries < length entries → has_empty entries ≡ true
  unfolding occupied has_empty
  has_empty_of_occupied [] h = absurd (omega arith)
  has_empty_of_occupied (none ∷ entries) h = refl
  has_empty_of_occupied (some e ∷ entries) h = has_empty_of_occupied entries (omega arith)

  occupied-set :
      (entries : Entries V) (at : ℕ) (p : SPair V)
      → at < length entries
      → slot entries at ≡ none
      → occupied (set entries at (some p)) ≡ suc (occupied entries)
  unfolding occupied
  occupied-set [] at p below was = absurd (omega arith)
  occupied-set (none ∷ entries) zero p below was = refl
  occupied-set (some e ∷ entries) zero p below was = absurd (cc)
  occupied-set (none ∷ entries) (suc at) p below was = occupied-set entries at p (omega arith) was
  occupied-set (some e ∷ entries) (suc at) p below was =
      ap suc (occupied-set entries at p (omega arith) was)

  -- In a table with an empty slot the lookup ends, with the value under the key.
  pub hash_map_get-value_at :
      (map : HashMap V) (key : Bytes)
      → IsTable map.entries map.cap
      → has_empty map.entries ≡ true
      → hash_map_get map key ≡ ok (value_at map.entries map.cap key)
  unfolding hash_map_get value_at
  hash_map_get-value_at map key t h =
      get_loop-scan map.cap map.entries map.cap key (get_index map.cap key) (
        has_empty-probes map.entries map.cap (get_index map.cap key)
          (get_index-lt map.cap key t.positive) t.long h)

  -- What moving `p` into a table does to it.
  pub record Inserted (entries : Entries V) (cap : ℕ) (p : SPair V) : Type ℓ where
    pub result : Entries V
    pub run : move_entry entries cap p ≡ ok (true, result)
    pub table : IsTable result cap
    pub one_more : occupied result ≡ suc (occupied entries)
    pub at : ℕ
    pub below : at < length entries
    pub now : result ≡ set entries at (some p)
    pub value :
        (key : Bytes)
        → value_at result cap key ≡ (
            if streq key p.key
            then or_else (value_at entries cap key) (some p.value)
            else value_at entries cap key)

  module _ (entries : Entries V) (cap : ℕ) (p : SPair V) (t : IsTable entries cap)
      (m : Moved cap entries cap p (get_index cap p.key)) where
    own_path :
        (key : Bytes)
        → streq key p.key ≡ true
        → (value_at m.result cap key ≡ or_else (value_at entries cap key) (some p.value))
          × (find key (path m.result cap key) ≡ scan key (path m.result cap key))
    unfolding value_at path
    own_path key same = rw (ap (get_index cap) (eq_of_streq key p.key same)) (m.own key same)

    other_path :
        (key : Bytes)
        → streq key p.key ≡ false
        → (value_at m.result cap key ≡ value_at entries cap key)
          × (find key (path m.result cap key) ≡ scan key (path m.result cap key))
    unfolding value_at path
    other_path key other =
        let good =
          scan_other entries cap m.at p key m.below m.was other cap (get_index cap key)
            (t.placed key) in
        let unchanged =
          find_other entries cap m.at p key m.below m.was other cap (get_index cap key) in
        rw m.now (sym good ∙ unchanged ∙ t.placed key, good)

  pub move_entry-Inserted :
      (entries : Entries V) (cap : ℕ) (p : SPair V)
      → IsTable entries cap
      → IsNew entries p
      → has_empty entries ≡ true
      → Inserted entries cap p
  unfolding move_entry
  move_entry-Inserted entries cap p t new room =
      let i = get_index-lt cap p.key t.positive in
      let m =
        move_loop-Moved entries cap p cap (get_index cap p.key) new t.long i
          (has_empty-probes entries cap (get_index cap p.key) i t.long room) in
      record {
        result = m.result;
        run = m.run;
        table = record {
          long = ap length m.now ∙ length-set entries m.at (some p) ∙ t.long;
          positive = t.positive;
          placed = λ key. elim (Bool-cases (streq key p.key)) [
            | inl same ↦ (own_path entries cap p t m key same).1
            | inr other ↦ (other_path entries cap p t m key other).1
          ];
        };
        one_more = ap occupied m.now ∙ occupied-set entries m.at p m.below m.was;
        at = m.at;
        below = m.below;
        now = m.now;
        value = λ key. elim (Bool-cases (streq key p.key)) [
          | inl same ↦ rw same ((own_path entries cap p t m key same).0)
          | inr other ↦ rw other ((other_path entries cap p t m key other).0)
        ];
      }
