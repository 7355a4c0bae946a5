-- ===== src/HashMap/Erase.antt =====
-- `Hash_map_erase`, by what stands in the first slot of the key.
use facebooc.Base.{
  ℕ, zero, suc, ◌≡◌, ◌≢◌, refl, sym, false, none, some, Bytes, streq, streq_ne, ok, stuck,
}
use facebooc.HashMap.{SPair, Entries, HashMap, slot, get_index, hash_map_erase, erase_loop}

module _ {ℓ} {V : Type ℓ} where
  erase_loop-stuck :
      (fuel : ℕ) (entries : Entries V) (cap : ℕ) (key : Bytes) (index : ℕ) (e : SPair V)
      → slot entries index ≡ some e
      → streq key e.key ≡ false
      → erase_loop fuel entries cap key index ≡ stuck
  unfolding erase_loop
  erase_loop-stuck zero entries cap key index e there other = refl
  erase_loop-stuck (suc fuel) entries cap key index e there other =
      rw (there, other, erase_loop) (erase_loop-stuck fuel entries cap key index e there other)

  -- When the first slot of a key holds a pair with another key, the loop of `Hash_map_erase` does not
  -- end: no number of rounds is enough, whether the key is in the map or not.
  pub erase-stuck :
      (fuel : ℕ) (map : HashMap V) (key : Bytes) (e : SPair V)
      → slot map.entries (get_index map.cap key) ≡ some e
      → e.key ≢ key
      → hash_map_erase fuel map key ≡ stuck
  unfolding hash_map_erase
  erase-stuck fuel map key e there other = rw (
      erase_loop-stuck fuel map.entries map.cap key (get_index map.cap key) e there
        (streq_ne key e.key (λ same. other (sym same))))

  -- When the first slot of a key is empty, the map is left as it is.
  erase_absent :
      (fuel : ℕ) (map : HashMap V) (key : Bytes)
      → slot map.entries (get_index map.cap key) ≡ none
      → hash_map_erase (suc fuel) map key ≡ ok map
  unfolding hash_map_erase erase_loop
  erase_absent fuel map key free = rw (free, erase_loop)
