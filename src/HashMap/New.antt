-- ===== src/HashMap/New.antt =====
-- `Hash_map_new`.
use facebooc.Base.{ℕ, ◌≤◌, ◌≡◌, ◌∙◌, ap, none, Bytes, ok, arith}
use facebooc.HashMap.{HashMap, hash_map_get, hash_map_new}
use facebooc.HashMap.Blank.{blank, occupied-blank, IsOnly-blank, IsTable-blank, value_at-blank}
use facebooc.HashMap.Expand.{IsValid}
use facebooc.HashMap.Insert.{hash_map_get-value_of}

module _ {ℓ} (V : Type ℓ) where
  blank_map : ℕ → HashMap V
  blank_map n = record { entries = blank V n; cap = n; len = 0 }

  blank_map-IsValid : (n : ℕ) → 2 ≤ n → IsValid (blank_map n)
  unfolding blank_map
  blank_map-IsValid n h = record {
    table = IsTable-blank V n (omega arith);
    apart = IsOnly-blank V (λ x. x.addr) n;
    distinct = IsOnly-blank V (λ x. x.key) n;
    counted = omega (arith, occupied-blank V n);
    load = omega arith;
    some_room = h;
  }

  get-blank_map : (n : ℕ) (key : Bytes) → 2 ≤ n → hash_map_get (blank_map n) key ≡ ok none
  unfolding blank_map
  get-blank_map n key h =
      hash_map_get-value_of (record { entries = blank V n; cap = n; len = 0 }) key
        (blank_map-IsValid n h)
      ∙ ap ok (value_at-blank V n key)

  -- A new map is in a valid state, and every lookup in it ends and finds nothing.
  pub new-IsValid :
      IsValid {V = V} hash_map_new
      × ((key : Bytes) → hash_map_get {V = V} hash_map_new key ≡ ok none)
  unfolding hash_map_new blank_map
  new-IsValid = (blank_map-IsValid 64 (omega arith), λ key. get-blank_map 64 key (omega arith))
