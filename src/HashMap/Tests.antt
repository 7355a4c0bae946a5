-- ===== src/HashMap/Tests.antt =====
-- Runs of the table, and the theorems at concrete maps.
use facebooc.Base.{
  ℕ, ◌≡◌, ◌+◌, refl, true, Option, some, Bytes, codes, set, if◌then◌else◌, streq, Run, ok, stuck,
  arith, ◌>>=◌, subst, ap, ◌⊎◌, inl, inr,
}
use facebooc.HashMap.{
  SPair, HashMap, hash_key, get_index, slot, hash_map_new, hash_map_get, hash_map_insert_move,
  hash_map_erase, get_loop, make_room, move_entry, move_loop, holds, next_index, erase_loop,
  move_last_same_hash, same_hash_loop, hole_at,
}
use facebooc.HashMap.Expand.{IsValid}
use facebooc.HashMap.Blank.{blank, ne-slot-blank}
use facebooc.HashMap.Only.{IsAway, slot-set}
use facebooc.HashMap.Insert.{get-insert_move, get-insert_move_again}
use facebooc.HashMap.New.{new-IsValid}
use facebooc.HashMap.Erase.{erase-stuck}

abbrev active : SPair ℕ
active = record { addr = 1; key = codes "active"; value = 10 }

abbrev active_again : SPair ℕ
active_again = record { addr = 2; key = codes "active"; value = 20 }

-- The FNV-1a hash of "a", from its published test vectors.
hash_of_a : hash_key (codes "a") ≡ 0xaf63dc4c8601ec8c
unfolding hash_key
hash_of_a = refl

run_twice : Run (Option ℕ)
run_twice = do
  (_, m) ← hash_map_insert_move hash_map_new active
  (_, n) ← hash_map_insert_move m active_again
  hash_map_get n (codes "active")

twice_keeps_first : run_twice ≡ ok (some 10)
unfolding run_twice hash_map_new hash_map_insert_move hash_map_get make_room move_entry move_loop
    get_index hash_key holds next_index get_loop streq
twice_keeps_first = refl

-- The map with the one pair `active`.
abbrev one_map : HashMap ℕ
one_map = record { entries = set (blank ℕ 64) 47 (some active); cap = 64; len = 1 }

insert_active : hash_map_insert_move hash_map_new active ≡ ok (true, one_map)
unfolding hash_map_new hash_map_insert_move make_room move_entry move_loop get_index hash_key
insert_active = refl

blank-IsAway {κ} : {B : Type κ} (f : SPair ℕ → B) (p : SPair ℕ) → IsAway f (blank ℕ 64) p
blank-IsAway f p i x there = absurd (ne-slot-blank ℕ 64 i x there)

get-insert_move_example :
    (result : HashMap ℕ) × (hash_map_insert_move hash_map_new active ≡ ok (true, result))
    × IsValid result
    × (result.len ≡ (hash_map_new {V = ℕ}).len + 1)
    × ((key : Bytes)
        → hash_map_get result key
          ≡ (if streq key (codes "active") then ok (some 10) else hash_map_get hash_map_new key))
unfolding hash_map_new
get-insert_move_example =
    get-insert_move hash_map_new active ((new-IsValid ℕ).0) (omega arith)
      (blank-IsAway (λ x. x.addr) active) (blank-IsAway (λ x. x.key) active)

one_map-IsValid : IsValid one_map
one_map-IsValid = subst IsValid same (get-insert_move_example.2)
  where
    same : get-insert_move_example.0 ≡ one_map
    same = cc (get-insert_move_example.1, insert_active)

one_map-IsAway : IsAway (λ x. x.addr) one_map.entries active_again
one_map-IsAway i x there same = pick (slot-set (blank ℕ 64) 47 i active x (omega arith) there)
  where
    pick : ((i ≡ 47) × (x ≡ active)) ⊎ (slot (blank ℕ 64) i ≡ some x) → ⊥
    pick (inl (_, e)) = omega (arith, ap (λ y. y.addr) e, same)
    pick (inr e) = ne-slot-blank ℕ 64 i x e

get_active : hash_map_get one_map (codes "active") ≡ ok (some 10)
unfolding hash_map_get get_loop get_index hash_key streq
get_active = refl

get-insert_move_again_example :
    (result : HashMap ℕ) × (hash_map_insert_move one_map active_again ≡ ok (true, result))
    × (result.len ≡ one_map.len + 1)
    × ((key : Bytes) → hash_map_get result key ≡ hash_map_get one_map key)
get-insert_move_again_example =
    get-insert_move_again one_map active_again 10 one_map-IsValid (omega arith) one_map-IsAway
      get_active

-- The keys "graph" and "post" have one first slot.
abbrev graph : SPair ℕ
graph = record { addr = 3; key = codes "graph"; value = 30 }

abbrev graph_map : HashMap ℕ
graph_map = record { entries = set (blank ℕ 64) 7 (some graph); cap = 64; len = 1 }

slot_of_post : slot graph_map.entries (get_index graph_map.cap (codes "post")) ≡ some graph
unfolding get_index hash_key
slot_of_post = refl

erase-stuck_example : hash_map_erase 1000 graph_map (codes "post") ≡ stuck
erase-stuck_example = erase-stuck 1000 graph_map (codes "post") graph slot_of_post (λ e. cc)

erase_graph :
    hash_map_erase 2 graph_map (codes "graph") ≡ ok (record graph_map { entries = blank ℕ 64 })
unfolding hash_map_erase erase_loop move_last_same_hash same_hash_loop hole_at get_index hash_key
    streq
erase_graph = refl
