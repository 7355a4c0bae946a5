-- ===== src/HashMap.antt =====
-- src/hash_map.c: a table with open addressing and linear probing. An `SPair *` is an address with the
-- pair behind it, so that the code can compare pointers; an empty slot is `none`. Each loop runs on
-- fuel and is given one round for each slot; past it the loop would only repeat itself, and the
-- result is `stuck`. `malloc` and `calloc` do not fail, and what is freed is not modelled.
pub mod Values
pub mod Blank
pub mod Erase
pub mod Expand
pub mod Frame
pub mod Insert
pub mod Move
pub mod Keys
pub mod New
pub mod Only
pub mod Probe
pub mod Table
mod Tests
use facebooc.Base.{
  ℕ, zero, suc, ◌+◌, ◌-◌, ◌*◌, ◌/◌, ◌%◌, ◌^◌, ◌≡◌, refl, Bool, true, false, ◌&&◌, Option, none,
  some, List, [], ◌∷◌, Bytes, codes, get_or, set, replicate, ltb, leb, ◌==◌, if◌then◌else◌, streq,
  Run, ok, fault, stuck, ◌>>=◌, bit_and, bit_xor,
}

pub record SPair {ℓ} (V : Type ℓ) : Type ℓ where
  pub addr : ℕ
  pub key : Bytes
  pub value : V

abbrev pub Entries {ℓ} : Type ℓ → Type ℓ
Entries V = List (Option (SPair V))

pub record HashMap {ℓ} (V : Type ℓ) : Type ℓ where
  pub entries : Entries V
  pub cap : ℕ
  pub len : ℕ

abbrev pub initial_capacity : ℕ
initial_capacity = 64

abbrev fnv_offset : ℕ
fnv_offset = 14695981039346656037

abbrev fnv_prime : ℕ
fnv_prime = 1099511628211

unfoldable pub hash_from : ℕ → Bytes → ℕ
hash_from hash [] = hash
hash_from hash (c ∷ s) = hash_from (bit_xor hash c * fnv_prime % 2 ^ 64) s

-- The 64-bit FNV-1a hash of a C string.
unfoldable pub hash_key : Bytes → ℕ
unfolding hash_from
hash_key = hash_from fnv_offset

unfoldable pub get_index : ℕ → Bytes → ℕ
get_index cap key = bit_and (hash_key key) (cap - 1)

-- `++index; if (index >= cap) index = 0;`
unfoldable pub next_index : ℕ → ℕ → ℕ
next_index cap index = if leb cap (index + 1) then 0 else index + 1

-- `map->len += res`
abbrev pub count_in : Bool → ℕ → ℕ
count_in true len = len + 1
count_in false len = len

module _ {ℓ} {V : Type ℓ} where
  -- `entries[index]`
  abbrev pub slot : Entries V → ℕ → Option (SPair V)
  slot entries index = get_or entries index none

  -- `Hash_map_new`
  unfoldable pub hash_map_new : HashMap V
  hash_map_new = record {
    entries = replicate initial_capacity none;
    cap = initial_capacity;
    len = 0;
  }

  unfoldable pub get_loop : ℕ → Entries V → ℕ → Bytes → ℕ → Run (Option V)
  get_loop zero entries cap key index = stuck
  get_loop (suc fuel) entries cap key index = elim (slot entries index) [
    | none ↦ ok none
    | some e ↦ elim (streq key e.key) [
      | true ↦ ok (some e.value)
      | false ↦ get_loop fuel entries cap key (next_index cap index)
    ]
  ]

  -- `Hash_map_get`
  unfoldable pub hash_map_get : HashMap V → Bytes → Run (Option V)
  hash_map_get map key = get_loop map.cap map.entries map.cap key (get_index map.cap key)

  -- `entries[index] == p`
  unfoldable pub holds : Option (SPair V) → SPair V → Bool
  holds none p = false
  holds (some e) p = e.addr == p.addr

  unfoldable pub move_loop : ℕ → Entries V → ℕ → SPair V → ℕ → Run (Bool × Entries V)
  move_loop zero entries cap p index = stuck
  move_loop (suc fuel) entries cap p index = elim (slot entries index) [
    | none ↦ ok (true, set entries index (some p))
    | some e ↦ elim (holds (slot entries (next_index cap index)) p) [
      | true ↦ ok (false, entries)
      | false ↦ move_loop fuel entries cap p (next_index cap index)
    ]
  ]

  -- `hash_map_move_entry`: no key is compared here.
  unfoldable pub move_entry : Entries V → ℕ → SPair V → Run (Bool × Entries V)
  move_entry entries cap p = move_loop cap entries cap p (get_index cap p.key)

  pub set_loop : ℕ → Entries V → ℕ → SPair V → ℕ → ℕ → Run (Bool × Entries V)
  set_loop zero entries cap p fresh index = stuck
  set_loop (suc fuel) entries cap p fresh index =
      let copy = record p { addr = fresh } in
      elim (slot entries index) [
        | none ↦ ok (true, set entries index (some copy))
        | some e ↦ elim (p.addr == e.addr) [
          | true ↦ ok (false, entries)
          | false ↦ elim (streq p.key e.key) [
            | true ↦ ok (true, set entries index (some copy))
            | false ↦ set_loop fuel entries cap p fresh (next_index cap index)
          ]
        ]
      ]

  -- `hash_map_set_entry`; `fresh` is the address that `malloc` returns for the copy of the pair.
  pub set_entry : Entries V → ℕ → SPair V → ℕ → Run (Bool × Entries V)
  set_entry entries cap p fresh = set_loop cap entries cap p fresh (get_index cap p.key)

  -- The loop of `hash_map_expand` over the old slots.
  pub move_all : Entries V → Entries V → ℕ → Run (Entries V)
  move_all [] new_entries new_cap = ok new_entries
  move_all (none ∷ old) new_entries new_cap = move_all old new_entries new_cap
  move_all (some e ∷ old) new_entries new_cap = do
    (_, moved) ← move_entry new_entries new_cap e
    move_all old moved new_cap

  -- `hash_map_expand`
  pub expand : HashMap V → Run (Bool × HashMap V)
  expand map =
      let new_cap = map.cap * 2 % 2 ^ 64 in
      if ltb new_cap map.cap then ok (false, map) else (do
        new_entries ← move_all map.entries (replicate new_cap none) new_cap
        ok (true, record map { entries = new_entries; cap = new_cap }))

  -- The test on the load in front of both insertions.
  unfoldable pub make_room : HashMap V → Run (Bool × HashMap V)
  make_room map = if leb (map.cap / 2) map.len then expand map else ok (true, map)

  -- `Hash_map_insert`
  unfoldable pub hash_map_insert : HashMap V → SPair V → ℕ → Run (Bool × HashMap V)
  hash_map_insert map p fresh = do
    (expanded, room) ← make_room map
    if expanded
        then (do
          (res, entries) ← set_entry room.entries room.cap p fresh
          ok (res, record room { entries = entries; len = count_in res room.len }))
        else ok (false, room)

  -- `Hash_map_insert_move`
  unfoldable pub hash_map_insert_move : HashMap V → SPair V → Run (Bool × HashMap V)
  hash_map_insert_move map p = do
    (expanded, room) ← make_room map
    if expanded
        then (do
          (res, entries) ← move_entry room.entries room.cap p
          ok (res, record room { entries = entries; len = count_in res room.len }))
        else ok (false, room)

  -- `hole[index]`, which is not wrapped round at the end of the array.
  pub hole_at : Entries V → ℕ → ℕ → ℕ → Run (Option (SPair V))
  hole_at entries cap hole index =
      if ltb (hole + index) cap then ok (slot entries (hole + index)) else fault

  pub same_hash_loop : ℕ → Entries V → ℕ → ℕ → ℕ → ℕ → Run ℕ
  same_hash_loop zero entries cap hole hash index = stuck
  same_hash_loop (suc fuel) entries cap hole hash index = hole_at entries cap hole index >>= λ at.
      elim at [
        | none ↦ ok index
        | some e ↦ elim (hash_key e.key == hash) [
          | true ↦ same_hash_loop fuel entries cap hole hash (index + 1)
          | false ↦ ok index
        ]
      ]

  -- `move_last_same_hash`
  pub move_last_same_hash : Entries V → ℕ → ℕ → ℕ → Run (Entries V)
  move_last_same_hash entries cap hole hash = do
    index ← same_hash_loop cap entries cap hole hash 1
    last ← hole_at entries cap hole (index - 1)
    ok (set (set entries hole last) (hole + (index - 1)) none)

  -- The loop of `Hash_map_erase`: `index` never changes in it.
  pub erase_loop : ℕ → Entries V → ℕ → Bytes → ℕ → Run (Entries V)
  erase_loop zero entries cap key index = stuck
  erase_loop (suc fuel) entries cap key index = elim (slot entries index) [
    | none ↦ ok entries
    | some e ↦ elim (streq key e.key) [
      | true ↦ move_last_same_hash (set entries index none) cap index (hash_key key) >>= λ moved.
          erase_loop fuel moved cap key index
      | false ↦ erase_loop fuel entries cap key index
    ]
  ]

  -- `Hash_map_erase` on so many rounds of its loop.
  unfoldable pub hash_map_erase : ℕ → HashMap V → Bytes → Run (HashMap V)
  hash_map_erase fuel map key = do
    entries ← erase_loop fuel map.entries map.cap key (get_index map.cap key)
    ok (record map { entries = entries })

  -- `Hash_map_size`: the counter, as an `int`.
  unfoldable pub hash_map_size : HashMap V → ℕ
  hash_map_size map = map.len % 2 ^ 32
