-- ===== src/HashMap/Values.antt =====
-- A property of all values of a table of src/hash_map.c, under insertion and lookup.
use facebooc.Base.{
  ℕ, ◌*◌, ◌/◌, ◌%◌, ◌^◌, ltb, leb, subst, zero, suc, true, false, Option, none, some, [], ◌∷◌,
  Bytes, set, replicate, streq, All, ok, Gives, bind-Gives, if-Gives, Bool-cases, Option-cases, inl,
  inr,
}
use facebooc.HashMap.{
  SPair, Entries, HashMap, slot, get_loop, hash_map_get, move_loop, move_entry, holds, next_index,
  get_index, move_all, expand, make_room, hash_map_new, hash_map_insert_move,
}

module _ {V : Type 0} (K : V → Type 0) where
  abbrev pub InSlot : Option (SPair V) → Type 0
  InSlot none = Unit
  InSlot (some p) = K p.value

  -- Every pair of the table has a value in `K`.
  abbrev pub Values : Entries V → Type 0
  Values = All InSlot

  set-Values :
      (es : Entries V) (i : ℕ) (p : SPair V) → Values es → K p.value → Values (set es i (some p))
  set-Values [] i p h k = tt
  set-Values (e ∷ es) zero p (here, later) k = (k, later)
  set-Values (e ∷ es) (suc i) p (here, later) k = (here, set-Values es i p later k)

  slot-Values : (es : Entries V) (i : ℕ) → Values es → InSlot (slot es i)
  slot-Values [] i h = tt
  slot-Values (e ∷ es) zero (here, later) = here
  slot-Values (e ∷ es) (suc i) (here, later) = slot-Values es i later

  blank-Values : (n : ℕ) → Values (replicate n none)
  blank-Values zero = tt
  blank-Values (suc n) = (tt, blank-Values n)

  move_loop-Values :
      (fuel : ℕ) (es : Entries V) (cap : ℕ) (p : SPair V) (i : ℕ)
      → Values es
      → K p.value
      → Gives (λ r. Values r.1) (move_loop fuel es cap p i)
  unfolding move_loop
  move_loop-Values zero es cap p i h k = tt
  move_loop-Values (suc fuel) es cap p i h k = elim (Option-cases (slot es i)) [
    | inl empty ↦ rw (Gives, empty) (set-Values es i p h k)
    | inr (e, full) ↦
        rw (Gives, full)
          elim (Bool-cases (holds (slot es (next_index cap i)) p)) [
            | inl same ↦ rw (Gives, same) h
            | inr other ↦ rw (Gives, other) (move_loop-Values fuel es cap p (next_index cap i) h k)
          ]
  ]

  move_entry-Values :
      (es : Entries V) (cap : ℕ) (p : SPair V)
      → Values es
      → K p.value
      → Gives (λ r. Values r.1) (move_entry es cap p)
  unfolding move_entry
  move_entry-Values es cap p h k = move_loop-Values cap es cap p (get_index cap p.key) h k

  move_all-Values :
      (old es : Entries V) (cap : ℕ) → Values old → Values es → Gives Values (move_all old es cap)
  unfolding move_all
  move_all-Values [] es cap h k = k
  move_all-Values (none ∷ old) es cap (here, later) k = move_all-Values old es cap later k
  move_all-Values (some e ∷ old) es cap (here, later) k =
      bind-Gives (λ r. Values r.1) Values (move_entry es cap e)
        (λ (_, moved). move_all old moved cap) (move_entry-Values es cap e k here)
        (λ (_, moved) m. move_all-Values old moved cap later m)

  expand-Values :
      (map : HashMap V) → Values map.entries → Gives (λ r. Values r.1.entries) (expand map)
  unfolding expand
  expand-Values map h = if-Gives _ (ltb new_cap map.cap) (ok (false, map)) _ h (
      bind-Gives Values _ (move_all map.entries (replicate new_cap none) new_cap) _
        (move_all-Values map.entries (replicate new_cap none) new_cap h (blank-Values new_cap))
        (λ es k. k))
    where
      new_cap : ℕ
      new_cap = map.cap * 2 % 2 ^ 64

  make_room-Values :
      (map : HashMap V) → Values map.entries → Gives (λ r. Values r.1.entries) (make_room map)
  unfolding make_room
  make_room-Values map h =
      if-Gives _ (leb (map.cap / 2) map.len) (expand map) (ok (true, map)) (expand-Values map h) h

  pub hash_map_new-Values : Values hash_map_new.entries
  unfolding hash_map_new
  hash_map_new-Values = blank-Values 64

  pub hash_map_insert_move-Values :
      (map : HashMap V) (p : SPair V)
      → Values map.entries
      → K p.value
      → Gives (λ r. Values r.1.entries) (hash_map_insert_move map p)
  unfolding hash_map_insert_move
  hash_map_insert_move-Values map p h k =
      bind-Gives (λ r. Values r.1.entries) _ (make_room map) _ (make_room-Values map h)
        (λ (expanded, room) held.
          if-Gives _ expanded _ (ok (false, room))
            (bind-Gives (λ r. Values r.1) _ (move_entry room.entries room.cap p) _
              (move_entry-Values room.entries room.cap p held k) (λ (res, entries) q. q))
            held)

  -- What is found is `none` or in `K`.
  abbrev pub Found : Option V → Type 0
  Found none = Unit
  Found (some v) = K v

  get_loop-Values :
      (fuel : ℕ) (es : Entries V) (cap : ℕ) (key : Bytes) (i : ℕ)
      → Values es
      → Gives Found (get_loop fuel es cap key i)
  unfolding get_loop
  get_loop-Values zero es cap key i h = tt
  get_loop-Values (suc fuel) es cap key i h = elim (Option-cases (slot es i)) [
    | inl empty ↦ rw (Gives, empty) tt
    | inr (e, full) ↦
        rw (Gives, full)
          elim (Bool-cases (streq key e.key)) [
            | inl same ↦ rw (Gives, same) (subst InSlot full (slot-Values es i h))
            | inr other ↦ rw (Gives, other) (get_loop-Values fuel es cap key (next_index cap i) h)
          ]
  ]

  pub hash_map_get-Values :
      (map : HashMap V) (key : Bytes) → Values map.entries → Gives Found (hash_map_get map key)
  unfolding hash_map_get
  hash_map_get-Values map key h =
      get_loop-Values map.cap map.entries map.cap key (get_index map.cap key) h
