-- ===== src/HashMap/Insert.antt =====
-- `Hash_map_insert_move` on a map in a valid state.
use facebooc.Base.{
  ℕ, ◌+◌, ◌*◌, ◌/◌, ◌^◌, ◌≤◌, ◌<◌, ◌≡◌, refl, ap, sym, ◌∙◌, inl, inr, Bool, true, false, Option,
  none, some, Bytes, streq, eq_of_streq, arith, Bool-cases, if◌then◌else◌, subst, leb, Run, ok,
}
use facebooc.HashMap.{SPair, Entries, HashMap, slot, make_room, hash_map_insert_move, hash_map_get}
use facebooc.HashMap.Move.{or_else}
use facebooc.HashMap.Table.{
  value_at, has_empty_of_occupied, Inserted, move_entry-Inserted, hash_map_get-value_at,
}
use facebooc.HashMap.Only.{IsAway, set-IsOnly, IsNew-of_IsAway}
use facebooc.HashMap.Keys.{value_at_away}
use facebooc.HashMap.Expand.{IsValid, Room, expand-Room}

module _ {ℓ} {V : Type ℓ} where
  -- The value under a key of a map in a valid state.
  abbrev pub value_of : HashMap V → Bytes → Option V
  value_of map = value_at map.entries map.cap

  -- A lookup ends, with the value under the key.
  pub hash_map_get-value_of :
      (map : HashMap V) (key : Bytes) → IsValid map → hash_map_get map key ≡ ok (value_of map key)
  hash_map_get-value_of map key v = hash_map_get-value_at map key v.table (
      has_empty_of_occupied map.entries
        (omega (arith, v.table.long, v.counted, v.load, v.some_room)))

  move-IsValid :
      (room : HashMap V) (p : SPair V)
      → IsValid room
      → 2 * (room.len + 1) ≤ room.cap
      → IsAway (λ x. x.addr) room.entries p
      → IsAway (λ x. x.key) room.entries p
      → (done : Inserted room.entries room.cap p)
      → IsValid (record room { entries = done.result; len = room.len + 1 })
  move-IsValid room p v space new absent done = record {
    table = done.table;
    apart =
        subst
          (λ es.
            (i j : ℕ) (x y : SPair V)
            → slot es i ≡ some x
            → slot es j ≡ some y
            → x.addr ≡ y.addr
            → i ≡ j)
          (sym done.now) (set-IsOnly (λ x. x.addr) room.entries done.at p done.below v.apart new);
    distinct =
        subst
          (λ es.
            (i j : ℕ) (x y : SPair V)
            → slot es i ≡ some x
            → slot es j ≡ some y
            → x.key ≡ y.key
            → i ≡ j)
          (sym done.now)
          (set-IsOnly (λ x. x.key) room.entries done.at p done.below v.distinct absent);
    counted = omega (arith, done.one_more, v.counted);
    load = omega (arith, space);
    some_room = v.some_room;
  }

  -- With load to spare nothing is done, and else the table grows.
  make_room-Room :
      (map : HashMap V)
      → IsValid map
      → map.cap < 2 ^ 62
      → (room : HashMap V) × (make_room map ≡ ok (true, room)) × Room map room
  unfolding make_room
  make_room-Room map v small = elim (Bool-cases (leb (map.cap / 2) map.len)) [
    | inl full ↦ rw full (expand-Room map v small)
    | inr spare ↦ (
      map,
      rw spare,
      record {
        valid = v;
        same_len = refl;
        space = ground arith;
        value = λ key. refl;
        from = λ i x there. (i, there);
      },
    )
  ]

  -- What an insertion of a pair with a new pointer and a new key returns.
  pub record Added (map : HashMap V) (p : SPair V) : Type ℓ where
    pub result : HashMap V
    pub run : hash_map_insert_move map p ≡ ok (true, result)
    pub valid : IsValid result
    pub one_more : result.len ≡ map.len + 1
    pub value :
        (key : Bytes)
        → value_of result key ≡ (if streq key p.key then some p.value else value_of map key)

  new_value :
      {map room : HashMap V} (result : Entries V) (p : SPair V)
      → ((key : Bytes)
          → value_at result room.cap key ≡ (
              if streq key p.key
              then or_else (value_of room key) (some p.value)
              else value_of room key))
      → Room map room
      → (key : Bytes) → (streq key p.key ≡ true → value_of room key ≡ none)
      → value_at result room.cap key ≡ (if streq key p.key then some p.value else value_of map key)
  new_value result p value r key gone = elim (Bool-cases (streq key p.key)) [
    | inl same ↦ rw same (value key ∙ rw (same, gone same))
    | inr other ↦ rw other (value key ∙ rw other (r.value key))
  ]

  insert_move-Added :
      (map : HashMap V) (p : SPair V)
      → IsValid map
      → map.cap < 2 ^ 62
      → IsAway (λ x. x.addr) map.entries p
      → IsAway (λ x. x.key) map.entries p
      → Added map p
  unfolding hash_map_insert_move
  insert_move-Added map p v small new absent =
      let (room, made, r) = make_room-Room map v small in
      let fresh : IsAway (λ x. x.addr) room.entries p =
        λ i x there. new ((r.from i x there).0) x ((r.from i x there).1) in
      let unknown : IsAway (λ x. x.key) room.entries p =
        λ i x there. absent ((r.from i x there).0) x ((r.from i x there).1) in
      let done =
        move_entry-Inserted room.entries room.cap p r.valid.table
          (IsNew-of_IsAway room.entries p fresh)
          (has_empty_of_occupied room.entries
            (omega (arith, r.valid.table.long, r.valid.counted, r.space))) in
      record {
        result = record room { entries = done.result; len = room.len + 1 };
        run = rw (made, done.run);
        valid = move-IsValid room p r.valid r.space fresh unknown done;
        one_more = omega (arith, r.same_len);
        value = λ key.
            new_value done.result p done.value r key
              (value_at_away room.entries room.cap p key r.valid.table r.valid.distinct unknown);
      }

  -- On a map in a valid state of fewer than 2 ^ 62 slots, inserting a pair whose pointer and whose key
  -- no slot holds succeeds. The new map is in a valid state and counts one pair more; a lookup ends
  -- on it for every key, with the new value under the new key and the old result under any other.
  pub get-insert_move :
      (map : HashMap V) (p : SPair V)
      → IsValid map
      → map.cap < 2 ^ 62
      → IsAway (λ x. x.addr) map.entries p
      → IsAway (λ x. x.key) map.entries p
      → (result : HashMap V) × (hash_map_insert_move map p ≡ ok (true, result))
        × IsValid result
        × (result.len ≡ map.len + 1)
        × ((key : Bytes)
            → hash_map_get result key
              ≡ (if streq key p.key then ok (some p.value) else hash_map_get map key))
  get-insert_move map p v small new absent =
      let a = insert_move-Added map p v small new absent in
      (
        a.result,
        a.run,
        a.valid,
        a.one_more,
        λ key.
            hash_map_get-value_of a.result key a.valid
            ∙ ap ok (a.value key)
            ∙ as_run (streq key p.key) p.value (hash_map_get-value_of map key v),
      )
    where
      as_run :
          (b : Bool) (v : V) {o : Option V} {r : Run (Option V)}
          → r ≡ ok o
          → ok (if b then some v else o) ≡ (if b then ok (some v) else r)
      as_run true v e = refl
      as_run false v e = sym e

  -- On a map in a valid state whose load leaves room, inserting a pair with a new pointer and a key
  -- that is there already says that it succeeded and counts one pair more; every lookup finds what
  -- it found before, the old value under that key too.
  pub get-insert_move_again :
      (map : HashMap V) (p : SPair V) (old : V)
      → IsValid map
      → map.len < map.cap / 2
      → IsAway (λ x. x.addr) map.entries p
      → hash_map_get map p.key ≡ ok (some old)
      → (result : HashMap V) × (hash_map_insert_move map p ≡ ok (true, result))
        × (result.len ≡ map.len + 1)
        × ((key : Bytes) → hash_map_get result key ≡ hash_map_get map key)
  unfolding hash_map_insert_move make_room
  get-insert_move_again map p old v spare new found =
      let done =
        move_entry-Inserted map.entries map.cap p v.table (IsNew-of_IsAway map.entries p new) (
          has_empty_of_occupied map.entries
            (omega (arith, v.table.long, v.counted, v.load, v.some_room))) in
      (
        record map { entries = done.result; len = map.len + 1 },
        rw (light, done.run),
        refl,
        λ key.
            hash_map_get-value_at (record map { entries = done.result; len = map.len + 1 }) key
              done.table
              (has_empty_of_occupied done.result
                (omega (arith, done.table.long, done.one_more, v.counted, v.some_room)))
            ∙ ap ok (unchanged done key)
            ∙ sym (hash_map_get-value_of map key v),
      )
    where
      there : (key : Bytes) → streq key p.key ≡ true → value_of map key ≡ some old
      there key same =
          rw (eq_of_streq key p.key same) (cc (hash_map_get-value_of map p.key v, found))

      unchanged :
          (done : Inserted map.entries map.cap p) (key : Bytes)
          → value_at done.result map.cap key ≡ value_of map key
      unchanged done key = elim (Bool-cases (streq key p.key)) [
        | inl same ↦ done.value key ∙ rw (same, there key same)
        | inr other ↦ done.value key ∙ rw other
      ]

      light : leb (map.cap / 2) map.len ≡ false
      light = ground arith
