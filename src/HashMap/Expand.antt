-- ===== src/HashMap/Expand.antt =====
-- `hash_map_expand`: the table of twice the size maps every key to the same value.
use facebooc.Base.{
  ℕ, suc, ◌+◌, ◌*◌, ◌%◌, ◌^◌, ◌≤◌, ◌<◌, ◌≡◌, refl, ap, sym, ◌∙◌, ◌⊎◌, inl, inr, true, false, none,
  some, [], ◌∷◌, Bytes, arith, subst, ltb, ok,
}
use facebooc.HashMap.{SPair, Entries, HashMap, slot, move_all, expand}
use facebooc.HashMap.Blank.{
  blank, occupied-blank, IsOnly-blank, IsTable-blank, value_at-blank, ne-slot-blank,
}
use facebooc.HashMap.Move.{or_else}
use facebooc.HashMap.Probe.{find}
use facebooc.HashMap.Table.{
  IsTable, value_at, occupied, has_empty_of_occupied, Inserted, move_entry-Inserted,
}
use facebooc.HashMap.Keys.{IsDistinct, IsApart, value_at-find}
use facebooc.HashMap.Only.{
  IsAway, AreAway, slot-set, set-IsOnly, set-IsAway, tail-IsOnly, head-IsAway, IsNew-of_IsAway,
}

module _ {ℓ} {V : Type ℓ} where
  -- The old slots still to move, and the new array so far.
  record Moving (old entries : Entries V) (cap : ℕ) : Type ℓ where
    table : IsTable entries cap
    room : occupied old + occupied entries < cap
    old_apart : IsApart old
    old_distinct : IsDistinct old
    apart : IsApart entries
    distinct : IsDistinct entries
    away_addr : AreAway (λ x. x.addr) old entries
    away_key : AreAway (λ x. x.key) old entries

  -- The new array when all old slots are moved.
  record AllMoved (old entries : Entries V) (cap : ℕ) : Type ℓ where
    result : Entries V
    run : move_all old entries cap ≡ ok result
    table : IsTable result cap
    count : occupied result ≡ occupied old + occupied entries
    apart : IsApart result
    distinct : IsDistinct result
    value :
        (key : Bytes) → value_at result cap key ≡ or_else (value_at entries cap key) (find key old)
    from :
        (i : ℕ) (x : SPair V)
        → slot result i ≡ some x
        → ((j : ℕ) × (slot old j ≡ some x)) ⊎ ((j : ℕ) × (slot entries j ≡ some x))

  -- Where the pairs come from, when the head of the old slots is moved first.
  from-cons :
      (e : SPair V) (old entries : Entries V) (cap : ℕ) (done : Inserted entries cap e)
      → (i : ℕ) (x : SPair V)
      → ((j : ℕ) × (slot old j ≡ some x)) ⊎ ((j : ℕ) × (slot done.result j ≡ some x))
      → ((j : ℕ) × (slot (some e ∷ old) j ≡ some x)) ⊎ ((j : ℕ) × (slot entries j ≡ some x))
  from-cons e old entries cap done i x (inl (j, there)) = inl (suc j, there)
  from-cons e old entries cap done i x (inr (j, there)) =
      pick (slot-set entries done.at j e x done.below (ap (λ es. slot es j) (sym done.now) ∙ there))
    where
      pick :
          ((j ≡ done.at) × (x ≡ e)) ⊎ (slot entries j ≡ some x)
          → ((k : ℕ) × (slot (some e ∷ old) k ≡ some x)) ⊎ ((k : ℕ) × (slot entries k ≡ some x))
      pick (inl (_, same)) = inl (0, ap some (sym same))
      pick (inr kept) = inr (j, kept)

  -- One round of the loop keeps the relation between what is left and what is done.
  Moving-step :
      (e : SPair V) (old entries : Entries V) (cap : ℕ)
      → Moving (some e ∷ old) entries cap
      → (done : Inserted entries cap e) → Moving old done.result cap
  unfolding occupied
  Moving-step e old entries cap m done = record {
    table = done.table;
    room = omega (arith, m.room, done.one_more);
    old_apart = tail-IsOnly (λ x. x.addr) (some e) old m.old_apart;
    old_distinct = tail-IsOnly (λ x. x.key) (some e) old m.old_distinct;
    apart =
        subst IsApart (sym done.now)
          (set-IsOnly (λ x. x.addr) entries done.at e done.below m.apart (m.away_addr 0 e refl));
    distinct =
        subst IsDistinct (sym done.now)
          (set-IsOnly (λ x. x.key) entries done.at e done.below m.distinct (m.away_key 0 e refl));
    away_addr = λ i x there.
        subst (λ es. IsAway (λ y. y.addr) es x) (sym done.now)
          (set-IsAway (λ y. y.addr) entries done.at e done.below x (m.away_addr (suc i) x there)
            (λ same. head-IsAway (λ y. y.addr) e old m.old_apart i x there (sym same)));
    away_key = λ i x there.
        subst (λ es. IsAway (λ y. y.key) es x) (sym done.now)
          (set-IsAway (λ y. y.key) entries done.at e done.below x (m.away_key (suc i) x there)
            (λ same. head-IsAway (λ y. y.key) e old m.old_distinct i x there (sym same)));
  }

  move_all-AllMoved :
      (old entries : Entries V) (cap : ℕ) → Moving old entries cap → AllMoved old entries cap
  unfolding move_all occupied find
  move_all-AllMoved [] entries cap m = record {
    result = entries;
    run = refl;
    table = m.table;
    count = omega arith;
    apart = m.apart;
    distinct = m.distinct;
    value = λ key. ground arith;
    from = λ i x there. inr (i, there);
  }
  move_all-AllMoved (none ∷ old) entries cap m =
      let rest = move_all-AllMoved old entries cap (record {
        table = m.table;
        room = m.room;
        old_apart = tail-IsOnly (λ x. x.addr) none old m.old_apart;
        old_distinct = tail-IsOnly (λ x. x.key) none old m.old_distinct;
        apart = m.apart;
        distinct = m.distinct;
        away_addr = λ i x there. m.away_addr (suc i) x there;
        away_key = λ i x there. m.away_key (suc i) x there;
      }) in
      record {
        result = rest.result;
        run = rest.run;
        table = rest.table;
        count = rest.count;
        apart = rest.apart;
        distinct = rest.distinct;
        value = rest.value;
        from =
            λ i x there. elim (rest.from i x there) [ inl (j, h) ↦ inl (suc j, h) | inr h ↦ inr h ];
      }
  move_all-AllMoved (some e ∷ old) entries cap m =
      let done =
        move_entry-Inserted entries cap e m.table (IsNew-of_IsAway entries e (m.away_addr 0 e refl))
          (has_empty_of_occupied entries (omega (arith, m.room, m.table.long))) in
      let rest = move_all-AllMoved old done.result cap (Moving-step e old entries cap m done) in
      record {
        result = rest.result;
        run = rw done.run rest.run;
        table = rest.table;
        count = omega (arith, rest.count, done.one_more);
        apart = rest.apart;
        distinct = rest.distinct;
        value = λ key. ground (arith, rest.value key, done.value key);
        from = λ i x there. from-cons e old entries cap done i x (rest.from i x there);
      }

  -- The state of a map between two calls.
  pub record IsValid (map : HashMap V) : Type ℓ where
    pub table : IsTable map.entries map.cap
    pub apart : IsApart map.entries
    pub distinct : IsDistinct map.entries
    pub counted : occupied map.entries ≤ map.len
    pub load : 2 * map.len ≤ map.cap
    pub some_room : 2 ≤ map.cap

  -- What a call that makes room returns: a map with the same values and space for one more pair.
  pub record Room (map : HashMap V) (room : HashMap V) : Type ℓ where
    pub valid : IsValid room
    pub same_len : room.len ≡ map.len
    pub space : 2 * (room.len + 1) ≤ room.cap
    pub value :
        (key : Bytes) → value_at room.entries room.cap key ≡ value_at map.entries map.cap key
    pub from :
        (i : ℕ) (x : SPair V)
        → slot room.entries i ≡ some x
        → (j : ℕ) × (slot map.entries j ≡ some x)

  expand-move_all :
      (map : HashMap V) (moved : Entries V)
      → map.cap < 2 ^ 62
      → move_all map.entries (blank V (map.cap * 2)) (map.cap * 2) ≡ ok moved
      → expand map ≡ ok (true, record map { entries = moved; cap = map.cap * 2 })
  unfolding expand
  expand-move_all map moved small run = rw (fits, grows, run)
    where
      fits : map.cap * 2 % 2 ^ 64 ≡ map.cap * 2
      fits = omega arith

      grows : ltb (map.cap * 2) map.cap ≡ false
      grows = ground arith

  pub expand-Room :
      (map : HashMap V)
      → IsValid map
      → map.cap < 2 ^ 62
      → (room : HashMap V) × (expand map ≡ ok (true, room)) × Room map room
  expand-Room map v small =
      let cap' = map.cap * 2 in
      let done = move_all-AllMoved map.entries (blank V cap') cap' (record {
        table = IsTable-blank V cap' (omega (arith, v.some_room));
        room = omega (arith, occupied-blank V cap', v.counted, v.load, v.some_room);
        old_apart = v.apart;
        old_distinct = v.distinct;
        apart = IsOnly-blank V (λ x. x.addr) cap';
        distinct = IsOnly-blank V (λ x. x.key) cap';
        away_addr = λ i x there j y other. absurd (ne-slot-blank V cap' j y other);
        away_key = λ i x there j y other. absurd (ne-slot-blank V cap' j y other);
      }) in
      (
        record map { entries = done.result; cap = cap' },
        expand-move_all map done.result small done.run,
        record {
          valid = record {
            table = done.table;
            apart = done.apart;
            distinct = done.distinct;
            counted = omega (arith, done.count, occupied-blank V cap', v.counted);
            load = omega (arith, v.load);
            some_room = omega (arith, v.some_room);
          };
          same_len = refl;
          space = omega (arith, v.load, v.some_room);
          value = λ key.
              done.value key
              ∙ ap (λ o. or_else o (find key map.entries)) (value_at-blank V cap' key)
              ∙ sym (value_at-find map.entries map.cap key v.table v.distinct);
          from = λ i x there. elim (done.from i x there) [
            | inl h ↦ h
            | inr (j, h) ↦ absurd (ne-slot-blank V cap' j x h)
          ];
        },
      )
