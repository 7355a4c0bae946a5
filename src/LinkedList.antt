-- ===== src/LinkedList.antt =====
-- src/list.c: circular lists in a store, where a node is its address and a head is a node. NULL, which
-- `List_insert_head` and `List_is_empty` look for, is left out.
mod Tests
pub mod Refine
use facebooc.Base.{
  ℕ, zero, suc, ◌+◌, ◌^◌, ltb, Bool, true, false, ◌==◌, if◌then◌else◌, Run, ok, fault, stuck, ◌>>=◌,
}

-- The fields `next` and `prev` of every node.
pub record Store : Type 0 where
  pub next : ℕ → ℕ
  pub prev : ℕ → ℕ

unfoldable pub set_next : Store → ℕ → ℕ → Store
set_next m node to = record m { next = λ n. if n == node then to else m.next n }

unfoldable pub set_prev : Store → ℕ → ℕ → Store
set_prev m node to = record m { prev = λ n. if n == node then to else m.prev n }

-- `List_ctor`
unfoldable pub list_ctor : Store → ℕ → Store
list_ctor m head = set_prev (set_next m head head) head head

-- `List_insert_head`
unfoldable pub list_insert_head : Store → ℕ → ℕ → Store
list_insert_head m head new_node =
    let next = m.next head in
    let a = set_prev m next new_node in
    let b = set_next a new_node next in let c = set_prev b new_node head in set_next c head new_node

-- `List_insert_tail`
unfoldable pub list_insert_tail : Store → ℕ → ℕ → Store
list_insert_tail m head new_node =
    let prev = m.prev head in
    let a = set_next m prev new_node in
    let b = set_next a new_node head in let c = set_prev b new_node prev in set_prev c head new_node

-- The loop of `List_size`, from a node on, with one unit of fuel for each node.
unfoldable pub size_loop : ℕ → Store → ℕ → ℕ → Run ℕ
size_loop zero m head cur = stuck
size_loop (suc fuel) m head cur =
    let rest = size_loop fuel m head (m.next cur) in
    if cur == head then ok 0 else (do n ← rest; ok (n + 1))

-- The counter, an `int`, must not overflow.
unfoldable pub counted : ℕ → Run ℕ
counted n = if ltb n (2 ^ 31) then ok n else fault

-- `List_size`
unfoldable pub list_size : ℕ → Store → ℕ → Run ℕ
list_size fuel m head = do n ← size_loop fuel m head (m.next head); counted n

-- `List_is_empty`
unfoldable pub list_is_empty : Store → ℕ → Bool
list_is_empty m head = m.next head == head
