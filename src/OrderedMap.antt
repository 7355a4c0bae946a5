-- ===== src/OrderedMap.antt =====
-- src/map.c: a map over a red-black tree. The tree, a copy of another project's, is a parameter; a
-- map is the tree that its pointer points at, and `none` is NULL. The value NULL is an argument.
use facebooc.Base.{
  ℕ, ◌+◌, ◌-◌, ◌%◌, ◌^◌, Bool, true, false, Option, none, some, ltb, if◌then◌else◌, Run, ok, fault,
  ◌>>=◌,
}
use facebooc.Base.Int.{ℤ, pos, negsuc}

-- `Pair` and, with a pointer as its key, `PPair`.
pub record Pair (V : Type 0) : Type 0 where
  pub key : ℕ
  pub value : V

-- The low 32 bits as an `int`.
unfoldable pub to_int : ℕ → ℤ
to_int n = let low = n % 2 ^ 32 in if ltb low (2 ^ 31) then pos low else negsuc (2 ^ 32 - low - 1)

-- `cmpf`: the difference of two keys of 64 bits, cut to an `int`.
unfoldable pub cmpf : {V : Type 0} → Pair V → Pair V → ℤ
cmpf pa pb = to_int ((pb.key + (2 ^ 64 - pa.key)) % 2 ^ 64)

-- What src/map.c calls of src/rbtree.c: `rbtree_create`, `rbtree_search`, `rbtree_insert` with NULL
-- for a key that is there, `rbtree_delete` with NULL for a key that is not, and the field `count`.
pub record Rbtree (K : Type 0) : Type 1 where
  pub Tree : Type 0
  pub create : (K → K → ℤ) → Tree
  pub search : Tree → K → Option K
  pub insert : Tree → K → Option Tree
  pub delete : Tree → K → Option (K × Tree)
  pub count : Tree → ℕ

module _ (V : Type 0) (R : Rbtree (Pair V)) where
  -- `memcpy` to where a pointer points that may not have been set.
  unfoldable pub copy_tree : Option R.Tree → R.Tree → Run R.Tree
  copy_tree none tree = fault
  copy_tree (some old) tree = ok tree

  -- `Map_new`: `m->tree` is not set when the new tree is copied to it.
  unfoldable pub map_new : Run (Option R.Tree)
  map_new = do tree ← copy_tree none (R.create cmpf); ok (some tree)

  -- `Map_get`: the result of the search is read without a test for NULL.
  unfoldable pub map_get : Option R.Tree → V → ℕ → Run (Option V)
  map_get none null key = ok none
  map_get (some tree) null key = elim (R.search tree (record { key = key; value = null })) [
    | none ↦ fault
    | some p ↦ ok (some p.value)
  ]

  -- The answer of `rbtree_insert` changes the tree, and not what is returned.
  unfoldable pub map_insert_move : Option R.Tree → Pair V → Bool × Option R.Tree
  map_insert_move none p = (false, none)
  map_insert_move (some tree) p = elim (R.insert tree p) [
    | none ↦ (true, some tree)
    | some grown ↦ (true, some grown)
  ]

  -- `Map_insert`, with a copy of the pair.
  unfoldable pub map_insert : Option R.Tree → Pair V → Bool × Option R.Tree
  map_insert m p = map_insert_move m (record { key = p.key; value = p.value })

  -- `Map_erase`
  unfoldable pub map_erase : Option R.Tree → V → ℕ → Bool × Option R.Tree
  map_erase none null key = (false, none)
  map_erase (some tree) null key = elim (R.delete tree (record { key = key; value = null })) [
    | none ↦ (false, some tree)
    | some (p, rest) ↦ (true, some rest)
  ]

  -- `Map_size`
  unfoldable pub map_size : Option R.Tree → Run ℕ
  map_size none = fault
  map_size (some tree) = ok (R.count tree)

  -- `Map_P_get`, `Map_P_insert`, `Map_P_insert_move`, `Map_P_erase` and `Map_P_size`, where a key is a
  -- pointer.
  unfoldable pub map_p_get : Option R.Tree → V → ℕ → Run (Option V)
  map_p_get = map_get

  unfoldable pub map_p_insert : Option R.Tree → Pair V → Bool × Option R.Tree
  map_p_insert = map_insert

  unfoldable pub map_p_insert_move : Option R.Tree → Pair V → Bool × Option R.Tree
  map_p_insert_move = map_insert_move

  unfoldable pub map_p_erase : Option R.Tree → V → ℕ → Bool × Option R.Tree
  map_p_erase = map_erase

  unfoldable pub map_p_size : Option R.Tree → Run ℕ
  map_p_size = map_size
