-- ===== src/LinkedList/Tests.antt =====
-- A list with a head at 5 and a node at 7.
use facebooc.Base.{◌≡◌, false, [], ◌∷◌, arith}
use facebooc.LinkedList.{
  Store, list_ctor, list_insert_head, list_insert_tail, list_size, counted, list_is_empty,
}
use facebooc.LinkedList.Refine.{Represents, ctor-Represents, list_insert-Represents}

abbrev no_links : Store
no_links = record { next = λ n. 0; prev = λ n. 0 }

abbrev one : Store
one = list_insert_head (list_ctor no_links 5) 5 7

one-Represents : Represents one 5 (7 ∷ [])
one-Represents =
    (list_insert-Represents (list_ctor no_links 5) 5 [] (ctor-Represents no_links 5) 7 1
      (ground arith) tt (omega arith)).0

list_insert-Represents_example :
    Represents (list_insert_head one 5 9) 5 (9 ∷ 7 ∷ [])
    × Represents (list_insert_tail one 5 9) 5 (7 ∷ 9 ∷ [])
    × (list_size 2 one 5 ≡ counted 1)
    × (list_is_empty one 5 ≡ false)
list_insert-Represents_example =
    list_insert-Represents one 5 (7 ∷ []) one-Represents 9 2 (ground arith) (ground arith, tt)
      (omega arith)
