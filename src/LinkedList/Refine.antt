-- ===== src/LinkedList/Refine.antt =====
-- The circular lists of src/list.c as plain lists of nodes.
use facebooc.Base.{
  ℕ, zero, suc, ◌<◌, ◌≡◌, ◌≢◌, refl, ap, sym, subst, ◌∙◌, false, List, [], ◌∷◌, ◌++◌, length, ◌==◌,
  arith, All, All-append, ok,
}
use facebooc.LinkedList.{
  counted, Store, set_next, set_prev, list_ctor, list_insert_head, list_insert_tail, size_loop,
  list_size, list_is_empty,
}

-- From one node the nodes of the list come one behind the other, up to a last one, and back.
pub Segment : Store → ℕ → List ℕ → ℕ → Type 0
Segment m a [] b = (m.next a ≡ b) × (m.prev b ≡ a)
Segment m a (x ∷ xs) b = (m.next a ≡ x) × (m.prev x ≡ a) × Segment m x xs b

-- No node stands twice in the list.
pub Apart : List ℕ → Type 0
Apart [] = Unit
Apart (x ∷ xs) = All (λ y. x ≢ y) xs × Apart xs

-- The nodes behind a head, in their order.
pub record Represents (m : Store) (head : ℕ) (xs : List ℕ) : Type 0 where
  pub segment : Segment m head xs head
  pub apart : Apart (head ∷ xs)

-- A store that differs at other nodes only.
Segment-frame :
    (m m' : Store) (a b : ℕ) (xs : List ℕ)
    → m'.next a ≡ m.next a
    → All (λ x. (m'.next x ≡ m.next x) × (m'.prev x ≡ m.prev x)) xs
    → m'.prev b ≡ m.prev b
    → Segment m a xs b
    → Segment m' a xs b
unfolding Segment
Segment-frame m m' a b [] na same pb (h, k) = (na ∙ h, pb ∙ k)
Segment-frame m m' a b (x ∷ xs) na ((nx, px), same) pb (h, k, rest) =
    (na ∙ h, px ∙ k, Segment-frame m m' x b xs nx same pb rest)

pub ctor-Represents : (m : Store) (head : ℕ) → Represents (list_ctor m head) head []
unfolding list_ctor set_next set_prev Segment Apart
ctor-Represents m head = record { segment = (ground arith, ground arith); apart = (tt, tt) }

module _ (m : Store) (head y : ℕ) (other : head ≢ y) where
  -- Where the stores before and after an insertion at the head agree.
  head_kept :
      (xs : List ℕ)
      → All (λ z. head ≢ z) xs
      → All (λ z. m.next head ≢ z) xs
      → All (λ z. y ≢ z) xs
      → All
          (λ z.
            ((list_insert_head m head y).next z ≡ m.next z)
            × ((list_insert_head m head y).prev z ≡ m.prev z))
          xs
  unfolding list_insert_head set_next set_prev
  head_kept [] h k l = tt
  head_kept (z ∷ xs) (h, hs) (k, ks) (l, ls) =
      ((ground (arith, h, l), ground (arith, k, l)), head_kept xs hs ks ls)

  insert_head-Segment :
      (xs : List ℕ)
      → Segment m head xs head
      → Apart (head ∷ xs)
      → All (λ z. y ≢ z) xs
      → Segment (list_insert_head m head y) head (y ∷ xs) head
  unfolding list_insert_head set_next set_prev Segment Apart
  insert_head-Segment [] (h, k) apart fresh = (
    ground (arith, h, k, other),
    ground (arith, h, k, other),
    (ground (arith, h, k, other), ground (arith, h, k, other)),
  )
  insert_head-Segment (x ∷ xs) (h, k, rest) ((hx, hs), (xx, apart)) (f, fresh) = (
    ground (arith, h, k, other),
    ground (arith, h, k, other),
    (
      ground (arith, h, k, other),
      ground (arith, h, k, other, hx, f),
      Segment-frame m (list_insert_head m head y) x head xs (ground (arith, hx, f))
          (head_kept xs hs (subst (λ n. All (λ z. n ≢ z) xs) (sym h) xx) fresh)
          (ground (arith, h, hx, other)) rest,
    ),
  )

  -- What holds of all nodes of a segment holds of its last one.
  last-All :
      (P : ℕ → Type 0) (a : ℕ) (xs : List ℕ)
      → Segment m a xs head
      → P a
      → All P xs
      → P (m.prev head)
  unfolding Segment
  last-All P a [] (h, k) here later = subst P (sym k) here
  last-All P a (x ∷ xs) (h, k, rest) here (p, ps) = last-All P x xs rest p ps

  insert_tail-Segment :
      (a : ℕ) (xs : List ℕ)
      → Segment m a xs head
      → Apart (a ∷ xs)
      → All (λ z. head ≢ z) xs
      → a ≢ y
      → All (λ z. y ≢ z) xs
      → Segment (list_insert_tail m head y) a (xs ++ y ∷ []) head
  unfolding list_insert_tail set_next set_prev Segment Apart
  insert_tail-Segment a [] (h, k) apart hs new fresh = (
    ground (arith, h, k, other, new),
    ground (arith, h, k, other, new),
    (ground (arith, h, k, other, new), ground (arith, h, k, other, new)),
  )
  insert_tail-Segment a (x ∷ xs) (h, k, rest) ((ax, as_), apart) (hx, hs) new (f, fresh) =
      let not_last : a ≢ m.prev head = last-All (λ z. a ≢ z) x xs rest ax as_ in
      (
        ground (arith, h, new, not_last),
        ground (arith, k, hx, f),
        insert_tail-Segment x xs rest apart hs (λ e. f (sym e)) fresh,
      )

Apart-last : (xs : List ℕ) (y : ℕ) → Apart xs → All (λ z. y ≢ z) xs → Apart (xs ++ y ∷ [])
unfolding Apart
Apart-last [] y h fresh = (tt, tt)
Apart-last (x ∷ xs) y (h, hs) (f, fresh) =
    (All-append (λ z. x ≢ z) xs (y ∷ []) h ((λ e. f (sym e)), tt), Apart-last xs y hs fresh)

size_loop-Segment :
    (fuel : ℕ) (m : Store) (head a : ℕ) (xs : List ℕ)
    → Segment m a xs head
    → All (λ z. head ≢ z) xs
    → length xs < fuel
    → size_loop fuel m head (m.next a) ≡ ok (length xs)
unfolding size_loop Segment
size_loop-Segment zero m head a xs h hs enough = absurd (omega (arith, enough))
size_loop-Segment (suc fuel) m head a [] (h, k) hs enough = ground (arith, h)
size_loop-Segment (suc fuel) m head a (x ∷ xs) (h, k, rest) (hx, hs) enough =
    let more = size_loop-Segment fuel m head x xs rest hs (omega (arith, enough)) in
    let other : (x == head) ≡ false = ground (arith, hx) in
    rw (h, other, more) (ap ok (omega arith))

module _ (m : Store) (head : ℕ) (xs : List ℕ) (is : Represents m head xs) where
  empty_lem : list_is_empty m head ≡ (length xs == 0)
  unfolding list_is_empty Segment Apart
  empty_lem = of_segment xs is.segment is.apart
    where
      of_segment :
          (l : List ℕ)
          → Segment m head l head
          → Apart (head ∷ l)
          → (m.next head == head) ≡ (length l == 0)
      of_segment [] (h, k) apart = ground (arith, h)
      of_segment (x ∷ l) (h, k, rest) ((hx, hs), apart) = ground (arith, h, hx)

  -- Where a head stands for a list of distinct nodes, insertion of another node at the head or at
  -- the tail makes it stand for the list with the node in front or at the end, the size is the
  -- length (while an `int` can count the nodes, on more rounds than there are nodes), and it is
  -- empty when there are no nodes.
  pub list_insert-Represents :
      (y fuel : ℕ)
      → head ≢ y
      → All (λ z. y ≢ z) xs
      → length xs < fuel
      → Represents (list_insert_head m head y) head (y ∷ xs)
        × Represents (list_insert_tail m head y) head (xs ++ y ∷ [])
        × (list_size fuel m head ≡ counted (length xs))
        × (list_is_empty m head ≡ (length xs == 0))
  unfolding list_size Apart
  list_insert-Represents y fuel other fresh enough = (
    record {
      segment = insert_head-Segment m head y other xs is.segment is.apart fresh;
      apart = ((other, is.apart.0), (fresh, is.apart.1));
    },
    record {
      segment =
          insert_tail-Segment m head y other head xs is.segment is.apart is.apart.0 other fresh;
      apart = (
        All-append (λ z. head ≢ z) xs (y ∷ []) is.apart.0 (other, tt),
        Apart-last xs y is.apart.1 fresh,
      );
    },
    rw (size_loop-Segment fuel m head head xs is.segment is.apart.0 enough) refl,
    empty_lem,
  )
