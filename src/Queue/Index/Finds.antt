-- ===== src/Queue/Index/Finds.antt =====
-- The binary search of mea_queue_find_elem_using_index in src/mea_queue.c finds what is there.
use mea_edomus_lite.Common.{
  ℕ, zero, suc, ◌+◌, ◌-◌, ◌<◌, ◌≤◌, ◌≡◌, refl, some, List, leb, arith, length, get_elem?,
  Bool-cases, inl, inr,
}
use mea_edomus_lite.Queue.{word, Order, less, equal, greater}
use mea_edomus_lite.Queue.Heap.{Ptr}
use mea_edomus_lite.Queue.Index.{Search, found, middle_of, narrow, search_loop}
use mea_edomus_lite.Queue.Index.Probe.{
  middle_lem, get_elem?-within, Order-cases, search_loop-step, narrow-greater, narrow-less,
}

-- The index is in order, as far as comparisons with `data'` show.
abbrev pub Ordered : (Ptr → Ptr → Order) → Ptr → List Ptr → Type 0
Ordered cmp data' xs =
    (i j x y : ℕ)
    → i ≤ j
    → get_elem? xs i ≡ some x
    → get_elem? xs j ≡ some y
    → (cmp data' x ≡ less → cmp data' y ≡ less) × (cmp data' y ≡ greater → cmp data' x ≡ greater)

pub before-less :
    (cmp : Ptr → Ptr → Order) (data' : Ptr) (xs : List Ptr) (i j x y : ℕ)
    → Ordered cmp data' xs
    → get_elem? xs i ≡ some x
    → get_elem? xs j ≡ some y
    → cmp data' x ≡ less
    → cmp data' y ≡ equal
    → j < i
before-less cmp data' xs i j x y order at_i at_j lesser same = elim (Bool-cases (leb i j)) [
  | inl e ↦ let wrong = (order i j x y (ground (arith, e)) at_i at_j).0 lesser in cc
  | inr e ↦ ground (arith, e)
]

pub behind-greater :
    (cmp : Ptr → Ptr → Order) (data' : Ptr) (xs : List Ptr) (i j x y : ℕ)
    → Ordered cmp data' xs
    → get_elem? xs i ≡ some x
    → get_elem? xs j ≡ some y
    → cmp data' x ≡ greater
    → cmp data' y ≡ equal
    → i < j
behind-greater cmp data' xs i j x y order at_i at_j greater' same = elim (Bool-cases (leb j i)) [
  | inl e ↦ let wrong = (order j i y x (ground (arith, e)) at_j at_i).1 greater' in cc
  | inr e ↦ ground (arith, e)
]

-- A search ends with an element that compares equal.
abbrev pub Finds : (Ptr → Ptr → Order) → Ptr → List Ptr → Search → Type 0
Finds cmp data' xs s =
    (z : Ptr) × (i : ℕ) × (s ≡ found z) × (get_elem? xs i ≡ some z) × (cmp data' z ≡ equal)

module _ (cmp : Ptr → Ptr → Order) (data' : Ptr) (xs : List Ptr)
    (fits : length xs + length xs < word) where
  pub search_loop-Finds :
      (n start end' k y : ℕ)
      → Ordered cmp data' xs
      → start ≤ k
      → k ≤ end'
      → end' < length xs
      → end' < start + n
      → get_elem? xs k ≡ some y
      → cmp data' y ≡ equal
      → Finds cmp data' xs (search_loop cmp data' xs n start end')
  unfolding narrow
  search_loop-Finds zero start end' k y order le le' lt fuel at_k same =
      ground (arith, le, le', fuel)
  search_loop-Finds (suc n) start end' k y order le le' lt fuel at_k same =
      let m = middle_of start end' in
      let (from, to) =
        middle_lem start end' (omega (arith, le, le')) (omega (arith, lt, le, le', fits)) in
      let (x, at_m) = get_elem?-within xs m (omega (arith, to, lt)) in
      let step = search_loop-step cmp data' xs n start end' m x in
      let again = search_loop cmp data' xs n in
      elim (Order-cases (cmp data' x)) [
        | inl lesser ↦
            let before : k < m = before-less cmp data' xs m k x y order at_m at_k lesser same in
            rw (step less refl at_m lesser) (
              rw
                (narrow-less start end' m x again (omega (arith, le, before))
                  (omega (arith, to, lt, fits)))
                (search_loop-Finds n start (m - 1) k y order le (omega (arith, before))
                  (omega (arith, to, lt)) (omega (arith, to, fuel, before)) at_k same))
        | inr (inl eq) ↦ (x, m, step equal refl at_m eq, at_m, eq)
        | inr (inr greater') ↦
            let behind : m < k =
              behind-greater cmp data' xs m k x y order at_m at_k greater' same in
            rw (step greater refl at_m greater') (
              rw
                (narrow-greater start end' m x again (omega (arith, le', behind))
                  (omega (arith, lt, fits)))
                (search_loop-Finds n (m + 1) end' k y order (omega (arith, behind)) le' lt
                  (omega (arith, from, fuel)) at_k same))
      ]
