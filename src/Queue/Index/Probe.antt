-- ===== src/Queue/Index/Probe.antt =====
-- One round of the binary search of mea_queue_find_elem_using_index in src/mea_queue.c.
use mea_edomus_lite.Common.{
  ℕ, zero, suc, ◌+◌, ◌-◌, ◌<◌, ◌≤◌, ◌≡◌, refl, none, some, List, [], ◌∷◌, le→leb, arith, length,
  get_elem?, inl, inr, ◌⊎◌,
}
use mea_edomus_lite.Queue.{word, incr, decr, Order, less, equal, greater}
use mea_edomus_lite.Queue.Heap.{Ptr}
use mea_edomus_lite.Queue.Index.{Search, undefined, middle_of, narrow, search_at, search_loop}

pub middle_lem :
    (start end' : ℕ)
    → start ≤ end'
    → end' + start < word
    → (start ≤ middle_of start end') × (middle_of start end' ≤ end')
unfolding middle_of
middle_lem start end' le small = (omega arith, omega arith)

pub decr-pos : (n : ℕ) → 0 < n → n < word → decr n ≡ n - 1
unfolding decr
decr-pos n pos small = omega arith

pub incr-small : (n : ℕ) → n + 1 < word → incr n ≡ n + 1
unfolding incr
incr-small n small = omega arith

pub get_elem?-within :
    (xs : List Ptr) (i : ℕ) → i < length xs → (x : Ptr) × (get_elem? xs i ≡ some x)
get_elem?-within [] i lt = ground (arith, lt)
get_elem?-within (x ∷ xs) zero lt = (x, refl)
get_elem?-within (x ∷ xs) (suc i) lt = get_elem?-within xs i (omega (arith, lt))

pub get_elem?-inside : (xs : List Ptr) (i x : ℕ) → get_elem? xs i ≡ some x → i < length xs
get_elem?-inside [] i x at_i = ground (arith, at_i)
get_elem?-inside (_ ∷ xs) zero x at_i = omega arith
get_elem?-inside (_ ∷ xs) (suc i) x at_i = ground (arith, get_elem?-inside xs i x at_i)

pub get_elem?-length : (xs : List Ptr) (i : ℕ) → length xs ≤ i → get_elem? xs i ≡ none
get_elem?-length [] i le = refl
get_elem?-length (x ∷ xs) zero le = ground (arith, le)
get_elem?-length (x ∷ xs) (suc i) le = get_elem?-length xs i (omega (arith, le))

pub Order-cases : (o : Order) → (o ≡ less) ⊎ (o ≡ equal) ⊎ (o ≡ greater)
Order-cases less = inl refl
Order-cases equal = inr (inl refl)
Order-cases greater = inr (inr refl)

module _ (cmp : Ptr → Ptr → Order) (data' : Ptr) (xs : List Ptr) where
  pub search_loop-step :
      (n start end' m x : ℕ) (o : Order)
      → middle_of start end' ≡ m
      → get_elem? xs m ≡ some x
      → cmp data' x ≡ o
      → search_loop cmp data' xs (suc n) start end'
        ≡ narrow o start end' m x (search_loop cmp data' xs n)
  unfolding search_loop search_at
  search_loop-step n start end' m x o mid at_m cmp_x = rw (mid) (rw (at_m) (rw (cmp_x) refl))

  pub search_loop-undefined :
      (n start end' : ℕ)
      → get_elem? xs (middle_of start end') ≡ none
      → search_loop cmp data' xs (suc n) start end' ≡ undefined
  unfolding search_loop search_at
  search_loop-undefined n start end' at_m = rw (at_m) refl

pub narrow-greater :
    (start end' m x : ℕ) (again : ℕ → ℕ → Search)
    → m + 1 ≤ end'
    → end' < word
    → narrow greater start end' m x again ≡ again (m + 1) end'
unfolding narrow
narrow-greater start end' m x again le small =
    rw (incr-small m (omega (arith, le, small))) (rw (le→leb (m + 1) end' le) refl)

pub narrow-less :
    (start end' m x : ℕ) (again : ℕ → ℕ → Search)
    → start < m
    → m < word
    → narrow less start end' m x again ≡ again start (m - 1)
unfolding narrow
narrow-less start end' m x again lt small =
    rw (decr-pos m (omega (arith, lt)) small) (rw (le→leb start (m - 1) (omega (arith, lt))) refl)
