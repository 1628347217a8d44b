-- ===== src/Queue/Index/Misses.antt =====
-- The binary search of mea_queue_find_elem_using_index in src/mea_queue.c, where it finds nothing.
use mea_edomus_lite.Common.{
  ℕ, zero, suc, ◌+◌, ◌-◌, ◌<◌, ◌≤◌, ◌≡◌, ◌≢◌, refl, ap, sym, ◌∙◌, some, List, ◌==◌, leb, arith,
  length, get_elem?, Bool-cases, inl, inr, ==_iff,
}
use mea_edomus_lite.Queue.{word, decr, Order, less, equal, greater}
use mea_edomus_lite.Queue.Heap.{Ptr}
use mea_edomus_lite.Queue.Index.{not_found, undefined, middle_of, narrow, search_loop}
use mea_edomus_lite.Queue.Index.Probe.{
  middle_lem, decr-pos, incr-small, get_elem?-within, get_elem?-length, Order-cases,
  search_loop-step, search_loop-undefined, narrow-less,
}

module _ (cmp : Ptr → Ptr → Order) (data' : Ptr) (xs : List Ptr)
    (fits : length xs + length xs < word) where
  pub above-first :
      (m x : ℕ)
      → get_elem? xs m ≡ some x
      → cmp data' x ≡ less
      → ((x : ℕ) → get_elem? xs 0 ≡ some x → cmp data' x ≢ less)
      → 0 < m
  above-first m x at_m lesser after = elim (Bool-cases (m == 0)) [
    | inl e ↦ absurd (after x (ap (get_elem? xs) (sym ((==_iff m 0).0 e)) ∙ at_m) lesser)
    | inr e ↦ ground (arith, e)
  ]

  -- No datum is equal, and the first is not greater than `data'`.
  pub search_loop-not_found :
      (n start end' : ℕ)
      → ((i x : ℕ) → get_elem? xs i ≡ some x → cmp data' x ≢ equal)
      → ((x : ℕ) → get_elem? xs 0 ≡ some x → cmp data' x ≢ less)
      → start ≤ end'
      → end' < length xs
      → end' < start + n
      → search_loop cmp data' xs n start end' ≡ not_found
  unfolding narrow
  search_loop-not_found zero start end' absent after le lt fuel = ground (arith, le, fuel)
  search_loop-not_found (suc n) start end' absent after le lt fuel =
      let m = middle_of start end' in
      let (from, to) = middle_lem start end' le (omega (arith, lt, le, fits)) in
      let (x, at_m) = get_elem?-within xs m (omega (arith, to, lt)) in
      let step = search_loop-step cmp data' xs n start end' m x in
      elim (Order-cases (cmp data' x)) [
        | inl lesser ↦
            let pos = above-first m x at_m lesser after in
            rw (step less refl at_m lesser) (
              rw (decr-pos m pos (omega (arith, to, lt, fits)))
                (elim (Bool-cases (leb start (m - 1))) [
                  | inl e ↦ rw (e) (
                      search_loop-not_found n start (m - 1) absent after (ground (arith, e))
                        (omega (arith, to, lt)) (omega (arith, to, fuel, pos)))
                  | inr e ↦ rw (e) refl
                ]))
        | inr (inl eq) ↦ absurd (absent m x at_m eq)
        | inr (inr greater') ↦ rw (step greater refl at_m greater') (
            rw (incr-small m (omega (arith, to, lt, fits))) (elim (Bool-cases (leb (m + 1) end')) [
              | inl e ↦ rw (e) (
                  search_loop-not_found n (m + 1) end' absent after (ground (arith, e)) lt
                    (omega (arith, from, fuel)))
              | inr e ↦ rw (e) refl
            ]))
      ]

  pub search_loop-wrapped : (n : ℕ) → 0 < n → search_loop cmp data' xs n 0 (word - 1) ≡ undefined
  unfolding middle_of
  search_loop-wrapped zero pos = ground (arith, pos)
  search_loop-wrapped (suc n) pos =
      search_loop-undefined cmp data' xs n 0 (word - 1)
        (get_elem?-length xs (middle_of 0 (word - 1)) (omega (arith, fits)))

  -- Every datum is greater than `data'`: `end` passes below 0.
  pub search_loop-below :
      (n end' : ℕ)
      → ((i x : ℕ) → get_elem? xs i ≡ some x → cmp data' x ≡ less)
      → end' < length xs
      → end' + 2 ≤ n
      → search_loop cmp data' xs n 0 end' ≡ undefined
  unfolding narrow decr
  search_loop-below zero end' all lt fuel = ground (arith, fuel)
  search_loop-below (suc n) end' all lt fuel =
      let m = middle_of 0 end' in
      let (from, to) = middle_lem 0 end' (omega arith) (omega (arith, lt, fits)) in
      let (x, at_m) = get_elem?-within xs m (omega (arith, to, lt)) in
      let step = search_loop-step cmp data' xs n 0 end' m x less refl at_m (all m x at_m) in
      elim (Bool-cases (m == 0)) [
        | inl e ↦ step ∙ rw ((==_iff m 0).0 e) (search_loop-wrapped n (omega (arith, fuel)))
        | inr e ↦
            let pos : 0 < m = ground (arith, e) in
            rw (step) (
              rw
                (narrow-less 0 end' m x (search_loop cmp data' xs n) pos
                  (omega (arith, to, lt, fits)))
                (search_loop-below n (m - 1) all (omega (arith, to, lt))
                  (omega (arith, to, fuel, pos))))
      ]
