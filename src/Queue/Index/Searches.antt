-- ===== src/Queue/Index/Searches.antt =====
-- mea_queue_find_elem_using_index of src/mea_queue.c on a queue whose index is up to date.
use mea_edomus_lite.Common.{
  ℕ, suc, ◌+◌, ◌-◌, refl, ◌<◌, ◌≡◌, ◌≢◌, true, false, some, List, ◌==◌, arith, length, get_elem?,
}
use mea_edomus_lite.Queue.{Queue, word, Order, less, equal}
use mea_edomus_lite.Queue.Heap.{Ptr}
use mea_edomus_lite.Queue.Index.{
  not_found, undefined, search_loop, search_index, find_elem_using_index,
}
use mea_edomus_lite.Queue.Index.Finds.{Ordered, Finds, search_loop-Finds}
use mea_edomus_lite.Queue.Index.Probe.{decr-pos, get_elem?-inside}
use mea_edomus_lite.Queue.Index.Misses.{search_loop-not_found, search_loop-below}

-- The index of `q` is the array `xs`, made for the comparison `cmp`.
pub record HasIndex (q : Queue) (cmp : Ptr → Ptr → Order) (xs : List Ptr) : Type 0 where
  pub at_index : q.index ≡ some xs
  pub up_to_date : q.index_status ≡ true
  pub by_cmp : q.index_order_f ≡ some cmp
  pub count : q.nb_elem ≡ length xs

module _ (q : Queue) (cmp : Ptr → Ptr → Order) (data' : Ptr) (xs : List Ptr)
    (has_index : HasIndex q cmp xs) (filled : 0 < length xs)
    (fits : length xs + length xs < word) where
  pub find_elem_using_index-search_loop :
      find_elem_using_index data' q
      ≡ search_loop cmp data' xs (suc (suc (length xs))) 0 (length xs - 1)
  unfolding find_elem_using_index search_index
  find_elem_using_index-search_loop =
      let some' : (length xs == 0) ≡ false = ground (arith, filled) in
      rw (has_index.at_index) (
        rw (has_index.up_to_date) (
          rw (has_index.by_cmp) (
            rw (has_index.count)
              (rw (some') (rw (decr-pos (length xs) filled (omega (arith, fits))) refl)))))

  -- If the index is in order and fits in half the numbers of an unsigned long, and one of its
  -- data compares equal, mea_queue_find_elem_using_index ends and returns a datum of the index
  -- that compares equal.
  pub find_elem_using_index-Finds :
      (k y : ℕ)
      → Ordered cmp data' xs
      → get_elem? xs k ≡ some y
      → cmp data' y ≡ equal
      → Finds cmp data' xs (find_elem_using_index data' q)
  find_elem_using_index-Finds k y order at_k same =
      let inside : k < length xs = get_elem?-inside xs k y at_k in
      rw (find_elem_using_index-search_loop) (
        search_loop-Finds cmp data' xs fits (suc (suc (length xs))) 0 (length xs - 1) k y order
          (omega arith) (omega (arith, inside)) (omega (arith, filled)) (omega arith) at_k same)

  -- If no datum of the index compares equal and the first does not compare greater than the one
  -- searched, mea_queue_find_elem_using_index ends with an error.
  pub find_elem_using_index-not_found :
      ((i x : ℕ) → get_elem? xs i ≡ some x → cmp data' x ≢ equal)
      → ((x : ℕ) → get_elem? xs 0 ≡ some x → cmp data' x ≢ less)
      → find_elem_using_index data' q ≡ not_found
  find_elem_using_index-not_found absent after = rw (find_elem_using_index-search_loop) (
      search_loop-not_found cmp data' xs fits (suc (suc (length xs))) 0 (length xs - 1) absent after
        (omega arith) (omega (arith, filled)) (omega arith))

  -- If every datum of an index that is not empty compares greater than the one searched,
  -- mea_queue_find_elem_using_index reads outside of the index.
  pub find_elem_using_index-below :
      ((i x : ℕ) → get_elem? xs i ≡ some x → cmp data' x ≡ less)
      → find_elem_using_index data' q ≡ undefined
  find_elem_using_index-below all = rw (find_elem_using_index-search_loop) (
      search_loop-below cmp data' xs fits (suc (suc (length xs))) (length xs - 1) all
        (omega (arith, filled)) (omega (arith, filled)))
