-- ===== src/Queue/Index.antt =====
-- The index of src/mea_queue.c: mea_queue_get_elem_by_index, mea_queue_remove_index and the binary
-- search of mea_queue_find_elem_using_index.
pub mod Probe
pub mod Finds
pub mod Misses
pub mod Searches
pub mod Create
pub mod Created
use mea_edomus_lite.Common.{
  ℕ, zero, suc, ◌+◌, ◌-◌, ◌*◌, ◌/◌, ◌%◌, ◌<◌, ◌≤◌, ◌≡◌, ◌≢◌, refl, ap, sym, ◌∙◌, Bool, true, false,
  Option, none, some, List, [], ◌∷◌, ◌==◌, leb, ltb, arith, if◌then◌else◌, length, get_elem?,
  Bool-cases, Option-cases, inl, inr, ◌⊎◌,
}
use mea_edomus_lite.Queue.{
  Queue, Status, noerror, error, word, incr, decr, Order, less, equal, greater,
}
use mea_edomus_lite.Queue.Heap.{Ptr}

-- How a search ends: with a datum; with an error and a NULL in *data; with an error before *data is
-- written; with a read outside of the array or a call of NULL; out of fuel.
pub data Search : Type 0 where
  found : Ptr → Search
  not_found : Search
  refused : Search
  undefined : Search
  no_fuel : Search

-- `middle = (end + start) / 2` on unsigned longs.
unfoldable pub middle_of : ℕ → ℕ → ℕ
middle_of start end' = ((end' + start) % word) / 2

-- The rest of a round of the loop, by the result of the comparison with the datum `x` at `middle`;
-- `again` are the next rounds.
unfoldable pub narrow : Order → ℕ → ℕ → ℕ → Ptr → (ℕ → ℕ → Search) → Search
narrow equal start end' middle x again = found x
narrow greater start end' middle x again =
    if leb (incr middle) end' then again (incr middle) end' else not_found
narrow less start end' middle x again =
    if leb start (decr middle) then again start (decr middle) else not_found

-- A round, by what the array has at `middle`.
unfoldable pub search_at :
    (Ptr → Ptr → Order) → Ptr → ℕ → ℕ → ℕ → Option Ptr → (ℕ → ℕ → Search) → Search
search_at cmp data' start end' middle none again = undefined
search_at cmp data' start end' middle (some x) again =
    narrow (cmp data' x) start end' middle x again

-- The loop of mea_queue_find_elem_using_index, on fuel.
unfoldable pub search_loop : (Ptr → Ptr → Order) → Ptr → List Ptr → ℕ → ℕ → ℕ → Search
search_loop cmp data' xs zero start end' = no_fuel
search_loop cmp data' xs (suc n) start end' =
    let middle = middle_of start end' in
    search_at cmp data' start end' middle (get_elem? xs middle) (search_loop cmp data' xs n)

-- The search in the array, by the fields index and index_order_f.
unfoldable pub search_index : Ptr → ℕ → Option (List Ptr) → Option (Ptr → Ptr → Order) → Search
search_index data' nb none order = refused
search_index data' nb (some xs) none = undefined
search_index data' nb (some xs) (some cmp) = search_loop cmp data' xs (suc (suc nb)) 0 (decr nb)

-- mea_queue_find_elem_using_index.
unfoldable pub find_elem_using_index : Ptr → Queue → Search
find_elem_using_index data' q =
    if q.index_status
    then (if q.nb_elem == 0 then refused else search_index data' q.nb_elem q.index q.index_order_f)
    else refused

-- mea_queue_get_elem_by_index, with what it stores in *data; `i` is not negative.
unfoldable pub get_elem_by_index : ℕ → Queue → Search
get_elem_by_index i q = elim q.index [
  | none ↦ not_found
  | some xs ↦
      if q.index_status
      then (if ltb i q.nb_elem
          then (elim (get_elem? xs i) [ none ↦ undefined | some x ↦ found x ])
          else not_found)
      else not_found
]

-- mea_queue_remove_index
unfoldable pub remove_index : Queue → Queue
remove_index q = elim q.index [
  | none ↦ q
  | some _ ↦ record q { index = none; index_order_f = none; index_status = false }
]
