-- ===== src/Queue/Tests.antt =====
-- The functions of src/mea_queue.c on small queues.
use mea_edomus_lite.Common.{
  List, ℕ, zero, suc, ◌+◌, ◌<◌, ◌≤◌, ◌≡◌, refl, true, false, none, some, [], ◌∷◌, ◌==◌, arith,
  if◌then◌else◌, get_elem?, ltb,
}
use mea_edomus_lite.Queue.{Queue, noerror, Order, less, equal, greater, remove_current}
use mea_edomus_lite.Queue.Heap.{Ptr, null, elem, Heap, Returns, ◌>>=◌}
use mea_edomus_lite.Queue.Segment.{Cells, SameOutside}
use mea_edomus_lite.Queue.Fifo.{IsQueue}
use mea_edomus_lite.Queue.Cursor.{AtCursor}
use mea_edomus_lite.Queue.Cursor.Remove.{remove_current-many}
use mea_edomus_lite.Queue.InOrder.{put_all, take_all, put_all-take_all}
use mea_edomus_lite.Queue.Index.Finds.{Ordered}
use mea_edomus_lite.Queue.Index.Searches.{HasIndex}

abbrev three_elems : Heap
three_elems a =
    if a == 1
    then some (elem 11 2 null)
    else if a == 2
    then some (elem 12 3 1)
    else if a == 3
    then some (elem 13 null 2)
    else none

abbrev three_cells : Cells
three_cells = (1, 11) ∷ (2, 12) ∷ (3, 13) ∷ []

abbrev three : Queue
three = record {
  clone_flag = false;
  first = 1;
  last = 3;
  current = 2;
  nb_elem = 3;
  index = none;
  index_status = false;
  index_order_f = none;
}

three-IsQueue : IsQueue three_elems three three_cells
three-IsQueue = record {
  first_at = refl;
  last_at = refl;
  count = refl;
  chain = (ground arith, refl, refl, (ground arith, refl, refl, (ground arith, refl, refl, tt)));
}

abbrev no_elems : Heap
no_elems a = none

abbrev empty : Queue
empty = record three { first = null; last = null; current = null; nb_elem = 0 }

empty-IsQueue : IsQueue no_elems empty []
empty-IsQueue = record { first_at = refl; last_at = refl; count = refl; chain = tt }

put_all-take_all_example :
    Returns
      (λ r g. (r.0 ≡ some 11 ∷ some 12 ∷ []) × IsQueue g r.1 [])
      ((put_all ((1, 11) ∷ (2, 12) ∷ []) empty >>= take_all 2) no_elems)
put_all-take_all_example =
    put_all-take_all no_elems empty ((1, 11) ∷ (2, 12) ∷ []) empty-IsQueue
      (ground arith, refl, refl, (ground arith, refl, refl, tt)) (omega arith)

three-AtCursor : AtCursor three_elems three ((1, 11) ∷ []) 2 12 ((3, 13) ∷ [])
three-AtCursor = record { queue = three-IsQueue; here = refl }

remove_current-many_example :
    Returns
      (λ r g.
        (r.0 ≡ noerror)
        × IsQueue g r.1 ((1, 11) ∷ (3, 13) ∷ [])
        × (r.1.current ≡ 3)
        × (g 2 ≡ none)
        × SameOutside three_cells three_elems g)
      (remove_current three three_elems)
remove_current-many_example =
    remove_current-many three_elems three ((1, 11) ∷ []) 2 12 ((3, 13) ∷ []) three-AtCursor
      (ground arith) (omega arith)

abbrev by_value : Ptr → Ptr → Order
by_value a b = if a == b then equal else if ltb a b then less else greater

by_value-less : (d x y : ℕ) → x ≤ y → by_value d x ≡ less → by_value d y ≡ less
by_value-less d x y le lesser = ground (arith, lesser)

by_value-greater : (d x y : ℕ) → x ≤ y → by_value d y ≡ greater → by_value d x ≡ greater
by_value-greater d x y le greater' = ground (arith, greater')

abbrev indexed : Queue
indexed = record three {
  index = some (11 ∷ 12 ∷ 13 ∷ []);
  index_status = true;
  index_order_f = some by_value;
}

indexed-HasIndex : HasIndex indexed by_value (11 ∷ 12 ∷ 13 ∷ [])
indexed-HasIndex = record { at_index = refl; up_to_date = refl; by_cmp = refl; count = refl }

indexed-values : (i x : ℕ) → get_elem? (11 ∷ 12 ∷ 13 ∷ []) i ≡ some x → (x ≡ 11 + i) × (i < 3)
indexed-values zero x at_i = (ground (arith, at_i), omega arith)
indexed-values (suc zero) x at_i = (ground (arith, at_i), omega arith)
indexed-values (suc (suc zero)) x at_i = (ground (arith, at_i), omega arith)
indexed-values (suc (suc (suc i))) x at_i = ground (arith, at_i)

indexed-Ordered : Ordered by_value 13 (11 ∷ 12 ∷ 13 ∷ [])
indexed-Ordered i j x y le at_x at_y =
    let (x_is, _) = indexed-values i x at_x in
    let (y_is, _) = indexed-values j y at_y in
    (
      by_value-less 13 x y (omega (arith, x_is, y_is, le)),
      by_value-greater 13 x y (omega (arith, x_is, y_is, le)),
    )

-- Sorting by insertion, in the place of qsort.
abbrev insert : (Ptr → Ptr → Order) → Ptr → List Ptr → List Ptr
insert cmp x [] = x ∷ []
insert cmp x (y ∷ ys) = elim (cmp x y) [ greater ↦ y ∷ insert cmp x ys | _ ↦ x ∷ y ∷ ys ]

abbrev insertion_sort : (Ptr → Ptr → Order) → List Ptr → List Ptr
insertion_sort cmp [] = []
insertion_sort cmp (x ∷ xs) = insert cmp x (insertion_sort cmp xs)

stale-IsQueue : IsQueue three_elems (record indexed { index_status = false }) three_cells
stale-IsQueue = record {
  first_at = refl;
  last_at = refl;
  count = refl;
  chain = three-IsQueue.chain;
}
