-- ===== src/Queue/Index/Created.antt =====
-- src/mea_queue.c: a search in the index that mea_queue_create_index has made, or that
-- mea_queue_recreate_index has made anew.
use mea_edomus_lite.Common.{
  ℕ, suc, ◌≡◌, ◌≢◌, refl, ap, sym, ◌∙◌, Bool, true, false, ◌&&◌, not, none, some, List, ◌∷◌, ◌==◌,
  length, ◌+◌, ◌<◌, ◌≤◌, arith, get_elem?,
}
use mea_edomus_lite.Queue.{Queue, Status, noerror, word, Order, less, equal, greater}
use mea_edomus_lite.Queue.Heap.{Ptr, Heap, Returns, returns, Returns-mono}
use mea_edomus_lite.Queue.Segment.{Cells}
use mea_edomus_lite.Queue.Fifo.{IsQueue}
use mea_edomus_lite.Queue.Links.{not_null_test}
use mea_edomus_lite.Queue.Index.{find_elem_using_index}
use mea_edomus_lite.Queue.Index.Finds.{Ordered, Finds}
use mea_edomus_lite.Queue.Index.Searches.{HasIndex, find_elem_using_index-Finds}
use mea_edomus_lite.Queue.Index.Create.{
  create_index, recreate_index, recreate_by, install, data_list, length-data_list,
  create_array-data_list,
}

-- What a comparison function must be: an element that is not behind another compares like it does.
pub record IsOrder (cmp : Ptr → Ptr → Order) : Type 0 where
  pub less_up : (d x y : Ptr) → cmp x y ≢ greater → cmp d x ≡ less → cmp d y ≡ less
  pub greater_down : (d x y : Ptr) → cmp x y ≢ greater → cmp d y ≡ greater → cmp d x ≡ greater

-- What qsort does to an array: its length and its elements stay, and they stand in order.
pub record Sorts (cmp : Ptr → Ptr → Order) (xs ys : List Ptr) : Type 0 where
  pub same_length : length ys ≡ length xs
  pub kept : (i x : ℕ) → get_elem? xs i ≡ some x → (j : ℕ) × (get_elem? ys j ≡ some x)
  pub in_order :
      (i j x y : ℕ) → i ≤ j → get_elem? ys i ≡ some x → get_elem? ys j ≡ some y → cmp x y ≢ greater

pub Sorts-Ordered :
    (cmp : Ptr → Ptr → Order) (data' : Ptr) (xs ys : List Ptr)
    → IsOrder cmp
    → Sorts cmp xs ys
    → Ordered cmp data' ys
Sorts-Ordered cmp data' xs ys order sorts i j x y le at_i at_j =
    let fine = sorts.in_order i j x y le at_i at_j in
    (order.less_up data' x y fine, order.greater_down data' x y fine)

module _ (sort : (Ptr → Ptr → Order) → List Ptr → List Ptr) (cmp : Ptr → Ptr → Order) (h : Heap)
    (q : Queue) (p v : Ptr) (xs : Cells) (is : IsQueue h q ((p, v) ∷ xs))
    (sorts : Sorts cmp (v ∷ data_list xs) (sort cmp (v ∷ data_list xs))) where
  -- The queue as it was, with an index that is up to date.
  abbrev pub Indexed : Status × Queue → Heap → Type 0
  Indexed r g =
      (r.0 ≡ noerror)
      × (g ≡ h)
      × IsQueue g r.1 ((p, v) ∷ xs)
      × HasIndex r.1 cmp (sort cmp (v ∷ data_list xs))

  pub count-sort : q.nb_elem ≡ length (sort cmp (v ∷ data_list xs))
  count-sort = is.count ∙ ap suc (sym (length-data_list xs)) ∙ sym sorts.same_length

  pub create_index-Indexed : Returns Indexed (create_index sort true cmp q h)
  unfolding create_index install
  create_index-Indexed =
      let cleared = record q { index = none; index_order_f = some cmp; index_status = false } in
      let is' : IsQueue h cleared ((p, v) ∷ xs) = record {
        first_at = is.first_at;
        last_at = is.last_at;
        count = is.count;
        chain = is.chain;
      } in
      let some' : (q.nb_elem == 0) ≡ false = ground (arith, is.count) in
      rw (some') (
        rw (create_array-data_list sort cmp h cleared p v xs is') (
          returns (
            refl,
            refl,
            record {
              first_at = is.first_at;
              last_at = is.last_at;
              count = is.count;
              chain = is.chain;
            },
            record { at_index = refl; up_to_date = refl; by_cmp = refl; count = count-sort },
          )))

  pub recreate_index-Indexed :
      (force : Bool)
      → q.index_order_f ≡ some cmp
      → q.index_status && not force ≡ false
      → Returns Indexed (recreate_index sort true force q h)
  unfolding recreate_index recreate_by install
  recreate_index-Indexed force by stale =
      let is' : IsQueue h (record q { index_order_f = some cmp }) ((p, v) ∷ xs) = record {
        first_at = is.first_at;
        last_at = is.last_at;
        count = is.count;
        chain = is.chain;
      } in
      rw (stale) (
        rw (not_null_test q.first (rw (is.first_at) is.chain.0)) (
          rw (by) (
            rw
              (create_array-data_list sort cmp h (record q { index_order_f = some cmp }) p v xs is')
              (returns (
                refl,
                refl,
                record {
                  first_at = is.first_at;
                  last_at = is.last_at;
                  count = is.count;
                  chain = is.chain;
                },
                record { at_index = refl; up_to_date = refl; by_cmp = refl; count = count-sort },
              )))))

  -- A search that follows finds what is in the queue.
  abbrev pub Searchable : Ptr → Status × Queue → Heap → Type 0
  Searchable data' r g =
      (r.0 ≡ noerror)
      × (g ≡ h)
      × IsQueue g r.1 ((p, v) ∷ xs)
      × Finds cmp data' (sort cmp (v ∷ data_list xs)) (find_elem_using_index data' r.1)

  module _ (data' k y : Ptr) (order : IsOrder cmp) (at_k : get_elem? (v ∷ data_list xs) k ≡ some y)
      (same : cmp data' y ≡ equal) (fits : length ((p, v) ∷ xs) + length ((p, v) ∷ xs) < word) where
    pub Indexed-Searchable : (r : Status × Queue) (g : Heap) → Indexed r g → Searchable data' r g
    Indexed-Searchable r g (ok', same_heap, is', has_index) =
        let ys = sort cmp (v ∷ data_list xs) in
        let (j, at_j) = sorts.kept k y at_k in
        let many : length ys ≡ suc (length xs) = sorts.same_length ∙ ap suc (length-data_list xs) in
        (
          ok',
          same_heap,
          is',
          find_elem_using_index-Finds r.1 cmp data' ys has_index (omega (arith, many))
              (omega (arith, many, fits)) j y
              (Sorts-Ordered cmp data' (v ∷ data_list xs) ys order sorts) at_j same,
        )

    -- mea_queue_recreate_index on a queue that is not empty and whose index is out of date, or
    -- when forced, where malloc succeeds, leaves memory and sequence as they are and makes an
    -- index in which mea_queue_find_elem_using_index finds a datum that compares equal, if the
    -- queue has one; qsort is assumed to put the data in order and to keep them, the comparison
    -- to be an order, and the data to fit in half the numbers of an unsigned long.
    pub recreate_index-Searchable :
        (force : Bool)
        → q.index_order_f ≡ some cmp
        → q.index_status && not force ≡ false
        → Returns (Searchable data') (recreate_index sort true force q h)
    recreate_index-Searchable force by stale =
        Returns-mono (recreate_index-Indexed force by stale) Indexed-Searchable
