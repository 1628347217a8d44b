-- ===== src/Queue/Index/Create.antt =====
-- src/mea_queue.c: _create_index, mea_queue_create_index and mea_queue_recreate_index. qsort is the
-- argument `sort`; `room` says whether malloc finds room for the array.
use mea_edomus_lite.Common.{
  ℕ, zero, suc, ◌≡◌, refl, ap, ◌∙◌, Bool, true, false, ◌&&◌, not, Option, none, some, List, [], ◌∷◌,
  ◌++◌, ◌==◌, if◌then◌else◌, length, arith, append_assoc, ==_refl,
}
use mea_edomus_lite.Queue.{Queue, Status, noerror, error, Order}
use mea_edomus_lite.Queue.Heap.{
  Ptr, null, Elem, elem, Heap, Command, continue_with, pure, ok, fault, load, ◌>>=◌,
}
use mea_edomus_lite.Queue.Segment.{Cells, Segment}
use mea_edomus_lite.Queue.Links.{not_null_test, load-some}
use mea_edomus_lite.Queue.Fifo.{IsQueue}

-- The loop of _create_index: `n` is what is left of the array, `written` what it holds.
unfoldable pub index_loop : ℕ → Ptr → List Ptr → Command (List Ptr)
index_loop zero ptr written = λ _. fault
index_loop (suc n) ptr written = load ptr >>= λ e.
    let more = index_loop n e.next (written ++ e.d ∷ []) in
    if e.next == null then pure (written ++ e.d ∷ []) else more

-- _create_index, for the array that it fills and sorts; `none` is its ERROR. To sort an array that
-- is not filled is a fault.
unfoldable pub create_array :
    ((Ptr → Ptr → Order) → List Ptr → List Ptr)
    → (Ptr → Ptr → Order)
    → Queue
    → Command (Option (List Ptr))
create_array sort cmp q =
    if q.nb_elem == 0
    then pure none
    else (index_loop q.nb_elem q.first [] >>= λ xs.
        if length xs == q.nb_elem then pure (some (sort cmp xs)) else (λ _. fault))

-- What mea_queue_create_index and mea_queue_recreate_index do with the result of _create_index;
-- `old` is the index that stays where there is none.
unfoldable pub install : Option (List Ptr) → Queue → Option (List Ptr) → Status × Queue
install old q (some xs) = (noerror, record q { index = some xs; index_status = true })
install old q none = (error, record q { index = old })

-- mea_queue_create_index, with a function that is not NULL
unfoldable pub create_index :
    ((Ptr → Ptr → Order) → List Ptr → List Ptr)
    → Bool
    → (Ptr → Ptr → Order)
    → Queue
    → Command (Status × Queue)
create_index sort room f q =
    let cleared = record q { index = none; index_order_f = some f; index_status = false } in
    if q.nb_elem == 0
    then pure (noerror, cleared)
    else if room
    then (create_array sort f cleared >>= λ r. pure (install none cleared r))
    else pure (error, cleared)

-- The rest of mea_queue_recreate_index, by index_order_f.
unfoldable pub recreate_by :
    ((Ptr → Ptr → Order) → List Ptr → List Ptr)
    → Bool
    → Option (Ptr → Ptr → Order)
    → Queue
    → Command (Status × Queue)
recreate_by sort room none q = pure (error, q)
recreate_by sort room (some f) q =
    if room then (create_array sort f q >>= λ r. pure (install q.index q r)) else pure (error, q)

-- mea_queue_recreate_index
unfoldable pub recreate_index :
    ((Ptr → Ptr → Order) → List Ptr → List Ptr) → Bool → Bool → Queue → Command (Status × Queue)
recreate_index sort room force q =
    if q.index_status && not force
    then pure (noerror, q)
    else if q.first == null
    then pure (noerror, q)
    else recreate_by sort room q.index_order_f q

-- The data of a chain.
abbrev pub data_list : Cells → List Ptr
data_list [] = []
data_list ((_, v) ∷ xs) = v ∷ data_list xs

pub length-data_list : (xs : Cells) → length (data_list xs) ≡ length xs
length-data_list [] = refl
length-data_list (_ ∷ xs) = ap suc (length-data_list xs)

pub index_loop-step :
    (n : ℕ) (p : Ptr) (written : List Ptr) (h : Heap) (e : Elem)
    → load p h ≡ ok e h
    → index_loop (suc n) p written h
      ≡ (if e.next == null
            then pure (written ++ e.d ∷ [])
            else index_loop n e.next (written ++ e.d ∷ []))
          h
unfolding index_loop
index_loop-step n p written h e loaded =
    ap
      (λ r. continue_with r (λ e.
        if e.next == null
        then pure (written ++ e.d ∷ [])
        else index_loop n e.next (written ++ e.d ∷ [])))
      loaded

-- The loop fills the array with the data in their order.
pub index_loop-data_list :
    (h : Heap) (before p v : Ptr) (xs : Cells) (written : List Ptr)
    → Segment h before null ((p, v) ∷ xs)
    → index_loop (suc (length xs)) p written h ≡ ok (written ++ v ∷ data_list xs) h
index_loop-data_list h before p v [] written (ne, at', _, _) =
    index_loop-step 0 p written h (elem v null before) (load-some h p (elem v null before) ne at')
index_loop-data_list h before p v ((p', v') ∷ xs) written (ne, at', _, s) =
    let e = elem v p' before in
    index_loop-step (suc (length xs)) p written h e (load-some h p e ne at')
    ∙ rw (not_null_test p' s.0) (
        index_loop-data_list h p p' v' xs (written ++ v ∷ []) s
        ∙ ap (λ ys. ok ys h) (append_assoc written (v ∷ []) (v' ∷ data_list xs)))

pub create_array-data_list :
    (sort : (Ptr → Ptr → Order) → List Ptr → List Ptr) (cmp : Ptr → Ptr → Order) (h : Heap)
    (q : Queue) (p v : Ptr) (xs : Cells)
    → IsQueue h q ((p, v) ∷ xs)
    → create_array sort cmp q h ≡ ok (some (sort cmp (v ∷ data_list xs))) h
unfolding create_array
create_array-data_list sort cmp h q p v xs is =
    let some' : (suc (length xs) == 0) ≡ false = ground arith in
    let full : (suc (length (data_list xs)) == suc (length xs)) ≡ true =
      rw (length-data_list xs) (==_refl (suc (length xs))) in
    rw (is.first_at) (
      rw (is.count)
        (rw (some') (rw (index_loop-data_list h null p v xs [] is.chain) (rw (full) refl))))
