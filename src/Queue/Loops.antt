-- ===== src/Queue/Loops.antt =====
-- The loops of src/mea_queue.c: they end within the fuel that the model gives them, and visit or free
-- the elements in order.
use mea_edomus_lite.Common.{
  ℕ, zero, suc, ◌≤◌, ◌≡◌, refl, ap, ◌∙◌, Bool, true, false, Option, none, some, [], ◌∷◌, ◌==◌,
  arith, if◌then◌else◌, length,
}
use mea_edomus_lite.Queue.{
  Queue, Status, noerror, error, find_elem, find_loop, process_loop, process_all_elem_data,
}
use mea_edomus_lite.Queue.Heap.{Ptr, null, Elem, elem, Heap, Command, continue_with, pure, ok, load}
use mea_edomus_lite.Queue.Segment.{Cells, Segment}
use mea_edomus_lite.Queue.Links.{not_null_test, load-some}
use mea_edomus_lite.Queue.Fifo.{IsQueue}

-- The first datum that matches.
abbrev pub first_match : (Ptr → Bool) → Cells → Option Ptr
first_match matches [] = none
first_match matches ((_, v) ∷ xs) = if matches v then some v else first_match matches xs

-- The data folded from first to last.
abbrev pub fold_data : {S : Type 0} → (Ptr → S → S) → S → Cells → S
fold_data f s [] = s
fold_data f s ((_, v) ∷ xs) = fold_data f (f v s) xs

abbrev pub status_of : Cells → Status
status_of [] = error
status_of (_ ∷ _) = noerror

pub find_loop-step :
    (matches : Ptr → Bool) (n : ℕ) (p : Ptr) (h : Heap) (e : Elem)
    → load p h ≡ ok e h
    → find_loop matches (suc n) p h
      ≡ (if matches e.d
            then pure (some e.d)
            else if e.next == null
            then pure none
            else find_loop matches n e.next)
          h
unfolding find_loop
find_loop-step matches n p h e loaded =
    ap
      (λ r. continue_with r (λ e.
        if matches e.d
        then pure (some e.d)
        else if e.next == null
        then pure none
        else find_loop matches n e.next))
      loaded

pub choose-ok :
    {A : Type 0} (b : Bool) (m k : Command A) (x y : A) (h : Heap)
    → m h ≡ ok x h
    → k h ≡ ok y h
    → (if b then m else k) h ≡ ok (if b then x else y) h
choose-ok true m k x y h left right = left
choose-ok false m k x y h left right = right

pub find_loop-first_match :
    (matches : Ptr → Bool) (n : ℕ) (h : Heap) (before p v : Ptr) (xs : Cells)
    → length xs ≤ n
    → Segment h before null ((p, v) ∷ xs)
    → find_loop matches (suc n) p h ≡ ok (first_match matches ((p, v) ∷ xs)) h
find_loop-first_match matches n h before p v [] enough (ne, at', _, s) =
    find_loop-step matches n p h (elem v null before) (load-some h p (elem v null before) ne at')
    ∙ choose-ok (matches v) (pure (some v)) (pure none) (some v) none h refl refl
find_loop-first_match matches zero h before p v (_ ∷ _) enough s = ground (arith, enough)
find_loop-first_match matches (suc n) h before p v ((p', v') ∷ xs) enough (ne, at', _, s) =
    let e = elem v p' before in
    let more = find_loop matches (suc n) p' in
    let rest = find_loop-first_match matches n h p p' v' xs (omega (arith, enough)) s in
    find_loop-step matches (suc n) p h e (load-some h p e ne at')
    ∙ choose-ok (matches v) (pure (some v)) (if p' == null then pure none else more) (some v)
        (first_match matches ((p', v') ∷ xs)) h refl (rw (not_null_test p' s.0) rest)

-- mea_queue_find_elem ends within the model's fuel, returns the first datum that matches or
-- none, fails just on the empty queue and changes no memory.
pub find_elem_lem :
    (matches : Ptr → Bool) (h : Heap) (q : Queue) (xs : Cells)
    → IsQueue h q xs
    → find_elem matches q h ≡ ok (status_of xs, first_match matches xs) h
unfolding find_elem
find_elem_lem matches h q [] is = rw (is.first_at) refl
find_elem_lem matches h q ((p, v) ∷ xs) is = rw (is.first_at) (
    rw (not_null_test p is.chain.0) (
      rw (is.count) (
        rw (find_loop-first_match matches (suc (length xs)) h null p v xs (omega arith) is.chain)
          refl)))

pub process_loop-step :
    {S : Type 0} (f : Ptr → S → S) (n : ℕ) (p : Ptr) (s : S) (h : Heap) (e : Elem)
    → load p h ≡ ok e h
    → process_loop f (suc n) p s h
      ≡ (if e.next == null then pure (f e.d s) else process_loop f n e.next (f e.d s)) h
unfolding process_loop
process_loop-step f n p s h e loaded =
    ap
      (λ r.
        continue_with r
          (λ e. if e.next == null then pure (f e.d s) else process_loop f n e.next (f e.d s)))
      loaded

pub process_loop-fold_data :
    {S : Type 0} (f : Ptr → S → S) (n : ℕ) (s : S) (h : Heap) (before p v : Ptr) (xs : Cells)
    → length xs ≤ n
    → Segment h before null ((p, v) ∷ xs)
    → process_loop f (suc n) p s h ≡ ok (fold_data f s ((p, v) ∷ xs)) h
process_loop-fold_data f n s h before p v [] enough (ne, at', _, _) =
    process_loop-step f n p s h (elem v null before) (load-some h p (elem v null before) ne at')
process_loop-fold_data f zero s h before p v (_ ∷ _) enough chain = ground (arith, enough)
process_loop-fold_data f (suc n) s h before p v ((p', v') ∷ xs) enough (ne, at', _, chain) =
    let e = elem v p' before in
    process_loop-step f (suc n) p s h e (load-some h p e ne at')
    ∙ rw (not_null_test p' chain.0)
        (process_loop-fold_data f n (f v s) h p p' v' xs (omega (arith, enough)) chain)

-- mea_queue_process_all_elem_data ends within the model's fuel and calls the function on each
-- datum, from the first to the last; it fails just on the empty queue.
pub process_all_elem_data_lem :
    {S : Type 0} (f : Ptr → S → S) (s : S) (h : Heap) (q : Queue) (xs : Cells)
    → IsQueue h q xs
    → process_all_elem_data f s q h ≡ ok (status_of xs, fold_data f s xs) h
unfolding process_all_elem_data
process_all_elem_data_lem f s h q [] is = rw (is.first_at) refl
process_all_elem_data_lem f s h q ((p, v) ∷ xs) is = rw (is.first_at) (
    rw (not_null_test p is.chain.0) (
      rw (is.count) (
        rw (process_loop-fold_data f (suc (length xs)) s h null p v xs (omega arith) is.chain)
          refl)))
