-- ===== src/Queue/Cursor.antt =====
-- The cursor of src/mea_queue.c: moving it and reading under it.
pub mod Remove
use mea_edomus_lite.Common.{
  ℕ, suc, ◌<◌, ◌≡◌, ◌≢◌, refl, ap, sym, ◌∙◌, Bool, true, false, none, some, List, [], ◌∷◌, ◌++◌,
  ◌==◌, arith, if◌then◌else◌, length, append-nil, ==_refl, ==_iff, Bool-cases, inl, inr,
}
use mea_edomus_lite.Queue.{
  Queue, Status, noerror, error, word, next, prev, current, remove_current, bridge,
}
use mea_edomus_lite.Queue.Heap.{
  Ptr, null, Elem, elem, Heap, Command, continue_with, pure, fault, write, ok, Returns, returns,
  Returns-run, ◌>>=◌, load, set_next, set_prev,
}
use mea_edomus_lite.Queue.Segment.{
  Cells, has, head_or, last_or, Segment, Apart, SameOutside, frame-write, frame-SameOutside,
  Segment-split, Segment-join, last_or-append, has-append, Apart-uncons, Apart-sym, has-last_or,
}
use mea_edomus_lite.Queue.Links.{
  not_null_test, load-some, free-some, write_here, Returns-link_first, Returns-link_last,
  SameOutside-write,
}
use mea_edomus_lite.Queue.Fifo.{IsQueue, decr_lem, or-false}

-- The element under the cursor, with what stands before and behind it.
pub record AtCursor (h : Heap) (q : Queue) (ls : Cells) (c v : Ptr) (rs : Cells) : Type 0 where
  pub queue : IsQueue h q (ls ++ (c, v) ∷ rs)
  pub here : q.current ≡ c

module _ (h : Heap) (q : Queue) (ls : Cells) (c v : Ptr) (rs : Cells)
    (at_c : AtCursor h q ls c v rs) where
  pub cursor-elem : (c ≢ null) × (h c ≡ some (elem v (head_or null rs) (last_or null ls)))
  cursor-elem =
      let (left, right, apart) = Segment-split h null null ls ((c, v) ∷ rs) at_c.queue.chain in
      (right.0, right.1)

  pub load-cursor : load c h ≡ ok (elem v (head_or null rs) (last_or null ls)) h
  load-cursor =
      load-some h c (elem v (head_or null rs) (last_or null ls)) cursor-elem.0 cursor-elem.1

  pub current_lem : current q h ≡ ok (noerror, v) h
  unfolding current
  current_lem = rw (at_c.here) (rw (not_null_test c cursor-elem.0) (rw (load-cursor) refl))

-- The status of a move to the element at `p`.
abbrev pub moved : Ptr → Status
moved p = if p == null then error else noerror

module _ (h : Heap) (q : Queue) (ls : Cells) (c v : Ptr) (rs : Cells)
    (at_c : AtCursor h q ls c v rs) where
  pub next_lem : next q h ≡ ok (moved (head_or null rs), record q { current = head_or null rs }) h
  unfolding next
  next_lem =
      let d = head_or null rs in
      rw (at_c.here) (
        rw (not_null_test c (cursor-elem h q ls c v rs at_c).0) (
          rw (load-cursor h q ls c v rs at_c) (elim (Bool-cases (d == null)) [
            | inl e ↦
                rw (e)
                  (ap (λ n. ok (error, record q { current = n }) h) (sym ((==_iff d null).0 e)))
            | inr e ↦ rw (e) refl
          ])))

  pub prev_lem : prev q h ≡ ok (moved (last_or null ls), record q { current = last_or null ls }) h
  unfolding prev
  prev_lem =
      let d = last_or null ls in
      rw (at_c.here) (
        rw (not_null_test c (cursor-elem h q ls c v rs at_c).0) (
          rw (load-cursor h q ls c v rs at_c) (elim (Bool-cases (d == null)) [
            | inl e ↦
                rw (e)
                  (ap (λ n. ok (error, record q { current = n }) h) (sym ((==_iff d null).0 e)))
            | inr e ↦ rw (e) refl
          ])))

pub IsQueue-moved :
    (h : Heap) (q : Queue) (xs : Cells) (n : Ptr)
    → IsQueue h q xs
    → IsQueue h (record q { current = n }) xs
IsQueue-moved h q xs n is = record {
  first_at = is.first_at;
  last_at = is.last_at;
  count = is.count;
  chain = is.chain;
}

pub append-snoc {ℓ} :
    {A : Type ℓ} (xs : List A) (x : A) (ys : List A) → (xs ++ x ∷ []) ++ ys ≡ xs ++ x ∷ ys
append-snoc [] x ys = refl
append-snoc (y ∷ xs) x ys = ap (λ zs. y ∷ zs) (append-snoc xs x ys)

pub AtCursor-next :
    (h : Heap) (q : Queue) (ls : Cells) (c v d w : Ptr) (rs : Cells)
    → AtCursor h q ls c v ((d, w) ∷ rs)
    → AtCursor h (record q { current = d }) (ls ++ (c, v) ∷ []) d w rs
AtCursor-next h q ls c v d w rs at_c = record {
  queue =
      rw (append-snoc ls (c, v) ((d, w) ∷ rs))
        (IsQueue-moved h q (ls ++ (c, v) ∷ (d, w) ∷ rs) d at_c.queue);
  here = refl;
}

-- With an element behind the cursor, mea_queue_next and then mea_queue_prev succeed and leave
-- queue and memory as they were.
pub next-prev :
    (h : Heap) (q : Queue) (ls : Cells) (c v d w : Ptr) (rs : Cells)
    → AtCursor h q ls c v ((d, w) ∷ rs)
    → (next q >>= λ r. prev r.1) h ≡ ok (noerror, q) h
next-prev h q ls c v d w rs at_c =
    let at_d = AtCursor-next h q ls c v d w rs at_c in
    rw (next_lem h q ls c v ((d, w) ∷ rs) at_c) (
      rw (prev_lem h (record q { current = d }) (ls ++ (c, v) ∷ []) d w rs at_d) (
        rw (last_or-append null ls ((c, v) ∷ [])) (
          rw (not_null_test c (cursor-elem h q ls c v ((d, w) ∷ rs) at_c).0)
            (ap (λ n. ok (noerror, record q { current = n }) h) (sym at_c.here)))))
