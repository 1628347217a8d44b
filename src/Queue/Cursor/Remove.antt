-- ===== src/Queue/Cursor/Remove.antt =====
-- mea_queue_remove_current of src/mea_queue.c.
use mea_edomus_lite.Common.{
  ℕ, suc, ◌<◌, ◌≡◌, ◌≢◌, refl, ap, sym, ◌∙◌, Bool, true, false, none, List, [], ◌∷◌, ◌++◌, ◌==◌,
  arith, if◌then◌else◌, length, append-nil, ==_refl, ==_iff, Bool-cases, inl, inr,
}
use mea_edomus_lite.Queue.{Queue, noerror, word, remove_current, bridge}
use mea_edomus_lite.Queue.Heap.{
  Ptr, null, Elem, elem, Heap, Command, continue_with, pure, fault, write, ok, Returns, returns,
  Returns-run, ◌>>=◌, load, set_next, set_prev,
}
use mea_edomus_lite.Queue.Segment.{
  Cells, has, head_or, last_or, Segment, Apart, SameOutside, frame-write, frame-SameOutside,
  Segment-split, Segment-join, last_or-append, has-append, Apart-uncons, Apart-sym, has-last_or,
}
use mea_edomus_lite.Queue.Links.{
  load-some, free-some, write_here, Returns-link_first, Returns-link_last, SameOutside-write,
}
use mea_edomus_lite.Queue.Fifo.{IsQueue, decr_lem, or-false}
use mea_edomus_lite.Queue.Cursor.{AtCursor, cursor-elem}

pub last-other :
    (c d w : Ptr) (rs : Cells) → has c ((d, w) ∷ rs) ≡ false → (c == last_or d rs) ≡ false
last-other c d w rs out = elim (Bool-cases (c == last_or d rs)) [
  | inl e ↦ ground (
    arith,
    ap (λ n. has n ((d, w) ∷ rs)) ((==_iff c (last_or d rs)).0 e),
    has-last_or c d w rs,
    out,
  )
  | inr e ↦ e
]

-- The numbers of a queue without the element `c`, as mea_queue_remove_current corrects them.
pub first-remove :
    (c v : Ptr) (ls rs : Cells)
    → Apart ls ((c, v) ∷ rs)
    → (if c == head_or null (ls ++ (c, v) ∷ rs)
        then head_or null rs
        else head_or null (ls ++ (c, v) ∷ rs))
      ≡ head_or null (ls ++ rs)
first-remove c v [] rs apart = rw (==_refl c) refl
first-remove c v ((p, w) ∷ ls) rs (out, apart) = ground (arith, or-false (p == c) (has p rs) out)

pub last-remove :
    (c v : Ptr) (ls rs : Cells)
    → has c rs ≡ false
    → (if c == last_or null (ls ++ (c, v) ∷ rs)
        then last_or null ls
        else last_or null (ls ++ (c, v) ∷ rs))
      ≡ last_or null (ls ++ rs)
last-remove c v ls [] out =
    rw (last_or-append null ls ((c, v) ∷ []))
      (rw (==_refl c) (ap (last_or null) (sym (append-nil ls))))
last-remove c v ls ((d, w) ∷ rs) out =
    rw (last_or-append null ls ((c, v) ∷ (d, w) ∷ rs))
      (rw (last_or-append null ls ((d, w) ∷ rs)) (rw (last-other c d w rs out) refl))

pub length-remove {ℓ} :
    {A : Type ℓ} (xs : List A) (x : A) (ys : List A)
    → length (xs ++ x ∷ ys) ≡ suc (length (xs ++ ys))
length-remove [] x ys = refl
length-remove (y ∷ xs) x ys = ap suc (length-remove xs x ys)

pub else-load :
    {A : Type 0} (h : Heap) (c : Ptr) (e : Elem) (b : Bool) (m : Command A) (k : Elem → Command A)
    → load c h ≡ ok e h
    → (if b then m else (load c >>= k)) h ≡ (if b then m else k e) h
else-load h c e true m k loaded = refl
else-load h c e false m k loaded = ap (λ r. continue_with r k) loaded

-- The neighbours of the cursor are linked to each other.
pub Returns-bridge :
    (h : Heap) (ls : Cells) (c v : Ptr) (rs : Cells)
    → Segment h null null (ls ++ (c, v) ∷ rs)
    → Returns
        (λ _ g. Segment g null null (ls ++ rs) × SameOutside (ls ++ rs) h g)
        (bridge c (last_or null ls) (head_or null rs) h)
unfolding bridge
Returns-bridge h ls c v rs s =
    let (left, (ne, at', fresh, right), apart) = Segment-split h null null ls ((c, v) ∷ rs) s in
    let (out, apart') = Apart-uncons c v ls rs apart in
    let e = elem v (head_or null rs) (last_or null ls) in
    let (_, h1, run1, (left1, same1)) =
      Returns-run (Returns-link_last h null c (head_or null rs) ls left) in
    let right1 = frame-SameOutside h h1 c null rs ls same1 (Apart-sym ls rs apart') right in
    let (_, h2, run2, (right2, same2)) =
      Returns-run (Returns-link_first h1 c (last_or null ls) null rs right1) in
    let left2 = frame-SameOutside h1 h2 null (head_or null rs) ls rs same2 apart' left1 in
    rw
      (else-load h c e (last_or null ls == null) (pure (tt {0}))
        (λ x. set_next (last_or null ls) x.next) (load-some h c e ne at'))
      (rw (run1) (
        rw
          (else-load h1 c e (head_or null rs == null) (pure (tt {0}))
            (λ x. set_prev (head_or null rs) x.prev) (load-some h1 c e ne (same1 c out ∙ at')))
          (rw (run2) (
            returns (
              Segment-join h2 null null ls rs left2 right2 apart',
              λ a away.
                  let (off, off') =
                    or-false (has a ls) (has a rs) (sym (has-append a ls rs) ∙ away) in
                  same2 a off' ∙ same1 a off,
            )))))

pub suc-not-zero : (n : ℕ) → (suc n == 0) ≡ false
suc-not-zero n = ground arith

pub suc-not-one : (n : ℕ) → n ≢ 0 → (suc n == 1) ≡ false
suc-not-one n many = ground (arith, many)

pub remove_current-one :
    (h : Heap) (q : Queue) (c v : Ptr)
    → AtCursor h q [] c v []
    → remove_current q h
      ≡ ok
          (noerror, record q { current = null; first = null; last = null; nb_elem = 0 })
          (write h c none)
unfolding remove_current
remove_current-one h q c v at_c =
    let (ne, at') = cursor-elem h q [] c v [] at_c in
    rw (at_c.queue.count) (rw (at_c.here) (rw (free-some h c (elem v null null) ne at') refl))

pub SameOutside-remove :
    (h g : Heap) (ls : Cells) (c v : Ptr) (rs : Cells)
    → SameOutside (ls ++ rs) h g
    → SameOutside (ls ++ (c, v) ∷ rs) h (write g c none)
SameOutside-remove h g ls c v rs same a away =
    let (off, off') =
      or-false (has a ls) (has a ((c, v) ∷ rs)) (sym (has-append a ls ((c, v) ∷ rs)) ∙ away) in
    let (other, off'') = or-false (a == c) (has a rs) off' in
    SameOutside-write g c none ((c, v) ∷ []) (ground arith) a (ground (arith, other))
    ∙ same a (has-append a ls rs ∙ ground (arith, off, off''))

-- mea_queue_remove_current, on a queue of two elements or more with the cursor on one of them,
-- takes just that element out of the sequence, moves the cursor to the one behind it or to NULL,
-- frees it, and writes to no memory but the queue's elements; the elements are fewer than 2^64.
pub remove_current-many :
    (h : Heap) (q : Queue) (ls : Cells) (c v : Ptr) (rs : Cells)
    → AtCursor h q ls c v rs
    → length (ls ++ rs) ≢ 0
    → suc (length (ls ++ rs)) < word
    → Returns
        (λ r g.
          (r.0 ≡ noerror)
          × IsQueue g r.1 (ls ++ rs)
          × (r.1.current ≡ head_or null rs)
          × (g c ≡ none)
          × SameOutside (ls ++ (c, v) ∷ rs) h g)
        (remove_current q h)
unfolding remove_current
remove_current-many h q ls c v rs at_c many small =
    let (_, (ne, at', fresh, _), apart) =
      Segment-split h null null ls ((c, v) ∷ rs) at_c.queue.chain in
    let (out, _) = Apart-uncons c v ls rs apart in
    let alone = has-append c ls rs ∙ ground (arith, out, fresh) in
    let (_, g, run, (s, same)) = Returns-run (Returns-bridge h ls c v rs at_c.queue.chain) in
    let e = elem v (head_or null rs) (last_or null ls) in
    let still = same c alone ∙ at' in
    let n = length (ls ++ rs) in
    rw (at_c.queue.count, length-remove ls (c, v) rs, at_c.here, suc-not-zero n, suc-not-one n many)
      (rw (load-some h c e ne at', run, load-some g c e ne still, free-some g c e ne still)
        (rw (at_c.queue.first_at, at_c.queue.last_at)
          (returns (
            refl,
            record {
              first_at = first-remove c v ls rs apart;
              last_at = last-remove c v ls rs fresh;
              count = decr_lem n small;
              chain = frame-write g c none null null (ls ++ rs) s alone;
            },
            refl,
            write_here g c none,
            SameOutside-remove h g ls c v rs same,
          ))))

-- On a queue of two elements or more whose cursor is NULL, mea_queue_remove_current dereferences
-- NULL.
pub remove_current-no_cursor :
    (h : Heap) (q : Queue) → q.current ≡ null → 1 < q.nb_elem → remove_current q h ≡ fault
unfolding remove_current load
remove_current-no_cursor h q nowhere many =
    let n0 : (q.nb_elem == 0) ≡ false = ground (arith, many) in
    let n1 : (q.nb_elem == 1) ≡ false = ground (arith, many) in
    rw (n0) (rw (n1) (rw (nowhere) refl))
