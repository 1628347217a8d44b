-- ===== src/Queue/Fifo.antt =====
-- src/mea_queue.c as a queue: what mea_queue_in_elem and mea_queue_out_elem do to the sequence that
-- a chain of elements stands for.
use mea_edomus_lite.Common.{
  ℕ, suc, ◌<◌, ◌≡◌, ◌≢◌, refl, ap, sym, ◌∙◌, Bool, true, false, ◌||◌, none, some, List, [], ◌∷◌,
  ◌++◌, ◌==◌, arith, length, ==_refl,
}
use mea_edomus_lite.Queue.{Queue, noerror, word, incr, decr, in_elem, out_elem, unlink_last}
use mea_edomus_lite.Queue.Heap.{
  Ptr, null, elem, Heap, write, ok, Returns, returns, Returns-run, Returns-bind, fill, free,
}
use mea_edomus_lite.Queue.Segment.{
  Cells, has, head_or, last_or, Segment, SameOutside, frame-write, Segment-split, last_or-append,
  has-append, Apart-uncons,
}
use mea_edomus_lite.Queue.Links.{
  not_null_test, load-some, free-some, write_here, Returns-set_prev, Returns-set_next,
  SameOutside-write,
}

-- The queue `q` in the memory `h` stands for the elements `xs`, first to last.
pub record IsQueue (h : Heap) (q : Queue) (xs : Cells) : Type 0 where
  pub first_at : q.first ≡ head_or null xs
  pub last_at : q.last ≡ last_or null xs
  pub count : q.nb_elem ≡ length xs
  pub chain : Segment h null null xs

pub incr_lem : (n : ℕ) → suc n < word → incr n ≡ suc n
unfolding incr
incr_lem n small = omega arith

pub decr_lem : (n : ℕ) → suc n < word → decr (suc n) ≡ n
unfolding decr
decr_lem n small = omega arith

pub or-false : (a b : Bool) → a || b ≡ false → (a ≡ false) × (b ≡ false)
or-false false b h = (refl, h)
or-false true b h = ground (arith, h)

pub length-snoc {ℓ} : {A : Type ℓ} (xs : List A) (x : A) → length (xs ++ x ∷ []) ≡ suc (length xs)
length-snoc [] x = refl
length-snoc (y ∷ xs) x = ap suc (length-snoc xs x)

pub has-free :
    (h : Heap) (a before stop : Ptr) (xs : Cells)
    → Segment h before stop xs
    → h a ≡ none
    → has a xs ≡ false
has-free h a before stop [] s free = refl
has-free h a before stop ((p, v) ∷ xs) (ne, at', fresh, s) free =
    let rest = has-free h a p stop xs s free in ground (arith, rest, at', free, ap h)

-- mea_queue_in_elem at a fresh address puts the datum in front of the sequence, keeps the chain,
-- the ends and the count right, and writes to no memory but the new element and the queue's; the
-- elements stay fewer than 2^64.
pub in_elem-IsQueue :
    (h : Heap) (q : Queue) (xs : Cells) (new data' : Ptr)
    → IsQueue h q xs
    → new ≢ null
    → h new ≡ none
    → suc (length xs) < word
    → Returns
        (λ r g.
          (r.0 ≡ noerror) × IsQueue g r.1 ((new, data') ∷ xs) × SameOutside ((new, data') ∷ xs) h g)
        (in_elem new data' q h)
unfolding in_elem fill
in_elem-IsQueue h q [] new data' is ne free small =
    let e = elem data' null null in
    rw (not_null_test new ne) (
      rw (is.first_at) (
        returns (
          refl,
          record {
            first_at = refl;
            last_at = refl;
            count = rw (is.count) (incr_lem 0 small);
            chain = (ne, write_here h new (some e), refl, tt);
          },
          SameOutside-write h new (some e) ((new, data') ∷ []) (ground arith),
        )))
in_elem-IsQueue h q ((p, v) ∷ xs) new data' is ne free small =
    let e = elem data' p null in
    let out = has-free h new null null ((p, v) ∷ xs) is.chain free in
    let s = frame-write h new (some e) null null ((p, v) ∷ xs) is.chain out in
    let linked = Returns-set_prev (write h new (some e)) null new null p v xs s in
    rw (not_null_test new ne) (
      rw (is.first_at) (
        rw (not_null_test p is.chain.0) (
          Returns-bind linked (λ _ g. λ (s', same). returns (
            refl,
            record {
              first_at = refl;
              last_at = is.last_at;
              count = rw (is.count) (incr_lem (suc (length xs)) small);
              chain = (ne, same new out ∙ write_here h new (some e), out, s');
            },
            λ a away.
                let (off, off') = or-false (a == new) (has a ((p, v) ∷ xs)) away in
                same a off'
                ∙ SameOutside-write h new (some e) ((new, data') ∷ []) (ground arith) a
                    (ground (arith, off)),
          )))))

-- What taking the last element, `p`, leaves; mea_queue_out_elem and mea_queue_cleanup do it.
pub record Taken (h : Heap) (q : Queue) (xs : Cells) (p v : Ptr) : Type 0 where
  pub rest : Queue
  pub unlinked_heap : Heap
  pub freed_heap : Heap
  pub not_null : q.last ≢ null
  pub unlinked : unlink_last q h ≡ ok (v, rest) unlinked_heap
  pub freed : free q.last unlinked_heap ≡ ok tt freed_heap
  pub first_at : rest.first ≡ head_or null xs
  pub last_at : rest.last ≡ last_or null xs
  pub chain : Segment freed_heap null null xs
  pub gone : freed_heap p ≡ none
  pub same : SameOutside (xs ++ (p, v) ∷ []) h freed_heap

pub unlink_last-Taken :
    (h : Heap) (q : Queue) (xs : Cells) (p v : Ptr)
    → IsQueue h q (xs ++ (p, v) ∷ [])
    → Taken h q xs p v
unfolding unlink_last
unlink_last-Taken h q [] p v is =
    let (ne, at', _, _) = is.chain in
    let e = elem v null null in
    record {
      rest = record q { last = null; first = null };
      unlinked_heap = h;
      freed_heap = write h p none;
      not_null = rw (is.last_at) ne;
      unlinked =
          rw (is.last_at) (rw (load-some h p e ne at') (rw (is.first_at) (rw (==_refl p) refl)));
      freed = rw (is.last_at) (free-some h p e ne at');
      first_at = refl;
      last_at = refl;
      chain = tt;
      gone = write_here h p none;
      same = SameOutside-write h p none ((p, v) ∷ []) (ground arith);
    }
unlink_last-Taken h q ((p0, v0) ∷ xs) p v is =
    let (left, (ne, at', _, _), apart) =
      Segment-split h null null ((p0, v0) ∷ xs) ((p, v) ∷ []) is.chain in
    let last_at = is.last_at ∙ last_or-append p0 xs ((p, v) ∷ []) in
    let (out, _) = Apart-uncons p v ((p0, v0) ∷ xs) [] apart in
    let (_, g, run, (s', same)) = Returns-run (Returns-set_next h null p null p0 v0 xs left) in
    let e = elem v null (last_or p0 xs) in
    let other = (or-false (p == p0) (has p xs) out).0 in
    record {
      rest = record q { last = last_or p0 xs };
      unlinked_heap = g;
      freed_heap = write g p none;
      not_null = rw (last_at) ne;
      unlinked =
          rw (last_at)
            (rw (load-some h p e ne at') (rw (is.first_at) (rw (other) (rw (run) refl))));
      freed = rw (last_at) (free-some g p e ne (same p out ∙ at'));
      first_at = is.first_at;
      last_at = refl;
      chain = frame-write g p none null null ((p0, v0) ∷ xs) s' out;
      gone = write_here g p none;
      same = λ a away.
          let (off, off') =
            or-false (has a ((p0, v0) ∷ xs)) (has a ((p, v) ∷ []))
              (sym (has-append a ((p0, v0) ∷ xs) ((p, v) ∷ [])) ∙ away) in
          SameOutside-write g p none ((p, v) ∷ []) (ground arith) a off' ∙ same a off;
    }

-- mea_queue_out_elem on a queue that is not empty returns the last datum, takes its element out
-- of the sequence and frees it, and writes to no memory but the queue's elements; the elements
-- are fewer than 2^64.
pub out_elem-IsQueue :
    (h : Heap) (q : Queue) (xs : Cells) (p v : Ptr)
    → IsQueue h q (xs ++ (p, v) ∷ [])
    → suc (length xs) < word
    → Returns
        (λ r g.
          (r.0 ≡ noerror)
          × (r.1 ≡ some v)
          × IsQueue g r.2 xs
          × (g p ≡ none)
          × SameOutside (xs ++ (p, v) ∷ []) h g)
        (out_elem q h)
unfolding out_elem
out_elem-IsQueue h q xs p v is small =
    let t = unlink_last-Taken h q xs p v is in
    rw (not_null_test q.last t.not_null) (
      rw (t.unlinked) (
        rw (t.freed) (
          returns (
            refl,
            refl,
            record {
              first_at = t.first_at;
              last_at = t.last_at;
              count = rw (is.count) (rw (length-snoc xs (p, v)) (decr_lem (length xs) small));
              chain = t.chain;
            },
            t.gone,
            t.same,
          ))))
