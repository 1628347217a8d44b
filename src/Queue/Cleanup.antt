-- ===== src/Queue/Cleanup.antt =====
-- mea_queue_cleanup of src/mea_queue.c: it frees every element, from the last to the first.
use mea_edomus_lite.Common.{
  ℕ, zero, suc, ◌≡◌, refl, ap, sym, ◌∙◌, true, false, none, List, [], ◌∷◌, ◌++◌, ◌==◌, arith,
  if◌then◌else◌, length, append_assoc, ==_iff, subst, Bool-cases, inl, inr, append-nil,
}
use mea_edomus_lite.Queue.{Queue, cleanup, cleanup_loop, unlink_last}
use mea_edomus_lite.Queue.Heap.{
  Ptr, null, Heap, ok, Returns, returns, Returns-mono, Returns-bind, free,
}
use mea_edomus_lite.Queue.Segment.{Cells, has, SameOutside, Segment-split, has-append, Apart-uncons}
use mea_edomus_lite.Queue.Links.{not_null_test}
use mea_edomus_lite.Queue.Fifo.{IsQueue, unlink_last-Taken, or-false}

-- The data that the user's function is called on: those that are not NULL, from the last element to
-- the first.
abbrev pub keep : Ptr → List Ptr → List Ptr
keep v vs = if v == null then vs else vs ++ v ∷ []

abbrev pub released : Cells → List Ptr
released [] = []
released ((_, v) ∷ xs) = keep v (released xs)

-- What the loop makes of `n` elements `xs`.
abbrev pub Cleans : ℕ → Cells → Type 0
Cleans n xs =
    (h : Heap) (q : Queue) (done : List Ptr)
    → IsQueue h q xs
    → Returns
        (λ r g.
          (r.0 ≡ done ++ released xs)
          × IsQueue g r.1 []
          × ((a : Ptr) → has a xs ≡ true → g a ≡ none)
          × SameOutside xs h g)
        (cleanup_loop n done q h)

pub unsnoc {ℓ} :
    {A : Type ℓ} (x : A) (xs : List A)
    → (ys : List A) × (y : A) × (x ∷ xs ≡ ys ++ y ∷ []) × (length ys ≡ length xs)
unsnoc x [] = ([], x, refl, refl)
unsnoc x (x' ∷ xs) = let (ys, y, e, l) = unsnoc x' xs in (x ∷ ys, y, ap (λ zs. x ∷ zs) e, ap suc l)

pub keep-append : (v : Ptr) (us vs : List Ptr) → us ++ keep v vs ≡ keep v (us ++ vs)
keep-append v us vs = elim (Bool-cases (v == null)) [
  | inl e ↦ rw (e) refl
  | inr e ↦ rw (e) (sym (append_assoc us vs (v ∷ [])))
]

pub released-snoc :
    (xs : Cells) (p v : Ptr) (done : List Ptr)
    → done ++ released (xs ++ (p, v) ∷ []) ≡ keep v done ++ released xs
released-snoc [] p v done =
    keep-append v done [] ∙ ap (keep v) (append-nil done) ∙ sym (append-nil (keep v done))
released-snoc ((q, w) ∷ xs) p v done =
    keep-append w done (released (xs ++ (p, v) ∷ []))
    ∙ ap (keep w) (released-snoc xs p v done)
    ∙ sym (keep-append w (keep v done) (released xs))

pub cleanup_loop-step :
    (n : ℕ) (h h1 h2 : Heap) (q rest : Queue) (v : Ptr) (done : List Ptr)
    → (q.last == null) ≡ false
    → unlink_last q h ≡ ok (v, rest) h1
    → free q.last h1 ≡ ok tt h2
    → cleanup_loop (suc n) done q h ≡ cleanup_loop n (keep v done) (record rest { nb_elem = n }) h2
unfolding cleanup_loop
cleanup_loop-step n h h1 h2 q rest v done ne un fr = rw (ne) (rw (un) (rw (fr) refl))

pub last_only :
    (a p v : Ptr) (xs : Cells)
    → has a (xs ++ (p, v) ∷ []) ≡ true
    → has a xs ≡ false
    → (a == p) ≡ true
last_only a p v xs inside off = ground (arith, has-append a xs ((p, v) ∷ []), inside, off)

pub Cleans-snoc :
    (n : ℕ) (xs : Cells) (p v : Ptr)
    → length xs ≡ n
    → Cleans n xs
    → Cleans (suc n) (xs ++ (p, v) ∷ [])
Cleans-snoc n xs p v l clean h q done is =
    let t = unlink_last-Taken h q xs p v is in
    let next_is : IsQueue t.freed_heap (record t.rest { nb_elem = n }) xs = record {
      first_at = t.first_at;
      last_at = t.last_at;
      count = sym l;
      chain = t.chain;
    } in
    let (_, _, apart) = Segment-split h null null xs ((p, v) ∷ []) is.chain in
    let (out, _) = Apart-uncons p v xs [] apart in
    rw
      (cleanup_loop-step n h t.unlinked_heap t.freed_heap q t.rest v done
        (not_null_test q.last t.not_null) t.unlinked t.freed)
      (Returns-mono (clean t.freed_heap (record t.rest { nb_elem = n }) (keep v done) next_is)
        (λ r g. λ (vs, is', gone, same). (
          vs ∙ sym (released-snoc xs p v done),
          is',
          λ a inside. elim (Bool-cases (has a xs)) [
            | inl e ↦ gone a e
            | inr e ↦
                same a e ∙ ap t.freed_heap ((==_iff a p).0 (last_only a p v xs inside e)) ∙ t.gone
          ],
          λ a away.
              let (off, _) =
                or-false (has a xs) (has a ((p, v) ∷ []))
                  (sym (has-append a xs ((p, v) ∷ [])) ∙ away) in
              same a off ∙ t.same a away,
        )))

pub Cleans-nil : Cleans 0 []
unfolding cleanup_loop
Cleans-nil h q done is =
    returns (sym (append-nil done), is, λ a inside. ground (arith, inside), λ a away. refl)

pub cleanup_loop-Cleans : (n : ℕ) (xs : Cells) → length xs ≡ n → Cleans n xs
cleanup_loop-Cleans zero [] l = Cleans-nil
cleanup_loop-Cleans zero (_ ∷ _) l = ground (arith, l)
cleanup_loop-Cleans (suc n) [] l = ground (arith, l)
cleanup_loop-Cleans (suc n) (x ∷ xs) l =
    let (ys, (p, v), e, same) = unsnoc x xs in
    let short : length ys ≡ n = omega (arith, same, l) in
    subst (λ zs. Cleans (suc n) zs) (sym e)
      (Cleans-snoc n ys p v short (cleanup_loop-Cleans n ys short))

-- mea_queue_cleanup calls the user's function on every datum that is not NULL, from the last to
-- the first, frees every element, leaves an empty queue and writes to no other memory.
pub cleanup-IsQueue :
    (h : Heap) (q : Queue) (xs : Cells)
    → IsQueue h q xs
    → Returns
        (λ r g.
          (r.0 ≡ released xs)
          × IsQueue g r.1 []
          × ((a : Ptr) → has a xs ≡ true → g a ≡ none)
          × SameOutside xs h g)
        (cleanup q h)
unfolding cleanup
cleanup-IsQueue h q xs is =
    Returns-bind (cleanup_loop-Cleans q.nb_elem xs (sym is.count) h q [] is) (λ r g.
      λ (vs, is', gone, same). returns (
        vs,
        record {
          first_at = is'.first_at;
          last_at = is'.last_at;
          count = is'.count;
          chain = is'.chain;
        },
        gone,
        same,
      ))
