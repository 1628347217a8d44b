-- ===== src/Queue/Links.antt =====
-- The writes by which src/mea_queue.c links the ends of a chain elsewhere.
use mea_edomus_lite.Common.{
  inl, inr, Bool-cases, ==_iff, ==_refl, ap, ◌≡◌, ◌≢◌, refl, ◌∙◌, true, false, false, Option, none,
  some, [], ◌∷◌, ◌==◌, arith, if◌then◌else◌,
}
use mea_edomus_lite.Queue.Heap.{
  Ptr, null, Elem, elem, Heap, write, ok, pure, load, fill, set_next, set_prev, free, Returns,
  ◌>>=◌, continue_with, returns,
}
use mea_edomus_lite.Queue.Segment.{
  Cells, has, head_or, last_or, Segment, SameOutside, frame-write, has-last_or,
}

pub not_null_else : {A : Type 0} (p : Ptr) (x y : A) → p ≢ null → (if p == null then x else y) ≡ y
not_null_else p x y ne = ground (arith, ne)

pub not_null_test : (p : Ptr) → p ≢ null → (p == null) ≡ false
not_null_test p ne = ground (arith, ne)

pub load-some : (h : Heap) (p : Ptr) (e : Elem) → p ≢ null → h p ≡ some e → load p h ≡ ok e h
unfolding load
load-some h p e ne at' = rw (at') (ground (arith, ne))

pub set_next-some :
    (h : Heap) (p q : Ptr) (e : Elem)
    → p ≢ null
    → h p ≡ some e
    → set_next p q h ≡ ok tt (write h p (some (record e { next = q })))
unfolding set_next fill
set_next-some h p q e ne at' = rw (load-some h p e ne at') refl

pub set_prev-some :
    (h : Heap) (p q : Ptr) (e : Elem)
    → p ≢ null
    → h p ≡ some e
    → set_prev p q h ≡ ok tt (write h p (some (record e { prev = q })))
unfolding set_prev fill
set_prev-some h p q e ne at' = rw (load-some h p e ne at') refl

pub free-some :
    (h : Heap) (p : Ptr) (e : Elem) → p ≢ null → h p ≡ some e → free p h ≡ ok tt (write h p none)
unfolding free
free-some h p e ne at' =
    ap (λ f. f h) (not_null_else p (pure tt) (load p >>= λ _ h. ok tt (write h p none)) ne)
    ∙ ap (λ r. continue_with r (λ _ h. ok tt (write h p none))) (load-some h p e ne at')

pub SameOutside-write :
    (h : Heap) (p : Ptr) (c : Option Elem) (xs : Cells)
    → has p xs ≡ true
    → SameOutside xs h (write h p c)
unfolding write
SameOutside-write h p c xs inside a out = elim (Bool-cases (a == p)) [
  | inl e ↦ ground (arith, e, inside, out, ap (λ n. has n xs) ((==_iff a p).0 e))
  | inr e ↦ ground (arith, e)
]

pub write_here : (h : Heap) (p : Ptr) (c : Option Elem) → write h p c p ≡ c
unfolding write
write_here h p c = rw (==_refl p) refl

-- The last cell of a chain that is not empty.
pub record LastCell (h : Heap) (before stop p v : Ptr) (xs : Cells) : Type 0 where
  pub value : Ptr
  pub behind : Ptr
  pub at_last : h (last_or p xs) ≡ some (elem value stop behind)
  pub not_null : last_or p xs ≢ null
  pub relinked :
      (stop' : Ptr)
      → Segment (write h (last_or p xs) (some (elem value stop' behind))) before stop' ((p, v) ∷ xs)

pub Segment-LastCell :
    (h : Heap) (before stop p v : Ptr) (xs : Cells)
    → Segment h before stop ((p, v) ∷ xs)
    → LastCell h before stop p v xs
unfolding write
Segment-LastCell h before stop p v [] (ne, at', fresh, s) = record {
  value = v;
  behind = before;
  at_last = at';
  not_null = ne;
  relinked = λ stop'. (ne, write_here h p (some (elem v stop' before)), fresh, tt);
}
Segment-LastCell h before stop p v ((q, w) ∷ xs) (ne, at', fresh, s) =
    let cell = Segment-LastCell h p stop q w xs s in
    record {
      value = cell.value;
      behind = cell.behind;
      at_last = cell.at_last;
      not_null = cell.not_null;
      relinked = λ stop'. (
        ne,
        SameOutside-write h (last_or q xs) (some (elem cell.value stop' cell.behind)) ((q, w) ∷ xs)
              (has-last_or p q w xs) p fresh
            ∙ at',
        fresh,
        cell.relinked stop',
      );
    }

pub Returns-set_next :
    (h : Heap) (before stop stop' p v : Ptr) (xs : Cells)
    → Segment h before stop ((p, v) ∷ xs)
    → Returns
        (λ _ g. Segment g before stop' ((p, v) ∷ xs) × SameOutside ((p, v) ∷ xs) h g)
        (set_next (last_or p xs) stop' h)
Returns-set_next h before stop stop' p v xs s =
    let cell = Segment-LastCell h before stop p v xs s in
    let e' = elem cell.value stop' cell.behind in
    rw
      (set_next-some h (last_or p xs) stop' (elem cell.value stop cell.behind) cell.not_null
        cell.at_last)
      (returns (
        cell.relinked stop',
        SameOutside-write h (last_or p xs) (some e') ((p, v) ∷ xs) (has-last_or null p v xs),
      ))

pub Returns-set_prev :
    (h : Heap) (before before' stop p v : Ptr) (xs : Cells)
    → Segment h before stop ((p, v) ∷ xs)
    → Returns
        (λ _ g. Segment g before' stop ((p, v) ∷ xs) × SameOutside ((p, v) ∷ xs) h g)
        (set_prev p before' h)
Returns-set_prev h before before' stop p v xs (ne, at', fresh, s) =
    let e' = elem v (head_or stop xs) before' in
    rw (set_prev-some h p before' (elem v (head_or stop xs) before) ne at') (
      returns (
        (ne, write_here h p (some e'), fresh, frame-write h p (some e') p stop xs s fresh),
        SameOutside-write h p (some e') ((p, v) ∷ xs) (ground arith),
      ))

-- The last element's `next` is set, if there is one.
pub Returns-link_last :
    (h : Heap) (before stop stop' : Ptr) (xs : Cells)
    → Segment h before stop xs
    → Returns
        (λ _ g. Segment g before stop' xs × SameOutside xs h g)
        ((if last_or null xs == null then pure tt else set_next (last_or null xs) stop') h)
Returns-link_last h before stop stop' [] s = returns (tt, λ a out. refl)
Returns-link_last h before stop stop' ((p, v) ∷ xs) s =
    let cell = Segment-LastCell h before stop p v xs s in
    rw (not_null_test (last_or p xs) cell.not_null) (Returns-set_next h before stop stop' p v xs s)

-- The first element's `prev` is set, if there is one.
pub Returns-link_first :
    (h : Heap) (before before' stop : Ptr) (xs : Cells)
    → Segment h before stop xs
    → Returns
        (λ _ g. Segment g before' stop xs × SameOutside xs h g)
        ((if head_or null xs == null then pure tt else set_prev (head_or null xs) before') h)
Returns-link_first h before before' stop [] s = returns (tt, λ a out. refl)
Returns-link_first h before before' stop ((p, v) ∷ xs) s =
    rw (not_null_test p s.0) (Returns-set_prev h before before' stop p v xs s)
