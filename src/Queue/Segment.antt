-- ===== src/Queue/Segment.antt =====
-- What a chain of elements stands for, and what a write elsewhere leaves of it.
use mea_edomus_lite.Common.{
  ◌≡◌, ◌≢◌, refl, ap, sym, ◌∙◌, Bool, true, false, ◌||◌, Option, some, List, [], ◌∷◌, ◌++◌, ◌==◌,
  arith,
}
use mea_edomus_lite.Queue.Heap.{Ptr, null, Elem, elem, Heap, write}

-- The elements from first to last, with their addresses and their data.
abbrev pub Cells : Type 0
Cells = List (Ptr × Ptr)

abbrev pub has : Ptr → Cells → Bool
has a [] = false
has a ((p, _) ∷ xs) = (a == p) || has a xs

-- The address of the first element, and of the last.
abbrev pub head_or : Ptr → Cells → Ptr
head_or stop [] = stop
head_or stop ((p, _) ∷ xs) = p

abbrev pub last_or : Ptr → Cells → Ptr
last_or before [] = before
last_or before ((p, _) ∷ xs) = last_or p xs

-- The elements `xs` lie in memory, distinct and linked both ways, behind the element at `before` and
-- in front of the one at `stop`.
abbrev pub Segment : Heap → Ptr → Ptr → Cells → Type 0
Segment h before stop [] = Unit
Segment h before stop ((p, v) ∷ xs) =
    (p ≢ null)
    × (h p ≡ some (elem v (head_or stop xs) before))
    × (has p xs ≡ false)
    × Segment h p stop xs

-- Two chains that share no element.
abbrev pub Apart : Cells → Cells → Type 0
Apart [] ys = Unit
Apart ((p, _) ∷ xs) ys = (has p ys ≡ false) × Apart xs ys

-- `g` differs from `h` at most at the addresses of `xs`.
abbrev pub SameOutside : Cells → Heap → Heap → Type 0
SameOutside xs h g = (a : Ptr) → has a xs ≡ false → g a ≡ h a

pub frame-write :
    (h : Heap) (a : Ptr) (c : Option Elem) (before stop : Ptr) (xs : Cells)
    → Segment h before stop xs
    → has a xs ≡ false
    → Segment (write h a c) before stop xs
unfolding write
frame-write h a c before stop [] s out = tt
frame-write h a c before stop ((p, v) ∷ xs) (ne, at', fresh, s) out =
    (ne, ground (arith, at', out), fresh, frame-write h a c p stop xs s (ground (arith, out)))

pub has-append : (a : Ptr) (xs ys : Cells) → has a (xs ++ ys) ≡ has a xs || has a ys
has-append a [] ys = refl
has-append a ((p, _) ∷ xs) ys = ground (arith, has-append a xs ys)

pub head_or-append :
    (stop : Ptr) (xs ys : Cells) → head_or stop (xs ++ ys) ≡ head_or (head_or stop ys) xs
head_or-append stop [] ys = refl
head_or-append stop (_ ∷ xs) ys = refl

pub last_or-append :
    (before : Ptr) (xs ys : Cells) → last_or before (xs ++ ys) ≡ last_or (last_or before xs) ys
last_or-append before [] ys = refl
last_or-append before ((p, _) ∷ xs) ys = last_or-append p xs ys

pub Segment-split :
    (h : Heap) (before stop : Ptr) (xs ys : Cells)
    → Segment h before stop (xs ++ ys)
    → Segment h before (head_or stop ys) xs × Segment h (last_or before xs) stop ys × Apart xs ys
Segment-split h before stop [] ys s = (tt, s, tt)
Segment-split h before stop ((p, v) ∷ xs) ys (ne, at', fresh, s) =
    let (left, right, apart) = Segment-split h p stop xs ys s in
    (
      (
        ne,
        at' ∙ ap (λ n. some (elem v n before)) (head_or-append stop xs ys),
        ground (arith, fresh, has-append p xs ys),
        left,
      ),
      right,
      (ground (arith, fresh, has-append p xs ys), apart),
    )

pub Segment-join :
    (h : Heap) (before stop : Ptr) (xs ys : Cells)
    → Segment h before (head_or stop ys) xs
    → Segment h (last_or before xs) stop ys
    → Apart xs ys
    → Segment h before stop (xs ++ ys)
Segment-join h before stop [] ys left right apart = right
Segment-join h before stop ((p, v) ∷ xs) ys (ne, at', fresh, left) right (out, apart) = (
  ne,
  at' ∙ ap (λ n. some (elem v n before)) (sym (head_or-append stop xs ys)),
  ground (arith, fresh, out, has-append p xs ys),
  Segment-join h p stop xs ys left right apart,
)

pub Apart-cons :
    (p v : Ptr) (xs ys : Cells) → has p xs ≡ false → Apart xs ys → Apart xs ((p, v) ∷ ys)
Apart-cons p v [] ys out apart = tt
Apart-cons p v ((q, _) ∷ xs) ys out (out', apart) =
    (ground (arith, out, out'), Apart-cons p v xs ys (ground (arith, out)) apart)

pub Apart-uncons :
    (p v : Ptr) (xs ys : Cells) → Apart xs ((p, v) ∷ ys) → (has p xs ≡ false) × Apart xs ys
Apart-uncons p v [] ys apart = (refl, tt)
Apart-uncons p v ((q, _) ∷ xs) ys (out, apart) =
    let (out', apart') = Apart-uncons p v xs ys apart in
    (ground (arith, out, out'), (ground (arith, out), apart'))

pub Apart-sym : (xs ys : Cells) → Apart xs ys → Apart ys xs
Apart-sym xs [] apart = tt
Apart-sym xs ((p, v) ∷ ys) apart =
    let (out, apart') = Apart-uncons p v xs ys apart in (out, Apart-sym xs ys apart')

pub frame-SameOutside :
    (h g : Heap) (before stop : Ptr) (xs ys : Cells)
    → SameOutside ys h g
    → Apart xs ys
    → Segment h before stop xs
    → Segment g before stop xs
frame-SameOutside h g before stop [] ys same apart s = tt
frame-SameOutside h g before stop ((p, v) ∷ xs) ys same (out, apart) (ne, at', fresh, s) =
    (ne, same p out ∙ at', fresh, frame-SameOutside h g p stop xs ys same apart s)

pub has-last_or :
    (before p v : Ptr) (xs : Cells) → has (last_or before ((p, v) ∷ xs)) ((p, v) ∷ xs) ≡ true
has-last_or before p v [] = ground (arith)
has-last_or before p v ((q, w) ∷ xs) = ground (arith, has-last_or p q w xs)
