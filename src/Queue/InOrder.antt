-- ===== src/Queue/InOrder.antt =====
-- First in, first out: elements that mea_queue_in_elem puts into a queue of src/mea_queue.c come out
-- of mea_queue_out_elem in the same order.
use mea_edomus_lite.Common.{
  ℕ, zero, suc, ◌+◌, ◌<◌, ◌≡◌, ◌≢◌, refl, ap, ◌∙◌, false, Option, none, some, List, [], ◌∷◌, ◌++◌,
  ◌==◌, arith, length, append-nil,
}
use mea_edomus_lite.Queue.{Queue, word, in_elem, out_elem}
use mea_edomus_lite.Queue.Heap.{
  Ptr, null, Heap, Command, pure, ◌>>=◌, Returns, returns, Returns-bind, Returns-mono,
}
use mea_edomus_lite.Queue.Segment.{Cells, has, SameOutside}
use mea_edomus_lite.Queue.Fifo.{
  IsQueue, in_elem-IsQueue, out_elem-IsQueue, has-free, length-snoc, or-false,
}
use mea_edomus_lite.Queue.Cursor.{append-snoc}

-- Enqueues of data at the addresses that malloc returns, in order.
abbrev pub put_all : Cells → Queue → Command Queue
put_all [] q = pure q
put_all ((new, v) ∷ xs) q = in_elem new v q >>= λ r. put_all xs r.1

-- `n` dequeues, with what each stores in *data.
abbrev pub take_all : ℕ → Queue → Command (List (Option Ptr) × Queue)
take_all zero q = pure ([], q)
take_all (suc n) q = out_elem q >>= λ r. take_all n r.2 >>= λ s. pure (r.1 ∷ s.0, s.1)

abbrev pub data_of : Cells → List (Option Ptr)
data_of [] = []
data_of ((_, v) ∷ xs) = some v ∷ data_of xs

abbrev pub backwards : Cells → Cells
backwards [] = []
backwards (x ∷ xs) = backwards xs ++ x ∷ []

-- The addresses of `xs` hold nothing yet; they are distinct and none is NULL.
abbrev pub Fresh : Heap → Cells → Type 0
Fresh h [] = Unit
Fresh h ((p, _) ∷ xs) = (p ≢ null) × (h p ≡ none) × (has p xs ≡ false) × Fresh h xs

pub Fresh-in_elem :
    (h g : Heap) (q : Queue) (new v : Ptr) (xs ys : Cells)
    → IsQueue h q ys
    → SameOutside ((new, v) ∷ ys) h g
    → has new xs ≡ false
    → Fresh h xs
    → Fresh g xs
Fresh-in_elem h g q new v [] ys is same out fresh = tt
Fresh-in_elem h g q new v ((p, w) ∷ xs) ys is same out (ne, free, alone, fresh) =
    let away = has-free h p null null ys is.chain free in
    let (other, out') = or-false (new == p) (has new xs) out in
    (
      ne,
      same p (ground (arith, away, other)) ∙ free,
      alone,
      Fresh-in_elem h g q new v xs ys is same out' fresh,
    )

pub put_all-IsQueue :
    (h : Heap) (q : Queue) (xs ys : Cells)
    → IsQueue h q ys
    → Fresh h xs
    → length xs + length ys < word
    → Returns (λ q' g. IsQueue g q' (backwards xs ++ ys)) (put_all xs q h)
put_all-IsQueue h q [] ys is fresh small = returns is
put_all-IsQueue h q ((p, v) ∷ xs) ys is (ne, free, alone, fresh) small =
    Returns-bind (in_elem-IsQueue h q ys p v is ne free (omega (arith, small))) (λ r g.
      λ (_, is', same).
        Returns-mono
          (put_all-IsQueue g r.1 xs ((p, v) ∷ ys) is'
            (Fresh-in_elem h g q p v xs ys is same alone fresh) (omega (arith, small)))
          (λ q' g'. λ done. rw (append-snoc (backwards xs) (p, v) ys) done))

pub length-backwards : (xs : Cells) → length (backwards xs) ≡ length xs
length-backwards [] = refl
length-backwards (x ∷ xs) = length-snoc (backwards xs) x ∙ ap suc (length-backwards xs)

pub take_all-data_of :
    (h : Heap) (q : Queue) (xs : Cells)
    → IsQueue h q (backwards xs)
    → length xs < word
    → Returns (λ r g. (r.0 ≡ data_of xs) × IsQueue g r.1 []) (take_all (length xs) q h)
take_all-data_of h q [] is small = returns (refl, is)
take_all-data_of h q ((p, v) ∷ xs) is small =
    Returns-bind
      (out_elem-IsQueue h q (backwards xs) p v is (omega (arith, small, length-backwards xs)))
      (λ r g. λ (_, value, is', _, _).
        Returns-bind (take_all-data_of g r.2 xs is' (omega (arith, small)))
          (λ s g'. λ (values, is''). returns (cc, is'')))

-- Data put into an empty queue by mea_queue_in_elem, at fresh addresses, come out of
-- mea_queue_out_elem in the same order and leave the queue empty, if they are fewer than 2^64.
pub put_all-take_all :
    (h : Heap) (q : Queue) (xs : Cells)
    → IsQueue h q []
    → Fresh h xs
    → length xs < word
    → Returns
        (λ r g. (r.0 ≡ data_of xs) × IsQueue g r.1 [])
        ((put_all xs q >>= take_all (length xs)) h)
put_all-take_all h q xs is fresh small =
    Returns-bind (put_all-IsQueue h q xs [] is fresh (omega (arith, small)))
      (λ q' g. λ is'. take_all-data_of g q' xs (rw⁻¹ (append-nil (backwards xs)) is') small)
