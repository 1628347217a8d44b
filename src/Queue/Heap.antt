-- ===== src/Queue/Heap.antt =====
-- The memory that src/mea_queue.c works on: elements at addresses, 0 being NULL, and commands that
-- read, write and free them.
use mea_edomus_lite.Common.{ℕ, ◌≡◌, refl, sym, subst, Option, none, some, ◌==◌, if◌then◌else◌}

abbrev pub Ptr : Type 0
Ptr = ℕ

abbrev pub null : Ptr
null = 0

-- struct mea_queue_elem; `d` is the address of the user's data.
pub record Elem : Type 0 where
  pub d : Ptr
  pub next : Ptr
  pub prev : Ptr

abbrev pub elem : Ptr → Ptr → Ptr → Elem
elem d next prev = record { d = d; next = next; prev = prev }

abbrev pub Heap : Type 0
Heap = Ptr → Option Elem

unfoldable pub write : Heap → Ptr → Option Elem → Heap
write h p c a = if a == p then c else h a

-- How a command ends: by an access to NULL or to an address that holds no element, with a loop's
-- fuel used up, or with a value and the memory it leaves.
pub data Run (A : Type 0) : Type 0 where
  fault out_of_fuel : Run A
  ok : (value : A) (memory : Heap) → Run A

abbrev pub Command : Type 0 → Type 0
Command A = Heap → Run A

abbrev pub pure : {A : Type 0} → A → Command A
pure = ok

abbrev pub continue_with : {A B : Type 0} → Run A → (A → Command B) → Run B
continue_with fault next = fault
continue_with out_of_fuel next = out_of_fuel
continue_with (ok value memory) next = next value memory

infixl 5 ◌>>=◌ ◌>>◌
abbrev pub ◌>>=◌ : {A B : Type 0} → Command A → (A → Command B) → Command B
(first >>= next) memory = continue_with (first memory) next

abbrev pub ◌>>◌ : {A B : Type 0} → Command A → Command B → Command B
(first >> next) memory = continue_with (first memory) (λ _. next)

-- `*p`
unfoldable pub load : Ptr → Command Elem
load p h = if p == null then fault else elim (h p) [ none ↦ fault | some e ↦ ok e h ]

-- `*p = e` at a block that malloc has returned
unfoldable pub fill : Ptr → Elem → Command (Unit {0})
unfolding write
fill p e h = ok tt (write h p (some e))

-- `p->next = q` and `p->prev = q`
unfoldable pub set_next : Ptr → Ptr → Command (Unit {0})
unfolding load fill
set_next p q = load p >>= λ e. fill p (record e { next = q })

unfoldable pub set_prev : Ptr → Ptr → Command (Unit {0})
unfolding load fill
set_prev p q = load p >>= λ e. fill p (record e { prev = q })

-- free(p), which does nothing for NULL
unfoldable pub free : Ptr → Command (Unit {0})
unfolding load write
free p = if p == null then pure tt else (load p >>= λ _ h. ok tt (write h p none))

-- Total correctness: the run ends with a value, and `P` holds of it and of the memory.
pub record Returns {A : Type 0} (P : A → Heap → Type 0) (run : Run A) : Type 0 where
  pub value : A
  pub memory : Heap
  pub ends : run ≡ ok value memory
  pub holds : P value memory

abbrev pub returns :
    {A : Type 0} {P : A → Heap → Type 0} {a : A} {h : Heap} → P a h → Returns P (ok a h)
returns {a = a} {h = h} holds = record { value = a; memory = h; ends = refl; holds = holds }

pub Returns-run :
    {A : Type 0} {P : A → Heap → Type 0} {run : Run A}
    → Returns P run
    → (a : A) × (h : Heap) × (run ≡ ok a h) × P a h
Returns-run done = (done.value, done.memory, done.ends, done.holds)

pub Returns-mono :
    {A : Type 0} {P Q : A → Heap → Type 0} {run : Run A}
    → Returns P run
    → ((value : A) (memory : Heap) → P value memory → Q value memory)
    → Returns Q run
Returns-mono done weaken = record {
  value = done.value;
  memory = done.memory;
  ends = done.ends;
  holds = weaken done.value done.memory done.holds;
}

pub Returns-bind :
    {A B : Type 0} {P : A → Heap → Type 0} {Q : B → Heap → Type 0} {run : Run A}
    {next : A → Command B}
    → Returns P run
    → ((value : A) (memory : Heap) → P value memory → Returns Q (next value memory))
    → Returns Q (continue_with run next)
Returns-bind {Q = Q} {next = next} done rest =
    subst (λ run. Returns Q (continue_with run next)) (sym done.ends)
      (rest done.value done.memory done.holds)
