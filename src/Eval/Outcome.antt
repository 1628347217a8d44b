-- ===== src/Eval/Outcome.antt =====
-- How a call in src/mea_eval.c can end.
use mathlib.Core.Path.{subst}
use mea_edomus_lite.Common.{ℕ, ◌≡◌, ◌≢◌, refl, Bool, true, false, if◌then◌else◌}

-- Uses of memory, of a null pointer or of a machine operation that C leaves undefined.
pub data Fault : Type 0 where
  -- a read behind the NUL that ends the text
  past_end : Fault
  -- a variable's name longer than the buffer it is copied to
  name_overflow : Fault
  -- a function's name of more than 32767 letters, whose length wraps to a negative int16_t
  negative_length : Fault
  -- a write behind the local array of ten operators
  operators_overflow : Fault
  -- a use of the code's block after a reallocation that the user's pointer missed
  stale_block : Fault
  -- a pop of an empty execution stack, a variable's number read as a double or the other way
  underflow wrong_kind : Fault
  -- an integer remainder by zero
  zero_division : Fault
  -- a call through a callback that was never set, and a number that it should have set
  null_call uninitialised : Fault

-- A value; an error with the number in `*err`; undefined behaviour; a loop's fuel used up.
pub data Outcome {ℓ} (A : Type ℓ) : Type ℓ where
  ok : A → Outcome A
  err : ℕ → Outcome A
  fault : Fault → Outcome A
  out_of_fuel : Outcome A

infixl 5 ◌>>=◌
abbrev pub ◌>>=◌ {ℓ κ} : {A : Type ℓ} {B : Type κ} → Outcome A → (A → Outcome B) → Outcome B
ok a >>= f = f a
err e >>= f = err e
fault e >>= f = fault e
out_of_fuel >>= f = out_of_fuel

-- `P` holds of a value, `E` of a fault, and the fuel was enough.
pub data Post {ℓ} {A : Type ℓ} (P : A → Type 0) (E : Fault → Type 0) : Outcome A → Type ℓ where
  returns : {a : A} → P a → Post P E (ok a)
  fails : {e : ℕ} → Post P E (err e)
  faults : {e : Fault} → E e → Post P E (fault e)

module _ {ℓ κ} {A : Type ℓ} {B : Type κ} {E : Fault → Type 0} where
  pub Post-bind :
      {P : A → Type 0} {Q : B → Type 0} {first : Outcome A} {more : A → Outcome B}
      → Post P E first
      → ((x : A) → P x → Post Q E (more x))
      → Post Q E (first >>= more)
  Post-bind (faults e) then' = faults e
  Post-bind fails then' = fails
  Post-bind (returns {a} holds) then' = then' a holds

module _ {ℓ} {A : Type ℓ} {P : A → Type 0} {E : Fault → Type 0} where
  pub Post-ok : {r : Outcome A} {a : A} → Post P E r → r ≡ ok a → P a
  Post-ok (returns h) e = subst P (cc) h
  Post-ok fails e = cc
  Post-ok (faults h) e = cc

  pub Post-fuel : {r : Outcome A} → Post P E r → r ≢ out_of_fuel
  Post-fuel (returns h) = cc
  Post-fuel fails = cc
  Post-fuel (faults h) = cc

  pub Post-fault : {r : Outcome A} {e : Fault} → Post P E r → r ≡ fault e → E e
  Post-fault (returns h) p = cc
  Post-fault fails p = cc
  Post-fault (faults h) p = subst E (cc) h

  pub Post-mono : {Q : A → Type 0} {r : Outcome A} → Post P E r → ((a : A) → P a → Q a) → Post Q E r
  Post-mono (returns h) weaken = returns (weaken _ h)
  Post-mono fails weaken = fails
  Post-mono (faults h) weaken = faults h

-- Any fault at all.
abbrev pub AnyFault : Fault → Type 0
AnyFault e = Unit

pub Post-of {ℓ} :
    {A : Type ℓ} (P : A → Type 0) (r : Outcome A)
    → ((a : A) → r ≡ ok a → P a)
    → r ≢ out_of_fuel
    → Post P AnyFault r
Post-of P (ok a) h fuel = returns (h a refl)
Post-of P (err e) h fuel = fails
Post-of P (fault e) h fuel = faults tt
Post-of P out_of_fuel h fuel = absurd (fuel refl)

pub Post-if {ℓ} :
    {A : Type ℓ} {P : A → Type 0} {E : Fault → Type 0} (b : Bool) {x y : Outcome A}
    → (b ≡ true → Post P E x)
    → (b ≡ false → Post P E y)
    → Post P E (if b then x else y)
Post-if true hx hy = hx refl
Post-if false hx hy = hy refl
