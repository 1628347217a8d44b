-- ===== src/Eval/Compile/Kinds.antt =====
-- src/mea_eval.c: what code does to the execution stack, read off the code alone: which cells hold a
-- double and which the number of a variable.
use mea_edomus_lite.Common.{
  ℕ, zero, suc, ◌≡◌, Option, none, some, List, [], ◌∷◌, ◌++◌, ltb, ◌==◌, if◌then◌else◌, arith,
  Option-cases, inl, inr,
}
use mea_edomus_lite.Eval.Compile.{Item, value, operator, ident}

pub data Kind : Type 0 where
  number name : Kind

unfoldable pub pop_number : List Kind → Option (List Kind)
pop_number (number ∷ k) = some k
pop_number _ = none

unfoldable pub pop_name : List Kind → Option (List Kind)
pop_name (name ∷ k) = some k
pop_name _ = none

abbrev push_number : Option (List Kind) → Option (List Kind)
push_number none = none
push_number (some k) = some (number ∷ k)

-- The operands of an operator's code: two doubles, a variable's number, or one double.
unfoldable pub apply_kind : ℕ → List Kind → Option (List Kind)
unfolding pop_number pop_name
apply_kind op k =
    if ltb op 128
    then push_number (elim (pop_number k) [ none ↦ none | some k' ↦ pop_number k' ])
    else if op == 255
    then push_number (pop_name k)
    else push_number (pop_number k)

-- n doubles on top of a stack
abbrev pub numbers : ℕ → List Kind → List Kind
numbers zero k = k
numbers (suc n) k = number ∷ numbers n k

module _ {D : Type 0} where
  unfoldable pub item_kind : Item D → List Kind → Option (List Kind)
  unfolding apply_kind
  item_kind (value d) k = some (number ∷ k)
  item_kind (ident n) k = some (name ∷ k)
  item_kind (operator op) k = apply_kind op k

  -- The stack after code, or none where the code pops what is not there.
  unfoldable pub kinds : List (Item D) → List Kind → Option (List Kind)
  unfolding item_kind
  kinds [] k = some k
  kinds (i ∷ code) k = elim (item_kind i k) [ none ↦ none | some k' ↦ kinds code k' ]

  pub kinds-append :
      (xs ys : List (Item D)) (k k' : List Kind)
      → kinds xs k ≡ some k'
      → kinds (xs ++ ys) k ≡ kinds ys k'
  unfolding kinds
  kinds-append [] ys k k' h = ground arith
  kinds-append (x ∷ xs) ys k k' h = elim (Option-cases (item_kind x k)) [
    | inl n ↦ absurd (ground (arith, n))
    | inr (m, e) ↦ ground (arith, e, kinds-append xs ys m k')
  ]

  -- One more item behind code.
  pub kinds-snoc :
      (xs : List (Item D)) (i : Item D) (k k' k'' : List Kind)
      → kinds xs k ≡ some k'
      → item_kind i k' ≡ some k''
      → kinds (xs ++ i ∷ []) k ≡ some k''
  unfolding kinds
  kinds-snoc xs i k k' k'' h e = ground (arith, kinds-append xs (i ∷ []) k k' h, e)
