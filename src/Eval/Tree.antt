-- ===== src/Eval/Tree.antt =====
-- What an expression of src/mea_eval.c means, apart from its text and its code: a tree, its value,
-- the text that writes it with all parentheses, and the code in postfix order.
pub mod Steps
pub mod Rounds
pub mod Compiles
pub mod Runs
pub mod Chains
pub mod Grouping
pub mod Overflow
use mea_edomus_lite.Common.{
  ℕ, suc, ◌+◌, ◌≤◌, ◌<◌, ◌≡◌, ◌≢◌, Bool, true, false, Option, none, some, List, [], ◌∷◌, ◌++◌, All,
  length, ◌==◌, ◌||◌,
}
use Prim.Native.Nat.{max}
use mea_edomus_lite.Text.Char.{hash}
use mea_edomus_lite.Eval.Outcome.{Outcome, ok, ◌>>=◌}
use mea_edomus_lite.Eval.Double.{Doubles, VarIds, Callbacks}
use mea_edomus_lite.Eval.Lexer.{int_function, int_name, is_operator, value_max_str_size}
use mea_edomus_lite.Eval.Compile.{Item, value, operator, ident}
use mea_edomus_lite.Eval.Run.{do_operation, call_function, get_value}

-- A number with the text that writes it, a variable with its name and number, a use of an operator
-- and a call of the function int.
pub data Expr (D : Type 0) : Type 0 where
  num : List ℕ → D → Expr D
  var : List ℕ → ℕ → Expr D
  bin : ℕ → Expr D → Expr D → Expr D
  int : Expr D → Expr D

module _ {D : Type 0} where
  -- The code in postfix order.
  unfoldable pub postfix : Expr D → List (Item D)
  postfix (num text d) = value d ∷ []
  postfix (var name id) = ident id ∷ operator 255 ∷ []
  postfix (bin op l r) = postfix l ++ (postfix r ++ operator op ∷ [])
  postfix (int e) = postfix e ++ operator int_function ∷ []

  -- The text: an operand of an operator that is itself a use of one stands in parentheses.
  unfoldable mutual
    pub show : Expr D → List ℕ
    show (num text d) = hash ∷ text
    show (var name id) = b'{' ∷ (name ++ b'}' ∷ [])
    show (bin op l r) = show_operand l ++ op ∷ show_operand r
    show (int e) = int_name ++ b'(' ∷ (show e ++ b')' ∷ [])

    pub show_operand : Expr D → List ℕ
    show_operand (num text d) = hash ∷ text
    show_operand (var name id) = b'{' ∷ (name ++ b'}' ∷ [])
    show_operand (bin op l r) = b'(' ∷ ((show_operand l ++ op ∷ show_operand r) ++ b')' ∷ [])
    show_operand (int e) = int_name ++ b'(' ∷ (show e ++ b')' ∷ [])

  -- How deep the parentheses of the text are nested.
  unfoldable mutual
    pub level : Expr D → ℕ
    level (num text d) = 0
    level (var name id) = 0
    level (bin op l r) = max (level_operand l) (level_operand r)
    level (int e) = suc (level e)

    pub level_operand : Expr D → ℕ
    level_operand (num text d) = 0
    level_operand (var name id) = 0
    level_operand (bin op l r) = suc (max (level_operand l) (level_operand r))
    level_operand (int e) = suc (level e)

-- A number's text ends at the end of the text, at an operator and at a closing parenthesis.
abbrev pub Stops : List ℕ → Type 0
Stops [] = Unit
Stops (c ∷ s) = (is_operator c || (c == b')')) ≡ true

-- The number that the callback gives a name.
abbrev pub variable_id : VarIds → List ℕ → Option ℕ
variable_id ids name = elim ids [ none ↦ none | some get ↦ get name ]

module _ {D : Type 0} (fp : Doubles D) (cb : Callbacks D) where
  -- The value of a tree: operands from left to right, then the operation.
  unfoldable pub denote : Expr D → Outcome D
  denote (num text d) = ok d
  denote (var name id) = get_value fp cb id
  denote (bin op l r) = denote l >>= λ a. denote r >>= λ b. do_operation fp a op b
  denote (int e) = denote e >>= call_function fp int_function

module _ {D : Type 0} (fp : Doubles D) (ids : VarIds) where
  -- The names and numbers of a tree are such that its text can be read back: strtod reads each
  -- number's text up to where it stops, and each name fits its buffer and is known to the callback.
  abbrev pub IsReadable : Expr D → Type 0
  IsReadable (num text d) = (rest : List ℕ) → Stops rest → fp.strtod (text ++ rest) ≡ some (d, rest)
  IsReadable (var name id) =
      All (λ c. c ≢ b'}') name
      × (length name < value_max_str_size)
      × (variable_id ids name ≡ some id)
  IsReadable (bin op l r) = (is_operator op ≡ true) × IsReadable l × IsReadable r
  IsReadable (int e) = IsReadable e
