-- ===== src/Eval/Lexer/Shrinks.antt =====
-- src/mea_eval.c: what the scanning functions leave of a text is never longer, and a token or an
-- operator takes at least one character.
use mea_edomus_lite.Common.{
  ℕ, ◌<◌, ◌≤◌, ◌≡◌, some, List, [], ◌∷◌, arith, ◌≢◌, length, Option-cases, inl, inr,
}
use mea_edomus_lite.Eval.Outcome.{ok, out_of_fuel, Post, Post-of, AnyFault}
use mea_edomus_lite.Eval.Double.{Doubles, VarIds}
use mea_edomus_lite.Eval.Lexer.{
  Token, numeric, variable, function, int_function, get_space, get_operator, get_function_id,
  find_brace, take_alpha, get_number, variable_token, get_variable, get_function, get_token,
}

-- What the manual of strtod says of the end that it reports: it lies in the text.
abbrev pub StrtodAdvances : {D : Type 0} → Doubles D → Type 0
StrtodAdvances {D} fp =
    (s : List ℕ) (d : D) (rest : List ℕ) → fp.strtod s ≡ some (d, rest) → length rest ≤ length s

pub get_space_shrinks : (s : List ℕ) → length (get_space s) ≤ length s
unfolding get_space
get_space_shrinks [] = omega arith
get_space_shrinks (c ∷ s) = ground (arith, get_space_shrinks s)

pub get_operator_shrinks :
    (s : List ℕ) (op : ℕ) (rest : List ℕ)
    → get_operator s ≡ some (op, rest)
    → (length rest < length s) × (op < 128)
unfolding get_operator
get_operator_shrinks [] op rest h = absurd (ground arith)
get_operator_shrinks (c ∷ s) op rest h = ground arith

find_brace_shrinks :
    (s name rest : List ℕ) → find_brace s ≡ some (name, rest) → length rest < length s
unfolding find_brace
find_brace_shrinks [] name rest h = absurd (ground arith)
find_brace_shrinks (c ∷ s) name rest h = elim (Option-cases (find_brace s)) [
  | inl n ↦ ground (arith, n)
  | inr ((x, r), e) ↦ ground (arith, e, find_brace_shrinks s x r)
]

take_alpha_shrinks : (s : List ℕ) → length (take_alpha s).1 ≤ length s
unfolding take_alpha
take_alpha_shrinks [] = omega arith
take_alpha_shrinks (c ∷ s) = ground (arith, take_alpha_shrinks s)

module _ {D : Type 0} (fp : Doubles D) (ids : VarIds) where
  get_number_shrinks :
      StrtodAdvances fp
      → (p : List ℕ) (r : Token D × List ℕ) → get_number fp ids p ≡ ok r
      → length r.1 ≤ length p
  unfolding get_number
  get_number_shrinks advances p r h = elim (Option-cases (fp.strtod p)) [
    | inl n ↦ absurd (ground (arith, n))
    | inr ((d, rest), e) ↦ ground (arith, e, advances p d rest e)
  ]

  variable_token_shrinks :
      (name rest : List ℕ) (r : Token D × List ℕ)
      → variable_token fp ids name rest ≡ ok r
      → length r.1 ≤ length rest
  unfolding variable_token
  variable_token_shrinks name rest r h = ground arith

  get_variable_shrinks :
      (p : List ℕ) (r : Token D × List ℕ) → get_variable fp ids p ≡ ok r → length r.1 ≤ length p
  unfolding get_variable
  get_variable_shrinks p r h = elim (Option-cases (find_brace p)) [
    | inl n ↦ absurd (ground (arith, n))
    | inr ((name, rest), e) ↦
        ground (arith, e, find_brace_shrinks p name rest e, variable_token_shrinks name rest r)
  ]

  get_function_shrinks :
      (c : ℕ) (p : List ℕ) (r : Token D × List ℕ)
      → get_function fp ids c p ≡ ok r
      → length r.1 ≤ length p
  unfolding get_function get_function_id
  get_function_shrinks c [] r h = absurd (ground arith)
  get_function_shrinks c (a ∷ s) r h = ground (arith, take_alpha_shrinks s)

  get_token_shrinks :
      StrtodAdvances fp
      → (p : List ℕ) (r : Token D × List ℕ) → get_token fp ids p ≡ ok r
      → length r.1 < length p
  unfolding get_token
  get_token_shrinks advances [] r h = absurd (ground arith)
  get_token_shrinks advances (c ∷ s) r h =
      ground (
        arith,
        get_number_shrinks advances s r,
        get_variable_shrinks s r,
        get_function_shrinks c s r,
      )

  get_token_fuel : (p : List ℕ) → get_token fp ids p ≢ out_of_fuel
  unfolding get_token get_number get_variable get_function variable_token get_function_id
  get_token_fuel [] = ground arith
  get_token_fuel (c ∷ []) = ground arith
  get_token_fuel (c ∷ a ∷ s) = ground arith

  -- A token that is a function is the only one there is.
  pub get_token_function :
      (p : List ℕ) (fn : ℕ) (rest : List ℕ)
      → get_token fp ids p ≡ ok (function fn, rest)
      → fn ≡ int_function
  unfolding get_token get_number get_variable get_function variable_token get_function_id
  get_token_function [] fn rest h = absurd (ground arith)
  get_token_function (c ∷ []) fn rest h = ground arith
  get_token_function (c ∷ a ∷ s) fn rest h = ground arith

-- What is known of a token that mea_eval_getToken returns.
abbrev pub IsToken : {D : Type 0} → Token D → Type 0
IsToken (numeric d) = Unit
IsToken (variable id) = Unit
IsToken (function fn) = fn ≡ int_function

module _ {D : Type 0} (fp : Doubles D) (ids : VarIds) (advances : StrtodAdvances fp) where
  token_IsToken :
      (p : List ℕ) (t : Token D) (rest : List ℕ) → get_token fp ids p ≡ ok (t, rest) → IsToken t
  token_IsToken p (numeric d) rest h = tt
  token_IsToken p (variable id) rest h = tt
  token_IsToken p (function fn) rest h = get_token_function fp ids p fn rest h

  pub get_token-Post :
      (p : List ℕ) → Post (λ r. (length r.1 < length p) × IsToken r.0) AnyFault (get_token fp ids p)
  get_token-Post p =
      Post-of _ (get_token fp ids p)
        (λ r h. (get_token_shrinks fp ids advances p r h, token_IsToken p r.0 r.1 h))
        (get_token_fuel fp ids p)
