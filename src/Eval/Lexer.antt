-- ===== src/Eval/Lexer.antt =====
-- src/mea_eval.c: mea_eval_getSpace, mea_eval_getOperatorN, mea_eval_getFunctionId and
-- mea_eval_getToken. A position in the text is the text from there on.
pub mod Shrinks
use mea_edomus_lite.Common.{
  ℕ, ◌%◌, Bool, Option, none, some, List, [], ◌∷◌, ◌||◌, ltb, leb, ◌==◌, if◌then◌else◌, str_eq,
  length, take,
}
use mea_edomus_lite.Text.Char.{is_space, is_alpha, hash}
use mea_edomus_lite.Eval.Outcome.{
  Outcome, ok, err, fault, past_end, name_overflow, negative_length, uninitialised, ◌>>=◌,
}
use mea_edomus_lite.Eval.Double.{Doubles, VarIds}

-- mea_eval_getSpace
unfoldable pub get_space : List ℕ → List ℕ
get_space [] = []
get_space (c ∷ s) = if is_space c then get_space s else c ∷ s

-- The cases of the switch in mea_eval_getOperatorN.
unfoldable pub is_operator : ℕ → Bool
is_operator c = (c == b'+') || (c == b'-') || (c == b'*') || (c == b'/') || (c == b'%')

-- mea_eval_getOperatorN: the operator and the text behind it, or none for -1.
unfoldable pub get_operator : List ℕ → Option (ℕ × List ℕ)
unfolding is_operator
get_operator [] = none
get_operator (c ∷ s) = if is_operator c then some (c, s) else none

-- The number 128 + INT_F of the only function, and the code of a variable's lookup.
abbrev pub int_function : ℕ
int_function = 128

abbrev pub int_name : List ℕ
int_name = b'i' ∷ b'n' ∷ b't' ∷ []

-- mea_eval_getFunctionId(str, (int16_t)(p-str)), `name` being the text from str to p; none for -1.
unfoldable pub get_function_id : List ℕ → Outcome (Option ℕ)
get_function_id name =
    let l = length name % 65536 in
    if ltb 32767 l
    then fault negative_length
    else if ltb 1024 l
    then ok none
    else if str_eq (take l name) int_name
    then ok (some int_function)
    else ok none

pub data Token (D : Type 0) : Type 0 where
  numeric : D → Token D
  variable : ℕ → Token D
  function : ℕ → Token D

-- The loop to the closing brace: the name before it and the text behind it.
unfoldable pub find_brace : List ℕ → Option (List ℕ × List ℕ)
find_brace [] = none
find_brace (c ∷ s) =
    let more = find_brace s in
    if c == b'}'
    then some ([], s)
    else elim more [ none ↦ none | some (name, rest) ↦ some (c ∷ name, rest) ]

-- The loop over letters: those and the text behind them.
unfoldable pub take_alpha : List ℕ → List ℕ × List ℕ
take_alpha [] = ([], [])
take_alpha (c ∷ s) =
    let more = take_alpha s in if is_alpha c then (c ∷ more.0, more.1) else ([], c ∷ s)

-- VALUE_MAX_STR_SIZE, the size of the buffer for a variable's name.
abbrev pub value_max_str_size : ℕ
value_max_str_size = 101

-- Every -1 of mea_eval_getToken is reported by its only caller as error 4.
abbrev pub no_operand : ℕ
no_operand = 4

module _ {D : Type 0} (fp : Doubles D) (ids : VarIds) where
  -- case '#'
  unfoldable pub get_number : List ℕ → Outcome (Token D × List ℕ)
  get_number p = elim (fp.strtod p) [
    | none ↦ err no_operand
    | some (d, rest) ↦ ok (numeric d, rest)
  ]

  -- The number of a variable; with no callback `v->var_id` is left as it was.
  unfoldable pub variable_token : List ℕ → List ℕ → Outcome (Token D × List ℕ)
  variable_token name rest =
      if leb value_max_str_size (length name) then fault name_overflow else elim ids [
        | none ↦ fault uninitialised
        | some get ↦ elim (get name) [ none ↦ err no_operand | some id ↦ ok (variable id, rest) ]
      ]

  -- case '{'
  unfoldable pub get_variable : List ℕ → Outcome (Token D × List ℕ)
  unfolding find_brace variable_token
  get_variable p = elim (find_brace p) [
    | none ↦ err no_operand
    | some (name, rest) ↦ variable_token name rest
  ]

  -- The default case: the first character is taken whatever it is, the second must be a letter.
  unfoldable pub get_function : ℕ → List ℕ → Outcome (Token D × List ℕ)
  unfolding take_alpha get_function_id
  get_function c [] = err no_operand
  get_function c (a ∷ s) =
      let name = take_alpha s in
      if is_alpha a
      then (get_function_id (c ∷ a ∷ name.0) >>= λ found. elim found [
        | none ↦ err no_operand
        | some id ↦ ok (function id, name.1)
      ])
      else err no_operand

  -- mea_eval_getToken. At the end of the text the default case reads behind the NUL.
  unfoldable pub get_token : List ℕ → Outcome (Token D × List ℕ)
  unfolding get_number get_variable get_function
  get_token [] = fault past_end
  get_token (c ∷ s) =
      if c == hash then get_number s else if c == b'{' then get_variable s else get_function c s
