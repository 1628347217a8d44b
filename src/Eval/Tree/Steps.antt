-- ===== src/Eval/Tree/Steps.antt =====
-- src/mea_eval.c: the single steps of the compiler on a frame whose code still fits its first block.
use mea_edomus_lite.Common.{
  ℕ, ◌+◌, ◌≤◌, ◌<◌, ◌≡◌, ◌≢◌, refl, true, some, List, [], ◌∷◌, ◌++◌, All, length, length-append,
  append_assoc, append-nil, map, arith,
}
use mea_edomus_lite.Text.Char.{hash, is_space, is_alpha}
use mea_edomus_lite.Eval.Outcome.{ok}
use mea_edomus_lite.Eval.Double.{Doubles, VarIds}
use mea_edomus_lite.Eval.Lexer.{
  int_function, int_name, is_operator, value_max_str_size, get_space, get_token, get_number,
  get_variable, get_function, variable_token, find_brace, numeric, variable, function,
}
use mea_edomus_lite.Eval.Compile.{
  Item, operator, Code, Frame, push, queue_operator, flush, binds_no_tighter,
}
use mea_edomus_lite.Eval.Tree.{Stops, variable_id}

module _ {D : Type 0} where
  abbrev pub code : List (Item D) → Code D
  code items = record { items = items; size = 80; block = 0 }

  abbrev pub frame : List ℕ → List (Item D) → Frame D
  frame ops items = record { operators = ops; stack = 0; code = code items }

  pub push-frame :
      (i : Item D) (ops : List ℕ) (items : List (Item D))
      → length items < 80
      → push i (frame ops items) ≡ ok (frame ops (items ++ i ∷ []))
  unfolding push
  push-frame i ops items h = ground arith

  pub flush-frame :
      (ops below : List ℕ) (items : List (Item D))
      → length items + length ops ≤ 80
      → flush ops (frame below items) ≡ ok (frame below (items ++ map operator ops))
  unfolding flush
  flush-frame [] below items h = rw append-nil
  flush-frame (op ∷ ops) below items h =
      let rest =
        flush-frame ops below (items ++ operator op ∷ [])
          (omega (arith, length-append items (operator op ∷ []))) in
      rw (push-frame (operator op) below items (omega arith), rest, append_assoc)

  -- An operator behind an operand: a function that waits is moved to the code.
  pub queue-first :
      (op : ℕ) (items : List (Item D))
      → queue_operator op (frame [] items) [] ≡ ok (frame (op ∷ []) items)
  unfolding queue_operator
  queue-first op items = refl

  pub queue-behind_function :
      (op : ℕ) (items : List (Item D))
      → is_operator op ≡ true
      → length items < 80
      → queue_operator op (frame (int_function ∷ []) items) (int_function ∷ [])
        ≡ ok (frame (op ∷ []) (items ++ operator int_function ∷ []))
  unfolding queue_operator binds_no_tighter is_operator
  queue-behind_function op items h room =
      ground (arith, push-frame (operator int_function) (int_function ∷ []) items room)

  -- A function behind an operator waits on top of it.
  pub queue_function :
      (op : ℕ) (items : List (Item D))
      → is_operator op ≡ true
      → queue_operator int_function (frame (op ∷ []) items) (op ∷ [])
        ≡ ok (frame (int_function ∷ op ∷ []) items)
  unfolding queue_operator binds_no_tighter is_operator
  queue_function op items h = ground arith

-- No text of a tree begins with a space, nor does what may follow one.
pub get_space-Stops : (rest : List ℕ) → Stops rest → get_space rest ≡ rest
unfolding get_space is_space is_operator
get_space-Stops [] h = refl
get_space-Stops (c ∷ rest) h = ground arith

find_brace-name :
    (name rest : List ℕ)
    → All (λ c. c ≢ b'}') name
    → find_brace (name ++ b'}' ∷ rest) ≡ some (name, rest)
unfolding find_brace
find_brace-name [] rest h = refl
find_brace-name (c ∷ name) rest h = ground (arith, h.0, find_brace-name name rest h.1)

module _ {D : Type 0} (fp : Doubles D) (ids : VarIds) where
  pub get_token-num :
      (text rest : List ℕ) (d : D)
      → fp.strtod (text ++ rest) ≡ some (d, rest)
      → get_token fp ids (hash ∷ text ++ rest) ≡ ok (numeric d, rest)
  unfolding get_token get_number
  get_token-num text rest d h = ground (arith, h)

  pub get_token-var :
      (name rest : List ℕ) (id : ℕ)
      → All (λ c. c ≢ b'}') name
      → length name < value_max_str_size
      → variable_id ids name ≡ some id
      → get_token fp ids (b'{' ∷ (name ++ b'}' ∷ rest)) ≡ ok (variable id, rest)
  unfolding get_token get_variable variable_token
  get_token-var name rest id no_brace fits known =
      ground (arith, known, find_brace-name name rest no_brace)

  pub get_token-int :
      (rest : List ℕ)
      → get_token fp ids (int_name ++ b'(' ∷ rest) ≡ ok (function int_function, b'(' ∷ rest)
  unfolding get_token get_function is_alpha
  get_token-int rest = refl
