-- ===== src/Eval/Run.antt =====
-- src/mea_eval.c: mea_eval_callFunction, mea_eval_doOperationN, mea_eval_calcn and
-- mea_eval_calc_numeric, which run compiled code.
pub mod Safe
use mea_edomus_lite.Common.{
  ℕ, ◌-◌, none, some, List, [], ◌∷◌, ltb, leb, ◌==◌, if◌then◌else◌, length,
}
use mea_edomus_lite.Eval.Outcome.{
  Outcome, ok, err, fault, out_of_fuel, underflow, wrong_kind, zero_division, null_call, ◌>>=◌,
}
use mea_edomus_lite.Eval.Double.{Doubles, Callbacks, rem_long, magnitude}
use mea_edomus_lite.Eval.Compile.{Item, value, operator, ident, build_stack}

-- EXEC_STACK_SIZE
abbrev pub exec_stack_size : ℕ
exec_stack_size = 50

-- One cell of exec_stack, by the member of the union that was written.
pub data Cell (D : Type 0) : Type 0 where
  val : D → Cell D
  id : ℕ → Cell D

-- `return -1;`
abbrev pub failed : ℕ
failed = 1

module _ {D : Type 0} where
  unfoldable pub pop_value : List (Cell D) → Outcome (D × List (Cell D))
  pop_value [] = fault underflow
  pop_value (id n ∷ s) = fault wrong_kind
  pop_value (val d ∷ s) = ok (d, s)

  unfoldable pub pop_id : List (Cell D) → Outcome (ℕ × List (Cell D))
  pop_id [] = fault underflow
  pop_id (val d ∷ s) = fault wrong_kind
  pop_id (id n ∷ s) = ok (n, s)

  -- `if(exec_stack_index >= EXEC_STACK_SIZE-1) return -1;`
  unfoldable pub check_room : List (Cell D) → Outcome (List (Cell D))
  check_room s = if leb exec_stack_size (length s) then err failed else ok s

  -- The end of mea_eval_calcn: exactly one cell, read as a double.
  unfoldable pub result : List (Cell D) → Outcome D
  result (val d ∷ []) = ok d
  result (id n ∷ []) = fault wrong_kind
  result _ = err failed

module _ {D : Type 0} (fp : Doubles D) where
  -- mea_eval_callFunction
  unfoldable pub call_function : ℕ → D → Outcome D
  call_function fn d1 = if fn - 128 == 0 then ok (fp.of_int (fp.to_int d1)) else err failed

  -- mea_eval_doOperationN
  unfoldable pub do_operation : D → ℕ → D → Outcome D
  do_operation d1 op d2 =
      if op == b'+'
      then ok (fp.add d1 d2)
      else if op == b'-'
      then ok (fp.sub d1 d2)
      else if op == b'/'
      then (if fp.is_zero d2 then err failed else ok (fp.div d1 d2))
      else if op == b'%'
      then (if fp.is_zero d2
          then err failed
          else if magnitude (fp.to_long d2) == 0
          then fault zero_division
          else ok (fp.of_int (rem_long (fp.to_long d1) (fp.to_long d2))))
      else if op == b'*'
      then ok (fp.mul d1 d2)
      else err failed

module _ {D : Type 0} (fp : Doubles D) (cb : Callbacks D) where
  -- _getVarVal(var_id, ...), which the run calls without a test for NULL.
  unfoldable pub get_value : ℕ → Outcome D
  get_value n = elim cb.get_var_val [
    | none ↦ fault null_call
    | some get ↦ elim (get n) [ none ↦ err failed | some d ↦ ok d ]
  ]

  -- One item of the code, without the test for overflow.
  unfoldable pub exec_item : Item D → List (Cell D) → Outcome (List (Cell D))
  unfolding pop_value pop_id call_function do_operation get_value
  exec_item (value d) s = ok (val d ∷ s)
  exec_item (ident n) s = ok (id n ∷ s)
  exec_item (operator op) s =
      if ltb op 128
      then (pop_value s >>= λ top.
          pop_value top.1 >>= λ next. do_operation fp next.0 op top.0 >>= λ d. ok (val d ∷ next.1))
      else if op == 255
      then (pop_id s >>= λ top. get_value top.0 >>= λ d. ok (val d ∷ top.1))
      else (pop_value s >>= λ top. call_function fp op top.0 >>= λ d. ok (val d ∷ top.1))

  -- The loop of mea_eval_calcn.
  unfoldable pub exec : List (Item D) → List (Cell D) → Outcome (List (Cell D))
  unfolding exec_item check_room
  exec [] s = ok s
  exec (i ∷ code) s = exec_item i s >>= check_room >>= exec code

  -- mea_eval_calcn
  unfoldable pub calcn : List (Item D) → Outcome D
  unfolding exec result
  calcn code = exec code [] >>= result

  -- `return -1` where there is no code, whatever `*err` says.
  unfoldable pub run_built : Outcome (List (Item D)) → Outcome D
  unfolding calcn
  run_built (ok code) = calcn code
  run_built (err e) = err failed
  run_built (fault f) = fault f
  run_built out_of_fuel = out_of_fuel

  -- mea_eval_calc_numeric
  unfoldable pub calc_numeric : List ℕ → Outcome D
  unfolding run_built build_stack
  calc_numeric str = run_built (build_stack fp cb.get_var_id str)
