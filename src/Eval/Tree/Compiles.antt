-- ===== src/Eval/Tree/Compiles.antt =====
-- src/mea_eval.c: the text of a tree compiles to the tree's code in postfix order.
use mea_edomus_lite.Common.{
  ℕ, zero, suc, ◌+◌, ◌≤◌, ◌<◌, ◌≡◌, refl, true, List, [], ◌∷◌, ◌++◌, length, length-append,
  append_assoc, append-nil, map-append, arith, ap,
}
use mea_edomus_lite.Text.Char.{is_space}
use mea_edomus_lite.Eval.Outcome.{Outcome, ok}
use mea_edomus_lite.Eval.Double.{Doubles, VarIds}
use mea_edomus_lite.Eval.Lexer.{int_function, is_operator, get_space}
use mea_edomus_lite.Eval.Compile.{
  Item, operator, Code, Frame, queue_operator, operand, on_token, parenthesised, close_paren, enter,
  eval_loop, build_stack,
}
use mea_edomus_lite.Eval.Tree.{
  Expr, num, var, bin, int, show, show_operand, level, level_operand, postfix, Stops, IsReadable,
}
use mea_edomus_lite.Eval.Tree.Steps.{
  code, frame, queue-first, queue_function, get_space-Stops, get_token-int,
}
use mea_edomus_lite.Eval.Tree.Rounds.{
  before, waiting, before-waiting, get_space-show_operand, OneOperator, Closes, Closes-Stops,
  after-Closes, after-operator, ReadsOperand, ReadsText, ReadsOperand-num, ReadsOperand-var,
  eval_loop-round, length-before,
}

module _ {D : Type 0} (fp : Doubles D) (ids : VarIds) where
  module _ (op : ℕ) (l r : Expr D) (h : is_operator op ≡ true) (reads_l : ReadsOperand fp ids l)
      (reads_r : ReadsOperand fp ids r) where
    first_round :
        (f lvl : ℕ) (rest : List ℕ) (items : List (Item D))
        → lvl + level_operand l ≤ 10
        → length items + length (postfix l) < 80
        → length (show_operand l) ≤ f
        → eval_loop fp ids (suc f) lvl (show_operand l ++ op ∷ rest) (frame [] items)
          ≡ eval_loop fp ids f lvl rest (frame (op ∷ []) (items ++ postfix l))
    first_round f lvl rest items lv room fuel =
        let stops : Stops (op ∷ rest) = rw h in
        let read = reads_l f lvl (op ∷ rest) [] items stops tt lv (omega arith) fuel in
        rw
          (eval_loop-round fp ids f lvl (show_operand l ++ op ∷ rest) (frame [] items) (op ∷ rest)
            (frame (waiting l) (items ++ before l))
            (rw get_space-show_operand (rw append-nil at read)))
          (rw (get_space-Stops (op ∷ rest) stops) (
            rw
              (after-operator fp ids (eval_loop fp ids f lvl) lvl op rest l (items ++ before l) h
                (omega (arith, length-before fp ids l, length-append items (before l))))
              (rw (append_assoc, before-waiting))))

    second_round :
        (f lvl : ℕ) (rest : List ℕ) (items : List (Item D))
        → Closes lvl rest
        → lvl + level_operand r ≤ 10
        → length items + length (postfix r) < 80
        → length (show_operand r) ≤ f
        → eval_loop fp ids (suc f) lvl (show_operand r ++ rest) (frame (op ∷ []) items)
          ≡ ok (rest, code (items ++ (postfix r ++ operator op ∷ [])))
    second_round f lvl rest items closes lv room fuel =
        let stops = Closes-Stops lvl rest closes in
        let read = reads_r f lvl rest (op ∷ []) items stops h lv (omega arith) fuel in
        rw
          (eval_loop-round fp ids f lvl (show_operand r ++ rest) (frame (op ∷ []) items) rest
            (frame (waiting r ++ op ∷ []) (items ++ before r)) (rw get_space-show_operand read))
          (rw (get_space-Stops rest stops) (
            rw
              (after-Closes fp ids (eval_loop fp ids f lvl) lvl rest (waiting r ++ op ∷ [])
                (items ++ before r) closes
                (omega (
                  arith,
                  length-before fp ids r,
                  length-append items (before r),
                  length-append (waiting r) (op ∷ []),
                )))
              (rw (map-append, ← before-waiting r) (simp append_assoc))))

    ReadsText-bin : ReadsText fp ids (bin op l r)
    unfolding show postfix level
    ReadsText-bin zero lvl rest items closes lv room fuel = absurd (omega arith)
    ReadsText-bin (suc zero) lvl rest items closes lv room fuel =
        absurd (omega (arith, length-append (show_operand l) (op ∷ show_operand r)))
    ReadsText-bin (suc (suc f)) lvl rest items closes lv room fuel =
        let sizes = length-append (show_operand l) (op ∷ show_operand r) in
        let code_l = length-append (postfix l) (postfix r ++ operator op ∷ []) in
        let code_r = length-append (postfix r) (operator op ∷ []) in
        rw append_assoc (
          rw
            (first_round (suc f) lvl (show_operand r ++ rest) items (omega arith)
              (omega (arith, code_l, code_r)) (omega (arith, sizes)))
            (rw
              (second_round f lvl rest (items ++ postfix l) closes (omega arith)
                (omega (arith, code_l, code_r, length-append items (postfix l)))
                (omega (arith, sizes)))
              (rw append_assoc)))

  length-show_operand_pos : (e : Expr D) → 0 < length (show_operand e)
  unfolding show
  length-show_operand_pos (num text d) = omega arith
  length-show_operand_pos (var name id) = omega arith
  length-show_operand_pos (bin op l r) = omega arith
  length-show_operand_pos (int e) = omega arith

  length-show_pos : (e : Expr D) → 0 < length (show e)
  unfolding show
  length-show_pos (num text d) = omega arith
  length-show_pos (var name id) = omega arith
  length-show_pos (bin op l r) = omega (arith, length-append (show_operand l) (op ∷ show_operand r))
  length-show_pos (int e) = omega arith

  enter-pos :
      (loop : ℕ → List ℕ → Frame D → Outcome (List ℕ × Code D)) (lvl : ℕ) (p : List ℕ)
      (items : List (Item D))
      → 0 < length p
      → lvl ≤ 10
      → enter loop lvl p 0 (code items) ≡ loop lvl p (frame [] items)
  unfolding enter
  enter-pos loop lvl [] items h small = absurd (omega arith)
  enter-pos loop lvl (c ∷ p) items h small = ground arith

  -- An expression in parentheses.
  parenthesised-ReadsText :
      (e : Expr D)
      → ReadsText fp ids e
      → (f error lvl : ℕ) (rest ops : List ℕ) (items : List (Item D)) → lvl + suc (level e) ≤ 10
      → length items + length (postfix e) ≤ 80
      → length (show e) < f
      → parenthesised
          (enter (eval_loop fp ids f))
          error
          lvl
          (show e ++ b')' ∷ rest)
          (frame ops items)
        ≡ ok (rest, frame ops (items ++ postfix e))
  unfolding parenthesised close_paren get_space is_space
  parenthesised-ReadsText e text f error lvl rest ops items lv room fuel =
      rw
        (enter-pos (eval_loop fp ids f) (lvl + 1) (show e ++ b')' ∷ rest) items
          (omega (arith, length-show_pos e, length-append (show e) (b')' ∷ rest))) (omega arith))
        (rw (text f (lvl + 1) (b')' ∷ rest) items (refl, omega arith) (omega arith) room fuel))

  ReadsOperand-bin :
      (op : ℕ) (l r : Expr D) → ReadsText fp ids (bin op l r) → ReadsOperand fp ids (bin op l r)
  unfolding operand show level
  ReadsOperand-bin op l r text f lvl rest ops items stops one lv room fuel =
      let whole = show_operand l ++ op ∷ show_operand r in
      rw (append_assoc whole (b')' ∷ []) rest) (
        parenthesised-ReadsText (bin op l r) text f 3 lvl rest ops items lv room
          (omega (arith, length-append whole (b')' ∷ []))))

  queue_function-OneOperator :
      (ops : List ℕ) (items : List (Item D))
      → OneOperator ops
      → queue_operator int_function (frame ops items) ops ≡ ok (frame (int_function ∷ ops) items)
  queue_function-OneOperator [] items one = queue-first int_function items
  queue_function-OneOperator (op ∷ []) items one = queue_function op items one
  queue_function-OneOperator (op ∷ op' ∷ ops) items one = absurd one

  ReadsOperand-int : (e : Expr D) → ReadsText fp ids e → ReadsOperand fp ids (int e)
  unfolding operand show level on_token get_space is_space postfix
  ReadsOperand-int e text f lvl rest ops items stops one lv room fuel =
      let sizes = length-append (show e) (b')' ∷ []) in
      rw (append_assoc (show e) (b')' ∷ []) rest) (
        rw (get_token-int fp ids (show e ++ b')' ∷ rest)) (
          rw
            (parenthesised-ReadsText e text f 7 lvl rest ops items lv
              (omega (arith, length-append (postfix e) (operator int_function ∷ [])))
              (omega (arith, sizes)))
            (rw (queue_function-OneOperator ops (items ++ postfix e) one))))

  -- A text that is a single operand.
  ReadsText-operand :
      (e : Expr D)
      → show e ≡ show_operand e
      → level e ≡ level_operand e
      → ReadsOperand fp ids e
      → ReadsText fp ids e
  ReadsText-operand e same depth reads zero lvl rest items closes lv room fuel =
      absurd (omega arith)
  ReadsText-operand e same depth reads (suc f) lvl rest items closes lv room fuel =
      let stops = Closes-Stops lvl rest closes in
      let read =
        reads f lvl rest [] items stops tt (omega arith) room (omega (arith, ap length same)) in
      rw same (
        rw
          (eval_loop-round fp ids f lvl (show_operand e ++ rest) (frame [] items) rest
            (frame (waiting e) (items ++ before e))
            (rw get_space-show_operand (rw append-nil at read)))
          (rw (get_space-Stops rest stops) (
            rw
              (after-Closes fp ids (eval_loop fp ids f lvl) lvl rest (waiting e) (items ++ before e)
                closes (omega (arith, length-before fp ids e, length-append items (before e))))
              (rw (append_assoc, before-waiting)))))

  -- Every readable tree, as an operand and as a whole.
  reads_both : (e : Expr D) → IsReadable fp ids e → ReadsOperand fp ids e × ReadsText fp ids e
  unfolding show level
  reads_both (num text d) readable =
      let operand' = ReadsOperand-num fp ids text d readable in
      (operand', ReadsText-operand (num text d) refl refl operand')
  reads_both (var name id) readable =
      let operand' = ReadsOperand-var fp ids name id readable in
      (operand', ReadsText-operand (var name id) refl refl operand')
  reads_both (bin op l r) (h, readable_l, readable_r) =
      let text = ReadsText-bin op l r h (reads_both l readable_l).0 (reads_both r readable_r).0 in
      (ReadsOperand-bin op l r text, text)
  reads_both (int e) readable =
      let operand' = ReadsOperand-int e (reads_both e readable).1 in
      (operand', ReadsText-operand (int e) refl refl operand')

  -- The text of a readable tree compiles to the tree's code in postfix order, if its parentheses
  -- are at most ten deep and the code has at most eighty items.
  pub build_stack-show :
      (e : Expr D)
      → IsReadable fp ids e
      → level e ≤ 10
      → length (postfix e) ≤ 80
      → build_stack fp ids (show e) ≡ ok (postfix e)
  unfolding build_stack
  build_stack-show e readable shallow short =
      let f = suc (length (show e)) in
      let read = (reads_both e readable).1 f 0 [] [] tt (omega arith) (omega arith) (omega arith) in
      rw (enter-pos (eval_loop fp ids f) 0 (show e) [] (length-show_pos e) (omega arith))
        (rw (rw append-nil at read))
