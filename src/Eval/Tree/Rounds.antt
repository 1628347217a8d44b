-- ===== src/Eval/Tree/Rounds.antt =====
-- src/mea_eval.c: one round of the compiler's loop on an operand of a tree.
use mea_edomus_lite.Common.{
  ℕ, suc, ◌+◌, ◌≤◌, ◌<◌, ◌≡◌, refl, true, List, [], ◌∷◌, ◌++◌, length, length-append, append_assoc,
  append-nil, map, arith,
}
use mea_edomus_lite.Text.Char.{is_space}
use mea_edomus_lite.Eval.Outcome.{Outcome, ok}
use mea_edomus_lite.Eval.Double.{Doubles, VarIds}
use mea_edomus_lite.Eval.Lexer.{int_function, is_operator, get_space, get_operator}
use mea_edomus_lite.Eval.Compile.{
  Item, value, operator, ident, Code, Frame, at_end, after_operand, operand, on_token, enter,
  eval_loop,
}
use mea_edomus_lite.Eval.Tree.{
  Expr, num, var, bin, int, show, show_operand, level, level_operand, postfix, Stops, IsReadable,
}
use mea_edomus_lite.Eval.Tree.Steps.{
  code, frame, push-frame, flush-frame, queue-behind_function, get_token-num, get_token-var,
}

module _ {D : Type 0} where
  -- The part of an operand's code that is there once it has been read, and what still waits.
  abbrev pub before : Expr D → List (Item D)
  before (int e) = postfix e
  before e = postfix e

  abbrev pub waiting : Expr D → List ℕ
  waiting (int e) = int_function ∷ []
  waiting _ = []

  pub before-waiting : (e : Expr D) → before e ++ map operator (waiting e) ≡ postfix e
  unfolding postfix
  before-waiting (num text d) = refl
  before-waiting (var name id) = refl
  before-waiting (bin op l r) = append-nil (postfix (bin op l r))
  before-waiting (int e) = refl

  pub get_space-show_operand :
      (e : Expr D) (rest : List ℕ) → get_space (show_operand e ++ rest) ≡ show_operand e ++ rest
  unfolding get_space is_space show
  get_space-show_operand (num text d) rest = refl
  get_space-show_operand (var name id) rest = refl
  get_space-show_operand (bin op l r) rest = refl
  get_space-show_operand (int e) rest = refl

-- What operators may wait where an operand is read: none or one.
abbrev pub OneOperator : List ℕ → Type 0
OneOperator [] = Unit
OneOperator (op ∷ []) = is_operator op ≡ true
OneOperator _ = ⊥

-- What may follow an expression at a level: the end, or a closing parenthesis inside one.
abbrev pub Closes : ℕ → List ℕ → Type 0
Closes lvl [] = Unit
Closes lvl (c ∷ s) = (c ≡ b')') × (0 < lvl)

pub Closes-Stops : (lvl : ℕ) (rest : List ℕ) → Closes lvl rest → Stops rest
unfolding is_operator
Closes-Stops lvl [] h = tt
Closes-Stops lvl (c ∷ rest) h = ground arith

module _ {D : Type 0} (fp : Doubles D) (ids : VarIds) where
  -- At the end of an expression everything that waits goes to the code.
  pub after-Closes :
      (next : List ℕ → Frame D → Outcome (List ℕ × Code D)) (lvl : ℕ) (rest ops : List ℕ)
      (items : List (Item D))
      → Closes lvl rest
      → length items + length ops ≤ 80
      → after_operand fp ids next lvl rest (frame ops items)
        ≡ ok (rest, code (items ++ map operator ops))
  unfolding after_operand get_operator is_operator at_end
  after-Closes next lvl [] ops items h room = rw (flush-frame ops ops items room)
  after-Closes next lvl (c ∷ rest) ops items h room = ground (arith, flush-frame ops ops items room)

  pub after-operator :
      (next : List ℕ → Frame D → Outcome (List ℕ × Code D)) (lvl op : ℕ) (r : List ℕ) (e : Expr D)
      (items : List (Item D))
      → is_operator op ≡ true
      → length items < 80
      → after_operand fp ids next lvl (op ∷ r) (frame (waiting e) items)
        ≡ next r (frame (op ∷ []) (items ++ map operator (waiting e)))
  unfolding after_operand get_operator
  after-operator next lvl op r (int e) items h room =
      rw (h, after_operand) (rw (queue-behind_function op items h room))
  after-operator next lvl op r (num text d) items h room = rw (h, after_operand) (rw append-nil)
  after-operator next lvl op r (var name id) items h room = rw (h, after_operand) (rw append-nil)
  after-operator next lvl op r (bin o x y) items h room = rw (h, after_operand) (rw append-nil)

  -- Reading the operand `e` in a frame.
  abbrev pub ReadsOperand : Expr D → Type 0
  ReadsOperand e =
      (f lvl : ℕ) (rest ops : List ℕ) (items : List (Item D))
      → Stops rest
      → OneOperator ops
      → lvl + level_operand e ≤ 10
      → length items + length (postfix e) ≤ 80
      → length (show_operand e) ≤ f
      → operand fp ids (enter (eval_loop fp ids f)) lvl (show_operand e ++ rest) (frame ops items)
        ≡ ok (rest, frame (waiting e ++ ops) (items ++ before e))

  -- Compiling the whole of `e` at a level.
  abbrev pub ReadsText : Expr D → Type 0
  ReadsText e =
      (f lvl : ℕ) (rest : List ℕ) (items : List (Item D))
      → Closes lvl rest
      → lvl + level e ≤ 10
      → length items + length (postfix e) ≤ 80
      → length (show e) < f
      → eval_loop fp ids f lvl (show e ++ rest) (frame [] items)
        ≡ ok (rest, code (items ++ postfix e))

  pub ReadsOperand-num :
      (text : List ℕ) (d : D) → IsReadable fp ids (num text d) → ReadsOperand (num text d)
  unfolding operand show on_token postfix
  ReadsOperand-num text d reads f lvl rest ops items stops one lv room fuel =
      rw (get_token-num fp ids text rest d (reads rest stops))
        (rw (push-frame (value d) ops items (omega arith)))

  pub ReadsOperand-var :
      (name : List ℕ) (id : ℕ) → IsReadable fp ids (var name id) → ReadsOperand (var name id)
  unfolding operand show on_token postfix
  ReadsOperand-var name id (no_brace, fits, known) f lvl rest ops items stops one lv room fuel =
      rw append_assoc (
        rw (get_token-var fp ids name rest id no_brace fits known) (
          rw (push-frame (ident id) ops items (omega arith)) (
            rw
              (push-frame (operator 255) ops (items ++ ident id ∷ [])
                (omega (arith, length-append items (ident id ∷ []))))
              (rw append_assoc))))

  -- One round of the loop, given what its operand reads.
  pub eval_loop-round :
      (f lvl : ℕ) (p : List ℕ) (s : Frame D) (q : List ℕ) (s' : Frame D)
      → operand fp ids (enter (eval_loop fp ids f)) lvl (get_space p) s ≡ ok (q, s')
      → eval_loop fp ids (suc f) lvl p s
        ≡ after_operand fp ids (eval_loop fp ids f lvl) lvl (get_space q) s'
  unfolding eval_loop
  eval_loop-round f lvl p s q s' h = rw h

  pub length-before : (e : Expr D) → length (before e) + length (waiting e) ≡ length (postfix e)
  unfolding postfix
  length-before (num text d) = refl
  length-before (var name id) = refl
  length-before (bin op l r) = omega arith
  length-before (int e) = omega (arith, length-append (postfix e) (operator int_function ∷ []))
