-- ===== src/Eval/Tree/Runs.antt =====
-- src/mea_eval.c: the postfix code of a tree runs to the tree's value, and so does its text.
use Prim.Native.Nat.{max}
use mea_edomus_lite.Common.{
  ℕ, suc, ◌+◌, ◌≤◌, ◌<◌, ◌≡◌, refl, true, List, [], ◌∷◌, ◌++◌, length, ltb, append_assoc,
  append-nil, arith, ◌∙◌, sym,
}
use mea_edomus_lite.Eval.Outcome.{Outcome, ok, err, fault, out_of_fuel, ◌>>=◌}
use mea_edomus_lite.Eval.Double.{Doubles, Callbacks}
use mea_edomus_lite.Eval.Lexer.{int_function, is_operator}
use mea_edomus_lite.Eval.Compile.{Item, value, operator, ident}
use mea_edomus_lite.Eval.Run.{
  Cell, val, pop_value, pop_id, do_operation, call_function, get_value, exec_item, check_room, exec,
  result, calcn, run_built, calc_numeric,
}
use mea_edomus_lite.Eval.Tree.{Expr, num, var, bin, int, show, level, postfix, denote, IsReadable}
use mea_edomus_lite.Eval.Tree.Compiles.{build_stack-show}

-- How many cells of the execution stack the code of a tree needs.
unfoldable pub cells : {D : Type 0} → Expr D → ℕ
cells (num text d) = 1
cells (var name n) = 1
cells (bin op l r) = max (cells l) (suc (cells r))
cells (int e) = cells e

cells_pos : {D : Type 0} (e : Expr D) → 0 < cells e
unfolding cells
cells_pos (num text d) = omega arith
cells_pos (var name n) = omega arith
cells_pos (bin op l r) = omega arith
cells_pos (int e) = cells_pos e

-- Only the five operators stand in a tree.
abbrev pub IsWellFormed : {D : Type 0} → Expr D → Type 0
IsWellFormed (num text d) = Unit
IsWellFormed (var name n) = Unit
IsWellFormed (bin op l r) = (is_operator op ≡ true) × IsWellFormed l × IsWellFormed r
IsWellFormed (int e) = IsWellFormed e

bind_assoc :
    {A B C : Type 0} (r : Outcome A) (f : A → Outcome B) (g : B → Outcome C)
    → (r >>= f >>= g) ≡ (r >>= λ a. f a >>= g)
bind_assoc (ok a) f g = refl
bind_assoc (err e) f g = refl
bind_assoc (fault e) f g = refl
bind_assoc out_of_fuel f g = refl

bind_congr :
    {A B : Type 0} (r : Outcome A) {f g : A → Outcome B}
    → ((a : A) → f a ≡ g a)
    → (r >>= f) ≡ (r >>= g)
bind_congr r p = λ i. r >>= λ a. p a i

module _ {D : Type 0} (fp : Doubles D) (cb : Callbacks D) where
  check_room-ok : (s : List (Cell D)) → length s < 50 → check_room s ≡ ok s
  unfolding check_room
  check_room-ok s h = ground arith

  -- A value that an item computes goes onto the stack, for which there is room.
  push_result :
      (r : Outcome D) (rest : List (Item D)) (s : List (Cell D))
      → length s < 49
      → (r >>= (λ d. ok (val d ∷ s)) >>= check_room >>= exec fp cb rest)
        ≡ (r >>= λ d. exec fp cb rest (val d ∷ s))
  push_result (ok d) rest s room = rw (check_room-ok (val d ∷ s) (omega arith))
  push_result (err e) rest s room = refl
  push_result (fault e) rest s room = refl
  push_result out_of_fuel rest s room = refl

  exec-operator :
      (op : ℕ) (a b : D) (rest : List (Item D)) (s : List (Cell D))
      → is_operator op ≡ true
      → length s < 49
      → exec fp cb (operator op ∷ rest) (val b ∷ val a ∷ s)
        ≡ (do_operation fp a op b >>= λ d. exec fp cb rest (val d ∷ s))
  unfolding exec exec_item pop_value is_operator
  exec-operator op a b rest s h room =
      let binary : ltb op 128 ≡ true = ground arith in
      rw binary (push_result (do_operation fp a op b) rest s room)

  exec-int :
      (a : D) (rest : List (Item D)) (s : List (Cell D))
      → length s < 49
      → exec fp cb (operator int_function ∷ rest) (val a ∷ s)
        ≡ (call_function fp int_function a >>= λ d. exec fp cb rest (val d ∷ s))
  unfolding exec exec_item pop_value
  exec-int a rest s room = push_result (call_function fp int_function a) rest s room

  exec-var :
      (n : ℕ) (rest : List (Item D)) (s : List (Cell D))
      → length s < 49
      → exec fp cb (ident n ∷ operator 255 ∷ rest) s
        ≡ (get_value fp cb n >>= λ d. exec fp cb rest (val d ∷ s))
  unfolding exec exec_item pop_id
  exec-var n rest s room =
      rw (check_room-ok (Cell.id n ∷ s) (omega arith)) (push_result (get_value fp cb n) rest s room)

  exec-num :
      (d : D) (rest : List (Item D)) (s : List (Cell D))
      → length s < 49
      → exec fp cb (value d ∷ rest) s ≡ exec fp cb rest (val d ∷ s)
  unfolding exec exec_item
  exec-num d rest s room = push_result (ok d) rest s room

  -- Code of a tree in front of other code leaves the tree's value, or stops with its error.
  exec-postfix :
      (e : Expr D) (rest : List (Item D)) (s : List (Cell D))
      → IsWellFormed e
      → length s + cells e < 50
      → exec fp cb (postfix e ++ rest) s ≡ (denote fp cb e >>= λ d. exec fp cb rest (val d ∷ s))
  unfolding postfix denote cells
  exec-postfix (num text d) rest s w room = exec-num d rest s (omega arith)
  exec-postfix (var name n) rest s w room = exec-var n rest s (omega arith)
  exec-postfix (bin op l r) rest s (h, wl, wr) room =
      rw (append_assoc (postfix l), append_assoc (postfix r))
        (exec-postfix l (postfix r ++ operator op ∷ rest) s wl (omega arith)
          ∙ bind_congr (denote fp cb l) (λ a.
            exec-postfix r (operator op ∷ rest) (val a ∷ s) wr (omega arith)
            ∙ bind_congr (denote fp cb r) (λ b. exec-operator op a b rest s h (omega arith))
            ∙ sym (bind_assoc (denote fp cb r) (λ b. do_operation fp a op b) _))
          ∙ sym (bind_assoc (denote fp cb l) _ _))
  exec-postfix (int e) rest s w room = rw (append_assoc (postfix e)) (
      exec-postfix e (operator int_function ∷ rest) s w (omega arith)
      ∙ bind_congr (denote fp cb e) (λ a. exec-int a rest s (omega (arith, cells_pos e)))
      ∙ sym (bind_assoc (denote fp cb e) (call_function fp int_function) _))

  exec-nil : (s : List (Cell D)) → exec fp cb [] s ≡ ok s
  unfolding exec
  exec-nil s = refl

  result-val : (r : Outcome D) → (r >>= (λ d. ok (val d ∷ [])) >>= result) ≡ r
  unfolding result
  result-val (ok d) = refl
  result-val (err e) = refl
  result-val (fault e) = refl
  result-val out_of_fuel = refl

  -- The postfix code of a tree runs to the tree's value, or stops with the tree's error or fault,
  -- if the tree needs fewer than fifty cells of the execution stack.
  pub calcn-postfix :
      (e : Expr D) → IsWellFormed e → cells e < 50 → calcn fp cb (postfix e) ≡ denote fp cb e
  unfolding calcn
  calcn-postfix e w room =
      let run = rw append-nil at (exec-postfix e [] [] w (omega arith)) in
      rw (run ∙ bind_congr (denote fp cb e) (λ d. exec-nil (val d ∷ [])))
        (result-val (denote fp cb e))

  readable-IsWellFormed : (e : Expr D) → IsReadable fp cb.get_var_id e → IsWellFormed e
  readable-IsWellFormed (num text d) r = tt
  readable-IsWellFormed (var name n) r = tt
  readable-IsWellFormed (bin op l r) (h, rl, rr) =
      (h, readable-IsWellFormed l rl, readable-IsWellFormed r rr)
  readable-IsWellFormed (int e) r = readable-IsWellFormed e r

  -- Evaluating the text of a readable tree gives the tree's value, or stops with the tree's error
  -- or fault, if its parentheses are at most ten deep, its code has at most eighty items and it
  -- needs fewer than fifty cells of the execution stack.
  pub calc_numeric-show :
      (e : Expr D)
      → IsReadable fp cb.get_var_id e
      → level e ≤ 10
      → length (postfix e) ≤ 80
      → cells e < 50
      → calc_numeric fp cb (show e) ≡ denote fp cb e
  unfolding calc_numeric run_built
  calc_numeric-show e readable shallow short room =
      rw (build_stack-show fp cb.get_var_id e readable shallow short)
        (calcn-postfix e (readable-IsWellFormed e readable) room)
