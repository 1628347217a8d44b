-- ===== src/Eval/Compile/Total.antt =====
-- src/mea_eval.c: the loop of _evalCalcN by induction on its fuel.
use mea_edomus_lite.Common.{
  ℕ, zero, suc, ◌<◌, ◌≡◌, ◌≢◌, refl, some, List, [], ◌∷◌, ◌==◌, ltb, arith, length,
}
use mea_edomus_lite.Eval.Outcome.{
  Outcome, ok, out_of_fuel, Post, returns, fails, faults, Post-bind, Post-mono, Post-if, Post-ok,
  Post-fuel, AnyFault,
}
use mea_edomus_lite.Eval.Double.{Doubles, VarIds}
use mea_edomus_lite.Eval.Lexer.{get_space}
use mea_edomus_lite.Eval.Lexer.Shrinks.{StrtodAdvances, get_space_shrinks}
use mea_edomus_lite.Eval.Compile.{
  Item, Code, Frame, enter, eval_loop, build_stack, empty_code, max_level,
}
use mea_edomus_lite.Eval.Compile.Kinds.{Kind, number, kinds}
use mea_edomus_lite.Eval.Compile.Balanced.{Balanced}
use mea_edomus_lite.Eval.Compile.Pieces.{Inner, Runs, operand-Balanced, after_operand-Balanced}

module _ {D : Type 0} (fp : Doubles D) (ids : VarIds) (advances : StrtodAdvances fp) where
  enter-Runs :
      (n : ℕ) (loop : ℕ → List ℕ → Frame D → Outcome (List ℕ × Code D))
      → ((lvl : ℕ) (p : List ℕ) (s : Frame D) (base : List Kind)
          → length p < n
          → Balanced base 0 s
          → Post (Inner base p) AnyFault (loop lvl p s))
      → Runs n (enter loop)
  unfolding enter
  enter-Runs n loop go lvl [] stack code base short made = fails
  enter-Runs n loop go lvl (c ∷ p) stack code base short made =
      Post-if (ltb max_level lvl) (λ _. fails)
        λ _.
          go lvl (c ∷ p) (record { operators = []; stack = stack; code = code }) base short
            (record { doubles = 0; count = omega arith; queued = tt; makes = made })

  eval_loop-Inner :
      (f lvl : ℕ) (p : List ℕ) (s : Frame D) (base : List Kind)
      → length p < f
      → Balanced base 0 s
      → Post (Inner base p) AnyFault (eval_loop fp ids f lvl p s)
  unfolding eval_loop
  eval_loop-Inner zero lvl p s base short b = absurd (omega arith)
  eval_loop-Inner (suc f) lvl p s base short b =
      Post-bind
        (operand-Balanced fp ids base f (enter (eval_loop fp ids f))
          (enter-Runs f (eval_loop fp ids f) (eval_loop-Inner f)) advances lvl (get_space p) s
          (omega (arith, get_space_shrinks p)) b)
        λ r (len, b').
          Post-mono
            (after_operand-Balanced fp ids base (eval_loop fp ids f lvl) lvl (get_space r.0) r.1
              (λ q s' less.
                eval_loop-Inner f lvl q s' base
                  (omega (arith, less, len, get_space_shrinks p, get_space_shrinks r.0)))
              b')
            λ a (len', made).
              (omega (arith, len, len', get_space_shrinks p, get_space_shrinks r.0), made)

-- The evaluator on any text, with whatever callbacks are set.
module _ {D : Type 0} (fp : Doubles D) (ids : VarIds) where
  build_stack-Post :
      StrtodAdvances fp
      → (str : List ℕ)
      → Post (λ code. kinds code [] ≡ some (number ∷ [])) AnyFault (build_stack fp ids str)
  unfolding build_stack kinds
  build_stack-Post advances str =
      Post-bind
        (enter-Runs fp ids advances (suc (length str)) (eval_loop fp ids (suc (length str)))
          (eval_loop-Inner fp ids advances (suc (length str))) 0 str 0 empty_code [] (omega arith)
          refl)
        λ r (len, made). Post-if (r.1.block == 0) (λ _. returns made) (λ _. faults tt)

  -- Compilation ends on every text: the fuel that the model gives it always suffices.
  pub build_stack_total : StrtodAdvances fp → (str : List ℕ) → build_stack fp ids str ≢ out_of_fuel
  build_stack_total advances str = Post-fuel (build_stack-Post advances str)

  -- Whatever text compiles, its code leaves exactly one double on an empty execution stack, and
  -- every operator in it finds its operands there, of the kind that it reads.
  pub build_stack-kinds :
      StrtodAdvances fp
      → (str : List ℕ) (code : List (Item D)) → build_stack fp ids str ≡ ok code
      → kinds code [] ≡ some (number ∷ [])
  build_stack-kinds advances str code h = Post-ok (build_stack-Post advances str) h
