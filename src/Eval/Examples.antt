-- ===== src/Eval/Examples.antt =====
-- The theorems on src/mea_eval.c at concrete expressions, over the integers of Tests.
use mea_edomus_lite.Common.{
  ℕ, ◌+◌, ◌-◌, ◌*◌, ◌≤◌, ◌≡◌, ◌≢◌, refl, true, some, List, [], ◌∷◌, length, arith,
}
use mea_edomus_lite.Common.Int.{ℤ, pos}
use mea_edomus_lite.Text.Char.{is_digit, is_space}
use mea_edomus_lite.Eval.Outcome.{ok, fault, out_of_fuel, underflow, wrong_kind}
use mea_edomus_lite.Eval.Lexer.{is_operator, get_space, get_operator, get_token}
use mea_edomus_lite.Eval.Lexer.Shrinks.{StrtodAdvances}
use mea_edomus_lite.Eval.Compile.{Item, value, operator, build_stack}
use mea_edomus_lite.Eval.Compile.Kinds.{kinds, number}
use mea_edomus_lite.Eval.Compile.Total.{build_stack_total, build_stack-kinds}
use mea_edomus_lite.Eval.Run.{calcn, calc_numeric}
use mea_edomus_lite.Eval.Run.Safe.{calcn-build_stack_safe}
use mea_edomus_lite.Eval.Cache.{Cache}
use mea_edomus_lite.Eval.Tree.{
  Expr, num, var, bin, int, show, level, postfix, denote, Stops, IsReadable,
}
use mea_edomus_lite.Eval.Tree.Compiles.{build_stack-show}
use mea_edomus_lite.Eval.Tree.Runs.{cells, calc_numeric-show}
use mea_edomus_lite.Eval.Tree.Grouping.{chain, build_stack-groups_right}
use mea_edomus_lite.Eval.Tests.{digits, read_decimal, integers, one_variable}

-- One digit is read up to where a number may stop.
digit-reads :
    (c : ℕ) (rest : List ℕ)
    → is_digit c ≡ true
    → Stops rest
    → read_decimal (c ∷ rest) ≡ some (pos (c - b'0'), rest)
unfolding is_digit is_operator
digit-reads c [] h stops = ground arith
digit-reads c (x ∷ rest) h stops = ground arith

digits-advance : (n : ℕ) (s : List ℕ) → length (digits n s).1 ≤ length s
digits-advance n [] = omega arith
digits-advance n (c ∷ s) = ground (arith, digits-advance (n * 10 + (c - b'0')) s)

read_decimal-advances : StrtodAdvances integers
read_decimal-advances [] d rest h = absurd (ground arith)
read_decimal-advances (c ∷ s) d rest h = ground (arith, digits-advance (c - b'0') s)

abbrev two : Expr ℤ
two = num (b'2' ∷ []) (pos 2)

abbrev three : Expr ℤ
three = num (b'3' ∷ []) (pos 3)

-- (#2*{x})-int(#3)
abbrev sample : Expr ℤ
sample = bin b'-' (bin b'*' two (var (b'x' ∷ []) 7)) (int three)

two-reads : IsReadable integers one_variable.get_var_id two
unfolding is_digit
two-reads rest = digit-reads b'2' rest refl

three-reads : IsReadable integers one_variable.get_var_id three
unfolding is_digit
three-reads rest = digit-reads b'3' rest refl

sample-IsReadable : IsReadable integers one_variable.get_var_id sample
unfolding is_operator
sample-IsReadable = (refl, (refl, two-reads, ((omega arith, tt), omega arith, refl)), three-reads)

calc_numeric-show_example :
    calc_numeric integers one_variable (show sample) ≡ denote integers one_variable sample
unfolding level postfix cells
calc_numeric-show_example =
    calc_numeric-show integers one_variable sample sample-IsReadable (omega arith) (omega arith)
      (omega arith)

build_stack-show_example :
    build_stack integers one_variable.get_var_id (show sample) ≡ ok (postfix sample)
unfolding level postfix
build_stack-show_example =
    build_stack-show integers one_variable.get_var_id sample sample-IsReadable (omega arith)
      (omega arith)

-- #2+#3
abbrev sum_text : List ℕ
sum_text = b'#' ∷ b'2' ∷ b'+' ∷ b'#' ∷ b'3' ∷ []

abbrev sum_code : List (Item ℤ)
sum_code = value (pos 2) ∷ value (pos 3) ∷ operator b'+' ∷ []

sum_compiles : build_stack integers one_variable.get_var_id sum_text ≡ ok sum_code
unfolding build_stack get_token is_digit get_space is_space get_operator
sum_compiles = refl

build_stack_total_example : build_stack integers one_variable.get_var_id sum_text ≢ out_of_fuel
build_stack_total_example =
    build_stack_total integers one_variable.get_var_id read_decimal-advances sum_text

build_stack-kinds_example : kinds sum_code [] ≡ some (number ∷ [])
build_stack-kinds_example =
    build_stack-kinds integers one_variable.get_var_id read_decimal-advances sum_text sum_code
      sum_compiles

calcn-build_stack_safe_example :
    (calcn integers one_variable sum_code ≢ fault underflow)
    × (calcn integers one_variable sum_code ≢ fault wrong_kind)
calcn-build_stack_safe_example =
    calcn-build_stack_safe integers one_variable read_decimal-advances sum_text sum_code
      sum_compiles

-- A cache that holds #2+#3 already.
abbrev filled : Cache ℤ
filled = (sum_text, record { stack = some sum_code; error = 0 }) ∷ []

-- #2-#3*#2-#3
build_stack-groups_right_example :
    build_stack integers one_variable.get_var_id
      (chain (b'2' ∷ []) b'-' (b'3' ∷ []) b'*' (b'2' ∷ []) b'-' (b'3' ∷ []))
    ≡ ok (postfix (bin b'-' two (bin b'-' (bin b'*' three two) three)))
build_stack-groups_right_example =
    build_stack-groups_right integers one_variable.get_var_id (b'2' ∷ []) (b'3' ∷ []) (b'2' ∷ [])
      (b'3' ∷ []) (pos 2) (pos 3) (pos 2) (pos 3) two-reads three-reads two-reads three-reads b'-'
      b'*' b'-' refl refl refl
