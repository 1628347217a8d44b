-- ===== src/Eval/Tests.antt =====
-- src/mea_eval.c run on concrete texts, with the integers in place of the doubles.
use Prim.Native.Char.{code}
use Prim.Native.String.{String}
use mea_edomus_lite.Common.{
  ℕ, suc, ◌+◌, ◌-◌, ◌*◌, ◌/◌, ◌≡◌, refl, Bool, false, Option, none, some, List, [], ◌∷◌, ◌==◌,
  if◌then◌else◌,
}
use mea_edomus_lite.Common.Int.{ℤ, pos, negsuc, ◌+ℤ◌, ◌-ℤ◌, ◌*ℤ◌}
use mea_edomus_lite.Text.Char.{is_alpha, is_digit, is_space}
use mea_edomus_lite.Eval.Outcome.{Outcome, ok, err, fault, past_end, operators_overflow}
use mea_edomus_lite.Eval.Double.{Doubles, Callbacks}
use mea_edomus_lite.Eval.Lexer.{get_token, get_space, get_operator}
use mea_edomus_lite.Eval.Compile.{Item, build_stack}
use mea_edomus_lite.Eval.Run.{calc_numeric}

abbrev pub codes : String → List ℕ
codes String.[] = []
codes (String.◌∷◌ c s) = code c ∷ codes s

-- The decimal digits at a position, after the digits of `acc`.
abbrev pub digits : ℕ → List ℕ → ℕ × List ℕ
digits acc [] = (acc, [])
digits acc (c ∷ s) =
    let more = digits (acc * 10 + (c - b'0')) s in if is_digit c then more else (acc, c ∷ s)

abbrev pub read_decimal : List ℕ → Option (ℤ × List ℕ)
read_decimal [] = none
read_decimal (c ∷ s) =
    let (n, rest) = digits (c - b'0') s in if is_digit c then some (pos n, rest) else none

abbrev pub quotient : ℤ → ℤ → ℤ
quotient (pos a) (pos b) = pos (a / b)
quotient (pos a) (negsuc b) = pos 0 -ℤ pos (a / suc b)
quotient (negsuc a) (pos b) = pos 0 -ℤ pos (suc a / b)
quotient (negsuc a) (negsuc b) = pos (suc a / suc b)

abbrev pub is_zero_ℤ : ℤ → Bool
is_zero_ℤ (pos n) = n == 0
is_zero_ℤ (negsuc n) = false

abbrev pub integers : Doubles ℤ
integers = record {
  add = ◌+ℤ◌;
  sub = ◌-ℤ◌;
  mul = ◌*ℤ◌;
  div = quotient;
  is_zero = is_zero_ℤ;
  to_int = λ n. n;
  to_long = λ n. n;
  of_int = λ n. n;
  strtod = read_decimal;
}

-- Every variable has number 7, and its value is 5.
abbrev pub one_variable : Callbacks ℤ
one_variable = record {
  get_var_val = some (λ n. if n == 7 then some (pos 5) else none);
  get_var_id = some (λ name. some 7);
}

calc : String → Outcome ℤ
unfolding calc_numeric get_token is_digit get_space is_space get_operator
calc s = calc_numeric integers one_variable (codes s)

compile : String → Outcome (List (Item ℤ))
unfolding build_stack get_token is_digit get_space is_space get_operator
compile s = build_stack integers one_variable.get_var_id (codes s)

precedence : calc "#2 + #3 * {x}" ≡ ok (pos 17)
unfolding calc ◌+ℤ◌ ◌*ℤ◌
precedence = refl

parentheses : calc " ( #2 + #3 ) * int( {x} - #1 ) " ≡ ok (pos 20)
unfolding calc is_alpha ◌+ℤ◌ ◌*ℤ◌ ◌-ℤ◌
parentheses = refl

-- 10 - 2 * 3 - 4 is 0, and is computed as 10 - (2 * 3 - 4).
wrong_grouping : calc "#10 - #2 * #3 - #4" ≡ ok (pos 8)
unfolding calc ◌+ℤ◌ ◌*ℤ◌ ◌-ℤ◌
wrong_grouping = refl

no_closing : compile "(#1 + #2" ≡ err 3
unfolding compile
no_closing = refl

trailing_operator : calc "#1 +" ≡ fault past_end
unfolding calc
trailing_operator = refl

ten_levels : calc "((((((((((#1))))))))))" ≡ ok (pos 1)
unfolding calc
ten_levels = refl

eleven_levels : compile "(((((((((((#1)))))))))))" ≡ err 2
unfolding compile
eleven_levels = refl

operators_overflow_test :
    calc "#1+#1*#1+#1*#1+#1*#1+#1*#1+#1*#1+#1*#1+#1*#1+#1*#1+#1*#1+#1*#1" ≡ fault operators_overflow
unfolding calc
operators_overflow_test = refl
