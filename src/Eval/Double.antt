-- ===== src/Eval/Double.antt =====
-- The C type double and strtod, which src/mea_eval.c computes with, as a parameter: a type with the
-- operations that the evaluator applies to it.
use mea_edomus_lite.Common.{ℕ, suc, ◌-◌, ◌%◌, Bool, Option, List, ◌==◌, if◌then◌else◌}
use mea_edomus_lite.Common.Int.{ℤ, pos, negsuc}

pub record Doubles (D : Type 0) : Type 0 where
  pub add : D → D → D
  pub sub : D → D → D
  pub mul : D → D → D
  pub div : D → D → D
  -- d == 0.0
  pub is_zero : D → Bool
  -- (int)d and (long)d
  pub to_int : D → ℤ
  pub to_long : D → ℤ
  -- (double)n
  pub of_int : ℤ → D
  -- strtod(p, &n): the value and the text from n on, or none where no number starts at p
  pub strtod : List ℕ → Option (D × List ℕ)

abbrev pub magnitude : ℤ → ℕ
magnitude (pos n) = n
magnitude (negsuc n) = suc n

abbrev negate : ℕ → ℤ
negate n = if n == 0 then pos 0 else negsuc (n - 1)

-- a % b of two longs, which takes the sign of a; b is not zero.
unfoldable pub rem_long : ℤ → ℤ → ℤ
rem_long (pos a) b = pos (a % magnitude b)
rem_long (negsuc a) b = negate (suc a % magnitude b)

-- The callback that gives a variable's name its number, while an expression is compiled; `none` is
-- NULL.
abbrev pub VarIds : Type 0
VarIds = Option (List ℕ → Option ℕ)

-- The callbacks that mea_eval_setGetVarCallBacks stores. The value of a variable is asked for each
-- time that an expression is run.
pub record Callbacks (D : Type 0) : Type 0 where
  pub get_var_val : Option (ℕ → Option D)
  pub get_var_id : VarIds
