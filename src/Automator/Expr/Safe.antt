-- ===== src/Automator/Expr/Safe.antt =====
-- src/automator.c: a function's name stays inside of its buffer, since an expression is cut to the
-- size of a value before it is looked at.
use mea_edomus_lite.Common.{
  ℕ, zero, suc, ◌+◌, ◌≤◌, ◌<◌, ◌≢◌, Option, none, some, [], ◌∷◌, ◌++◌, ◌==◌, arith, length, drop,
  Bool-cases, inl, inr, if◌then◌else◌, length-append, length-drop, length-take_short,
}
use mea_edomus_lite.Text.Trim.{skip_spaces}
use mea_edomus_lite.Automator.{Str}
use mea_edomus_lite.Automator.Values.{max_len}
use mea_edomus_lite.Automator.Calls.{
  Function, is_alnum, take_name, take_params, overrun, closed, with_params, bracket, terminated,
  function_get_num, functions_list, lookup, name_size, ncpytrim_loop, strncpytrim,
}

length-ncpytrim_loop :
    (n : ℕ) (written : Str) (p : ℕ) (s : Str)
    → length (ncpytrim_loop n written p s) ≤ length written + n
unfolding ncpytrim_loop
length-ncpytrim_loop zero written p s = omega arith
length-ncpytrim_loop (suc n) written p [] = omega (arith, length-take_short p written)
length-ncpytrim_loop (suc n) written p (c ∷ s) = omega (
  arith,
  length-ncpytrim_loop n (written ++ c ∷ []) (if c == b' ' then p else length written + 1) s,
  length-append written (c ∷ []),
)

length-strncpytrim : (s : Str) (n : ℕ) → length (strncpytrim s n) ≤ n
unfolding strncpytrim
length-strncpytrim s n = omega (arith, length-ncpytrim_loop n [] 0 (skip_spaces s))

length-take_name : (l : ℕ) (str : Str) → length (take_name l str).0 ≤ length str
unfolding take_name
length-take_name zero str = omega arith
length-take_name (suc l) [] = omega arith
length-take_name (suc l) (c ∷ str) = elim (Bool-cases (is_alnum c)) [
  | inl e ↦ rw (e) (omega (arith, length-take_name l str))
  | inr e ↦ rw (e) (omega arith)
]

closed-safe : (num : Function) (r : Str × Str) → closed num r ≢ overrun
unfolding closed
closed-safe num (params, []) = cc
closed-safe num (params, c ∷ []) = elim (Bool-cases (c == b']')) [
  | inl e ↦ rw (e) cc
  | inr e ↦ rw (e) cc
]
closed-safe num (params, c ∷ d ∷ s) = cc

with_params-safe : (found : Option Function) (str : Str) → with_params found str ≢ overrun
unfolding with_params
with_params-safe none str = cc
with_params-safe (some num) str = closed-safe num (take_params str)

bracket-safe : (fn str : Str) → bracket fn str ≢ overrun
unfolding bracket
bracket-safe fn [] = cc
bracket-safe fn (c ∷ str) = elim (Bool-cases (c == b'[')) [
  | inl e ↦ rw (e) (with_params-safe (lookup fn functions_list) str)
  | inr e ↦ rw (e) cc
]

function_get_num-short : (str : Str) → length str < name_size → function_get_num str ≢ overrun
unfolding function_get_num terminated
function_get_num-short str h =
    let r = take_name name_size str in
    elim (Bool-cases (length r.0 == name_size)) [
      | inl e ↦ absurd (ground (arith, h, length-take_name name_size str, e))
      | inr e ↦ rw (e) (bracket-safe r.0 r.1)
    ]

-- Whatever text automator_evalStr is given, function_getNum, called for what it has cut and
-- trimmed, does not write behind the buffer of the function's name.
pub function_get_num-safe :
    (str : Str) → function_get_num (drop 1 (strncpytrim str max_len)) ≢ overrun
function_get_num-safe str =
    function_get_num-short (drop 1 (strncpytrim str max_len))
      (omega (arith, length-strncpytrim str max_len, length-drop 1 (strncpytrim str max_len)))
