-- ===== src/Automator/Tests.antt =====
-- src/automator.c run on concrete rules and inputs, with the integers in place of the doubles, and
-- the theorems about it at concrete inputs.
use mea_edomus_lite.Common.{
  ℕ, ◌-◌, ◌≤◌, ◌≡◌, ◌≢◌, refl, Bool, true, false, not, none, some, [], ◌∷◌, ◌&&◌, arith, drop, ◌^◌,
}
use mea_edomus_lite.Common.Int.{ℤ, pos, leb_ℤ}
use mea_edomus_lite.Eval.Tests.{codes, integers}
use mea_edomus_lite.Automator.{
  Str, Reals, Value, number, boolean, undefined, Input, new, Store, World, Message,
}
use mea_edomus_lite.Automator.Values.{max_len}
use mea_edomus_lite.Text.Trim.{skip_spaces}
use mea_edomus_lite.Text.Char.{is_alpha, is_lower}
use mea_edomus_lite.Automator.Calls.{ncpytrim_loop, take_name, is_alnum, take_params}
use mea_edomus_lite.Automator.Expr.{read_input}
use mea_edomus_lite.Automator.Expr.Safe.{function_get_num-safe}
use mea_edomus_lite.Automator.Expr.Depth.{eval_str-depth}
use mea_edomus_lite.Automator.Expr.Braces.{eval_str-braces}
use mea_edomus_lite.Automator.Inputs.Ids.{my_get_var_id, my_get_var_val, float_of}
use mea_edomus_lite.Automator.Inputs.Assocs.{my_get_var_id-my_get_var_val}
use mea_edomus_lite.Automator.Calls.{
  f_timer, function_get_num, overrun, strncpytrim, lookup, functions_list,
}
use mea_edomus_lite.Automator.Inputs.{find_input}
use mea_edomus_lite.Automator.Expr.{eval_str}

abbrev pub less : ℤ → ℤ → Bool
less a b = not (leb_ℤ b a)

abbrev pub same : ℤ → ℤ → Bool
same a b = leb_ℤ a b && leb_ℤ b a

abbrev pub reals : Reals ℤ
reals = record {
  fp = integers;
  origin = pos 0;
  eq = same;
  lt = less;
  le = leb_ℤ;
  print = λ n. [];
  bytes = λ n. [];
  first_byte = λ n. pos 0;
}

abbrev pub midnight : World ℤ
midnight = record {
  now = 0;
  time = 0;
  startup_status = pos 1;
  timer_falled = λ name. false;
  time_from_str = λ s. none;
  date_from_str = λ s. none;
  sunset = pos 64800;
  sunrise = pos 21600;
  twilight_start = pos 20000;
  twilight_end = pos 66000;
  calc_by_cache = λ s st. (none, st);
  stale = pos 0;
}

abbrev pub no_message : Message
no_message = none

abbrev pub lamp : Input ℤ
lamp = record {
  name = codes "lamp";
  state = new;
  value = number (pos 3);
  id = 2 ^ 32 - 1;
  last_update = none;
}

abbrev pub store : Store ℤ
store = record { table = lamp ∷ []; next_input_id = 4; assocs = (2, codes "door") ∷ [] }

evaluate : Str → Value ℤ
unfolding eval_str
evaluate s = (eval_str reals midnight no_message 2 s (undefined (pos 0)) store).value

reads_input : evaluate (codes "  {lamp} ") ≡ number (pos 3)
unfolding evaluate find_input strncpytrim ncpytrim_loop skip_spaces
reads_input = refl

calls_exist : evaluate (codes "$exist['lamp']") ≡ boolean (pos 1)
unfolding evaluate find_input strncpytrim function_get_num ncpytrim_loop skip_spaces take_name
    is_alnum lookup take_params
calls_exist = refl

-- A call in a parameter is not understood.
nested_call : evaluate (codes "$not[$exist['lamp']]") ≡ undefined (pos 0)
unfolding evaluate find_input strncpytrim function_get_num ncpytrim_loop skip_spaces take_name
    is_alnum lookup take_params
nested_call = refl

the_lamp : find_input reals (codes "lamp") store.table ≡ some lamp
unfolding find_input
the_lamp = refl

alnum : (c : ℕ) → is_lower c ≡ true → is_alnum c ≡ true
unfolding is_alnum is_alpha is_lower
alnum c h = ground (arith, h)

lower : (c : ℕ) → b'a' ≤ c → c ≤ b'z' → is_alnum c ≡ true
unfolding is_lower
lower c h k = alnum c (ground (arith, h, k))

the_timer : lookup (codes "timer") functions_list ≡ some f_timer
unfolding lookup
the_timer = refl

function_get_num-safe_example :
    function_get_num (drop 1 (strncpytrim (codes "$now[]") max_len)) ≢ overrun
function_get_num-safe_example = function_get_num-safe (codes "$now[]")

eval_str-depth_example :
    eval_str reals midnight no_message 5 (codes "$not[{lamp}]") (undefined (pos 0)) store
    ≡ eval_str reals midnight no_message 2 (codes "$not[{lamp}]") (undefined (pos 0)) store
eval_str-depth_example =
    eval_str-depth reals midnight no_message 3 (codes "$not[{lamp}]") (undefined (pos 0)) store

eval_str-braces_example :
    (eval_str reals midnight no_message 2 (codes "{lamp}") (undefined (pos 0)) store
      ≡ read_input reals midnight no_message
          (find_input reals (codes "lamp") store.table)
          (undefined (pos 0))
          store)
    × (eval_str reals midnight no_message 2 (codes "{ lamp}") (undefined (pos 0)) store
        ≡ read_input reals midnight no_message
            (find_input reals (codes "lamp}") store.table)
            (undefined (pos 0))
            store)
eval_str-braces_example =
    eval_str-braces reals midnight no_message 1 (codes "lamp") (undefined (pos 0)) store
      (omega arith) refl

my_get_var_id-my_get_var_val_example :
    (id : ℤ) × ((st2 : Store ℤ) × ((my_get_var_id reals (pos 0) (codes "lamp") store
          ≡ (some id, st2))
        × ((my_get_var_val reals id st2 ≡ float_of reals (some lamp))
            × (my_get_var_id reals (pos 0) (codes "lamp") st2 ≡ (none, st2)))))
my_get_var_id-my_get_var_val_example =
    my_get_var_id-my_get_var_val reals (pos 0) (codes "lamp") lamp store the_lamp refl (omega arith)
      (omega arith, tt)
