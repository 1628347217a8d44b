-- ===== src/Automator/Examples.antt =====
-- src/automator.c: the theorems about the rules at concrete rules.
use mea_edomus_lite.Common.{
  ℕ, ◌≤◌, ◌≡◌, ◌≢◌, refl, Option, none, some, List, [], ◌∷◌, arith, length,
}
use mea_edomus_lite.Common.Int.{ℤ, pos}
use mea_edomus_lite.Text.Char.{to_lower, is_upper}
use mea_edomus_lite.Text.Trim.{skip_spaces}
use mea_edomus_lite.Eval.Tests.{codes}
use mea_edomus_lite.Automator.{Str, undefined, Store, Condition, Rule, numbered, failed}
use mea_edomus_lite.Automator.Calls.{strncpytrim, ncpytrim_loop}
use mea_edomus_lite.Automator.Values.{
  get_comparator, value_cmp, compares, Digits, two_chars, value_to_str,
}
use mea_edomus_lite.Text.Compare.{strcmplower, cmplower_loop}
use mea_edomus_lite.Automator.Inputs.{find_input}
use mea_edomus_lite.Automator.Inputs.Synced.{named, kept_of}
use mea_edomus_lite.Automator.Expr.{eval_str}
use mea_edomus_lite.Automator.Rules.{
  eval, test_condition, out_of_fuel, match_inputs_rules, post_action, again, split_word, post_of,
}
use mea_edomus_lite.Automator.Rules.Ends.{match_inputs_rules-ends}
use mea_edomus_lite.Automator.Rules.Loops.{
  Always, match_inputs_rules-conditions, match_inputs_rules-continue,
}
use mea_edomus_lite.Automator.Outputs.{
  JsonItem, GetItem, send_message, OutputRun, overrun, OutputRule,
}
use mea_edomus_lite.Automator.Outputs.Play.{Played, played, play_output_rules, send_xpl2}
use mea_edomus_lite.Automator.Outputs.Bounds.{play_output_rules-keeps}
use mea_edomus_lite.Automator.Outputs.Fits.{send_xpl2-fits}
use mea_edomus_lite.Automator.Reload.{Engine, reload, reload-inputs, without_id}
use mea_edomus_lite.Automator.Tests.{reals, midnight, no_message, store}

abbrev rule : ℕ → Option Str → Option (List Condition) → Rule
rule n onmatch conditions = record {
  address = n;
  name = some (codes "lamp");
  value = some (codes "'on'");
  altvalue = none;
  onmatch = onmatch;
  onnotmatch = none;
  conditions = conditions;
  num = some (numbered n);
}

abbrev same_text : Condition
same_text = record {
  value1 = some (codes "'a'");
  op = some (codes "==");
  value2 = some (codes "'A'");
}

-- lamp is: 'on' onmatch: moveforward door
abbrev jumping : List Rule
jumping =
    rule 0 (some (codes "Moveforward door")) (some (same_text ∷ []))
    ∷ rule 1 (some (codes "break")) none
    ∷ []

no_action : post_action none ≢ again
unfolding post_action
no_action = cc

jump_action : post_action (some (codes "Moveforward door")) ≢ again
unfolding post_action split_word post_of to_lower is_upper skip_spaces
jump_action = cc

break_action : post_action (some (codes "break")) ≢ again
unfolding post_action split_word post_of to_lower is_upper
break_action = cc

continue_action : post_action (some (codes "continue")) ≡ again
unfolding post_action split_word post_of to_lower is_upper
continue_action = refl

match_inputs_rules-ends_example :
    match_inputs_rules reals midnight no_message 4 (0, 0) jumping store [] ≢ out_of_fuel
match_inputs_rules-ends_example =
    match_inputs_rules-ends reals midnight no_message 2 (0, 0) jumping store []
      (
        record {
          at = 0;
          numbered_at = refl;
          single = omega arith;
          match_ends = jump_action;
          nomatch_ends = no_action;
        },
        (
          omega arith,
          (
            omega arith,
            (
              record {
                at = 1;
                numbered_at = refl;
                single = tt;
                match_ends = break_action;
                nomatch_ends = no_action;
              },
              (omega arith, (omega arith, tt)),
            ),
          ),
        ),
      )

constant_text :
    (s : Store ℤ)
    → (eval reals midnight no_message (codes "'on'") (undefined (pos 0)) s).status ≢ failed
unfolding eval_str strncpytrim ncpytrim_loop skip_spaces
constant_text s = cc

match_inputs_rules-continue_example :
    match_inputs_rules reals midnight no_message 1000
      (0, 0)
      (rule 0 (some (codes "continue")) none ∷ [])
      store
      []
    ≡ out_of_fuel
match_inputs_rules-continue_example =
    match_inputs_rules-continue reals midnight no_message 1000 (0, 0)
      (rule 0 (some (codes "continue")) none) [] store [] (codes "lamp") (codes "'on'") refl refl
      refl refl continue_action constant_text

Always-same_text : Always reals midnight no_message same_text
unfolding test_condition get_comparator two_chars value_cmp compares eval_str strncpytrim
    ncpytrim_loop skip_spaces strcmplower cmplower_loop to_lower is_upper
Always-same_text v1 v2 st = refl

match_inputs_rules-conditions_example :
    match_inputs_rules reals midnight no_message 1000
      (0, 0)
      (rule 0 none (some (same_text ∷ same_text ∷ [])) ∷ [])
      store
      []
    ≡ out_of_fuel
match_inputs_rules-conditions_example =
    match_inputs_rules-conditions reals midnight no_message 1000 (0, 0)
      (rule 0 none (some (same_text ∷ same_text ∷ []))) [] store [] (codes "lamp") (codes "'on'")
      same_text same_text [] refl refl refl refl Always-same_text

abbrev engine : Engine ℤ
engine = record {
  inputs_rules = none;
  outputs_rules = none;
  store = store;
  dests = (codes "lamp", 0) ∷ [];
  cache = [];
  startup_status = pos 0;
}

reload-inputs_example :
    let after = (reload reals (some (some jumping, none)) engine).1 in
    (find_input reals (codes "lamp") after.store.table
      ≡ without_id reals (
          kept_of reals
            (codes "lamp")
            (named (codes "lamp") jumping)
            (find_input reals (codes "lamp") store.table)))
    × ((after.store.assocs ≡ []) × ((after.dests ≡ []) × (after.cache ≡ [])))
reload-inputs_example = reload-inputs reals (codes "lamp") jumping none engine (refl, (refl, tt))

-- lamp is new, and a message is sent that says so.
abbrev item : JsonItem
item = record { key = codes "device"; text = some (codes "'lamp'") }

abbrev on_new : OutputRule
on_new = record {
  input = codes "lamp";
  edge = 4;
  action = codes "xPLSend";
  parameters = some (item ∷ []);
}

abbrev start : OutputRun ℤ
start = record { store = store; effects = [] }

abbrev decimal : Digits
decimal n = codes "0"

abbrev first_item : GetItem
first_item items key = none

abbrev outcome : Played ℤ
outcome =
    play_output_rules reals (λ effects. midnight) decimal first_item (codes "mea-edomus.home")
      (0, 0) (on_new ∷ []) start

abbrev sent_text : Str
sent_text =
    codes
      "xpl-cmnd\n{\nhop=1\nsource=mea-edomus.home\ntarget=*\n}\ncontrol.basic\n{\ndevice=lamp\n}\n"

sends :
    outcome
    ≡ played
        (on_new ∷ [])
        1
        (record { store = store; effects = send_message sent_text (length sent_text) ∷ [] })
unfolding play_output_rules find_input strcmplower cmplower_loop to_lower eval_str strncpytrim
    ncpytrim_loop skip_spaces value_to_str
sends = refl

play_output_rules-keeps_example : (on_new ∷ [] ≡ on_new ∷ []) × (1 ≤ 1)
play_output_rules-keeps_example =
    play_output_rules-keeps reals (λ effects. midnight) decimal first_item (codes "mea-edomus.home")
      (0, 0) (on_new ∷ []) (on_new ∷ []) 1 start
      (record { store = store; effects = send_message sent_text (length sent_text) ∷ [] })
      ((omega arith, omega arith), tt) sends

send_xpl2-fits_example :
    send_xpl2 reals
      (λ effects. midnight)
      decimal
      first_item
      (codes "mea-edomus.home")
      (0, 0)
      (item ∷ item ∷ [])
      start
    ≢ overrun
send_xpl2-fits_example =
    send_xpl2-fits reals (λ effects. midnight) decimal first_item (codes "mea-edomus.home") (0, 0)
      (item ∷ item ∷ []) start (omega arith)
