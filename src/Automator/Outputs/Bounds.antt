-- ===== src/Automator/Outputs/Bounds.antt =====
-- src/automator.c: the rules that automator_playOutputRules keeps, and the buffer of a message.
use mea_edomus_lite.Common.{
  ℕ, ◌≤◌, ◌≡◌, ◌≢◌, refl, ap, Bool, true, false, Option, none, some, List, [], ◌∷◌, ◌&&◌, length,
  All, arith, subst,
}
use mea_edomus_lite.Automator.{Str, Reals, Input, InputState, World}
use mea_edomus_lite.Automator.Values.{Digits}
use mea_edomus_lite.Automator.Inputs.{find_input}
use mea_edomus_lite.Automator.Outputs.{
  GetItem, Effect, OutputRun, Acted, acted, overrun, crashed, OutputRule, action_flag,
}
use mea_edomus_lite.Automator.Outputs.Play.{
  Played, played, broken, keep_rule, count_message, on_acted, on_flag, on_input, play_action,
  play_output_rules, items_of,
}

-- A condition that the code knows.
abbrev pub Known : OutputRule → Type 0
Known e = (1 ≤ e.edge) × (e.edge ≤ 4)

action_flag-Known : (edge : ℕ) (s : InputState) → 1 ≤ edge → edge ≤ 4 → action_flag edge s ≢ none
unfolding action_flag
action_flag-Known edge s low high = ground arith

module _ {D : Type 0} (rl : Reals D) (world : List Effect → World D) (digits : Digits)
    (get_item : GetItem) (source : Str) (now : ℕ × ℕ) where
  -- Where the rules were all played, they are those, and there are no more messages than rules.
  abbrev Keeps : List OutputRule → Played D → Type 0
  Keeps rules (played rules2 n s) = (rules2 ≡ rules) × (n ≤ length rules)
  Keeps rules (broken a) = Unit

  abbrev Loop : Type 0
  Loop = OutputRun D → Played D

  Keeps-keep_rule :
      (e : OutputRule) (rules : List OutputRule) (p : Played D)
      → Keeps rules p
      → Keeps (e ∷ rules) (keep_rule e p)
  Keeps-keep_rule e rules (played rules2 n s) h = (ap (λ r. e ∷ r) h.0, omega (arith, h.1))
  Keeps-keep_rule e rules (broken a) h = tt

  -- A rule that was played counts at most once.
  Keeps-count_message :
      (e : OutputRule) (rules : List OutputRule) (b : Bool) (p : Played D)
      → Keeps rules p
      → Keeps (e ∷ rules) (keep_rule e (count_message b p))
  Keeps-count_message e rules true (played rules2 n s) h = (ap (λ r. e ∷ r) h.0, omega (arith, h.1))
  Keeps-count_message e rules false (played rules2 n s) h =
      (ap (λ r. e ∷ r) h.0, omega (arith, h.1))
  Keeps-count_message e rules true (broken a) h = tt
  Keeps-count_message e rules false (broken a) h = tt

  on_acted-Keeps :
      (k : Loop) (e : OutputRule) (rules : List OutputRule) (a : Bool × Acted D)
      → ((s : OutputRun D) → Keeps rules (k s))
      → Keeps (e ∷ rules) (keep_rule e (on_acted rl world digits get_item source now k a))
  unfolding on_acted
  on_acted-Keeps k e rules (message, acted ok s) h =
      Keeps-count_message e rules (message && ok) (k s) (h s)
  on_acted-Keeps k e rules (message, overrun) h = tt
  on_acted-Keeps k e rules (message, crashed) h = tt

  on_flag-Keeps :
      (k : Loop) (e : OutputRule) (rules : List OutputRule) (flag : Option Bool) (s : OutputRun D)
      → ((r : OutputRun D) → Keeps rules (k r))
      → flag ≢ none
      → Keeps (e ∷ rules) (on_flag rl world digits get_item source now k e flag s)
  unfolding on_flag
  on_flag-Keeps k e rules none s h known = absurd (known refl)
  on_flag-Keeps k e rules (some false) s h known = Keeps-keep_rule e rules (k s) (h s)
  on_flag-Keeps k e rules (some true) s h known =
      on_acted-Keeps k e rules
        (play_action rl world digits get_item source now e.action (items_of e.parameters) s) h

  on_input-Keeps :
      (k : Loop) (e : OutputRule) (rules : List OutputRule) (i : Option (Input D)) (s : OutputRun D)
      → ((r : OutputRun D) → Keeps rules (k r))
      → Known e
      → Keeps (e ∷ rules) (on_input rl world digits get_item source now k e i s)
  unfolding on_input
  on_input-Keeps k e rules none s h known = Keeps-keep_rule e rules (k s) (h s)
  on_input-Keeps k e rules (some i) s h known =
      on_flag-Keeps k e rules (action_flag e.edge i.state) s h
        (action_flag-Known e.edge i.state known.0 known.1)

  play_output_rules-Keeps :
      (rules : List OutputRule) (s : OutputRun D)
      → All Known rules
      → Keeps rules (play_output_rules rl world digits get_item source now rules s)
  unfolding play_output_rules
  play_output_rules-Keeps [] s h = (refl, omega arith)
  play_output_rules-Keeps (e ∷ rules) s (he, h) =
      on_input-Keeps (play_output_rules rl world digits get_item source now rules) e rules
        (find_input rl e.input s.store.table) s (λ r. play_output_rules-Keeps rules r h) he

  -- Where automator_playOutputRules comes through rules whose conditions are all known, with any
  -- actions, it removes none of them and reports at most one message for each.
  pub play_output_rules-keeps :
      (rules rules2 : List OutputRule) (n : ℕ) (s s2 : OutputRun D)
      → All Known rules
      → play_output_rules rl world digits get_item source now rules s ≡ played rules2 n s2
      → (rules2 ≡ rules) × (n ≤ length rules)
  play_output_rules-keeps rules rules2 n s s2 h out =
      subst (Keeps rules) out (play_output_rules-Keeps rules s h)
