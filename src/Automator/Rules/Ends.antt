-- ===== src/Automator/Rules/Ends.antt =====
-- src/automator.c: automator_matchInputsRules comes to its end over numbered rules of at most one
-- condition each, none of which says continue.
use mea_edomus_lite.Common.{
  ℕ, zero, suc, ◌+◌, ◌≤◌, ◌≢◌, refl, Bool, true, false, Option, none, some, List, [], ◌∷◌, arith,
  Bool-cases, inl, inr,
}
use mea_edomus_lite.Common.Int.{pos}
use mea_edomus_lite.Automator.{
  Str, Reals, Value, undefined, Store, EvalStatus, done, absent, failed, Message, World, Condition,
  Rule,
}
use mea_edomus_lite.Automator.Rules.{
  Matched, matches, endless, eval, test_condition, conditions_loop, on_compared, Compared, Dests,
  out_of_fuel, Verdict, hangs, kept, removed, again, next, stop, forward, match_inputs_rules,
  rules_loop, run_rule, on_verdict, on_fields, on_matched, on_altvalue, test_conditions,
  post_action, assign, assigned, Post, Rest, rewind, verdict_of, compare_values, with_value1,
  with_operator, with_texts, label_rule, find_dest,
}
use mea_edomus_lite.Automator.Rules.Rising.{Single, Fine, Rising, rewind-remove}
use mea_edomus_lite.Automator.Rules.Jumps.{Halts, Halting, move_forward-Halts}
use mea_edomus_lite.Automator.Values.{Comparator, get_comparator, value_cmp}
use mea_edomus_lite.Automator.Expr.{starts_with}

module _ {D : Type 0} (rl : Reals D) (w : World D) (msg : Message) (hi : ℕ) where
  -- A rule is done, and not to be run again.
  abbrev Passes : Verdict D → Type 0
  Passes v = (v ≢ hangs) × ((st : Store D) → v ≢ kept again st)

  on_verdict-Halts :
      (k : Rest rl w msg) (v : Verdict D) (before : List Rule) (e : Rule) (rules : List Rule)
      (dests : Dests) (f : Fine e)
      → Halting rl w msg hi (suc f.at) k
      → Rising 0 hi (rewind before (e ∷ rules))
      → Rising (suc f.at) hi rules
      → Passes v
      → Halts rl w msg hi (on_verdict rl w msg k v before e rules dests)
  unfolding on_verdict
  on_verdict-Halts k hangs before e rules dests f hk whole rest p = absurd (p.0 refl)
  on_verdict-Halts k (removed st) before e rules dests f hk whole rest p =
      hk before rules st dests (rewind-remove hi before e rules whole) rest
  on_verdict-Halts k (kept next st) before e rules dests f hk whole rest p =
      hk (e ∷ before) rules st dests whole rest
  on_verdict-Halts k (kept stop st) before e rules dests f hk whole rest p = cc
  on_verdict-Halts k (kept again st) before e rules dests f hk whole rest p = absurd (p.1 st refl)
  on_verdict-Halts k (kept (forward target) st) before e rules dests f hk whole rest p =
      move_forward-Halts rl w msg hi k target (find_dest target dests) before e rules st dests f hk
        whole rest

  assigned-Passes :
      (t : ℕ × ℕ) (name : Str) (post : Post) (status : EvalStatus) (v : Value D) (st : Store D)
      → post ≢ again
      → Passes (assigned rl w msg t name post status v st)
  unfolding assigned
  assigned-Passes t name post failed v st h = (cc, λ s. cc)
  assigned-Passes t name post done v st h = (cc, λ s. λ e. h cc)
  assigned-Passes t name post absent v st h = (cc, λ s. λ e. h cc)

  on_altvalue-Passes :
      (t : ℕ × ℕ) (name : Str) (e : Rule) (alt : Option Str) (st : Store D)
      → post_action e.onnotmatch ≢ again
      → Passes (on_altvalue rl w msg t name e alt st)
  unfolding on_altvalue assign
  on_altvalue-Passes t name e none st h = (cc, λ s. λ q. h cc)
  on_altvalue-Passes t name e (some text) st h =
      let r = eval rl w msg text (undefined (pos 0)) st in
      assigned-Passes t name (post_action e.onnotmatch) r.status r.value r.store h

  on_matched-Passes :
      (t : ℕ × ℕ) (name value : Str) (e : Rule) (r : Matched × Store D)
      → Fine e
      → r.0 ≢ endless
      → Passes (on_matched rl w msg t name value e r)
  unfolding on_matched assign
  on_matched-Passes t name value e (matches, st) f h =
      let r = eval rl w msg value (undefined (pos 0)) st in
      assigned-Passes t name (post_action e.onmatch) r.status r.value r.store f.match_ends
  on_matched-Passes t name value e (Matched.differs, st) f h =
      on_altvalue-Passes t name e e.altvalue st f.nomatch_ends
  on_matched-Passes t name value e (Matched.incorrect, st) f h = (cc, λ s. cc)
  on_matched-Passes t name value e (endless, st) f h = absurd (h refl)

  on_compared-last :
      (n : ℕ) (c : Condition) (r : Compared rl w msg)
      → r.0 ≢ endless
      → (on_compared rl w msg (conditions_loop rl w msg (suc n) (c ∷ []) []) r).0 ≢ endless
  unfolding on_compared conditions_loop
  on_compared-last n c (matches, (v1, (v2, st))) h = cc
  on_compared-last n c (Matched.differs, (v1, (v2, st))) h = cc
  on_compared-last n c (Matched.incorrect, (v1, (v2, st))) h = cc
  on_compared-last n c (endless, (v1, (v2, st))) h = absurd (h refl)

  verdict_of-ends : (b : Bool) → verdict_of rl w msg b ≢ endless
  verdict_of-ends true = cc
  verdict_of-ends false = cc

  compare_values-ends :
      (op : Comparator) (v1 : Value D) (s : EvalStatus) (v2 : Value D) (st : Store D)
      → (compare_values rl w msg op v1 s v2 st).0 ≢ endless
  unfolding compare_values
  compare_values-ends op v1 failed v2 st = cc
  compare_values-ends op v1 done v2 st = verdict_of-ends (value_cmp rl v1 op v2)
  compare_values-ends op v1 absent v2 st = verdict_of-ends (value_cmp rl v1 op v2)

  with_value1-ends :
      (text2 : Str) (op : Comparator) (s : EvalStatus) (v1 v2 : Value D) (st : Store D)
      → (with_value1 rl w msg text2 op s v1 v2 st).0 ≢ endless
  unfolding with_value1
  with_value1-ends text2 op failed v1 v2 st = cc
  with_value1-ends text2 op done v1 v2 st =
      let r = eval rl w msg text2 v2 st in compare_values-ends op v1 r.status r.value r.store
  with_value1-ends text2 op absent v1 v2 st =
      let r = eval rl w msg text2 v2 st in compare_values-ends op v1 r.status r.value r.store

  with_operator-ends :
      (text1 : Str) (op : Option Comparator) (text2 : Str) (v1 v2 : Value D) (st : Store D)
      → (with_operator rl w msg text1 op text2 v1 v2 st).0 ≢ endless
  unfolding with_operator
  with_operator-ends text1 none text2 v1 v2 st = cc
  with_operator-ends text1 (some op) text2 v1 v2 st =
      let r = eval rl w msg text1 v1 st in with_value1-ends text2 op r.status r.value v2 r.store

  with_texts-ends :
      (a op b : Option Str) (v1 v2 : Value D) (st : Store D)
      → (with_texts rl w msg a op b v1 v2 st).0 ≢ endless
  unfolding with_texts
  with_texts-ends none op b v1 v2 st = cc
  with_texts-ends (some a) none b v1 v2 st = cc
  with_texts-ends (some a) (some op) none v1 v2 st = cc
  with_texts-ends (some a) (some op) (some b) v1 v2 st =
      with_operator-ends a (get_comparator op) b v1 v2 st

  test_conditions-ends :
      (n : ℕ) (cs : Option (List Condition)) (st : Store D)
      → Single cs
      → (test_conditions rl w msg (suc (suc n)) cs st).0 ≢ endless
  unfolding test_conditions conditions_loop test_condition
  test_conditions-ends n none st h = cc
  test_conditions-ends n (some []) st h = cc
  test_conditions-ends n (some (c ∷ [])) st h =
      on_compared-last n c
        (with_texts rl w msg c.value1 c.op c.value2 (undefined (pos 0)) (undefined (pos 0)) st)
        (with_texts-ends c.value1 c.op c.value2 (undefined (pos 0)) (undefined (pos 0)) st)
  test_conditions-ends n (some (c ∷ d ∷ cs)) st h = absurd (omega (arith, h))

  on_fields-Passes :
      (n : ℕ) (t : ℕ × ℕ) (name value : Option Str) (e : Rule) (st : Store D)
      → Fine e
      → Passes (on_fields rl w msg (suc (suc n)) t name value e st)
  unfolding on_fields
  on_fields-Passes n t none value e st f = (cc, λ s. cc)
  on_fields-Passes n t (some name) none e st f = (cc, λ s. cc)
  on_fields-Passes n t (some name) (some value) e st f =
      elim (Bool-cases (starts_with label_rule value)) [
        | inl l ↦ rw (l) (cc, λ s. cc)
        | inr l ↦ rw (l) (
            on_matched-Passes t name value e
              (test_conditions rl w msg (suc (suc n)) e.conditions st) f
              (test_conditions-ends n e.conditions st f.single))
      ]

  rules_loop-Halts :
      (n lo : ℕ) (t : ℕ × ℕ)
      → hi + 2 ≤ n + lo
      → 1 ≤ n
      → Halting rl w msg hi lo (rules_loop rl w msg n t)
  unfolding rules_loop run_rule
  rules_loop-Halts zero lo t h h1 before rules st dests whole rest = absurd (omega (arith, h1))
  rules_loop-Halts (suc n) lo t h h1 before [] st dests whole rest = cc
  rules_loop-Halts (suc zero) lo t h h1 before (e ∷ rules) st dests whole
        (f, (from, (below, rest))) =
      absurd (omega (arith, h, from, below))
  rules_loop-Halts (suc (suc n)) lo t h h1 before (e ∷ rules) st dests whole
        (f, (from, (below, rest))) =
      on_verdict-Halts (rules_loop rl w msg (suc n) t)
        (on_fields rl w msg (suc (suc n)) t e.name e.value e st) before e rules dests f
        (rules_loop-Halts (suc n) (suc f.at) t (omega (arith, h, from)) (omega arith)) whole rest
        (on_fields-Passes n t e.name e.value e st f)

  -- automator_matchInputsRules ends, at the latest with a crash, on rules whose numbers rise and
  -- lie below a bound, of at most one condition each, none of which has continue as its post-
  -- action: two units of fuel above the bound suffice, whatever its inputs and the cached
  -- destinations of moveforward are.
  pub match_inputs_rules-ends :
      (t : ℕ × ℕ) (rules : List Rule) (st : Store D) (dests : Dests)
      → Rising 0 hi rules
      → match_inputs_rules rl w msg (hi + 2) t rules st dests ≢ out_of_fuel
  unfolding match_inputs_rules
  match_inputs_rules-ends t rules st dests h =
      rules_loop-Halts (hi + 2) 0 t (omega arith) (omega arith) [] rules st dests h h
