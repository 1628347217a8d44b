-- ===== src/Automator/Rules/Loops.antt =====
-- src/automator.c: the loops of automator_matchInputsRules that do not end.
use mea_edomus_lite.Common.{ℕ, zero, suc, ◌≡◌, ◌≢◌, refl, false, none, some, List, [], ◌∷◌}
use mea_edomus_lite.Automator.{
  Str, Reals, Value, undefined, Store, EvalStatus, done, absent, failed, Message, World, Condition,
  Rule,
}
use mea_edomus_lite.Common.Int.{pos}
use mea_edomus_lite.Automator.Expr.{starts_with}
use mea_edomus_lite.Automator.Rules.{
  Matched, matches, endless, eval, test_condition, conditions_loop, on_compared, Compared, Dests,
  out_of_fuel, hangs, kept, again, match_inputs_rules, rules_loop, run_rule, on_verdict, on_fields,
  on_matched, test_conditions, post_action, label_rule, assign, assigned, store_value, Post,
}

module _ {D : Type 0} (rl : Reals D) (w : World D) (msg : Message) where
  -- A condition that holds whatever was evaluated before.
  abbrev pub Always : Condition → Type 0
  Always c = (v1 v2 : Value D) (st : Store D) → (test_condition rl w msg c v1 v2 st).0 ≡ matches

  on_compared-matches :
      (k : Value D → Value D → Store D → Matched × Store D) (r : Compared rl w msg)
      → ((v1 v2 : Value D) (st : Store D) → (k v1 v2 st).0 ≡ endless)
      → r.0 ≡ matches
      → (on_compared rl w msg k r).0 ≡ endless
  unfolding on_compared
  on_compared-matches k (matches, (v1, (v2, st))) hk h = hk v1 v2 st
  on_compared-matches k (Matched.differs, (v1, (v2, st))) hk h = cc
  on_compared-matches k (Matched.incorrect, (v1, (v2, st))) hk h = cc
  on_compared-matches k (endless, (v1, (v2, st))) hk h = cc

  conditions_loop-endless :
      (fuel : ℕ) (first second c : Condition) (others cs : List Condition) (v1 v2 : Value D)
      (st : Store D)
      → Always first
      → (conditions_loop rl w msg fuel (first ∷ second ∷ others) (c ∷ cs) v1 v2 st).0 ≡ endless
  unfolding conditions_loop
  conditions_loop-endless zero first second c others cs v1 v2 st always = refl
  conditions_loop-endless (suc n) first second c others cs v1 v2 st always =
      on_compared-matches (conditions_loop rl w msg n (first ∷ second ∷ others) (second ∷ others))
        (test_condition rl w msg first v1 v2 st)
        (λ a b s. conditions_loop-endless n first second second others others a b s always)
        (always v1 v2 st)

  on_matched-endless :
      (t : ℕ × ℕ) (name value : Str) (e : Rule) (r : Matched × Store D)
      → r.0 ≡ endless
      → on_matched rl w msg t name value e r ≡ hangs
  unfolding on_matched
  on_matched-endless t name value e (matches, st) h = cc
  on_matched-endless t name value e (Matched.differs, st) h = cc
  on_matched-endless t name value e (Matched.incorrect, st) h = cc
  on_matched-endless t name value e (endless, st) h = refl

  on_fields-runs :
      (fuel : ℕ) (t : ℕ × ℕ) (name value : Str) (e : Rule) (st : Store D)
      → starts_with label_rule value ≡ false
      → on_fields rl w msg fuel t (some name) (some value) e st
        ≡ on_matched rl w msg t name value e (test_conditions rl w msg fuel e.conditions st)
  unfolding on_fields
  on_fields-runs fuel t name value e st h = rw (h) refl

  rules_loop-hangs :
      (fuel : ℕ) (t : ℕ × ℕ) (before : List Rule) (e : Rule) (rules : List Rule) (st : Store D)
      (dests : Dests)
      → ((n : ℕ) → run_rule rl w msg n t e st ≡ hangs)
      → rules_loop rl w msg fuel t before (e ∷ rules) st dests ≡ out_of_fuel
  unfolding rules_loop on_verdict
  rules_loop-hangs zero t before e rules st dests h = refl
  rules_loop-hangs (suc n) t before e rules st dests h = rw (h (suc n)) refl

  -- A rule that says `again` in every state is run for ever.
  rules_loop-again :
      (fuel : ℕ) (t : ℕ × ℕ) (before : List Rule) (e : Rule) (rules : List Rule) (st : Store D)
      (dests : Dests)
      → ((n : ℕ) (s : Store D) → (s2 : Store D) × (run_rule rl w msg n t e s ≡ kept again s2))
      → rules_loop rl w msg fuel t before (e ∷ rules) st dests ≡ out_of_fuel
  unfolding rules_loop on_verdict
  rules_loop-again zero t before e rules st dests h = refl
  rules_loop-again (suc n) t before e rules st dests h =
      rw ((h (suc n) st).1) (rules_loop-again n t before e rules (h (suc n) st).0 dests h)

  assigned-kept :
      (t : ℕ × ℕ) (name : Str) (post : Post) (status : EvalStatus) (v : Value D) (st : Store D)
      → status ≢ failed
      → (s : Store D) × (assigned rl w msg t name post status v st ≡ kept post s)
  unfolding assigned
  assigned-kept t name post done v st h = (store_value rl w msg t name v st, refl)
  assigned-kept t name post absent v st h = (store_value rl w msg t name v st, refl)
  assigned-kept t name post failed v st h = absurd (h refl)

  run_rule-again :
      (n : ℕ) (t : ℕ × ℕ) (e : Rule) (name value : Str) (st : Store D)
      → e.name ≡ some name
      → e.value ≡ some value
      → starts_with label_rule value ≡ false
      → e.conditions ≡ none
      → post_action e.onmatch ≡ again
      → (eval rl w msg value (undefined (pos 0)) st).status ≢ failed
      → (s : Store D) × (run_rule rl w msg n t e st ≡ kept again s)
  unfolding run_rule on_matched test_conditions assign
  run_rule-again n t e name value st hn hv hl hc hp hr =
      let r = eval rl w msg value (undefined (pos 0)) st in
      let made = assigned-kept t name again r.status r.value r.store hr in
      (made.0, rw (hn, hv, on_fields-runs n t name value e st hl, hc, hp) made.1)

  -- If the first rule, with a name and a value that is no label, has two conditions or more and
  -- the first of them holds in every state, automator_matchInputsRules does not end, whatever
  -- fuel it is given.
  pub match_inputs_rules-conditions :
      (fuel : ℕ) (t : ℕ × ℕ) (e : Rule) (rules : List Rule) (st : Store D) (dests : Dests)
      (name value : Str) (first second : Condition) (others : List Condition)
      → e.name ≡ some name
      → e.value ≡ some value
      → starts_with label_rule value ≡ false
      → e.conditions ≡ some (first ∷ second ∷ others)
      → Always first
      → match_inputs_rules rl w msg fuel t (e ∷ rules) st dests ≡ out_of_fuel
  unfolding match_inputs_rules run_rule test_conditions
  match_inputs_rules-conditions fuel t e rules st dests name value first second others hn hv hl hc
        always =
      rules_loop-hangs fuel t [] e rules st dests (λ n.
        rw (hn, hv, on_fields-runs n t name value e st hl, hc)
          (on_matched-endless t name value e _ (
            conditions_loop-endless n first second first others (second ∷ others)
              (undefined (pos 0)) (undefined (pos 0)) st always)))

  -- If the first rule, with a name and a value that is no label, has no conditions, a value that
  -- evaluates without an error in every state, and continue as its onmatch,
  -- automator_matchInputsRules does not end, whatever fuel it is given.
  pub match_inputs_rules-continue :
      (fuel : ℕ) (t : ℕ × ℕ) (e : Rule) (rules : List Rule) (st : Store D) (dests : Dests)
      (name value : Str)
      → e.name ≡ some name
      → e.value ≡ some value
      → starts_with label_rule value ≡ false
      → e.conditions ≡ none
      → post_action e.onmatch ≡ again
      → ((s : Store D) → (eval rl w msg value (undefined (pos 0)) s).status ≢ failed)
      → match_inputs_rules rl w msg fuel t (e ∷ rules) st dests ≡ out_of_fuel
  unfolding match_inputs_rules
  match_inputs_rules-continue fuel t e rules st dests name value hn hv hl hc hp hr =
      rules_loop-again fuel t [] e rules st dests
        (λ n s. run_rule-again n t e name value s hn hv hl hc hp (hr s))
