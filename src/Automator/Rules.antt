-- ===== src/Automator/Rules.antt =====
-- src/automator.c: automator_matchInputsRules, which runs the rules for the inputs over a message.
-- The list of rules is its part in front of the rule that is run, backwards, and the rest. Loops run
-- on fuel: some of them do not end.
pub mod Loops
pub mod Rising
pub mod Jumps
pub mod Ends
use mea_edomus_lite.Common.{
  ℕ, zero, suc, ◌-◌, Bool, true, false, Option, none, some, List, [], ◌∷◌, ◌++◌, ◌==◌, ◌&&◌, ◌||◌,
  leb, if◌then◌else◌, str_eq, take,
}
use mea_edomus_lite.Common.Int.{ℤ, pos, negsuc}
use mea_edomus_lite.Text.Char.{to_lower}
use mea_edomus_lite.Text.Trim.{skip_spaces}
use mea_edomus_lite.Automator.{
  Str, Reals, Value, number, string, boolean, undefined, Store, EvalStatus, done, absent, failed,
  Reply, Message, World, Condition, Rule, Num, numbered, other_type,
}
use mea_edomus_lite.Automator.Values.{max_len, Comparator, get_comparator, value_cmp, text_of}
use mea_edomus_lite.Automator.Inputs.{add_to_inputs_table}
use mea_edomus_lite.Automator.Expr.{eval_str, starts_with}

abbrev pub label_rule : Str
label_rule = b'<' ∷ b'L' ∷ b'A' ∷ b'B' ∷ b'E' ∷ b'L' ∷ b'>' ∷ []

abbrev pub noval_text : Str
noval_text = b'<' ∷ b'N' ∷ b'O' ∷ b'V' ∷ b'A' ∷ b'L' ∷ b'>' ∷ []

-- strncmp stops behind 8 characters.
abbrev pub display_text : Str
display_text = b'<' ∷ b'D' ∷ b'I' ∷ b'S' ∷ b'P' ∷ b'L' ∷ b'A' ∷ b'Y' ∷ []

abbrev pub break_word : Str
break_word = b'b' ∷ b'r' ∷ b'e' ∷ b'a' ∷ b'k' ∷ []

abbrev pub continue_word : Str
continue_word = b'c' ∷ b'o' ∷ b'n' ∷ b't' ∷ b'i' ∷ b'n' ∷ b'u' ∷ b'e' ∷ []

abbrev pub moveforward_word : Str
moveforward_word = b'm' ∷ b'o' ∷ b'v' ∷ b'e' ∷ b'f' ∷ b'o' ∷ b'r' ∷ b'w' ∷ b'a' ∷ b'r' ∷ b'd' ∷ []

-- The whole list, from its first part backwards and the rest.
abbrev pub rewind {ℓ} : {A : Type ℓ} → List A → List A → List A
rewind [] rules = rules
rewind (e ∷ before) rules = rewind before (e ∷ rules)

-- The loop that copies a post-action's word, and what is left of it.
unfoldable pub split_word : ℕ → Str → Str × Str
split_word zero s = ([], s)
split_word (suc n) [] = ([], [])
split_word (suc n) (c ∷ s) =
    let rest = split_word n s in if c == b' ' then ([], c ∷ s) else (to_lower c ∷ rest.0, rest.1)

-- What comes after a rule: the next one, the end, the same rule once more, or the rule of a name.
pub data Post : Type 0 where
  next : Post
  stop : Post
  again : Post
  forward : Str → Post

abbrev pub forward_to : Str → Post
forward_to [] = stop
forward_to (c ∷ s) = forward (c ∷ s)

unfoldable pub post_of : Str × Str → Post
post_of (word, []) =
    if str_eq word break_word then stop else if str_eq word continue_word then again else next
post_of (word, c ∷ s) =
    if str_eq word moveforward_word then forward_to (skip_spaces (c ∷ s)) else next

-- The branches on `onaction`.
unfoldable pub post_action : Option Str → Post
unfolding split_word post_of
post_action none = next
post_action (some text) = post_of (split_word max_len text)

-- What the conditions of a rule say. `incorrect` is a condition for which the rule is removed.
pub data Matched : Type 0 where
  matches : Matched
  differs : Matched
  incorrect : Matched
  endless : Matched

-- struct moveforward_dest_s: where a name was found before, by the rule's address.
abbrev pub Dests : Type 0
Dests = List (Str × ℕ)

pub data Finish (D : Type 0) : Type 0 where
  finished : List Rule → Store D → Dests → Finish D
  crashed : Finish D
  out_of_fuel : Finish D

-- What a rule does to the store, and what comes behind it.
pub data Verdict (D : Type 0) : Type 0 where
  removed : Store D → Verdict D
  kept : Post → Store D → Verdict D
  hangs : Verdict D

-- HASH_FIND_STR(moveforward_dests, name, md)
unfoldable pub find_dest : Str → Dests → Option ℕ
find_dest name [] = none
find_dest name ((rule, at) ∷ dests) = if str_eq rule name then some at else find_dest name dests

-- The element at an address, with what lies in front of it, backwards, and the rest behind.
unfoldable pub locate : ℕ → List Rule → List Rule → Option (List Rule × (Rule × List Rule))
locate at before [] = none
locate at before (r ∷ rules) =
    let found = locate at (r ∷ before) rules in
    if r.address == at then some (before, (r, rules)) else found

abbrev pub has_name : Str → Option Str → Bool
has_name target none = false
has_name target (some name) = str_eq name target

-- The search for the name in the rules behind.
unfoldable pub search_name : Str → List Rule → List Rule → Option (List Rule × (Rule × List Rule))
search_name target before [] = none
search_name target before (r ∷ rules) =
    let found = search_name target (r ∷ before) rules in
    if has_name target r.name then some (before, (r, rules)) else found

-- `numc->type != cJSON_Number || numn->type != cJSON_Number || numn->valueint <= numc->valueint`;
-- none is a NULL that is dereferenced.
unfoldable pub not_forward : Option Num → Option Num → Option Bool
not_forward none numn = none
not_forward (some other_type) numn = some true
not_forward (some (numbered c)) none = none
not_forward (some (numbered c)) (some other_type) = some true
not_forward (some (numbered c)) (some (numbered n)) = some (leb n c)

module _ {D : Type 0} (rl : Reals D) (w : World D) (msg : Message) where
  -- Functions' parameters call no function, so that this depth reaches all of an expression.
  abbrev pub eval : Str → Value D → Store D → Reply D
  eval = eval_str rl w msg 2

  abbrev pub Compared : Type 0
  Compared = Matched × (Value D × (Value D × Store D))

  abbrev pub verdict_of : Bool → Matched
  verdict_of true = matches
  verdict_of false = differs

  -- Behind the evaluation of value2, then of value1: a value that is absent leaves its variable.
  unfoldable pub compare_values : Comparator → Value D → EvalStatus → Value D → Store D → Compared
  compare_values op v1 failed v2 st = (incorrect, (v1, (v2, st)))
  compare_values op v1 done v2 st = (verdict_of (value_cmp rl v1 op v2), (v1, (v2, st)))
  compare_values op v1 absent v2 st = (verdict_of (value_cmp rl v1 op v2), (v1, (v2, st)))

  unfoldable pub with_value1 :
      Str → Comparator → EvalStatus → Value D → Value D → Store D → Compared
  unfolding compare_values
  with_value1 text2 op failed v1 v2 st = (incorrect, (v1, (v2, st)))
  with_value1 text2 op done v1 v2 st =
      let r = eval text2 v2 st in compare_values op v1 r.status r.value r.store
  with_value1 text2 op absent v1 v2 st =
      let r = eval text2 v2 st in compare_values op v1 r.status r.value r.store

  unfoldable pub with_operator :
      Str → Option Comparator → Str → Value D → Value D → Store D → Compared
  unfolding with_value1
  with_operator text1 none text2 v1 v2 st = (incorrect, (v1, (v2, st)))
  with_operator text1 (some op) text2 v1 v2 st =
      let r = eval text1 v1 st in with_value1 text2 op r.status r.value v2 r.store

  unfoldable pub with_texts :
      Option Str → Option Str → Option Str → Value D → Value D → Store D → Compared
  unfolding with_operator
  with_texts (some a) (some op) (some b) v1 v2 st = with_operator a (get_comparator op) b v1 v2 st
  with_texts none op b v1 v2 st = (incorrect, (v1, (v2, st)))
  with_texts (some a) none b v1 v2 st = (incorrect, (v1, (v2, st)))
  with_texts (some a) (some op) none v1 v2 st = (incorrect, (v1, (v2, st)))

  -- One condition, with the values left by the one before.
  unfoldable pub test_condition : Condition → Value D → Value D → Store D → Compared
  unfolding with_texts
  test_condition c v1 v2 st = with_texts c.value1 c.op c.value2 v1 v2 st

  -- The body behind `c=conditions->child`: it starts at the first condition again each time. `k` is
  -- the loop, at `c->next`.
  unfoldable pub on_compared :
      (Value D → Value D → Store D → Matched × Store D) → Compared → Matched × Store D
  on_compared k (matches, (v1, (v2, st))) = k v1 v2 st
  on_compared k (differs, (v1, (v2, st))) = (differs, st)
  on_compared k (incorrect, (v1, (v2, st))) = (incorrect, st)
  on_compared k (endless, (v1, (v2, st))) = (endless, st)

  -- `while(c)` over the conditions `all`, at c.
  unfoldable pub conditions_loop :
      ℕ → List Condition → List Condition → Value D → Value D → Store D → Matched × Store D
  unfolding on_compared
  conditions_loop zero all c v1 v2 st = (endless, st)
  conditions_loop (suc n) all [] v1 v2 st = (matches, st)
  conditions_loop (suc n) [] (c ∷ cs) v1 v2 st = (matches, st)
  conditions_loop (suc n) (first ∷ others) (c ∷ cs) v1 v2 st =
      on_compared (conditions_loop n (first ∷ others) others) (test_condition first v1 v2 st)

  unfoldable pub test_conditions : ℕ → Option (List Condition) → Store D → Matched × Store D
  test_conditions fuel none st = (matches, st)
  test_conditions fuel (some cs) st =
      conditions_loop fuel cs cs (undefined (pos 0)) (undefined (pos 0)) st

  -- The value goes to the table, unless it says that it does not.
  unfoldable pub store_value : ℕ × ℕ → Str → Value D → Store D → Store D
  store_value t name v st =
      if starts_with display_text (text_of rl v) || starts_with noval_text (text_of rl v)
      then st
      else record st {
        table = add_to_inputs_table rl w.stale name (some v) (some t) true none st.table;
      }

  unfoldable pub assigned : ℕ × ℕ → Str → Post → EvalStatus → Value D → Store D → Verdict D
  unfolding store_value
  assigned t name post failed v st = removed st
  assigned t name post done v st = kept post (store_value t name v st)
  assigned t name post absent v st = kept post (store_value t name v st)

  -- `if(ret<0)`, and otherwise the value of the rule.
  unfoldable pub assign : ℕ × ℕ → Str → Post → Reply D → Verdict D
  unfolding assigned
  assign t name post r = assigned t name post r.status r.value r.store

  unfoldable pub on_altvalue : ℕ × ℕ → Str → Rule → Option Str → Store D → Verdict D
  unfolding assign
  on_altvalue t name e none st = kept (post_action e.onnotmatch) st
  on_altvalue t name e (some text) st =
      assign t name (post_action e.onnotmatch) (eval text (undefined (pos 0)) st)

  unfoldable pub on_matched : ℕ × ℕ → Str → Str → Rule → Matched × Store D → Verdict D
  unfolding assign on_altvalue
  on_matched t name value e (matches, st) =
      assign t name (post_action e.onmatch) (eval value (undefined (pos 0)) st)
  on_matched t name value e (differs, st) = on_altvalue t name e e.altvalue st
  on_matched t name value e (incorrect, st) = removed st
  on_matched t name value e (endless, st) = hangs

  unfoldable pub on_fields : ℕ → ℕ × ℕ → Option Str → Option Str → Rule → Store D → Verdict D
  unfolding on_matched
  on_fields fuel t (some name) (some value) e st =
      if starts_with label_rule value
      then kept next st
      else on_matched t name value e (test_conditions fuel e.conditions st)
  on_fields fuel t none value e st = removed st
  on_fields fuel t (some name) none e st = removed st

  -- The body of `while(e)` up to the post-action.
  unfoldable pub run_rule : ℕ → ℕ × ℕ → Rule → Store D → Verdict D
  unfolding on_fields
  run_rule fuel t e st = on_fields fuel t e.name e.value e st

  abbrev pub Rest : Type 0
  Rest = List Rule → List Rule → Store D → Dests → Finish D

  -- `e=e->next`
  abbrev pub go_on : Rest → List Rule → Rule → List Rule → Store D → Dests → Finish D
  go_on k before e rules st dests = k (e ∷ before) rules st dests

  -- Behind the search: the name is remembered unless it was remembered already.
  unfoldable pub on_found :
      Rest
      → Bool
      → Str
      → Option (List Rule × (Rule × List Rule))
      → List Rule
      → Rule
      → List Rule
      → Store D
      → Dests
      → Finish D
  on_found k cached target none before e rules st dests = go_on k before e rules st dests
  on_found k cached target (some (before2, (r, rules2))) before e rules st dests =
      k before2 (r ∷ rules2) st
        (if cached then dests else dests ++ (take max_len target, r.address) ∷ [])

  unfoldable pub on_cached :
      Rest
      → Str
      → Option Bool
      → List Rule × (Rule × List Rule)
      → List Rule
      → Rule
      → List Rule
      → Store D
      → Dests
      → Finish D
  unfolding on_found
  on_cached k target none found before e rules st dests = crashed
  on_cached k target (some true) found before e rules st dests =
      on_found k true target (search_name target (e ∷ before) rules) before e rules st dests
  on_cached k target (some false) (before2, (r, rules2)) before e rules st dests =
      k before2 (r ∷ rules2) st dests

  -- md->e, which is freed where the rule was removed since.
  unfoldable pub on_located :
      Rest
      → Str
      → Option (List Rule × (Rule × List Rule))
      → List Rule
      → Rule
      → List Rule
      → Store D
      → Dests
      → Finish D
  unfolding on_cached
  on_located k target none before e rules st dests = crashed
  on_located k target (some found) before e rules st dests =
      on_cached k target (not_forward e.num found.1.0.num) found before e rules st dests

  unfoldable pub move_forward :
      Rest → Str → Option ℕ → List Rule → Rule → List Rule → Store D → Dests → Finish D
  unfolding on_found on_located
  move_forward k target none before e rules st dests =
      on_found k false target (search_name target (e ∷ before) rules) before e rules st dests
  move_forward k target (some at) before e rules st dests =
      on_located k target (locate at [] (rewind before (e ∷ rules))) before e rules st dests

  -- The branches of the post-action. After `continue`, e is the same rule.
  unfoldable pub on_verdict : Rest → Verdict D → List Rule → Rule → List Rule → Dests → Finish D
  unfolding move_forward
  on_verdict k hangs before e rules dests = out_of_fuel
  on_verdict k (removed st) before e rules dests = k before rules st dests
  on_verdict k (kept next st) before e rules dests = go_on k before e rules st dests
  on_verdict k (kept stop st) before e rules dests = finished (rewind before (e ∷ rules)) st dests
  on_verdict k (kept again st) before e rules dests = k before (e ∷ rules) st dests
  on_verdict k (kept (forward target) st) before e rules dests =
      move_forward k target (find_dest target dests) before e rules st dests

  -- `while(e)`
  unfoldable pub rules_loop : ℕ → ℕ × ℕ → Rest
  unfolding on_verdict
  rules_loop zero t before rules st dests = out_of_fuel
  rules_loop (suc n) t before [] st dests = finished (rewind before []) st dests
  rules_loop (suc n) t before (e ∷ rules) st dests =
      on_verdict (rules_loop n t) (run_rule (suc n) t e st) before e rules dests

  -- automator_matchInputsRules at the time t, with rules that are not NULL.
  unfoldable pub match_inputs_rules : ℕ → ℕ × ℕ → List Rule → Store D → Dests → Finish D
  unfolding rules_loop
  match_inputs_rules fuel t rules st dests = rules_loop fuel t [] rules st dests
