-- ===== src/Automator/Reload.antt =====
-- src/automator.c: automator_init and automator_reload_rules_from_file, which change the rules under
-- the inputs. What cJSON makes of the file is a parameter.
use mea_edomus_lite.Common.{
  ◌≡◌, refl, ap, ◌∙◌, Bool, true, false, Option, none, some, List, [], ◌∷◌, str_eq, Bool-cases, inl,
  inr, All,
}
use mea_edomus_lite.Common.Int.{ℤ, pos}
use mea_edomus_lite.Eval.Cache.{Cache, clean_stack_cache}
use mea_edomus_lite.Automator.{Str, Reals, Input, Store, Rule}
use mea_edomus_lite.Automator.Inputs.{find_input, no_id}
use mea_edomus_lite.Automator.Inputs.Ids.{clean_id_name_assocs, reset_ids, without_ids, set_id}
use mea_edomus_lite.Automator.Inputs.Sync.{inputs_table_sync, inputs_table_init}
use mea_edomus_lite.Automator.Inputs.Synced.{Short, named, kept_of, find_input-inputs_table_sync}
use mea_edomus_lite.Automator.Rules.{Dests}
use mea_edomus_lite.Automator.Outputs.{OutputRule}

-- The engine's variables: _inputs_rules and _outputs_rules, none for NULL, the inputs, the cached
-- destinations of moveforward, the cached expressions, and startupStatus.
pub record Engine (D : Type 0) : Type 0 where
  pub inputs_rules : Option (List Rule)
  pub outputs_rules : Option (List OutputRule)
  pub store : Store D
  pub dests : Dests
  pub cache : Cache D
  pub startup_status : ℤ

-- The fields `inputs` and `outputs` of a file of rules.
abbrev pub Loaded : Type 0
Loaded = Option (List Rule) × Option (List OutputRule)

module _ {D : Type 0} (rl : Reals D) where
  -- inputs_table_sync on the engine; it returns at once where there are no rules.
  unfoldable pub synced : Option (List Rule) → Engine D → Engine D
  synced none a = a
  synced (some rules) a =
      let r = inputs_table_sync rl rules a.store.table in
      record a { inputs_rules = some r.1; store = record a.store { table = r.0 }; dests = [] }

  -- Behind inputs_table_sync: what was known of the inputs by number is forgotten.
  unfoldable pub forgotten : Engine D → Engine D
  forgotten a = record a {
    cache = clean_stack_cache a.cache;
    store = reset_ids rl (clean_id_name_assocs rl a.store);
    startup_status = pos 1;
  }

  -- automator_reload_rules_from_file: whether it returns 0, and the engine. Where the file gives
  -- nothing, the rules stay.
  unfoldable pub reload : Option Loaded → Engine D → Bool × Engine D
  unfolding synced forgotten
  reload none a = (false, a)
  reload (some loaded) a = (
    true,
    forgotten (synced loaded.0 (record a { inputs_rules = loaded.0; outputs_rules = loaded.1 })),
  )

  -- The part of automator_init in front of the rules.
  unfoldable pub cleared : Engine D → Engine D
  cleared a = record {
    inputs_rules = none;
    outputs_rules = none;
    store = record { table = []; next_input_id = a.store.next_input_id; assocs = [] };
    dests = [];
    cache = clean_stack_cache a.cache;
    startup_status = pos 1;
  }

  unfoldable pub initialised : ℤ → Option (List Rule) → Engine D → Engine D
  initialised stale none a = a
  initialised stale (some rules) a =
      let r = inputs_table_init rl stale rules a.store.table in
      record a { inputs_rules = some r.1; store = record a.store { table = r.0 } }

  -- automator_init
  unfoldable pub automator_init : ℤ → Option Loaded → Engine D → Bool × Engine D
  unfolding cleared initialised
  automator_init stale none a = (false, cleared a)
  automator_init stale (some loaded) a = (
    true,
    initialised stale loaded.0
        (record (cleared a) { inputs_rules = loaded.0; outputs_rules = loaded.1 }),
  )

  abbrev pub without_id : Option (Input D) → Option (Input D)
  without_id none = none
  without_id (some e) = some (set_id rl no_id e)

  find_input-without_ids :
      (x : Str) (table : List (Input D))
      → find_input rl x (without_ids rl table) ≡ without_id (find_input rl x table)
  unfolding find_input without_ids
  find_input-without_ids x [] = refl
  find_input-without_ids x (e ∷ table) = elim (Bool-cases (str_eq e.name x)) [
    | inl q ↦ rw (q) refl
    | inr q ↦ rw (q) (find_input-without_ids x table)
  ]

  -- Where the names of the new rules for inputs fit into the table,
  -- automator_reload_rules_from_file leaves in it just the inputs that a rule with a name and a
  -- value names, with the state and the value that they had before, or new and N/A, none of them
  -- with a number, and forgets the associations, the destinations of moveforward and the
  -- compiled expressions.
  pub reload-inputs :
      (x : Str) (rules : List Rule) (outs : Option (List OutputRule)) (a : Engine D)
      → All (λ e. Short e.name) rules
      → (find_input rl x (reload (some (some rules, outs)) a).1.store.table
          ≡ without_id (kept_of rl x (named x rules) (find_input rl x a.store.table)))
        × (((reload (some (some rules, outs)) a).1.store.assocs ≡ [])
            × (((reload (some (some rules, outs)) a).1.dests ≡ [])
                × ((reload (some (some rules, outs)) a).1.cache ≡ [])))
  unfolding reload forgotten synced reset_ids clean_id_name_assocs clean_stack_cache
  reload-inputs x rules outs a h = (
    find_input-without_ids x (inputs_table_sync rl rules a.store.table).0
        ∙ ap without_id (find_input-inputs_table_sync rl x rules a.store.table h),
    (refl, (refl, refl)),
  )
