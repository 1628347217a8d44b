-- ===== src/Automator/Inputs/Sync.antt =====
-- src/automator.c: inputs_table_init and inputs_table_sync, which make the table of the inputs that
-- a list of rules names.
use mea_edomus_lite.Common.{
  Bool, true, false, Option, none, some, List, [], ◌∷◌, ◌++◌, if◌then◌else◌, str_eq, take,
}
use mea_edomus_lite.Common.Int.{ℤ}
use mea_edomus_lite.Automator.{Str, Reals, string, Input, new, Rule}
use mea_edomus_lite.Automator.Values.{max_len}
use mea_edomus_lite.Automator.Inputs.{find_input, add_to_inputs_table, no_id}

-- "N/A"
abbrev pub not_available : Str
not_available = b'N' ∷ b'/' ∷ b'A' ∷ []

-- The rules that have a name and a value; the others are removed from the list.
unfoldable pub complete : Option Str → Option Str → Bool
complete (some name) (some value) = true
complete none value = false
complete (some name) none = false

unfoldable pub complete_rules : List Rule → List Rule
unfolding complete
complete_rules [] = []
complete_rules (e ∷ rules) =
    if complete e.name e.value then e ∷ complete_rules rules else complete_rules rules

module _ {D : Type 0} (rl : Reals D) where
  -- HASH_DEL of the element that HASH_FIND_STR finds
  unfoldable pub delete : Str → List (Input D) → List (Input D)
  delete name [] = []
  delete name (e ∷ table) = if str_eq e.name name then table else e ∷ delete name table

  -- An input that was not there before.
  unfoldable pub blank : Str → Input D
  blank name = record {
    name = take max_len name;
    state = new;
    value = string not_available;
    id = no_id;
    last_update = some (0, 0);
  }

  -- The old element goes over to the new table.
  unfoldable pub moved_over :
      Str → Option (Input D) → List (Input D) → List (Input D) → List (Input D) × List (Input D)
  unfolding blank delete
  moved_over name (some oe) old table = (delete name old, table ++ oe ∷ [])
  moved_over name none old table = (old, table ++ blank name ∷ [])

  unfoldable pub sync_name :
      Str → Option (Input D) → List (Input D) → List (Input D) → List (Input D) × List (Input D)
  unfolding moved_over
  sync_name name (some ne) old table = (old, table)
  sync_name name none old table = moved_over name (find_input rl name old) old table

  unfoldable pub sync_rule :
      Option Str → Option Str → List (Input D) → List (Input D) → List (Input D) × List (Input D)
  unfolding sync_name
  sync_rule (some name) (some value) old table = sync_name name (find_input rl name table) old table
  sync_rule none value old table = (old, table)
  sync_rule (some name) none old table = (old, table)

  -- The loop of inputs_table_sync over the rules: what is left of the old table, and the new one.
  unfoldable pub sync_loop :
      List Rule → List (Input D) → List (Input D) → List (Input D) × List (Input D)
  unfolding sync_rule
  sync_loop [] old table = (old, table)
  sync_loop (e ∷ rules) old table =
      let r = sync_rule e.name e.value old table in sync_loop rules r.0 r.1

  -- inputs_table_sync with rules that are not NULL: the new table, and the rules that stay. What is
  -- left of the old table is freed, and the destinations of moveforward are forgotten.
  unfoldable pub inputs_table_sync : List Rule → List (Input D) → List (Input D) × List Rule
  unfolding sync_loop complete_rules
  inputs_table_sync rules old = ((sync_loop rules old []).1, complete_rules rules)

  unfoldable pub init_rule : ℤ → Option Str → Option Str → List (Input D) → List (Input D)
  init_rule stale (some name) (some value) table =
      add_to_inputs_table rl stale name (some (string not_available)) none false none table
  init_rule stale none value table = table
  init_rule stale (some name) none table = table

  unfoldable pub init_loop : ℤ → List Rule → List (Input D) → List (Input D)
  unfolding init_rule
  init_loop stale [] table = table
  init_loop stale (e ∷ rules) table = init_loop stale rules (init_rule stale e.name e.value table)

  -- inputs_table_init with rules that are not NULL.
  unfoldable pub inputs_table_init : ℤ → List Rule → List (Input D) → List (Input D) × List Rule
  unfolding init_loop complete_rules
  inputs_table_init stale rules table = (init_loop stale rules table, complete_rules rules)
