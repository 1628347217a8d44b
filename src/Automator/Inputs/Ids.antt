-- ===== src/Automator/Inputs/Ids.antt =====
-- src/automator.c: the numbers that the evaluator knows inputs by, and the callbacks that it is given.
use mea_edomus_lite.Common.{
  ℕ, ◌+◌, ◌-◌, ◌%◌, ◌^◌, true, Option, none, some, List, [], ◌∷◌, ◌++◌, ◌==◌, if◌then◌else◌, ltb,
}
use mea_edomus_lite.Common.Int.{ℤ, pos, negsuc}
use mea_edomus_lite.Automator.{Str, Reals, number, string, boolean, undefined, Input, Store}
use mea_edomus_lite.Automator.Inputs.{find_input, add_to_inputs_table, modify, no_id}

-- HASH_FIND_INT(inputs_id_name_assoc, &id, a)
unfoldable pub find_assoc : ℕ → List (ℕ × Str) → Option Str
find_assoc id [] = none
find_assoc id ((i, name) ∷ assocs) = if i == id then some name else find_assoc id assocs

-- uint32_t, and a number as an int16_t and back.
abbrev u32 : ℕ
u32 = 2 ^ 32

unfoldable pub to_int16 : ℕ → ℤ
to_int16 id =
    let low = id % 2 ^ 16 in if ltb low (2 ^ 15) then pos low else negsuc (2 ^ 16 - 1 - low)

unfoldable pub to_uint32 : ℤ → ℕ
to_uint32 (pos n) = n % 2 ^ 32
to_uint32 (negsuc n) = 2 ^ 32 - 1 - n % 2 ^ 32

module _ {D : Type 0} (rl : Reals D) where
  -- automator_add_to_inputs_table(name, &v, NULL) for an input that is not there.
  unfoldable pub known : ℤ → Str → Option (Input D) → Store D → Store D
  known stale name (some e) st = st
  known stale name none st = record st {
    table = add_to_inputs_table rl stale name (some (undefined (pos 0))) none true none st.table;
  }

  abbrev pub set_id : ℕ → Input D → Input D
  set_id id e = record e { id = id }

  -- `e->id==-1`: a number and an association for the input.
  unfoldable pub numbered_input : Str → ℕ → Store D → Option ℕ × Store D
  numbered_input name id st = (
    some id,
    record {
      table = modify rl name (set_id id) st.table;
      next_input_id = id;
      assocs = st.assocs ++ (id, name) ∷ [];
    },
  )

  -- An input that has a number keeps it, and `ret` is still -1.
  unfoldable pub id_of : Str → Option (Input D) → Store D → Option ℕ × Store D
  unfolding numbered_input
  id_of name none st = (none, st)
  id_of name (some e) st =
      if e.id == no_id then numbered_input name ((st.next_input_id + 1) % u32) st else (none, st)

  -- input_getId: `*id`, or none where it returns -1.
  unfoldable pub input_get_id : ℤ → Str → Store D → Option ℕ × Store D
  unfolding known id_of
  input_get_id stale name st =
      let there = known stale name (find_input rl name st.table) st in
      id_of name (find_input rl name there.table) there

  abbrev pub float_of : Option (Input D) → Option D
  float_of none = none
  float_of (some e) = elim e.value [
    | number d ↦ some d
    | string s ↦ none
    | boolean b ↦ none
    | undefined b ↦ none
  ]

  unfoldable pub float_of_assoc : Option Str → List (Input D) → Option D
  float_of_assoc none table = none
  float_of_assoc (some name) table = float_of (find_input rl name table)

  -- input_getFloatValueById: `*d`, or none where it returns -1.
  unfoldable pub input_get_float_value_by_id : ℕ → Store D → Option D
  unfolding float_of_assoc
  input_get_float_value_by_id id st = float_of_assoc (find_assoc id st.assocs) st.table

  -- myGetVarId and myGetVarVal, the callbacks of the evaluator.
  unfoldable pub narrowed : Option ℕ × Store D → Option ℤ × Store D
  narrowed (none, st) = (none, st)
  narrowed (some id, st) = (some (to_int16 id), st)

  unfoldable pub my_get_var_id : ℤ → Str → Store D → Option ℤ × Store D
  unfolding narrowed
  my_get_var_id stale name st = narrowed (input_get_id stale name st)

  unfoldable pub my_get_var_val : ℤ → Store D → Option D
  my_get_var_val id st = input_get_float_value_by_id (to_uint32 id) st

  -- input_cleanIdNameAssocs
  unfoldable pub clean_id_name_assocs : Store D → Store D
  clean_id_name_assocs st = record st { assocs = [] }

  unfoldable pub without_ids : List (Input D) → List (Input D)
  without_ids [] = []
  without_ids (e ∷ table) = set_id no_id e ∷ without_ids table

  -- input_resetIds
  unfoldable pub reset_ids : Store D → Store D
  unfolding without_ids
  reset_ids st = record st { table = without_ids st.table }
