-- ===== src/Automator/Inputs/Edges.antt =====
-- src/automator.c: the states that a boolean input goes through.
use mea_edomus_lite.Common.{
  ℕ, ◌≡◌, Bool, true, false, Option, none, some, List, [], ◌∷◌, str_eq, take,
}
use mea_edomus_lite.Common.Int.{ℤ, pos}
use mea_edomus_lite.Automator.{
  Str, Reals, Value, boolean, Input, InputState, rise, fall, stay, unknown,
}
use mea_edomus_lite.Automator.Values.{max_len}
use mea_edomus_lite.Automator.Inputs.{
  find_input, add_to_inputs_table, reset_inputs_change_flags, is_unknown,
}

-- What happens to the table between two looks at an input.
pub data Event (D : Type 0) : Type 0 where
  write : Bool → Event D
  write_other : Str → Value D → Event D
  reset : Event D

abbrev pub bit : {D : Type 0} → Bool → Value D
bit true = boolean (pos 1)
bit false = boolean (pos 0)

-- From one value to the next.
abbrev pub edge : Bool → Bool → InputState
edge false true = rise
edge true false = fall
edge false false = stay
edge true true = stay

abbrev pub edges : {D : Type 0} → Bool → List (Event D) → List InputState
edges last [] = []
edges last (write b ∷ events) = edge last b ∷ edges b events
edges last (write_other n v ∷ events) = edges last events
edges last (reset ∷ events) = edges last events

module _ {D : Type 0} (rl : Reals D) (stale : ℤ) (t : ℕ × ℕ) (name : Str) where
  abbrev pub state_in : Option (Input D) → InputState
  state_in none = unknown
  state_in (some e) = e.state

  abbrev pub put : Str → Value D → List (Input D) → List (Input D)
  put n v table = add_to_inputs_table rl stale n (some v) (some t) true none table

  -- The states behind the writes to the input.
  abbrev pub observe : List (Event D) → List (Input D) → List InputState
  observe [] table = []
  observe (write b ∷ events) table =
      let after = put name (bit b) table in
      state_in (find_input rl name after) ∷ observe events after
  observe (write_other n v ∷ events) table = observe events (put n v table)
  observe (reset ∷ events) table = observe events (reset_inputs_change_flags rl table)

  abbrev pub Other : Event D → Type 0
  Other (write b) = Unit
  Other (write_other n v) = (str_eq n name ≡ false) × (take max_len n ≡ n)
  Other reset = Unit

  -- The input is there with a value, and its state is known.
  record Holds (b : Bool) (table : List (Input D)) : Type 0 where
    input : Input D
    found : find_input rl name table ≡ some input
    holds : input.value ≡ bit b
    known : is_unknown input.state ≡ false
