-- ===== src/Automator/Inputs.antt =====
-- src/automator.c: the table of the inputs, the state of an input, and the numbers that the
-- evaluator knows them by. The hash tables (uthash) are lists in the order of insertion.
pub mod Edges
pub mod Ids
pub mod Assocs
pub mod Finds
pub mod Sync
pub mod Synced
use mea_edomus_lite.Common.{
  ℕ, zero, suc, ◌+◌, ◌-◌, ◌%◌, ◌^◌, ◌&&◌, Bool, true, false, Option, none, some, List, [], ◌∷◌,
  ◌++◌, ◌==◌, take, if◌then◌else◌, str_eq,
}
use mea_edomus_lite.Common.Int.{ℤ, pos, negsuc, leb_ℤ, ◌-ℤ◌}
use mea_edomus_lite.Automator.{
  Str, Reals, Value, number, string, boolean, undefined, InputState, new, rise, fall, stay, change,
  typechange, unknown, Input, Store,
}
use mea_edomus_lite.Automator.Values.{max_len, is_null}

-- (uint32_t)-1
abbrev pub no_id : ℕ
no_id = 2 ^ 32 - 1

-- enum input_state_e, compared with ==.
unfoldable pub is_unknown : InputState → Bool
is_unknown unknown = true
is_unknown new = false
is_unknown rise = false
is_unknown fall = false
is_unknown stay = false
is_unknown change = false
is_unknown typechange = false

-- automator_reset_inputs_change_flags on one input.
unfoldable pub reset_state : InputState → InputState
reset_state unknown = unknown
reset_state new = new
reset_state rise = stay
reset_state fall = stay
reset_state stay = stay
reset_state change = stay
reset_state typechange = stay

-- The same value again, a greater one or a smaller one.
unfoldable pub moved_to : Bool → Bool → InputState
moved_to same greater = if same then stay else if greater then rise else fall

module _ {D : Type 0} (rl : Reals D) where
  -- v->val.booleanval of a value of another type.
  unfoldable pub first_char : Value D → ℤ
  first_char (number d) = rl.first_byte d
  first_char (string []) = pos 0
  first_char (string (c ∷ s)) = if leb_ℤ (pos 128) (pos c) then pos c -ℤ pos 256 else pos c
  first_char (boolean b) = b
  first_char (undefined b) = b

  -- HASH_FIND_STR(inputs_table, name, e)
  unfoldable pub find_input : Str → List (Input D) → Option (Input D)
  find_input name [] = none
  find_input name (e ∷ table) = if str_eq e.name name then some e else find_input name table

  -- Two chars, in the state `was`.
  unfoldable pub boolean_state : InputState → ℤ → ℤ → InputState
  unfolding is_unknown moved_to
  boolean_state was a b =
      if is_unknown was
      then if is_null b then fall else rise
      else moved_to (leb_ℤ a b && leb_ℤ b a) (leb_ℤ a b)

  unfoldable pub number_state : InputState → D → D → InputState
  unfolding is_unknown moved_to
  number_state was a b =
      if is_unknown was
      then if rl.le b rl.origin then fall else rise
      else moved_to (rl.eq a b) (rl.lt a b)

  unfoldable pub string_state : InputState → Str → Str → InputState
  unfolding is_unknown
  string_state was a b = if is_unknown was then change else if str_eq a b then stay else change

  -- A value of a type that the input did not have.
  unfoldable pub retyped : Value D → InputState
  retyped (string s) = typechange
  retyped (number d) = if rl.eq d rl.origin then fall else rise
  retyped (boolean b) = if is_null b then fall else rise
  retyped (undefined b) = unknown

  -- The state that an update gives an input: `was` is its state, then its value and the new one.
  unfoldable pub next_state : InputState → Value D → Value D → InputState
  unfolding boolean_state number_state string_state retyped
  next_state was (number a) (number b) = number_state was a b
  next_state was (string a) (string b) = string_state was a b
  next_state was (boolean a) (boolean b) = boolean_state was a b
  next_state was (undefined a) (undefined b) = boolean_state was a b
  next_state was (number a) (string b) = typechange
  next_state was (number a) (boolean b) = retyped (boolean b)
  next_state was (number a) (undefined b) = unknown
  next_state was (string a) (number b) = retyped (number b)
  next_state was (string a) (boolean b) = retyped (boolean b)
  next_state was (string a) (undefined b) = unknown
  next_state was (boolean a) (number b) = retyped (number b)
  next_state was (boolean a) (string b) = typechange
  next_state was (boolean a) (undefined b) = unknown
  next_state was (undefined a) (number b) = retyped (number b)
  next_state was (undefined a) (string b) = typechange
  next_state was (undefined a) (boolean b) = retyped (boolean b)

  -- A value copied_value into memory whose first byte is `old`.
  unfoldable pub copied_value : ℤ → Value D → Value D
  copied_value old (number d) = number d
  copied_value old (string s) = string (take max_len s)
  copied_value old (boolean b) = boolean b
  copied_value old (undefined b) = undefined old

  unfoldable pub forced : Option InputState → InputState → InputState
  forced none state = state
  forced (some s) state = s

  -- The input that _automator_add_to_inputs_table found: v is its own value where it is NULL.
  unfoldable pub own : Option (Value D) → Value D → Value D
  own none old = old
  own (some v) old = v

  unfoldable pub time_or_zero : Option (ℕ × ℕ) → Option (ℕ × ℕ)
  time_or_zero none = some (0, 0)
  time_or_zero (some t) = some t

  unfoldable pub updated :
      Option (Value D) → Option (ℕ × ℕ) → Bool → Option InputState → Input D → Input D
  unfolding own next_state copied_value first_char forced time_or_zero
  updated v t update_state force_state e = record {
    name = e.name;
    state =
        if update_state
        then forced force_state (next_state e.state e.value (own v e.value))
        else unknown;
    value = copied_value (first_char e.value) (own v e.value);
    id = e.id;
    last_update = time_or_zero t;
  }

  -- The new element; `stale` is the first byte of its memory.
  unfoldable pub fresh : ℤ → Str → Value D → Option (ℕ × ℕ) → Bool → Option InputState → Input D
  unfolding copied_value forced
  fresh stale name v t update_state force_state = record {
    name = take max_len name;
    state = forced force_state (if update_state then new else unknown);
    value = copied_value stale v;
    id = no_id;
    last_update = t;
  }

  -- `*e = ...` on the element that find_input finds.
  unfoldable pub modify : Str → (Input D → Input D) → List (Input D) → List (Input D)
  modify name f [] = []
  modify name f (e ∷ table) = if str_eq e.name name then f e ∷ table else e ∷ modify name f table

  unfoldable pub append_new :
      ℤ
      → Str
      → Option (Value D)
      → Option (ℕ × ℕ)
      → Bool
      → Option InputState
      → List (Input D)
      → List (Input D)
  unfolding fresh
  append_new stale name none t update_state force_state table = table
  append_new stale name (some v) t update_state force_state table =
      table ++ fresh stale name v t update_state force_state ∷ []

  unfoldable pub add_at :
      Option (Input D)
      → ℤ
      → Str
      → Option (Value D)
      → Option (ℕ × ℕ)
      → Bool
      → Option InputState
      → List (Input D)
      → List (Input D)
  unfolding append_new
  add_at none stale name v t update_state force_state table =
      append_new stale name v t update_state force_state table
  add_at (some e) stale name v t update_state force_state table =
      modify name (updated v t update_state force_state) table

  -- _automator_add_to_inputs_table. `v` and `t` are none for NULL, `update_state` is the test of
  -- `update_state == 1`, and `force_state` is none for -1. send_change does nothing.
  unfoldable pub add_to_inputs_table :
      ℤ
      → Str
      → Option (Value D)
      → Option (ℕ × ℕ)
      → Bool
      → Option InputState
      → List (Input D)
      → List (Input D)
  unfolding add_at
  add_to_inputs_table stale name v t update_state force_state table =
      add_at (find_input name table) stale name v t update_state force_state table

  -- automator_reset_inputs_change_flags
  unfoldable pub reset_inputs_change_flags : List (Input D) → List (Input D)
  unfolding reset_state
  reset_inputs_change_flags [] = []
  reset_inputs_change_flags (e ∷ table) =
      record e { state = reset_state e.state } ∷ reset_inputs_change_flags table
