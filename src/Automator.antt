-- ===== src/Automator.antt =====
-- src/automator.c, the rule engine: the types that its parts share. Numbers, the clock, the timers
-- and the messages come from other code, and are parameters.
pub mod Values
pub mod Calls
pub mod Inputs
pub mod Expr
pub mod Rules
pub mod Words
pub mod Outputs
pub mod Reload
mod Tests
mod Examples
use mea_edomus_lite.Common.{ℕ, Bool, Option, List}
use mea_edomus_lite.Common.Int.{ℤ}
use mea_edomus_lite.Eval.Double.{Doubles}

abbrev pub Str : Type 0
Str = List ℕ

-- What the engine does with the C type double, beside the operations of the evaluator.
pub record Reals (D : Type 0) : Type 0 where
  pub fp : Doubles D
  -- 0.0
  pub origin : D
  pub eq : D → D → Bool
  pub lt : D → D → Bool
  pub le : D → D → Bool
  -- sprintf of %f
  pub print : D → Str
  -- the bytes in memory up to the first that is 0, and the first of them as a char
  pub bytes : D → Str
  pub first_byte : D → ℤ

-- struct value_s. The type -1 is `undefined`, which keeps the first byte of what was there.
pub data Value (D : Type 0) : Type 0 where
  number : D → Value D
  string : Str → Value D
  boolean : ℤ → Value D
  undefined : ℤ → Value D

-- enum input_state_e
pub data InputState : Type 0 where
  new : InputState
  rise : InputState
  fall : InputState
  stay : InputState
  change : InputState
  typechange : InputState
  unknown : InputState

-- struct inputs_table_s. A time of `none` is memory that was not initialised.
pub record Input (D : Type 0) : Type 0 where
  pub name : Str
  pub state : InputState
  pub value : Value D
  pub id : ℕ
  pub last_update : Option (ℕ × ℕ)

-- inputs_table in the order of insertion, next_input_id, and inputs_id_name_assoc: an input that
-- has an id is named there by its name.
pub record Store (D : Type 0) : Type 0 where
  pub table : List (Input D)
  pub next_input_id : ℕ
  pub assocs : List (ℕ × Str)

-- int returned by automator_evalStr and function_call: 0, 1 or -1.
pub data EvalStatus : Type 0 where
  done : EvalStatus
  absent : EvalStatus
  failed : EvalStatus

-- The status, `*v` and the store behind a call.
pub record Reply (D : Type 0) : Type 0 where
  pub status : EvalStatus
  pub value : Value D
  pub store : Store D

-- Names as they are looked up in a message: cJSON_GetObjectItem and the valuestring of what it
-- finds. The whole is `none` where there is no message.
abbrev pub Message : Type 0
Message = Option (Str → Option (Option Str))

-- What an evaluation reads of the rest of the program; the clock stands still meanwhile.
pub record World (D : Type 0) : Type 0 where
  -- automator_now and mea_datetime_time(NULL)
  pub now : ℕ
  pub time : ℕ
  -- startupStatus
  pub startup_status : ℤ
  -- mea_datetime_getTimerState(name) == TIMER_FALLED
  pub timer_falled : Str → Bool
  -- mea_timeFromStr, and strptime to the end of the string followed by mktime
  pub time_from_str : Str → Option D
  pub date_from_str : Str → Option D
  pub sunset : D
  pub sunrise : D
  pub twilight_start : D
  pub twilight_end : D
  -- mea_eval_calc_numeric_by_cache, whose callbacks give an id to the inputs that it names
  pub calc_by_cache : Str → Store D → Option D × Store D
  -- the first byte of a block that malloc returns
  pub stale : ℤ

-- An element of a rule's `conditions`, as cJSON_GetObjectItem finds its strings.
pub record Condition : Type 0 where
  pub value1 : Option Str
  pub op : Option Str
  pub value2 : Option Str

-- The field `num` of a rule: a number, or another type.
pub data Num : Type 0 where
  numbered : ℕ → Num
  other_type : Num

-- A rule for an input. `address` is that of its cJSON element.
pub record Rule : Type 0 where
  pub address : ℕ
  pub name : Option Str
  pub value : Option Str
  pub altvalue : Option Str
  pub onmatch : Option Str
  pub onnotmatch : Option Str
  pub conditions : Option (List Condition)
  pub num : Option Num
