-- ===== src/Automator/Outputs.antt =====
-- src/automator.c: automator_playOutputRules and the actions of the rules. Calls of other parts of
-- the program are a list of effects.
pub mod Play
pub mod Bounds
pub mod Fits
use mea_edomus_lite.Common.{
  ℕ, ◌+◌, Bool, true, false, not, Option, none, some, List, [], ◌∷◌, ◌++◌, ◌==◌, ◌&&◌, ◌||◌, leb,
  ltb, length, if◌then◌else◌, str_eq, take,
}
use mea_edomus_lite.Common.Int.{ℤ, pos}
use mea_edomus_lite.Eval.Double.{Doubles}
use mea_edomus_lite.Text.Trim.{strcpytrimlower}
use mea_edomus_lite.Text.Compare.{strcmplower}
use mea_edomus_lite.Automator.{
  Str, Reals, Value, number, string, boolean, undefined, Input, InputState, new, rise, fall, change,
  stay, typechange, unknown, Store, EvalStatus, done, absent, failed, Reply, World,
}
use mea_edomus_lite.Automator.Words.{
  start_word, stop_word, alarm_word, timer_word, sec_word, min_word, msec_word, csec_word,
  trigger_word, status_word, command_word, name_word, value_word, unit_word, mode_word, xpl_trig,
  xpl_stat, xpl_cmnd, hop_text, target_text, close_text, open_text, end_text,
}
use mea_edomus_lite.Automator.Values.{max_len, Digits, value_to_str, text_of, is_null}
use mea_edomus_lite.Automator.Inputs.{find_input, add_to_inputs_table}
use mea_edomus_lite.Automator.Expr.{eval_str}

-- A child of a JSON object: its name, and its text where it is a string.
pub record JsonItem : Type 0 where
  pub key : Str
  pub text : Option Str

-- cJSON_GetObjectItem of an object with these children; none is NULL.
abbrev pub GetItem : Type 0
GetItem = List JsonItem → Str → Option JsonItem

-- enum datetime_timer_unit_e
pub data TimerUnit : Type 0 where
  timer_min : TimerUnit
  timer_sec : TimerUnit
  timer_csec : TimerUnit
  timer_msec : TimerUnit

-- mea_xPLSendMessage2(data, l_data), mea_datetime_startTimer2, mea_datetime_startAlarm2 and
-- mea_datetime_stopTimer.
pub data Effect : Type 0 where
  send_message : Str → ℕ → Effect
  start_timer : Str → ℤ → TimerUnit → Effect
  start_alarm : Str → ℤ → Effect
  stop_timer : Str → Effect

pub record OutputRun (D : Type 0) : Type 0 where
  pub store : Store D
  pub effects : List Effect

-- What an action returns, as the test `>= 0`, and the state behind it. `overrun` is a write behind
-- the buffer of the message, `crashed` a NULL that is read.
pub data Acted (D : Type 0) : Type 0 where
  acted : Bool → OutputRun D → Acted D
  overrun : Acted D
  crashed : Acted D

-- An output rule: the input and the edge of its condition, its action, and the children of its
-- parameters, none where there are no parameters.
pub record OutputRule : Type 0 where
  pub input : Str
  pub edge : ℕ
  pub action : Str
  pub parameters : Option (List JsonItem)

-- The parts of the message that automator_sendxpl2 collects.
pub record XplMessage : Type 0 where
  pub type : Str
  pub schema : Str
  pub target : Str
  pub body : Str

-- sizeof(xplBodyStr) and sizeof(msg)
abbrev pub body_size : ℕ
body_size = 2048

unfoldable pub message_text : Str → XplMessage → Str
message_text source m =
    m.type
    ++ (hop_text
        ++ (source
            ++ (target_text
                ++ (m.target
                    ++ (close_text ++ (m.schema ++ (open_text ++ (m.body ++ end_text))))))))

-- The state of the input that a rule's condition is about; none is a condition that is not known.
unfoldable pub changed : InputState → Bool
changed change = true
changed rise = true
changed fall = true
changed new = true
changed stay = false
changed typechange = false
changed unknown = false

abbrev pub is_rise : InputState → Bool
is_rise rise = true
is_rise _ = false

abbrev pub is_fall : InputState → Bool
is_fall fall = true
is_fall _ = false

abbrev pub is_new : InputState → Bool
is_new new = true
is_new _ = false

unfoldable pub action_flag : ℕ → InputState → Option Bool
unfolding changed
action_flag edge state =
    if edge == 1
    then some (is_rise state)
    else if edge == 2
    then some (is_fall state)
    else if edge == 3
    then some (changed state)
    else if edge == 4
    then some (is_new state)
    else none

abbrev pub same_word : Str → Str → Bool
same_word a b = is_null (strcmplower (some a) (some b))

unfoldable pub unit_of : Str → Option TimerUnit
unit_of s =
    if str_eq s sec_word
    then some timer_sec
    else if str_eq s min_word
    then some timer_min
    else if str_eq s msec_word
    then some timer_msec
    else if str_eq s csec_word
    then some timer_csec
    else none

-- `mode`: some true is an alarm.
unfoldable pub mode_of : Str → Option Bool
mode_of s =
    if same_word s alarm_word
    then some true
    else if same_word s timer_word
    then some false
    else none

unfoldable pub message_type : Str → Option Str
message_type s =
    if str_eq s trigger_word
    then some xpl_trig
    else if str_eq s status_word
    then some xpl_stat
    else if str_eq s command_word
    then some xpl_cmnd
    else none

-- The world is read behind the effects so far. `source` is this program's name on the network.
module _ {D : Type 0} (rl : Reals D) (world : List Effect → World D) (digits : Digits)
    (get_item : GetItem) (source : Str) (now : ℕ × ℕ) where
  -- automator_evalStr without a message
  abbrev pub eval : Str → OutputRun D → Reply D
  eval text s = eval_str rl (world s.effects) none 2 text (undefined (pos 0)) s.store

  abbrev pub after : Reply D → OutputRun D → OutputRun D
  after r s = record s { store = r.store }

  abbrev pub with_effect : Effect → OutputRun D → OutputRun D
  with_effect e s = record s { effects = s.effects ++ e ∷ [] }

  -- `item->type != cJSON_String || automator_evalStr(...)<0 || v.type != 1`
  unfoldable pub string_of : EvalStatus → Value D → Option Str
  string_of failed v = none
  string_of done (string s) = some s
  string_of done (number d) = none
  string_of done (boolean b) = none
  string_of done (undefined b) = none
  string_of absent v = none

  unfoldable pub eval_string : Option Str → OutputRun D → Option Str × OutputRun D
  unfolding string_of
  eval_string none s = (none, s)
  eval_string (some text) s = let r = eval text s in (string_of r.status r.value, after r s)

  unfoldable pub item_text : Option JsonItem → Option Str
  item_text none = none
  item_text (some i) = i.text

  -- Behind the unit of a timer.
  unfoldable pub start_with_unit : Str → ℤ → Option Str × OutputRun D → Acted D
  start_with_unit name n (none, s) = acted false s
  start_with_unit name n (some u, s) = elim (unit_of (strcpytrimlower u)) [
    | none ↦ acted false s
    | some unit ↦ acted true (with_effect (start_timer name n unit) s)
  ]

  unfoldable pub start_unit : Str → ℤ → Option JsonItem → OutputRun D → Acted D
  unfolding start_with_unit eval_string
  start_unit name n none s = acted false s
  start_unit name n (some i) s = elim i.text [
    | none ↦ crashed
    | some text ↦ start_with_unit name n (eval_string (some text) s)
  ]

  -- `v.val.floatval < 1.0 || v.type != 0`
  unfoldable pub duration_of : EvalStatus → Value D → Option D
  duration_of failed v = none
  duration_of absent v = none
  duration_of done (number d) = if rl.lt d (rl.fp.of_int (pos 1)) then none else some d
  duration_of done (string t) = none
  duration_of done (boolean b) = none
  duration_of done (undefined b) = none

  unfoldable pub start_for : Bool → Str → Option D → Option JsonItem → OutputRun D → Acted D
  unfolding start_unit
  start_for alarm name none unit s = acted false s
  start_for true name (some d) unit s =
      acted true (with_effect (start_alarm name (rl.fp.to_long d)) s)
  start_for false name (some d) unit s = start_unit name (rl.fp.to_int d) unit s

  unfoldable pub start_value : Bool → Str → JsonItem → Option JsonItem → OutputRun D → Acted D
  unfolding start_for duration_of
  start_value alarm name value unit s = elim value.text [
    | none ↦ crashed
    | some text ↦
        let r = eval text s in start_for alarm name (duration_of r.status r.value) unit (after r s)
  ]

  -- A timer needs a unit, an alarm has none.
  unfoldable pub start_items :
      Bool → Str → Option JsonItem → Option JsonItem → OutputRun D → Acted D
  unfolding start_value
  start_items alarm name none unit s = acted false s
  start_items false name (some value) none s = acted false s
  start_items false name (some value) (some unit) s = start_value false name value (some unit) s
  start_items true name (some value) (some unit) s = acted false s
  start_items true name (some value) none s = start_value true name value none s

  unfoldable pub start_mode : List JsonItem → Str → Option Bool × OutputRun D → Acted D
  unfolding start_items
  start_mode items name (none, s) = acted false s
  start_mode items name (some alarm, s) =
      start_items alarm name (get_item items value_word) (get_item items unit_word) s

  unfoldable pub mode_text : Option Str × OutputRun D → Option Bool × OutputRun D
  mode_text (none, s) = (none, s)
  mode_text (some m, s) = (mode_of m, s)

  unfoldable pub eval_mode : Option JsonItem → OutputRun D → Option Bool × OutputRun D
  unfolding mode_text eval_string
  eval_mode none s = (some false, s)
  eval_mode (some i) s = mode_text (eval_string i.text s)

  unfoldable pub control : List JsonItem → Str → Str → OutputRun D → Acted D
  unfolding start_mode eval_mode
  control items command name s =
      if str_eq command start_word
      then start_mode items name (eval_mode (get_item items mode_word) s)
      else if str_eq command stop_word
      then acted true (with_effect (stop_timer name) s)
      else acted false s

  unfoldable pub control_name : List JsonItem → Str → Option Str × OutputRun D → Acted D
  unfolding control
  control_name items command (none, s) = acted false s
  control_name items command (some name, s) =
      control items (strcpytrimlower command) (strcpytrimlower name) s

  unfoldable pub control_command : List JsonItem → Option Str → Option Str × OutputRun D → Acted D
  unfolding control_name eval_string
  control_command items name (none, s) = acted false s
  control_command items name (some command, s) = control_name items command (eval_string name s)

  unfoldable pub control_items :
      List JsonItem → Option JsonItem → Option JsonItem → OutputRun D → Acted D
  unfolding control_command eval_string
  control_items items (some command) (some name) s =
      control_command items name.text (eval_string command.text s)
  control_items items none name s = acted false s
  control_items items (some command) none s = acted false s

  -- automator_timerCtrl. What mea_datetime_startTimer2 and the like return goes to no one.
  unfoldable pub timer_ctrl : List JsonItem → OutputRun D → Acted D
  unfolding control_items
  timer_ctrl [] s = acted false s
  timer_ctrl (i ∷ items) s =
      control_items (i ∷ items) (get_item (i ∷ items) command_word) (get_item (i ∷ items) name_word)
        s
