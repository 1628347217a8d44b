-- ===== src/Automator/Expr.antt =====
-- src/automator.c: automator_evalStr, the value of an expression of a rule, with function_call and
-- input_getEdge. An expression may call a function, whose parameter is an expression.
pub mod Depth
pub mod Safe
pub mod Braces
use mea_edomus_lite.Common.{
  ℕ, zero, suc, ◌-◌, ◌%◌, Bool, true, false, not, Option, none, some, List, [], ◌∷◌, ◌==◌, ◌&&◌,
  ◌||◌, leb, length, take, drop, get_elem?, if◌then◌else◌, str_eq,
}
use mea_edomus_lite.Common.Int.{ℤ, pos, negsuc}
use mea_edomus_lite.Eval.Double.{Doubles}
use mea_edomus_lite.Automator.{
  Str, Reals, Value, number, string, boolean, undefined, InputState, new, rise, fall, stay, change,
  typechange, unknown, Input, Store, EvalStatus, done, absent, failed, Reply, Message, World,
}
use mea_edomus_lite.Automator.Values.{
  max_len, true_str, false_str, high_str, low_str, get_boolean, get_number, value_set_from_str,
  is_null,
}
use mea_edomus_lite.Automator.Calls.{
  Function, f_now, f_not, f_calcn, f_exist, f_rise, f_fall, f_startup, f_stay, f_change, f_date,
  f_second, f_time, f_timer, f_timerstatus, f_sunrise, f_sunset, f_twilightstart, f_twilightend,
  f_xplmsgdata, f_tohlstr, f_totfstr, Call, call, no_call, overrun, function_get_num, strncpytrim,
}
use mea_edomus_lite.Automator.Inputs.{find_input, first_char}

-- e->state==direction, of the directions that input_getEdge is called with; CHANGE asks for any
-- change.
unfoldable pub edge_matches : Function → InputState → Bool
edge_matches f_rise rise = true
edge_matches f_fall fall = true
edge_matches f_stay stay = true
edge_matches f_change change = true
edge_matches f_change rise = true
edge_matches f_change fall = true
edge_matches f_change typechange = true
edge_matches f_change new = true
edge_matches _ _ = false

abbrev pub of_bool : Bool → ℤ
of_bool true = pos 1
of_bool false = pos 0

-- `p[l-1]` of a string of length l > 0.
abbrev pub last_is : ℕ → Str → Bool
last_is c [] = false
last_is c (a ∷ []) = a == c
last_is c (a ∷ b ∷ s) = last_is c (b ∷ s)

-- strncmp(s, prefix, strlen(prefix)) == 0
abbrev pub starts_with : Str → Str → Bool
starts_with [] s = true
starts_with (c ∷ prefix) [] = false
starts_with (c ∷ prefix) (d ∷ s) = c == d && starts_with prefix s

abbrev pub noval : Str
noval = b'N' ∷ b'O' ∷ b'V' ∷ b'A' ∷ b'L' ∷ b'>' ∷ []

abbrev pub label : Str
label = b'L' ∷ b'A' ∷ b'B' ∷ b'E' ∷ b'L' ∷ b'>' ∷ []

abbrev pub display : Str
display = b'D' ∷ b'I' ∷ b'S' ∷ b'P' ∷ b'L' ∷ b'A' ∷ b'Y' ∷ b'>' ∷ []

module _ {D : Type 0} where
  abbrev pub reply : EvalStatus → Value D → Store D → Reply D
  reply status v st = record { status = status; value = v; store = st }

  abbrev pub with_number : Option D → Value D → Store D → Reply D
  with_number none v st = reply failed v st
  with_number (some d) v st = reply done (number d) st

module _ {D : Type 0} (rl : Reals D) (w : World D) (msg : Message) where
  -- input_getEdge behind HASH_FIND_STR: the type is set even where there is no such input.
  unfoldable pub edge_of : Function → Option (Input D) → Value D → Store D → Reply D
  unfolding edge_matches
  edge_of fn none v st = reply absent (boolean (first_char rl v)) st
  edge_of fn (some e) v st = reply done (boolean (of_bool (edge_matches fn e.state))) st

  -- input_getEdge, with `r` the reply for its parameter.
  unfoldable pub edge_on : Function → Value D → EvalStatus → Value D → Store D → Reply D
  unfolding edge_of
  edge_on fn v done (string s) st = edge_of fn (find_input rl s st.table) v st
  edge_on fn v done (number d) st = reply failed v st
  edge_on fn v done (boolean b) st = reply failed v st
  edge_on fn v done (undefined b) st = reply failed v st
  edge_on fn v absent r st = reply failed v st
  edge_on fn v failed r st = reply failed v st

  unfoldable pub get_edge : Function → Str → Value D → Store D → Reply D → Reply D
  unfolding edge_on
  get_edge fn [] v st r = reply failed v st
  get_edge fn (c ∷ s) v st r = edge_on fn v r.status r.value r.store

  -- The value is what $not tells from the others.
  unfoldable pub negated : Value D → ℤ
  negated (string []) = pos 1
  negated (string (c ∷ s)) = pos 0
  negated (number d) = of_bool (rl.eq d rl.origin)
  negated (boolean b) = of_bool (is_null b)
  negated (undefined b) = pos 1

  unfoldable pub call_not : EvalStatus → Reply D → Reply D
  unfolding negated
  call_not done r = reply done (boolean (negated r.value)) r.store
  call_not absent r = reply failed (boolean (pos 1)) r.store
  call_not failed r = reply failed (boolean (pos 1)) r.store

  abbrev pub seconds : ℕ → Reply D → Reply D
  seconds n r = reply done (number (rl.fp.of_int (pos n))) r.store

  -- (int)r.val.floatval as a divisor of 60 seconds; at most 1, it is not one.
  unfoldable pub modulo : ℤ → ℕ
  modulo (pos m) = if leb 2 m then w.time % 60 % m else w.time % 60
  modulo (negsuc m) = w.time % 60

  unfoldable pub seconds_of : Value D → Value D → Reply D → Reply D
  unfolding modulo
  seconds_of v (number d) r =
      if rl.le (rl.fp.of_int (pos 2)) d
      then seconds (modulo (rl.fp.to_int d)) r
      else reply absent v r.store
  seconds_of v (string s) r = reply absent v r.store
  seconds_of v (boolean b) r = reply absent v r.store
  seconds_of v (undefined b) r = reply absent v r.store

  unfoldable pub call_second : Str → Value D → Store D → EvalStatus → Reply D → Reply D
  unfolding seconds_of
  call_second [] v st status r = seconds (w.time % 60) (reply done v st)
  call_second (c ∷ s) v st failed r = reply absent v r.store
  call_second (c ∷ s) v st done r = seconds_of v r.value r
  call_second (c ∷ s) v st absent r = seconds_of v r.value r

  -- A value where there is no parameter.
  unfoldable pub constant : Str → Value D → Value D → Store D → Reply D
  constant [] result v st = reply done result st
  constant (c ∷ s) result v st = reply failed v st

  unfoldable pub computed : Option D × Store D → Value D → Reply D
  computed (none, st) v = reply absent v st
  computed (some d, st) v = reply done (number d) st

  -- `l_params > 1 && params[0]=='\'' && params[l_params]=='\''`
  unfoldable pub call_calcn : Str → Value D → Store D → Reply D
  unfolding computed
  call_calcn [] v st = reply failed v st
  call_calcn (c ∷ s) v st =
      if leb 3 (length (c ∷ s)) && (c == b'\'' && last_is b'\'' (c ∷ s))
      then computed (w.calc_by_cache (take (length (c ∷ s) - 2) s) st) v
      else reply failed v st

  abbrev pub present : Option (Input D) → ℤ
  present none = pos 0
  present (some e) = pos 1

  -- What a function makes of the string that its parameter is.
  unfoldable pub on_string : Function → Str → Value D → Store D → Reply D
  on_string f_exist s v st = reply done (boolean (present (find_input rl s st.table))) st
  on_string f_timer s v st = reply done (boolean (of_bool (w.timer_falled s))) st
  -- r.val.strval[8]==0; behind a shorter string, the value's bytes are 0
  on_string f_time s v st =
      if leb (length s) 8 then with_number (w.time_from_str s) v st else reply failed v st
  -- r.val.strval[19] is not 0
  on_string f_date s v st =
      if leb 20 (length s) then with_number (w.date_from_str s) v st else reply failed v st
  on_string _ s v st = reply failed v st

  unfoldable pub flag_text : Function → ℤ → Str
  flag_text f_tohlstr b = if is_null b then low_str else high_str
  flag_text _ b = if is_null b then false_str else true_str

  unfoldable pub on_done : Function → Value D → Value D → Store D → Reply D
  unfolding on_string flag_text
  on_done f_tohlstr v (boolean b) st = reply done (string (flag_text f_tohlstr b)) st
  on_done f_totfstr v (boolean b) st = reply done (string (flag_text f_totfstr b)) st
  on_done fn v (string s) st = on_string fn s v st
  on_done fn v r st = reply failed v st

  -- A function that asks for a parameter which is there.
  unfoldable pub on_value : Function → Value D → EvalStatus → Value D → Store D → Reply D
  unfolding on_done
  on_value fn v done r st = on_done fn v r st
  on_value fn v absent r st = reply failed v st
  on_value fn v failed r st = reply failed v st

  -- mea_datetime_sunset and the like, and what is added to it: nothing where there is no parameter.
  unfoldable pub sun : D → Value D → EvalStatus → Value D → Store D → Reply D
  sun t v done (number d) st = reply done (number (rl.fp.add t d)) st
  sun t v done (string s) st = reply failed v st
  sun t v done (boolean b) st = reply failed v st
  sun t v done (undefined b) st = reply failed v st
  sun t v absent r st = reply done (number t) st
  sun t v failed r st = reply failed v st

  -- The value that a function's parameter is evaluated into.
  unfoldable pub initial : Function → Value D
  initial f_sunset = number rl.origin
  initial f_sunrise = number rl.origin
  initial f_twilightstart = number rl.origin
  initial f_twilightend = number rl.origin
  initial _ = undefined (pos 0)

  -- The switch of function_call, with `r` what automator_evalStr replies for the parameter, where
  -- the function asks for it.
  unfoldable pub on_function : Function → Str → Value D → Store D → Reply D → Reply D
  unfolding get_edge call_not call_second constant call_calcn on_value sun
  on_function f_now p v st r = constant p (number (rl.fp.of_int (pos w.now))) v st
  on_function f_not [] v st r = reply failed v st
  on_function f_not (c ∷ s) v st r = call_not r.status r
  on_function f_second p v st r = call_second p v st r.status r
  on_function f_startup p v st r = constant p (boolean w.startup_status) v st
  on_function f_xplmsgdata p v st r =
      constant p (boolean (elim msg [ none ↦ pos 0 | some m ↦ pos 1 ])) v st
  on_function f_calcn p v st r = call_calcn p v st
  on_function f_exist [] v st r = reply failed v st
  on_function f_exist (c ∷ s) v st r = on_value f_exist v r.status r.value r.store
  on_function f_rise p v st r = get_edge f_rise p v st r
  on_function f_fall p v st r = get_edge f_fall p v st r
  on_function f_stay p v st r = get_edge f_stay p v st r
  on_function f_change p v st r = get_edge f_change p v st r
  on_function f_timer p v st r = on_value f_timer v r.status r.value r.store
  on_function f_time p v st r = on_value f_time v r.status r.value r.store
  on_function f_date p v st r = on_value f_date v r.status r.value r.store
  on_function f_tohlstr p v st r = on_value f_tohlstr v r.status r.value r.store
  on_function f_totfstr p v st r = on_value f_totfstr v r.status r.value r.store
  on_function f_sunset p v st r = sun w.sunset v r.status r.value r.store
  on_function f_sunrise p v st r = sun w.sunrise v r.status r.value r.store
  on_function f_twilightstart p v st r = sun w.twilight_start v r.status r.value r.store
  on_function f_twilightend p v st r = sun w.twilight_end v r.status r.value r.store
  on_function f_timerstatus p v st r = reply failed v st

  abbrev pub Eval : Type 0
  Eval = Str → Value D → Store D → Reply D

  unfoldable pub on_call : Eval → Call → Value D → Store D → Reply D
  unfolding on_function initial
  on_call eval (call fn p) v st = on_function fn p v st (eval p (initial fn) st)
  on_call eval no_call v st = reply failed v st
  on_call eval overrun v st = reply failed v st

  -- function_call. No expression is as long as MAX_STR_FUNCTION_SIZE.
  unfoldable pub function_call : Eval → Str → Value D → Store D → Reply D
  unfolding on_call
  function_call eval str v st = on_call eval (function_get_num str) v st

  unfoldable pub with_boolean : Option ℤ → Value D → Store D → Reply D
  with_boolean none v st = reply failed v st
  with_boolean (some b) v st = reply done (boolean b) st

  -- `*v = e->v`; of a value without a type, only the type.
  unfoldable pub read_input : Option (Input D) → Value D → Store D → Reply D
  read_input none v st = reply absent v st
  read_input (some e) v st =
      reply done
        (elim e.value [
          | number d ↦ number d
          | string s ↦ string (take max_len s)
          | boolean b ↦ boolean b
          | undefined b ↦ undefined (first_char rl v)
        ])
        st

  unfoldable pub read_text : Option (Option Str) → Value D → Store D → Reply D
  read_text none v st = reply absent v st
  read_text (some none) v st = reply failed v st
  read_text (some (some text)) v st = reply done (value_set_from_str rl text) st

  unfoldable pub read_message : Message → Str → Value D → Store D → Reply D
  unfolding read_text
  read_message none p v st = reply absent v st
  read_message (some get) p v st = read_text (get p) v st

  -- The switch on the first character of an expression without blanks around it; `called` is what
  -- function_call replies to the rest.
  unfoldable pub on_char : Reply D → ℕ → Str → Value D → Store D → Reply D
  unfolding with_boolean read_input read_message get_number get_boolean
  on_char called c s v st =
      if c == b'#'
      then with_number (get_number rl s) v st
      else if c == b'\''
      then if last_is b'\'' (c ∷ s)
        then reply done (string (take (length (c ∷ s) - 2) s)) st
        else reply failed v st
      else if c == b'&'
      then with_boolean (get_boolean s) v st
      else if c == b'$'
      then called
      else if c == b'{'
      then if last_is b'}' (c ∷ s)
        then read_input (find_input rl (strncpytrim s (length (c ∷ s) - 2)) st.table) v st
        else reply failed v st
      else if c == b'<'
      then if starts_with noval s || (starts_with label s || starts_with display s)
        then reply done (string (c ∷ s)) st
        else reply failed v st
      else read_message msg (c ∷ s) v st

  unfoldable pub on_trimmed : Eval → Str → Value D → Store D → Reply D
  unfolding on_char function_call
  on_trimmed eval [] v st = reply absent v st
  on_trimmed eval (c ∷ s) v st = on_char (function_call eval s v st) c s v st

  -- `&0` and `&1`, which are known before the blanks are cut off.
  unfoldable pub bit_of : Str → Option ℤ
  bit_of str =
      if str_eq str (b'&' ∷ b'0' ∷ [])
      then some (pos 0)
      else if str_eq str (b'&' ∷ b'1' ∷ [])
      then some (pos 1)
      else none

  unfoldable pub on_bit : Eval → Option ℤ → Str → Value D → Store D → Reply D
  unfolding on_trimmed
  on_bit eval (some b) str v st = reply done (boolean b) st
  on_bit eval none str v st = on_trimmed eval (strncpytrim str max_len) v st

  -- automator_evalStr, with calls nested up to a depth.
  unfoldable pub eval_str : ℕ → Eval
  unfolding on_bit bit_of
  eval_str zero str v st = reply failed v st
  eval_str (suc n) str v st = on_bit (eval_str n) (bit_of str) str v st
