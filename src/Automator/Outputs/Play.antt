-- ===== src/Automator/Outputs/Play.antt =====
-- src/automator.c: the actions that set inputs and send messages, and automator_playOutputRules.
use mea_edomus_lite.Common.{
  ℕ, suc, Bool, true, false, Option, none, some, List, [], ◌∷◌, ◌++◌, ◌==◌, ◌&&◌, leb, length,
  if◌then◌else◌, str_eq, take,
}
use mea_edomus_lite.Common.Int.{ℤ, pos, negsuc}
use mea_edomus_lite.Automator.{
  Str, Reals, Value, number, string, boolean, undefined, Input, InputState, unknown, EvalStatus,
  done, absent, failed, Reply, World,
}
use mea_edomus_lite.Automator.Words.{
  name_word, value_word, updatestate_word, xplsend_word, timerctrl_word, setinput_word,
  clearstate_word, xpl_cmnd, control_basic, msgtype_word, schema_word, source_word, target_word,
  star,
}
use mea_edomus_lite.Automator.Values.{max_len, Digits, Conversion, value_to_str, text_of}
use mea_edomus_lite.Automator.Inputs.{find_input, add_to_inputs_table}
use mea_edomus_lite.Automator.Outputs.{
  JsonItem, GetItem, Effect, send_message, OutputRun, Acted, acted, overrun, crashed, OutputRule,
  XplMessage, body_size, message_text, action_flag, same_word, message_type, eval, after,
  with_effect, eval_string, timer_ctrl,
}

-- INT | HIGHLOW
abbrev pub int_highlow : Conversion
int_highlow = record { int = true; highlow = true; truefalse = false }

-- What a parameter does to the message: `refused` is `return -1`.
pub data Part : Type 0 where
  part : XplMessage → Part
  refused : Part
  too_long : Part

abbrev pub empty_message : XplMessage
empty_message = record { type = xpl_cmnd; schema = control_basic; target = star; body = [] }

-- What automator_playOutputRules leaves: the rules that stay, the messages that it sent, and the
-- state; or an action that broke off.
pub data Played (D : Type 0) : Type 0 where
  played : List OutputRule → ℕ → OutputRun D → Played D
  broken : Acted D → Played D

abbrev pub keep_rule : {D : Type 0} → OutputRule → Played D → Played D
keep_rule e (played rules n s) = played (e ∷ rules) n s
keep_rule e (broken a) = broken a

abbrev pub count_message : {D : Type 0} → Bool → Played D → Played D
count_message true (played rules n s) = played rules (suc n) s
count_message false (played rules n s) = played rules n s
count_message b (broken a) = broken a

abbrev pub items_of : Option (List JsonItem) → List JsonItem
items_of none = []
items_of (some items) = items

module _ {D : Type 0} (rl : Reals D) (world : List Effect → World D) (digits : Digits)
    (get_item : GetItem) (source : Str) (now : ℕ × ℕ) where
  abbrev pub ev : Str → OutputRun D → Reply D
  ev = eval rl world digits get_item source now

  abbrev pub ev_string : Option Str → OutputRun D → Option Str × OutputRun D
  ev_string = eval_string rl world digits get_item source now

  abbrev pub on : Reply D → OutputRun D → OutputRun D
  on = after rl world digits get_item source now

  -- _automator_add_to_inputs_table with the time of the call
  unfoldable pub put : Str → Option (Value D) → Bool → Option InputState → OutputRun D → OutputRun D
  put name v update_state force s = record s {
    store = record s.store {
      table =
          add_to_inputs_table rl (world s.effects).stale name v (some now) update_state force
            s.store.table;
    };
  }

  -- `updatestate`: none is an error.
  unfoldable pub flag_of : EvalStatus → Value D → Option Bool
  flag_of failed v = none
  flag_of absent v = none
  flag_of done (boolean b) = some (is_one b)
    where
      is_one : ℤ → Bool
      is_one (pos n) = n == 1
      is_one (negsuc n) = false
  flag_of done (number d) = none
  flag_of done (string t) = none
  flag_of done (undefined b) = none

  unfoldable pub eval_flag : Option JsonItem → OutputRun D → Option Bool × OutputRun D
  unfolding flag_of
  eval_flag none s = (some true, s)
  eval_flag (some i) s = elim i.text [
    | none ↦ (none, s)
    | some text ↦ let r = ev text s in (flag_of r.status r.value, on r s)
  ]

  unfoldable pub set_with_flag : Str → Value D → Option Bool × OutputRun D → Acted D
  unfolding put
  set_with_flag name v (none, s) = acted false s
  set_with_flag name v (some flag, s) = acted true (put name (some v) flag none s)

  unfoldable pub set_value : Str → EvalStatus → Value D → Option JsonItem → OutputRun D → Acted D
  unfolding set_with_flag eval_flag
  set_value name failed v flag s = acted false s
  set_value name done v flag s = set_with_flag name v (eval_flag flag s)
  set_value name absent v flag s = set_with_flag name v (eval_flag flag s)

  unfoldable pub set_named : Option Str → Option JsonItem → Option Str × OutputRun D → Acted D
  unfolding set_value
  set_named value flag (none, s) = acted false s
  set_named none flag (some name, s) = acted false s
  set_named (some text) flag (some name, s) =
      let r = ev text s in set_value name r.status r.value flag (on r s)

  unfoldable pub set_items :
      Option JsonItem → Option JsonItem → Option JsonItem → OutputRun D → Acted D
  unfolding set_named
  set_items (some name) (some value) flag s = set_named value.text flag (ev_string name.text s)
  set_items none value flag s = acted false s
  set_items (some name) none flag s = acted false s

  -- automator_setinputvalue
  unfoldable pub set_input_value : List JsonItem → OutputRun D → Acted D
  unfolding set_items
  set_input_value [] s = acted false s
  set_input_value (i ∷ items) s =
      set_items (get_item (i ∷ items) name_word) (get_item (i ∷ items) value_word)
        (get_item (i ∷ items) updatestate_word) s

  unfoldable pub clear_named : Option Str × OutputRun D → Acted D
  unfolding put
  clear_named (none, s) = acted false s
  clear_named (some name, s) = acted true (put name none true (some unknown) s)

  unfoldable pub clear_item : Option JsonItem → OutputRun D → Acted D
  unfolding clear_named
  clear_item none s = acted false s
  clear_item (some name) s = clear_named (ev_string name.text s)

  -- automator_setunknownstate
  unfoldable pub set_unknown_state : List JsonItem → OutputRun D → Acted D
  unfolding clear_item
  set_unknown_state [] s = acted false s
  set_unknown_state (i ∷ items) s = clear_item (get_item (i ∷ items) name_word) s

  -- `key=value` and a line feed behind the body, by sprintf.
  unfoldable pub body_line : Str → Value D → XplMessage → Part
  body_line key v m =
      let body =
        m.body ++ (key ++ (b'=' ∷ (value_to_str rl digits v 101 int_highlow ++ 10 ∷ []))) in
      if leb body_size (length body) then too_long else part (record m { body = body })

  unfoldable pub typed : Option Str → XplMessage → Part
  typed none m = refused
  typed (some t) m = part (record m { type = t })

  unfoldable pub type_line : Value D → XplMessage → Part
  unfolding typed
  type_line (string s) m = typed (message_type s) m
  type_line (number d) m = refused
  type_line (boolean b) m = refused
  type_line (undefined b) m = refused

  -- The comparisons of e->string.
  unfoldable pub add_part : Str → Value D → XplMessage → Part
  unfolding body_line type_line
  add_part key v m =
      if str_eq key msgtype_word
      then type_line v m
      else if str_eq key schema_word
      then part (record m { schema = take 20 (text_of rl v) })
      else if str_eq key source_word
      then refused
      else if str_eq key target_word
      then part (record m { target = take max_len (text_of rl v) })
      else body_line key v m

  -- The message as it is given to the network: its length is not cut with it.
  unfoldable pub sent : XplMessage → OutputRun D → Acted D
  unfolding message_text
  sent m s =
      let text = message_text (take 99 source) m in
      acted true (
        with_effect rl world digits get_item source now
          (send_message (take 2046 text) (length text)) s)

  unfoldable pub on_part : (XplMessage → OutputRun D → Acted D) → Part → OutputRun D → Acted D
  on_part k (part m) s = k m s
  on_part k refused s = acted false s
  on_part k too_long s = overrun

  unfoldable pub on_status : EvalStatus → Part → Part
  on_status done p = p
  on_status absent p = refused
  on_status failed p = refused

  -- One parameter, with `k` the loop over those behind.
  unfoldable pub send_item :
      (XplMessage → OutputRun D → Acted D) → Str → Option Str → XplMessage → OutputRun D → Acted D
  unfolding on_part on_status add_part
  send_item k key none m s = crashed
  send_item k key (some text) m s =
      let r = ev text s in on_part k (on_status r.status (add_part key r.value m)) (on r s)

  -- `while(e)` over the parameters of a message.
  unfoldable pub send_loop : List JsonItem → XplMessage → OutputRun D → Acted D
  unfolding sent send_item
  send_loop [] m s = sent m s
  send_loop (i ∷ items) m s = send_item (send_loop items) i.key i.text m s

  -- automator_sendxpl2
  unfoldable pub send_xpl2 : List JsonItem → OutputRun D → Acted D
  unfolding send_loop
  send_xpl2 [] s = acted false s
  send_xpl2 (i ∷ items) s = send_loop (i ∷ items) empty_message s

  -- The action of a rule, and whether it was a message.
  unfoldable pub play_action : Str → List JsonItem → OutputRun D → Bool × Acted D
  unfolding send_xpl2 timer_ctrl set_input_value set_unknown_state
  play_action action items s =
      if same_word action xplsend_word
      then (true, send_xpl2 items s)
      else if same_word action timerctrl_word
      then (false, timer_ctrl rl world digits get_item source now items s)
      else if same_word action setinput_word
      then (false, set_input_value items s)
      else if same_word action clearstate_word
      then (false, set_unknown_state items s)
      else (false, acted false s)

  unfoldable pub on_acted : (OutputRun D → Played D) → Bool × Acted D → Played D
  on_acted k (message, acted ok s) = count_message (message && ok) (k s)
  on_acted k (message, overrun) = broken overrun
  on_acted k (message, crashed) = broken crashed

  -- One rule, by what its condition says of its input; `k` is the loop over the rules behind.
  unfoldable pub on_flag :
      (OutputRun D → Played D) → OutputRule → Option Bool → OutputRun D → Played D
  unfolding on_acted play_action
  on_flag k e none s = k s
  on_flag k e (some false) s = keep_rule e (k s)
  on_flag k e (some true) s =
      keep_rule e (on_acted k (play_action e.action (items_of e.parameters) s))

  unfoldable pub on_input :
      (OutputRun D → Played D) → OutputRule → Option (Input D) → OutputRun D → Played D
  unfolding on_flag action_flag
  on_input k e none s = keep_rule e (k s)
  on_input k e (some i) s = on_flag k e (action_flag e.edge i.state) s

  -- automator_playOutputRules, with rules that are not NULL.
  unfoldable pub play_output_rules : List OutputRule → OutputRun D → Played D
  unfolding on_input
  play_output_rules [] s = played [] 0 s
  play_output_rules (e ∷ rules) s =
      on_input (play_output_rules rules) e (find_input rl e.input s.store.table) s
