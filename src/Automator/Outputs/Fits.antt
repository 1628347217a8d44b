-- ===== src/Automator/Outputs/Fits.antt =====
-- src/automator.c: parameters that fit into the buffer of a message.
use mea_edomus_lite.Common.{
  ℕ, ◌+◌, ◌≤◌, ◌<◌, ◌≡◌, ◌≢◌, Bool, true, false, Option, none, some, List, [], ◌∷◌, ◌++◌, ◌||◌, leb,
  length, if◌then◌else◌, str_eq, take, arith, length-take, length-append,
}
use mea_edomus_lite.Automator.{
  Str, Reals, Value, number, string, boolean, undefined, EvalStatus, done, absent, failed, World,
}
use mea_edomus_lite.Automator.Words.{msgtype_word, schema_word, source_word, target_word}
use mea_edomus_lite.Automator.Values.{
  Digits, Conversion, value_to_str, text_of, max_len, flag_to_str, number_to_str,
}
use mea_edomus_lite.Automator.Outputs.{
  JsonItem, GetItem, Effect, OutputRun, overrun, XplMessage, body_size, message_type,
}
use mea_edomus_lite.Automator.Outputs.Play.{
  Part, part, refused, too_long, body_line, type_line, typed, send_item, add_part, sent, on_part,
  on_status, send_loop, send_xpl2, empty_message, ev, on, int_highlow,
}

-- The most that the lines of the parameters take: a name, `=`, a value and a line feed.
abbrev pub room : List JsonItem → ℕ
room [] = 0
room (i ∷ items) = length i.key + 102 + room items

length-take_either : (b : Bool) (s : Str) → length (take (if b then 100 else 99) s) ≤ 100
length-take_either true s = length-take 100 s
length-take_either false s = omega (arith, length-take 99 s)

-- A parameter makes the body longer by its line at most.
abbrev Within : ℕ → Part → Type 0
Within n (part m) = length m.body ≤ n
Within n refused = Unit
Within n too_long = ⊥

Within-if :
    (n : ℕ) (b : Bool) (p q : Part) → Within n p → Within n q → Within n (if b then p else q)
Within-if n true p q hp hq = hp
Within-if n false p q hp hq = hq

module _ {D : Type 0} (rl : Reals D) (world : List Effect → World D) (digits : Digits)
    (get_item : GetItem) (source : Str) (now : ℕ × ℕ) where
  length-value_to_str :
      (v : Value D) (flag : Conversion) → length (value_to_str rl digits v 101 flag) ≤ 100
  unfolding value_to_str
  length-value_to_str (number f) flag =
      omega (arith, length-take 99 (number_to_str rl digits f flag))
  length-value_to_str (string s) flag = length-take 100 s
  length-value_to_str (boolean b) flag =
      length-take_either (flag.highlow || flag.truefalse) (flag_to_str rl digits b flag)
  length-value_to_str (undefined b) flag =
      length-take_either (flag.highlow || flag.truefalse) (flag_to_str rl digits b flag)

  body_line-Within :
      (key : Str) (v : Value D) (m : XplMessage)
      → length m.body + (length key + 102) < body_size
      → Within
          (length m.body + (length key + 102))
          (body_line rl world digits get_item source now key v m)
  unfolding body_line
  body_line-Within key v m h = rw (fits) short
    where
      value : Str
      value = value_to_str rl digits v 101 (int_highlow)

      body : Str
      body = m.body ++ (key ++ (b'=' ∷ (value ++ 10 ∷ [])))

      short : length body ≤ length m.body + (length key + 102)
      short = omega (
        arith,
        length-append m.body (key ++ (b'=' ∷ (value ++ 10 ∷ []))),
        length-append key (b'=' ∷ (value ++ 10 ∷ [])),
        length-append value (10 ∷ []),
        length-value_to_str v (int_highlow),
      )

      fits : leb body_size (length body) ≡ false
      fits = ground (arith, short, h)

  typed-Within :
      (n : ℕ) (t : Option Str) (m : XplMessage)
      → length m.body ≤ n
      → Within n (typed rl world digits get_item source now t m)
  unfolding typed
  typed-Within n none m h = tt
  typed-Within n (some t) m h = h

  type_line-Within :
      (n : ℕ) (v : Value D) (m : XplMessage)
      → length m.body ≤ n
      → Within n (type_line rl world digits get_item source now v m)
  unfolding type_line
  type_line-Within n (number d) m h = tt
  type_line-Within n (boolean b) m h = tt
  type_line-Within n (undefined b) m h = tt
  type_line-Within n (string s) m h = typed-Within n (message_type s) m h

  add_part-Within :
      (key : Str) (v : Value D) (m : XplMessage)
      → length m.body + (length key + 102) < body_size
      → Within
          (length m.body + (length key + 102))
          (add_part rl world digits get_item source now key v m)
  unfolding add_part
  add_part-Within key v m h =
      let n = length m.body + (length key + 102) in
      let grows : length m.body ≤ n = omega arith in
      let bl = body_line rl world digits get_item source now key v m in
      let target = part (record m { target = take max_len (text_of rl v) }) in
      let schema = part (record m { schema = take 20 (text_of rl v) }) in
      let on_target = if str_eq key target_word then target else bl in
      let on_source = if str_eq key source_word then refused else on_target in
      let on_schema = if str_eq key schema_word then schema else on_source in
      Within-if n (str_eq key msgtype_word) (type_line rl world digits get_item source now v m)
        on_schema (type_line-Within n v m grows)
        (Within-if n (str_eq key schema_word) schema on_source grows (
          Within-if n (str_eq key source_word) refused on_target tt
            (Within-if n (str_eq key target_word) target bl grows (body_line-Within key v m h))))

  on_status-Within :
      (n : ℕ) (status : EvalStatus) (p : Part)
      → Within n p
      → Within n (on_status rl world digits get_item source now status p)
  unfolding on_status
  on_status-Within n done p h = h
  on_status-Within n absent p h = tt
  on_status-Within n failed p h = tt

  -- The loop over parameters that fit behind the body.
  Fits : List JsonItem → Type 0
  Fits items =
      (m : XplMessage) (s : OutputRun D)
      → length m.body + room items < body_size
      → send_loop rl world digits get_item source now items m s ≢ overrun

  on_part-Fits :
      (items : List JsonItem) (n : ℕ) (p : Part) (s : OutputRun D)
      → Fits items
      → Within n p
      → n + room items < body_size
      → on_part rl world digits get_item source now
          (send_loop rl world digits get_item source now items)
          p
          s
        ≢ overrun
  unfolding on_part Fits
  on_part-Fits items n (part m) s fits h room_left = fits m s (omega (arith, h, room_left))
  on_part-Fits items n refused s fits h room_left = cc
  on_part-Fits items n too_long s fits h room_left = absurd h

  send_item-Fits :
      (items : List JsonItem) (key : Str) (text : Option Str) (m : XplMessage) (s : OutputRun D)
      → Fits items
      → length m.body + (length key + 102) + room items < body_size
      → send_item rl world digits get_item source now
          (send_loop rl world digits get_item source now items)
          key
          text
          m
          s
        ≢ overrun
  unfolding send_item
  send_item-Fits items key none m s fits h = cc
  send_item-Fits items key (some text) m s fits h =
      let r = ev rl world digits get_item source now text s in
      let p = add_part rl world digits get_item source now key r.value m in
      let n = length m.body + (length key + 102) in
      on_part-Fits items n (on_status rl world digits get_item source now r.status p)
        (on rl world digits get_item source now r s) fits
        (on_status-Within n r.status p (add_part-Within key r.value m (omega (arith, h)))) h

  send_loop-Fits : (items : List JsonItem) → Fits items
  unfolding send_loop sent Fits
  send_loop-Fits [] m s h = cc
  send_loop-Fits (i ∷ items) m s h =
      send_item-Fits items i.key i.text m s (send_loop-Fits items) (omega (arith, h))

  -- automator_sendxpl2 does not write behind its buffer of 2048 bytes if the names of the
  -- parameters, with 102 bytes more for each, take less than that.
  pub send_xpl2-fits :
      (items : List JsonItem) (s : OutputRun D)
      → room items < body_size
      → send_xpl2 rl world digits get_item source now items s ≢ overrun
  unfolding send_xpl2 Fits
  send_xpl2-fits [] s h = cc
  send_xpl2-fits (i ∷ items) s h = send_loop-Fits (i ∷ items) empty_message s (omega (arith, h))
