-- ===== src/Automator/Words.antt =====
-- The words that src/automator.c looks for in the actions of rules, and those of an xPL message.
use mea_edomus_lite.Common.{[], ◌∷◌}
use mea_edomus_lite.Automator.{Str}

abbrev pub command_word : Str
command_word = b'c' ∷ b'o' ∷ b'm' ∷ b'm' ∷ b'a' ∷ b'n' ∷ b'd' ∷ []

abbrev pub name_word : Str
name_word = b'n' ∷ b'a' ∷ b'm' ∷ b'e' ∷ []

abbrev pub mode_word : Str
mode_word = b'm' ∷ b'o' ∷ b'd' ∷ b'e' ∷ []

abbrev pub value_word : Str
value_word = b'v' ∷ b'a' ∷ b'l' ∷ b'u' ∷ b'e' ∷ []

abbrev pub unit_word : Str
unit_word = b'u' ∷ b'n' ∷ b'i' ∷ b't' ∷ []

abbrev pub updatestate_word : Str
updatestate_word = b'u' ∷ b'p' ∷ b'd' ∷ b'a' ∷ b't' ∷ b'e' ∷ b's' ∷ b't' ∷ b'a' ∷ b't' ∷ b'e' ∷ []

abbrev pub start_word : Str
start_word = b's' ∷ b't' ∷ b'a' ∷ b'r' ∷ b't' ∷ []

abbrev pub stop_word : Str
stop_word = b's' ∷ b't' ∷ b'o' ∷ b'p' ∷ []

abbrev pub alarm_word : Str
alarm_word = b'a' ∷ b'l' ∷ b'a' ∷ b'r' ∷ b'm' ∷ []

abbrev pub timer_word : Str
timer_word = b't' ∷ b'i' ∷ b'm' ∷ b'e' ∷ b'r' ∷ []

abbrev pub sec_word : Str
sec_word = b's' ∷ b'e' ∷ b'c' ∷ []

abbrev pub min_word : Str
min_word = b'm' ∷ b'i' ∷ b'n' ∷ []

abbrev pub msec_word : Str
msec_word = b'm' ∷ b's' ∷ b'e' ∷ b'c' ∷ []

abbrev pub csec_word : Str
csec_word = b'c' ∷ b's' ∷ b'e' ∷ b'c' ∷ []

abbrev pub xplsend_word : Str
xplsend_word = b'x' ∷ b'P' ∷ b'L' ∷ b'S' ∷ b'e' ∷ b'n' ∷ b'd' ∷ []

abbrev pub timerctrl_word : Str
timerctrl_word = b't' ∷ b'i' ∷ b'm' ∷ b'e' ∷ b'r' ∷ b'C' ∷ b't' ∷ b'r' ∷ b'l' ∷ []

abbrev pub setinput_word : Str
setinput_word = b's' ∷ b'e' ∷ b't' ∷ b'I' ∷ b'n' ∷ b'p' ∷ b'u' ∷ b't' ∷ []

abbrev pub clearstate_word : Str
clearstate_word = b'c' ∷ b'l' ∷ b'e' ∷ b'a' ∷ b'r' ∷ b'S' ∷ b't' ∷ b'a' ∷ b't' ∷ b'e' ∷ []

abbrev pub trigger_word : Str
trigger_word = b't' ∷ b'r' ∷ b'i' ∷ b'g' ∷ b'g' ∷ b'e' ∷ b'r' ∷ []

abbrev pub status_word : Str
status_word = b's' ∷ b't' ∷ b'a' ∷ b't' ∷ b'u' ∷ b's' ∷ []

abbrev pub xpl_trig : Str
xpl_trig = b'x' ∷ b'p' ∷ b'l' ∷ b'-' ∷ b't' ∷ b'r' ∷ b'i' ∷ b'g' ∷ []

abbrev pub xpl_stat : Str
xpl_stat = b'x' ∷ b'p' ∷ b'l' ∷ b'-' ∷ b's' ∷ b't' ∷ b'a' ∷ b't' ∷ []

abbrev pub xpl_cmnd : Str
xpl_cmnd = b'x' ∷ b'p' ∷ b'l' ∷ b'-' ∷ b'c' ∷ b'm' ∷ b'n' ∷ b'd' ∷ []

abbrev pub control_basic : Str
control_basic =
    b'c' ∷ b'o' ∷ b'n' ∷ b't' ∷ b'r' ∷ b'o' ∷ b'l' ∷ b'.' ∷ b'b' ∷ b'a' ∷ b's' ∷ b'i' ∷ b'c' ∷ []

abbrev pub msgtype_word : Str
msgtype_word = b'm' ∷ b's' ∷ b'g' ∷ b't' ∷ b'y' ∷ b'p' ∷ b'e' ∷ []

abbrev pub schema_word : Str
schema_word = b's' ∷ b'c' ∷ b'h' ∷ b'e' ∷ b'm' ∷ b'a' ∷ []

abbrev pub source_word : Str
source_word = b's' ∷ b'o' ∷ b'u' ∷ b'r' ∷ b'c' ∷ b'e' ∷ []

abbrev pub target_word : Str
target_word = b't' ∷ b'a' ∷ b'r' ∷ b'g' ∷ b'e' ∷ b't' ∷ []

abbrev pub hop_text : Str
hop_text =
    10 ∷ b'{' ∷ 10 ∷ b'h' ∷ b'o' ∷ b'p' ∷ b'=' ∷ b'1' ∷ 10 ∷ b's' ∷ b'o' ∷ b'u' ∷ b'r' ∷ b'c' ∷ b'e'
    ∷ b'=' ∷ []

abbrev pub target_text : Str
target_text = 10 ∷ b't' ∷ b'a' ∷ b'r' ∷ b'g' ∷ b'e' ∷ b't' ∷ b'=' ∷ []

abbrev pub close_text : Str
close_text = 10 ∷ b'}' ∷ 10 ∷ []

abbrev pub open_text : Str
open_text = 10 ∷ b'{' ∷ 10 ∷ []

abbrev pub end_text : Str
end_text = b'}' ∷ 10 ∷ []

abbrev pub star : Str
star = b'*' ∷ []
