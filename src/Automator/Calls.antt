-- ===== src/Automator/Calls.antt =====
-- src/automator.c: function_getNum, which takes a call apart, and mea_strncpytrim of
-- src/mea_string_utils.c, which cuts a value's text to the size of its buffer.
pub mod Names
use mea_edomus_lite.Common.{
  ℕ, zero, suc, ◌+◌, ◌-◌, Bool, true, false, Option, none, some, List, [], ◌∷◌, ◌++◌, ◌==◌, ◌&&◌,
  ◌||◌, length, take, if◌then◌else◌, str_eq,
}
use mea_edomus_lite.Text.Char.{is_alpha, is_digit}
use mea_edomus_lite.Text.Trim.{skip_spaces}
use mea_edomus_lite.Automator.{Str}

-- enum function_e
pub data Function : Type 0 where
  f_now : Function
  f_not : Function
  f_calcn : Function
  f_exist : Function
  f_rise : Function
  f_fall : Function
  f_startup : Function
  f_stay : Function
  f_change : Function
  f_date : Function
  f_second : Function
  f_time : Function
  f_timer : Function
  f_timerstatus : Function
  f_sunrise : Function
  f_sunset : Function
  f_twilightstart : Function
  f_twilightend : Function
  f_xplmsgdata : Function
  f_tohlstr : Function
  f_totfstr : Function

-- functionsList2
abbrev pub functions_list : List (Str × Function)
functions_list =
    (b'c' ∷ b'a' ∷ b'l' ∷ b'c' ∷ b'n' ∷ [], f_calcn)
    ∷ (b'c' ∷ b'h' ∷ b'a' ∷ b'n' ∷ b'g' ∷ b'e' ∷ [], f_change)
    ∷ (b'd' ∷ b'a' ∷ b't' ∷ b'e' ∷ [], f_date)
    ∷ (b'e' ∷ b'x' ∷ b'i' ∷ b's' ∷ b't' ∷ [], f_exist)
    ∷ (b'f' ∷ b'a' ∷ b'l' ∷ b'l' ∷ [], f_fall)
    ∷ (b'n' ∷ b'o' ∷ b't' ∷ [], f_not)
    ∷ (b'n' ∷ b'o' ∷ b'w' ∷ [], f_now)
    ∷ (b'r' ∷ b'i' ∷ b's' ∷ b'e' ∷ [], f_rise)
    ∷ (b's' ∷ b'e' ∷ b'c' ∷ b'o' ∷ b'n' ∷ b'd' ∷ [], f_second)
    ∷ (b's' ∷ b't' ∷ b'a' ∷ b'r' ∷ b't' ∷ b'u' ∷ b'p' ∷ [], f_startup)
    ∷ (b's' ∷ b't' ∷ b'a' ∷ b'y' ∷ [], f_stay)
    ∷ (b's' ∷ b'u' ∷ b'n' ∷ b'r' ∷ b'i' ∷ b's' ∷ b'e' ∷ [], f_sunrise)
    ∷ (b's' ∷ b'u' ∷ b'n' ∷ b's' ∷ b'e' ∷ b't' ∷ [], f_sunset)
    ∷ (
      b't' ∷ b'i' ∷ b'm' ∷ b'e' ∷ b'r' ∷ b's' ∷ b't' ∷ b'a' ∷ b't' ∷ b'u' ∷ b's' ∷ [],
      f_timerstatus,
    )
    ∷ (b't' ∷ b'i' ∷ b'm' ∷ b'e' ∷ b'r' ∷ [], f_timer)
    ∷ (b't' ∷ b'i' ∷ b'm' ∷ b'e' ∷ [], f_time)
    ∷ (b't' ∷ b'o' ∷ b'h' ∷ b'l' ∷ b's' ∷ b't' ∷ b'r' ∷ [], f_tohlstr)
    ∷ (b't' ∷ b'o' ∷ b't' ∷ b'f' ∷ b's' ∷ b't' ∷ b'r' ∷ [], f_totfstr)
    ∷ (
      b't' ∷ b'w' ∷ b'i' ∷ b'l' ∷ b'i' ∷ b'g' ∷ b'h' ∷ b't' ∷ b's' ∷ b't' ∷ b'a' ∷ b'r' ∷ b't' ∷ [],
      f_twilightstart,
    )
    ∷ (
      b't' ∷ b'w' ∷ b'i' ∷ b'l' ∷ b'i' ∷ b'g' ∷ b'h' ∷ b't' ∷ b'e' ∷ b'n' ∷ b'd' ∷ [],
      f_twilightend,
    )
    ∷ (b'x' ∷ b'p' ∷ b'l' ∷ b'm' ∷ b's' ∷ b'g' ∷ b'd' ∷ b'a' ∷ b't' ∷ b'a' ∷ [], f_xplmsgdata)
    ∷ []

unfoldable pub is_alnum : ℕ → Bool
unfolding is_alpha is_digit
is_alnum c = is_alpha c || is_digit c

-- `while(l && isalnum(*str))`: the name in fn, and the text from str on.
unfoldable pub take_name : ℕ → Str → Str × Str
take_name zero str = ([], str)
take_name (suc l) [] = ([], [])
take_name (suc l) (c ∷ str) =
    let rest = take_name l str in if is_alnum c then (c ∷ rest.0, rest.1) else ([], c ∷ str)

-- The entry of functionsList2 whose name is fn.
unfoldable pub lookup : Str → List (Str × Function) → Option Function
lookup fn [] = none
lookup fn ((name, num) ∷ list) = if str_eq fn name then some num else lookup fn list

-- The copy up to `]`, and the text from there. The room of l_params is that of the whole string, so
-- that it does not end the copy.
unfoldable pub take_params : Str → Str × Str
take_params [] = ([], [])
take_params (c ∷ str) =
    let rest = take_params str in if c == b']' then ([], c ∷ str) else (c ∷ rest.0, rest.1)

-- What function_getNum returns, and `params`: -1 is `no_call`. `overrun` is the terminator written
-- behind fn.
pub data Call : Type 0 where
  call : Function → Str → Call
  no_call : Call
  overrun : Call

-- `*str==']' && *(str+1)==0`
unfoldable pub closed : Function → Str × Str → Call
closed num (params, []) = no_call
closed num (params, c ∷ []) = if c == b']' then call num params else no_call
closed num (params, c ∷ d ∷ str) = no_call

unfoldable pub with_params : Option Function → Str → Call
unfolding closed
with_params none str = no_call
with_params (some num) str = closed num (take_params str)

-- `if(*str!='[')`
unfoldable pub bracket : Str → Str → Call
unfolding with_params
bracket fn [] = no_call
bracket fn (c ∷ str) = if c == b'[' then with_params (lookup fn functions_list) str else no_call

-- VALUE_MAX_STR_SIZE, the size of fn
abbrev pub name_size : ℕ
name_size = 101

-- `*fnPtr=0` with fnPtr behind the name
unfoldable pub terminated : Str × Str → Call
unfolding bracket
terminated (fn, str) = if length fn == name_size then overrun else bracket fn str

-- function_getNum
unfoldable pub function_get_num : Str → Call
unfolding terminated
function_get_num str = terminated (take_name name_size str)

-- The loop of mea_strncpytrim, `written` being what lies in front of d, and `p` the length in front
-- of p. Where n runs out, no terminator is written and the caller ends the string there.
unfoldable pub ncpytrim_loop : ℕ → Str → ℕ → Str → Str
ncpytrim_loop zero written p s = written
ncpytrim_loop (suc n) written p [] = take p written
ncpytrim_loop (suc n) written p (c ∷ s) =
    ncpytrim_loop n (written ++ c ∷ []) (if c == b' ' then p else length written + 1) s

-- mea_strncpytrim, with `d[n] = 0` behind it.
unfoldable pub strncpytrim : Str → ℕ → Str
strncpytrim s n = ncpytrim_loop n [] 0 (skip_spaces s)
