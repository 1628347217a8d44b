-- ===== src/Automator/Values.antt =====
-- src/automator.c: values, their conversion from and to text, and their comparison.
pub mod Order
use mea_edomus_lite.Common.{
  ℕ, ◌-◌, Bool, true, false, not, Option, none, some, List, [], ◌∷◌, ◌==◌, ◌&&◌, ◌||◌, length, take,
  if◌then◌else◌, str_eq, ltb,
}
use mea_edomus_lite.Common.Int.{ℤ, pos, negsuc, ◌-ℤ◌}
use mea_edomus_lite.Eval.Double.{Doubles}
use mea_edomus_lite.Text.Compare.{strcmplower}
use mea_edomus_lite.Automator.{Str, Reals, Value, number, string, boolean, undefined}

-- VALUE_MAX_STR_SIZE - 1
abbrev pub max_len : ℕ
max_len = 100

-- TRUE_STR_C, FALSE_STR_C, HIGH_STR_C and LOW_STR_C
abbrev pub true_str : Str
true_str = b't' ∷ b'r' ∷ b'u' ∷ b'e' ∷ []

abbrev pub false_str : Str
false_str = b'f' ∷ b'a' ∷ b'l' ∷ b's' ∷ b'e' ∷ []

abbrev pub high_str : Str
high_str = b'h' ∷ b'i' ∷ b'g' ∷ b'h' ∷ []

abbrev pub low_str : Str
low_str = b'l' ∷ b'o' ∷ b'w' ∷ []

-- getBoolean: `*b`, or none where it returns -1.
unfoldable pub get_boolean : Str → Option ℤ
get_boolean s =
    if str_eq s (b'1' ∷ []) || (str_eq s true_str || str_eq s high_str)
    then some (pos 1)
    else if str_eq s (b'0' ∷ []) || (str_eq s false_str || str_eq s low_str)
    then some (pos 0)
    else none

-- enum comparator_e
pub data Comparator : Type 0 where
  o_eq : Comparator
  o_ne : Comparator
  o_gr : Comparator
  o_lo : Comparator
  o_ge : Comparator
  o_le : Comparator

unfoldable pub two_chars : ℕ → Option Comparator
two_chars c =
    if c == b'='
    then some o_eq
    else if c == b'!'
    then some o_ne
    else if c == b'>'
    then some o_ge
    else if c == b'<'
    then some o_le
    else none

unfoldable pub one_char : ℕ → Option Comparator
one_char c = if c == b'>' then some o_gr else if c == b'<' then some o_lo else none

-- getComparator; none is -1. The empty string is read one character behind its end in C, and then
-- finds no operator in front.
unfoldable pub get_comparator : Str → Option Comparator
get_comparator [] = none
get_comparator (c ∷ []) = one_char c
get_comparator (c ∷ d ∷ []) = if d == b'=' then two_chars c else none
get_comparator (c ∷ d ∷ x ∷ s) = none

-- enum conversion_e, as far as value_toStr tells its flags apart.
pub record Conversion : Type 0 where
  pub int : Bool
  pub highlow : Bool
  pub truefalse : Bool

-- cmp == 0, cmp > 0 and the other tests of value_cmp.
abbrev pub is_negative : ℤ → Bool
is_negative (pos n) = false
is_negative (negsuc n) = true

abbrev pub is_null : ℤ → Bool
is_null (pos n) = n == 0
is_null (negsuc n) = false

unfoldable pub compares : Comparator → ℤ → Bool
compares o_eq cmp = is_null cmp
compares o_ne cmp = not (is_null cmp)
compares o_gr cmp = not (is_negative cmp) && not (is_null cmp)
compares o_lo cmp = is_negative cmp
compares o_ge cmp = not (is_negative cmp)
compares o_le cmp = is_negative cmp || is_null cmp

-- Values of different types: only `different` holds.
unfoldable pub differs : Comparator → Bool
differs o_ne = true
differs o_eq = false
differs o_gr = false
differs o_lo = false
differs o_ge = false
differs o_le = false

-- snprintf of %d
abbrev pub Digits : Type 0
Digits = ℤ → Str

module _ {D : Type 0} (rl : Reals D) where
  abbrev whole : D × List ℕ → Option D
  whole (d, []) = some d
  whole (d, c ∷ s) = none

  -- getNumber: `*v`, or none where it returns -1. Where no number starts at s, strtod leaves n at s,
  -- and the value is 0.
  unfoldable pub get_number : Str → Option D
  get_number s = elim (rl.fp.strtod s) [ none ↦ whole (rl.origin, s) | some r ↦ whole r ]

  unfoldable pub value_of_text : Str → Option ℤ → Value D
  value_of_text str (some b) = boolean b
  value_of_text str none = string (take max_len str)

  unfoldable pub value_of : Str → Option D → Value D
  unfolding value_of_text get_boolean
  value_of str (some f) = number f
  value_of str none = value_of_text str (get_boolean str)

  -- value_setFromStr, and _value_setFromStr without its trimFlag, which no call sets.
  unfoldable pub value_set_from_str : Str → Value D
  unfolding value_of get_number
  value_set_from_str str = value_of str (get_number str)

  -- The sign of a difference of two numbers.
  unfoldable pub sign_of : D → ℤ
  sign_of diff =
      if rl.eq diff rl.origin then pos 0 else if rl.lt diff rl.origin then negsuc 0 else pos 1

  -- value_cmp, with a comparator that getComparator returned.
  unfoldable pub value_cmp : Value D → Comparator → Value D → Bool
  unfolding compares differs sign_of
  value_cmp (number a) op (number b) = compares op (sign_of (rl.fp.sub a b))
  value_cmp (string a) op (string b) = compares op (strcmplower (some a) (some b))
  value_cmp (boolean a) op (boolean b) = compares op (a -ℤ b)
  value_cmp (undefined a) op (undefined b) = compares op (a -ℤ b)
  value_cmp (number a) op (string b) = differs op
  value_cmp (number a) op (boolean b) = differs op
  value_cmp (number a) op (undefined b) = differs op
  value_cmp (string a) op (number b) = differs op
  value_cmp (string a) op (boolean b) = differs op
  value_cmp (string a) op (undefined b) = differs op
  value_cmp (boolean a) op (number b) = differs op
  value_cmp (boolean a) op (string b) = differs op
  value_cmp (boolean a) op (undefined b) = differs op
  value_cmp (undefined a) op (number b) = differs op
  value_cmp (undefined a) op (string b) = differs op
  value_cmp (undefined a) op (boolean b) = differs op

  unfoldable pub flag_to_str : Digits → ℤ → Conversion → Str
  flag_to_str digits b flag =
      if flag.highlow
      then if is_null b then low_str else high_str
      else if flag.truefalse
      then if is_null b then false_str else true_str
      else digits b

  unfoldable pub number_to_str : Digits → D → Conversion → Str
  number_to_str digits f flag = if flag.int then digits (rl.fp.to_int f) else rl.print f

  -- value_toStr: what stays of the text in a buffer of l_str bytes. snprintf is given one byte less,
  -- of which one is for the terminator.
  unfoldable pub value_to_str : Digits → Value D → ℕ → Conversion → Str
  unfolding flag_to_str number_to_str
  value_to_str digits (number f) l_str flag = take (l_str - 2) (number_to_str digits f flag)
  value_to_str digits (string s) l_str flag = take (l_str - 1) s
  value_to_str digits (boolean b) l_str flag =
      take (if flag.highlow || flag.truefalse then l_str - 1 else l_str - 2)
        (flag_to_str digits b flag)
  value_to_str digits (undefined b) l_str flag =
      take (if flag.highlow || flag.truefalse then l_str - 1 else l_str - 2)
        (flag_to_str digits b flag)

  -- val.strval of a value of any type
  unfoldable pub text_of : Value D → Str
  text_of (number d) = rl.bytes d
  text_of (string s) = s
  text_of (boolean b) = if is_null b then [] else 1 ∷ []
  text_of (undefined b) = []
