-- ===== src/Text/Unescape.antt =====
-- src/mea_string_utils.c: mea_unescape, the escapes of C string literals, octal ones included.
pub mod Laws
use mea_edomus_lite.Common.{
  ℕ, zero, suc, ◌+◌, ◌-◌, ◌*◌, ◌%◌, Bool, true, false, Option, none, some, List, [], ◌∷◌, ◌++◌,
  ◌||◌, ◌&&◌, ◌==◌, not, if◌then◌else◌, length,
}
use mea_edomus_lite.Text.Char.{backslash, is_digit}

-- #define ISOCTAL(c)
unfoldable pub is_octal : ℕ → Bool
unfolding is_digit
is_octal c = is_digit c && not (c == b'8') && not (c == b'9')

-- The inner switch, without its octal cases.
unfoldable pub unescape_char : ℕ → ℕ
unescape_char c =
    if c == b'a'
    then 7
    else if c == b'b'
    then 8
    else if c == b'f'
    then 12
    else if c == b'n'
    then 10
    else if c == b'r'
    then 13
    else if c == b't'
    then 9
    else if c == b'v'
    then 11
    else c

-- `oval << 3 | (ch - '0')` at an octal digit, whose three bits are then free.
unfoldable pub octal_step : ℕ → ℕ → ℕ
octal_step oval c = oval * 8 + (c - b'0')

-- Storing an int in a char keeps its low byte.
abbrev pub to_char : ℕ → ℕ
to_char n = n % 256

-- The inner loop of the octal cases: `k` more digits at most. It gives the value and the data left.
unfoldable pub octal_loop : ℕ → ℕ → List ℕ → ℕ × List ℕ
unfolding octal_step is_octal
octal_loop zero oval data' = (oval, data')
octal_loop (suc k) oval [] = (oval, [])
octal_loop (suc k) oval (c ∷ data') =
    let more = octal_loop k (octal_step oval c) data' in
    if is_octal c then more else (oval, c ∷ data')

-- One pass of the outer loop behind a backslash: the character stored, and the data left.
unfoldable pub unescape_step : ℕ → List ℕ → ℕ × List ℕ
unfolding octal_loop unescape_char
unescape_step e data' =
    if is_octal e then octal_loop 2 (e - b'0') data' else (unescape_char e, data')

-- The outer loop on fuel; `result` is what has been written. A backslash before the NUL ends it.
unfoldable pub unescape_loop : ℕ → List ℕ → List ℕ → List ℕ
unfolding unescape_step
unescape_loop zero result data' = result
unescape_loop (suc f) result [] = result
unescape_loop (suc f) result (c ∷ []) = if c == backslash then result else result ++ to_char c ∷ []
unescape_loop (suc f) result (c ∷ e ∷ data') = elim (c == backslash) [
  | false ↦ unescape_loop f (result ++ to_char c ∷ []) (e ∷ data')
  | true ↦
      let stored = unescape_step e data' in
      unescape_loop f (result ++ to_char stored.0 ∷ []) stored.1
]

-- mea_unescape: each pass consumes a byte, so the length of the data is fuel enough.
unfoldable pub unescape : List ℕ → List ℕ
unfolding unescape_loop
unescape data' = unescape_loop (length data') [] data'
