-- ===== src/Text/Escape.antt =====
-- src/mea_string_utils.c: mea_strcpy_escs, mea_strcpy_escd and mea_strlen_escaped, which copy a
-- string while removing (escs) or adding (escd) backslashes.
pub mod RoundTrip
use mea_edomus_lite.Common.{
  ℕ, ◌+◌, Bool, true, false, Option, none, some, List, [], ◌∷◌, ◌++◌, ◌||◌, ◌==◌, if◌then◌else◌,
}
use mea_edomus_lite.Text.Char.{backslash, quote, hash}

-- What a copy leaves: its return value (true for 0, false for -1) and the destination.
pub record Copy : Type 0 where
  pub done : Bool
  pub dest : List ℕ

abbrev pub copied : List ℕ → Copy
copied d = record { done = true; dest = d }

-- `dest[0]=0; return -1;`
abbrev pub refused : Copy
refused = record { done = false; dest = [] }

-- The inner switch of mea_strcpy_escs: what the character after a backslash stands for.
unfoldable pub escaped_char : ℕ → Option ℕ
escaped_char c =
    if (c == backslash) || (c == quote) || (c == hash)
    then some c
    else if c == b'n'
    then some 10
    else if c == b'r'
    then some 13
    else none

-- The loop of mea_strcpy_escs, `dest` being what it has written. A backslash that ends the source
-- reads the NUL, which no case of the switch takes.
unfoldable pub escs_loop : List ℕ → List ℕ → Copy
unfolding escaped_char
escs_loop dest [] = copied dest
escs_loop dest (c ∷ []) = if c == backslash then refused else copied (dest ++ c ∷ [])
escs_loop dest (c ∷ e ∷ source) = elim (c == backslash) [
  | true ↦ elim (escaped_char e) [ none ↦ refused | some x ↦ escs_loop (dest ++ x ∷ []) source ]
  | false ↦ escs_loop (dest ++ c ∷ []) (e ∷ source)
]

-- mea_strcpy_escs
unfoldable pub strcpy_escs : List ℕ → Copy
unfolding escs_loop
strcpy_escs source = escs_loop [] source

-- The switch of mea_strcpy_escd: what it writes for a character.
unfoldable pub escape_char : ℕ → List ℕ
escape_char c =
    if (c == backslash) || (c == quote) || (c == hash)
    then backslash ∷ c ∷ []
    else if c == 10
    then backslash ∷ b'n' ∷ []
    else if c == 13
    then backslash ∷ b'r' ∷ []
    else c ∷ []

unfoldable pub escd_loop : List ℕ → List ℕ → List ℕ
unfolding escape_char
escd_loop dest [] = dest
escd_loop dest (c ∷ source) = escd_loop (dest ++ escape_char c) source

-- mea_strcpy_escd, which always returns 0
unfoldable pub strcpy_escd : List ℕ → Copy
unfolding escd_loop
strcpy_escd source = copied (escd_loop [] source)

-- The loop of mea_strlen_escaped, with its counter `j`.
unfoldable pub strlen_loop : ℕ → List ℕ → ℕ
strlen_loop j [] = j
strlen_loop j (c ∷ s) =
    strlen_loop
      ((if (c == backslash) || (c == quote) || (c == 10) || (c == 13) || (c == hash)
          then j + 1
          else j)
        + 1)
      s

-- mea_strlen_escaped
unfoldable pub strlen_escaped : List ℕ → ℕ
unfolding strlen_loop
strlen_escaped s = strlen_loop 0 s
