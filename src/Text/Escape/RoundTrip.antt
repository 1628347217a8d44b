-- ===== src/Text/Escape/RoundTrip.antt =====
-- src/mea_string_utils.c: escd and then escs gives the text back, and strlen_escaped is the size of
-- what escd writes.
use mea_edomus_lite.Common.{
  ℕ, ◌+◌, ◌≡◌, false, List, [], ◌∷◌, ◌++◌, ◌||◌, ◌==◌, if◌then◌else◌, arith, append_assoc,
  append-nil, length, length-append, ◌∙◌, ap,
}
use mea_edomus_lite.Text.Char.{backslash, quote, hash}
use mea_edomus_lite.Text.Escape.{
  copied, escs_loop, strcpy_escs, escape_char, escd_loop, strcpy_escd, strlen_loop, strlen_escaped,
}

-- What escd writes, without its accumulator.
abbrev pub escape_all : List ℕ → List ℕ
escape_all [] = []
escape_all (c ∷ s) = escape_char c ++ escape_all s

pub escd_loop-append : (d s : List ℕ) → escd_loop d s ≡ d ++ escape_all s
unfolding escd_loop
escd_loop-append d [] = rw append-nil
escd_loop-append d (c ∷ s) =
    escd_loop-append (d ++ escape_char c) s ∙ append_assoc d (escape_char c) (escape_all s)

-- A character that stands for itself, before any text.
escs_loop-plain :
    (d : List ℕ) (c : ℕ) (r : List ℕ)
    → (c == backslash) ≡ false
    → escs_loop d (c ∷ r) ≡ escs_loop (d ++ c ∷ []) r
unfolding escs_loop
escs_loop-plain d c [] h = rw h
escs_loop-plain d c (e ∷ r) h = rw (h, escs_loop)

escs_loop-escape_char :
    (d : List ℕ) (c : ℕ) (r : List ℕ) → escs_loop d (escape_char c ++ r) ≡ escs_loop (d ++ c ∷ []) r
unfolding escape_char escs_loop
escs_loop-escape_char d c r = ground (arith, escs_loop-plain d c r)

escs_loop-escape_all : (d s : List ℕ) → escs_loop d (escape_all s) ≡ copied (d ++ s)
escs_loop-escape_all d [] = unfold escs_loop in rw append-nil
escs_loop-escape_all d (c ∷ s) =
    escs_loop-escape_char d c (escape_all s)
    ∙ escs_loop-escape_all (d ++ c ∷ []) s
    ∙ ap copied (append_assoc d (c ∷ []) s)

-- Escaping any string with mea_strcpy_escd and unescaping the result with mea_strcpy_escs succeeds
-- and gives the string back.
pub strcpy_escs-strcpy_escd : (s : List ℕ) → strcpy_escs (strcpy_escd s).dest ≡ copied s
unfolding strcpy_escs strcpy_escd
strcpy_escs-strcpy_escd s = rw escd_loop-append (escs_loop-escape_all [] s)

length-escape_char :
    (c : ℕ)
    → length (escape_char c)
      ≡ (if (c == backslash) || (c == quote) || (c == 10) || (c == 13) || (c == hash) then 2 else 1)
unfolding escape_char
length-escape_char c = ground arith

strlen_loop-length : (j : ℕ) (s : List ℕ) → strlen_loop j s ≡ j + length (escape_all s)
unfolding strlen_loop
strlen_loop-length j [] = omega arith
strlen_loop-length j (c ∷ s) = ground (
  arith,
  length-escape_char c,
  length-append (escape_char c) (escape_all s),
  strlen_loop-length (j + 1) s,
  strlen_loop-length (j + 1 + 1) s,
)

-- mea_strlen_escaped counts exactly the characters that mea_strcpy_escd writes before the NUL, for
-- every string.
pub strlen_escaped-length-strcpy_escd :
    (s : List ℕ) → strlen_escaped s ≡ length (strcpy_escd s).dest
unfolding strlen_escaped strcpy_escd
strlen_escaped-length-strcpy_escd s = rw (strlen_loop-length, escd_loop-append) (omega arith)
