-- ===== src/Text/Tests.antt =====
-- The string helpers of src/mea_string_utils.c on concrete strings, and the theorems on them at
-- inputs that meet their hypotheses.
use mea_edomus_lite.Common.{ℕ, ◌≡◌, refl, List, [], ◌∷◌, arith}
use mea_edomus_lite.Text.Char.{backslash, quote, is_digit}
use mea_edomus_lite.Text.Escape.{copied, refused, strcpy_escs, strcpy_escd}
use mea_edomus_lite.Text.Escape.RoundTrip.{strcpy_escs-strcpy_escd}
use mea_edomus_lite.Text.Unescape.{unescape}
use mea_edomus_lite.Text.Unescape.Laws.{unescape-strcpy_escs}

-- "a"\
abbrev quoted : List ℕ
quoted = quote ∷ b'a' ∷ quote ∷ backslash ∷ []

abbrev escaped : List ℕ
escaped = backslash ∷ quote ∷ b'a' ∷ backslash ∷ quote ∷ backslash ∷ backslash ∷ []

escd_test : strcpy_escd quoted ≡ copied escaped
unfolding strcpy_escd
escd_test = refl

escs_test : strcpy_escs escaped ≡ copied quoted
unfolding strcpy_escs
escs_test = refl

trailing_backslash : strcpy_escs (b'a' ∷ backslash ∷ []) ≡ refused
unfolding strcpy_escs
trailing_backslash = refl

-- \101\n
octal_test : unescape (backslash ∷ b'1' ∷ b'0' ∷ b'1' ∷ backslash ∷ b'n' ∷ []) ≡ b'A' ∷ 10 ∷ []
unfolding unescape is_digit
octal_test = refl

strcpy_escs-strcpy_escd_example : strcpy_escs (strcpy_escd quoted).dest ≡ copied quoted
strcpy_escs-strcpy_escd_example = strcpy_escs-strcpy_escd quoted

unescape-strcpy_escs_example : unescape escaped ≡ quoted
unfolding strcpy_escs
unescape-strcpy_escs_example = unescape-strcpy_escs escaped quoted (omega arith) refl
