-- ===== src/Text/Examples.antt =====
-- The trimming, splitting and comparing functions of src/mea_string_utils.c on concrete strings.
use mea_edomus_lite.Common.{ℕ, List, [], ◌∷◌}

-- "Ab" and "aBc"
abbrev short : List ℕ
short = b'A' ∷ b'b' ∷ []

abbrev longer : List ℕ
longer = b'a' ∷ b'B' ∷ b'c' ∷ []
