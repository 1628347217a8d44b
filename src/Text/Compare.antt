-- ===== src/Text/Compare.antt =====
-- src/mea_string_utils.c: mea_strcmplower, mea_strcmplower2 and mea_strncmplower, which compare
-- strings of ASCII characters without regard to case. `none` is NULL.
pub mod Equal
use mea_edomus_lite.Common.{
  ℕ, zero, suc, ◌+◌, ◌-◌, Bool, Option, none, some, List, [], ◌∷◌, ◌==◌, ltb, if◌then◌else◌,
}
use mea_edomus_lite.Common.Int.{ℤ, pos, negsuc, sub_ℕ}
use mea_edomus_lite.Text.Char.{to_lower}

-- The character at a position, and the position behind it.
abbrev pub char_at : List ℕ → ℕ
char_at [] = 0
char_at (c ∷ s) = c

abbrev pub next_of : List ℕ → List ℕ
next_of [] = []
next_of (c ∷ s) = s

-- The loop of mea_strcmplower and the difference behind it.
unfoldable pub cmplower_loop : List ℕ → List ℕ → ℤ
cmplower_loop [] str2 = sub_ℕ (to_lower 0) (to_lower (char_at str2))
cmplower_loop (a ∷ str1) [] = sub_ℕ (to_lower a) (to_lower 0)
cmplower_loop (a ∷ str1) (b ∷ str2) =
    if to_lower a == to_lower b then cmplower_loop str1 str2 else sub_ℕ (to_lower a) (to_lower b)

-- mea_strcmplower
unfoldable pub strcmplower : Option (List ℕ) → Option (List ℕ) → ℤ
strcmplower none str2 = negsuc 0
strcmplower (some str1) none = negsuc 0
strcmplower (some str1) (some str2) = cmplower_loop str1 str2

-- The loop of mea_strcmplower2 and the tests behind it.
unfoldable pub cmplower2_loop : List ℕ → List ℕ → ℤ
cmplower2_loop [] str2 = if char_at str2 == 0 then pos 0 else negsuc 0
cmplower2_loop (a ∷ str1) str2 =
    if ltb (to_lower a) (to_lower (char_at str2))
    then negsuc 0
    else if ltb (to_lower (char_at str2)) (to_lower a)
    then pos 1
    else cmplower2_loop str1 (next_of str2)

-- mea_strcmplower2
unfoldable pub strcmplower2 : Option (List ℕ) → Option (List ℕ) → ℤ
strcmplower2 none str2 = pos 0
strcmplower2 (some str1) none = pos 0
strcmplower2 (some str1) (some str2) = cmplower2_loop str1 str2

-- The loop of mea_strncmplower and the test behind it, `n` being what is left of its bound.
unfoldable pub ncmplower_loop : ℕ → List ℕ → List ℕ → ℤ
ncmplower_loop zero str1 str2 = pos 0
ncmplower_loop (suc n) [] str2 = if char_at str2 == 0 then pos 0 else pos 1
ncmplower_loop (suc n) (a ∷ str1) str2 =
    if to_lower a == to_lower (char_at str2) then ncmplower_loop n str1 (next_of str2) else pos 1

-- mea_strncmplower
unfoldable pub strncmplower : Option (List ℕ) → Option (List ℕ) → ℤ → ℤ
strncmplower none str2 n = pos 0
strncmplower (some str1) none n = pos 0
strncmplower (some str1) (some str2) (negsuc n) = pos 0
strncmplower (some str1) (some str2) (pos n) = ncmplower_loop n str1 str2
