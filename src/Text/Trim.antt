-- ===== src/Text/Trim.antt =====
-- src/mea_string_utils.c: the functions that cut blanks off a string. `undefined` is a read in front
-- of the string.
pub mod Laws
use mea_edomus_lite.Common.{
  ℕ, zero, suc, ◌+◌, Bool, true, false, Option, none, some, List, [], ◌∷◌, ◌++◌, ◌==◌,
  if◌then◌else◌, length, take, get_elem?,
}
use mea_edomus_lite.Text.Char.{is_space, to_lower}

-- `while(*s && *s==' ') ++s;`
unfoldable pub skip_spaces : List ℕ → List ℕ
skip_spaces [] = []
skip_spaces (c ∷ s) = if c == b' ' then skip_spaces s else c ∷ s

-- The loop of mea_strcpytrim and mea_strcpytrimlower: `written` is what lies between the start of
-- the destination and d, `p` the length in front of p.
unfoldable pub trim_loop : (ℕ → ℕ) → List ℕ → ℕ → List ℕ → List ℕ
trim_loop f written p [] = take p written
trim_loop f written p (c ∷ s) =
    trim_loop f (written ++ f c ∷ []) (if c == b' ' then p else length written + 1) s

-- mea_strcpytrim
unfoldable pub strcpytrim : List ℕ → List ℕ
strcpytrim s = trim_loop (λ c. c) [] 0 (skip_spaces s)

-- mea_strcpytrimlower
unfoldable pub strcpytrimlower : List ℕ → List ℕ
strcpytrimlower s = trim_loop to_lower [] 0 (skip_spaces s)

-- mea_strltrim, of a string that is not NULL; mea_strltrim2 and mea_strltrim_alloc leave the same
-- text elsewhere.
unfoldable pub strltrim : List ℕ → List ℕ
strltrim [] = []
strltrim (c ∷ s) = if is_space c then strltrim s else c ∷ s

pub data Trimmed : Type 0 where
  trimmed : List ℕ → Trimmed
  undefined : Trimmed

-- One step of the loop of mea_strrtrim, by the character there; `here` is where the string would
-- end and `back` what is found further to the front.
unfoldable pub back_at : Option ℕ → Trimmed → Trimmed → Trimmed
back_at none here back = undefined
back_at (some c) here back = if is_space c then back else here

-- `while(isspace(*--back)); *(back+1) = 0;` with back at the given distance from the start.
unfoldable pub back_loop : List ℕ → ℕ → Trimmed
back_loop s zero = undefined
back_loop s (suc i) = back_at (get_elem? s i) (trimmed (take (suc i) s)) (back_loop s i)

-- mea_strrtrim, of a string that is not NULL; mea_strrtrim_alloc does it to a copy.
unfoldable pub strrtrim : List ℕ → Trimmed
strrtrim [] = trimmed []
strrtrim (c ∷ s) = back_loop (c ∷ s) (length (c ∷ s))

-- mea_strtrim; mea_strtrim2 and mea_strtrim_alloc leave the same text elsewhere.
unfoldable pub strtrim : List ℕ → Trimmed
strtrim s = strrtrim (strltrim s)
