-- ===== src/Text/Split.antt =====
-- src/mea_string_utils.c: mea_strsplit, which cuts a string at a separator.
pub mod Join
use mea_edomus_lite.Common.{ℕ, ◌+◌, Bool, List, [], ◌∷◌, ◌++◌, ◌==◌, ltb, if◌then◌else◌}

-- The tokens; -1; a write to a table of no tokens at all.
pub data Tokens : Type 0 where
  tokens : List (List ℕ) → Tokens
  too_many : Tokens
  no_table : Tokens

-- The loop: `j` is the number of the current token, `done` are those before it, `token` is what has
-- been read of it.
unfoldable pub split_loop : ℕ → ℕ → ℕ → List (List ℕ) → List ℕ → List ℕ → Tokens
split_loop separator l_tokens j done token [] = tokens (done ++ token ∷ [])
split_loop separator l_tokens j done token (c ∷ str) =
    if c == separator
    then (if ltb (j + 1) l_tokens
        then split_loop separator l_tokens (j + 1) (done ++ token ∷ []) [] str
        else too_many)
    else split_loop separator l_tokens j done (token ++ c ∷ []) str

-- mea_strsplit
unfoldable pub strsplit : List ℕ → ℕ → ℕ → Tokens
strsplit str separator l_tokens =
    if l_tokens == 0 then no_table else split_loop separator l_tokens 0 [] [] str
