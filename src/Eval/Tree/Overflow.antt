-- ===== src/Eval/Tree/Overflow.antt =====
-- src/mea_eval.c: the loop does not test that its array of operators has room.
use mea_edomus_lite.Common.{ℕ, zero, suc, List, [], ◌∷◌, ◌++◌}
use mea_edomus_lite.Text.Char.{hash}

-- #t * #t + #t * #t + ... + #t, with k products.
abbrev pub products : List ℕ → ℕ → List ℕ
products t zero = hash ∷ t
products t (suc k) = hash ∷ t ++ b'*' ∷ (hash ∷ t ++ b'+' ∷ products t k)

-- k times the operator +
abbrev plusses : ℕ → List ℕ
plusses zero = []
plusses (suc k) = b'+' ∷ plusses k
