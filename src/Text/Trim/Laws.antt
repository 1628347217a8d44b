-- ===== src/Text/Trim/Laws.antt =====
-- What the trimming functions of src/mea_string_utils.c leave of a string with blanks around it.
use mea_edomus_lite.Common.{
  ℕ, zero, suc, ◌+◌, ◌≤◌, ◌≡◌, ◌≢◌, refl, ap, sym, ◌∙◌, Bool, true, false, some, List, [], ◌∷◌,
  ◌++◌, ◌==◌, if◌then◌else◌, arith, length, take, get_elem?, All, append_assoc, append-nil,
  length-append, map,
}
use mea_edomus_lite.Text.Char.{is_space, to_lower}
use mea_edomus_lite.Text.Trim.{
  skip_spaces, trim_loop, strcpytrim, strcpytrimlower, strltrim, trimmed, undefined, back_at,
  back_loop, strrtrim, strtrim,
}

-- Blanks, as `blank` tells them.
abbrev pub Blank : (ℕ → Bool) → List ℕ → Type 0
Blank blank s = All (λ c. blank c ≡ true) s

-- The text neither starts nor ends with a blank.
abbrev pub StartsSolid : (ℕ → Bool) → List ℕ → Type 0
StartsSolid blank [] = Unit
StartsSolid blank (c ∷ s) = blank c ≡ false

abbrev pub EndsSolid : (ℕ → Bool) → List ℕ → Type 0
EndsSolid blank [] = Unit
EndsSolid blank (c ∷ []) = blank c ≡ false
EndsSolid blank (c ∷ d ∷ s) = EndsSolid blank (d ∷ s)

abbrev pub space : ℕ → Bool
space c = c == b' '

pub suc-plus : (m k : ℕ) → suc m + k ≡ suc (m + k)
suc-plus m k = omega arith

pub plus-suc : (m k : ℕ) → m + suc k ≡ suc (m + k)
plus-suc m k = omega arith

pub zero-plus : (k : ℕ) → k ≡ 0 + k
zero-plus k = omega arith

pub map_id : (xs : List ℕ) → map (λ c. c) xs ≡ xs
map_id [] = refl
map_id (x ∷ xs) = ap (λ ys. x ∷ ys) (map_id xs)

pub take-append : (xs ys : List ℕ) → take (length xs) (xs ++ ys) ≡ xs
take-append [] ys = refl
take-append (x ∷ xs) ys = ap (λ zs. x ∷ zs) (take-append xs ys)

pub skip_spaces-Blank : (a s : List ℕ) → Blank space a → skip_spaces (a ++ s) ≡ skip_spaces s
unfolding skip_spaces
skip_spaces-Blank [] s blank = refl
skip_spaces-Blank (c ∷ a) s (blank, blanks) = rw (blank) (skip_spaces-Blank a s blanks)

-- Behind the text, blanks do not move p.
pub trim_loop-Blank :
    (f : ℕ → ℕ) (kept extra : List ℕ) (p : ℕ) (b : List ℕ)
    → Blank space b
    → p ≡ length kept
    → trim_loop f (kept ++ extra) p b ≡ kept
unfolding trim_loop
trim_loop-Blank f kept extra p [] blank at_end = rw (at_end) (take-append kept extra)
trim_loop-Blank f kept extra p (c ∷ b) (blank, blanks) at_end = rw (blank) (
    rw (append_assoc kept extra (f c ∷ []))
      (trim_loop-Blank f kept (extra ++ f c ∷ []) p b blanks at_end))

pub solid-end : (c p n : ℕ) → space c ≡ false → (if space c then p else n) ≡ n
solid-end c p n solid = rw (solid) refl

pub trim_loop-EndsSolid :
    (f : ℕ → ℕ) (written : List ℕ) (p c : ℕ) (t b : List ℕ)
    → EndsSolid space (c ∷ t)
    → Blank space b
    → trim_loop f written p ((c ∷ t) ++ b) ≡ written ++ map f (c ∷ t)
unfolding trim_loop
trim_loop-EndsSolid f written p c [] b solid blank =
    ap (λ n. trim_loop f (written ++ f c ∷ []) n b) (solid-end c p (length written + 1) solid)
    ∙ ap (λ w. trim_loop f w (length written + 1) b) (sym (append-nil (written ++ f c ∷ [])))
    ∙ trim_loop-Blank f (written ++ f c ∷ []) [] (length written + 1) b blank
        (sym (length-append written (f c ∷ [])))
trim_loop-EndsSolid f written p c (d ∷ t) b solid blank =
    trim_loop-EndsSolid f (written ++ f c ∷ []) (if c == b' ' then p else length written + 1) d t b
      solid blank
    ∙ append_assoc written (f c ∷ []) (map f (d ∷ t))

pub solid-head : (c : ℕ) (s t : List ℕ) → space c ≡ false → (if space c then s else t) ≡ t
solid-head c s t solid = rw (solid) refl

-- The text between blanks is what is left.
pub trim_loop-padded :
    (f : ℕ → ℕ) (a t b : List ℕ)
    → Blank space a
    → Blank space b
    → StartsSolid space t
    → EndsSolid space t
    → trim_loop f [] 0 (skip_spaces (a ++ (t ++ b))) ≡ map f t
unfolding skip_spaces trim_loop
trim_loop-padded f a [] b left right starts ends =
    ap (λ s. trim_loop f [] 0 s)
      (skip_spaces-Blank a b left
        ∙ ap skip_spaces (sym (append-nil b))
        ∙ skip_spaces-Blank b [] right)
trim_loop-padded f a (c ∷ t) b left right starts ends =
    ap (λ s. trim_loop f [] 0 s)
      (skip_spaces-Blank a ((c ∷ t) ++ b) left
        ∙ solid-head c (skip_spaces (t ++ b)) (c ∷ (t ++ b)) starts)
    ∙ trim_loop-EndsSolid f [] 0 c t b ends right

-- mea_strcpytrim leaves just the text between the spaces around it, and mea_strcpytrimlower that
-- text in small letters, also when there is nothing but spaces.
pub strcpytrim-padded :
    (a t b : List ℕ)
    → Blank space a
    → Blank space b
    → StartsSolid space t
    → EndsSolid space t
    → (strcpytrim (a ++ (t ++ b)) ≡ t) × (strcpytrimlower (a ++ (t ++ b)) ≡ map to_lower t)
unfolding strcpytrim strcpytrimlower
strcpytrim-padded a t b left right starts ends = (
  trim_loop-padded (λ c. c) a t b left right starts ends ∙ map_id t,
  trim_loop-padded to_lower a t b left right starts ends,
)

pub strltrim-Blank : (a s : List ℕ) → Blank is_space a → strltrim (a ++ s) ≡ strltrim s
unfolding strltrim
strltrim-Blank [] s blank = refl
strltrim-Blank (c ∷ a) s (blank, blanks) = rw (blank) (strltrim-Blank a s blanks)

pub strltrim-solid : (c : ℕ) (s : List ℕ) → is_space c ≡ false → strltrim (c ∷ s) ≡ c ∷ s
unfolding strltrim
strltrim-solid c s solid = rw (solid) refl

pub get_elem?-append : (t b : List ℕ) (k : ℕ) → get_elem? (t ++ b) (length t + k) ≡ get_elem? b k
get_elem?-append [] b k = ap (get_elem? b) (omega arith)
get_elem?-append (c ∷ t) b k =
    ap (get_elem? ((c ∷ t) ++ b)) (suc-plus (length t) k) ∙ get_elem?-append t b k

pub Blank-get_elem? :
    (b : List ℕ) (k : ℕ)
    → Blank is_space b
    → suc k ≤ length b
    → (c : ℕ) × (get_elem? b k ≡ some c) × (is_space c ≡ true)
Blank-get_elem? [] k blank le = ground (arith, le)
Blank-get_elem? (c ∷ b) zero (blank, _) le = (c, refl, blank)
Blank-get_elem? (c ∷ b) (suc k) (_, blanks) le = Blank-get_elem? b k blanks (omega (arith, le))

pub back_loop-step :
    (s : List ℕ) (i c : ℕ)
    → get_elem? s i ≡ some c
    → back_loop s (suc i) ≡ (if is_space c then back_loop s i else trimmed (take (suc i) s))
unfolding back_loop back_at
back_loop-step s i c at_i = ap (λ o. back_at o (trimmed (take (suc i) s)) (back_loop s i)) at_i

pub back_loop-Blank :
    (t b : List ℕ) (k : ℕ)
    → Blank is_space b
    → k ≤ length b
    → back_loop (t ++ b) (length t + k) ≡ back_loop (t ++ b) (length t)
back_loop-Blank t b zero blank le = ap (back_loop (t ++ b)) (omega arith)
back_loop-Blank t b (suc k) blank le =
    let (c, at_k, space') = Blank-get_elem? b k blank le in
    ap (back_loop (t ++ b)) (plus-suc (length t) k)
    ∙ back_loop-step (t ++ b) (length t + k) c (get_elem?-append t b k ∙ at_k)
    ∙ rw (space') (back_loop-Blank t b k blank (omega (arith, le)))

pub EndsSolid-get_elem? :
    (c : ℕ) (t b : List ℕ)
    → EndsSolid is_space (c ∷ t)
    → (d : ℕ) × (get_elem? ((c ∷ t) ++ b) (length t) ≡ some d) × (is_space d ≡ false)
EndsSolid-get_elem? c [] b solid = (c, refl, solid)
EndsSolid-get_elem? c (d ∷ t) b solid = EndsSolid-get_elem? d t b solid

-- mea_strrtrim, of a text that is not empty and ends in no blank with blanks behind it, leaves
-- just the text.
pub strrtrim-padded :
    (t b : List ℕ)
    → t ≢ []
    → Blank is_space b
    → EndsSolid is_space t
    → strrtrim (t ++ b) ≡ trimmed t
unfolding strrtrim
strrtrim-padded [] b full blank ends = absurd (full refl)
strrtrim-padded (c ∷ t) b full blank ends =
    let (d, at_end, solid) = EndsSolid-get_elem? c t b ends in
    ap (back_loop ((c ∷ t) ++ b)) (length-append (c ∷ t) b)
    ∙ back_loop-Blank (c ∷ t) b (length b) blank (omega arith)
    ∙ back_loop-step ((c ∷ t) ++ b) (length t) d at_end
    ∙ rw (solid) (ap trimmed (take-append (c ∷ t) b))

-- On a string of blanks only, of at least one, mea_strrtrim reads in front of the string.
pub strrtrim-Blank : (c : ℕ) (b : List ℕ) → Blank is_space (c ∷ b) → strrtrim (c ∷ b) ≡ undefined
unfolding strrtrim back_loop
strrtrim-Blank c b blank =
    ap (back_loop (c ∷ b)) (zero-plus (suc (length b)))
    ∙ back_loop-Blank [] (c ∷ b) (suc (length b)) blank (omega arith)

-- mea_strtrim leaves just the text between the blanks around it, also when there is nothing but
-- blanks, and reads nothing outside of the string.
pub strtrim-padded :
    (a t b : List ℕ)
    → Blank is_space a
    → Blank is_space b
    → StartsSolid is_space t
    → EndsSolid is_space t
    → strtrim (a ++ (t ++ b)) ≡ trimmed t
unfolding strtrim strrtrim strltrim
strtrim-padded a [] b left right starts ends =
    ap strrtrim
      (strltrim-Blank a b left ∙ ap strltrim (sym (append-nil b)) ∙ strltrim-Blank b [] right)
strtrim-padded a (c ∷ t) b left right starts ends =
    ap strrtrim (strltrim-Blank a ((c ∷ t) ++ b) left ∙ strltrim-solid c (t ++ b) starts)
    ∙ strrtrim-padded (c ∷ t) b (cc) right ends
