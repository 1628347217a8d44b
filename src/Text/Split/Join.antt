-- ===== src/Text/Split/Join.antt =====
-- mea_strsplit of src/mea_string_utils.c undoes joining with the separator.
use mea_edomus_lite.Common.{
  ℕ, ◌+◌, ◌<◌, ◌≡◌, refl, ap, sym, ◌∙◌, true, false, List, [], ◌∷◌, ◌++◌, ◌==◌, ltb, leb,
  if◌then◌else◌, arith, length, All, append_assoc, append-nil, length-append, ==_refl, Bool-cases,
  inl, inr,
}
use mea_edomus_lite.Text.Split.{Tokens, tokens, too_many, split_loop}

abbrev pub join : ℕ → List ℕ → List (List ℕ) → List ℕ
join separator t [] = t
join separator t (u ∷ us) = t ++ (separator ∷ join separator u us)

-- No character of the token is the separator.
abbrev pub Whole : ℕ → List ℕ → Type 0
Whole separator t = All (λ c. (c == separator) ≡ false) t

pub split_loop-Whole :
    (separator l j : ℕ) (done : List (List ℕ)) (token t str : List ℕ)
    → Whole separator t
    → split_loop separator l j done token (t ++ str)
      ≡ split_loop separator l j done (token ++ t) str
unfolding split_loop
split_loop-Whole separator l j done token [] str whole =
    ap (λ x. split_loop separator l j done x str) (sym (append-nil token))
split_loop-Whole separator l j done token (c ∷ t) str (other, whole) = rw (other) (
    split_loop-Whole separator l j done (token ++ c ∷ []) t str whole
    ∙ ap (λ x. split_loop separator l j done x str) (append_assoc token (c ∷ []) t))

-- The result for a table of `l` tokens.
abbrev pub fitting : ℕ → List (List ℕ) → Tokens
fitting l ts = if leb (length ts) l then tokens ts else too_many

pub split_loop-separator :
    (separator l j : ℕ) (done : List (List ℕ)) (token str : List ℕ)
    → split_loop separator l j done token (separator ∷ str) ≡ (
        if ltb (j + 1) l
        then split_loop separator l (j + 1) (done ++ token ∷ []) [] str
        else too_many)
unfolding split_loop
split_loop-separator separator l j done token str = rw (==_refl separator) refl

pub split_loop-end :
    (separator l j : ℕ) (done : List (List ℕ)) (t : List ℕ)
    → split_loop separator l j done t [] ≡ tokens (done ++ t ∷ [])
unfolding split_loop
split_loop-end separator l j done t = refl

pub split_loop-join :
    (separator l j : ℕ) (done : List (List ℕ)) (t : List ℕ) (ts : List (List ℕ))
    → Whole separator t
    → All (Whole separator) ts
    → j ≡ length done
    → j < l
    → split_loop separator l j done [] (join separator t ts) ≡ fitting l (done ++ t ∷ ts)
split_loop-join separator l j done t [] whole wholes count room =
    let fits : leb (length (done ++ t ∷ [])) l ≡ true =
      ground (arith, length-append done (t ∷ []), count, room) in
    ap (split_loop separator l j done []) (sym (append-nil t))
    ∙ split_loop-Whole separator l j done [] t [] whole
    ∙ split_loop-end separator l j done t
    ∙ rw (fits) refl
split_loop-join separator l j done t (u ∷ us) whole (whole', wholes) count room =
    split_loop-Whole separator l j done [] t (separator ∷ join separator u us) whole
    ∙ split_loop-separator separator l j done t (join separator u us)
    ∙ elim (Bool-cases (ltb (j + 1) l)) [
      | inl e ↦ rw (e) (
          split_loop-join separator l (j + 1) (done ++ t ∷ []) u us whole' wholes
            (omega (arith, length-append done (t ∷ []), count)) (ground (arith, e))
          ∙ ap (fitting l) (append_assoc done (t ∷ []) (u ∷ us)))
      | inr e ↦
          let full : leb (length (done ++ t ∷ u ∷ us)) l ≡ false =
            ground (arith, length-append done (t ∷ u ∷ us), count, e) in
          rw (e) (rw (full) refl)
    ]
