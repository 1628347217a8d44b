-- ===== src/Text/Compare/Equal.antt =====
-- The comparisons of src/mea_string_utils.c against equality of the strings in small letters.
use mea_edomus_lite.Common.{
  ℕ, zero, suc, ◌<◌, ◌≡◌, ◌≢◌, ◌↔◌, refl, ap, sym, true, false, some, List, [], ◌∷◌, ◌==◌, ltb,
  if◌then◌else◌, arith, All, map, take, Bool-cases, inl, inr, ==_iff,
}
use mea_edomus_lite.Common.Int.{ℤ, pos, negsuc, sub_ℕ}
use mea_edomus_lite.Text.Char.{to_lower}
use mea_edomus_lite.Text.Compare.{
  cmplower_loop, cmplower2_loop, ncmplower_loop, strcmplower, strcmplower2, strncmplower,
}

-- No character of a string is the NUL.
abbrev pub Text : List ℕ → Type 0
Text s = All (λ c. 0 < c) s

abbrev pub sign : ℤ → ℤ
sign (pos zero) = pos 0
sign (pos (suc n)) = pos 1
sign (negsuc n) = negsuc 0

pub to_lower-pos : (c : ℕ) → 0 < c → 0 < to_lower c
unfolding to_lower
to_lower-pos c pos' = ground (arith, pos')

pub sub_ℕ-zero : (x y : ℕ) → (x == y) ≡ false → sub_ℕ x y ≢ pos 0
sub_ℕ-zero x y other = ground (arith, other)

pub sub_ℕ-sign :
    (x y : ℕ) (r : ℤ)
    → (if ltb x y then negsuc 0 else if ltb y x then pos 1 else sign r)
      ≡ sign (if x == y then r else sub_ℕ x y)
sub_ℕ-sign x y r = ground arith

pub lower-cons : (x y : ℕ) (xs ys : List ℕ) → x ≡ y → xs ≡ ys → ◌≡◌ {A = List ℕ} (x ∷ xs) (y ∷ ys)
lower-cons x y xs ys e es = cc

pub lower-uncons :
    (x y : ℕ) (xs ys : List ℕ) → ◌≡◌ {A = List ℕ} (x ∷ xs) (y ∷ ys) → (x ≡ y) × (xs ≡ ys)
lower-uncons x y xs ys e = (cc, cc)

pub cmplower_loop-lower :
    (a b : List ℕ)
    → Text a
    → Text b
    → (cmplower_loop a b ≡ pos 0) ↔ (map to_lower a ≡ map to_lower b)
unfolding cmplower_loop to_lower
cmplower_loop-lower [] [] ta tb = (λ e. refl, λ e. refl)
cmplower_loop-lower [] (b ∷ bs) (ta) (pb, tb) = (λ e. ground (arith, e, pb), λ e. cc)
cmplower_loop-lower (a ∷ as') [] (pa, ta) tb = (λ e. ground (arith, e, pa), λ e. cc)
cmplower_loop-lower (a ∷ as') (b ∷ bs) (pa, ta) (pb, tb) =
    let ih = cmplower_loop-lower as' bs ta tb in
    elim (Bool-cases (to_lower a == to_lower b)) [
      | inl e ↦ rw (e) (
        λ h.
            lower-cons (to_lower a) (to_lower b) (map to_lower as') (map to_lower bs)
              ((==_iff (to_lower a) (to_lower b)).0 e) (ih.0 h),
        λ h. ih.1 (lower-uncons (to_lower a) (to_lower b) (map to_lower as') (map to_lower bs) h).1,
      )
      | inr e ↦ rw (e) (
        λ h. absurd (sub_ℕ-zero (to_lower a) (to_lower b) e h),
        λ h. ground (
          arith,
          e,
          (lower-uncons (to_lower a) (to_lower b) (map to_lower as') (map to_lower bs) h).0,
        ),
      )
    ]

pub to_lower-zero : to_lower 0 ≡ 0
unfolding to_lower
to_lower-zero = refl

pub sign-below : (y : ℕ) → 0 < y → sign (sub_ℕ 0 y) ≡ negsuc 0
sign-below y below = ground (arith, below)

pub sub_ℕ-right_zero : (x : ℕ) → sub_ℕ x 0 ≡ pos x
sub_ℕ-right_zero x = ground arith

pub sign-above : (x : ℕ) → 0 < x → sign (sub_ℕ x 0) ≡ pos 1
sign-above zero above = ground (arith, above)
sign-above (suc x) above = ap sign (sub_ℕ-right_zero (suc x))

pub cmplower2_loop-sign :
    (a b : List ℕ) → Text a → Text b → cmplower2_loop a b ≡ sign (cmplower_loop a b)
unfolding cmplower_loop cmplower2_loop
cmplower2_loop-sign [] [] ta tb = rw (to_lower-zero) refl
cmplower2_loop-sign [] (b ∷ bs) ta (pb, tb) =
    let other : (b == 0) ≡ false = ground (arith, pb) in
    rw (other) (rw (to_lower-zero) (sym (sign-below (to_lower b) (to_lower-pos b pb))))
cmplower2_loop-sign (a ∷ as') [] (pa, ta) tb =
    let above = to_lower-pos a pa in
    let not_below : ltb (to_lower a) 0 ≡ false = ground arith in
    let below : ltb 0 (to_lower a) ≡ true = ground (arith, above) in
    rw (to_lower-zero) (rw (not_below) (rw (below) (sym (sign-above (to_lower a) above))))
cmplower2_loop-sign (a ∷ as') (b ∷ bs) (pa, ta) (pb, tb) =
    rw (cmplower2_loop-sign as' bs ta tb)
      (sub_ℕ-sign (to_lower a) (to_lower b) (cmplower_loop as' bs))

pub ncmplower_loop-take :
    (n : ℕ) (a b : List ℕ)
    → Text a
    → Text b
    → (ncmplower_loop n a b ≡ pos 0) ↔ (map to_lower (take n a) ≡ map to_lower (take n b))
unfolding ncmplower_loop to_lower
ncmplower_loop-take zero a b ta tb = (λ e. refl, λ e. refl)
ncmplower_loop-take (suc n) [] [] ta tb = (λ e. refl, λ e. refl)
ncmplower_loop-take (suc n) [] (b ∷ bs) ta (pb, tb) = (λ e. ground (arith, e, pb), λ e. cc)
ncmplower_loop-take (suc n) (a ∷ as') [] (pa, ta) tb = (λ e. ground (arith, e, pa), λ e. cc)
ncmplower_loop-take (suc n) (a ∷ as') (b ∷ bs) (pa, ta) (pb, tb) =
    let ih = ncmplower_loop-take n as' bs ta tb in
    elim (Bool-cases (to_lower a == to_lower b)) [
      | inl e ↦ rw (e) (
        λ h.
            lower-cons (to_lower a) (to_lower b) (map to_lower (take n as'))
              (map to_lower (take n bs)) ((==_iff (to_lower a) (to_lower b)).0 e) (ih.0 h),
        λ h.
            ih.1
              (lower-uncons (to_lower a) (to_lower b) (map to_lower (take n as'))
                (map to_lower (take n bs)) h).1,
      )
      | inr e ↦ rw (e) (
        λ h. cc,
        λ h. ground (
          arith,
          e,
          (lower-uncons (to_lower a) (to_lower b) (map to_lower (take n as'))
              (map to_lower (take n bs)) h).0,
        ),
      )
    ]

-- For two strings of bytes before their NUL, mea_strcmplower returns 0 exactly when they are
-- equal in small letters, and mea_strcmplower2 returns the sign of its result.
pub strcmplower-lower :
    (a b : List ℕ)
    → Text a
    → Text b
    → ((strcmplower (some a) (some b) ≡ pos 0) ↔ (map to_lower a ≡ map to_lower b))
      × (strcmplower2 (some a) (some b) ≡ sign (strcmplower (some a) (some b)))
unfolding strcmplower strcmplower2
strcmplower-lower a b ta tb = (cmplower_loop-lower a b ta tb, cmplower2_loop-sign a b ta tb)

-- For two strings of bytes before their NUL and a bound that is not negative, mea_strncmplower
-- returns 0 exactly when their first characters, up to the bound, are equal in small letters.
pub strncmplower-take :
    (n : ℕ) (a b : List ℕ)
    → Text a
    → Text b
    → (strncmplower (some a) (some b) (pos n) ≡ pos 0)
      ↔ (map to_lower (take n a) ≡ map to_lower (take n b))
unfolding strncmplower
strncmplower-take n a b ta tb = ncmplower_loop-take n a b ta tb
