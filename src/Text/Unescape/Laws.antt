-- ===== src/Text/Unescape/Laws.antt =====
-- src/mea_string_utils.c: mea_unescape undoes mea_strcpy_escd and octal escapes, agrees with
-- mea_strcpy_escs and never makes a text longer.
use mea_edomus_lite.Common.{
  ℕ, zero, suc, ◌+◌, ◌-◌, ◌/◌, ◌%◌, ◌<◌, ◌≤◌, ◌≡◌, refl, some, List, [], ◌∷◌, ◌++◌, ◌==◌, length,
  All, arith, append_assoc, append-nil, length-append, ◌∙◌, Bool-cases, Option-cases, inl, inr,
}
use mea_edomus_lite.Text.Char.{backslash, is_digit}
use mea_edomus_lite.Text.Escape.{
  escape_char, strcpy_escd, strcpy_escs, copied, escs_loop, escaped_char,
}
use mea_edomus_lite.Text.Escape.RoundTrip.{escape_all, escd_loop-append}
use mea_edomus_lite.Text.Unescape.{
  is_octal, octal_step, octal_loop, unescape_char, unescape_step, to_char, unescape_loop, unescape,
}

abbrev pub IsByte : ℕ → Type 0
IsByte c = c < 256

octal_loop_shrinks : (k v : ℕ) (d : List ℕ) → length (octal_loop k v d).1 ≤ length d
unfolding octal_loop
octal_loop_shrinks zero v d = omega arith
octal_loop_shrinks (suc k) v [] = omega arith
octal_loop_shrinks (suc k) v (c ∷ d) = ground (arith, octal_loop_shrinks k (octal_step v c) d)

unescape_step_shrinks : (e : ℕ) (d : List ℕ) → length (unescape_step e d).1 ≤ length d
unfolding unescape_step
unescape_step_shrinks e d = ground (arith, octal_loop_shrinks 2 (e - b'0') d)

-- Fuel beyond the length of the data changes nothing.
unescape_loop-fuel :
    (f g : ℕ) (r d : List ℕ)
    → length d ≤ f
    → length d ≤ g
    → unescape_loop f r d ≡ unescape_loop g r d
unfolding unescape_loop
unescape_loop-fuel zero zero r [] h k = refl
unescape_loop-fuel zero (suc g) r [] h k = refl
unescape_loop-fuel (suc f) zero r [] h k = refl
unescape_loop-fuel (suc f) (suc g) r [] h k = refl
unescape_loop-fuel zero g r (c ∷ d) h k = absurd (omega arith)
unescape_loop-fuel (suc f) zero r (c ∷ d) h k = absurd (omega arith)
unescape_loop-fuel (suc f) (suc g) r (c ∷ []) h k = refl
unescape_loop-fuel (suc f) (suc g) r (c ∷ e ∷ d) h k = ground (
  arith,
  unescape_step_shrinks e d,
  unescape_loop-fuel f g (r ++ to_char c ∷ []) (e ∷ d),
  unescape_loop-fuel f g (r ++ to_char (unescape_step e d).0 ∷ []) (unescape_step e d).1,
)

-- The result only ever grows at its end.
length-unescape_loop :
    (f : ℕ) (r d : List ℕ) → length d ≤ f → length (unescape_loop f r d) ≤ length r + length d
unfolding unescape_loop
length-unescape_loop zero r [] h = omega arith
length-unescape_loop zero r (c ∷ d) h = absurd (omega arith)
length-unescape_loop (suc f) r [] h = omega arith
length-unescape_loop (suc f) r (c ∷ []) h = ground (arith, length-append r (to_char c ∷ []))
length-unescape_loop (suc f) r (c ∷ e ∷ d) h =
    let x = (unescape_step e d).0 in
    ground (
      arith,
      length-append r (to_char c ∷ []),
      length-append r (to_char x ∷ []),
      unescape_step_shrinks e d,
      length-unescape_loop f (r ++ to_char c ∷ []) (e ∷ d),
      length-unescape_loop f (r ++ to_char x ∷ []) (unescape_step e d).1,
    )

-- The text that mea_unescape writes is never longer than its source, so a buffer of the source's
-- size holds it.
pub length-unescape : (d : List ℕ) → length (unescape d) ≤ length d
unfolding unescape
length-unescape d = omega (arith, length-unescape_loop (length d) [] d (omega arith))

-- What one escaped character costs and gives.
unescape_loop-escape_char :
    (f : ℕ) (r : List ℕ) (c : ℕ) (t : List ℕ)
    → IsByte c
    → length t ≤ f
    → unescape_loop (suc f) r (escape_char c ++ t) ≡ unescape_loop f (r ++ c ∷ []) t
unfolding escape_char unescape_loop unescape_step unescape_char is_octal is_digit
unescape_loop-escape_char zero r c [] b h = ground arith
unescape_loop-escape_char zero r c (e ∷ t) b h = absurd (omega arith)
unescape_loop-escape_char (suc f) r c [] b h = ground arith
unescape_loop-escape_char (suc f) r c (e ∷ t) b h = ground arith

length-escape_char_pos : (c : ℕ) → 0 < length (escape_char c)
unfolding escape_char
length-escape_char_pos c = ground arith

unescape_loop-escape_all :
    (f : ℕ) (r s : List ℕ)
    → All IsByte s
    → length (escape_all s) ≤ f
    → unescape_loop f r (escape_all s) ≡ r ++ s
unescape_loop-escape_all zero r [] b h = unfold unescape_loop in rw append-nil
unescape_loop-escape_all (suc f) r [] b h = unfold unescape_loop in rw append-nil
unescape_loop-escape_all zero r (c ∷ s) b h =
    absurd (omega (arith, length-escape_char_pos c, length-append (escape_char c) (escape_all s)))
unescape_loop-escape_all (suc f) r (c ∷ s) b h =
    let room : length (escape_all s) ≤ f =
      omega (arith, length-escape_char_pos c, length-append (escape_char c) (escape_all s)) in
    unescape_loop-escape_char f r c (escape_all s) b.0 room
    ∙ unescape_loop-escape_all f (r ++ c ∷ []) s b.1 room
    ∙ append_assoc r (c ∷ []) s

-- mea_unescape undoes mea_strcpy_escd on every string of bytes.
pub unescape-strcpy_escd : (s : List ℕ) → All IsByte s → unescape (strcpy_escd s).dest ≡ s
unfolding unescape strcpy_escd
unescape-strcpy_escd s b = rw escd_loop-append (unescape_loop-escape_all _ [] s b (omega arith))

-- The octal escape of a byte, with its three digits: `\101` is A.
abbrev pub octal_escape : ℕ → List ℕ
octal_escape b = backslash ∷ (b / 64 + b'0') ∷ (b / 8 % 8 + b'0') ∷ (b % 8 + b'0') ∷ []

abbrev pub octal_escapes : List ℕ → List ℕ
octal_escapes [] = []
octal_escapes (b ∷ bs) = octal_escape b ++ octal_escapes bs

octal_loop-digits :
    (b : ℕ) (t : List ℕ)
    → IsByte b
    → octal_loop 2 (b / 64) ((b / 8 % 8 + b'0') ∷ (b % 8 + b'0') ∷ t) ≡ (b, t)
unfolding octal_loop
octal_loop-digits b t h = ground arith

unescape_step-octal :
    (b : ℕ) (t : List ℕ)
    → IsByte b
    → unescape_step (b / 64 + b'0') ((b / 8 % 8 + b'0') ∷ (b % 8 + b'0') ∷ t) ≡ (b, t)
unfolding unescape_step
unescape_step-octal b t h = ground (arith, octal_loop-digits b t)

unescape_loop-octal_escapes :
    (f : ℕ) (r bs : List ℕ)
    → All IsByte bs
    → length (octal_escapes bs) ≤ f
    → unescape_loop f r (octal_escapes bs) ≡ r ++ bs
unfolding unescape_loop
unescape_loop-octal_escapes zero r [] b h = rw append-nil
unescape_loop-octal_escapes (suc f) r [] b h = rw append-nil
unescape_loop-octal_escapes zero r (c ∷ s) b h = absurd (omega arith)
unescape_loop-octal_escapes (suc f) r (c ∷ s) b h = ground (
  arith,
  unescape_step-octal c (octal_escapes s),
  unescape_loop-octal_escapes f (r ++ c ∷ []) s,
  append_assoc r (c ∷ []) s,
)

-- mea_unescape reads three-digit octal escapes of any bytes, zero included, back to those bytes.
pub unescape-octal_escapes : (bs : List ℕ) → All IsByte bs → unescape (octal_escapes bs) ≡ bs
unfolding unescape
unescape-octal_escapes bs b = unescape_loop-octal_escapes _ [] bs b (omega arith)

unescape_step-escaped_char :
    (x y : ℕ) (s : List ℕ)
    → IsByte x
    → escaped_char x ≡ some y
    → (unescape_step x s ≡ (y, s)) × IsByte y
unfolding escaped_char unescape_step unescape_char is_octal is_digit
unescape_step-escaped_char x y s b e = ground arith

unescape_loop-escs_loop :
    (f : ℕ) (r s d : List ℕ)
    → All IsByte s
    → length s ≤ f
    → escs_loop r s ≡ copied d
    → unescape_loop f r s ≡ d
unfolding escs_loop unescape_loop
unescape_loop-escs_loop zero r [] d b h e = ground arith
unescape_loop-escs_loop (suc f) r [] d b h e = ground arith
unescape_loop-escs_loop zero r (c ∷ s) d b h e = absurd (omega arith)
unescape_loop-escs_loop (suc f) r (c ∷ []) d b h e = ground arith
unescape_loop-escs_loop (suc f) r (c ∷ x ∷ s) d b h e = elim (Bool-cases (c == backslash)) [
  | inr plain ↦
      let e' : escs_loop (r ++ c ∷ []) (x ∷ s) ≡ copied d = ground (arith, plain) in
      let step = unescape_loop-escs_loop f (r ++ c ∷ []) (x ∷ s) d b.1 (omega arith) e' in
      ground (arith, plain, step)
  | inl esc ↦ elim (Option-cases (escaped_char x)) [
    | inl bad ↦ absurd (ground (arith, esc, bad))
    | inr (y, good) ↦
        let e' : escs_loop (r ++ y ∷ []) s ≡ copied d = ground (arith, esc, good) in
        let stored = unescape_step-escaped_char x y s b.1.0 good in
        let step = unescape_loop-escs_loop f (r ++ y ∷ []) s d b.1.1 (omega arith) e' in
        ground (arith, esc, stored, step)
  ]
]

-- Whatever mea_strcpy_escs accepts, mea_unescape reads the same way.
pub unescape-strcpy_escs : (s d : List ℕ) → All IsByte s → strcpy_escs s ≡ copied d → unescape s ≡ d
unfolding unescape strcpy_escs
unescape-strcpy_escs s d b e = unescape_loop-escs_loop _ [] s d b (omega arith) e
