-- ===== src/Automator/Expr/Braces.antt =====
-- src/automator.c: {name} in an expression. mea_strncpytrim is asked for exactly the characters
-- between the braces, counted with the blanks that it skips.
use mea_edomus_lite.Common.{
  ℕ, zero, suc, ◌+◌, ◌-◌, ◌<◌, ◌≡◌, refl, ap, sym, ◌∙◌, false, [], ◌∷◌, ◌++◌, ◌==◌, arith, length,
  take, length-append, append_assoc, append-nil,
}
use mea_edomus_lite.Text.Trim.{skip_spaces}
use mea_edomus_lite.Automator.{Str, Reals, Value, Store, World, Message}
use mea_edomus_lite.Automator.Values.{max_len}
use mea_edomus_lite.Automator.Calls.{ncpytrim_loop, strncpytrim}
use mea_edomus_lite.Automator.Inputs.{find_input}
use mea_edomus_lite.Automator.Expr.{
  eval_str, on_bit, bit_of, on_trimmed, on_char, read_input, last_is,
}

-- The first character is no blank.
abbrev pub Unpadded : Str → Type 0
Unpadded [] = Unit
Unpadded (c ∷ s) = (c == b' ') ≡ false

skip_spaces-Unpadded : (s : Str) → Unpadded s → skip_spaces s ≡ s
unfolding skip_spaces
skip_spaces-Unpadded [] h = refl
skip_spaces-Unpadded (c ∷ s) h = rw (h) refl

take-all : (s : Str) (n : ℕ) → length s ≡ n → take n s ≡ s
take-all [] zero h = refl
take-all [] (suc n) h = refl
take-all (c ∷ s) zero h = absurd (omega (arith, h))
take-all (c ∷ s) (suc n) h = ap (λ r. c ∷ r) (take-all s n (omega (arith, h)))

-- The loop copies a text that ends in no blank and fits.
ncpytrim_loop-whole :
    (n : ℕ) (written : Str) (p : ℕ) (s : Str) (c : ℕ)
    → length s < n
    → (c == b' ') ≡ false
    → ncpytrim_loop n written p (s ++ c ∷ []) ≡ written ++ (s ++ c ∷ [])
unfolding ncpytrim_loop
ncpytrim_loop-whole zero written p s c h hc = absurd (omega (arith, h))
ncpytrim_loop-whole (suc zero) written p [] c h hc = refl
ncpytrim_loop-whole (suc (suc n)) written p [] c h hc =
    rw (hc) (take-all (written ++ c ∷ []) (length written + 1) (length-append written (c ∷ [])))
ncpytrim_loop-whole (suc n) written p (d ∷ s) c h hc =
    ncpytrim_loop-whole n (written ++ d ∷ []) _ s c (omega (arith, h)) hc
    ∙ append_assoc written (d ∷ []) (s ++ c ∷ [])

-- And it stops behind the characters that it is asked for.
ncpytrim_loop-exact :
    (written : Str) (p : ℕ) (xs ys : Str)
    → ncpytrim_loop (length xs) written p (xs ++ ys) ≡ written ++ xs
unfolding ncpytrim_loop
ncpytrim_loop-exact written p [] ys = sym (append-nil written)
ncpytrim_loop-exact written p (x ∷ xs) ys =
    ncpytrim_loop-exact (written ++ x ∷ []) _ xs ys ∙ append_assoc written (x ∷ []) xs

last_is-append : (c : ℕ) (s : Str) (a : ℕ) → last_is c (s ++ a ∷ []) ≡ (a == c)
last_is-append c [] a = refl
last_is-append c (x ∷ []) a = refl
last_is-append c (x ∷ y ∷ s) a = last_is-append c (y ∷ s) a

abbrev pub braced : Str → Str
braced text = b'{' ∷ (text ++ b'}' ∷ [])

strncpytrim-braced :
    (text : Str) → length text < 99 → strncpytrim (braced text) max_len ≡ braced text
unfolding strncpytrim
strncpytrim-braced text h =
    rw (skip_spaces-Unpadded (braced text) refl)
      (ncpytrim_loop-whole max_len [] 0 (b'{' ∷ text) b'}' (omega (arith, h)) refl)

-- The name that is looked up.
abbrev key : Str → Str
key text = strncpytrim (text ++ b'}' ∷ []) (length text)

key-Unpadded : (name : Str) → Unpadded (name ++ b'}' ∷ []) → key name ≡ name
unfolding strncpytrim
key-Unpadded name h =
    rw (skip_spaces-Unpadded (name ++ b'}' ∷ []) h) (ncpytrim_loop-exact [] 0 name (b'}' ∷ []))

skip_spaces-blank : (s : Str) → skip_spaces (b' ' ∷ s) ≡ skip_spaces s
unfolding skip_spaces
skip_spaces-blank s = refl

key-padded : (name : Str) → Unpadded (name ++ b'}' ∷ []) → key (b' ' ∷ name) ≡ name ++ b'}' ∷ []
unfolding strncpytrim
key-padded name h =
    rw (skip_spaces-blank (name ++ b'}' ∷ []), skip_spaces-Unpadded (name ++ b'}' ∷ []) h)
      (ncpytrim_loop-whole (suc (length name)) [] 0 name b'}' (omega arith) refl)

module _ {D : Type 0} (rl : Reals D) (w : World D) (msg : Message) where
  eval_str-braced :
      (n : ℕ) (text : Str) (v : Value D) (st : Store D)
      → length text < 99
      → eval_str rl w msg (suc n) (braced text) v st
        ≡ read_input rl w msg (find_input rl (key text) st.table) v st
  unfolding eval_str bit_of on_bit on_trimmed on_char
  eval_str-braced n text v st h =
      rw (strncpytrim-braced text h, last_is-append b'}' (b'{' ∷ text) b'}', minus) refl
    where
      minus : length (braced text) - 2 ≡ length text
      minus = omega (arith, length-append text (b'}' ∷ []))

  -- In an expression, {name} reads the input of that name, if the name has less than 98
  -- characters and begins with no blank; with one blank more in front, it reads the input whose
  -- name has the closing brace at its end.
  pub eval_str-braces :
      (n : ℕ) (name : Str) (v : Value D) (st : Store D)
      → length name < 98
      → Unpadded (name ++ b'}' ∷ [])
      → (eval_str rl w msg (suc n) (braced name) v st
          ≡ read_input rl w msg (find_input rl name st.table) v st)
        × (eval_str rl w msg (suc n) (braced (b' ' ∷ name)) v st
            ≡ read_input rl w msg (find_input rl (name ++ b'}' ∷ []) st.table) v st)
  eval_str-braces n name v st h hu = (
    eval_str-braced n name v st (omega (arith, h))
        ∙ ap (λ k. read_input rl w msg (find_input rl k st.table) v st) (key-Unpadded name hu),
    eval_str-braced n (b' ' ∷ name) v st (omega (arith, h))
        ∙ ap (λ k. read_input rl w msg (find_input rl k st.table) v st) (key-padded name hu),
  )
