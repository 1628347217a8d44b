-- ===== src/Automator/Expr/Depth.antt =====
-- src/automator.c: automator_evalStr calls itself for a function's parameter, and there no further.
use mea_edomus_lite.Common.{ℕ, suc, ◌≡◌, refl, ap, sym, ◌∙◌, Option, none, some, [], ◌∷◌}
use mea_edomus_lite.Common.Int.{ℤ}
use mea_edomus_lite.Automator.{Str, Reals, Value, Store, failed, Message, World}
use mea_edomus_lite.Automator.Values.{max_len}
use mea_edomus_lite.Automator.Calls.{Call, call, no_call, overrun, function_get_num, strncpytrim}
use mea_edomus_lite.Automator.Calls.Names.{
  Open, NotCall, ParamsOpen, function_get_num-NotCall, function_get_num-ParamsOpen,
  Open-strncpytrim,
}
use mea_edomus_lite.Automator.Expr.{
  reply, eval_str, on_bit, bit_of, on_trimmed, on_char, function_call, on_call, on_function,
  initial, Eval,
}

module _ {D : Type 0} (rl : Reals D) (w : World D) (msg : Message) where
  on_call-NotCall :
      (eval : Eval rl w msg) (c : Call) (v : Value D) (st : Store D)
      → NotCall c
      → on_call rl w msg eval c v st ≡ reply failed v st
  unfolding on_call
  on_call-NotCall eval (call fn p) v st h = absurd (h fn p refl)
  on_call-NotCall eval no_call v st h = refl
  on_call-NotCall eval overrun v st h = refl

  -- Two ways to evaluate that agree on texts without a closing bracket.
  abbrev Agree : Eval rl w msg → Eval rl w msg → Type 0
  Agree e1 e2 = (p : Str) (v : Value D) (st : Store D) → Open p → e1 p v st ≡ e2 p v st

  on_call-Agree :
      (e1 e2 : Eval rl w msg) (c : Call) (v : Value D) (st : Store D)
      → Agree e1 e2
      → ParamsOpen c
      → on_call rl w msg e1 c v st ≡ on_call rl w msg e2 c v st
  unfolding on_call
  on_call-Agree e1 e2 (call fn p) v st h o =
      ap (λ r. on_function rl w msg fn p v st r) (h p (initial rl w msg fn) st o)
  on_call-Agree e1 e2 no_call v st h o = refl
  on_call-Agree e1 e2 overrun v st h o = refl

  -- The text behind the first character decides on what is called.
  abbrev SameCalls : Eval rl w msg → Eval rl w msg → Str → Type 0
  SameCalls e1 e2 p =
      (v : Value D) (st : Store D) → on_trimmed rl w msg e1 p v st ≡ on_trimmed rl w msg e2 p v st

  on_trimmed-Open : (e1 e2 : Eval rl w msg) (p : Str) → Open p → SameCalls e1 e2 p
  unfolding on_trimmed function_call
  on_trimmed-Open e1 e2 [] h v st = refl
  on_trimmed-Open e1 e2 (c ∷ s) (hc, h) v st =
      ap (λ r. on_char rl w msg r c s v st)
        (on_call-NotCall e1 (function_get_num s) v st (function_get_num-NotCall s h)
          ∙ sym (on_call-NotCall e2 (function_get_num s) v st (function_get_num-NotCall s h)))

  on_trimmed-Agree : (e1 e2 : Eval rl w msg) (p : Str) → Agree e1 e2 → SameCalls e1 e2 p
  unfolding on_trimmed function_call
  on_trimmed-Agree e1 e2 [] h v st = refl
  on_trimmed-Agree e1 e2 (c ∷ s) h v st =
      ap (λ r. on_char rl w msg r c s v st)
        (on_call-Agree e1 e2 (function_get_num s) v st h (function_get_num-ParamsOpen s))

  on_bit-same :
      (e1 e2 : Eval rl w msg) (b : Option ℤ) (str : Str) (v : Value D) (st : Store D)
      → SameCalls e1 e2 (strncpytrim str max_len)
      → on_bit rl w msg e1 b str v st ≡ on_bit rl w msg e2 b str v st
  unfolding on_bit
  on_bit-same e1 e2 (some b) str v st h = refl
  on_bit-same e1 e2 none str v st h = h v st

  eval_str-Agree : (n m : ℕ) → Agree (eval_str rl w msg (suc n)) (eval_str rl w msg (suc m))
  unfolding eval_str
  eval_str-Agree n m p v st h =
      on_bit-same (eval_str rl w msg n) (eval_str rl w msg m) (bit_of rl w msg p) p v st (
        on_trimmed-Open (eval_str rl w msg n) (eval_str rl w msg m) (strncpytrim p max_len)
          (Open-strncpytrim p max_len h))

  -- automator_evalStr never calls itself deeper than for the parameter of one function: with any
  -- greater depth it replies the same as with two.
  pub eval_str-depth :
      (n : ℕ) (str : Str) (v : Value D) (st : Store D)
      → eval_str rl w msg (suc (suc n)) str v st ≡ eval_str rl w msg 2 str v st
  unfolding eval_str
  eval_str-depth n str v st =
      on_bit-same (eval_str rl w msg (suc n)) (eval_str rl w msg 1) (bit_of rl w msg str) str v st (
        on_trimmed-Agree (eval_str rl w msg (suc n)) (eval_str rl w msg 1) (strncpytrim str max_len)
          (eval_str-Agree n 0))
