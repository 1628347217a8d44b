-- ===== src/Automator/Calls/Names.antt =====
-- src/automator.c: what function_getNum finds in a text, and that it stays inside of its buffer.
use mea_edomus_lite.Common.{
  ℕ, zero, suc, ◌<◌, ◌≡◌, ◌≢◌, refl, true, false, Option, none, some, [], ◌∷◌, ◌++◌, ◌==◌, arith,
  length, take, All, All-append, Bool-cases, inl, inr,
}
use mea_edomus_lite.Text.Trim.{skip_spaces}
use mea_edomus_lite.Automator.{Str}
use mea_edomus_lite.Automator.Calls.{
  Function, is_alnum, take_name, take_params, Call, call, no_call, overrun, closed, with_params,
  bracket, terminated, function_get_num, functions_list, lookup, name_size, ncpytrim_loop,
  strncpytrim,
}

-- No closing bracket.
abbrev pub Open : Str → Type 0
Open s = All (λ c. (c == b']') ≡ false) s

take_params-closed :
    (params : Str) (rest : Str)
    → Open params
    → take_params (params ++ b']' ∷ rest) ≡ (params, b']' ∷ rest)
unfolding take_params
take_params-closed [] rest h = refl
take_params-closed (c ∷ params) rest (hc, h) = rw (hc, take_params-closed params rest h) refl

is_alnum-bracket : is_alnum b'[' ≡ false
unfolding is_alnum
is_alnum-bracket = refl

take_name-bracket :
    (l : ℕ) (name rest : Str)
    → length name < l
    → All (λ c. is_alnum c ≡ true) name
    → take_name l (name ++ b'[' ∷ rest) ≡ (name, b'[' ∷ rest)
unfolding take_name
take_name-bracket zero name rest hl h = absurd (omega (arith, hl))
take_name-bracket (suc l) [] rest hl h = rw (is_alnum-bracket) refl
take_name-bracket (suc l) (c ∷ name) rest hl (hc, h) =
    rw (hc, take_name-bracket l name rest (omega (arith, hl)) h) refl

-- function_getNum takes the text name[parameter] apart into the function of that name and its
-- parameter, for every name of functionsList2 of less than 101 letters and digits and every
-- parameter without a closing bracket.
pub function_get_num-call :
    (name params : Str) (num : Function)
    → lookup name functions_list ≡ some num
    → All (λ c. is_alnum c ≡ true) name
    → length name < name_size
    → Open params
    → function_get_num (name ++ (b'[' ∷ (params ++ b']' ∷ []))) ≡ call num params
unfolding function_get_num terminated bracket with_params closed
function_get_num-call name params num hl ha hs ho =
    rw
      (
        take_name-bracket name_size name (params ++ b']' ∷ []) hs ha,
        le→not-eq,
        hl,
        take_params-closed params [] ho,
      )
      refl
  where
    le→not-eq : (length name == name_size) ≡ false
    le→not-eq = ground (arith, hs)

pub Open-take_params : (str : Str) → Open (take_params str).0
unfolding take_params
Open-take_params [] = tt
Open-take_params (c ∷ str) = elim (Bool-cases (c == b']')) [
  | inl e ↦ rw (e) tt
  | inr e ↦ rw (e) (e, Open-take_params str)
]

take_params-Open : (str : Str) → Open str → (take_params str).1 ≡ []
unfolding take_params
take_params-Open [] h = refl
take_params-Open (c ∷ str) (hc, h) = rw (hc) (take_params-Open str h)

Open-take_name : (l : ℕ) (str : Str) → Open str → Open (take_name l str).1
unfolding take_name
Open-take_name zero str h = h
Open-take_name (suc l) [] h = tt
Open-take_name (suc l) (c ∷ str) (hc, h) = elim (Bool-cases (is_alnum c)) [
  | inl e ↦ rw (e) (Open-take_name l str h)
  | inr e ↦ rw (e) (hc, h)
]

abbrev pub NotCall : Call → Type 0
NotCall c = (fn : Function) (p : Str) → c ≢ call fn p

closed-NotCall : (num : Function) (r : Str × Str) → r.1 ≡ [] → NotCall (closed num r)
unfolding closed
closed-NotCall num (params, []) h f p = cc
closed-NotCall num (params, c ∷ s) h f p = cc

with_params-NotCall :
    (found : Option Function) (str : Str) → Open str → NotCall (with_params found str)
unfolding with_params
with_params-NotCall none str h = λ f p. cc
with_params-NotCall (some num) str h = closed-NotCall num (take_params str) (take_params-Open str h)

bracket-NotCall : (fn str : Str) → Open str → NotCall (bracket fn str)
unfolding bracket
bracket-NotCall fn [] h = λ f p. cc
bracket-NotCall fn (c ∷ str) (hc, h) = elim (Bool-cases (c == b'[')) [
  | inl e ↦ rw (e) (with_params-NotCall (lookup fn functions_list) str h)
  | inr e ↦ rw (e) (λ f p. cc)
]

terminated-NotCall : (r : Str × Str) → Open r.1 → NotCall (terminated r)
unfolding terminated
terminated-NotCall (fn, str) h = elim (Bool-cases (length fn == name_size)) [
  | inl e ↦ rw (e) (λ f p. cc)
  | inr e ↦ rw (e) (bracket-NotCall fn str h)
]

-- A text without a closing bracket is no call.
pub function_get_num-NotCall : (str : Str) → Open str → NotCall (function_get_num str)
unfolding function_get_num
function_get_num-NotCall str h =
    terminated-NotCall (take_name name_size str) (Open-take_name name_size str h)

-- The parameter of a call has no closing bracket.
abbrev pub ParamsOpen : Call → Type 0
ParamsOpen (call fn p) = Open p
ParamsOpen no_call = Unit
ParamsOpen overrun = Unit

closed-ParamsOpen : (num : Function) (r : Str × Str) → Open r.0 → ParamsOpen (closed num r)
unfolding closed
closed-ParamsOpen num (params, []) h = tt
closed-ParamsOpen num (params, c ∷ []) h = elim (Bool-cases (c == b']')) [
  | inl e ↦ rw (e) h
  | inr e ↦ rw (e) tt
]
closed-ParamsOpen num (params, c ∷ d ∷ s) h = tt

with_params-ParamsOpen : (found : Option Function) (str : Str) → ParamsOpen (with_params found str)
unfolding with_params
with_params-ParamsOpen none str = tt
with_params-ParamsOpen (some num) str =
    closed-ParamsOpen num (take_params str) (Open-take_params str)

bracket-ParamsOpen : (fn str : Str) → ParamsOpen (bracket fn str)
unfolding bracket
bracket-ParamsOpen fn [] = tt
bracket-ParamsOpen fn (c ∷ str) = elim (Bool-cases (c == b'[')) [
  | inl e ↦ rw (e) (with_params-ParamsOpen (lookup fn functions_list) str)
  | inr e ↦ rw (e) tt
]

pub function_get_num-ParamsOpen : (str : Str) → ParamsOpen (function_get_num str)
unfolding function_get_num terminated
function_get_num-ParamsOpen str =
    let r = take_name name_size str in
    elim (Bool-cases (length r.0 == name_size)) [
      | inl e ↦ rw (e) tt
      | inr e ↦ rw (e) (bracket-ParamsOpen r.0 r.1)
    ]

-- mea_strncpytrim only cuts.
Open-skip_spaces : (s : Str) → Open s → Open (skip_spaces s)
unfolding skip_spaces
Open-skip_spaces [] h = h
Open-skip_spaces (c ∷ s) (hc, h) = elim (Bool-cases (c == b' ')) [
  | inl e ↦ rw (e) (Open-skip_spaces s h)
  | inr e ↦ rw (e) (hc, h)
]

Open-take : (n : ℕ) (s : Str) → Open s → Open (take n s)
Open-take zero s h = tt
Open-take (suc n) [] h = tt
Open-take (suc n) (c ∷ s) (hc, h) = (hc, Open-take n s h)

Open-ncpytrim_loop :
    (n : ℕ) (written : Str) (p : ℕ) (s : Str)
    → Open written
    → Open s
    → Open (ncpytrim_loop n written p s)
unfolding ncpytrim_loop
Open-ncpytrim_loop zero written p s hw h = hw
Open-ncpytrim_loop (suc n) written p [] hw h = Open-take p written hw
Open-ncpytrim_loop (suc n) written p (c ∷ s) hw (hc, h) =
    Open-ncpytrim_loop n (written ++ c ∷ []) _ s
      (All-append (λ d. (d == b']') ≡ false) written (c ∷ []) hw (hc, tt)) h

pub Open-strncpytrim : (s : Str) (n : ℕ) → Open s → Open (strncpytrim s n)
unfolding strncpytrim
Open-strncpytrim s n h = Open-ncpytrim_loop n [] 0 (skip_spaces s) tt (Open-skip_spaces s h)
