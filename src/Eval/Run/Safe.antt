-- ===== src/Eval/Run/Safe.antt =====
-- src/mea_eval.c: code that the compiler makes runs on the execution stack without popping what is
-- not there.
use mea_edomus_lite.Common.{
  ℕ, ◌-◌, ◌≡◌, ◌≢◌, true, false, some, List, [], ◌∷◌, ltb, leb, ◌==◌, arith, length, Bool-cases,
  Option-cases, inl, inr,
}
use mea_edomus_lite.Eval.Outcome.{
  Fault, underflow, wrong_kind, ok, fault, Post, returns, fails, faults, Post-bind, Post-if,
  Post-fault,
}
use mea_edomus_lite.Eval.Double.{Doubles, Callbacks, magnitude}
use mea_edomus_lite.Eval.Lexer.Shrinks.{StrtodAdvances}
use mea_edomus_lite.Eval.Compile.{Item, value, operator, ident, build_stack}
use mea_edomus_lite.Eval.Compile.Kinds.{
  Kind, number, name, pop_number, pop_name, apply_kind, item_kind, kinds,
}
use mea_edomus_lite.Eval.Compile.Total.{build_stack-kinds}
use mea_edomus_lite.Eval.Run.{
  Cell, val, id, pop_value, pop_id, call_function, do_operation, get_value, exec_item, check_room,
  exec, result, calcn,
}

-- The execution stack holds cells of these kinds.
abbrev Fits : {D : Type 0} → List Kind → List (Cell D) → Type 0
Fits [] [] = Unit
Fits (number ∷ k) (val d ∷ s) = Fits k s
Fits (name ∷ k) (id n ∷ s) = Fits k s
Fits _ _ = ⊥

-- The faults of a stack that is popped too often or read as the wrong kind are excluded.
abbrev pub NoStackFault : Fault → Type 0
NoStackFault underflow = ⊥
NoStackFault wrong_kind = ⊥
NoStackFault _ = Unit

module _ {D : Type 0} where
  pop_value-Fits :
      (k k' : List Kind) (s : List (Cell D))
      → pop_number k ≡ some k'
      → Fits k s
      → Post (λ r. Fits k' r.1) NoStackFault (pop_value s)
  unfolding pop_value pop_number
  pop_value-Fits [] k' s h fits = absurd (ground arith)
  pop_value-Fits (name ∷ k) k' s h fits = absurd (ground arith)
  pop_value-Fits (number ∷ k) k' [] h fits = absurd fits
  pop_value-Fits (number ∷ k) k' (id n ∷ s) h fits = absurd fits
  pop_value-Fits (number ∷ k) k' (val d ∷ s) h fits = let e : k' ≡ k = cc in returns (rw e fits)

  pop_id-Fits :
      (k k' : List Kind) (s : List (Cell D))
      → pop_name k ≡ some k'
      → Fits k s
      → Post (λ r. Fits k' r.1) NoStackFault (pop_id s)
  unfolding pop_id pop_name
  pop_id-Fits [] k' s h fits = absurd (ground arith)
  pop_id-Fits (number ∷ k) k' s h fits = absurd (ground arith)
  pop_id-Fits (name ∷ k) k' [] h fits = absurd fits
  pop_id-Fits (name ∷ k) k' (val d ∷ s) h fits = absurd fits
  pop_id-Fits (name ∷ k) k' (id n ∷ s) h fits = let e : k' ≡ k = cc in returns (rw e fits)

  check_room-Fits :
      (k : List Kind) (s : List (Cell D))
      → Fits k s
      → Post (λ r. Fits k r) NoStackFault (check_room s)
  unfolding check_room
  check_room-Fits k s fits = Post-if (leb 50 (length s)) (λ _. fails) (λ _. returns fits)

module _ {D : Type 0} (fp : Doubles D) (cb : Callbacks D) where
  do_operation-NoStackFault :
      (d1 : D) (op : ℕ) (d2 : D) → Post (λ d. Unit) NoStackFault (do_operation fp d1 op d2)
  unfolding do_operation
  do_operation-NoStackFault d1 op d2 =
      Post-if (op == b'+') (λ _. returns tt)
        λ _.
          Post-if (op == b'-') (λ _. returns tt)
            λ _.
              Post-if (op == b'/') (λ _. Post-if (fp.is_zero d2) (λ _. fails) (λ _. returns tt))
                λ _.
                  Post-if (op == b'%')
                    (λ _.
                      Post-if (fp.is_zero d2) (λ _. fails)
                        λ _.
                          Post-if (magnitude (fp.to_long d2) == 0) (λ _. faults tt)
                            (λ _. returns tt))
                    λ _. Post-if (op == b'*') (λ _. returns tt) (λ _. fails)

  call_function-NoStackFault :
      (fn : ℕ) (d : D) → Post (λ d. Unit) NoStackFault (call_function fp fn d)
  unfolding call_function
  call_function-NoStackFault fn d = Post-if (fn - 128 == 0) (λ _. returns tt) (λ _. fails)

  get_value-NoStackFault : (n : ℕ) → Post (λ d. Unit) NoStackFault (get_value fp cb n)
  unfolding get_value
  get_value-NoStackFault n = elim (Option-cases cb.get_var_val) [
    | inl unset ↦ rw (unset, get_value) (faults tt)
    | inr (get, e) ↦ elim (Option-cases (get n)) [
      | inl unknown ↦ rw (e, unknown, get_value) fails
      | inr (d, known) ↦ rw (e, known, get_value) (returns tt)
    ]
  ]

  exec_binary-Fits :
      (op : ℕ) (k k' : List Kind) (s : List (Cell D))
      → ltb op 128 ≡ true
      → apply_kind op k ≡ some k'
      → Fits k s
      → Post (λ r. Fits k' r) NoStackFault (exec_item fp cb (operator op) s)
  unfolding exec_item apply_kind
  exec_binary-Fits op k k' s small h fits = elim (Option-cases (pop_number k)) [
    | inl n ↦ absurd (ground (arith, n))
    | inr (k₁, e₁) ↦ elim (Option-cases (pop_number k₁)) [
      | inl n ↦ absurd (ground (arith, e₁, n))
      | inr (k₂, e₂) ↦
          let shape : k' ≡ number ∷ k₂ = ground (arith, e₁, e₂) in
          rw small (
            Post-bind (pop_value-Fits k k₁ s e₁ fits) λ top f₁.
              Post-bind (pop_value-Fits k₁ k₂ top.1 e₂ f₁) λ next f₂.
                Post-bind (do_operation-NoStackFault next.0 op top.0) λ d _. returns (rw shape f₂))
    ]
  ]

  exec_unary-Fits :
      (op : ℕ) (k k' : List Kind) (s : List (Cell D))
      → ltb op 128 ≡ false
      → apply_kind op k ≡ some k'
      → Fits k s
      → Post (λ r. Fits k' r) NoStackFault (exec_item fp cb (operator op) s)
  unfolding exec_item apply_kind
  exec_unary-Fits op k k' s large h fits = elim (Bool-cases (op == 255)) [
    | inl lookup ↦ elim (Option-cases (pop_name k)) [
      | inl n ↦ absurd (ground (arith, n))
      | inr (k₁, e₁) ↦
          let shape : k' ≡ number ∷ k₁ = ground (arith, e₁) in
          rw (large, lookup)
            (Post-bind (pop_id-Fits k k₁ s e₁ fits)
              λ top f₁. Post-bind (get_value-NoStackFault top.0) λ d _. returns (rw shape f₁))
    ]
    | inr other ↦ elim (Option-cases (pop_number k)) [
      | inl n ↦ absurd (ground (arith, n))
      | inr (k₁, e₁) ↦
          let shape : k' ≡ number ∷ k₁ = ground (arith, e₁) in
          rw (large, other)
            (Post-bind (pop_value-Fits k k₁ s e₁ fits) λ top f₁.
              Post-bind (call_function-NoStackFault op top.0) λ d _. returns (rw shape f₁))
    ]
  ]

  exec_item-Fits :
      (i : Item D) (k k' : List Kind) (s : List (Cell D))
      → item_kind i k ≡ some k'
      → Fits k s
      → Post (λ r. Fits k' r) NoStackFault (exec_item fp cb i s)
  unfolding item_kind exec_item
  exec_item-Fits (value d) k k' s h fits = let e : k' ≡ number ∷ k = cc in returns (rw e fits)
  exec_item-Fits (ident n) k k' s h fits = let e : k' ≡ name ∷ k = cc in returns (rw e fits)
  exec_item-Fits (operator op) k k' s h fits = elim (Bool-cases (ltb op 128)) [
    | inl small ↦ exec_binary-Fits op k k' s small h fits
    | inr large ↦ exec_unary-Fits op k k' s large h fits
  ]

  exec-Fits :
      (code : List (Item D)) (k k' : List Kind) (s : List (Cell D))
      → kinds code k ≡ some k'
      → Fits k s
      → Post (λ r. Fits k' r) NoStackFault (exec fp cb code s)
  unfolding exec kinds
  exec-Fits [] k k' s h fits = let e : k' ≡ k = cc in returns (rw e fits)
  exec-Fits (i ∷ code) k k' s h fits = elim (Option-cases (item_kind i k)) [
    | inl n ↦ absurd (ground (arith, n))
    | inr (k₁, e) ↦
        let h' : kinds code k₁ ≡ some k' = ground (arith, e) in
        Post-bind (Post-bind (exec_item-Fits i k k₁ s e fits) λ s₁ f₁. check_room-Fits k₁ s₁ f₁)
          λ s₂ f₂. exec-Fits code k₁ k' s₂ h' f₂
  ]

  result-NoStackFault :
      (s : List (Cell D)) → Fits (number ∷ []) s → Post (λ d. Unit) NoStackFault (result s)
  unfolding result
  result-NoStackFault [] f = absurd f
  result-NoStackFault (id n ∷ s) f = absurd f
  result-NoStackFault (val d ∷ []) f = returns tt
  result-NoStackFault (val d ∷ c ∷ s) f = absurd f

  -- Code that the compiler has made, from any text, never runs into an empty execution stack, and
  -- never reads a variable's number as a double or a double as a number.
  pub calcn-build_stack_safe :
      StrtodAdvances fp
      → (str : List ℕ) (code : List (Item D)) → build_stack fp cb.get_var_id str ≡ ok code
      → (calcn fp cb code ≢ fault underflow) × (calcn fp cb code ≢ fault wrong_kind)
  unfolding calcn
  calcn-build_stack_safe advances str code h =
      let run =
        Post-bind
          (exec-Fits code [] (number ∷ []) []
            (build_stack-kinds fp cb.get_var_id advances str code h) tt)
          λ s f. result-NoStackFault s f in
      (λ e. Post-fault run e, λ e. Post-fault run e)
