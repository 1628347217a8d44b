-- ===== src/Eval/Compile/Balanced.antt =====
-- src/mea_eval.c: _evalCalcN never runs out of the fuel it is given, and the code it makes leaves
-- exactly one double: no operator in it lacks an operand.
use mea_edomus_lite.Common.{
  ℕ, suc, ◌+◌, ◌-◌, ◌<◌, ◌≡◌, ◌≢◌, ◌⊎◌, inl, inr, refl, true, false, some, List, [], ◌∷◌, ◌++◌, ltb,
  leb, if◌then◌else◌, arith, All, length, Bool-cases,
}
use mea_edomus_lite.Eval.Outcome.{
  ok, out_of_fuel, Post, returns, faults, Post-bind, Post-of, Post-if, AnyFault,
}
use mea_edomus_lite.Eval.Lexer.{int_function}
use mea_edomus_lite.Eval.Compile.{
  Item, operator, Code, Frame, binds_no_tighter, push, queue_operator, flush, max_operators,
}
use mea_edomus_lite.Eval.Compile.Kinds.{
  Kind, number, numbers, apply_kind, item_kind, kinds, kinds-snoc,
}

-- What is queued: an operator of two operands, or the function.
abbrev pub IsQueued : ℕ → Type 0
IsQueued op = (op < 128) ⊎ (op ≡ int_function)

-- How many doubles an operator's code takes off the stack in all.
abbrev pub weight : ℕ → ℕ
weight op = if ltb op 128 then 1 else 0

abbrev pub pending : List ℕ → ℕ
pending [] = 0
pending (op ∷ ops) = weight op + pending ops

apply_kind-queued :
    (op n : ℕ) (base : List Kind)
    → IsQueued op
    → apply_kind op (numbers (suc (weight op + n)) base) ≡ some (numbers (suc n) base)
unfolding apply_kind
apply_kind-queued op n base (inl h) =
    let e : ltb op 128 ≡ true = ground arith in
    let m : weight op + n ≡ suc n = ground arith in rw m (ground (arith, e))
apply_kind-queued op n base (inr h) =
    let e : ltb op 128 ≡ false = ground arith in
    let m : weight op + n ≡ n = ground arith in rw m (ground (arith, e))

module _ {D : Type 0} where
  push-items :
      (i : Item D) (s s' : Frame D)
      → push i s ≡ ok s'
      → (s'.operators ≡ s.operators) × (s'.code.items ≡ s.code.items ++ i ∷ [])
  unfolding push
  push-items i s s' h = ground arith

  push_fuel : (i : Item D) (s : Frame D) → push i s ≢ out_of_fuel
  unfolding push
  push_fuel i s = ground arith

  -- The code leaves the stack `k`.
  abbrev pub Leaves : List Kind → Code D → Type 0
  Leaves k c = kinds c.items [] ≡ some k

  pub push-Post :
      (i : Item D) (s : Frame D) (k k' : List Kind)
      → Leaves k s.code
      → item_kind i k ≡ some k'
      → Post (λ s'. (s'.operators ≡ s.operators) × Leaves k' s'.code) AnyFault (push i s)
  push-Post i s k k' h e =
      Post-of _ (push i s)
        (λ s' p.
          let (same, items) = push-items i s s' p in
          (same, rw items (kinds-snoc s.code.items i [] k k' h e)))
        (push_fuel i s)

module _ {D : Type 0} (base : List Kind) where
  -- Between two halves of a round the code leaves a double for each pending operator on top of
  -- `base`, and `extra` more.
  pub record Balanced (extra : ℕ) (s : Frame D) : Type 0 where
    pub doubles : ℕ
    pub count : doubles ≡ extra + pending s.operators
    pub queued : All IsQueued s.operators
    pub makes : Leaves (numbers doubles base) s.code

  pub push_queued :
      (op n : ℕ) (s : Frame D)
      → IsQueued op
      → Leaves (numbers (suc (weight op + n)) base) s.code
      → Post
          (λ s'. (s'.operators ≡ s.operators) × Leaves (numbers (suc n) base) s'.code)
          AnyFault
          (push (operator op) s)
  unfolding item_kind
  push_queued op n s q h = push-Post (operator op) s _ _ h (apply_kind-queued op n base q)

  -- What is queued needs an operand of its own if it is an operator, and none if it is a function.
  pub queue-Balanced :
      (op n : ℕ) (s : Frame D) (ops : List ℕ)
      → IsQueued op
      → All IsQueued ops
      → n ≡ suc (pending ops)
      → Leaves (numbers n base) s.code
      → Post (Balanced (1 - weight op)) AnyFault (queue_operator op s ops)
  unfolding queue_operator
  queue-Balanced op n s [] q qs c h =
      returns (record { doubles = n; count = ground arith; queued = (q, tt); makes = h })
  queue-Balanced op n s (top ∷ below) q qs c h = elim (Bool-cases (binds_no_tighter op top)) [
    | inl pops ↦
        let e : n ≡ suc (weight top + pending below) = omega arith in
        rw pops (
          Post-bind (push_queued top (pending below) s qs.0 (rw e at h)) λ s' (same, made).
            returns (record {
              doubles = suc (pending below);
              count = ground arith;
              queued = (q, qs.1);
              makes = made;
            }))
    | inr stays ↦ rw stays (
        Post-if (leb max_operators (length (top ∷ below))) (λ _. faults tt)
          λ _. returns (record { doubles = n; count = ground arith; queued = (q, qs); makes = h }))
  ]

  pub flush-Leaves :
      (ops : List ℕ) (n : ℕ) (s : Frame D)
      → All IsQueued ops
      → n ≡ suc (pending ops)
      → Leaves (numbers n base) s.code
      → Post (λ s'. Leaves (number ∷ base) s'.code) AnyFault (flush ops s)
  unfolding flush
  flush-Leaves [] n s qs c h = returns (rw c at h)
  flush-Leaves (op ∷ ops) n s qs c h =
      let e : n ≡ suc (weight op + pending ops) = omega arith in
      Post-bind (push_queued op (pending ops) s qs.0 (rw e at h))
        λ s' (same, made). flush-Leaves ops (suc (pending ops)) s' qs.1 refl made
