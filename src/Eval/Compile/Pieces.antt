-- ===== src/Eval/Compile/Pieces.antt =====
-- src/mea_eval.c: the operands and the operators that a round of _evalCalcN handles, on any text.
use mea_edomus_lite.Common.{
  ℕ, suc, ◌+◌, ◌-◌, ◌<◌, ◌≤◌, ◌≡◌, inl, inr, refl, ◌∙◌, true, List, [], ◌∷◌, ◌==◌, arith, length,
  Option-cases,
}
use mea_edomus_lite.Eval.Outcome.{
  Outcome, Post, returns, fails, Post-bind, Post-mono, Post-if, AnyFault,
}
use mea_edomus_lite.Eval.Double.{Doubles, VarIds}
use mea_edomus_lite.Eval.Lexer.{
  Token, numeric, variable, function, int_function, get_space, get_operator,
}
use mea_edomus_lite.Eval.Lexer.Shrinks.{
  StrtodAdvances, IsToken, get_token-Post, get_space_shrinks, get_operator_shrinks,
}
use mea_edomus_lite.Eval.Compile.{
  value, operator, ident, Code, Frame, is_char, behind, at_end, close_paren, parenthesised,
  on_token, operand, after_operand,
}
use mea_edomus_lite.Eval.Compile.Kinds.{Kind, number, numbers, apply_kind, item_kind}
use mea_edomus_lite.Eval.Compile.Balanced.{
  weight, Leaves, Balanced, push-Post, queue-Balanced, flush-Leaves,
}

-- What a call of _evalCalcN on the text `p` comes back with: no more text than it was given, and
-- code that leaves one more double.
abbrev pub Inner : {D : Type 0} → List Kind → List ℕ → List ℕ × Code D → Type 0
Inner base p r = (length r.0 ≤ length p) × Leaves (number ∷ base) r.1

-- A loop that does so on every text shorter than `n`.
abbrev pub Runs : {D : Type 0} → ℕ → (ℕ → List ℕ → ℕ → Code D → Outcome (List ℕ × Code D)) → Type 0
Runs {D} n nested =
    (lvl : ℕ) (p : List ℕ) (stack : ℕ) (code : Code D) (base : List Kind)
    → length p < n
    → Leaves base code
    → Post (Inner base p) AnyFault (nested lvl p stack code)

behind_shrinks : (c : ℕ) (p : List ℕ) → is_char c p ≡ true → length (behind p) < length p
behind_shrinks c [] h = absurd (ground arith)
behind_shrinks c (x ∷ p) h = omega arith

close_paren_shrinks :
    (e : ℕ) (q : List ℕ) → Post (λ r. length r ≤ length q) AnyFault (close_paren e q)
unfolding close_paren
close_paren_shrinks e [] = fails
close_paren_shrinks e (c ∷ q) = Post-if (c == b')') (λ _. returns (omega arith)) (λ _. fails)

module _ {D : Type 0} (base : List Kind) where
  -- A frame that has pushed one double since it was balanced.
  one_more :
      {s s' : Frame D}
      → (b : Balanced base 0 s) → s'.operators ≡ s.operators
      → Leaves (number ∷ numbers b.doubles base) s'.code
      → Balanced base 1 s'
  one_more b same made = record {
    doubles = suc b.doubles;
    count = rw same (omega (arith, b.count));
    queued = rw same b.queued;
    makes = made;
  }

  parenthesised-Balanced :
      (n : ℕ) (nested : ℕ → List ℕ → ℕ → Code D → Outcome (List ℕ × Code D))
      → Runs n nested
      → (e lvl : ℕ) (p : List ℕ) (s : Frame D) → length p < n
      → Balanced base 0 s
      → Post
          (λ r. (length r.0 ≤ length p) × Balanced base 1 r.1)
          AnyFault
          (parenthesised nested e lvl p s)
  unfolding parenthesised
  parenthesised-Balanced n nested runs e lvl p s short b =
      Post-bind (runs (lvl + 1) p s.stack s.code (numbers b.doubles base) short b.makes)
        λ inner (len, made).
          Post-bind (close_paren_shrinks e (get_space inner.0))
            λ q len'. returns (omega (arith, get_space_shrinks inner.0), one_more b refl made)

module _ {D : Type 0} (fp : Doubles D) (ids : VarIds) (base : List Kind) where
  on_token-Balanced :
      (n : ℕ) (nested : ℕ → List ℕ → ℕ → Code D → Outcome (List ℕ × Code D))
      → Runs n nested
      → (lvl : ℕ) (t : Token D) (p : List ℕ) (s : Frame D) → IsToken t
      → length p < n
      → Balanced base 0 s
      → Post
          (λ r. (length r.0 ≤ length p) × Balanced base 1 r.1)
          AnyFault
          (on_token fp ids nested lvl t p s)
  unfolding on_token item_kind apply_kind
  on_token-Balanced n nested runs lvl (numeric d) p s i short b =
      Post-bind (push-Post (value d) s _ _ b.makes refl)
        λ s' (same, made). returns (omega arith, one_more base b same made)
  on_token-Balanced n nested runs lvl (variable id) p s i short b =
      Post-bind (push-Post (ident id) s _ _ b.makes refl) λ s₁ (same₁, made₁).
        Post-bind (push-Post (operator 255) s₁ _ _ made₁ refl)
          λ s₂ (same₂, made₂). returns (omega arith, one_more base b (same₂ ∙ same₁) made₂)
  on_token-Balanced n nested runs lvl (function fn) p s i short b =
      Post-if (is_char b'(' (get_space p))
        (λ open'.
          let less = behind_shrinks b'(' (get_space p) open' in
          Post-bind
            (parenthesised-Balanced base n nested runs 7 lvl (behind (get_space p)) s
              (omega (arith, less, get_space_shrinks p)) b)
            λ r (len, b').
              Post-bind
                (queue-Balanced base fn b'.doubles r.1 r.1.operators (inr i) b'.queued
                  (omega (arith, b'.count)) b'.makes)
                λ s' done.
                  returns
                    (omega (arith, less, len, get_space_shrinks p), function_Balanced fn s' i done))
        (λ _. fails)
    where
      function_Balanced :
          (fn : ℕ) (s : Frame D)
          → fn ≡ int_function
          → Balanced base (1 - weight fn) s
          → Balanced base 1 s
      function_Balanced fn s e = rw e (λ x. x)

  pub operand-Balanced :
      (n : ℕ) (nested : ℕ → List ℕ → ℕ → Code D → Outcome (List ℕ × Code D))
      → Runs n nested
      → StrtodAdvances fp
      → (lvl : ℕ) (p : List ℕ) (s : Frame D) → length p ≤ n
      → Balanced base 0 s
      → Post
          (λ r. (length r.0 < length p) × Balanced base 1 r.1)
          AnyFault
          (operand fp ids nested lvl p s)
  unfolding operand
  operand-Balanced n nested runs advances lvl p s short b =
      Post-if (is_char b'(' p)
        (λ open'.
          let less = behind_shrinks b'(' p open' in
          Post-mono
            (parenthesised-Balanced base n nested runs 3 lvl (behind p) s (omega (arith, less)) b)
            λ r (len, b'). (omega (arith, less, len), b'))
        (λ _. Post-bind (get_token-Post fp ids advances p) λ t (len, token).
          Post-mono (on_token-Balanced n nested runs lvl t.0 t.1 s token (omega (arith, len)) b)
            λ r (len', b'). (omega (arith, len, len'), b'))

  pub after_operand-Balanced :
      (next : List ℕ → Frame D → Outcome (List ℕ × Code D)) (lvl : ℕ) (q : List ℕ) (s : Frame D)
      → ((r : List ℕ) (s' : Frame D)
          → length r < length q
          → Balanced base 0 s'
          → Post (Inner base r) AnyFault (next r s'))
      → Balanced base 1 s
      → Post (Inner base q) AnyFault (after_operand fp ids next lvl q s)
  unfolding after_operand
  after_operand-Balanced next lvl q s go b = elim (Option-cases (get_operator q)) [
    | inl last ↦
        rw (last, after_operand)
          (Post-if (at_end lvl q)
            (λ _.
              Post-bind
                (flush-Leaves base s.operators b.doubles s b.queued (omega (arith, b.count))
                  b.makes)
                λ s' made. returns (omega arith, made))
            (λ _. Post-if (is_char b')' q) (λ _. fails) (λ _. fails)))
    | inr ((op, r), more) ↦
        let (less, small) = get_operator_shrinks q op r more in
        rw (more, after_operand)
          (Post-bind
            (queue-Balanced base op b.doubles s s.operators (inl small) b.queued
              (omega (arith, b.count)) b.makes)
            λ s' b'.
              Post-mono (go r s' less (operator_Balanced op s' small b'))
                λ a (len, made). (omega (arith, len, less), made))
  ]
    where
      operator_Balanced :
          (op : ℕ) (s : Frame D) → op < 128 → Balanced base (1 - weight op) s → Balanced base 0 s
      operator_Balanced op s small = let e : 1 - weight op ≡ 0 = ground arith in rw e (λ x. x)
