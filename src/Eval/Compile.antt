-- ===== src/Eval/Compile.antt =====
-- src/mea_eval.c: pushToEvalStack, _evalCalcN and mea_eval_buildStack_alloc, which compile a text to
-- code for the stack machine (the source as it is built, with ONFLYEVAL at 0). Allocation succeeds,
-- and every realloc moves its block: a pointer to the block is the number of moves that made it.
pub mod Kinds
pub mod Balanced
pub mod Pieces
pub mod Total
use mea_edomus_lite.Common.{
  ℕ, zero, suc, ◌+◌, Bool, true, false, none, some, List, [], ◌∷◌, ◌++◌, ◌||◌, ◌&&◌, ltb, leb, ◌==◌,
  if◌then◌else◌, length,
}
use mea_edomus_lite.Common.Int.{ℤ, pos, negsuc, leb_ℤ}
use mea_edomus_lite.Eval.Outcome.{
  Outcome, ok, err, fault, out_of_fuel, operators_overflow, stale_block, ◌>>=◌,
}
use mea_edomus_lite.Eval.Double.{Doubles, VarIds}
use mea_edomus_lite.Eval.Lexer.{
  Token, numeric, variable, function, get_space, get_operator, get_token,
}

-- struct mea_eval_stack_s, by its type: 1, 2 and 3.
pub data Item (D : Type 0) : Type 0 where
  value : D → Item D
  operator : ℕ → Item D
  ident : ℕ → Item D

-- The code that the callers share: its items, the size of its block and the block.
pub record Code (D : Type 0) : Type 0 where
  pub items : List (Item D)
  pub size : ℕ
  pub block : ℕ

-- The variables of one call of _evalCalcN: its `operators`, the top first, its own `stack` pointer
-- and what that points to.
pub record Frame (D : Type 0) : Type 0 where
  pub operators : List ℕ
  pub stack : ℕ
  pub code : Code D

abbrev pub default_stack_size : ℕ
default_stack_size = 80

abbrev pub max_operators : ℕ
max_operators = 10

abbrev pub max_level : ℕ
max_level = 10

abbrev pub is_char : ℕ → List ℕ → Bool
is_char c [] = false
is_char c (x ∷ _) = x == c

-- the text behind the character at a position
abbrev pub behind : List ℕ → List ℕ
behind [] = []
behind (_ ∷ s) = s

-- mea_eval_getOperatorPriorityN
unfoldable pub operator_priority : ℕ → ℤ
operator_priority op =
    if ltb 127 op
    then pos 3
    else if (op == b'+') || (op == b'-')
    then pos 1
    else if (op == b'*') || (op == b'/') || (op == b'%')
    then pos 2
    else negsuc 0

-- mea_eval_operatorPriorityCmpN(op1, op2) <= 0
unfoldable pub binds_no_tighter : ℕ → ℕ → Bool
unfolding operator_priority
binds_no_tighter op1 op2 = leb_ℤ (operator_priority op1) (operator_priority op2)

-- The test that ends the loop: the text ends, or a parenthesis closes that an outer call opened.
unfoldable pub at_end : ℕ → List ℕ → Bool
at_end lvl [] = true
at_end lvl (c ∷ _) = (c == b')') && ltb 0 lvl

-- A closing parenthesis, or the error for its absence.
unfoldable pub close_paren : ℕ → List ℕ → Outcome (List ℕ)
close_paren e q = if is_char b')' q then ok (behind q) else err e

module _ {D : Type 0} where
  -- pushToEvalStack, from a frame
  unfoldable pub push : Item D → Frame D → Outcome (Frame D)
  push i s =
      if s.stack == s.code.block
      then (if leb s.code.size (length s.code.items)
          then ok (record s {
            stack = suc s.code.block;
            code = record {
              items = s.code.items ++ i ∷ [];
              size = s.code.size + 10;
              block = suc s.code.block;
            };
          })
          else ok (record s {
            code = record {
              items = s.code.items ++ i ∷ [];
              size = s.code.size;
              block = s.code.block;
            };
          }))
      else fault stale_block

  -- What is done with a function and with an operator that has been read: it goes onto `operators`,
  -- and where it binds no tighter than the top one, that one goes to the code first.
  unfoldable pub queue_operator : ℕ → Frame D → List ℕ → Outcome (Frame D)
  unfolding push binds_no_tighter
  queue_operator op s [] = ok (record s { operators = op ∷ [] })
  queue_operator op s (top ∷ below) =
      if binds_no_tighter op top
      then (push (operator top) s >>= λ s'. ok (record s' { operators = op ∷ below }))
      else if leb max_operators (length (top ∷ below))
      then fault operators_overflow
      else ok (record s { operators = op ∷ top ∷ below })

  -- The loop that moves the remaining operators to the code.
  unfoldable pub flush : List ℕ → Frame D → Outcome (Frame D)
  unfolding push
  flush [] s = ok s
  flush (op ∷ ops) s = push (operator op) s >>= flush ops

  -- The start of _evalCalcN, in front of its loop.
  unfoldable pub enter :
      (ℕ → List ℕ → Frame D → Outcome (List ℕ × Code D))
      → ℕ
      → List ℕ
      → ℕ
      → Code D
      → Outcome (List ℕ × Code D)
  enter loop lvl [] stack code = err 1
  enter loop lvl (c ∷ s) stack code =
      if ltb max_level lvl
      then err 2
      else loop lvl (c ∷ s) (record { operators = []; stack = stack; code = code })

  -- A nested call and the closing parenthesis behind it; the frame keeps its own `stack`.
  unfoldable pub parenthesised :
      (ℕ → List ℕ → ℕ → Code D → Outcome (List ℕ × Code D))
      → ℕ
      → ℕ
      → List ℕ
      → Frame D
      → Outcome (List ℕ × Frame D)
  unfolding close_paren
  parenthesised nested e lvl p s = nested (lvl + 1) p s.stack s.code >>= λ inner.
      close_paren e (get_space inner.0) >>= λ q. ok (q, record s { code = inner.1 })

  abbrev pub empty_code : Code D
  empty_code = record { items = []; size = default_stack_size; block = 0 }

module _ {D : Type 0} (fp : Doubles D) (ids : VarIds) where
  -- What the loop does with a token, `p` being the text behind it.
  unfoldable pub on_token :
      (ℕ → List ℕ → ℕ → Code D → Outcome (List ℕ × Code D))
      → ℕ
      → Token D
      → List ℕ
      → Frame D
      → Outcome (List ℕ × Frame D)
  unfolding push parenthesised queue_operator
  on_token nested lvl (numeric d) p s = push (value d) s >>= λ s'. ok (p, s')
  on_token nested lvl (variable id) p s =
      push (ident id) s >>= λ s'. push (operator 255) s' >>= λ s''. ok (p, s'')
  on_token nested lvl (function fn) p s =
      if is_char b'(' (get_space p)
      then (parenthesised nested 7 lvl (behind (get_space p)) s >>= λ r.
          queue_operator fn r.1 r.1.operators >>= λ s'. ok (r.0, s'))
      else err 6

  -- The first half of the loop's body: an operand.
  unfoldable pub operand :
      (ℕ → List ℕ → ℕ → Code D → Outcome (List ℕ × Code D))
      → ℕ
      → List ℕ
      → Frame D
      → Outcome (List ℕ × Frame D)
  unfolding on_token parenthesised
  operand nested lvl p s =
      if is_char b'(' p
      then parenthesised nested 3 lvl (behind p) s
      else (get_token fp ids p >>= λ t. on_token nested lvl t.0 t.1 s)

  -- The second half: an operator and the next round, or the end.
  unfoldable pub after_operand :
      (List ℕ → Frame D → Outcome (List ℕ × Code D))
      → ℕ
      → List ℕ
      → Frame D
      → Outcome (List ℕ × Code D)
  unfolding queue_operator flush at_end
  after_operand next lvl q s = elim (get_operator q) [
    | some (op, r) ↦ queue_operator op s s.operators >>= next r
    | none ↦
        if at_end lvl q
        then (flush s.operators s >>= λ s'. ok (q, s'.code))
        else if is_char b')' q
        then err 8
        else err 9
  ]

  -- The loop of _evalCalcN on fuel; a nested call runs on the fuel of the round that makes it.
  unfoldable pub eval_loop : ℕ → ℕ → List ℕ → Frame D → Outcome (List ℕ × Code D)
  unfolding operand after_operand enter
  eval_loop zero lvl p s = out_of_fuel
  eval_loop (suc f) lvl p s = operand (enter (eval_loop f)) lvl (get_space p) s >>= λ r.
      after_operand (eval_loop f lvl) lvl (get_space r.0) r.1

  -- mea_eval_buildStack_alloc. Each round consumes a character, so the text's length is fuel enough.
  -- The last realloc is given the first block, which a realloc before it would have freed.
  unfoldable pub build_stack : List ℕ → Outcome (List (Item D))
  unfolding eval_loop
  build_stack str = enter (eval_loop (suc (length str))) 0 str 0 empty_code >>= λ r.
      if r.1.block == 0 then ok r.1.items else fault stale_block
