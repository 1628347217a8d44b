-- ===== src/Eval/Tree/Chains.antt =====
-- src/mea_eval.c: rounds of the compiler's loop on numbers and operators without parentheses.
use mea_edomus_lite.Common.{
  ℕ, suc, ◌+◌, ◌<◌, ◌≡◌, Bool, true, List, [], ◌∷◌, ◌++◌, length, ◌==◌, append_assoc, append-nil,
  arith, ◌||◌, length-append, map, map,
}
use mea_edomus_lite.Text.Char.{hash, is_space}
use mea_edomus_lite.Eval.Outcome.{ok, ◌>>=◌}
use mea_edomus_lite.Eval.Double.{Doubles, VarIds}
use mea_edomus_lite.Eval.Lexer.{is_operator, get_space, get_operator}
use mea_edomus_lite.Eval.Compile.{
  Item, value, operator, binds_no_tighter, queue_operator, operand, on_token, after_operand, enter,
  eval_loop,
}
use mea_edomus_lite.Eval.Tree.{num, Stops, IsReadable}
use mea_edomus_lite.Eval.Tree.Steps.{code, frame, push-frame, get_space-Stops, get_token-num}
use mea_edomus_lite.Eval.Tree.Rounds.{after-Closes, eval_loop-round}

abbrev pub is_additive : ℕ → Bool
is_additive op = (op == b'+') || (op == b'-')

abbrev pub is_multiplicative : ℕ → Bool
is_multiplicative op = (op == b'*') || (op == b'/') || (op == b'%')

module _ {D : Type 0} (fp : Doubles D) (ids : VarIds) where
  pub read_number :
      (f lvl : ℕ) (t : List ℕ) (d : D) (rest ops : List ℕ) (items : List (Item D))
      → IsReadable fp ids (num t d)
      → Stops rest
      → length items < 80
      → operand fp ids
          (enter (eval_loop fp ids f))
          lvl
          (get_space (hash ∷ t ++ rest))
          (frame ops items)
        ≡ ok (rest, frame ops (items ++ value d ∷ []))
  unfolding operand on_token get_space is_space
  read_number f lvl t d rest ops items reads stops room =
      rw (get_token-num fp ids t rest d (reads rest stops))
        (rw (push-frame (value d) ops items room))

  -- A round that reads a number and an operator.
  pub number_round :
      (f lvl : ℕ) (t : List ℕ) (d : D) (op : ℕ) (rest ops : List ℕ) (items : List (Item D))
      → IsReadable fp ids (num t d)
      → is_operator op ≡ true
      → length items < 80
      → eval_loop fp ids (suc f) lvl (hash ∷ t ++ op ∷ rest) (frame ops items) ≡ (
          queue_operator op (frame ops (items ++ value d ∷ [])) ops >>= eval_loop fp ids f lvl rest)
  unfolding after_operand get_operator
  number_round f lvl t d op rest ops items reads h room =
      let stops : Stops (op ∷ rest) = rw h in
      rw
        (eval_loop-round fp ids f lvl (hash ∷ t ++ op ∷ rest) (frame ops items) (op ∷ rest)
          (frame ops (items ++ value d ∷ []))
          (read_number f lvl t d (op ∷ rest) ops items reads stops room))
        (rw (get_space-Stops (op ∷ rest) stops) (rw (h, after_operand)))

  pub queue-tighter :
      (op top : ℕ) (below : List ℕ) (items : List (Item D))
      → is_additive top ≡ true
      → is_multiplicative op ≡ true
      → length below < 9
      → queue_operator op (frame (top ∷ below) items) (top ∷ below)
        ≡ ok (frame (op ∷ top ∷ below) items)
  unfolding queue_operator binds_no_tighter
  queue-tighter op top below items h k room = ground arith

  pub queue-looser :
      (op top : ℕ) (below : List ℕ) (items : List (Item D))
      → is_multiplicative top ≡ true
      → is_additive op ≡ true
      → length items < 80
      → queue_operator op (frame (top ∷ below) items) (top ∷ below)
        ≡ ok (frame (op ∷ below) (items ++ operator top ∷ []))
  unfolding queue_operator binds_no_tighter
  queue-looser op top below items h k room =
      ground (arith, push-frame (operator top) (top ∷ below) items room)

  -- The last number, behind which what waits goes to the code.
  pub last_round :
      (f : ℕ) (t : List ℕ) (d : D) (ops : List ℕ) (items : List (Item D))
      → IsReadable fp ids (num t d)
      → length items + length ops < 80
      → eval_loop fp ids (suc f) 0 (hash ∷ t) (frame ops items)
        ≡ ok ([], code (items ++ value d ∷ map operator ops))
  unfolding get_space
  last_round f t d ops items reads room =
      let read = rw append-nil at (read_number f 0 t d [] ops items reads tt (omega arith)) in
      rw
        (eval_loop-round fp ids f 0 (hash ∷ t) (frame ops items) []
          (frame ops (items ++ value d ∷ [])) read)
        (rw
          (after-Closes fp ids (eval_loop fp ids f 0) 0 [] ops (items ++ value d ∷ []) tt
            (omega (arith, length-append items (value d ∷ []))))
          (rw append_assoc))
