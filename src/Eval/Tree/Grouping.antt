-- ===== src/Eval/Tree/Grouping.antt =====
-- src/mea_eval.c: the loop moves one waiting operator to the code where it should move all that
-- bind as tight as the new one.
use mea_edomus_lite.Common.{
  ℕ, suc, ◌-◌, ◌≡◌, true, List, [], ◌∷◌, ◌++◌, length, arith, length-append,
}
use mea_edomus_lite.Text.Char.{hash}
use mea_edomus_lite.Eval.Outcome.{ok}
use mea_edomus_lite.Eval.Double.{Doubles, VarIds}
use mea_edomus_lite.Eval.Lexer.{is_operator}
use mea_edomus_lite.Eval.Compile.{value, operator, enter, eval_loop, build_stack}
use mea_edomus_lite.Eval.Tree.{num, bin, postfix, IsReadable}
use mea_edomus_lite.Eval.Tree.Steps.{code, frame, queue-first}
use mea_edomus_lite.Eval.Tree.Chains.{
  is_additive, is_multiplicative, number_round, queue-tighter, queue-looser, last_round,
}

-- #a o1 #b o2 #c o3 #d, of the numbers' texts
abbrev pub chain : List ℕ → ℕ → List ℕ → ℕ → List ℕ → ℕ → List ℕ → List ℕ
chain ta o1 tb o2 tc o3 td = hash ∷ ta ++ o1 ∷ (hash ∷ tb ++ o2 ∷ (hash ∷ tc ++ o3 ∷ (hash ∷ td)))

module _ {D : Type 0} (fp : Doubles D) (ids : VarIds) (ta tb tc td : List ℕ) (a b c d : D)
    (read_a : IsReadable fp ids (num ta a)) (read_b : IsReadable fp ids (num tb b))
    (read_c : IsReadable fp ids (num tc c)) (read_d : IsReadable fp ids (num td d)) (o1 o2 o3 : ℕ)
    (add1 : is_additive o1 ≡ true) (mul2 : is_multiplicative o2 ≡ true)
    (add3 : is_additive o3 ≡ true) where
  additive_lem : (op : ℕ) → is_additive op ≡ true → is_operator op ≡ true
  unfolding is_operator
  additive_lem op h = ground arith

  multiplicative_lem : (op : ℕ) → is_multiplicative op ≡ true → is_operator op ≡ true
  unfolding is_operator
  multiplicative_lem op h = ground arith

  chain_loop :
      (f : ℕ)
      → eval_loop fp ids (suc (suc (suc (suc f)))) 0 (chain ta o1 tb o2 tc o3 td) (frame [] [])
        ≡ ok (
          [],
          code (postfix (bin o1 (num ta a) (bin o3 (bin o2 (num tb b) (num tc c)) (num td d)))),
        )
  unfolding postfix
  chain_loop f =
      rw
        (number_round fp ids (suc (suc (suc f))) 0 ta a o1 _ [] [] read_a (additive_lem o1 add1)
          (omega arith))
        (rw (queue-first o1 (value a ∷ [])) (
          rw
            (number_round fp ids (suc (suc f)) 0 tb b o2 _ (o1 ∷ []) (value a ∷ []) read_b
              (multiplicative_lem o2 mul2) (omega arith))
            (rw (queue-tighter fp ids o2 o1 [] (value a ∷ value b ∷ []) add1 mul2 (omega arith)) (
              rw
                (number_round fp ids (suc f) 0 tc c o3 _ (o2 ∷ o1 ∷ []) (value a ∷ value b ∷ [])
                  read_c (additive_lem o3 add3) (omega arith))
                (rw
                  (queue-looser fp ids o3 o2 (o1 ∷ []) (value a ∷ value b ∷ value c ∷ []) mul2 add3
                    (omega arith))
                  (last_round fp ids f td d (o3 ∷ o1 ∷ [])
                    (value a ∷ value b ∷ value c ∷ operator o2 ∷ []) read_d (omega arith)))))))

  chain_loop-fuel :
      (n f : ℕ)
      → n ≡ suc (suc (suc (suc f)))
      → eval_loop fp ids n 0 (chain ta o1 tb o2 tc o3 td) (frame [] [])
        ≡ ok (
          [],
          code (postfix (bin o1 (num ta a) (bin o3 (bin o2 (num tb b) (num tc c)) (num td d)))),
        )
  chain_loop-fuel n f e = rw e (chain_loop f)

  -- The text a o1 b o2 c o3 d, in which o1 and o3 are + or - and o2 is one of * / %, compiles to the
  -- code of a o1 ((b o2 c) o3 d): with - for o1 that is not what the operators mean, which is
  -- (a o1 (b o2 c)) o3 d.
  pub build_stack-groups_right :
      build_stack fp ids (chain ta o1 tb o2 tc o3 td)
      ≡ ok (postfix (bin o1 (num ta a) (bin o3 (bin o2 (num tb b) (num tc c)) (num td d))))
  unfolding build_stack enter
  build_stack-groups_right =
      let rest_c = hash ∷ tc ++ o3 ∷ (hash ∷ td) in
      let rest_b = hash ∷ tb ++ o2 ∷ rest_c in
      let e : suc (length (chain ta o1 tb o2 tc o3 td))
          ≡ suc (suc (suc (suc (length (chain ta o1 tb o2 tc o3 td) - 3)))) =
        omega (
          arith,
          length-append ta (o1 ∷ rest_b),
          length-append tb (o2 ∷ rest_c),
          length-append tc (o3 ∷ (hash ∷ td)),
        ) in
      rw (
        chain_loop-fuel (suc (length (chain ta o1 tb o2 tc o3 td)))
          (length (chain ta o1 tb o2 tc o3 td) - 3) e)
