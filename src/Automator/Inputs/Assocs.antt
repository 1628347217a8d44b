-- ===== src/Automator/Inputs/Assocs.antt =====
-- src/automator.c: an input's number leads back to the input.
use mea_edomus_lite.Common.{
  ℕ, ◌+◌, ◌^◌, ◌<◌, ◌≤◌, ◌≡◌, refl, ap, sym, ◌∙◌, false, Option, none, some, List, [], ◌∷◌, ◌++◌,
  ◌==◌, arith, if◌then◌else◌, str_eq, All, Bool-cases, inl, inr, ==_refl, same_some,
}
use mea_edomus_lite.Common.Int.{ℤ}
use mea_edomus_lite.Automator.{Str, Reals, Input, Store}
use mea_edomus_lite.Automator.Inputs.{find_input, modify, no_id}
use mea_edomus_lite.Automator.Inputs.Ids.{
  find_assoc, to_int16, to_uint32, known, set_id, numbered_input, id_of, input_get_id, float_of,
  float_of_assoc, input_get_float_value_by_id, my_get_var_id, my_get_var_val, narrowed,
}

-- The associations have numbers that were given out.
abbrev pub Given : ℕ → List (ℕ × Str) → Type 0
Given last assocs = All (λ a. a.0 ≤ last) assocs

find_assoc-new :
    (last : ℕ) (assocs : List (ℕ × Str)) (name : Str)
    → Given last assocs
    → find_assoc (last + 1) (assocs ++ (last + 1, name) ∷ []) ≡ some name
unfolding find_assoc
find_assoc-new last [] name h = rw (==_refl (last + 1)) refl
find_assoc-new last ((i, n) ∷ assocs) name (hi, h) = rw (other) (find_assoc-new last assocs name h)
  where
    other : (i == last + 1) ≡ false
    other = ground (arith, hi)

to_uint32-to_int16 : (id : ℕ) → id < 2 ^ 15 → to_uint32 (to_int16 id) ≡ id
unfolding to_uint32 to_int16
to_uint32-to_int16 id h = ground (arith, h)

module _ {D : Type 0} (rl : Reals D) where
  pub find_input-modify :
      (name : Str) (f : Input D → Input D) (table : List (Input D)) (e : Input D)
      → ((i : Input D) → (f i).name ≡ i.name)
      → find_input rl name table ≡ some e
      → find_input rl name (modify rl name f table) ≡ some (f e)
  unfolding find_input modify
  find_input-modify name f [] e hf h = cc
  find_input-modify name f (i ∷ table) e hf h = elim (Bool-cases (str_eq i.name name)) [
    | inl q ↦
        rw (q, ap (λ n. str_eq n name) (hf i) ∙ q)
          (ap (λ x. some (f x))
            (same_some (sym (ap (λ b. if b then some i else find_input rl name table) q) ∙ h)))
    | inr q ↦
        rw (q, q)
          (find_input-modify name f table e hf
            (sym (ap (λ b. if b then some i else find_input rl name table) q) ∙ h))
  ]

  known-some :
      (stale : ℤ) (name : Str) (found : Option (Input D)) (e : Input D) (st : Store D)
      → found ≡ some e
      → known rl stale name found st ≡ st
  unfolding known
  known-some stale name none e st h = cc
  known-some stale name (some i) e st h = refl

  -- What input_getId does with an input that has no number yet.
  input_get_id-numbered :
      (stale : ℤ) (name : Str) (e : Input D) (st : Store D)
      → find_input rl name st.table ≡ some e
      → e.id ≡ no_id
      → st.next_input_id + 1 < 2 ^ 15
      → input_get_id rl stale name st ≡ numbered_input rl name (st.next_input_id + 1) st
  unfolding input_get_id id_of
  input_get_id-numbered stale name e st h hid hn =
      ap (λ s. id_of rl name (find_input rl name s.table) s)
        (known-some stale name (find_input rl name st.table) e st h)
      ∙ (ap (λ o. id_of rl name o st) h
          ∙ rw (hid) (ap (λ i. numbered_input rl name i st) (omega (arith, hn))))

  -- And with one that has a number.
  input_get_id-again :
      (stale : ℤ) (name : Str) (e : Input D) (st : Store D)
      → find_input rl name st.table ≡ some e
      → (e.id == no_id) ≡ false
      → input_get_id rl stale name st ≡ (none, st)
  unfolding input_get_id id_of
  input_get_id-again stale name e st h hid =
      ap (λ s. id_of rl name (find_input rl name s.table) s)
        (known-some stale name (find_input rl name st.table) e st h)
      ∙ (ap (λ o. id_of rl name o st) h ∙ rw (hid) refl)

  float_of-set_id :
      (id : ℕ) (e : Input D) → float_of rl (some (set_id rl id e)) ≡ float_of rl (some e)
  float_of-set_id id e = refl

  -- For an input that has no number yet, while numbers are below 2^15 and the associations only
  -- have numbers that were given out, myGetVarId gives a number for which myGetVarVal returns
  -- the input's value if that is a number and fails if not; a second call of myGetVarId for the
  -- same input fails.
  pub my_get_var_id-my_get_var_val :
      (stale : ℤ) (name : Str) (e : Input D) (st : Store D)
      → find_input rl name st.table ≡ some e
      → e.id ≡ no_id
      → st.next_input_id + 1 < 2 ^ 15
      → Given st.next_input_id st.assocs
      → (id : ℤ) × ((st2 : Store D) × ((my_get_var_id rl stale name st ≡ (some id, st2))
            × ((my_get_var_val rl id st2 ≡ float_of rl (some e))
                × (my_get_var_id rl stale name st2 ≡ (none, st2)))))
  unfolding my_get_var_id narrowed my_get_var_val input_get_float_value_by_id float_of_assoc
      numbered_input
  my_get_var_id-my_get_var_val stale name e st h hid hn hg =
      let id = st.next_input_id + 1 in
      let st2 = (numbered_input rl name id st).1 in
      let first = input_get_id-numbered stale name e st h hid hn in
      let there = find_input-modify name (set_id rl id) st.table e (λ i. refl) h in
      (
        to_int16 id,
        (
          st2,
          (
            ap (narrowed rl) first,
            (
              rw
                  (
                    to_uint32-to_int16 id hn,
                    find_assoc-new st.next_input_id st.assocs name hg,
                    there,
                  )
                  refl,
              ap (narrowed rl)
                  (input_get_id-again stale name (set_id rl id e) st2 there (ground (arith, hn))),
            ),
          ),
        ),
      )
