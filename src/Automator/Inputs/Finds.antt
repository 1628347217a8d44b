-- ===== src/Automator/Inputs/Finds.antt =====
-- src/automator.c: what is found in the table of the inputs behind an operation on it.
use mea_edomus_lite.Common.{
  ℕ, ◌≡◌, ◌≢◌, refl, ap, sym, ◌∙◌, Bool, false, Option, none, some, List, [], ◌∷◌, ◌++◌,
  if◌then◌else◌, str_eq, Bool-cases, inl, inr, str_eq_refl, str_eq→eq, take, same_some,
}
use mea_edomus_lite.Common.Int.{ℤ}
use mea_edomus_lite.Automator.{Str, Reals, Value, Input, InputState}
use mea_edomus_lite.Automator.Values.{max_len}
use mea_edomus_lite.Automator.Inputs.{
  find_input, modify, updated, fresh, add_to_inputs_table, add_at, append_new,
  reset_inputs_change_flags, reset_state,
}
use mea_edomus_lite.Automator.Inputs.Assocs.{find_input-modify}

module _ {D : Type 0} (rl : Reals D) where
  pub find_input-append :
      (name : Str) (table rest : List (Input D))
      → find_input rl name table ≡ none
      → find_input rl name (table ++ rest) ≡ find_input rl name rest
  unfolding find_input
  find_input-append name [] rest h = refl
  find_input-append name (i ∷ table) rest h = elim (Bool-cases (str_eq i.name name)) [
    | inl q ↦
        absurd (none≢some (sym h ∙ ap (λ b. if b then some i else find_input rl name table) q))
    | inr q ↦ rw (q) (
        find_input-append name table rest
          (sym (ap (λ b. if b then some i else find_input rl name table) q) ∙ h))
  ]
    where
      none≢some : {a : Input D} → none ≢ some a
      none≢some = cc

  pub find_input-append_other :
      (name : Str) (table : List (Input D)) (i : Input D)
      → str_eq i.name name ≡ false
      → find_input rl name (table ++ i ∷ []) ≡ find_input rl name table
  unfolding find_input
  find_input-append_other name [] i h = rw (h) refl
  find_input-append_other name (j ∷ table) i h =
      ap (λ o. if str_eq j.name name then some j else o) (find_input-append_other name table i h)

  find_input-modify_other :
      (name n : Str) (f : Input D → Input D) (table : List (Input D))
      → ((i : Input D) → (f i).name ≡ i.name)
      → str_eq n name ≡ false
      → find_input rl name (modify rl n f table) ≡ find_input rl name table
  unfolding find_input modify
  find_input-modify_other name n f [] hf h = refl
  find_input-modify_other name n f (i ∷ table) hf h = elim (Bool-cases (str_eq i.name n)) [
    | inl q ↦
        let out = ap (λ x. str_eq x name) (str_eq→eq i.name n q) ∙ h in
        rw (q, ap (λ x. str_eq x name) (hf i) ∙ out, out) refl
    | inr q ↦ rw (q) (
        ap (λ o. if str_eq i.name name then some i else o)
          (find_input-modify_other name n f table hf h))
  ]

  pub find_input-reset :
      (name : Str) (table : List (Input D)) (e : Input D)
      → find_input rl name table ≡ some e
      → find_input rl name (reset_inputs_change_flags rl table)
        ≡ some (record e { state = reset_state e.state })
  unfolding find_input reset_inputs_change_flags
  find_input-reset name [] e h = cc
  find_input-reset name (i ∷ table) e h = elim (Bool-cases (str_eq i.name name)) [
    | inl q ↦ rw (q) (
        ap {A = Input D} (λ x. some (record x { state = reset_state x.state }))
          (same_some (sym (ap (λ b. if b then some i else find_input rl name table) q) ∙ h)))
    | inr q ↦ rw (q) (
        find_input-reset name table e
          (sym (ap (λ b. if b then some i else find_input rl name table) q) ∙ h))
  ]

  -- A write to an input that is there.
  pub find_input-add :
      (stale : ℤ) (name : Str) (v : Option (Value D)) (t : Option (ℕ × ℕ)) (up : Bool)
      (force : Option InputState) (table : List (Input D)) (e : Input D)
      → find_input rl name table ≡ some e
      → find_input rl name (add_to_inputs_table rl stale name v t up force table)
        ≡ some (updated rl v t up force e)
  unfolding add_to_inputs_table add_at updated
  find_input-add stale name v t up force table e h =
      ap (λ o. find_input rl name (add_at rl o stale name v t up force table)) h
      ∙ find_input-modify rl name (updated rl v t up force) table e (λ i. refl) h

  -- A write to one that is not.
  pub find_input-add_new :
      (stale : ℤ) (name : Str) (v : Value D) (t : Option (ℕ × ℕ)) (up : Bool)
      (force : Option InputState) (table : List (Input D))
      → find_input rl name table ≡ none
      → take max_len name ≡ name
      → find_input rl name (add_to_inputs_table rl stale name (some v) t up force table)
        ≡ some (fresh rl stale name v t up force)
  unfolding add_to_inputs_table add_at append_new fresh find_input
  find_input-add_new stale name v t up force table h short =
      ap (λ o. find_input rl name (add_at rl o stale name (some v) t up force table)) h
      ∙ (find_input-append name table (fresh rl stale name v t up force ∷ []) h
          ∙ rw (ap (λ n. str_eq n name) short ∙ str_eq_refl name) refl)

  add_at-other :
      (name : Str) (found : Option (Input D)) (stale : ℤ) (n : Str) (v : Option (Value D))
      (t : Option (ℕ × ℕ)) (up : Bool) (force : Option InputState) (table : List (Input D))
      → str_eq n name ≡ false
      → take max_len n ≡ n
      → find_input rl name (add_at rl found stale n v t up force table) ≡ find_input rl name table
  unfolding add_at append_new fresh updated
  add_at-other name (some e) stale n v t up force table h short =
      find_input-modify_other name n (updated rl v t up force) table (λ i. refl) h
  add_at-other name none stale n none t up force table h short = refl
  add_at-other name none stale n (some v) t up force table h short =
      find_input-append_other name table (fresh rl stale n v t up force)
        (ap (λ x. str_eq x name) short ∙ h)

  -- A write to another one.
  pub find_input-add_other :
      (stale : ℤ) (name n : Str) (v : Option (Value D)) (t : Option (ℕ × ℕ)) (up : Bool)
      (force : Option InputState) (table : List (Input D))
      → str_eq n name ≡ false
      → take max_len n ≡ n
      → find_input rl name (add_to_inputs_table rl stale n v t up force table)
        ≡ find_input rl name table
  unfolding add_to_inputs_table
  find_input-add_other stale name n v t up force table h short =
      add_at-other name (find_input rl n table) stale n v t up force table h short
