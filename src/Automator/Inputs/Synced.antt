-- ===== src/Automator/Inputs/Synced.antt =====
-- src/automator.c: what the table holds behind inputs_table_sync.
use mea_edomus_lite.Common.{
  ◌≡◌, refl, ap, sym, ◌∙◌, Bool, true, false, Option, none, some, List, [], ◌∷◌, ◌++◌,
  if◌then◌else◌, str_eq, Bool-cases, inl, inr, str_eq_refl, str_eq→eq, take, All, ◌||◌, subst,
  same_some,
}
use mea_edomus_lite.Automator.{Str, Reals, Input, Rule}
use mea_edomus_lite.Automator.Values.{max_len}
use mea_edomus_lite.Automator.Inputs.{find_input}
use mea_edomus_lite.Automator.Inputs.Finds.{find_input-append, find_input-append_other}
use mea_edomus_lite.Automator.Inputs.Sync.{
  delete, blank, moved_over, sync_name, sync_rule, sync_loop, inputs_table_sync,
}

-- A rule that has a value names the input.
abbrev pub names : Str → Option Str → Option Str → Bool
names x (some n) (some v) = str_eq n x
names x none v = false
names x (some n) none = false

abbrev pub named : Str → List Rule → Bool
named x [] = false
named x (e ∷ rules) = names x e.name e.value || named x rules

-- A rule's name fits into an input's.
abbrev pub Short : Option Str → Type 0
Short none = Unit
Short (some n) = take max_len n ≡ n

module _ {D : Type 0} (rl : Reals D) where
  -- The input as it was, or a new one.
  abbrev pub or_blank : Str → Option (Input D) → Input D
  or_blank x none = blank rl x
  or_blank x (some e) = e

  abbrev pub kept_of : Str → Bool → Option (Input D) → Option (Input D)
  kept_of x true old = some (or_blank x old)
  kept_of x false old = none

  -- What is in the new table stays there.
  abbrev expect : Str → Option (Input D) → Bool → Option (Input D) → Option (Input D)
  expect x (some e) b old = some e
  expect x none b old = kept_of x b old

  find_input-delete_other :
      (x name : Str) (table : List (Input D))
      → str_eq name x ≡ false
      → find_input rl x (delete rl name table) ≡ find_input rl x table
  unfolding find_input delete
  find_input-delete_other x name [] h = refl
  find_input-delete_other x name (i ∷ table) h = elim (Bool-cases (str_eq i.name name)) [
    | inl q ↦ rw (q, ap (λ n. str_eq n x) (str_eq→eq i.name name q) ∙ h) refl
    | inr q ↦
        rw (q)
          (ap (λ o. if str_eq i.name x then some i else o) (find_input-delete_other x name table h))
  ]

  find_input-name :
      (name : Str) (table : List (Input D)) (e : Input D)
      → find_input rl name table ≡ some e
      → str_eq e.name name ≡ true
  unfolding find_input
  find_input-name name [] e h = cc
  find_input-name name (i ∷ table) e h = elim (Bool-cases (str_eq i.name name)) [
    | inl q ↦
        subst (λ j. str_eq j.name name ≡ true)
          (same_some (sym (ap (λ b. if b then some i else find_input rl name table) q) ∙ h)) q
    | inr q ↦
        find_input-name name table e
          (sym (ap (λ b. if b then some i else find_input rl name table) q) ∙ h)
  ]

  find_input-one :
      (x : Str) (i : Input D) → str_eq i.name x ≡ true → find_input rl x (i ∷ []) ≡ some i
  unfolding find_input
  find_input-one x i h = ap (λ b. if b then some i else none) h

  -- An element of the name goes to the end of the new table.
  appended :
      (x name : Str) (b : Bool) (i : Input D) (old old2 table : List (Input D))
      → find_input rl name table ≡ none
      → str_eq i.name name ≡ true
      → i ≡ or_blank name (find_input rl name old)
      → (str_eq name x ≡ false → find_input rl x old2 ≡ find_input rl x old)
      → expect x (find_input rl x (table ++ i ∷ [])) b (find_input rl x old2)
        ≡ expect x (find_input rl x table) (str_eq name x || b) (find_input rl x old)
  appended x name b i old old2 table ht hi same ho = elim (Bool-cases (str_eq name x)) [
    | inl q ↦
        let e = str_eq→eq name x q in
        let none_there = subst (λ n. find_input rl n table ≡ none) e ht in
        let i_there =
          find_input-append rl x table (i ∷ []) none_there
          ∙ find_input-one x i (subst (λ n. str_eq i.name n ≡ true) e hi) in
        ap (λ o. expect x o b (find_input rl x old2)) i_there
        ∙ sym (
            ap (λ o. expect x o (str_eq name x || b) (find_input rl x old)) none_there
            ∙ (ap (λ c. kept_of x (c || b) (find_input rl x old)) q
                ∙ ap (λ j. some j)
                    (sym (subst (λ n. i ≡ or_blank n (find_input rl n old)) e same))))
    | inr q ↦
        ap (λ o. expect x o b (find_input rl x old2))
          (find_input-append_other rl x table i
            (ap (λ n. str_eq n x) (str_eq→eq i.name name hi) ∙ q))
        ∙ (ap (λ o. expect x (find_input rl x table) b o) (ho q)
            ∙ ap (λ c. expect x (find_input rl x table) (c || b) (find_input rl x old)) (sym q))
  ]

  moved_over-expect :
      (x name : Str) (b : Bool) (found : Option (Input D)) (old table : List (Input D))
      → find_input rl name old ≡ found
      → find_input rl name table ≡ none
      → take max_len name ≡ name
      → (let r = moved_over rl name found old table in
          expect x (find_input rl x r.1) b (find_input rl x r.0))
        ≡ expect x (find_input rl x table) (str_eq name x || b) (find_input rl x old)
  unfolding moved_over blank
  moved_over-expect x name b (some oe) old table ho ht short =
      appended x name b oe old (delete rl name old) table ht (find_input-name name old oe ho)
        (ap (or_blank name) (sym ho)) (find_input-delete_other x name old)
  moved_over-expect x name b none old table ho ht short =
      appended x name b (blank rl name) old old table ht
        (ap (λ n. str_eq n name) short ∙ str_eq_refl name) (ap (or_blank name) (sym ho)) (λ q. refl)

  sync_name-expect :
      (x name : Str) (b : Bool) (found : Option (Input D)) (old table : List (Input D))
      → find_input rl name table ≡ found
      → take max_len name ≡ name
      → (let r = sync_name rl name found old table in
          expect x (find_input rl x r.1) b (find_input rl x r.0))
        ≡ expect x (find_input rl x table) (str_eq name x || b) (find_input rl x old)
  unfolding sync_name
  sync_name-expect x name b none old table ht short =
      moved_over-expect x name b (find_input rl name old) old table refl ht short
  sync_name-expect x name b (some ne) old table ht short = elim (Bool-cases (str_eq name x)) [
    | inl q ↦
        let there = subst (λ n. find_input rl n table ≡ some ne) (str_eq→eq name x q) ht in
        ap (λ o. expect x o b (find_input rl x old)) there
        ∙ sym (ap (λ o. expect x o (str_eq name x || b) (find_input rl x old)) there)
    | inr q ↦ ap (λ c. expect x (find_input rl x table) (c || b) (find_input rl x old)) (sym q)
  ]

  sync_rule-expect :
      (x : Str) (b : Bool) (n v : Option Str) (old table : List (Input D))
      → Short n
      → (let r = sync_rule rl n v old table in
          expect x (find_input rl x r.1) b (find_input rl x r.0))
        ≡ expect x (find_input rl x table) (names x n v || b) (find_input rl x old)
  unfolding sync_rule
  sync_rule-expect x b none v old table short = refl
  sync_rule-expect x b (some n) none old table short = refl
  sync_rule-expect x b (some n) (some v) old table short =
      sync_name-expect x n b (find_input rl n table) old table refl short

  sync_loop-expect :
      (x : Str) (rules : List Rule) (old table : List (Input D))
      → All (λ e. Short e.name) rules
      → find_input rl x (sync_loop rl rules old table).1
        ≡ expect x (find_input rl x table) (named x rules) (find_input rl x old)
  unfolding sync_loop
  sync_loop-expect x [] old table h = expect-false x (find_input rl x table) (find_input rl x old)
    where
      expect-false : (y : Str) (o p : Option (Input D)) → o ≡ expect y o false p
      expect-false y none p = refl
      expect-false y (some e) p = refl
  sync_loop-expect x (e ∷ rules) old table (he, h) =
      let r = sync_rule rl e.name e.value old table in
      sync_loop-expect x rules r.0 r.1 h
      ∙ sync_rule-expect x (named x rules) e.name e.value old table he

  pub find_input-inputs_table_sync :
      (x : Str) (rules : List Rule) (old : List (Input D))
      → All (λ e. Short e.name) rules
      → find_input rl x (inputs_table_sync rl rules old).0
        ≡ kept_of x (named x rules) (find_input rl x old)
  unfolding inputs_table_sync find_input
  find_input-inputs_table_sync x rules old h = sync_loop-expect x rules old [] h
