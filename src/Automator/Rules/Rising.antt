-- ===== src/Automator/Rules/Rising.antt =====
-- Lists of numbered rules of src/automator.c, and the places that the loop over them jumps to.
use mea_edomus_lite.Common.{
  ℕ, suc, ◌≤◌, ◌<◌, ◌≡◌, ◌≢◌, refl, ap, sym, subst, ◌∙◌, false, Option, none, some, List, [], ◌∷◌,
  ◌++◌, ◌==◌, arith, length, Bool-cases, inl, inr, if◌then◌else◌, same_some,
}
use mea_edomus_lite.Automator.{Str, Condition, Rule, Num, numbered}
use mea_edomus_lite.Automator.Rules.{
  again, post_action, rewind, locate, search_name, has_name, not_forward,
}

abbrev pub Single : Option (List Condition) → Type 0
Single none = Unit
Single (some cs) = length cs ≤ 1

-- A numbered rule that does not loop.
pub record Fine (e : Rule) : Type 0 where
  pub at : ℕ
  pub numbered_at : e.num ≡ some (numbered at)
  pub single : Single e.conditions
  pub match_ends : post_action e.onmatch ≢ again
  pub nomatch_ends : post_action e.onnotmatch ≢ again

-- The rules are such, and their numbers rise from lo on and below hi.
abbrev pub Rising : ℕ → ℕ → List Rule → Type 0
Rising lo hi [] = Unit
Rising lo hi (e ∷ rules) = (f : Fine e) × ((lo ≤ f.at) × ((f.at < hi) × Rising (suc f.at) hi rules))

pub Rising-weaken :
    (lo2 lo hi : ℕ) (rules : List Rule) → lo2 ≤ lo → Rising lo hi rules → Rising lo2 hi rules
Rising-weaken lo2 lo hi [] h r = r
Rising-weaken lo2 lo hi (e ∷ rules) h (f, (from, (below, r))) =
    (f, (omega (arith, h, from), (below, r)))

pub Rising-suffix : (lo hi : ℕ) (xs ys : List Rule) → Rising lo hi (xs ++ ys) → Rising lo hi ys
Rising-suffix lo hi [] ys r = r
Rising-suffix lo hi (e ∷ xs) ys (f, (from, (below, r))) =
    Rising-weaken lo (suc f.at) hi ys (omega (arith, from)) (Rising-suffix (suc f.at) hi xs ys r)

pub Rising-remove :
    (lo hi : ℕ) (xs : List Rule) (e : Rule) (ys : List Rule)
    → Rising lo hi (xs ++ e ∷ ys)
    → Rising lo hi (xs ++ ys)
Rising-remove lo hi [] e ys (f, (from, (below, r))) =
    Rising-weaken lo (suc f.at) hi ys (omega (arith, from)) r
Rising-remove lo hi (x ∷ xs) e ys (f, (from, (below, r))) =
    (f, (from, (below, Rising-remove (suc f.at) hi xs e ys r)))

pub rewind-append : (xs ys zs : List Rule) → rewind xs (ys ++ zs) ≡ rewind xs ys ++ zs
rewind-append [] ys zs = refl
rewind-append (x ∷ xs) ys zs = rewind-append xs (x ∷ ys) zs

pub rewind-remove :
    (hi : ℕ) (xs : List Rule) (e : Rule) (ys : List Rule)
    → Rising 0 hi (rewind xs (e ∷ ys))
    → Rising 0 hi (rewind xs ys)
rewind-remove hi xs e ys r =
    subst (Rising 0 hi) (sym (rewind-append xs [] ys)) (
      Rising-remove 0 hi (rewind xs []) e ys (subst (Rising 0 hi) (rewind-append xs [] (e ∷ ys)) r))

pub rewind-suffix : (hi : ℕ) (xs ys : List Rule) → Rising 0 hi (rewind xs ys) → Rising 0 hi ys
rewind-suffix hi xs ys r =
    Rising-suffix 0 hi (rewind xs []) ys (subst (Rising 0 hi) (rewind-append xs [] ys) r)

abbrev pub Spot : Type 0
Spot = List Rule × (Rule × List Rule)

-- A place in the list.
abbrev pub In : List Rule → Spot → Type 0
In all (before, (r, rules)) = rewind before (r ∷ rules) ≡ all

abbrev pub from_spot : Spot → List Rule
from_spot (before, (r, rules)) = r ∷ rules

pub locate-In :
    (at : ℕ) (before rules : List Rule) (spot : Spot)
    → locate at before rules ≡ some spot
    → In (rewind before rules) spot
unfolding locate
locate-In at before [] spot h = cc
locate-In at before (r ∷ rules) spot h = elim (Bool-cases (r.address == at)) [
  | inl e ↦
      subst (In (rewind before (r ∷ rules)))
        (same_some (
          sym (ap (λ b. if b then some (before, (r, rules)) else locate at (r ∷ before) rules) e)
          ∙ h))
        refl
  | inr e ↦
      locate-In at (r ∷ before) rules spot (
        sym (ap (λ b. if b then some (before, (r, rules)) else locate at (r ∷ before) rules) e) ∙ h)
]

-- The search goes through the rules behind.
pub search_name-In :
    (target : Str) (before rules : List Rule) (spot : Spot)
    → search_name target before rules ≡ some spot
    → In (rewind before rules) spot × ((xs : List Rule) × (rules ≡ xs ++ from_spot spot))
unfolding search_name
search_name-In target before [] spot h = cc
search_name-In target before (r ∷ rules) spot h = elim (Bool-cases (has_name target r.name)) [
  | inl e ↦
      subst
        (λ p.
          In (rewind before (r ∷ rules)) p × ((xs : List Rule) × (r ∷ rules ≡ xs ++ from_spot p)))
        (same_some (
          sym (
            ap (λ b. if b then some (before, (r, rules)) else search_name target (r ∷ before) rules)
              e)
          ∙ h))
        (refl, ([], refl))
  | inr e ↦
      let rest = search_name-In target (r ∷ before) rules spot (
        sym (
          ap (λ b. if b then some (before, (r, rules)) else search_name target (r ∷ before) rules)
            e)
        ∙ h) in
      (rest.0, (r ∷ rest.1.0, ap (λ zs. r ∷ zs) rest.1.1))
]

pub not_forward-numbered :
    (a b : ℕ) → not_forward (some (numbered a)) (some (numbered b)) ≡ some false → a < b
unfolding not_forward
not_forward-numbered a b h = ground arith

pub not_forward-lt :
    (a b : ℕ) (numc numn : Option Num)
    → numc ≡ some (numbered a)
    → numn ≡ some (numbered b)
    → not_forward numc numn ≡ some false
    → a < b
not_forward-lt a b numc numn ha hb h = not_forward-numbered a b (
    ap (λ x. not_forward (some (numbered a)) x) (sym hb)
    ∙ (ap (λ x. not_forward x numn) (sym ha) ∙ h))
