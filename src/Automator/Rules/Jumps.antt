-- ===== src/Automator/Rules/Jumps.antt =====
-- src/automator.c: moveforward goes on behind the rule that says it.
use mea_edomus_lite.Common.{
  ℕ, suc, ◌≡◌, ◌≢◌, refl, sym, subst, Bool, true, false, Option, none, some, List, [], ◌∷◌,
}
use mea_edomus_lite.Automator.{Str, Reals, Store, Message, World, Rule}
use mea_edomus_lite.Automator.Rules.{
  Dests, Finish, out_of_fuel, Rest, rewind, locate, search_name, not_forward, on_cached, on_found,
  on_located, move_forward,
}
use mea_edomus_lite.Automator.Rules.Rising.{
  Fine, Rising, Rising-suffix, rewind-suffix, Spot, In, locate-In, search_name-In, not_forward-lt,
}

module _ {D : Type 0} (rl : Reals D) (w : World D) (msg : Message) (hi : ℕ) where
  abbrev pub Halts : Finish D → Type 0
  Halts f = f ≢ out_of_fuel

  -- A continuation that comes to its end from rules with numbers of at least lo on.
  abbrev pub Halting : ℕ → Rest rl w msg → Type 0
  Halting lo k =
      (before rules : List Rule) (st : Store D) (dests : Dests)
      → Rising 0 hi (rewind before rules)
      → Rising lo hi rules
      → Halts (k before rules st dests)

  pub on_found-Halts :
      (k : Rest rl w msg) (cached : Bool) (target : Str) (found : Option Spot) (before : List Rule)
      (e : Rule) (rules : List Rule) (st : Store D) (dests : Dests) (f : Fine e)
      → Halting (suc f.at) k
      → Rising 0 hi (rewind before (e ∷ rules))
      → Rising (suc f.at) hi rules
      → found ≡ search_name target (e ∷ before) rules
      → Halts (on_found rl w msg k cached target found before e rules st dests)
  unfolding on_found
  on_found-Halts k cached target none before e rules st dests f hk whole rest h =
      hk (e ∷ before) rules st dests whole rest
  on_found-Halts k cached target (some (before2, (r, rules2))) before e rules st dests f hk whole
        rest h =
      let found = search_name-In target (e ∷ before) rules (before2, (r, rules2)) (sym h) in
      hk before2 (r ∷ rules2) st _ (subst (Rising 0 hi) (sym found.0) whole) (
        Rising-suffix (suc f.at) hi found.1.0 (r ∷ rules2)
          (subst (Rising (suc f.at) hi) found.1.1 rest))

  pub on_cached-Halts :
      (k : Rest rl w msg) (target : Str) (skip : Option Bool) (spot : Spot) (before : List Rule)
      (e : Rule) (rules : List Rule) (st : Store D) (dests : Dests) (f : Fine e)
      → Halting (suc f.at) k
      → Rising 0 hi (rewind before (e ∷ rules))
      → Rising (suc f.at) hi rules
      → In (rewind before (e ∷ rules)) spot
      → skip ≡ not_forward e.num spot.1.0.num
      → Halts (on_cached rl w msg k target skip spot before e rules st dests)
  unfolding on_cached
  on_cached-Halts k target none spot before e rules st dests f hk whole rest at h = cc
  on_cached-Halts k target (some true) spot before e rules st dests f hk whole rest at h =
      on_found-Halts k true target (search_name target (e ∷ before) rules) before e rules st dests f
        hk whole rest refl
  on_cached-Halts k target (some false) (before2, (r, rules2)) before e rules st dests f hk whole
        rest at h =
      let all = subst (Rising 0 hi) (sym at) whole in
      let there = rewind-suffix hi before2 (r ∷ rules2) all in
      let lt =
        not_forward-lt f.at there.0.at e.num r.num f.numbered_at there.0.numbered_at (sym h) in
      hk before2 (r ∷ rules2) st dests all (there.0, (lt, there.1.1))

  pub on_located-Halts :
      (k : Rest rl w msg) (target : Str) (at : ℕ) (found : Option Spot) (before : List Rule)
      (e : Rule) (rules : List Rule) (st : Store D) (dests : Dests) (f : Fine e)
      → Halting (suc f.at) k
      → Rising 0 hi (rewind before (e ∷ rules))
      → Rising (suc f.at) hi rules
      → locate at [] (rewind before (e ∷ rules)) ≡ found
      → Halts (on_located rl w msg k target found before e rules st dests)
  unfolding on_located
  on_located-Halts k target at none before e rules st dests f hk whole rest h = cc
  on_located-Halts k target at (some spot) before e rules st dests f hk whole rest h =
      on_cached-Halts k target (not_forward e.num spot.1.0.num) spot before e rules st dests f hk
        whole rest (locate-In at [] (rewind before (e ∷ rules)) spot h) refl

  pub move_forward-Halts :
      (k : Rest rl w msg) (target : Str) (dest : Option ℕ) (before : List Rule) (e : Rule)
      (rules : List Rule) (st : Store D) (dests : Dests) (f : Fine e)
      → Halting (suc f.at) k
      → Rising 0 hi (rewind before (e ∷ rules))
      → Rising (suc f.at) hi rules
      → Halts (move_forward rl w msg k target dest before e rules st dests)
  unfolding move_forward
  move_forward-Halts k target none before e rules st dests f hk whole rest =
      on_found-Halts k false target (search_name target (e ∷ before) rules) before e rules st dests
        f hk whole rest refl
  move_forward-Halts k target (some at) before e rules st dests f hk whole rest =
      on_located-Halts k target at (locate at [] (rewind before (e ∷ rules))) before e rules st
        dests f hk whole rest refl
