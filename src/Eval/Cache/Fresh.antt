-- ===== src/Eval/Cache/Fresh.antt =====
-- src/mea_eval.c: evaluating through the cache is evaluating afresh.
use mea_edomus_lite.Common.{ℕ, ◌≡◌, Option, none, some, List, [], ◌∷◌}
use mea_edomus_lite.Eval.Outcome.{Outcome, ok, err, fault, out_of_fuel}
use mea_edomus_lite.Eval.Double.{Doubles, VarIds, Callbacks}
use mea_edomus_lite.Eval.Compile.{Item, build_stack}
use mea_edomus_lite.Eval.Run.{calc_numeric}
use mea_edomus_lite.Eval.Cache.{Cache}

module _ {D : Type 0} (fp : Doubles D) (ids : VarIds) where
  -- What is kept for a text is what compiling it gives.
  abbrev pub Keeps : List ℕ → Option (List (Item D)) → ℕ → Type 0
  Keeps expr (some code) e = build_stack fp ids expr ≡ ok code
  Keeps expr none e = build_stack fp ids expr ≡ err e

  abbrev pub AllFresh : Cache D → Type 0
  AllFresh [] = Unit
  AllFresh ((key, e) ∷ cache) = Keeps key e.stack e.error × AllFresh cache

-- What a call through the cache comes to, given the outcome of compiling its text: it returns where
-- the compilation does.
abbrev pub settled {ℓ κ} : {A : Type ℓ} {B : Type κ} → Outcome A → B → Outcome B
settled (ok a) b = ok b
settled (err e) b = ok b
settled (fault f) b = fault f
settled out_of_fuel b = out_of_fuel

module _ {D : Type 0} (fp : Doubles D) (cb : Callbacks D) where
  abbrev Agrees : List ℕ → Outcome (Cache D × Outcome D) → Type 0
  Agrees expr r =
      (cache' : Cache D) × AllFresh fp cb.get_var_id cache'
      × (r ≡ settled (build_stack fp cb.get_var_id expr) (cache', calc_numeric fp cb expr))
