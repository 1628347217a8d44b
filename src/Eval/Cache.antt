-- ===== src/Eval/Cache.antt =====
-- src/mea_eval.c: the cache of compiled expressions, and mea_eval_calc_numeric_by_cache. The hash
-- table (uthash, keyed by the expression's text) is an association list with one entry for a key.
pub mod Fresh
use mea_edomus_lite.Common.{
  ℕ, Bool, true, false, Option, none, some, List, [], ◌∷◌, ◌==◌, if◌then◌else◌, str_eq,
}
use mea_edomus_lite.Eval.Outcome.{Outcome, ok, err, fault, out_of_fuel, ◌>>=◌}
use mea_edomus_lite.Eval.Double.{Doubles, Callbacks}
use mea_edomus_lite.Eval.Compile.{Item, build_stack}
use mea_edomus_lite.Eval.Run.{calcn, failed}

-- struct mea_eval_stack_cache_s: the code, none where it did not compile, and the error.
pub record Entry (D : Type 0) : Type 0 where
  pub stack : Option (List (Item D))
  pub error : ℕ

-- mea_eval_stacks_cache
abbrev pub Cache : Type 0 → Type 0
Cache D = List (List ℕ × Entry D)

module _ {D : Type 0} where
  -- HASH_FIND_STR
  unfoldable pub find : List ℕ → Cache D → Option (Entry D)
  find expr [] = none
  find expr ((key, e) ∷ cache) = if str_eq key expr then some e else find expr cache

  -- mea_eval_getStackFromCache: `*err` is reset where there is no entry.
  unfoldable pub get_stack_from_cache : List ℕ → Cache D → Entry D
  unfolding find
  get_stack_from_cache expr cache = elim (find expr cache) [
    | none ↦ record { stack = none; error = 0 }
    | some e ↦ e
  ]

  -- `e->stack = stack` for the entry of an expression; its error stays.
  unfoldable pub set_stack : List ℕ → Option (List (Item D)) → Cache D → Cache D
  set_stack expr stack [] = []
  set_stack expr stack ((key, e) ∷ cache) =
      if str_eq key expr
      then (key, record { stack = stack; error = e.error }) ∷ cache
      else (key, e) ∷ set_stack expr stack cache

  -- mea_eval_addStackToCache, where allocation succeeds: the cache, and the stack that it returns.
  unfoldable pub add_stack_to_cache :
      List ℕ → Option (List (Item D)) → ℕ → Cache D → Cache D × Option (List (Item D))
  unfolding find set_stack
  add_stack_to_cache expr stack error cache = elim (find expr cache) [
    | some e ↦ (set_stack expr stack cache, stack)
    | none ↦ ((expr, record { stack = stack; error = error }) ∷ cache, stack)
  ]

  -- mea_eval_clean_stack_cache
  unfoldable pub clean_stack_cache : Cache D → Cache D
  clean_stack_cache cache = []

module _ {D : Type 0} (fp : Doubles D) (cb : Callbacks D) where
  -- mea_eval_calcn on what the cache returned; `return -1` where that is NULL.
  unfoldable pub run_cached : Option (List (Item D)) → Outcome D
  run_cached none = err failed
  run_cached (some code) = calcn fp cb code

  -- What is done with the outcome of a compilation: an error is kept in the cache as well.
  unfoldable pub add_compiled :
      List ℕ → Cache D → Outcome (List (Item D)) → Outcome (Cache D × Outcome D)
  unfolding add_stack_to_cache run_cached
  add_compiled expr cache (ok code) =
      let added = add_stack_to_cache expr (some code) 0 cache in ok (added.0, run_cached added.1)
  add_compiled expr cache (err e) =
      let added = add_stack_to_cache expr none e cache in ok (added.0, err failed)
  add_compiled expr cache (fault f) = fault f
  add_compiled expr cache out_of_fuel = out_of_fuel

  -- What mea_eval_calc_numeric_by_cache does with the code and the error that the cache gave it.
  unfoldable pub on_entry :
      List ℕ → Cache D → Option (List (Item D)) → ℕ → Outcome (Cache D × Outcome D)
  unfolding add_compiled run_cached
  on_entry expr cache (some code) error = ok (cache, run_cached (some code))
  on_entry expr cache none error =
      if error == 0
      then add_compiled expr cache (build_stack fp cb.get_var_id expr)
      else ok (cache, run_cached none)

  -- mea_eval_calc_numeric_by_cache: the cache that it leaves and the outcome of the run.
  unfoldable pub calc_numeric_by_cache : List ℕ → Cache D → Outcome (Cache D × Outcome D)
  unfolding on_entry
  calc_numeric_by_cache expr cache =
      let e = get_stack_from_cache expr cache in on_entry expr cache e.stack e.error
