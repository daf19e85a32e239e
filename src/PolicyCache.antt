-- ===== src/PolicyCache.antt =====
-- internal/indexer/policy_cache.go: the compiled policies, kept in step with the API server by the
-- events of an informer. The CEL compiler and the API
-- library are parameters.
pub mod Sync
pub mod Entries
use search.Prelude.{
  if◌then◌else◌, is_some, Str, lit, Dict, lookup, insert, delete, Result, ok, err, Bool, ◌&&◌, not,
  Option, none, some, List, [], ◌∷◌, map,
}
use search.Api.{PolicyCondition, Condition, Policy, Program, CachedPolicy}

-- What compiling an expression gives: an error, or whether its output type is bool together with
-- the program that `Program` builds, which may fail.
pub record Compiled : Type 0 where
  pub output_is_bool : Bool
  pub program : Result Program

pub record PolicyCache : Type 0 where
  pub policies : Dict CachedPolicy
  pub require_ready_condition : Bool

unfoldable pub new_policy_cache : Bool → PolicyCache
new_policy_cache require_ready = record { policies = []; require_ready_condition = require_ready }

-- The libraries that the cache calls: the CEL environment, and meta.IsStatusConditionTrue.
pub record Libraries : Type 0 where
  pub compile : Str → Result Compiled
  pub is_status_condition_true : List Condition → Str → Bool

unfoldable pub delete_policy : Str → PolicyCache → PolicyCache
delete_policy name c = record c { policies = delete name c.policies }

unfoldable pub get_policy : Str → PolicyCache → Option CachedPolicy
get_policy name c = lookup name c.policies

unfoldable pub get_policies : PolicyCache → List CachedPolicy
get_policies c = map (λ (e : Str × CachedPolicy). e.1) c.policies

-- The three handlers of the informer. An object of another type is ignored, which the types of
-- the model already say; the tombstone of a deletion stands for its object.
pub data Event : Type 0 where
  added : Policy → Event
  updated : Policy → Event
  deleted : Policy → Event

module _ (libs : Libraries) where
  -- The program of one condition; `none` where the loop reports an error and goes on.
  unfoldable pub compile_condition : Str → Option Program
  compile_condition expression = elim (libs.compile expression) [
    | err e ↦ none
    | ok c ↦ if c.output_is_bool then built c.program else none
  ]
    where
      built : Result Program → Option Program
      built (err e) = none
      built (ok prg) = some prg

  -- The loop over the conditions: a later one of the same name replaces an earlier one.
  unfoldable pub compile_conditions : List PolicyCondition → Dict Program → Dict Program
  unfolding compile_condition
  compile_conditions [] acc = acc
  compile_conditions (cond ∷ conds) acc =
      compile_conditions conds (elim (compile_condition cond.expression) [
        | none ↦ acc
        | some prg ↦ insert cond.name prg acc
      ])

  unfoldable pub cache_entry : Policy → CachedPolicy
  unfolding compile_conditions
  cache_entry p = record { policy = p; conditions = compile_conditions p.spec.conditions [] }

  unfoldable pub upsert_policy : Policy → PolicyCache → PolicyCache
  unfolding delete_policy cache_entry
  upsert_policy p c =
      if is_some p.deletion_timestamp
      then delete_policy p.name c
      else if c.require_ready_condition
          && not (libs.is_status_condition_true p.status.conditions (lit "Ready"))
      then delete_policy p.name c
      else record c { policies = insert p.name (cache_entry p) c.policies }

  unfoldable pub handle : Event → PolicyCache → PolicyCache
  unfolding upsert_policy delete_policy
  handle (added p) c = upsert_policy p c
  handle (updated p) c = upsert_policy p c
  handle (deleted p) c = delete_policy p.name c

  unfoldable pub handle_all : List Event → PolicyCache → PolicyCache
  unfolding handle
  handle_all [] c = c
  handle_all (e ∷ es) c = handle_all es (handle e c)
