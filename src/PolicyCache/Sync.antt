-- ===== src/PolicyCache/Sync.antt =====
-- What internal/indexer/policy_cache.go holds after any sequence of informer events.
use search.Prelude.{
  if◌then◌else◌, is_some, Str, lit, str_eq, lookup, lookup-insert, lookup-delete, ◌≡◌, refl, Bool,
  ◌&&◌, not, Option, none, some, List, [], ◌∷◌, arith,
}
use search.Api.{Policy, CachedPolicy}
use search.PolicyCache.{
  PolicyCache, Libraries, delete_policy, get_policy, Event, added, updated, deleted, cache_entry,
  upsert_policy, handle, handle_all,
}

module _ (libs : Libraries) where
  -- A policy that may be cached: not being deleted, and ready if that is asked for.
  unfoldable pub is_cacheable : Bool → Policy → Bool
  is_cacheable require p =
      not (is_some p.deletion_timestamp)
      && not (require && not (libs.is_status_condition_true p.status.conditions (lit "Ready")))

  -- What the cache should hold under a name, from the events alone: the last one about it decides.
  unfoldable pub expected : Bool → Str → List Event → Option CachedPolicy → Option CachedPolicy
  unfolding is_cacheable
  expected require name [] o = o
  expected require name (added p ∷ es) o =
      let rest = expected require name es in
      if str_eq p.name name
      then rest (if is_cacheable require p then some (cache_entry libs p) else none)
      else rest o
  expected require name (updated p ∷ es) o =
      let rest = expected require name es in
      if str_eq p.name name
      then rest (if is_cacheable require p then some (cache_entry libs p) else none)
      else rest o
  expected require name (deleted p ∷ es) o =
      let rest = expected require name es in if str_eq p.name name then rest none else rest o

  upsert_policy-lookup :
      (name : Str) (p : Policy) (c : PolicyCache)
      → lookup name (upsert_policy libs p c).policies ≡ (
          if str_eq p.name name
          then (if is_cacheable c.require_ready_condition p
              then some (cache_entry libs p)
              else none)
          else lookup name c.policies)
  unfolding upsert_policy delete_policy is_cacheable
  upsert_policy-lookup name p c = ground (
    arith,
    lookup-delete p.name name c.policies,
    lookup-insert p.name name (cache_entry libs p) c.policies,
  )

  upsert_policy-require :
      (p : Policy) (c : PolicyCache)
      → (upsert_policy libs p c).require_ready_condition ≡ c.require_ready_condition
  unfolding upsert_policy delete_policy
  upsert_policy-require p c = ground arith

  -- Whatever the events, the cache holds under each name what the last event about it says: the
  -- compiled policy if it may be cached, and nothing if it may not or is deleted.
  pub handle_all-expected :
      (name : Str) (es : List Event) (c : PolicyCache)
      → get_policy name (handle_all libs es c)
        ≡ expected c.require_ready_condition name es (get_policy name c)
  unfolding handle_all handle expected get_policy
  handle_all-expected name [] c = refl
  handle_all-expected name (added p ∷ es) c =
      let ih = handle_all-expected name es (upsert_policy libs p c) in
      ground (arith, ih, upsert_policy-lookup name p c, upsert_policy-require p c)
  handle_all-expected name (updated p ∷ es) c =
      let ih = handle_all-expected name es (upsert_policy libs p c) in
      ground (arith, ih, upsert_policy-lookup name p c, upsert_policy-require p c)
  handle_all-expected name (deleted p ∷ es) c =
      let ih = handle_all-expected name es (delete_policy p.name c) in
      unfold delete_policy in ground (arith, ih, lookup-delete p.name name c.policies)
