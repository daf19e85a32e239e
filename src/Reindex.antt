-- ===== src/Reindex.antt =====
-- internal/indexer/reindex_consumer.go and reindex_publisher.go, and the hash of a policy's spec in
-- internal/utils/search.go: what the indexer does with a re-index message.
pub mod Outcomes
pub mod Panics
use search.Prelude.{
  leb, if◌then◌else◌, length, Str, lit, str_eq, Result, ok, err, Bool, ◌&&◌, ◌||◌, not, Option,
  none, some, [], ◌++◌,
}
use search.Api.{Fields, PolicySpec, CachedPolicy, ObjectApi}
use search.Evaluation.{EvalResult, evaluate, transform}
use search.PolicyCache.{PolicyCache, get_policy}
use search.Consumer.{ensure_uid}

pub record ReindexEvent : Type 0 where
  pub id : Str
  pub resource : Option Fields
  pub policy_name : Str
  pub index_name : Str
  pub spec_hash : Str
  pub tenant : Str
  pub tenant_type : Str

abbrev pub reindex_seed : Str
reindex_seed = lit "2026-05-19"

-- `marshal` is encoding/json's, and `sha256_hex` the hexadecimal digest.
unfoldable pub compute_spec_hash : (PolicySpec → Result Str) → (Str → Str) → PolicySpec → Str
compute_spec_hash marshal sha256_hex spec = elim (marshal spec) [
  | err e ↦ []
  | ok b ↦ sha256_hex (b ++ reindex_seed)
]

-- The event of `PublishResource`.
unfoldable pub new_event : Fields → Str → Str → Str → Str → Str → Str → ReindexEvent
new_event resource id policy_name index_name spec_hash tenant tenant_type = record {
  id = id;
  resource = some resource;
  policy_name = policy_name;
  index_name = index_name;
  spec_hash = spec_hash;
  tenant = tenant;
  tenant_type = tenant_type;
}

-- What happens to the message. `panics` is a slice out of range, in a log call's argument.
pub data Outcome : Type 0 where
  acked naked panics : Outcome
  queues_upsert : Str → Fields → Outcome
  queues_delete : Str → Str → Outcome

-- `s[:8]` is possible.
abbrev pub has_prefix_of_8 : Str → Bool
has_prefix_of_8 s = leb 8 (length s)

-- The tenant of the event, if it has one, on the result.
unfoldable pub with_tenant : ReindexEvent → EvalResult → EvalResult
with_tenant event r =
    if str_eq event.tenant []
    then r
    else record r { tenant = event.tenant; tenant_type = event.tenant_type }

module _ (api : ObjectApi) (hash : PolicySpec → Str) where
  unfoldable pub apply_policy : ReindexEvent → Fields → Str → CachedPolicy → Outcome
  unfolding evaluate transform ensure_uid with_tenant
  apply_policy event o uid cp =
      let result = evaluate api cp o in
      if result.matched
      then queues_upsert event.index_name (ensure_uid (transform (with_tenant event result)) uid)
      else queues_delete event.index_name uid

  unfoldable pub check_spec : ReindexEvent → Fields → Str → CachedPolicy → Outcome
  unfolding apply_policy
  check_spec event o uid cp =
      let cached = hash cp.policy.spec in
      if not (str_eq event.spec_hash []) && not (str_eq cached event.spec_hash)
      then (if has_prefix_of_8 cached && has_prefix_of_8 event.spec_hash then naked else panics)
      else apply_policy event o uid cp

  unfoldable pub on_cached : ReindexEvent → Fields → Str → Option CachedPolicy → Outcome
  unfolding check_spec
  on_cached event o uid none = naked
  on_cached event o uid (some cp) = check_spec event o uid cp

  unfoldable pub process_targeted_event : PolicyCache → ReindexEvent → Fields → Str → Outcome
  unfolding get_policy on_cached
  process_targeted_event cache event o uid =
      if str_eq event.policy_name [] || str_eq event.index_name []
      then acked
      else if api.is_terminating o
      then queues_delete event.index_name uid
      else on_cached event o uid (get_policy event.policy_name cache)

  unfoldable pub handle_resource : PolicyCache → ReindexEvent → Option Fields → Outcome
  unfolding process_targeted_event
  handle_resource cache event none = acked
  handle_resource cache event (some o) =
      if str_eq (api.uid o) [] then acked else process_targeted_event cache event o (api.uid o)

  -- The callback of `Start`; `none` is a message that does not unmarshal.
  unfoldable pub handle_reindex : PolicyCache → Option ReindexEvent → Outcome
  unfolding handle_resource
  handle_reindex cache none = acked
  handle_reindex cache (some event) = handle_resource cache event event.resource
