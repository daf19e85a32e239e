-- ===== src/Tests/Reindexer.antt =====
-- Re-index messages for one Secret.
use search.Prelude.{
  length, Str, lit, str_eq, lookup, Result, ok, ◌≤◌, ◌≡◌, refl, ◌↔◌, inl, some, arith,
}
use search.Api.{get, put, PolicySpec}
use search.Evaluation.{copy_field, activation, any_condition, evaluate, transform}
use search.PolicyCache.{get_policy}
use search.Consumer.{ensure_uid}
use search.Reindex.{
  ReindexEvent, compute_spec_hash, new_event, panics, queues_upsert, with_tenant, apply_policy,
  check_spec, on_cached, process_targeted_event, handle_resource, handle_reindex,
}
use search.Reindex.Outcomes.{IsFresh, handle_reindex-IsFresh}
use search.Reindex.Panics.{ReachesSpec, IsBadSpec, handle_reindex-panics_iff}
use search.Tests.{secret_api, secret_object, secret_cached, secret_cache}

abbrev spec_hash : PolicySpec → Str
spec_hash spec = lit "0123456789abcdef"

-- A message for the policy with the given hash.
abbrev reindex_event : Str → ReindexEvent
reindex_event hash =
    new_event secret_object (lit "r1") (lit "secrets") (lit "v1_secret") hash (lit "acme")
      (lit "Project")

abbrev fresh_event : ReindexEvent
fresh_event = reindex_event (lit "0123456789abcdef")

fresh_writes :
    handle_reindex secret_api spec_hash secret_cache (some fresh_event)
    ≡ queues_upsert (lit "v1_secret") (
        ensure_uid
          (transform (with_tenant fresh_event (evaluate secret_api secret_cached secret_object)))
          (lit "s1"))
unfolding handle_reindex handle_resource process_targeted_event on_cached check_spec apply_policy
    get_policy lookup str_eq evaluate any_condition activation copy_field get put new_event
fresh_writes = refl

event_resource : (hash : Str) → (reindex_event hash).resource ≡ some secret_object
unfolding new_event
event_resource hash = refl

handle_reindex-IsFresh_example :
    (lit "v1_secret" ≡ fresh_event.index_name)
    × IsFresh secret_api spec_hash secret_cache fresh_event secret_object
handle_reindex-IsFresh_example =
    handle_reindex-IsFresh secret_api spec_hash secret_cache fresh_event secret_object
      (lit "v1_secret")
      (ensure_uid
        (transform (with_tenant fresh_event (evaluate secret_api secret_cached secret_object)))
        (lit "s1"))
      (event_resource (lit "0123456789abcdef")) fresh_writes

long_enough : (spec : PolicySpec) → 8 ≤ length (spec_hash spec)
long_enough spec = omega arith

-- A spec that marshals, and a digest of eight bytes.
abbrev marshal_spec : PolicySpec → Result Str
marshal_spec spec = ok (lit "spec")

abbrev same_digest : Str → Str
same_digest b = lit "01234567"

handle_reindex-panics_iff_example :
    (handle_reindex secret_api
        (compute_spec_hash marshal_spec same_digest)
        secret_cache
        (some (reindex_event (lit "abc")))
      ≡ panics)
    ↔ ReachesSpec secret_api secret_cache
        (reindex_event (lit "abc"))
        (IsBadSpec marshal_spec same_digest (reindex_event (lit "abc")))
handle_reindex-panics_iff_example =
    handle_reindex-panics_iff marshal_spec same_digest secret_api secret_cache
      (reindex_event (lit "abc")) (λ b. omega arith)

-- A hash of three bytes is such a case.
short_hash_reaches :
    ReachesSpec secret_api secret_cache
      (reindex_event (lit "abc"))
      (IsBadSpec marshal_spec same_digest (reindex_event (lit "abc")))
unfolding new_event get_policy lookup str_eq compute_spec_hash
short_hash_reaches = record {
  object = secret_object;
  cp = secret_cached;
  of_event = refl;
  has_uid = λ e. cc;
  has_policy = λ e. cc;
  has_index = λ e. cc;
  living = refl;
  cached = refl;
  bad = ((λ e. cc), (λ e. cc), inl (omega arith));
}

short_hash_panicked :
    handle_reindex secret_api
      (compute_spec_hash marshal_spec same_digest)
      secret_cache
      (some (reindex_event (lit "abc")))
    ≡ panics
short_hash_panicked =
    (handle_reindex-panics_iff marshal_spec same_digest secret_api secret_cache
        (reindex_event (lit "abc")) (λ b. omega arith)).1
      short_hash_reaches
