-- ===== src/Tests/Indexer.antt =====
-- The indexer on one policy and one Secret.
use search.Prelude.{
  All, Elem, Str, lit, str_eq, lookup, ◌≡◌, refl, ◌≢◌, ◌↔◌, ◌⊎◌, inl, inr, true, false, none, some,
  [], ◌∷◌,
}
use search.Api.{str, arr, obj, nil, cons, Fields, no_fields, field, get, put, remove}
use search.Batcher.{UpsertOp}
use search.Evaluation.{
  EvalResult, copy_field, activation, any_condition, evaluate, last_applied, strip_annotations,
  strip_meta, strip_metadata, is_secret, strip_secret, overlay, stripped, transform,
}
use search.Evaluation.Matching.{SomeHolds, evaluate-matched}
use search.Evaluation.Overlay.{touched}
use search.Evaluation.Redaction.{IsRedacted, transform-IsRedacted, transform_secret}
use search.PolicyCache.{
  new_policy_cache, get_policy, get_policies, added, updated, deleted, compile_condition,
  cache_entry, handle, handle_all,
}
use search.PolicyCache.Sync.{expected, handle_all-expected}
use search.PolicyCache.Entries.{IsSound, uncompiled_matches_everything}
use search.Consumer.{
  AuditEvent, tenant_type_platform, submits, normalize_type, extract_tenant, response_uid,
  resolve_uid, targets_resource, own_type, response_type, deleted_resource_type, collect_upserts,
  collect_unmatched, is_upsert_verb, handle_upsert, handle_response, handle_message,
}
use search.Consumer.Decisions.{IsGood, handle_message-submits-IsGood}
use search.Consumer.Guards.{MayIndex, handle_message-writes_only}
use search.Consumer.Indexing.{Submits, upsert_for, handle_message-indexes, handle_message-deletes}
use search.Tests.{
  secret_target, secret_api, secret_object, secret_policy, refusing_compiler, taking_compiler,
  secret_cached, audit_event,
}

abbrev result : EvalResult
result = record {
  matched = true;
  object = secret_object;
  group = [];
  version = lit "v1";
  kind = lit "Secret";
  tenant = lit "acme";
  tenant_type = lit "Project";
}

-- A resource with managed fields, and with the last applied configuration beside another annotation.
abbrev applied_object : Fields
applied_object =
    field (lit "metadata")
      (obj (
        field (lit "managedFields") (arr (cons (str (lit "kubectl")) nil)) (
          field (lit "annotations")
            (obj
              (field last_applied (str (lit "{}")) (field (lit "team") (str (lit "a")) no_fields)))
            no_fields)))
      no_fields

abbrev applied_result : EvalResult
applied_result = record result { object = applied_object }

abbrev redacted_metadata : Fields
redacted_metadata =
    field (lit "annotations") (obj (field (lit "team") (str (lit "a")) no_fields)) no_fields

-- The document that is made of it still has its metadata and the other annotation.
applied_stripped : get (lit "metadata") (transform applied_result) ≡ some (obj redacted_metadata)
unfolding transform stripped strip_metadata strip_meta strip_annotations strip_secret is_secret
    overlay get put remove str_eq
applied_stripped = refl

transform-IsRedacted_example : IsRedacted (get (lit "metadata") (transform applied_result))
transform-IsRedacted_example = transform-IsRedacted applied_result

transform_secret_example :
    (get (lit "data") (transform result) ≡ none)
    × (get (lit "stringData") (transform result) ≡ none)
transform_secret_example = transform_secret result refl refl refl

uid_untouched : All (λ j. str_eq j (lit "uid") ≡ false) touched
unfolding str_eq
uid_untouched = (refl, (refl, (refl, (refl, (refl, (refl, (refl, tt)))))))

evaluate-matched_example : ((evaluate secret_api secret_cached secret_object).matched ≡ true) ↔ (
    (secret_target ≡ secret_target)
    × ((secret_cached.conditions ≡ []) ⊎ SomeHolds secret_cached.conditions secret_object))
evaluate-matched_example = evaluate-matched secret_api secret_cached secret_object

handle_all-expected_example :
    get_policy (lit "secrets") (
      handle_all taking_compiler
        (added secret_policy ∷ deleted secret_policy ∷ [])
        (new_policy_cache true))
    ≡ expected taking_compiler
        (new_policy_cache true).require_ready_condition
        (lit "secrets")
        (added secret_policy ∷ deleted secret_policy ∷ [])
        (get_policy (lit "secrets") (new_policy_cache true))
handle_all-expected_example =
    handle_all-expected taking_compiler (lit "secrets")
      (added secret_policy ∷ deleted secret_policy ∷ []) (new_policy_cache true)

new_policy_cache-IsSound : IsSound taking_compiler (new_policy_cache true)
unfolding new_policy_cache
new_policy_cache-IsSound = tt

none_compiles :
    All
      (λ cond. compile_condition refusing_compiler cond.expression ≡ none)
      secret_policy.spec.conditions
unfolding compile_condition
none_compiles = (refl, tt)

abbrev keep_case : Str → Str
keep_case s = s

-- The Secret matches the policy.
secret_matches : (evaluate secret_api secret_cached secret_object).matched ≡ true
unfolding evaluate any_condition activation copy_field get put str_eq
secret_matches = refl

abbrev created : AuditEvent
created = audit_event (lit "create")

abbrev secret_upsert : UpsertOp
secret_upsert =
    upsert_for secret_cached (evaluate secret_api secret_cached secret_object)
      (extract_tenant keep_case created) (resolve_uid secret_api created)

created_submits :
    handle_message secret_api keep_case false (secret_cached ∷ []) (some created)
    ≡ submits (secret_upsert ∷ []) []
unfolding handle_message handle_response handle_upsert collect_upserts collect_unmatched evaluate
    any_condition activation copy_field get put str_eq is_upsert_verb resolve_uid response_uid
    extract_tenant normalize_type lookup
created_submits = refl

handle_message-submits-IsGood_example :
    IsGood
      (extract_tenant keep_case created)
      (resolve_uid secret_api created)
      (secret_upsert ∷ [])
      []
handle_message-submits-IsGood_example =
    handle_message-submits-IsGood secret_api keep_case false (secret_cached ∷ []) created
      (secret_upsert ∷ []) [] created_submits

handle_message-writes_only_example : MayIndex secret_api keep_case false created
handle_message-writes_only_example =
    handle_message-writes_only secret_api keep_case false (secret_cached ∷ []) created
      (secret_upsert ∷ []) [] created_submits (λ e. cc)

created_is_upsert : is_upsert_verb (lit "create") ≡ true
unfolding is_upsert_verb str_eq
created_is_upsert = refl

has_uid : (verb : Str) → resolve_uid secret_api (audit_event verb) ≢ []
unfolding resolve_uid response_uid
has_uid verb e = cc

platform_tenant : (extract_tenant keep_case created).1 ≡ tenant_type_platform
unfolding extract_tenant normalize_type lookup
platform_tenant = refl

has_index : secret_cached.policy.status.index_name ≢ []
has_index e = cc

handle_message-indexes_example :
    Submits
      (λ us ds. Elem secret_upsert us)
      (handle_message secret_api keep_case false (secret_cached ∷ []) (some created))
handle_message-indexes_example =
    handle_message-indexes secret_api keep_case false (secret_cached ∷ []) created secret_object
      secret_cached refl created_is_upsert refl (has_uid (lit "create")) (inr platform_tenant)
      (inl refl) secret_matches has_index

abbrev removed : AuditEvent
removed = audit_event (lit "delete")

targeted :
    targets_resource secret_cached
      (deleted_resource_type secret_api removed).0
      (deleted_resource_type secret_api removed).1
    ≡ true
unfolding targets_resource deleted_resource_type response_type own_type str_eq
targeted = refl

handle_message-deletes_example :
    Submits
      (λ us ds.
        (us ≡ [])
        × Elem (record { index_uid = lit "v1_secret"; doc_id = resolve_uid secret_api removed }) ds)
      (handle_message secret_api keep_case false (secret_cached ∷ []) (some removed))
handle_message-deletes_example =
    handle_message-deletes secret_api keep_case false (secret_cached ∷ []) removed secret_cached
      refl (has_uid (lit "delete")) (inl refl) targeted has_index

uncompiled_matches_everything_example :
    Submits
      (λ us ds.
        Elem
          (upsert_for
            (cache_entry refusing_compiler secret_policy)
            (evaluate secret_api (cache_entry refusing_compiler secret_policy) secret_object)
            (extract_tenant keep_case created)
            (resolve_uid secret_api created))
          us)
      (handle_message secret_api keep_case true
        (get_policies (handle refusing_compiler (updated secret_policy) (new_policy_cache true)))
        (some created))
unfolding new_policy_cache
uncompiled_matches_everything_example =
    uncompiled_matches_everything refusing_compiler secret_api keep_case true
      (new_policy_cache true) secret_policy created secret_object none_compiles refl refl has_index
      refl created_is_upsert refl (has_uid (lit "create")) (inl refl) refl
