-- ===== src/PolicyCache/Entries.antt =====
-- What the entries of internal/indexer/policy_cache.go are, and what their compiled conditions mean
-- for the events of internal/indexer/consumer.go.
use search.Prelude.{
  Bool-cases, is_some, All, Elem, Str, lit, str_eq, Dict, insert, delete, AllEntries,
  insert-AllEntries, ◌≡◌, refl, ap, ◌≢◌, ◌⊎◌, inl, inr, Bool, true, false, ◌&&◌, not, Option, none,
  some, List, [], ◌∷◌, map,
}
use search.Api.{Fields, PolicyCondition, Policy, CachedPolicy, ObjectApi}
use search.Consumer.{
  AuditEvent, tenant_type_platform, extract_tenant, resolve_uid, is_upsert_verb, handle_message,
}
use search.Consumer.Indexing.{Submits, upsert_for, handle_message-indexes}
use search.Evaluation.{evaluate}
use search.Evaluation.Matching.{evaluate-matched}
use search.PolicyCache.{
  PolicyCache, Libraries, delete_policy, get_policies, Event, added, updated, deleted,
  compile_condition, compile_conditions, cache_entry, upsert_policy, handle, handle_all,
}

module _ (libs : Libraries) where
  -- The entry is under the policy's name, and was made from a policy that may be cached.
  pub record IsEntry (require : Bool) (name : Str) (cp : CachedPolicy) : Type 0 where
    pub named : name ≡ cp.policy.name
    pub not_deleted : cp.policy.deletion_timestamp ≡ none
    pub ready :
        (require ≡ false)
        ⊎ (libs.is_status_condition_true cp.policy.status.conditions (lit "Ready") ≡ true)
    pub compiled : cp ≡ cache_entry libs cp.policy

  abbrev pub IsSound : PolicyCache → Type 0
  IsSound c = AllEntries (IsEntry c.require_ready_condition) c.policies

delete-AllEntries {ℓ κ} :
    {V : Type ℓ} (P : Str → V → Type κ) (k : Str) (m : Dict V)
    → AllEntries P m
    → AllEntries P (delete k m)
unfolding delete
delete-AllEntries P k [] a = tt
delete-AllEntries P k ((j, w) ∷ m) a = elim (Bool-cases (str_eq j k)) [
  | inl e ↦ rw e (delete-AllEntries P k m a.1)
  | inr e ↦ rw e (a.0, delete-AllEntries P k m a.1)
]

not_some {ℓ} : {A : Type ℓ} (o : Option A) → is_some o ≡ false → o ≡ none
not_some none h = refl
not_some (some a) h = cc

unready :
    (require ready : Bool) → (require && not ready) ≡ false → (require ≡ false) ⊎ (ready ≡ true)
unready true true h = inr refl
unready true false h = cc
unready false ready h = inl refl

module _ (libs : Libraries) where
  upsert_policy-IsSound :
      (p : Policy) (c : PolicyCache) → IsSound libs c → IsSound libs (upsert_policy libs p c)
  unfolding upsert_policy delete_policy
  upsert_policy-IsSound p c v =
      let gone = delete-AllEntries (IsEntry libs c.require_ready_condition) p.name c.policies v in
      elim (Bool-cases (is_some p.deletion_timestamp)) [
        | inl e ↦ rw e gone
        | inr e ↦
            elim (Bool-cases (
              c.require_ready_condition
              && not (libs.is_status_condition_true p.status.conditions (lit "Ready")))) [
                | inl f ↦ rw (e, f) gone
                | inr f ↦
                    rw (e, f)
                      (insert-AllEntries (IsEntry libs c.require_ready_condition) p.name _
                        c.policies
                        (record {
                          named = unfold cache_entry in refl;
                          not_deleted = unfold cache_entry in not_some p.deletion_timestamp e;
                          ready = unfold cache_entry in unready c.require_ready_condition _ f;
                          compiled = unfold cache_entry in refl;
                        })
                        v)
              ]
      ]

  -- Whatever the events, every entry stands under its own name, belongs to a policy that is not
  -- being deleted and is ready if that is asked for, and holds the programs compiled from it.
  pub handle_all-IsSound :
      (es : List Event) (c : PolicyCache) → IsSound libs c → IsSound libs (handle_all libs es c)
  unfolding handle_all handle
  handle_all-IsSound [] c v = v
  handle_all-IsSound (added p ∷ es) c v = handle_all-IsSound es _ (upsert_policy-IsSound p c v)
  handle_all-IsSound (updated p ∷ es) c v = handle_all-IsSound es _ (upsert_policy-IsSound p c v)
  handle_all-IsSound (deleted p ∷ es) c v =
      handle_all-IsSound es _ (unfold delete_policy in delete-AllEntries _ p.name c.policies v)

  compile_conditions-none :
      (conds : List PolicyCondition)
      → All (λ cond. compile_condition libs cond.expression ≡ none) conds
      → compile_conditions libs conds [] ≡ []
  unfolding compile_conditions
  compile_conditions-none [] a = refl
  compile_conditions-none (cond ∷ conds) a = rw a.0 (compile_conditions-none conds a.1)

  -- A policy none of whose conditions compiles matches every resource of its kind.
  uncompiled-matched :
      (api : ObjectApi) (p : Policy) (u : Fields)
      → All (λ cond. compile_condition libs cond.expression ≡ none) p.spec.conditions
      → api.gvk u ≡ p.spec.target_resource
      → (evaluate api (cache_entry libs p) u).matched ≡ true
  unfolding cache_entry
  uncompiled-matched api p u a t =
      (evaluate-matched api (cache_entry libs p) u).1
        (t, inl (compile_conditions-none p.spec.conditions a))

  -- A policy that is not being deleted, and is ready if that is asked for, is cached.
  upsert_policy-cached :
      (p : Policy) (c : PolicyCache)
      → p.deletion_timestamp ≡ none
      → (c.require_ready_condition
          && not (libs.is_status_condition_true p.status.conditions (lit "Ready")))
        ≡ false
      → Elem (cache_entry libs p) (get_policies (upsert_policy libs p c))
  unfolding upsert_policy get_policies insert
  upsert_policy-cached p c d r =
      rw (ap is_some d, r) (inserted p.name (cache_entry libs p) c.policies)
    where
      inserted :
          (k : Str) (cp : CachedPolicy) (m : Dict CachedPolicy)
          → Elem cp (map (λ (e : Str × CachedPolicy). e.1) (insert k cp m))
      inserted k cp [] = inl refl
      inserted k cp ((j, w) ∷ m) = elim (Bool-cases (str_eq j k)) [
        | inl e ↦ rw e (inl refl)
        | inr e ↦ rw e (inr (inserted k cp m))
      ]

  -- After an update with a policy none of whose conditions compiles, any create, update or patch of
  -- a living resource of its kind is submitted to its index, from the cached policies. The policy is
  -- not being deleted, is ready if that is asked for, and has an index; the event has a UID, and with
  -- a single tenant it is the platform's own.
  pub uncompiled_matches_everything :
      (api : ObjectApi) (title : Str → Str) (multi : Bool) (c : PolicyCache) (p : Policy)
      (event : AuditEvent) (o : Fields)
      → All (λ cond. compile_condition libs cond.expression ≡ none) p.spec.conditions
      → p.deletion_timestamp ≡ none
      → (c.require_ready_condition
          && not (libs.is_status_condition_true p.status.conditions (lit "Ready")))
        ≡ false
      → p.status.index_name ≢ []
      → event.response_object ≡ some o
      → is_upsert_verb event.verb ≡ true
      → api.is_terminating o ≡ false
      → resolve_uid api event ≢ []
      → (multi ≡ true) ⊎ ((extract_tenant title event).1 ≡ tenant_type_platform)
      → api.gvk o ≡ p.spec.target_resource
      → Submits
          (λ us ds.
            Elem
              (upsert_for
                (cache_entry libs p)
                (evaluate api (cache_entry libs p) o)
                (extract_tenant title event)
                (resolve_uid api event))
              us)
          (handle_message api title multi (get_policies (handle libs (updated p) c)) (some event))
  unfolding handle
  uncompiled_matches_everything api title multi c p event o a d r n e v l u t k =
      handle_message-indexes api title multi (get_policies (upsert_policy libs p c)) event o
        (cache_entry libs p) e v l u t (upsert_policy-cached p c d r)
        (uncompiled-matched api p o a k) (unfold cache_entry in n)
