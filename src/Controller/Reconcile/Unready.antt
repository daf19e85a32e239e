-- ===== src/Controller/Reconcile/Unready.antt =====
-- A reconcile of internal/controllers/policy/policy_controller.go whose attributes failed.
use search.Prelude.{
  if◌then◌else◌, Str, lit, Result, ok, no_error, ℕ, ◌≡◌, refl, ap, subst, ◌∙◌, ◌≢◌, Bool, true,
  false, ◌||◌, Option, none, some, List,
}
use search.Api.{PolicySpec, ConditionStatus, condition_true, condition_false, Condition, Policy}
use search.Cel.{CheckedAst}
use search.Reindex.{has_prefix_of_8}
use search.Controller.{ready_type, searchable_type, is_false_status, SearchSdk}
use search.Controller.Conditions.{
  PreparedConditions, not_ready, ready, any_false, ready_condition, is_pending,
}
use search.Tenants.{MultiTenantRegistry}
use search.Controller.Publish.{Cluster, publish_reindex_messages}
use search.Controller.Reconcile.{
  Kube, reconciled, update_status_if_changed, prepare_conditions, first_status, persist, finish,
  after_prepare, reconcile_live,
}
use search.Controller.Conditions.Lookup.{find_condition, Sets}
use search.Controller.Reconcile.Status.{
  Typed, prepare_conditions-Typed, first_status-find, first_status-searchable,
}
use search.Controller.Reconcile.Settling.{
  settled_policy, settled_policy-Settled, settled_policy-searchable, finish-settled_policy,
}

-- The status has a condition of the type, with that status.
abbrev pub HasStatus : Policy → Str → ConditionStatus → Type 0
HasStatus policy t status =
    (c : Condition) × (find_condition policy.status.conditions t ≡ some c) × (c.status ≡ status)

ready_condition-failed :
    (p : PreparedConditions)
    → p.searchable.status ≡ condition_false
    → (ready_condition p).status ≡ condition_false
unfolding ready_condition any_false
ready_condition-failed p bad =
    unready (is_false_status p.validation.status) (is_false_status p.search_index.status)
  where
    unready :
        (v i : Bool)
        → (if v
              || (i
                  || (is_false_status p.searchable.status
                      || (is_false_status p.filterable.status
                          || is_false_status p.reindexing.status)))
            then not_ready (lit "ResourceIndexPolicy is not ready")
            else ready
                (lit "ResourceIndexPolicy is valid and indexed in the search provider")).status
          ≡ condition_false
    unready true i = refl
    unready false true = refl
    unready false false = rw bad refl

module _ {S C : Type 0} (kube : Kube S) (sdk : SearchSdk S) (compile : Str → Result CheckedAst)
    (max_depth : ℕ) (hash : PolicySpec → Str) (cluster : Cluster S C)
    (registry : Option (MultiTenantRegistry C)) (client : C) (fuel : ℕ) where
  reconcile_live-finish :
      (policy : Policy) (others : List Policy) (p : PreparedConditions) (s s1 s2 s3 : S)
      → kube.list_policies s ≡ (s1, ok others)
      → prepare_conditions kube sdk compile max_depth hash policy others s1 ≡ (s2, p)
      → update_status_if_changed kube sdk
          (first_status kube sdk compile max_depth hash policy p)
          policy.status
          s2
        ≡ (s3, ok no_error)
      → reconcile_live kube sdk compile max_depth hash cluster registry client fuel policy s
        ≡ finish kube sdk compile max_depth hash cluster registry client fuel
            (first_status kube sdk compile max_depth hash policy p)
            p
            s3
  unfolding reconcile_live after_prepare
  reconcile_live-finish policy others p s s1 s2 s3 listed prepared wrote =
      let after =
        after_prepare kube sdk compile max_depth hash cluster registry client fuel policy in
      let ready_to_write : reconcile_live kube sdk compile max_depth hash cluster registry client
            fuel policy s
          ≡ after (prepare_conditions kube sdk compile max_depth hash policy others s1).1
              (prepare_conditions kube sdk compile max_depth hash policy others s1).0 =
        rw (reconcile_live, listed) (rw listed refl) in
      ready_to_write ∙ ap (λ r. after r.1 r.0) prepared ∙ rw (after_prepare, wrote) (rw wrote refl)

  -- The searchable attributes' condition is false, nothing is pending, and there are no errors; the
  -- hash of the spec is not the stored one and has eight bytes or more; the list and the publication
  -- succeed, and the first status is written, or is the same as before. Then that first status has
  -- Ready false, and the reconcile ends with the write of one that has Ready true, while its
  -- condition for the searchable attributes is still false.
  pub reconcile_live-Ready_with_failed_attributes :
      (policy : Policy) (others : List Policy) (p : PreparedConditions) (s s1 s2 s3 t : S)
      → Sets kube.set_status_condition
      → has_prefix_of_8 (hash policy.spec) ≡ true
      → hash policy.spec ≢ policy.status.current_generation
      → kube.list_policies s ≡ (s1, ok others)
      → prepare_conditions kube sdk compile max_depth hash policy others s1 ≡ (s2, p)
      → p.has_errors ≡ false
      → is_pending p ≡ false
      → p.searchable.status ≡ condition_false
      → update_status_if_changed kube sdk
          (first_status kube sdk compile max_depth hash policy p)
          policy.status
          s2
        ≡ (s3, ok no_error)
      → publish_reindex_messages cluster hash fuel registry client
          (first_status kube sdk compile max_depth hash policy p)
          s3
        ≡ (t, none)
      → HasStatus (first_status kube sdk compile max_depth hash policy p) ready_type condition_false
        × (q : Policy) × HasStatus q ready_type condition_true
        × HasStatus q searchable_type condition_false
        × (reconcile_live kube sdk compile max_depth hash cluster registry client fuel policy s
            ≡ persist kube sdk compile max_depth hash q reconciled t)
  unfolding first_status
  reconcile_live-Ready_with_failed_attributes policy others p s s1 s2 s3 t law long differs listed
        prepared clean idle bad wrote run =
      let first = first_status kube sdk compile max_depth hash policy p in
      let q = settled_policy kube sdk compile max_depth hash first in
      let typed =
        subst Typed (ap (λ r. r.1) prepared)
          (prepare_conditions-Typed kube sdk compile max_depth hash policy others s1) in
      (
        (
          ready_condition p,
          first_status-find kube sdk compile max_depth hash policy p law typed,
          ready_condition-failed p bad,
        ),
        q,
        (
          ready (lit "ResourceIndexPolicy is valid and indexed"),
          (settled_policy-Settled kube sdk compile max_depth hash first law).is_ready,
          refl,
        ),
        (
          p.searchable,
          settled_policy-searchable kube sdk compile max_depth hash first law
              ∙ first_status-searchable kube sdk compile max_depth hash policy p law typed,
          bad,
        ),
        reconcile_live-finish policy others p s s1 s2 s3 listed prepared wrote
            ∙ (finish-settled_policy kube sdk compile max_depth hash cluster registry client fuel
                first p s3 t long clean idle differs run),
      )
