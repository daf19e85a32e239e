-- ===== src/Controller/Reconcile.antt =====
-- `Reconcile` and the finalizer of internal/controllers/policy/policy_controller.go, in the phases
-- of the source.
pub mod Quiet
pub mod Types
pub mod Status
pub mod Settling
pub mod Unready
pub mod Finalizer
use search.Prelude.{
  if◌then◌else◌, is_some, is_empty, take, Str, lit, str_eq, Result, ok, err, Run, Done, no_error,
  and_then, wrapping, ℕ, Bool, true, false, ◌||◌, not, Option, none, some, List, ◌++◌,
}
use search.Api.{PolicySpec, condition_true, condition_false, Condition, PolicyStatus, Policy}
use search.Cel.{CheckedAst}
use search.Validation.{FieldError, validate_policy}
use search.Reindex.{has_prefix_of_8}
use search.Tenants.{MultiTenantRegistry}
use search.Controller.{
  condition, ready_type, reindexing_type, is_true_status, get_search_index, SearchSdk, ensure_index,
}
use search.Controller.Settings.{searchable_kind, filterable_kind, sync_if}
use search.Controller.Conditions.{
  PreparedConditions, validation_condition, search_index_condition, reindexing_condition, not_ready,
  ready, is_pending, set_all, prepared_conditions, with_conditions,
}
use search.Controller.Publish.{Cluster, publish_reindex_messages}

abbrev pub take_8 : Str → Str
take_8 s = take 8 s

pub data Fetched : Type 0 where
  not_found : Fetched
  get_failed : Str → Fetched
  found : Policy → Fetched

pub data Updated : Type 0 where
  update_done update_conflict : Updated
  update_failed : Str → Updated

-- The Kubernetes libraries over an outside world `S`: the API server's answers, the finalizers
-- (which may call the one below), the conditions of a status, and the equality of two statuses.
-- `errors_text` is the message of a list of errors.
pub record Kube (S : Type 0) : Type 0 where
  pub get_policy : Str → Run S Fetched
  pub finalize : Policy → Run S (Result (Policy × Bool))
  pub update : Policy → Run S Updated
  pub list_policies : Run S (Result (List Policy))
  pub update_status : Policy → Run S (Result Done)
  pub set_status_condition : List Condition → Condition → List Condition
  pub same_status : PolicyStatus → PolicyStatus → Bool
  pub errors_text : List FieldError → Str

-- What a reconcile answers. `crashed` is a slice out of range, in the message of the condition.
pub data Reconciled : Type 0 where
  reconciled requeued requeued_after_5s crashed : Reconciled
  failed : Str → Reconciled

module _ {S : Type 0} (kube : Kube S) (sdk : SearchSdk S) where
  unfoldable pub update_status_if_changed : Policy → PolicyStatus → Run S (Result Done)
  update_status_if_changed policy before s =
      if kube.same_status before policy.status
      then (s, ok no_error)
      else wrapping (lit "failed to update status: ") (kube.update_status policy) s

  -- The finalizer that the controller registers.
  unfoldable pub finalize_policy : Policy → Run S (Result Done)
  unfolding and_then update_status_if_changed with_conditions get_search_index
  finalize_policy policy =
      let terminating =
        condition ready_type condition_false (lit "Terminating")
          (lit "ResourceIndexPolicy is being deleted") in
      let marked =
        with_conditions (kube.set_status_condition policy.status.conditions terminating) policy in
      let uid = get_search_index policy.spec.target_resource in
      and_then (update_status_if_changed marked policy.status)
        (λ u. and_then (sdk.delete_all_documents uid) (λ v. sdk.delete_index uid))

  module _ (compile : Str → Result CheckedAst) (max_depth : ℕ) (hash : PolicySpec → Str) where
    -- From the list of the policies to the conditions.
    unfoldable pub prepare_conditions : Policy → List Policy → Run S PreparedConditions
    unfolding validate_policy ensure_index sync_if searchable_kind filterable_kind
        validation_condition search_index_condition reindexing_condition get_search_index
    prepare_conditions policy others s =
        let uid = get_search_index policy.spec.target_resource in
        let errors = validate_policy compile max_depth policy others in
        let i = ensure_index sdk uid s in
        let index_is_ready = is_true_status i.1.condition.status in
        let a = sync_if sdk index_is_ready (searchable_kind sdk policy.spec.fields) uid i.0 in
        let f = sync_if sdk index_is_ready (filterable_kind sdk) uid a.0 in
        (
          f.0,
          record {
            validation = validation_condition kube.errors_text errors;
            search_index = search_index_condition kube.errors_text i.1;
            searchable = a.1;
            filterable = f.1;
            reindexing =
                reindexing_condition
                  (not (str_eq (hash policy.spec) policy.status.current_generation));
            has_errors = not (is_empty errors) || not (is_empty i.1.errors);
          },
        )

    -- The policy with the conditions of the first phase.
    unfoldable pub first_status : Policy → PreparedConditions → Policy
    unfolding set_all prepared_conditions get_search_index
    first_status policy p = record policy {
      status = record policy.status {
        index_name = get_search_index policy.spec.target_resource;
        conditions =
            set_all kube.set_status_condition (prepared_conditions p) policy.status.conditions;
      };
    }

    -- The policy with the two conditions of the second phase.
    unfoldable pub second_status : Policy → Condition → Policy
    unfolding with_conditions
    second_status policy c =
        let cs = kube.set_status_condition policy.status.conditions c in
        with_conditions
          (kube.set_status_condition cs (
            if is_true_status c.status
            then ready (lit "ResourceIndexPolicy is valid and indexed")
            else not_ready (lit "Reindexing failed: " ++ c.message)))
          policy

    unfoldable pub persist : Policy → Reconciled → Run S Reconciled
    persist policy answer s =
        let r = kube.update_status policy s in (r.0, elim r.1 [ err e ↦ failed e | ok u ↦ answer ])

    -- After publishing, with the error if there was one.
    unfoldable pub after_publish : Policy → Option Str → Run S Reconciled
    unfolding second_status persist
    after_publish policy (some e) s =
        persist
          (second_status policy (
            condition reindexing_type condition_false (lit "ReindexingFailed")
              (lit "Failed to publish re-index messages: " ++ e)))
          (failed (lit "Error when indexing policies")) s
    after_publish policy none s =
        let current = hash policy.spec in
        if has_prefix_of_8 current
        then persist
            (second_status
              (record policy { status = record policy.status { current_generation = current } })
              (condition reindexing_type condition_true (lit "ReindexingComplete")
                (lit "Reindexing published for spec hash " ++ take_8 current)))
            reconciled s
        else (s, crashed)

    module _ {C : Type 0} (cluster : Cluster S C) (registry : Option (MultiTenantRegistry C))
        (client : C) (fuel : ℕ) where
      unfoldable pub publish_all : Policy → Run S Reconciled
      unfolding publish_reindex_messages after_publish
      publish_all policy s =
          let r = publish_reindex_messages cluster hash fuel registry client policy s in
          after_publish policy r.1 r.0

      -- From the first update of the status on.
      unfoldable pub finish : Policy → PreparedConditions → Run S Reconciled
      unfolding is_pending publish_all
      finish policy p s =
          if p.has_errors
          then (s, failed (lit "ResourceIndexPolicy has errors"))
          else if is_pending p
          then (s, requeued_after_5s)
          else if not (str_eq (hash policy.spec) policy.status.current_generation)
          then publish_all policy s
          else (s, reconciled)

      unfoldable pub after_prepare : Policy → PreparedConditions → Run S Reconciled
      unfolding first_status update_status_if_changed finish
      after_prepare policy p s =
          let u = update_status_if_changed (first_status policy p) policy.status s in
          elim u.1 [ err e ↦ (u.0, failed e) | ok v ↦ finish (first_status policy p) p u.0 ]

      unfoldable pub reconcile_live : Policy → Run S Reconciled
      unfolding prepare_conditions after_prepare
      reconcile_live policy s =
          let l = kube.list_policies s in
          elim l.1 [
            | err e ↦ (l.0, failed e)
            | ok others ↦
                let p = prepare_conditions policy others l.0 in after_prepare policy p.1 p.0
          ]

      -- After the finalizers, with the policy as they leave it and whether they changed it.
      unfoldable pub after_finalizers : Result (Policy × Bool) → Run S Reconciled
      unfolding reconcile_live
      after_finalizers (err e) s = (s, failed (lit "failed to run finalizers: " ++ e))
      after_finalizers (ok (policy, true)) s =
          let r = kube.update policy s in
          (
            r.0,
            elim r.1 [
              | update_conflict ↦ requeued
              | update_failed e ↦ failed e
              | update_done ↦ reconciled
            ],
          )
      after_finalizers (ok (policy, false)) s =
          if is_some policy.deletion_timestamp then (s, reconciled) else reconcile_live policy s

      unfoldable pub reconcile : Str → Run S Reconciled
      unfolding after_finalizers
      reconcile name s =
          let g = kube.get_policy name s in
          elim g.1 [
            | not_found ↦ (g.0, reconciled)
            | get_failed e ↦ (g.0, failed e)
            | found policy ↦ let f = kube.finalize policy g.0 in after_finalizers f.1 f.0
          ]
