-- ===== src/Controller/Reconcile/Finalizer.antt =====
-- The finalizer of internal/controllers/policy/policy_controller.go over the client of
-- pkg/meilisearch/sdk_client.go.
use search.Prelude.{
  Bool-cases, Str, lit, ok, Done, no_error, and_then, and_then-ok, wrap-ok, ℕ, ◌≡◌, refl, ap, ◌∙◌,
  ◌⊎◌, inl, inr, true, false, none, [],
}
use search.Api.{condition_false, PolicyStatus, Policy}
use search.Meilisearch.Admin.{
  Task, ended, AdminService, wait_for_single_task, index_exists, create_index,
  get_index_creation_task, get_settings_update_task, get_searchable_attributes,
  get_filterable_attributes, update_searchable_attributes, update_filterable_attributes,
  delete_all_documents, delete_index,
}
use search.Meilisearch.Admin.Waits.{GoneOr, delete_all_documents-GoneOr, delete_index-GoneOr}
use search.Controller.{
  condition, ready_type, get_search_index, SearchSdk, index_ready, create_missing_index,
  on_creation_task, ensure_index,
}
use search.Controller.Conditions.{with_conditions}
use search.Controller.Reconcile.{Kube, update_status_if_changed, finalize_policy}

-- The client as the controller sees it.
unfoldable pub search_sdk : {S : Type 0} → AdminService S → SearchSdk S
search_sdk service = record {
  index_exists = index_exists service;
  get_index_creation_task = get_index_creation_task service;
  create_index = create_index service;
  get_settings_update_task = get_settings_update_task service;
  get_searchable_attributes = get_searchable_attributes service;
  get_filterable_attributes = get_filterable_attributes service;
  update_searchable_attributes = update_searchable_attributes service;
  update_filterable_attributes = update_filterable_attributes service;
  delete_all_documents = delete_all_documents service;
  delete_index = delete_index service;
}

ensure_index-creates :
    {S : Type 0} (sdk : SearchSdk S) (uid : Str) (s0 s1 s2 s4 : S) (t : Task)
    → sdk.index_exists uid s0 ≡ (s1, ok false)
    → sdk.get_index_creation_task uid s1 ≡ (s2, ok none)
    → sdk.create_index uid s2 ≡ (s4, ok t)
    → ensure_index sdk uid s0 ≡ (s4, record { condition = index_ready; errors = [] })
unfolding ensure_index on_creation_task create_missing_index
ensure_index-creates sdk uid s0 s1 s2 s4 t a b c =
    rw (ensure_index, a) (rw a (rw b (rw (create_missing_index, c) refl)))

-- The policy that the finalizer writes, with Ready set to false for the reason Terminating.
abbrev pub marked_terminating : {S : Type 0} → Kube S → Policy → Policy
marked_terminating kube policy =
    with_conditions
      (kube.set_status_condition policy.status.conditions (
        condition ready_type condition_false (lit "Terminating")
          (lit "ResourceIndexPolicy is being deleted")))
      policy

-- The write of a status from one state of the world to the next: it was accepted, or there was
-- nothing to write.
abbrev pub WrittenOrSame : {S : Type 0} → Kube S → Policy → PolicyStatus → S → S → Type 0
WrittenOrSame kube policy before s t =
    (kube.update_status policy s ≡ (t, ok no_error))
    ⊎ ((kube.same_status before policy.status ≡ true) × (t ≡ s))

module _ {S : Type 0} (kube : Kube S) (service : AdminService S) where
  update_status_if_changed-WrittenOrSame :
      (policy : Policy) (before : PolicyStatus) (s : S)
      → (update_status_if_changed kube (search_sdk service) policy before s).1 ≡ ok no_error
      → WrittenOrSame kube policy before s
          (update_status_if_changed kube (search_sdk service) policy before s).0
  unfolding update_status_if_changed
  update_status_if_changed-WrittenOrSame policy before s h =
      elim (Bool-cases (kube.same_status before policy.status)) [
        | inl e ↦ inr (e, rw e refl)
        | inr e ↦ inl (
            rw e (
              ap (λ r. ((kube.update_status policy s).0, r))
                (wrap-ok (lit "failed to update status: ") (kube.update_status policy s).1 no_error
                  (rw e at h))))
      ]

  -- If the finalizer reports no error, then the status in which Ready is set to false for the reason
  -- Terminating was written without an error, or is the same as before; and after it, in this order:
  -- the documents of the policy's index were deleted by a task that succeeded, and the index was
  -- deleted by a task that succeeded; either is left out only where the service answered that the
  -- index does not exist.
  pub finalize_policy-GoneOr :
      (policy : Policy) (s : S)
      → (finalize_policy kube (search_sdk service) policy s).1 ≡ ok no_error
      → (t u : S) × WrittenOrSame kube (marked_terminating kube policy) policy.status s t
        × GoneOr service
            (get_search_index policy.spec.target_resource)
            (service.delete_all (get_search_index policy.spec.target_resource))
            t
        × (u ≡ (delete_all_documents service (get_search_index policy.spec.target_resource) t).0)
        × GoneOr service
            (get_search_index policy.spec.target_resource)
            (service.delete_index (get_search_index policy.spec.target_resource))
            u
  unfolding finalize_policy search_sdk
  finalize_policy-GoneOr policy s h =
      let uid = get_search_index policy.spec.target_resource in
      let marked = marked_terminating kube policy in
      let written = update_status_if_changed kube (search_sdk service) marked policy.status in
      let delete = delete_index service uid in
      let (v, e, f) =
        and_then-ok written (λ u. and_then (delete_all_documents service uid) (λ v. delete)) s
          no_error h in
      let (w, g, k) =
        and_then-ok (delete_all_documents service uid) (λ v. delete) (written s).0 no_error f in
      (
        (written s).0,
        (delete_all_documents service uid (written s).0).0,
        update_status_if_changed-WrittenOrSame marked policy.status s (e ∙ ap ok (only v)),
        delete_all_documents-GoneOr service uid (written s).0 (g ∙ ap ok (only w)),
        refl,
        delete_index-GoneOr service uid (delete_all_documents service uid (written s).0).0 k,
      )
    where
      only : (d : Done) → d ≡ no_error
      only no_error = refl

  create_index-ended :
      (uid : Str) (s2 s3 s4 : S) (task : ℕ) (t : Task)
      → service.create_index uid (lit "uid") s2 ≡ (s3, ok task)
      → service.wait_for_task task s3 ≡ (s4, ended t)
      → create_index service uid s2 ≡ (s4, ok t)
  unfolding create_index and_then wait_for_single_task
  create_index-ended uid s2 s3 s4 task t c d =
      rw (create_index, and_then, c) (rw c (rw (wait_for_single_task, d) (rw d refl)))

  -- The index is missing and has no creation task; the request to create it is accepted, and the
  -- wait for it ends with a task, whatever its status is: the condition of the index is true, and
  -- no error is kept.
  pub ensure_index-unchecked :
      (uid : Str) (s0 s1 s2 s3 s4 : S) (task : ℕ) (t : Task)
      → index_exists service uid s0 ≡ (s1, ok false)
      → get_index_creation_task service uid s1 ≡ (s2, ok none)
      → service.create_index uid (lit "uid") s2 ≡ (s3, ok task)
      → service.wait_for_task task s3 ≡ (s4, ended t)
      → ensure_index (search_sdk service) uid s0
        ≡ (s4, record { condition = index_ready; errors = [] })
  unfolding search_sdk
  ensure_index-unchecked uid s0 s1 s2 s3 s4 task t a b c d =
      ensure_index-creates (search_sdk service) uid s0 s1 s2 s4 t a b
        (create_index-ended uid s2 s3 s4 task t c d)
