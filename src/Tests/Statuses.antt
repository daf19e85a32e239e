-- ===== src/Tests/Statuses.antt =====
-- The second phase of a reconcile on a concrete policy.
use search.Prelude.{
  lit, str_eq, ok, err, no_error, ℕ, ◌+◌, ◌≡◌, refl, ◌≢◌, true, false, none, [], ◌∷◌,
}
use search.Api.{condition_true, condition_false, Condition, Policy}
use search.Meilisearch.Admin.{
  AdminService, index_exists, get_settings_update_task, get_searchable_attributes,
  get_filterable_attributes,
}
use search.Reindex.{new_event}
use search.Controller.{condition, ready_type, searchable_type, index_ready}
use search.Controller.Settings.{failed_reason, synced_condition, filterable_kind}
use search.Controller.Conditions.{
  PreparedConditions, validation_condition, reindexing_condition, is_pending,
}
use search.Controller.Publish.{
  reindex_event, publish_items, publish_pages, publish_reindex_messages_for_tenant, reindex_tenants,
  publish_tenants, publish_reindex_messages,
}
use search.Controller.Reconcile.{
  reconciled, update_status_if_changed, prepare_conditions, first_status, persist, finish,
  reconcile_live,
}
use search.Controller.Reconcile.Settling.{Settled, finish-Settled}
use search.Controller.Reconcile.Unready.{HasStatus, reconcile_live-Ready_with_failed_attributes}
use search.Controller.Reconcile.Finalizer.{search_sdk}
use search.Tests.{secret_policy}
use search.Tests.Rules.{one_expression}
use search.Tests.Reconciler.{counting_kube, front-Sets, working, fixed_hash, lossy}

abbrev prepared_with : Condition → PreparedConditions
prepared_with searchable = record {
  validation = validation_condition (λ es. []) [];
  search_index = index_ready;
  searchable = searchable;
  filterable = synced_condition (filterable_kind (search_sdk working));
  reindexing = reindexing_condition true;
  has_errors = false;
}

abbrev failed_searchable : Condition
failed_searchable =
    condition searchable_type condition_false (failed_reason (lit "timeout"))
      (lit "Failed to get current attributes")

published_one : publish_reindex_messages lossy fixed_hash 1 none 0 secret_policy 0 ≡ (0, none)
unfolding publish_reindex_messages reindex_tenants publish_tenants
    publish_reindex_messages_for_tenant publish_pages publish_items reindex_event new_event str_eq
published_one = refl

not_pending : is_pending (prepared_with failed_searchable) ≡ false
unfolding is_pending str_eq filterable_kind
not_pending = refl

differs : fixed_hash secret_policy.spec ≢ secret_policy.status.current_generation
differs e = absurd (cc e)

finish-Settled_example :
    (q : Policy) × Settled counting_kube (search_sdk working) one_expression 5 fixed_hash q
    × (q.spec ≡ secret_policy.spec)
    × (finish counting_kube
          (search_sdk working)
          one_expression
          5
          fixed_hash
          lossy
          none
          0
          1
          secret_policy
          (prepared_with failed_searchable)
          0
        ≡ persist counting_kube (search_sdk working) one_expression 5 fixed_hash q reconciled 0)
finish-Settled_example =
    finish-Settled counting_kube (search_sdk working) one_expression 5 fixed_hash lossy none 0 1
      secret_policy (prepared_with failed_searchable) 0 0 front-Sets refl refl not_pending differs
      published_one

-- A service that does not tell the searchable attributes.
abbrev unsearchable : AdminService ℕ
unsearchable = record working { get_searchable = λ uid s. (s, err (lit "timeout")) }

abbrev unready_prepared : ℕ × PreparedConditions
unready_prepared =
    prepare_conditions counting_kube (search_sdk unsearchable) one_expression 5 fixed_hash
      secret_policy (secret_policy ∷ []) 0

abbrev unready_policy : Policy
unready_policy =
    first_status counting_kube (search_sdk unsearchable) one_expression 5 fixed_hash secret_policy
      unready_prepared.1

unready_facts :
    (unready_prepared.1.has_errors ≡ false)
    × (is_pending unready_prepared.1 ≡ false)
    × (unready_prepared.1.searchable.status ≡ condition_false)
unfolding prepare_conditions str_eq search_sdk index_exists is_pending get_settings_update_task
    get_searchable_attributes get_filterable_attributes
unready_facts = (refl, refl, refl)

unready_written :
    update_status_if_changed counting_kube
      (search_sdk unsearchable)
      unready_policy
      secret_policy.status
      unready_prepared.0
    ≡ (unready_prepared.0 + 1, ok no_error)
unfolding update_status_if_changed
unready_written = refl

unready_published :
    publish_reindex_messages lossy fixed_hash 1 none 0 unready_policy (unready_prepared.0 + 1)
    ≡ (unready_prepared.0 + 1, none)
unfolding publish_reindex_messages reindex_tenants publish_tenants
    publish_reindex_messages_for_tenant publish_pages publish_items reindex_event new_event str_eq
    first_status
unready_published = refl

reconcile_live-Ready_with_failed_attributes_example :
    HasStatus unready_policy ready_type condition_false
    × (q : Policy) × HasStatus q ready_type condition_true
    × HasStatus q searchable_type condition_false
    × (reconcile_live counting_kube
          (search_sdk unsearchable)
          one_expression
          5
          fixed_hash
          lossy
          none
          0
          1
          secret_policy
          0
        ≡ persist counting_kube
            (search_sdk unsearchable)
            one_expression
            5
            fixed_hash
            q
            reconciled
            (unready_prepared.0 + 1))
reconcile_live-Ready_with_failed_attributes_example =
    reconcile_live-Ready_with_failed_attributes counting_kube (search_sdk unsearchable)
      one_expression 5 fixed_hash lossy none 0 1 secret_policy (secret_policy ∷ [])
      unready_prepared.1 0 0 unready_prepared.0 (unready_prepared.0 + 1) (unready_prepared.0 + 1)
      front-Sets refl differs refl refl unready_facts.0 unready_facts.1 unready_facts.2
      unready_written unready_published
