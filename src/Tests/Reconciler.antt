-- ===== src/Tests/Reconciler.antt =====
-- The controller on a concrete policy. The world outside counts the writes of a status.
use search.Prelude.{
  All, Str, lit, str_eq, has_str, Result, ok, err, Done, no_error, and_then, ℕ, ◌+◌, ◌≡◌, refl, sym,
  ap, ◌↔◌, inl, true, false, none, some, List, [], ◌∷◌, map, arith,
}
use search.Api.{str, PolicySpec, condition_true, Condition, Policy}
use search.Meilisearch.{TaskStatus, task_succeeded, task_failed, has_prefix, contains}
use search.Meilisearch.Admin.{
  ended, AdminService, strings_of, existence, creation_task, filterable_strings,
  wait_for_single_task, index_exists, get_index_creation_task, get_settings_update_task,
  get_filterable_attributes, request_and_wait, if_exists, delete_all_documents, delete_index,
}
use search.Meilisearch.Admin.Waits.{GoneOr}
use search.Validation.{validate_policy}
use search.Controller.{ready_type, is_false_status, get_search_index}
use search.Controller.Settings.{
  str_leb, insert_str, sort_strings, base_filterable_attributes, add_unseen,
  merge_filterable_attributes, same_strings, update_if_needed, check_attributes, on_settings_task,
  sync_attributes, filterable_kind, sync_if,
}
use search.Controller.Settings.Synced.{sync_if-has_baseline}
use search.Controller.Conditions.{PreparedConditions}
use search.Controller.Publish.{Page, mapped, Cluster, publish_reindex_messages}
use search.Controller.Publish.Pages.{Advances, publish_reindex_messages-no_error}
use search.Controller.Reconcile.{
  found, update_done, Kube, update_status_if_changed, finalize_policy, prepare_conditions,
  first_status, reconcile_live,
}
use search.Controller.Reconcile.Quiet.{reconcile_live-publishes_once}
use search.Controller.Conditions.Lookup.{find_condition, Sets}
use search.Controller.Reconcile.Status.{first_status-Ready}
use search.Controller.Reconcile.Finalizer.{
  search_sdk, marked_terminating, WrittenOrSame, finalize_policy-GoneOr,
}
use search.Tests.{secret_target, secret_object, secret_policy}
use search.Tests.Rules.{one_expression}

abbrev pub counting_kube : Kube ℕ
counting_kube = record {
  get_policy = λ name s. (s, found secret_policy);
  finalize = λ p s. (s, ok (p, false));
  update = λ p s. (s, update_done);
  list_policies = λ s. (s, ok (secret_policy ∷ []));
  update_status = λ p s. (s + 1, ok no_error);
  set_status_condition = λ cs c. c ∷ cs;
  same_status = λ a b. false;
  errors_text = λ es. lit "errors";
}

pub front-Sets : Sets counting_kube.set_status_condition
unfolding find_condition
front-Sets cs c t = refl

-- A service with one index, whose tasks end in the given status.
abbrev service_with : Result Done → TaskStatus → AdminService ℕ
service_with exists status = record {
  get_index = λ uid s. (s, exists);
  create_index = λ uid key s. (s, ok 1);
  get_tasks = λ uid kind s. (s, ok []);
  wait_for_task = λ task s. (s, ended (record { status = status; message = [] }));
  get_searchable = λ uid s. (s, ok (some []));
  get_filterable = λ uid s. (s, ok (some (map str base_filterable_attributes)));
  update_searchable = λ uid attributes s. (s, ok 2);
  update_filterable = λ uid attributes s. (s, ok 3);
  delete_by_filter = λ uid filter s. (s, ok 4);
  delete_all = λ uid s. (s, ok 5);
  delete_index = λ uid s. (s, ok 6);
  timed_out = λ task uid. lit "timed out";
}

abbrev pub working : AdminService ℕ
working = service_with (ok no_error) task_succeeded

abbrev missing : AdminService ℕ
missing = service_with (err (lit "index_not_found")) task_failed

abbrev pub fixed_hash : PolicySpec → Str
fixed_hash spec = lit "0123456789"

abbrev hashed_policy : Policy
hashed_policy = record secret_policy {
  status = record secret_policy.status { current_generation = lit "0123456789" };
}

abbrev one_page : Page
one_page = record { items = secret_object ∷ []; continue_token = [] }

-- One resource on one page, which is published or not.
abbrev cluster_with : Result Done → Cluster ℕ ℕ
cluster_with answer = record {
  rest_mapping = λ target s. (s, mapped);
  list_page = λ c target token s. (s, ok one_page);
  publish_resource = λ e s. (s, answer);
  uid_of = λ o. lit "s1";
}

abbrev pub lossy : Cluster ℕ ℕ
lossy = cluster_with (err (lit "no responders"))

reconcile_live-publishes_once_example :
    reconcile_live counting_kube
      (search_sdk working)
      one_expression
      5
      fixed_hash
      lossy
      none
      0
      0
      hashed_policy
      0
    ≡ reconcile_live counting_kube
        (search_sdk working)
        one_expression
        5
        fixed_hash
        (cluster_with (ok no_error))
        none
        0
        9
        hashed_policy
        0
reconcile_live-publishes_once_example =
    reconcile_live-publishes_once counting_kube (search_sdk working) one_expression 5 fixed_hash
      lossy (cluster_with (ok no_error)) none none 0 0 0 9 hashed_policy 0 refl

abbrev first_prepared : PreparedConditions
first_prepared =
    (prepare_conditions counting_kube (search_sdk working) one_expression 5 fixed_hash hashed_policy
      [] 0).1

first_status-Ready_example :
    (c : Condition) × (find_condition
        (first_status counting_kube
          (search_sdk working)
          one_expression
          5
          fixed_hash
          hashed_policy
          first_prepared).status.conditions
        ready_type
      ≡ some c)
    × ((c.status ≡ condition_true) ↔ (
        (validate_policy one_expression 5 hashed_policy [] ≡ [])
        × (is_false_status first_prepared.search_index.status ≡ false)
        × (is_false_status first_prepared.searchable.status ≡ false)
        × (is_false_status first_prepared.filterable.status ≡ false)
        × (fixed_hash hashed_policy.spec ≡ hashed_policy.status.current_generation)))
first_status-Ready_example =
    first_status-Ready counting_kube (search_sdk working) one_expression 5 fixed_hash hashed_policy
      [] 0 front-Sets

filterable_true :
    (sync_if
      (search_sdk working)
      true
      (filterable_kind (search_sdk working))
      (lit "v1_secret")
      0).1.status
    ≡ condition_true
unfolding sync_if sync_attributes on_settings_task check_attributes update_if_needed filterable_kind
    search_sdk get_settings_update_task get_filterable_attributes filterable_strings strings_of
    sort_strings insert_str str_leb merge_filterable_attributes add_unseen has_str same_strings
    str_eq
filterable_true = refl

sync_if-has_baseline_example :
    (t : ℕ) × (current : List Str) × (((search_sdk working).get_filterable_attributes
        (lit "v1_secret")
        t).1
      ≡ ok current)
    × All (λ x. has_str x current ≡ true) base_filterable_attributes
sync_if-has_baseline_example =
    sync_if-has_baseline (search_sdk working) (lit "v1_secret") 0 filterable_true

one_page-Advances : Advances lossy fixed_hash (λ t. 0)
one_page-Advances c target token s page e = inl (last page (same page e))
  where
    same : (p : Page) → ok one_page ≡ ok p → one_page ≡ p
    same p f = cc f

    last : (p : Page) → one_page ≡ p → p.continue_token ≡ []
    last p f = ap (λ (q : Page). q.continue_token) (sym f)

publish_reindex_messages-no_error_example :
    (publish_reindex_messages lossy fixed_hash 1 none 0 secret_policy 0).1 ≡ none
publish_reindex_messages-no_error_example =
    publish_reindex_messages-no_error lossy fixed_hash (λ t. 0) 1 none 0 secret_policy 0
      one_page-Advances (λ c target token s. (one_page, refl)) (λ target s. inl refl) (omega arith)

finalized : (finalize_policy counting_kube (search_sdk working) secret_policy 0).1 ≡ ok no_error
unfolding finalize_policy update_status_if_changed and_then search_sdk delete_all_documents
    delete_index if_exists index_exists existence request_and_wait wait_for_single_task
finalized = refl

abbrev secret_index : Str
secret_index = get_search_index secret_target

finalize_policy-GoneOr_example :
    (t u : ℕ) × WrittenOrSame counting_kube
      (marked_terminating counting_kube secret_policy)
      secret_policy.status
      0
      t
    × GoneOr working secret_index (working.delete_all secret_index) t
    × (u ≡ (delete_all_documents working secret_index t).0)
    × GoneOr working secret_index (working.delete_index secret_index) u
finalize_policy-GoneOr_example =
    finalize_policy-GoneOr counting_kube working secret_policy 0 finalized

missing_index : index_exists missing secret_index 0 ≡ (0, ok false)
unfolding index_exists existence contains has_prefix
missing_index = refl

no_creation_task : get_index_creation_task missing secret_index 0 ≡ (0, ok none)
unfolding get_index_creation_task creation_task
no_creation_task = refl
