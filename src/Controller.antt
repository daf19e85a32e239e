-- ===== src/Controller.antt =====
-- internal/controllers/policy/policy_controller.go, with internal/utils/status.go and the index name
-- of internal/utils/search.go. What is outside is a state `S` that every call may change.
pub mod Settings
pub mod Conditions
pub mod Publish
pub mod Reconcile
use search.Prelude.{
  ◌==◌, if◌then◌else◌, Str, lit, Result, ok, err, Run, Done, ℕ, Bool, true, false, Option, none,
  some, List, [], ◌∷◌, ◌++◌,
}
use search.Api.{TargetResource, ConditionStatus, condition_true, condition_false, Condition}
use search.Meilisearch.Admin.{
  Task, is_task_pending, index_exists, create_index, get_index_creation_task,
  get_settings_update_task, get_searchable_attributes, get_filterable_attributes,
  update_searchable_attributes, update_filterable_attributes, delete_all_documents, delete_index,
}

abbrev pub condition : Str → ConditionStatus → Str → Str → Condition
condition type_name status reason message = record {
  type_name = type_name;
  status = status;
  reason = reason;
  message = message;
}

abbrev pub ready_type : Str
ready_type = lit "Ready"

abbrev pub validation_type : Str
validation_type = lit "PolicyValidation"

abbrev pub search_index_type : Str
search_index_type = lit "SearchIndexReady"

abbrev pub searchable_type : Str
searchable_type = lit "SearchableAttributesConfigured"

abbrev pub filterable_type : Str
filterable_type = lit "FilterableAttributesConfigured"

abbrev pub reindexing_type : Str
reindexing_type = lit "Reindexing"

abbrev pub index_pending_reason : Str
index_pending_reason = lit "IndexPending"

abbrev pub attributes_updating_reason : Str
attributes_updating_reason = lit "AttributesUpdating"

abbrev pub is_true_status : ConditionStatus → Bool
is_true_status condition_true = true
is_true_status _ = false

abbrev pub is_false_status : ConditionStatus → Bool
is_false_status condition_false = true
is_false_status _ = false

-- strings.ReplaceAll(s, ".", "-")
unfoldable pub dots_to_dashes : Str → Str
dots_to_dashes [] = []
dots_to_dashes (c ∷ s) = (if c == 46 then 45 else c) ∷ dots_to_dashes s

unfoldable pub get_search_index : TargetResource → Str
unfolding dots_to_dashes
get_search_index t = dots_to_dashes (t.group ++ lit "_" ++ t.version ++ lit "_" ++ t.kind)

-- The search client as the controller uses it.
pub record SearchSdk (S : Type 0) : Type 0 where
  pub index_exists : Str → Run S (Result Bool)
  pub get_index_creation_task : Str → Run S (Result (Option Task))
  pub create_index : Str → Run S (Result Task)
  pub get_settings_update_task : Str → Run S (Result (Option Task))
  pub get_searchable_attributes : Str → Run S (Result (List Str))
  pub get_filterable_attributes : Str → Run S (Result (List Str))
  pub update_searchable_attributes : Str → List Str → Run S (Result ℕ)
  pub update_filterable_attributes : Str → List Str → Run S (Result ℕ)
  pub delete_all_documents : Str → Run S (Result Done)
  pub delete_index : Str → Run S (Result Done)

-- The condition of the index, and the errors that were met.
pub record IndexState : Type 0 where
  pub condition : Condition
  pub errors : List Str

abbrev pub index_ready : Condition
index_ready =
    condition search_index_type condition_true (lit "IndexCreated")
      (lit "Search index provider is ready")

abbrev pub index_pending : Condition
index_pending =
    condition search_index_type condition_false index_pending_reason
      (lit "Index creation is pending in search provider")

module _ {S : Type 0} (sdk : SearchSdk S) where
  unfoldable pub create_missing_index : Str → Run S IndexState
  create_missing_index uid s =
      let r = sdk.create_index uid s in
      (
        r.0,
        elim r.1 [
          | ok t ↦ record { condition = index_ready; errors = [] }
          | err e ↦ record {
            condition =
                condition search_index_type condition_false (lit "IndexFailed")
                  (lit "Index creation failed: " ++ e);
            errors = e ∷ [];
          }
        ],
      )

  -- A creation task that is pending is waited for; after one that failed, or whose index is gone
  -- again, the index is created.
  unfoldable pub on_creation_task : Str → Result (Option Task) → Run S IndexState
  unfolding create_missing_index
  on_creation_task uid (err e) s = (s, record { condition = index_ready; errors = e ∷ [] })
  on_creation_task uid (ok none) s = create_missing_index uid s
  on_creation_task uid (ok (some t)) s =
      if is_task_pending t
      then (s, record { condition = index_pending; errors = [] })
      else create_missing_index uid s

  unfoldable pub ensure_index : Str → Run S IndexState
  unfolding on_creation_task
  ensure_index uid s =
      let r = sdk.index_exists uid s in
      elim r.1 [
        | err e ↦ (r.0, record { condition = index_ready; errors = e ∷ [] })
        | ok true ↦ (r.0, record { condition = index_ready; errors = [] })
        | ok false ↦ let t = sdk.get_index_creation_task uid r.0 in on_creation_task uid t.1 t.0
      ]
