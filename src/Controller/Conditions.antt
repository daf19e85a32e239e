-- ===== src/Controller/Conditions.antt =====
-- The conditions that `Reconcile` of internal/controllers/policy/policy_controller.go sets.
pub mod Lookup
use search.Prelude.{if◌then◌else◌, is_empty, Str, lit, str_eq, Bool, ◌||◌, List, [], ◌∷◌, map}
use search.Api.{condition_true, condition_false, Condition, Policy}
use search.Validation.{FieldError, internal_error}
use search.Controller.{
  condition, ready_type, validation_type, search_index_type, reindexing_type, index_pending_reason,
  attributes_updating_reason, is_false_status, IndexState,
}

-- The conditions of the first phase, and whether there were errors.
pub record PreparedConditions : Type 0 where
  pub validation : Condition
  pub search_index : Condition
  pub searchable : Condition
  pub filterable : Condition
  pub reindexing : Condition
  pub has_errors : Bool

unfoldable pub validation_condition : (List FieldError → Str) → List FieldError → Condition
validation_condition errors_text [] =
    condition validation_type condition_true (lit "PolicyValidationReady")
      (lit "ResourceIndexPolicy is valid")
validation_condition errors_text (e ∷ es) =
    condition validation_type condition_false (lit "PolicyValidationNotReady")
      (errors_text (e ∷ es))

unfoldable pub search_index_condition : (List FieldError → Str) → IndexState → Condition
search_index_condition errors_text i =
    if is_empty i.errors
    then i.condition
    else condition search_index_type condition_false (lit "IndexFailed")
        (errors_text (map internal_error i.errors))

unfoldable pub reindexing_condition : Bool → Condition
reindexing_condition needs_reindexing =
    if needs_reindexing
    then condition reindexing_type condition_false (lit "ReindexingInProgress")
        (lit "Reindexing in progress")
    else condition reindexing_type condition_true (lit "ReindexingComplete")
        (lit "Reindexing completed")

abbrev pub not_ready : Str → Condition
not_ready message = condition ready_type condition_false (lit "PolicyNotReady") message

abbrev pub ready : Str → Condition
ready message = condition ready_type condition_true (lit "PolicyReady") message

unfoldable pub any_false : PreparedConditions → Bool
any_false p =
    is_false_status p.validation.status
    || (is_false_status p.search_index.status
        || (is_false_status p.searchable.status
            || (is_false_status p.filterable.status || is_false_status p.reindexing.status)))

unfoldable pub ready_condition : PreparedConditions → Condition
unfolding any_false
ready_condition p =
    if any_false p
    then not_ready (lit "ResourceIndexPolicy is not ready")
    else ready (lit "ResourceIndexPolicy is valid and indexed in the search provider")

unfoldable pub is_pending : PreparedConditions → Bool
is_pending p =
    str_eq p.search_index.reason index_pending_reason
    || (str_eq p.searchable.reason attributes_updating_reason
        || str_eq p.filterable.reason attributes_updating_reason)

-- The six calls of `meta.SetStatusCondition`, in the order of the source.
unfoldable pub set_all :
    (List Condition → Condition → List Condition) → List Condition → List Condition → List Condition
set_all set [] cs = cs
set_all set (c ∷ more) cs = set_all set more (set cs c)

unfoldable pub prepared_conditions : PreparedConditions → List Condition
unfolding ready_condition
prepared_conditions p =
    ready_condition p
    ∷ p.validation
    ∷ p.search_index
    ∷ p.searchable
    ∷ p.filterable
    ∷ p.reindexing
    ∷ []

unfoldable pub with_conditions : List Condition → Policy → Policy
with_conditions cs p = record p { status = record p.status { conditions = cs } }
