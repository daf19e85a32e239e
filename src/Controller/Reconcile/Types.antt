-- ===== src/Controller/Reconcile/Types.antt =====
-- The types of the conditions of internal/controllers/policy/policy_controller.go.
use search.Prelude.{
  Bool-cases, Str, Result, ok, err, Result-cases, ◌≡◌, refl, inl, inr, Bool, true, false, Option,
  none, some, List,
}
use search.Api.{Condition}
use search.Meilisearch.Admin.{Task, is_task_pending}
use search.Controller.{
  search_index_type, SearchSdk, create_missing_index, on_creation_task, ensure_index,
}
use search.Controller.Settings.{
  sort_strings, same_strings, AttributeKind, update_if_needed, check_attributes, on_settings_task,
  sync_attributes, sync_if,
}

module _ {S : Type 0} (k : AttributeKind S) where
  pub update_if_needed-type :
      (uid : Str) (before : Condition) (current : List Str) (s : S)
      → before.type_name ≡ k.type_name
      → (update_if_needed k uid before current s).1.type_name ≡ k.type_name
  unfolding update_if_needed
  update_if_needed-type uid before current s e =
      elim (Bool-cases (same_strings (sort_strings current) (k.desired current))) [
        | inl f ↦ rw f e
        | inr f ↦ elim (Result-cases (k.update_attributes uid (k.desired current) s).1) [
          | inl (a, g) ↦ rw (f, g) refl
          | inr (m, g) ↦ rw (f, g) refl
        ]
      ]

  pub check_attributes-type :
      (uid : Str) (before : Condition) (s : S)
      → before.type_name ≡ k.type_name
      → (check_attributes k uid before s).1.type_name ≡ k.type_name
  unfolding check_attributes
  check_attributes-type uid before s e = elim (Result-cases (k.get_attributes uid s).1) [
    | inl (current, f) ↦
        rw (check_attributes, f)
          (update_if_needed-type uid before current (k.get_attributes uid s).0 e)
    | inr (m, f) ↦ rw (check_attributes, f) refl
  ]

  pub on_settings_task-type :
      (uid : Str) (r : Result (Option Task)) (s : S)
      → (on_settings_task k uid r s).1.type_name ≡ k.type_name
  unfolding on_settings_task
  on_settings_task-type uid (err e) s = check_attributes-type uid _ s refl
  on_settings_task-type uid (ok none) s = check_attributes-type uid _ s refl
  on_settings_task-type uid (ok (some t)) s = elim (Bool-cases (is_task_pending t)) [
    | inl e ↦ rw e refl
    | inr e ↦ rw e (check_attributes-type uid _ s refl)
  ]

  pub sync_if-type :
      (sdk : SearchSdk S) (b : Bool) (uid : Str) (s : S)
      → (sync_if sdk b k uid s).1.type_name ≡ k.type_name
  unfolding sync_if sync_attributes
  sync_if-type sdk true uid s =
      on_settings_task-type uid (sdk.get_settings_update_task uid s).1
        (sdk.get_settings_update_task uid s).0
  sync_if-type sdk false uid s = refl

module _ {S : Type 0} (sdk : SearchSdk S) where
  pub create_missing_index-type :
      (uid : Str) (s : S)
      → (create_missing_index sdk uid s).1.condition.type_name ≡ search_index_type
  unfolding create_missing_index
  create_missing_index-type uid s = elim (Result-cases (sdk.create_index uid s).1) [
    | inl (t, e) ↦ rw (create_missing_index, e) refl
    | inr (m, e) ↦ rw (create_missing_index, e) refl
  ]

  pub on_creation_task-type :
      (uid : Str) (r : Result (Option Task)) (s : S)
      → (on_creation_task sdk uid r s).1.condition.type_name ≡ search_index_type
  unfolding on_creation_task
  on_creation_task-type uid (err e) s = refl
  on_creation_task-type uid (ok none) s = create_missing_index-type uid s
  on_creation_task-type uid (ok (some t)) s = elim (Bool-cases (is_task_pending t)) [
    | inl e ↦ rw e refl
    | inr e ↦ rw e (create_missing_index-type uid s)
  ]

  pub ensure_index-type :
      (uid : Str) (s : S) → (ensure_index sdk uid s).1.condition.type_name ≡ search_index_type
  unfolding ensure_index
  ensure_index-type uid s = elim (Result-cases (sdk.index_exists uid s).1) [
    | inr (m, e) ↦ rw (ensure_index, e) refl
    | inl (b, e) ↦ elim (Bool-cases b) [
      | inl f ↦ rw (ensure_index, e, f) refl
      | inr f ↦
          rw (ensure_index, e, f)
            (on_creation_task-type uid
              (sdk.get_index_creation_task uid (sdk.index_exists uid s).0).1
              (sdk.get_index_creation_task uid (sdk.index_exists uid s).0).0)
    ]
  ]
