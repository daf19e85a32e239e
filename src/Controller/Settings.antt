-- ===== src/Controller/Settings.antt =====
-- The attributes that internal/controllers/policy/policy_controller.go keeps in step with a policy.
pub mod Merge
pub mod Synced
use search.Prelude.{
  ltb, ◌==◌, if◌then◌else◌, is_empty, keep, Str, lit, str_eq, has_str, Result, ok, err, Run, ℕ,
  Bool, true, false, ◌&&◌, not, Option, none, some, List, [], ◌∷◌, ◌++◌,
}
use search.Api.{FieldPolicy, condition_true, condition_false, Condition}
use search.Paths.{parse_path}
use search.Meilisearch.Admin.{Task, is_task_pending}
use search.Controller.{
  condition, searchable_type, filterable_type, attributes_updating_reason, SearchSdk,
}

-- sort.Strings, by bytes
unfoldable pub str_leb : Str → Str → Bool
str_leb [] t = true
str_leb (a ∷ s) [] = false
str_leb (a ∷ s) (b ∷ t) = if ltb a b then true else a == b && str_leb s t

unfoldable pub insert_str : Str → List Str → List Str
unfolding str_leb
insert_str x [] = x ∷ []
insert_str x (y ∷ ys) = if str_leb x y then x ∷ y ∷ ys else y ∷ insert_str x ys

unfoldable pub sort_strings : List Str → List Str
unfolding insert_str
sort_strings [] = []
sort_strings (x ∷ xs) = insert_str x (sort_strings xs)

-- strings.Join(xs, ".")
unfoldable pub join_dots : List Str → Str
join_dots [] = []
join_dots (x ∷ []) = x
join_dots (x ∷ y ∷ xs) = x ++ 46 ∷ join_dots (y ∷ xs)

-- The attributes of the fields that are searchable, where a path without a name has none.
unfoldable pub desired_attributes : List FieldPolicy → List Str
unfolding parse_path join_dots
desired_attributes [] = []
desired_attributes (f ∷ fs) =
    let names = keep (λ x. not (str_eq x (lit "*"))) (parse_path f.path) in
    if f.searchable && not (is_empty names)
    then join_dots names ∷ desired_attributes fs
    else desired_attributes fs

abbrev pub base_filterable_attributes : List Str
base_filterable_attributes =
    lit "uid"
    ∷ lit "metadata.name"
    ∷ lit "metadata.namespace"
    ∷ lit "_tenant"
    ∷ lit "_tenant_type"
    ∷ []

-- One loop of `mergeFilterableAttributes`: `seen` and `result` hold the same.
unfoldable pub add_unseen : List Str → List Str → List Str
unfolding has_str
add_unseen [] result = result
add_unseen (a ∷ more) result =
    add_unseen more (if has_str a result then result else result ++ a ∷ [])

unfoldable pub merge_filterable_attributes : List Str → List Str → List Str
unfolding add_unseen
merge_filterable_attributes existing required = add_unseen required (add_unseen existing [])

-- The comparison of two slices.
unfoldable pub same_strings : List Str → List Str → Bool
same_strings [] [] = true
same_strings [] (y ∷ ys) = false
same_strings (x ∷ xs) [] = false
same_strings (x ∷ xs) (y ∷ ys) = str_eq x y && same_strings xs ys

-- What differs between the two blocks of `Reconcile` for the searchable and filterable attributes.
pub record AttributeKind (S : Type 0) : Type 0 where
  pub type_name : Str
  pub synced_message : Str
  pub pending_message : Str
  pub get_message : Str
  pub update_message : Str
  pub updating_message : Str
  pub get_attributes : Str → Run S (Result (List Str))
  pub update_attributes : Str → List Str → Run S (Result ℕ)
  pub desired : List Str → List Str

abbrev pub failed_reason : Str → Str
failed_reason e = lit "AttributesFailed: " ++ e

module _ {S : Type 0} (k : AttributeKind S) where
  abbrev pub synced_condition : Condition
  synced_condition = condition k.type_name condition_true (lit "AttributesSynced") k.synced_message

  abbrev pub updating_condition : Str → Condition
  updating_condition message =
      condition k.type_name condition_false attributes_updating_reason message

  abbrev pub failed_condition : Str → Str → Condition
  failed_condition e message = condition k.type_name condition_false (failed_reason e) message

  -- The comparison of what is configured with what is desired, and the update.
  unfoldable pub update_if_needed : Str → Condition → List Str → Run S Condition
  unfolding same_strings sort_strings
  update_if_needed uid before current s =
      if same_strings (sort_strings current) (k.desired current)
      then (s, before)
      else let r = k.update_attributes uid (k.desired current) s in
        (
          r.0,
          elim r.1 [
            | ok task ↦ updating_condition k.updating_message
            | err e ↦ failed_condition e (k.update_message ++ e)
          ],
        )

  unfoldable pub check_attributes : Str → Condition → Run S Condition
  unfolding update_if_needed
  check_attributes uid before s =
      let r = k.get_attributes uid s in
      elim r.1 [
        | err e ↦ (r.0, failed_condition e k.get_message)
        | ok current ↦ update_if_needed uid before current r.0
      ]

  -- An error of the settings task is kept in the condition, and the attributes are still compared.
  unfoldable pub on_settings_task : Str → Result (Option Task) → Run S Condition
  unfolding check_attributes
  on_settings_task uid (err e) s =
      check_attributes uid (failed_condition e (lit "Failed to check settings status")) s
  on_settings_task uid (ok none) s = check_attributes uid synced_condition s
  on_settings_task uid (ok (some t)) s =
      if is_task_pending t
      then (s, updating_condition k.pending_message)
      else check_attributes uid synced_condition s

  unfoldable pub sync_attributes : SearchSdk S → Str → Run S Condition
  unfolding on_settings_task
  sync_attributes sdk uid s =
      let r = sdk.get_settings_update_task uid s in on_settings_task uid r.1 r.0

module _ {S : Type 0} (sdk : SearchSdk S) where
  unfoldable pub searchable_kind : List FieldPolicy → AttributeKind S
  unfolding sort_strings desired_attributes
  searchable_kind fields = record {
    type_name = searchable_type;
    synced_message = lit "Searchable attributes are configured";
    pending_message = lit "Searchable attributes update is pending";
    get_message = lit "Failed to get current attributes";
    update_message = lit "Failed to update attributes: ";
    updating_message = lit "Updating searchable attributes";
    get_attributes = sdk.get_searchable_attributes;
    update_attributes = sdk.update_searchable_attributes;
    desired = λ current. sort_strings (desired_attributes fields);
  }

  unfoldable pub filterable_kind : AttributeKind S
  unfolding sort_strings merge_filterable_attributes
  filterable_kind = record {
    type_name = filterable_type;
    synced_message = lit "Filterable attributes are configured";
    pending_message = lit "Filterable attributes update is pending";
    get_message = lit "Failed to get current filterable attributes";
    update_message = lit "Failed to update filterable attributes: ";
    updating_message = lit "Updating filterable attributes";
    get_attributes = sdk.get_filterable_attributes;
    update_attributes = sdk.update_filterable_attributes;
    desired =
        λ current. sort_strings (merge_filterable_attributes current base_filterable_attributes);
  }

  -- The attributes are looked at only while the condition of the index is true.
  unfoldable pub sync_if : Bool → AttributeKind S → Str → Run S Condition
  unfolding sync_attributes
  sync_if index_is_ready k uid s =
      if index_is_ready then sync_attributes k sdk uid s else (s, synced_condition k)
