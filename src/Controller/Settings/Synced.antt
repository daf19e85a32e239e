-- ===== src/Controller/Settings/Synced.antt =====
-- What a true condition of the attributes says, of internal/controllers/policy/policy_controller.go.
use search.Prelude.{
  Bool-cases, All, Str, lit, str_eq, has_str, Result, ok, err, Result-cases, ◌≡◌, refl, sym, ap,
  ◌∙◌, ◌≢◌, inl, inr, Bool, true, false, ◌||◌, Option, none, some, List,
}
use search.Api.{condition_true, condition_false, Condition}
use search.Meilisearch.Admin.{Task, is_task_pending}
use search.Controller.{SearchSdk}
use search.Controller.Settings.{
  sort_strings, base_filterable_attributes, merge_filterable_attributes, same_strings,
  AttributeKind, synced_condition, update_if_needed, check_attributes, on_settings_task,
  sync_attributes, filterable_kind, sync_if,
}
use search.Controller.Settings.Merge.{
  merge_filterable_attributes-union, sort_strings-has, same_strings→eq,
}

false_is_not_true : condition_false ≢ condition_true
false_is_not_true e = cc e

module _ {S : Type 0} (k : AttributeKind S) where
  -- The service answered with attributes that are, in order, those desired.
  abbrev pub AsDesired : Str → Type 0
  AsDesired uid =
      (s : S) × (current : List Str) × ((k.get_attributes uid s).1 ≡ ok current)
      × (sort_strings current ≡ k.desired current)

  update_if_needed-same :
      (uid : Str) (before : Condition) (current : List Str) (s : S)
      → (update_if_needed k uid before current s).1.status ≡ condition_true
      → sort_strings current ≡ k.desired current
  unfolding update_if_needed
  update_if_needed-same uid before current s h =
      elim (Bool-cases (same_strings (sort_strings current) (k.desired current))) [
        | inl f ↦ same_strings→eq (sort_strings current) (k.desired current) f
        | inr f ↦ elim (Result-cases (k.update_attributes uid (k.desired current) s).1) [
          | inl (a, g) ↦ absurd (false_is_not_true (rw (update_if_needed, f, g) at h))
          | inr (m, g) ↦ absurd (false_is_not_true (rw (update_if_needed, f, g) at h))
        ]
      ]

  check_attributes-AsDesired :
      (uid : Str) (before : Condition) (s : S)
      → (check_attributes k uid before s).1.status ≡ condition_true
      → AsDesired uid
  unfolding check_attributes
  check_attributes-AsDesired uid before s h = elim (Result-cases (k.get_attributes uid s).1) [
    | inl (current, f) ↦ (
      s,
      current,
      f,
      update_if_needed-same uid before current (k.get_attributes uid s).0
          (rw (check_attributes, f) at h),
    )
    | inr (m, f) ↦ absurd (false_is_not_true (rw (check_attributes, f) at h))
  ]

  on_settings_task-AsDesired :
      (uid : Str) (r : Result (Option Task)) (s : S)
      → (on_settings_task k uid r s).1.status ≡ condition_true
      → AsDesired uid
  unfolding on_settings_task
  on_settings_task-AsDesired uid (err e) s h = check_attributes-AsDesired uid _ s h
  on_settings_task-AsDesired uid (ok none) s h = check_attributes-AsDesired uid _ s h
  on_settings_task-AsDesired uid (ok (some t)) s h = elim (Bool-cases (is_task_pending t)) [
    | inl e ↦ absurd (false_is_not_true (rw e at h))
    | inr e ↦ check_attributes-AsDesired uid (synced_condition k) s (rw e at h)
  ]

-- If the condition for the searchable or the filterable attributes of an index that is ready is
-- true, then the service answered, in some state on the way, with attributes that are, once sorted,
-- those desired: no update was needed and none is pending.
pub sync_if-AsDesired :
    {S : Type 0} (sdk : SearchSdk S) (k : AttributeKind S) (uid : Str) (s : S)
    → (sync_if sdk true k uid s).1.status ≡ condition_true
    → AsDesired k uid
unfolding sync_if sync_attributes
sync_if-AsDesired sdk k uid s h =
    on_settings_task-AsDesired k uid (sdk.get_settings_update_task uid s).1
      (sdk.get_settings_update_task uid s).0 h

or_true : (a b : Bool) → b ≡ true → (a || b) ≡ true
or_true true b h = refl
or_true false b h = h

desired-has :
    (current : List Str)
    → sort_strings current
      ≡ sort_strings (merge_filterable_attributes current base_filterable_attributes)
    → (x : Str) → has_str x base_filterable_attributes ≡ true
    → has_str x current ≡ true
desired-has current e x b =
    sym (sort_strings-has x current)
    ∙ ap (has_str x) e
    ∙ sort_strings-has x (merge_filterable_attributes current base_filterable_attributes)
    ∙ (merge_filterable_attributes-union current base_filterable_attributes x).1
    ∙ or_true (has_str x current) (has_str x base_filterable_attributes) b

-- If the condition for the filterable attributes of an index that is ready is true, then the
-- service answered, in some state on the way, with attributes that hold the two for the tenant and
-- each other of the baseline.
pub sync_if-has_baseline :
    {S : Type 0} (sdk : SearchSdk S) (uid : Str) (s : S)
    → (sync_if sdk true (filterable_kind sdk) uid s).1.status ≡ condition_true
    → (t : S) × (current : List Str) × ((sdk.get_filterable_attributes uid t).1 ≡ ok current)
      × All (λ x. has_str x current ≡ true) base_filterable_attributes
unfolding filterable_kind has_str str_eq
sync_if-has_baseline sdk uid s h =
    let (t, current, answer, e) = sync_if-AsDesired sdk (filterable_kind sdk) uid s h in
    let has = desired-has current e in
    (
      t,
      current,
      answer,
      (
        has (lit "uid") refl,
        (
          has (lit "metadata.name") refl,
          (
            has (lit "metadata.namespace") refl,
            (has (lit "_tenant") refl, (has (lit "_tenant_type") refl, tt)),
          ),
        ),
      ),
    )
