-- ===== src/Controller/Reconcile/Status.antt =====
-- The status that `Reconcile` of internal/controllers/policy/policy_controller.go writes.
use search.Prelude.{
  if◌then◌else◌, Bool-cases, is_empty, Str, lit, str_eq, str_eq→eq, eq→str_eq, Result, ℕ, ◌≡◌, refl,
  sym, ap, ◌∙◌, ◌↔◌, inl, inr, Bool, true, false, ◌||◌, not, some, List, [], ◌∷◌,
}
use search.Api.{PolicySpec, condition_true, Condition, Policy}
use search.Cel.{CheckedAst}
use search.Validation.{FieldError, validate_policy}
use search.Controller.{
  ready_type, validation_type, search_index_type, searchable_type, filterable_type, reindexing_type,
  is_false_status, SearchSdk, IndexState,
}
use search.Controller.Settings.{searchable_kind, filterable_kind}
use search.Controller.Conditions.{
  PreparedConditions, validation_condition, search_index_condition, reindexing_condition, not_ready,
  ready, any_false, ready_condition, set_all, prepared_conditions,
}
use search.Controller.Conditions.Lookup.{find_condition, Sets, find-other, find-same}
use search.Controller.Reconcile.{Kube, prepare_conditions, first_status}
use search.Controller.Reconcile.Types.{sync_if-type, ensure_index-type}

-- The conditions of the first phase have their types.
pub record Typed (p : PreparedConditions) : Type 0 where
  pub of_validation : p.validation.type_name ≡ validation_type
  pub of_search_index : p.search_index.type_name ≡ search_index_type
  pub of_searchable : p.searchable.type_name ≡ searchable_type
  pub of_filterable : p.filterable.type_name ≡ filterable_type
  pub of_reindexing : p.reindexing.type_name ≡ reindexing_type

reindexing_condition-type : (b : Bool) → (reindexing_condition b).type_name ≡ reindexing_type
unfolding reindexing_condition
reindexing_condition-type true = refl
reindexing_condition-type false = refl

validation_condition-type :
    (text : List FieldError → Str) (es : List FieldError)
    → (validation_condition text es).type_name ≡ validation_type
unfolding validation_condition
validation_condition-type text [] = refl
validation_condition-type text (e ∷ es) = refl

validation_condition_iff :
    (text : List FieldError → Str) (es : List FieldError)
    → (is_false_status (validation_condition text es).status ≡ false) ↔ (es ≡ [])
unfolding validation_condition
validation_condition_iff text [] = (λ h. refl, λ h. refl)
validation_condition_iff text (e ∷ es) = (λ h. absurd (cc h), λ h. absurd (cc h))

search_index_condition-type :
    (text : List FieldError → Str) (i : IndexState)
    → i.condition.type_name ≡ search_index_type
    → (search_index_condition text i).type_name ≡ search_index_type
unfolding search_index_condition
search_index_condition-type text i e = elim (Bool-cases (is_empty i.errors)) [
  | inl f ↦ rw f e
  | inr f ↦ rw f refl
]

ready_condition-type : (p : PreparedConditions) → (ready_condition p).type_name ≡ ready_type
unfolding ready_condition
ready_condition-type p = either (any_false p)
  where
    either :
        (b : Bool)
        → (if b
            then not_ready (lit "ResourceIndexPolicy is not ready")
            else ready
                (lit "ResourceIndexPolicy is valid and indexed in the search provider")).type_name
          ≡ ready_type
    either true = refl
    either false = refl

not_inv : (b : Bool) → not b ≡ false → b ≡ true
not_inv true e = refl
not_inv false e = absurd (cc e)

ready_if_iff :
    (b : Bool) (m n : Str)
    → ((if b then not_ready m else ready n).status ≡ condition_true) ↔ (b ≡ false)
ready_if_iff true m n = (λ h. absurd (cc h), λ h. absurd (cc h))
ready_if_iff false m n = (λ h. refl, λ h. refl)

none_iff :
    (v i s f b : Bool)
    → ((v || (i || (s || (f || b)))) ≡ false)
      ↔ ((v ≡ false) × (i ≡ false) × (s ≡ false) × (f ≡ false) × (b ≡ false))
none_iff v i s f b = (forth v i s f b, λ h. rw (h.0, h.1, h.2, h.3, h.4) refl)
  where
    forth :
        (v i s f b : Bool)
        → (v || (i || (s || (f || b)))) ≡ false
        → (v ≡ false) × (i ≡ false) × (s ≡ false) × (f ≡ false) × (b ≡ false)
    forth true i s f b h = absurd (cc h)
    forth false true s f b h = absurd (cc h)
    forth false false true f b h = absurd (cc h)
    forth false false false true b h = absurd (cc h)
    forth false false false false b h = (refl, refl, refl, refl, h)

reindexing_condition-status : (b : Bool) → is_false_status (reindexing_condition b).status ≡ b
unfolding reindexing_condition
reindexing_condition-status true = refl
reindexing_condition-status false = refl

-- When the condition Ready is true, where the condition for the re-indexing is that of `b`.
ready_condition_iff :
    (p : PreparedConditions) (b : Bool)
    → p.reindexing ≡ reindexing_condition b
    → ((ready_condition p).status ≡ condition_true) ↔ (
        (is_false_status p.validation.status ≡ false)
        × (is_false_status p.search_index.status ≡ false)
        × (is_false_status p.searchable.status ≡ false)
        × (is_false_status p.filterable.status ≡ false)
        × (b ≡ false))
unfolding ready_condition any_false
ready_condition_iff p b e =
    let (forth, back) =
      ready_if_iff (any_false p) (lit "ResourceIndexPolicy is not ready")
        (lit "ResourceIndexPolicy is valid and indexed in the search provider") in
    let (split, join) =
      none_iff (is_false_status p.validation.status) (is_false_status p.search_index.status)
        (is_false_status p.searchable.status) (is_false_status p.filterable.status)
        (is_false_status p.reindexing.status) in
    let same = ap (λ (c : Condition). is_false_status c.status) e ∙ reindexing_condition-status b in
    (
      λ h. let (v, i, s, f, r) = split (forth h) in (v, i, s, f, sym same ∙ r),
      λ h. back (join (h.0, h.1, h.2, h.3, same ∙ h.4)),
    )

module _ {S : Type 0} (kube : Kube S) (sdk : SearchSdk S) (compile : Str → Result CheckedAst)
    (max_depth : ℕ) (hash : PolicySpec → Str) where
  pub prepare_conditions-Typed :
      (policy : Policy) (others : List Policy) (s : S)
      → Typed (prepare_conditions kube sdk compile max_depth hash policy others s).1
  unfolding prepare_conditions searchable_kind filterable_kind
  prepare_conditions-Typed policy others s = record {
    of_validation = validation_condition-type kube.errors_text _;
    of_search_index = search_index_condition-type kube.errors_text _ (ensure_index-type sdk _ s);
    of_searchable = sync_if-type (searchable_kind sdk policy.spec.fields) sdk _ _ _;
    of_filterable = sync_if-type (filterable_kind sdk) sdk _ _ _;
    of_reindexing = reindexing_condition-type _;
  }

  prepare_conditions-reindexing :
      (policy : Policy) (others : List Policy) (s : S)
      → (prepare_conditions kube sdk compile max_depth hash policy others s).1.reindexing
        ≡ reindexing_condition (not (str_eq (hash policy.spec) policy.status.current_generation))
  unfolding prepare_conditions
  prepare_conditions-reindexing policy others s = refl

  pub first_status-find :
      (policy : Policy) (p : PreparedConditions)
      → Sets kube.set_status_condition
      → Typed p
      → find_condition
          (first_status kube sdk compile max_depth hash policy p).status.conditions
          ready_type
        ≡ some (ready_condition p)
  unfolding first_status set_all prepared_conditions str_eq
  first_status-find policy p law typed =
      find-other kube.set_status_condition law _ p.reindexing ready_type reindexing_type
        typed.of_reindexing refl
      ∙ find-other kube.set_status_condition law _ p.filterable ready_type filterable_type
          typed.of_filterable refl
      ∙ find-other kube.set_status_condition law _ p.searchable ready_type searchable_type
          typed.of_searchable refl
      ∙ find-other kube.set_status_condition law _ p.search_index ready_type search_index_type
          typed.of_search_index refl
      ∙ find-other kube.set_status_condition law _ p.validation ready_type validation_type
          typed.of_validation refl
      ∙ find-same kube.set_status_condition law _ (ready_condition p) ready_type
          (ready_condition-type p)

  pub first_status-searchable :
      (policy : Policy) (p : PreparedConditions)
      → Sets kube.set_status_condition
      → Typed p
      → find_condition
          (first_status kube sdk compile max_depth hash policy p).status.conditions
          searchable_type
        ≡ some p.searchable
  unfolding first_status set_all prepared_conditions str_eq
  first_status-searchable policy p law typed =
      find-other kube.set_status_condition law _ p.reindexing searchable_type reindexing_type
        typed.of_reindexing refl
      ∙ find-other kube.set_status_condition law _ p.filterable searchable_type filterable_type
          typed.of_filterable refl
      ∙ find-same kube.set_status_condition law _ p.searchable searchable_type typed.of_searchable

  -- After the first phase, the status that is written has a condition Ready, and that condition is
  -- true exactly if the policy has no validation error, none of the conditions for the index, the
  -- searchable and the filterable attributes is false, and the hash of the spec is the stored one.
  -- This asks of SetStatusCondition that it sets the condition of its type and leaves those of other
  -- types.
  pub first_status-Ready :
      (policy : Policy) (others : List Policy) (s : S)
      → Sets kube.set_status_condition
      → (c : Condition) × (find_condition
            (first_status kube sdk compile max_depth hash policy
              (prepare_conditions kube sdk compile max_depth hash policy others
                s).1).status.conditions
            ready_type
          ≡ some c)
        × ((c.status ≡ condition_true) ↔ (
            (validate_policy compile max_depth policy others ≡ [])
            × (is_false_status
                  (prepare_conditions kube sdk compile max_depth hash policy others
                    s).1.search_index.status
                ≡ false)
            × (is_false_status
                  (prepare_conditions kube sdk compile max_depth hash policy others
                    s).1.searchable.status
                ≡ false)
            × (is_false_status
                  (prepare_conditions kube sdk compile max_depth hash policy others
                    s).1.filterable.status
                ≡ false)
            × (hash policy.spec ≡ policy.status.current_generation)))
  unfolding prepare_conditions
  first_status-Ready policy others s law =
      let valid =
        validation_condition_iff kube.errors_text
          (validate_policy compile max_depth policy others) in
      let p = (prepare_conditions kube sdk compile max_depth hash policy others s).1 in
      let (forth, back) =
        ready_condition_iff p (not (str_eq (hash policy.spec) policy.status.current_generation))
          (prepare_conditions-reindexing policy others s) in
      (
        ready_condition p,
        first_status-find policy p law (prepare_conditions-Typed policy others s),
        (
          λ h. let (a, b, c, d, e) = forth h in (valid.0 a, b, c, d, str_eq→eq _ _ (not_inv _ e)),
          λ h. back (valid.1 h.0, h.1, h.2, h.3, rw (eq→str_eq _ _ h.4) refl),
        ),
      )
