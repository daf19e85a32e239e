-- ===== src/Consumer/Decisions.antt =====
-- What every submission of internal/indexer/consumer.go looks like, whatever the event.
use search.Prelude.{
  Bool-cases, is_some, All, Str, lit, str_eq, str_eq_refl, eq→str_eq, ◌≡◌, refl, subst, ◌∙◌, ◌≢◌,
  ◌⊎◌, inl, inr, Bool, true, false, ◌&&◌, ◌||◌, not, Option, none, some, List, [], ◌∷◌, arith,
}
use search.Api.{Json, str, obj, Fields, get, get-put, CachedPolicy, ObjectApi}
use search.Batcher.{UpsertOp, DeleteOp}
use search.Evaluation.{EvalResult, evaluate, or_platform, transform}
use search.Evaluation.Overlay.{transform_stamps}
use search.Consumer.{
  AuditEvent, tenant_type_platform, Decision, acks, submits, extract_tenant, resolve_uid,
  ensure_uid, targets_resource, deleted_resource_type, collect_deletes, submit_or_ack,
  handle_delete, document, collect_upserts, collect_unmatched, is_upsert_verb, handle_upsert,
  handle_response, handle_message,
}

abbrev pub OnSubmit : (List UpsertOp → List DeleteOp → Type 0) → Decision → Type 0
OnSubmit P acks = Unit
OnSubmit P (submits us ds) = P us ds

-- The document carries the tenant of the event and has a "uid".
abbrev pub IsStamped : Str → Str → Json → Type 0
IsStamped tenant tenant_type (obj doc) =
    (get (lit "_tenant") doc ≡ some (str (or_platform tenant)))
    × (get (lit "_tenant_type") doc ≡ some (str (or_platform tenant_type)))
    × (is_some (get (lit "uid") doc) ≡ true)
IsStamped tenant tenant_type _ = ⊥

abbrev pub GoodUpsert : Str × Str → UpsertOp → Type 0
GoodUpsert (tenant, tenant_type) op = (op.index_uid ≢ []) × IsStamped tenant tenant_type op.doc

abbrev pub GoodDelete : Str → DeleteOp → Type 0
GoodDelete uid op = (op.index_uid ≢ []) × (op.doc_id ≡ uid) × (op.doc_id ≢ [])

-- At least one operation, and each for an index that exists and a known document.
pub record IsGood (tenant : Str × Str) (uid : Str) (us : List UpsertOp) (ds : List DeleteOp)
    : Type 0 where
  pub some_operation : (us ≢ []) ⊎ (ds ≢ [])
  pub good_upserts : All (GoodUpsert tenant) us
  pub good_deletes : All (GoodDelete uid) ds

ensure_uid-keeps :
    (k : Str) (doc : Fields) (uid : Str)
    → str_eq (lit "uid") k ≡ false
    → get k (ensure_uid doc uid) ≡ get k doc
unfolding ensure_uid
ensure_uid-keeps k doc uid h = elim (Bool-cases (is_some (get (lit "uid") doc))) [
  | inl e ↦ rw e refl
  | inr e ↦ rw (e, get-put, h) refl
]

ensure_uid_lem : (doc : Fields) (uid : Str) → is_some (get (lit "uid") (ensure_uid doc uid)) ≡ true
unfolding ensure_uid
ensure_uid_lem doc uid = elim (Bool-cases (is_some (get (lit "uid") doc))) [
  | inl e ↦ rw (e, e) refl
  | inr e ↦ rw (e, get-put, str_eq_refl (lit "uid")) refl
]

document-IsStamped :
    (r : EvalResult) (tenant tenant_type uid : Str)
    → IsStamped tenant tenant_type (obj (document r tenant tenant_type uid))
unfolding document str_eq
document-IsStamped r tenant tenant_type uid =
    let r' : EvalResult = record r { tenant = tenant; tenant_type = tenant_type } in
    let (_, _, t, y) = transform_stamps r' in
    (
      ensure_uid-keeps (lit "_tenant") (transform r') uid refl ∙ t,
      ensure_uid-keeps (lit "_tenant_type") (transform r') uid refl ∙ y,
      ensure_uid_lem (transform r') uid,
    )

not_empty : (s : Str) → str_eq s [] ≡ false → s ≢ []
not_empty s h e = cc (eq→str_eq s [] e)

module _ (api : ObjectApi) (verb uid tenant tenant_type : Str) (o : Fields) where
  collect_upserts-good :
      (cps : List CachedPolicy)
      → All
          (GoodUpsert (tenant, tenant_type))
          (collect_upserts api verb uid tenant tenant_type o cps)
  unfolding collect_upserts
  collect_upserts-good [] = tt
  collect_upserts-good (cp ∷ cps) =
      let ih = collect_upserts-good cps in
      elim (Bool-cases
        ((evaluate api cp o).matched && not (str_eq cp.policy.status.index_name []))) [
          | inr e ↦ rw e ih
          | inl e ↦ rw e (
            (
              not_empty cp.policy.status.index_name (ground arith),
              document-IsStamped (evaluate api cp o) tenant tenant_type uid,
            ),
            ih,
          )
        ]

  collect_unmatched-good :
      (cps : List CachedPolicy)
      → uid ≢ []
      → All (GoodDelete uid) (collect_unmatched api verb uid tenant tenant_type o cps)
  unfolding collect_unmatched
  collect_unmatched-good [] n = tt
  collect_unmatched-good (cp ∷ cps) n =
      let ih = collect_unmatched-good cps n in
      elim (Bool-cases (
        not (evaluate api cp o).matched
        && ((str_eq verb (lit "update") || str_eq verb (lit "patch"))
            && (targets_resource cp (api.gvk o).group (api.gvk o).kind
                && not (str_eq cp.policy.status.index_name []))))) [
                  | inr e ↦ rw e ih
                  | inl e ↦
                      rw e ((not_empty cp.policy.status.index_name (ground arith), refl, n), ih)
                ]

collect_deletes-good :
    (group kind uid : Str) (cps : List CachedPolicy)
    → uid ≢ []
    → All (GoodDelete uid) (collect_deletes group kind uid cps)
unfolding collect_deletes
collect_deletes-good group kind uid [] n = tt
collect_deletes-good group kind uid (cp ∷ cps) n =
    let ih = collect_deletes-good group kind uid cps n in
    elim (Bool-cases (str_eq cp.policy.status.index_name [])) [
      | inl e ↦ rw e ih
      | inr e ↦ elim (Bool-cases (targets_resource cp group kind)) [
        | inl f ↦ rw (e, f) ((not_empty cp.policy.status.index_name e, refl, n), ih)
        | inr f ↦ rw (e, f) ih
      ]
    ]

submit_or_ack-IsGood :
    (tenant : Str × Str) (uid : Str) (us : List UpsertOp) (ds : List DeleteOp)
    → All (GoodUpsert tenant) us
    → All (GoodDelete uid) ds
    → OnSubmit (IsGood tenant uid) (submit_or_ack us ds)
submit_or_ack-IsGood tenant uid [] [] a b = tt
submit_or_ack-IsGood tenant uid [] (d ∷ ds) a b = record {
  some_operation = inr (λ e. cc e);
  good_upserts = a;
  good_deletes = b;
}
submit_or_ack-IsGood tenant uid (u ∷ us) ds a b = record {
  some_operation = inl (λ e. cc e);
  good_upserts = a;
  good_deletes = b;
}

module _ (api : ObjectApi) (title : Str → Str) where
  handle_delete-IsGood :
      (tenant : Str × Str) (policies : List CachedPolicy) (event : AuditEvent)
      → OnSubmit (IsGood tenant (resolve_uid api event)) (handle_delete api policies event)
  unfolding handle_delete
  handle_delete-IsGood tenant policies event =
      elim (Bool-cases (str_eq (resolve_uid api event) [])) [
        | inl e ↦ rw e tt
        | inr e ↦
            let uid = resolve_uid api event in
            let (group, kind) = deleted_resource_type api event in
            rw e (
              submit_or_ack-IsGood tenant uid [] _ tt
                (collect_deletes-good group kind uid policies (not_empty uid e)))
      ]

  handle_upsert-IsGood :
      (multi : Bool) (policies : List CachedPolicy) (event : AuditEvent) (o : Fields)
      → OnSubmit
          (IsGood (extract_tenant title event) (resolve_uid api event))
          (handle_upsert api title multi policies event o)
  unfolding handle_upsert
  handle_upsert-IsGood multi policies event o =
      let uid = resolve_uid api event in
      let (tenant, tenant_type) = extract_tenant title event in
      elim (Bool-cases (str_eq uid [])) [
        | inl e ↦ rw e tt
        | inr e ↦ elim (Bool-cases (not multi && not (str_eq tenant_type tenant_type_platform))) [
          | inl f ↦ rw (e, f) tt
          | inr f ↦
              rw (e, f)
                (submit_or_ack-IsGood (tenant, tenant_type) uid _ _
                  (collect_upserts-good api event.verb uid tenant tenant_type o policies)
                  (collect_unmatched-good api event.verb uid tenant tenant_type o policies
                    (not_empty uid e)))
        ]
      ]

  handle_response-IsGood :
      (multi : Bool) (policies : List CachedPolicy) (event : AuditEvent) (r : Option Fields)
      → OnSubmit
          (IsGood (extract_tenant title event) (resolve_uid api event))
          (handle_response api title multi policies event r)
  unfolding handle_response
  handle_response-IsGood multi policies event none = tt
  handle_response-IsGood multi policies event (some o) =
      elim (Bool-cases (is_upsert_verb event.verb)) [
        | inr e ↦ rw e tt
        | inl e ↦ elim (Bool-cases (api.is_terminating o)) [
          | inl f ↦ rw (e, f) (handle_delete-IsGood (extract_tenant title event) policies event)
          | inr f ↦ rw (e, f) (handle_upsert-IsGood multi policies event o)
        ]
      ]

  handle_message-IsGood :
      (multi : Bool) (policies : List CachedPolicy) (event : AuditEvent)
      → OnSubmit
          (IsGood (extract_tenant title event) (resolve_uid api event))
          (handle_message api title multi policies (some event))
  unfolding handle_message
  handle_message-IsGood multi policies event =
      elim (Bool-cases (str_eq event.verb (lit "delete"))) [
        | inl e ↦ rw e (handle_delete-IsGood (extract_tenant title event) policies event)
        | inr e ↦ rw e (handle_response-IsGood multi policies event event.response_object)
      ]

  -- Whatever the event and the policies, what is submitted has at least one operation, so that the
  -- batcher tracks the message; every upsert goes to an index that has a name, with a document that
  -- carries the event's tenant and a "uid"; and every delete goes to such an index, for the
  -- resolved UID, which is not empty.
  pub handle_message-submits-IsGood :
      (multi : Bool) (policies : List CachedPolicy) (event : AuditEvent) (us : List UpsertOp)
      (ds : List DeleteOp)
      → handle_message api title multi policies (some event) ≡ submits us ds
      → IsGood (extract_tenant title event) (resolve_uid api event) us ds
  handle_message-submits-IsGood multi policies event us ds h =
      subst (OnSubmit (IsGood (extract_tenant title event) (resolve_uid api event))) h
        (handle_message-IsGood multi policies event)
