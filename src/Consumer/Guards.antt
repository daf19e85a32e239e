-- ===== src/Consumer/Guards.antt =====
-- Which events internal/indexer/consumer.go indexes anything for.
use search.Prelude.{
  Bool-cases, Str, lit, str_eq, str_eq→eq, ◌≡◌, refl, subst, ◌≢◌, ◌⊎◌, inl, inr, Bool, true, false,
  ◌&&◌, not, Option, none, some, List, [], ◌∷◌, arith,
}
use search.Api.{Fields, CachedPolicy, ObjectApi}
use search.Batcher.{UpsertOp, DeleteOp}
use search.Consumer.{
  AuditEvent, tenant_type_platform, Decision, submits, extract_tenant, resolve_uid, submit_or_ack,
  handle_delete, is_upsert_verb, handle_upsert, handle_response, handle_message,
}
use search.Consumer.Decisions.{OnSubmit}

-- A create, update or patch of an object that is not terminating, and, with a single tenant, of the
-- platform.
pub record MayIndex (api : ObjectApi) (title : Str → Str) (multi : Bool) (event : AuditEvent)
    : Type 0 where
  pub object : Fields
  pub responded : event.response_object ≡ some object
  pub written : is_upsert_verb event.verb ≡ true
  pub living : api.is_terminating object ≡ false
  pub own_tenant : (multi ≡ true) ⊎ ((extract_tenant title event).1 ≡ tenant_type_platform)

own :
    (multi : Bool) (t : Str)
    → (not multi && not (str_eq t tenant_type_platform)) ≡ false
    → (multi ≡ true) ⊎ (t ≡ tenant_type_platform)
own true t h = inl refl
own false t h = inr (str_eq→eq t tenant_type_platform (ground arith))

abbrev Guarded : Type 0 → Decision → Type 0
Guarded P = OnSubmit (λ us ds. us ≢ [] → P)

submit_or_ack-deletes : (P : Type 0) (ds : List DeleteOp) → Guarded P (submit_or_ack [] ds)
submit_or_ack-deletes P [] = tt
submit_or_ack-deletes P (d ∷ ds) = λ n. absurd (n refl)

submit_or_ack-Guarded :
    (P : Type 0) (us : List UpsertOp) (ds : List DeleteOp) → P → Guarded P (submit_or_ack us ds)
submit_or_ack-Guarded P [] [] h = tt
submit_or_ack-Guarded P (u ∷ us) ds h = λ n. h
submit_or_ack-Guarded P [] (d ∷ ds) h = λ n. h

module _ (api : ObjectApi) (title : Str → Str) where
  handle_delete-Guarded :
      (P : Type 0) (policies : List CachedPolicy) (event : AuditEvent)
      → Guarded P (handle_delete api policies event)
  unfolding handle_delete
  handle_delete-Guarded P policies event = elim (Bool-cases (str_eq (resolve_uid api event) [])) [
    | inl e ↦ rw e tt
    | inr e ↦ rw e (submit_or_ack-deletes P _)
  ]

  handle_upsert-Guarded :
      (multi : Bool) (policies : List CachedPolicy) (event : AuditEvent) (o : Fields)
      → event.response_object ≡ some o
      → is_upsert_verb event.verb ≡ true
      → api.is_terminating o ≡ false
      → Guarded (MayIndex api title multi event) (handle_upsert api title multi policies event o)
  unfolding handle_upsert
  handle_upsert-Guarded multi policies event o r w l =
      elim (Bool-cases (str_eq (resolve_uid api event) [])) [
        | inl e ↦ rw e tt
        | inr e ↦
            elim (Bool-cases
              (not multi && not (str_eq (extract_tenant title event).1 tenant_type_platform))) [
                | inl f ↦ rw (e, f) tt
                | inr f ↦
                    rw (e, f)
                      (submit_or_ack-Guarded (MayIndex api title multi event) _ _ (record {
                        object = o;
                        responded = r;
                        written = w;
                        living = l;
                        own_tenant = own multi (extract_tenant title event).1 f;
                      }))
              ]
      ]

  handle_response-Guarded :
      (multi : Bool) (policies : List CachedPolicy) (event : AuditEvent) (r : Option Fields)
      → event.response_object ≡ r
      → Guarded (MayIndex api title multi event) (handle_response api title multi policies event r)
  unfolding handle_response
  handle_response-Guarded multi policies event none h = tt
  handle_response-Guarded multi policies event (some o) h =
      elim (Bool-cases (is_upsert_verb event.verb)) [
        | inr e ↦ rw e tt
        | inl e ↦ elim (Bool-cases (api.is_terminating o)) [
          | inl f ↦
              rw (e, f) (handle_delete-Guarded (MayIndex api title multi event) policies event)
          | inr f ↦ rw (e, f) (handle_upsert-Guarded multi policies event o h e f)
        ]
      ]

  handle_message-Guarded :
      (multi : Bool) (policies : List CachedPolicy) (event : AuditEvent)
      → Guarded
          (MayIndex api title multi event)
          (handle_message api title multi policies (some event))
  unfolding handle_message
  handle_message-Guarded multi policies event =
      elim (Bool-cases (str_eq event.verb (lit "delete"))) [
        | inl e ↦ rw e (handle_delete-Guarded (MayIndex api title multi event) policies event)
        | inr e ↦ rw e (handle_response-Guarded multi policies event event.response_object refl)
      ]

  -- If the handler submits a document, the event is a create, update or patch of an object that is
  -- not being deleted, and in single-tenant mode it is the platform's own.
  pub handle_message-writes_only :
      (multi : Bool) (policies : List CachedPolicy) (event : AuditEvent) (us : List UpsertOp)
      (ds : List DeleteOp)
      → handle_message api title multi policies (some event) ≡ submits us ds
      → us ≢ []
      → MayIndex api title multi event
  handle_message-writes_only multi policies event us ds h n =
      subst (Guarded (MayIndex api title multi event)) h
        (handle_message-Guarded multi policies event) n
