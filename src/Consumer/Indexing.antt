-- ===== src/Consumer/Indexing.antt =====
-- Which events internal/indexer/consumer.go is sure to carry to the index.
use search.Prelude.{
  Bool-cases, Elem, Str, lit, str_eq, str_eq→eq, eq→str_eq, str_eq_iff, ◌≡◌, refl, sym, subst, ◌≢◌,
  ◌⊎◌, inl, inr, Bool, true, false, ◌&&◌, not, some, List, [], ◌∷◌, arith,
}
use search.Api.{obj, Fields, CachedPolicy, ObjectApi}
use search.Batcher.{UpsertOp, DeleteOp}
use search.Evaluation.{EvalResult, evaluate}
use search.Consumer.{
  AuditEvent, tenant_type_platform, Decision, submits, extract_tenant, resolve_uid,
  targets_resource, deleted_resource_type, collect_deletes, submit_or_ack, handle_delete, document,
  collect_upserts, collect_unmatched, is_upsert_verb, handle_upsert, handle_response,
  handle_message,
}

-- The handler submits operations that have the property.
abbrev pub Submits : (List UpsertOp → List DeleteOp → Type 0) → Decision → Type 0
Submits P d = (us : List UpsertOp) × (ds : List DeleteOp) × (d ≡ submits us ds) × P us ds

-- The upsert of a match into the policy's index.
abbrev pub upsert_for : CachedPolicy → EvalResult → Str × Str → Str → UpsertOp
upsert_for cp r (tenant, tenant_type) uid = record {
  index_uid = cp.policy.status.index_name;
  doc = obj (document r tenant tenant_type uid);
}

filled : (s : Str) → s ≢ [] → str_eq s [] ≡ false
filled s n = ground (arith, str_eq_iff s [])

own_gate :
    (multi : Bool) (t : Str)
    → (multi ≡ true) ⊎ (t ≡ tenant_type_platform)
    → (not multi && not (str_eq t tenant_type_platform)) ≡ false
own_gate multi t (inl e) = rw e refl
own_gate multi t (inr e) = ground (arith, eq→str_eq t tenant_type_platform e)

is_verb :
    (verb w : Str)
    → str_eq w (lit "delete") ≡ false
    → str_eq verb w ≡ true
    → str_eq verb (lit "delete") ≡ false
is_verb verb w n h = subst (λ s. str_eq s (lit "delete") ≡ false) (sym (str_eq→eq verb w h)) n

not_delete : (verb : Str) → is_upsert_verb verb ≡ true → str_eq verb (lit "delete") ≡ false
unfolding is_upsert_verb str_eq
not_delete verb h = ground (
  arith,
  is_verb verb (lit "create") refl,
  is_verb verb (lit "update") refl,
  is_verb verb (lit "patch") refl,
)

submit_or_ack-upserts :
    (op : UpsertOp) (us : List UpsertOp) (ds : List DeleteOp)
    → Elem op us
    → submit_or_ack us ds ≡ submits us ds
submit_or_ack-upserts op [] ds i = absurd i
submit_or_ack-upserts op (u ∷ us) ds i = refl

submit_or_ack-deletes_given :
    (op : DeleteOp) (ds : List DeleteOp) → Elem op ds → submit_or_ack [] ds ≡ submits [] ds
submit_or_ack-deletes_given op [] i = absurd i
submit_or_ack-deletes_given op (d ∷ ds) i = refl

module _ (api : ObjectApi) (verb uid tenant tenant_type : Str) (o : Fields) where
  collect_upserts-Elem :
      (cp : CachedPolicy) (policies : List CachedPolicy)
      → Elem cp policies
      → (evaluate api cp o).matched ≡ true
      → cp.policy.status.index_name ≢ []
      → Elem
          (record {
            index_uid = cp.policy.status.index_name;
            doc = obj (document (evaluate api cp o) tenant tenant_type uid);
          })
          (collect_upserts api verb uid tenant tenant_type o policies)
  unfolding collect_upserts
  collect_upserts-Elem cp [] i m n = absurd i
  collect_upserts-Elem cp (c ∷ cps) (inl e) m n =
      rw (e, m, filled cp.policy.status.index_name n) (inl refl)
  collect_upserts-Elem cp (c ∷ cps) (inr i) m n =
      elim (Bool-cases ((evaluate api c o).matched && not (str_eq c.policy.status.index_name []))) [
        | inl e ↦ rw e (inr (collect_upserts-Elem cp cps i m n))
        | inr e ↦ rw e (collect_upserts-Elem cp cps i m n)
      ]

collect_deletes-Elem :
    (group kind doc_id : Str) (cp : CachedPolicy) (policies : List CachedPolicy)
    → Elem cp policies
    → targets_resource cp group kind ≡ true
    → cp.policy.status.index_name ≢ []
    → Elem
        (record { index_uid = cp.policy.status.index_name; doc_id = doc_id })
        (collect_deletes group kind doc_id policies)
unfolding collect_deletes
collect_deletes-Elem group kind doc_id cp [] i m n = absurd i
collect_deletes-Elem group kind doc_id cp (c ∷ cps) (inl e) m n =
    rw (e, filled cp.policy.status.index_name n, m) (inl refl)
collect_deletes-Elem group kind doc_id cp (c ∷ cps) (inr i) m n =
    elim (Bool-cases (str_eq c.policy.status.index_name [])) [
      | inl e ↦ rw e (collect_deletes-Elem group kind doc_id cp cps i m n)
      | inr e ↦ elim (Bool-cases (targets_resource c group kind)) [
        | inl f ↦ rw (e, f) (inr (collect_deletes-Elem group kind doc_id cp cps i m n))
        | inr f ↦ rw (e, f) (collect_deletes-Elem group kind doc_id cp cps i m n)
      ]
    ]

module _ (api : ObjectApi) (title : Str → Str) where
  handle_upsert-Submits :
      (multi : Bool) (policies : List CachedPolicy) (event : AuditEvent) (o : Fields)
      (cp : CachedPolicy)
      → resolve_uid api event ≢ []
      → (multi ≡ true) ⊎ ((extract_tenant title event).1 ≡ tenant_type_platform)
      → Elem cp policies
      → (evaluate api cp o).matched ≡ true
      → cp.policy.status.index_name ≢ []
      → Submits
          (λ us ds.
            Elem
              (upsert_for cp
                (evaluate api cp o)
                (extract_tenant title event)
                (resolve_uid api event))
              us)
          (handle_upsert api title multi policies event o)
  unfolding handle_upsert
  handle_upsert-Submits multi policies event o cp u t i m n =
      let (tenant, tenant_type) = extract_tenant title event in
      let us =
        collect_upserts api event.verb (resolve_uid api event) tenant tenant_type o policies in
      let ds =
        collect_unmatched api event.verb (resolve_uid api event) tenant tenant_type o policies in
      let there =
        collect_upserts-Elem api event.verb (resolve_uid api event) tenant tenant_type o cp policies
          i m n in
      (
        us,
        ds,
        rw (filled (resolve_uid api event) u, own_gate multi tenant_type t)
            (submit_or_ack-upserts _ us ds there),
        there,
      )

  -- A create, update or patch of a living object, which has a UID and, with a single tenant, is the
  -- platform's own, is submitted to the index of every cached policy that it matches.
  pub handle_message-indexes :
      (multi : Bool) (policies : List CachedPolicy) (event : AuditEvent) (o : Fields)
      (cp : CachedPolicy)
      → event.response_object ≡ some o
      → is_upsert_verb event.verb ≡ true
      → api.is_terminating o ≡ false
      → resolve_uid api event ≢ []
      → (multi ≡ true) ⊎ ((extract_tenant title event).1 ≡ tenant_type_platform)
      → Elem cp policies
      → (evaluate api cp o).matched ≡ true
      → cp.policy.status.index_name ≢ []
      → Submits
          (λ us ds.
            Elem
              (upsert_for cp
                (evaluate api cp o)
                (extract_tenant title event)
                (resolve_uid api event))
              us)
          (handle_message api title multi policies (some event))
  unfolding handle_message handle_response
  handle_message-indexes multi policies event o cp r v l u t i m n = rw (not_delete event.verb v) (
      subst
        (λ answer.
          Submits
            (λ us ds.
              Elem
                (upsert_for cp (evaluate api cp o) (extract_tenant title event)
                  (resolve_uid api event))
                us)
            (handle_response api title multi policies event answer))
        (sym r) (rw (v, l) (handle_upsert-Submits multi policies event o cp u t i m n)))

  -- A deletion with a UID deletes the document from the index of every cached policy for its type.
  pub handle_message-deletes :
      (multi : Bool) (policies : List CachedPolicy) (event : AuditEvent) (cp : CachedPolicy)
      → event.verb ≡ lit "delete"
      → resolve_uid api event ≢ []
      → Elem cp policies
      → targets_resource cp (deleted_resource_type api event).0 (deleted_resource_type api event).1
        ≡ true
      → cp.policy.status.index_name ≢ []
      → Submits
          (λ us ds.
            (us ≡ [])
            × Elem
                (record { index_uid = cp.policy.status.index_name; doc_id = resolve_uid api event })
                ds)
          (handle_message api title multi policies (some event))
  unfolding handle_message handle_delete
  handle_message-deletes multi policies event cp v u i m n =
      let (group, kind) = deleted_resource_type api event in
      let ds = collect_deletes group kind (resolve_uid api event) policies in
      let there = collect_deletes-Elem group kind (resolve_uid api event) cp policies i m n in
      (
        [],
        ds,
        rw (eq→str_eq event.verb (lit "delete") v, filled (resolve_uid api event) u)
            (submit_or_ack-deletes_given _ ds there),
        (refl, there),
      )
