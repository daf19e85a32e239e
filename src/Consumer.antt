-- ===== src/Consumer.antt =====
-- internal/indexer/consumer.go and helper.go: what the indexer does with an audit event.
pub mod Decisions
pub mod Guards
pub mod Indexing
use search.Prelude.{
  if◌then◌else◌, or_else, is_some, is_empty, Str, lit, str_eq, Dict, lookup, Bool, ◌&&◌, ◌||◌, not,
  Option, none, some, List, [], ◌∷◌,
}
use search.Api.{str, obj, Fields, get, put, as_obj, as_str, TargetResource, CachedPolicy, ObjectApi}
use search.Batcher.{UpsertOp, DeleteOp}
use search.Evaluation.{EvalResult, evaluate, api_version, transform}

pub record ObjectRef : Type 0 where
  pub api_group : Str
  pub api_version : Str
  pub resource : Str
  pub name : Str
  pub namespace : Str
  pub uid : Str

-- `auditEvent`, less the user, which nothing reads. A missing map is the empty one, and a missing
-- response object is `none`.
pub record AuditEvent : Type 0 where
  pub audit_id : Str
  pub verb : Str
  pub annotations : Dict Str
  pub object_ref : ObjectRef
  pub response_object : Option Fields

abbrev pub tenant_type_platform : Str
tenant_type_platform = lit "platform"

abbrev pub scope_type_annotation_key : Str
scope_type_annotation_key = lit "platform.miloapis.com/scope.type"

abbrev pub scope_name_annotation_key : Str
scope_name_annotation_key = lit "platform.miloapis.com/scope.name"

-- `v, ok := m[k]; ok && v != ""`
abbrev pub non_empty : Option Str → Option Str
non_empty none = none
non_empty (some []) = none
non_empty (some (c ∷ s)) = some (c ∷ s)

-- What the handler does with a message.
pub data Decision : Type 0 where
  acks : Decision
  submits : List UpsertOp → List DeleteOp → Decision

-- `Title` is the title-casing of golang.org/x/text.
unfoldable pub normalize_type : (Str → Str) → Option Str → Str
normalize_type title none = tenant_type_platform
normalize_type title (some v) = if not (str_eq v tenant_type_platform) then title v else v

-- The tenant's name, and its type.
unfoldable pub extract_tenant : (Str → Str) → AuditEvent → Str × Str
unfolding normalize_type lookup
extract_tenant title event = (
  or_else (non_empty (lookup scope_name_annotation_key event.annotations)) tenant_type_platform,
  normalize_type title (non_empty (lookup scope_type_annotation_key event.annotations)),
)

-- The UID in the details of a Status object.
unfoldable pub details_uid : Option Fields → Str
unfolding get
details_uid none = []
details_uid (some details) = or_else (as_str (get (lit "uid") details)) []

abbrev pub first_non_empty : Str → Str → Str
first_non_empty [] t = t
first_non_empty (c ∷ s) t = c ∷ s

unfoldable pub response_uid : ObjectApi → Option Fields → Str
response_uid api none = []
response_uid api (some o) = api.uid o

unfoldable pub response_details : Option Fields → Option Fields
unfolding get
response_details none = none
response_details (some o) = as_obj (get (lit "details") o)

unfoldable pub resolve_uid : ObjectApi → AuditEvent → Str
unfolding response_uid details_uid response_details
resolve_uid api event =
    first_non_empty (response_uid api event.response_object)
      (first_non_empty event.object_ref.uid (details_uid (response_details event.response_object)))

unfoldable pub ensure_uid : Fields → Str → Fields
unfolding get put
ensure_uid doc uid = if is_some (get (lit "uid") doc) then doc else put (lit "uid") (str uid) doc

unfoldable pub targets_resource : CachedPolicy → Str → Str → Bool
targets_resource cp group kind =
    let target = cp.policy.spec.target_resource in
    str_eq target.group group && (str_eq kind [] || str_eq target.kind kind)

-- The group and kind of a response object that is the resource itself.
unfoldable pub own_type : TargetResource → Option (Str × Str)
own_type gvk =
    if not (str_eq gvk.kind []) && not (str_eq gvk.kind (lit "Status"))
    then some (gvk.group, gvk.kind)
    else none

unfoldable pub response_type : ObjectApi → Option Fields → Option (Str × Str)
unfolding own_type
response_type api none = none
response_type api (some o) = own_type (api.gvk o)

unfoldable pub deleted_resource_type : ObjectApi → AuditEvent → Str × Str
unfolding response_type
deleted_resource_type api event =
    or_else (response_type api event.response_object) (event.object_ref.api_group, [])

unfoldable pub collect_deletes : Str → Str → Str → List CachedPolicy → List DeleteOp
unfolding targets_resource
collect_deletes group kind doc_id [] = []
collect_deletes group kind doc_id (cp ∷ cps) =
    let rest = collect_deletes group kind doc_id cps in
    if str_eq cp.policy.status.index_name []
    then rest
    else if not (targets_resource cp group kind)
    then rest
    else record { index_uid = cp.policy.status.index_name; doc_id = doc_id } ∷ rest

abbrev pub submit_or_ack : List UpsertOp → List DeleteOp → Decision
submit_or_ack us ds = if is_empty us && is_empty ds then acks else submits us ds

unfoldable pub handle_delete : ObjectApi → List CachedPolicy → AuditEvent → Decision
unfolding resolve_uid deleted_resource_type collect_deletes
handle_delete api policies event =
    let doc_id = resolve_uid api event in
    let (group, kind) = deleted_resource_type api event in
    if str_eq doc_id [] then acks else submit_or_ack [] (collect_deletes group kind doc_id policies)

-- The document that is indexed for a match.
unfoldable pub document : EvalResult → Str → Str → Str → Fields
unfolding transform ensure_uid
document r tenant tenant_type uid =
    ensure_uid (transform (record r { tenant = tenant; tenant_type = tenant_type })) uid

-- The loop over the policies, with the operations that are collected.
module _ (api : ObjectApi) (verb uid tenant tenant_type : Str) (o : Fields) where
  unfoldable pub collect_upserts : List CachedPolicy → List UpsertOp
  unfolding evaluate document
  collect_upserts [] = []
  collect_upserts (cp ∷ cps) =
      let rest = collect_upserts cps in
      if (evaluate api cp o).matched && not (str_eq cp.policy.status.index_name [])
      then record {
        index_uid = cp.policy.status.index_name;
        doc = obj (document (evaluate api cp o) tenant tenant_type uid);
      }
        ∷ rest
      else rest

  unfoldable pub collect_unmatched : List CachedPolicy → List DeleteOp
  unfolding evaluate targets_resource
  collect_unmatched [] = []
  collect_unmatched (cp ∷ cps) =
      let rest = collect_unmatched cps in
      if not (evaluate api cp o).matched
        && ((str_eq verb (lit "update") || str_eq verb (lit "patch"))
            && (targets_resource cp (api.gvk o).group (api.gvk o).kind
                && not (str_eq cp.policy.status.index_name [])))
      then record { index_uid = cp.policy.status.index_name; doc_id = uid } ∷ rest
      else rest

unfoldable pub is_upsert_verb : Str → Bool
is_upsert_verb verb =
    str_eq verb (lit "create") || (str_eq verb (lit "update") || str_eq verb (lit "patch"))

unfoldable pub handle_upsert :
    ObjectApi → (Str → Str) → Bool → List CachedPolicy → AuditEvent → Fields → Decision
unfolding resolve_uid extract_tenant collect_upserts collect_unmatched
handle_upsert api title multi_tenant policies event o =
    let uid = resolve_uid api event in
    let (tenant, tenant_type) = extract_tenant title event in
    if str_eq uid []
    then acks
    else if not multi_tenant && not (str_eq tenant_type tenant_type_platform)
    then acks
    else submit_or_ack (collect_upserts api event.verb uid tenant tenant_type o policies)
        (collect_unmatched api event.verb uid tenant tenant_type o policies)

-- The rest of the callback of `Start`, for an event that is not a deletion.
unfoldable pub handle_response :
    ObjectApi → (Str → Str) → Bool → List CachedPolicy → AuditEvent → Option Fields → Decision
unfolding handle_delete handle_upsert is_upsert_verb
handle_response api title multi_tenant policies event none = acks
handle_response api title multi_tenant policies event (some o) =
    if not (is_upsert_verb event.verb)
    then acks
    else if api.is_terminating o
    then handle_delete api policies event
    else handle_upsert api title multi_tenant policies event o

-- The callback of `Start`; `none` is a message that does not unmarshal.
unfoldable pub handle_message :
    ObjectApi → (Str → Str) → Bool → List CachedPolicy → Option AuditEvent → Decision
unfolding handle_delete handle_response
handle_message api title multi_tenant policies none = acks
handle_message api title multi_tenant policies (some event) =
    if str_eq event.verb (lit "delete")
    then handle_delete api policies event
    else handle_response api title multi_tenant policies event event.response_object
