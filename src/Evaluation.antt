-- ===== src/Evaluation.antt =====
-- internal/policy/evaluation/evaluator.go: whether a resource matches a policy, and the document
-- that is indexed for it.
pub mod Matching
pub mod Redaction
pub mod Overlay
use search.Prelude.{
  if◌then◌else◌, is_empty, Str, lit, str_eq, Dict, Bool, true, false, ◌&&◌, ◌||◌, Option, none,
  some, [], ◌∷◌, ◌++◌,
}
use search.Api.{
  Json, bool, str, obj, Fields, no_fields, get, put, remove, has_no_fields, as_obj, Program,
  CachedPolicy, ObjectApi, same_target,
}

-- A `nil` object is the object without fields: the copy of either is empty.
pub record EvalResult : Type 0 where
  pub matched : Bool
  pub object : Fields
  pub group : Str
  pub version : Str
  pub kind : Str
  pub tenant : Str
  pub tenant_type : Str

-- `if val, ok := u.Object[k]; ok { activation[k] = val }`
unfoldable pub copy_field : Str → Fields → Fields → Fields
unfolding get put
copy_field k from to = elim (get k from) [ none ↦ to | some v ↦ put k v to ]

unfoldable pub activation : Fields → Fields
unfolding copy_field
activation u =
    copy_field (lit "status") u
      (copy_field (lit "spec") u (copy_field (lit "metadata") u no_fields))

-- `out.Value().(bool)` of an evaluation that gave a value.
abbrev pub is_true : Option Json → Bool
is_true (some (bool b)) = b
is_true _ = false

-- The loop over the conditions, which stops at the first that holds; a condition that fails to
-- evaluate is passed over.
unfoldable pub any_condition : Dict Program → Fields → Bool
any_condition [] act = false
any_condition ((name, prg) ∷ cs) act = if is_true (prg act) then true else any_condition cs act

unfoldable pub evaluate : ObjectApi → CachedPolicy → Fields → EvalResult
unfolding any_condition activation
evaluate api cp u =
    let target = cp.policy.spec.target_resource in
    let matched =
      same_target (api.gvk u) target
      && (is_empty cp.conditions || any_condition cp.conditions (activation u)) in
    record {
      matched = matched;
      object = if matched then u else no_fields;
      group = target.group;
      version = target.version;
      kind = target.kind;
      tenant = [];
      tenant_type = [];
    }

abbrev pub last_applied : Str
last_applied = lit "kubectl.kubernetes.io/last-applied-configuration"

-- `delete(annotations, …)`, and `delete(meta, "annotations")` if that leaves none.
unfoldable pub strip_annotations : Option Fields → Fields → Fields
unfolding put remove
strip_annotations none meta = meta
strip_annotations (some annotations) meta =
    let rest = remove last_applied annotations in
    if has_no_fields rest
    then remove (lit "annotations") meta
    else put (lit "annotations") (obj rest) meta

unfoldable pub strip_meta : Fields → Fields
unfolding get remove strip_annotations
strip_meta meta =
    let kept = remove (lit "managedFields") meta in
    strip_annotations (as_obj (get (lit "annotations") kept)) kept

-- The metadata is changed in place if it is an object.
unfoldable pub strip_metadata : Option Fields → Fields → Fields
unfolding put strip_meta
strip_metadata none doc = doc
strip_metadata (some meta) doc = put (lit "metadata") (obj (strip_meta meta)) doc

unfoldable pub is_secret : EvalResult → Bool
is_secret r = str_eq r.group [] && (str_eq r.version (lit "v1") && str_eq r.kind (lit "Secret"))

unfoldable pub strip_secret : EvalResult → Fields → Fields
unfolding is_secret remove
strip_secret r doc =
    if is_secret r then remove (lit "stringData") (remove (lit "data") doc) else doc

abbrev pub or_platform : Str → Str
or_platform [] = lit "platform"
or_platform (c ∷ s) = c ∷ s

-- `group + "/" + version`, and the version alone in the core group.
unfoldable pub api_version : Str → Str → Str
api_version [] version = version
api_version (c ∷ group) version = (c ∷ group) ++ (b'/' ∷ version)

unfoldable pub overlay : EvalResult → Fields → Fields
unfolding put api_version
overlay r doc = put (lit "_tenant_type") (str (or_platform r.tenant_type)) (
    put (lit "_tenant") (str (or_platform r.tenant)) (
      put (lit "kind") (str r.kind)
        (put (lit "apiVersion") (str (api_version r.group r.version)) doc)))

-- The copy of the object, stripped of what is not to be indexed.
unfoldable pub stripped : EvalResult → Fields
unfolding get strip_metadata strip_secret
stripped r = strip_secret r (strip_metadata (as_obj (get (lit "metadata") r.object)) r.object)

unfoldable pub transform : EvalResult → Fields
unfolding stripped overlay
transform r = overlay r (stripped r)
