-- ===== src/Evaluation/Overlay.antt =====
-- What internal/policy/evaluation/evaluator.go writes over the copied object.
use search.Prelude.{
  if◌then◌else◌, Bool-cases, All, Str, lit, str_eq, ◌≡◌, refl, ◌∙◌, inl, inr, false, Option, none,
  some, List, [], ◌∷◌,
}
use search.Api.{str, Fields, get, get-put, get-remove}
use search.Evaluation.{
  EvalResult, strip_metadata, is_secret, strip_secret, or_platform, api_version, overlay, stripped,
  transform,
}

get-overlay :
    (k : Str) (r : EvalResult) (doc : Fields)
    → get k (overlay r doc) ≡ (
        if str_eq (lit "_tenant_type") k
        then some (str (or_platform r.tenant_type))
        else if str_eq (lit "_tenant") k
        then some (str (or_platform r.tenant))
        else if str_eq (lit "kind") k
        then some (str r.kind)
        else if str_eq (lit "apiVersion") k
        then some (str (api_version r.group r.version))
        else get k doc)
unfolding overlay
get-overlay k r doc = simp get-put

-- The policy's version and kind, and the tenant with its default, win over whatever the object
-- carried under those keys.
pub transform_stamps :
    (r : EvalResult)
    → (get (lit "apiVersion") (transform r) ≡ some (str (api_version r.group r.version)))
      × (get (lit "kind") (transform r) ≡ some (str r.kind))
      × (get (lit "_tenant") (transform r) ≡ some (str (or_platform r.tenant)))
      × (get (lit "_tenant_type") (transform r) ≡ some (str (or_platform r.tenant_type)))
unfolding transform str_eq
transform_stamps r = (
  get-overlay (lit "apiVersion") r (stripped r),
  get-overlay (lit "kind") r (stripped r),
  get-overlay (lit "_tenant") r (stripped r),
  get-overlay (lit "_tenant_type") r (stripped r),
)

-- The keys that `Transform` may change.
abbrev pub touched : List Str
touched =
    lit "apiVersion"
    ∷ lit "kind"
    ∷ lit "_tenant"
    ∷ lit "_tenant_type"
    ∷ lit "metadata"
    ∷ lit "data"
    ∷ lit "stringData"
    ∷ []

get-strip_secret :
    (k : Str) (r : EvalResult) (doc : Fields)
    → str_eq (lit "data") k ≡ false
    → str_eq (lit "stringData") k ≡ false
    → get k (strip_secret r doc) ≡ get k doc
unfolding strip_secret
get-strip_secret k r doc a b = elim (Bool-cases (is_secret r)) [
  | inl e ↦ rw (e, get-remove, b, get-remove, a) refl
  | inr e ↦ rw e refl
]

get-strip_metadata :
    (k : Str) (o : Option Fields) (doc : Fields)
    → str_eq (lit "metadata") k ≡ false
    → get k (strip_metadata o doc) ≡ get k doc
unfolding strip_metadata
get-strip_metadata k none doc h = refl
get-strip_metadata k (some meta) doc h = rw (get-put, h) refl

-- Every other top-level field of the object is indexed as it is.
pub transform_keeps :
    (k : Str) (r : EvalResult)
    → All (λ j. str_eq j k ≡ false) touched
    → get k (transform r) ≡ get k r.object
unfolding transform
transform_keeps k r (v, (n, (t, (y, (m, (d, (s, _))))))) =
    get-overlay k r (stripped r)
    ∙ rw (y, t, n, v)
        (unfold stripped in (get-strip_secret k r _ d s ∙ get-strip_metadata k _ r.object m))
