-- ===== src/Evaluation/Redaction.antt =====
-- What internal/policy/evaluation/evaluator.go keeps out of the index.
use search.Prelude.{
  Bool-cases, Str, lit, str_eq, str_eq_refl, eq→str_eq, ◌≡◌, refl, ◌∙◌, inl, inr, true, Option,
  none, some, [],
}
use search.Evaluation.{
  EvalResult, last_applied, strip_annotations, strip_meta, strip_metadata, is_secret, strip_secret,
  overlay, stripped, transform,
}
use search.Api.{
  Json, null, bool, num, str, arr, obj, Fields, get, remove, has_no_fields, as_obj, get-put,
  get-remove,
}

-- The field is an object without the given key, or no object at all.
abbrev pub Lacks : Str → Option Json → Type 0
Lacks k (some (obj m)) = get k m ≡ none
Lacks k _ = Unit {0}

not_obj-Lacks : (k : Str) (o : Option Json) → as_obj o ≡ none → Lacks k o
not_obj-Lacks k none h = tt
not_obj-Lacks k (some null) h = tt
not_obj-Lacks k (some (bool b)) h = tt
not_obj-Lacks k (some (num s)) h = tt
not_obj-Lacks k (some (str s)) h = tt
not_obj-Lacks k (some (arr s)) h = tt
not_obj-Lacks k (some (obj s)) h = cc

-- What is left of an object's annotations does not hold the last applied configuration.
strip_annotations-Lacks :
    (o : Option Fields) (meta : Fields)
    → as_obj (get (lit "annotations") meta) ≡ o
    → Lacks last_applied (get (lit "annotations") (strip_annotations o meta))
unfolding strip_annotations str_eq
strip_annotations-Lacks none meta h = not_obj-Lacks last_applied _ h
strip_annotations-Lacks (some a) meta h =
    elim (Bool-cases (has_no_fields (remove last_applied a))) [
      | inl e ↦ rw (e, get-remove) tt
      | inr e ↦ rw (e, get-put) (get-remove last_applied last_applied a)
    ]

strip_annotations-managed :
    (o : Option Fields) (meta : Fields)
    → get (lit "managedFields") meta ≡ none
    → get (lit "managedFields") (strip_annotations o meta) ≡ none
unfolding strip_annotations str_eq
strip_annotations-managed none meta h = h
strip_annotations-managed (some a) meta h =
    elim (Bool-cases (has_no_fields (remove last_applied a))) [
      | inl e ↦ rw (e, get-remove) h
      | inr e ↦ rw (e, get-put) h
    ]

-- An object, if it is one, without managed fields and with its annotations redacted.
abbrev pub IsRedacted : Option Json → Type 0
IsRedacted (some (obj meta)) =
    (get (lit "managedFields") meta ≡ none) × Lacks last_applied (get (lit "annotations") meta)
IsRedacted _ = Unit {0}

not_obj-IsRedacted : (o : Option Json) → as_obj o ≡ none → IsRedacted o
not_obj-IsRedacted none h = tt
not_obj-IsRedacted (some null) h = tt
not_obj-IsRedacted (some (bool b)) h = tt
not_obj-IsRedacted (some (num s)) h = tt
not_obj-IsRedacted (some (str s)) h = tt
not_obj-IsRedacted (some (arr s)) h = tt
not_obj-IsRedacted (some (obj s)) h = cc

strip_meta-IsRedacted : (meta : Fields) → IsRedacted (some (obj (strip_meta meta)))
unfolding strip_meta str_eq
strip_meta-IsRedacted meta =
    let kept = remove (lit "managedFields") meta in
    let annotations = as_obj (get (lit "annotations") kept) in
    (
      strip_annotations-managed annotations kept
          (get-remove (lit "managedFields") (lit "managedFields") meta),
      strip_annotations-Lacks annotations kept refl,
    )

strip_metadata-IsRedacted :
    (o : Option Fields) (doc : Fields)
    → as_obj (get (lit "metadata") doc) ≡ o
    → IsRedacted (get (lit "metadata") (strip_metadata o doc))
unfolding strip_metadata
strip_metadata-IsRedacted none doc h = not_obj-IsRedacted _ h
strip_metadata-IsRedacted (some meta) doc h =
    rw (get-put, str_eq_refl (lit "metadata")) (strip_meta-IsRedacted meta)

metadata-strip_secret :
    (r : EvalResult) (doc : Fields)
    → get (lit "metadata") (strip_secret r doc) ≡ get (lit "metadata") doc
unfolding strip_secret str_eq
metadata-strip_secret r doc = elim (Bool-cases (is_secret r)) [
  | inl e ↦ rw (e, get-remove, get-remove) refl
  | inr e ↦ rw e refl
]

metadata-overlay :
    (r : EvalResult) (doc : Fields)
    → get (lit "metadata") (overlay r doc) ≡ get (lit "metadata") doc
unfolding overlay str_eq
metadata-overlay r doc = simp get-put

-- No document carries managed fields or, among its annotations, the last applied configuration,
-- which can mirror a secret.
pub transform-IsRedacted : (r : EvalResult) → IsRedacted (get (lit "metadata") (transform r))
unfolding transform stripped
transform-IsRedacted r =
    rw (metadata-overlay, metadata-strip_secret) (strip_metadata-IsRedacted _ r.object refl)

secret_true :
    (r : EvalResult)
    → r.group ≡ []
    → r.version ≡ lit "v1"
    → r.kind ≡ lit "Secret"
    → is_secret r ≡ true
unfolding is_secret
secret_true r g v k = rw (eq→str_eq _ _ g, eq→str_eq _ _ v, eq→str_eq _ _ k) refl

get-strip_secret_data :
    (r : EvalResult) (doc : Fields)
    → is_secret r ≡ true
    → (get (lit "data") (strip_secret r doc) ≡ none)
      × (get (lit "stringData") (strip_secret r doc) ≡ none)
unfolding strip_secret str_eq
get-strip_secret_data r doc h = rw h (
  rw (get-remove, get-remove) refl,
  get-remove (lit "stringData") (lit "stringData") (remove (lit "data") doc),
)

data-overlay :
    (r : EvalResult) (doc : Fields)
    → (get (lit "data") (overlay r doc) ≡ get (lit "data") doc)
      × (get (lit "stringData") (overlay r doc) ≡ get (lit "stringData") doc)
unfolding overlay str_eq
data-overlay r doc = (simp get-put, simp get-put)

-- A document made for a core v1 Secret has neither "data" nor "stringData".
pub transform_secret :
    (r : EvalResult)
    → r.group ≡ []
    → r.version ≡ lit "v1"
    → r.kind ≡ lit "Secret"
    → (get (lit "data") (transform r) ≡ none) × (get (lit "stringData") (transform r) ≡ none)
unfolding transform stripped
transform_secret r g v k =
    let doc = strip_metadata (as_obj (get (lit "metadata") r.object)) r.object in
    let over' = data-overlay r (strip_secret r doc) in
    let gone = get-strip_secret_data r doc (secret_true r g v k) in
    (over'.0 ∙ gone.0, over'.1 ∙ gone.1)
