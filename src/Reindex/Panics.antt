-- ===== src/Reindex/Panics.antt =====
-- Which re-index messages panic internal/indexer/reindex_consumer.go, with the hash of
-- internal/utils/search.go.
use search.Prelude.{
  leb, Bool-cases, length, Str, str_eq, str_eq_iff, Result, err, Result-cases, ℕ, ◌≤◌, ◌<◌, ◌≡◌,
  refl, sym, ap, ◌∙◌, ◌≢◌, ◌↔◌, ◌⊎◌, inl, inr, false, ◌&&◌, not, Option, none, some, [], ◌++◌,
  arith,
}
use search.Api.{Fields, PolicySpec, CachedPolicy, ObjectApi}
use search.Evaluation.{evaluate}
use search.PolicyCache.{PolicyCache, get_policy}
use search.Reindex.{
  ReindexEvent, reindex_seed, compute_spec_hash, panics, has_prefix_of_8, apply_policy, check_spec,
  on_cached, process_targeted_event, handle_resource, handle_reindex,
}

-- The hashes differ, the event has one, and one of the two has fewer than eight bytes.
abbrev pub BadHashes : Str → Str → Type 0
BadHashes cached wanted =
    (wanted ≢ []) × (cached ≢ wanted) × ((length wanted < 8) ⊎ (length cached < 8))

-- The spec of the policy is compared: the resource lives and has a UID, and the event names an index
-- and a cached policy, whose spec is bad for the event.
pub record ReachesSpec (api : ObjectApi) (cache : PolicyCache) (event : ReindexEvent)
    (Bad : PolicySpec → Type 0) : Type 0 where
  pub object : Fields
  pub cp : CachedPolicy
  pub of_event : event.resource ≡ some object
  pub has_uid : api.uid object ≢ []
  pub has_policy : event.policy_name ≢ []
  pub has_index : event.index_name ≢ []
  pub living : api.is_terminating object ≡ false
  pub cached : get_policy event.policy_name cache ≡ some cp
  pub bad : Bad cp.policy.spec

ReachesSpec-map :
    (api : ObjectApi) (cache : PolicyCache) (event : ReindexEvent) (P Q : PolicySpec → Type 0)
    → ((spec : PolicySpec) → P spec → Q spec)
    → ReachesSpec api cache event P
    → ReachesSpec api cache event Q
ReachesSpec-map api cache event P Q f r = record {
  object = r.object;
  cp = r.cp;
  of_event = r.of_event;
  has_uid = r.has_uid;
  has_policy = r.has_policy;
  has_index = r.has_index;
  living = r.living;
  cached = r.cached;
  bad = f r.cp.policy.spec r.bad;
}

module _ (api : ObjectApi) (hash : PolicySpec → Str) where
  check_spec-BadHashes :
      (event : ReindexEvent) (o : Fields) (uid : Str) (cp : CachedPolicy)
      → check_spec api hash event o uid cp ≡ panics
      → BadHashes (hash cp.policy.spec) event.spec_hash
  unfolding check_spec apply_policy
  check_spec-BadHashes event o uid cp h =
      let cached = hash cp.policy.spec in
      elim (Bool-cases (not (str_eq event.spec_hash []) && not (str_eq cached event.spec_hash))) [
        | inl e ↦ elim (Bool-cases (has_prefix_of_8 cached && has_prefix_of_8 event.spec_hash)) [
          | inl f ↦ absurd (cc (rw (e, f) at h))
          | inr f ↦ (
            (λ n. ground (arith, e, str_eq_iff event.spec_hash [], n)),
            (λ n. ground (arith, e, str_eq_iff cached event.spec_hash, n)),
            one_short (length cached) (length event.spec_hash) f,
          )
        ]
        | inr e ↦ elim (Bool-cases (evaluate api cp o).matched) [
          | inl f ↦ absurd (cc (rw (e, f) at h))
          | inr f ↦ absurd (cc (rw (e, f) at h))
        ]
      ]
    where
      one_short : (m n : ℕ) → (leb 8 m && leb 8 n) ≡ false → (n < 8) ⊎ (m < 8)
      one_short m n f = ground (arith, f)

  ReachesSpec-panics :
      (cache : PolicyCache) (event : ReindexEvent)
      → ReachesSpec api cache event (λ spec. BadHashes (hash spec) event.spec_hash)
      → handle_reindex api hash cache (some event) ≡ panics
  unfolding handle_reindex handle_resource process_targeted_event on_cached check_spec
  ReachesSpec-panics cache event r = ground (
    arith,
    r.of_event,
    r.has_uid,
    r.has_policy,
    r.has_index,
    r.living,
    r.cached,
    r.bad,
    str_eq_iff (api.uid r.object) [],
    str_eq_iff event.policy_name [],
    str_eq_iff event.index_name [],
    str_eq_iff event.spec_hash [],
    str_eq_iff (hash r.cp.policy.spec) event.spec_hash,
  )

  unequal : (s t : Str) → str_eq s t ≡ false → s ≢ t
  unequal s t e n = ground (arith, e, n, str_eq_iff s t)

  handle_reindex-ReachesSpec :
      (cache : PolicyCache) (event : ReindexEvent)
      → handle_reindex api hash cache (some event) ≡ panics
      → ReachesSpec api cache event (λ spec. BadHashes (hash spec) event.spec_hash)
  unfolding handle_reindex handle_resource process_targeted_event on_cached
  handle_reindex-ReachesSpec cache event h = of_resource event.resource refl h
    where
      of_cached :
          (o : Fields)
          → event.resource ≡ some o
          → api.uid o ≢ []
          → event.policy_name ≢ []
          → event.index_name ≢ []
          → api.is_terminating o ≡ false
          → (q : Option CachedPolicy) → get_policy event.policy_name cache ≡ q
          → on_cached api hash event o (api.uid o) q ≡ panics
          → ReachesSpec api cache event (λ spec. BadHashes (hash spec) event.spec_hash)
      of_cached o r u p i l none c k = absurd (cc k)
      of_cached o r u p i l (some cp) c k = record {
        object = o;
        cp = cp;
        of_event = r;
        has_uid = u;
        has_policy = p;
        has_index = i;
        living = l;
        cached = c;
        bad = check_spec-BadHashes event o (api.uid o) cp k;
      }

      of_resource :
          (q : Option Fields)
          → event.resource ≡ q
          → handle_resource api hash cache event q ≡ panics
          → ReachesSpec api cache event (λ spec. BadHashes (hash spec) event.spec_hash)
      of_resource none r k = absurd (cc k)
      of_resource (some o) r k = elim (Bool-cases (str_eq (api.uid o) [])) [
        | inl e ↦ absurd (cc (rw e at k))
        | inr e ↦ elim (Bool-cases (str_eq event.policy_name [])) [
          | inl f ↦ absurd (cc (rw (e, f) at k))
          | inr f ↦ elim (Bool-cases (str_eq event.index_name [])) [
            | inl g ↦ absurd (cc (rw (e, f, g) at k))
            | inr g ↦ elim (Bool-cases (api.is_terminating o)) [
              | inl l ↦ absurd (cc (rw (e, f, g, l) at k))
              | inr l ↦
                  of_cached o r (unequal (api.uid o) [] e) (unequal event.policy_name [] f)
                    (unequal event.index_name [] g) l (get_policy event.policy_name cache) refl
                    (rw (e, f, g, l) at k)
            ]
          ]
        ]
      ]

-- The event has a hash that is not the cached spec's, and either it has fewer than eight bytes or
-- the spec cannot be marshalled.
abbrev pub IsBadSpec : (PolicySpec → Result Str) → (Str → Str) → ReindexEvent → PolicySpec → Type 0
IsBadSpec marshal sha256_hex event spec =
    (event.spec_hash ≢ [])
    × (compute_spec_hash marshal sha256_hex spec ≢ event.spec_hash)
    × ((length event.spec_hash < 8) ⊎ ((e : Str) × (marshal spec ≡ err e)))

module _ (marshal : PolicySpec → Result Str) (sha256_hex : Str → Str) where
  short_iff :
      (spec : PolicySpec)
      → ((b : Str) → 8 ≤ length (sha256_hex b))
      → (length (compute_spec_hash marshal sha256_hex spec) < 8)
        ↔ ((e : Str) × (marshal spec ≡ err e))
  unfolding compute_spec_hash
  short_iff spec long = elim (Result-cases (marshal spec)) [
    | inl (b, e) ↦
        let digest : compute_spec_hash marshal sha256_hex spec ≡ sha256_hex (b ++ reindex_seed) =
          rw (compute_spec_hash, e) refl in
        (
          λ h. absurd (omega (arith, long (b ++ reindex_seed), ap length digest, h)),
          λ h. absurd (cc (sym e ∙ h.1)),
        )
    | inr (m, e) ↦
        let nothing : compute_spec_hash marshal sha256_hex spec ≡ [] =
          rw (compute_spec_hash, e) refl in
        (λ h. (m, e), λ h. omega (arith, ap length nothing))
  ]

  -- With the hash of the program, and digests of at least eight bytes: a message panics the consumer
  -- exactly if it names an index and a cached policy, for a living resource with a UID; its hash is
  -- not empty and is not the one of the cached spec; and it has fewer than eight bytes, or the
  -- cached spec cannot be marshalled.
  pub handle_reindex-panics_iff :
      (api : ObjectApi) (cache : PolicyCache) (event : ReindexEvent)
      → ((b : Str) → 8 ≤ length (sha256_hex b))
      → (handle_reindex api (compute_spec_hash marshal sha256_hex) cache (some event) ≡ panics)
        ↔ ReachesSpec api cache event (IsBadSpec marshal sha256_hex event)
  handle_reindex-panics_iff api cache event long =
      let hash = compute_spec_hash marshal sha256_hex in
      (
        λ h.
            ReachesSpec-map api cache event _ _ (λ spec b. (b.0, b.1, to_marshal spec b.2))
              (handle_reindex-ReachesSpec api hash cache event h),
        λ r.
            ReachesSpec-panics api hash cache event
              (ReachesSpec-map api cache event _ _ (λ spec b. (b.0, b.1, of_marshal spec b.2)) r),
      )
    where
      to_marshal :
          (spec : PolicySpec)
          → (length event.spec_hash < 8) ⊎ (length (compute_spec_hash marshal sha256_hex spec) < 8)
          → (length event.spec_hash < 8) ⊎ ((e : Str) × (marshal spec ≡ err e))
      to_marshal spec (inl h) = inl h
      to_marshal spec (inr h) = inr ((short_iff spec long).0 h)

      of_marshal :
          (spec : PolicySpec)
          → (length event.spec_hash < 8) ⊎ ((e : Str) × (marshal spec ≡ err e))
          → (length event.spec_hash < 8) ⊎ (length (compute_spec_hash marshal sha256_hex spec) < 8)
      of_marshal spec (inl h) = inl h
      of_marshal spec (inr h) = inr ((short_iff spec long).1 h)
