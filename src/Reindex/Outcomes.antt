-- ===== src/Reindex/Outcomes.antt =====
-- When internal/indexer/reindex_consumer.go writes, and when it is sure not to panic.
use search.Prelude.{
  Bool-cases, length, Str, str_eq, str_eq→eq, ◌≤◌, ◌≡◌, refl, subst, ◌≢◌, ◌⊎◌, inl, inr, true,
  false, ◌&&◌, ◌||◌, not, Option, none, some, [], arith,
}
use search.Api.{Fields, PolicySpec, CachedPolicy, ObjectApi}
use search.Evaluation.{evaluate}
use search.PolicyCache.{PolicyCache, get_policy}
use search.Reindex.{
  ReindexEvent, Outcome, panics, queues_upsert, has_prefix_of_8, apply_policy, check_spec,
  on_cached, process_targeted_event, handle_resource, handle_reindex,
}

no_change :
    (wanted cached : Str)
    → (not (str_eq wanted []) && not (str_eq cached wanted)) ≡ false
    → (wanted ≡ []) ⊎ (cached ≡ wanted)
no_change wanted cached h = elim (Bool-cases (str_eq wanted [])) [
  | inl e ↦ inl (str_eq→eq wanted [] e)
  | inr e ↦ inr (str_eq→eq cached wanted (ground arith))
]

module _ (api : ObjectApi) (hash : PolicySpec → Str) where
  -- The resource is alive and has the UID, and matches the cached policy of the event, in the version
  -- that the event asks for.
  pub record IsFresh (cache : PolicyCache) (event : ReindexEvent) (o : Fields) : Type 0 where
    pub cp : CachedPolicy
    pub cached : get_policy event.policy_name cache ≡ some cp
    pub same_spec : (event.spec_hash ≡ []) ⊎ (hash cp.policy.spec ≡ event.spec_hash)
    pub matches : (evaluate api cp o).matched ≡ true
    pub living : api.is_terminating o ≡ false

  abbrev pub OnUpsert : (Str → Fields → Type 0) → Outcome → Type 0
  OnUpsert P (queues_upsert i doc) = P i doc
  OnUpsert P _ = Unit {0}

  abbrev Writes : PolicyCache → ReindexEvent → Fields → Str → Fields → Type 0
  Writes cache event o = λ i doc. (i ≡ event.index_name) × IsFresh cache event o

  check_spec-Writes :
      (cache : PolicyCache) (event : ReindexEvent) (o : Fields) (uid : Str) (cp : CachedPolicy)
      → get_policy event.policy_name cache ≡ some cp
      → api.is_terminating o ≡ false
      → OnUpsert (Writes cache event o) (check_spec api hash event o uid cp)
  unfolding check_spec apply_policy
  check_spec-Writes cache event o uid cp c l =
      let cached = hash cp.policy.spec in
      elim (Bool-cases (not (str_eq event.spec_hash []) && not (str_eq cached event.spec_hash))) [
        | inl e ↦ elim (Bool-cases (has_prefix_of_8 cached && has_prefix_of_8 event.spec_hash)) [
          | inl f ↦ rw (e, f) tt
          | inr f ↦ rw (e, f) tt
        ]
        | inr e ↦ elim (Bool-cases (evaluate api cp o).matched) [
          | inr f ↦ rw (e, f) tt
          | inl f ↦
              rw (e, f)
                (
                  refl,
                  record {
                    cp = cp;
                    cached = c;
                    same_spec = no_change event.spec_hash cached e;
                    matches = f;
                    living = l;
                  },
                )
        ]
      ]

  on_cached-Writes :
      (cache : PolicyCache) (event : ReindexEvent) (o : Fields) (uid : Str)
      (q : Option CachedPolicy)
      → get_policy event.policy_name cache ≡ q
      → api.is_terminating o ≡ false
      → OnUpsert (Writes cache event o) (on_cached api hash event o uid q)
  unfolding on_cached
  on_cached-Writes cache event o uid none c l = tt
  on_cached-Writes cache event o uid (some cp) c l = check_spec-Writes cache event o uid cp c l

  process-Writes :
      (cache : PolicyCache) (event : ReindexEvent) (o : Fields) (uid : Str)
      → OnUpsert (Writes cache event o) (process_targeted_event api hash cache event o uid)
  unfolding process_targeted_event
  process-Writes cache event o uid =
      elim (Bool-cases (str_eq event.policy_name [] || str_eq event.index_name [])) [
        | inl e ↦ rw e tt
        | inr e ↦ elim (Bool-cases (api.is_terminating o)) [
          | inl f ↦ rw (e, f) tt
          | inr f ↦
              rw (e, f)
                (on_cached-Writes cache event o uid (get_policy event.policy_name cache) refl f)
        ]
      ]

  handle_resource-Writes :
      (cache : PolicyCache) (event : ReindexEvent) (o : Fields) (r : Option Fields)
      → r ≡ some o
      → OnUpsert (Writes cache event o) (handle_resource api hash cache event r)
  unfolding handle_resource
  handle_resource-Writes cache event o none h = tt
  handle_resource-Writes cache event o (some p) h = elim (Bool-cases (str_eq (api.uid p) [])) [
    | inl e ↦ rw e tt
    | inr e ↦ rw e (
        subst
          (λ x.
            OnUpsert (Writes cache event x)
              (process_targeted_event api hash cache event p (api.uid p)))
          (cc h) (process-Writes cache event p (api.uid p)))
  ]

  -- A re-index writes a document only into the index that the event names, for a resource that is
  -- not being deleted and matches the cached policy, whose spec has the event's hash if it has one.
  pub handle_reindex-IsFresh :
      (cache : PolicyCache) (event : ReindexEvent) (o : Fields) (i : Str) (doc : Fields)
      → event.resource ≡ some o
      → handle_reindex api hash cache (some event) ≡ queues_upsert i doc
      → (i ≡ event.index_name) × IsFresh cache event o
  unfolding handle_reindex
  handle_reindex-IsFresh cache event o i doc h e =
      subst (OnUpsert (Writes cache event o)) e
        (handle_resource-Writes cache event o event.resource h)

  abbrev NoPanic : Outcome → Type 0
  NoPanic panics = ⊥
  NoPanic _ = Unit {0}

  check_spec-NoPanic :
      (event : ReindexEvent) (o : Fields) (uid : Str) (cp : CachedPolicy)
      → 8 ≤ length (hash cp.policy.spec)
      → 8 ≤ length event.spec_hash
      → NoPanic (check_spec api hash event o uid cp)
  unfolding check_spec apply_policy
  check_spec-NoPanic event o uid cp w h =
      elim (Bool-cases
        (not (str_eq event.spec_hash []) && not (str_eq (hash cp.policy.spec) event.spec_hash))) [
          | inl e ↦ rw e (ground arith)
          | inr e ↦ elim (Bool-cases (evaluate api cp o).matched) [
            | inl f ↦ rw (e, f) tt
            | inr f ↦ rw (e, f) tt
          ]
        ]

  on_cached-NoPanic :
      (event : ReindexEvent) (o : Fields) (uid : Str) (q : Option CachedPolicy)
      → ((spec : PolicySpec) → 8 ≤ length (hash spec))
      → 8 ≤ length event.spec_hash
      → NoPanic (on_cached api hash event o uid q)
  unfolding on_cached
  on_cached-NoPanic event o uid none w h = tt
  on_cached-NoPanic event o uid (some cp) w h =
      check_spec-NoPanic event o uid cp (w cp.policy.spec) h

  handle_resource-NoPanic :
      (cache : PolicyCache) (event : ReindexEvent) (r : Option Fields)
      → ((spec : PolicySpec) → 8 ≤ length (hash spec))
      → 8 ≤ length event.spec_hash
      → NoPanic (handle_resource api hash cache event r)
  unfolding handle_resource process_targeted_event
  handle_resource-NoPanic cache event none w h = tt
  handle_resource-NoPanic cache event (some o) w h = elim (Bool-cases (str_eq (api.uid o) [])) [
    | inl e ↦ rw e tt
    | inr e ↦ elim (Bool-cases (str_eq event.policy_name [] || str_eq event.index_name [])) [
      | inl f ↦ rw (e, f) tt
      | inr f ↦ elim (Bool-cases (api.is_terminating o)) [
        | inl g ↦ rw (e, f, g) tt
        | inr g ↦
            rw (e, f, g)
              (on_cached-NoPanic event o (api.uid o) (get_policy event.policy_name cache) w h)
      ]
    ]
  ]

  -- With hashes of at least eight bytes on both sides, as the publisher sends them, the consumer
  -- never panics.
  pub long_hash_no_panic :
      (cache : PolicyCache) (event : ReindexEvent)
      → ((spec : PolicySpec) → 8 ≤ length (hash spec))
      → 8 ≤ length event.spec_hash
      → handle_reindex api hash cache (some event) ≢ panics
  unfolding handle_reindex
  long_hash_no_panic cache event w h e =
      subst NoPanic e (handle_resource-NoPanic cache event event.resource w h)
