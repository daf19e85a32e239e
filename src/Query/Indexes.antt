-- ===== src/Query/Indexes.antt =====
-- The indexes that internal/registry/resourcesearchquery/classify.go searches for the allowed targets.
use search.Prelude.{
  Bool-cases, length, length-append, All, All-append, str_eq, eq→str_eq, ◌≡◌, refl, ◌≢◌, inl, inr,
  true, false, List, [], ◌∷◌, arith,
}
use search.Api.{TargetResource, CachedPolicy}
use search.Evaluation.Matching.{same_target_iff}
use search.Query.{
  serves, is_served, all_ready, unique_targets, partition, classify_targets, index_uid_for,
  index_uids_for,
}

-- A target that is served has one index, with a name.
index_uid_for-one :
    (t : TargetResource) (policies : List CachedPolicy)
    → is_served t policies ≡ true
    → (length (index_uid_for t policies) ≡ 1) × All (λ i. i ≢ []) (index_uid_for t policies)
unfolding index_uid_for is_served serves
index_uid_for-one t [] h = cc
index_uid_for-one t (cp ∷ cps) h = elim (Bool-cases (serves t cp)) [
  | inl e ↦
      rw (e, serves) (refl, (λ n. ground (arith, eq→str_eq cp.policy.status.index_name [] n), tt))
  | inr e ↦ rw (e, serves) (index_uid_for-one t cps (rw (e, serves) at h))
]

abbrev AllServed : List CachedPolicy → List TargetResource → Type 0
AllServed policies = All (λ t. is_served t policies ≡ true)

partition-AllServed :
    (policies : List CachedPolicy) (ts : List TargetResource)
    → AllServed policies (partition policies ts).0
unfolding partition
partition-AllServed policies [] = tt
partition-AllServed policies (t ∷ ts) = elim (Bool-cases (is_served t policies)) [
  | inl s ↦ rw s (s, partition-AllServed policies ts)
  | inr s ↦ rw s (partition-AllServed policies ts)
]

AllServed-cons :
    (cp : CachedPolicy) (cps : List CachedPolicy) (ts : List TargetResource)
    → AllServed cps ts
    → AllServed (cp ∷ cps) ts
unfolding is_served
AllServed-cons cp cps [] a = tt
AllServed-cons cp cps (t ∷ ts) a = (ground arith, AllServed-cons cp cps ts a.1)

serves_own :
    (cp : CachedPolicy) (cps : List CachedPolicy)
    → str_eq cp.policy.status.index_name [] ≡ false
    → is_served cp.policy.spec.target_resource (cp ∷ cps) ≡ true
unfolding is_served serves
serves_own cp cps e = rw ((same_target_iff cp.policy.spec.target_resource _).1 refl, e) refl

all_ready-AllServed : (policies : List CachedPolicy) → AllServed policies (all_ready policies)
unfolding all_ready
all_ready-AllServed [] = tt
all_ready-AllServed (cp ∷ cps) =
    let rest = AllServed-cons cp cps (all_ready cps) (all_ready-AllServed cps) in
    elim (Bool-cases (str_eq cp.policy.status.index_name [])) [
      | inl e ↦ rw e rest
      | inr e ↦ rw e (serves_own cp cps e, rest)
    ]

index_uids_for-length :
    (ts : List TargetResource) (policies : List CachedPolicy)
    → AllServed policies ts
    → (length (index_uids_for ts policies) ≡ length ts)
      × All (λ i. i ≢ []) (index_uids_for ts policies)
unfolding index_uids_for
index_uids_for-length [] policies a = (refl, tt)
index_uids_for-length (t ∷ ts) policies a =
    let (n, names) = index_uid_for-one t policies a.0 in
    let (m, rest) = index_uids_for-length ts policies a.1 in
    (
      omega (arith, length-append {0} (index_uid_for t policies) (index_uids_for ts policies)),
      All-append (λ i. i ≢ []) (index_uid_for t policies) _ names rest,
    )

-- Every allowed target is searched in one index that has a name: the defensive skip of a target
-- without a policy never happens, whether the request lists targets or not.
pub index_uids_for-allowed :
    (targets : List TargetResource) (policies : List CachedPolicy)
    → let allowed = (classify_targets targets policies).0 in
      (length (index_uids_for allowed policies) ≡ length allowed)
      × All (λ i. i ≢ []) (index_uids_for allowed policies)
unfolding classify_targets
index_uids_for-allowed [] policies =
    index_uids_for-length (all_ready policies) policies (all_ready-AllServed policies)
index_uids_for-allowed (t ∷ ts) policies =
    index_uids_for-length _ policies (partition-AllServed policies (unique_targets (t ∷ ts) []))
