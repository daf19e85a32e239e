-- ===== src/Query/Classify.antt =====
-- How internal/registry/resourcesearchquery/classify.go divides the requested targets.
use search.Prelude.{
  Bool-cases, Elem, str_eq_iff, ◌≡◌, refl, ap, subst, ◌∙◌, ◌≢◌, inl, inr, Bool, true, false, ◌&&◌,
  ◌||◌, not, List, [], ◌∷◌, ◌++◌, arith,
}
use search.Api.{TargetResource, CachedPolicy, same_target}
use search.Evaluation.Matching.{same_target_iff}
use search.Query.{is_served, has_target, unique_targets, partition, classify_targets}

has_target-Elem :
    (t : TargetResource) (us : List TargetResource) → has_target t us ≡ true → Elem t us
unfolding has_target
has_target-Elem t [] h = cc
has_target-Elem t (u ∷ us) h = elim (Bool-cases (same_target u t)) [
  | inl e ↦ inl ((same_target_iff u t).0 e)
  | inr e ↦ inr (has_target-Elem t us (rw e at h))
]

Elem-has_target :
    (t : TargetResource) (us : List TargetResource) → Elem t us → has_target t us ≡ true
unfolding has_target
Elem-has_target t [] h = absurd h
Elem-has_target t (u ∷ us) (inl e) = rw ((same_target_iff u t).1 e) refl
Elem-has_target t (u ∷ us) (inr h) = elim (Bool-cases (same_target u t)) [
  | inl e ↦ rw e refl
  | inr e ↦ rw e (Elem-has_target t us h)
]

-- No target stands twice.
abbrev pub NoRepeats : List TargetResource → Type 0
NoRepeats [] = Unit
NoRepeats (t ∷ ts) = (has_target t ts ≡ false) × NoRepeats ts

has_target-append :
    (t u : TargetResource) (us : List TargetResource)
    → has_target t (us ++ u ∷ []) ≡ (has_target t us || same_target u t)
unfolding has_target
has_target-append t u [] = ground arith
has_target-append t u (v ∷ us) = ground (arith, has_target-append t u us)

same_target_comm : (t u : TargetResource) → same_target t u ≡ false → same_target u t ≡ false
same_target_comm t u h = ground (
  arith,
  str_eq_iff t.group u.group,
  str_eq_iff t.version u.version,
  str_eq_iff t.kind u.kind,
  str_eq_iff u.group t.group,
  str_eq_iff u.version t.version,
  str_eq_iff u.kind t.kind,
)

NoRepeats-append :
    (t : TargetResource) (us : List TargetResource)
    → has_target t us ≡ false
    → NoRepeats us
    → NoRepeats (us ++ t ∷ [])
unfolding has_target
NoRepeats-append t [] h n = (refl, tt)
NoRepeats-append t (u ∷ us) h n =
    ground (arith, NoRepeats-append t us, has_target-append u t us, same_target_comm u t)

unique_targets-NoRepeats :
    (ts us : List TargetResource) → NoRepeats us → NoRepeats (unique_targets ts us)
unfolding unique_targets
unique_targets-NoRepeats [] us n = n
unique_targets-NoRepeats (t ∷ ts) us n = elim (Bool-cases (has_target t us)) [
  | inl e ↦ rw e (unique_targets-NoRepeats ts us n)
  | inr e ↦ rw e (unique_targets-NoRepeats ts (us ++ t ∷ []) (NoRepeats-append t us e n))
]

-- The loop keeps what was there and adds each target.
has_target-unique_targets :
    (t : TargetResource) (ts us : List TargetResource)
    → has_target t (unique_targets ts us) ≡ (has_target t us || has_target t ts)
unfolding unique_targets has_target
has_target-unique_targets t [] us = ground arith
has_target-unique_targets t (u ∷ ts) us = elim (Bool-cases (has_target u us)) [
  | inl e ↦ rw e (has_target-unique_targets t ts us ∙ ground (arith, already))
  | inr e ↦
      rw e
        (has_target-unique_targets t ts (us ++ u ∷ []) ∙ ground (arith, has_target-append t u us))
]
  where
    already : same_target u t ≡ true → has_target u us ≡ true → has_target t us ≡ true
    already s h =
        Elem-has_target t us
          (subst (λ x. Elem x us) ((same_target_iff u t).0 s) (has_target-Elem u us h))

has_target-partition :
    (t : TargetResource) (policies : List CachedPolicy) (ts : List TargetResource)
    → (has_target t (partition policies ts).0 ≡ (has_target t ts && is_served t policies))
      × (has_target t (partition policies ts).1 ≡ (has_target t ts && not (is_served t policies)))
unfolding partition has_target
has_target-partition t policies [] = (refl, refl)
has_target-partition t policies (u ∷ ts) =
    let ih = has_target-partition t policies ts in
    elim (Bool-cases (same_target u t)) [
      | inr other ↦ elim (Bool-cases (is_served u policies)) [
        | inl s ↦ rw (s, other) (ground (arith, ih.0), ground (arith, ih.1))
        | inr s ↦ rw (s, other) (ground (arith, ih.0), ground (arith, ih.1))
      ]
      | inl same ↦
          let e : is_served u policies ≡ is_served t policies =
            ap (λ x. is_served x policies) ((same_target_iff u t).0 same) in
          (ground (arith, ih.0, ih.1), ground (arith, ih.0, ih.1))
    ]

and_false_l : (a b : Bool) → a ≡ false → (a && b) ≡ false
and_false_l a b h = ground arith

partition-NoRepeats :
    (policies : List CachedPolicy) (ts : List TargetResource)
    → NoRepeats ts
    → NoRepeats (partition policies ts).0 × NoRepeats (partition policies ts).1
unfolding partition
partition-NoRepeats policies [] n = (tt, tt)
partition-NoRepeats policies (t ∷ ts) n =
    let (a, d) = partition-NoRepeats policies ts n.1 in
    let (pa, pd) = has_target-partition t policies ts in
    elim (Bool-cases (is_served t policies)) [
      | inl s ↦ rw s ((pa ∙ and_false_l _ _ n.0, a), d)
      | inr s ↦ rw s (a, (pd ∙ and_false_l _ _ n.0, d))
    ]

-- A requested target is allowed exactly if some policy with an index serves it and denied exactly
-- if none does; nothing else is in either list, and no target stands in a list twice.
pub record IsClassified (targets : List TargetResource) (policies : List CachedPolicy)
    : Type 0 where
  pub allowed :
      (t : TargetResource)
      → has_target t (classify_targets targets policies).0
        ≡ (has_target t targets && is_served t policies)
  pub denied :
      (t : TargetResource)
      → has_target t (classify_targets targets policies).1
        ≡ (has_target t targets && not (is_served t policies))
  pub allowed_once : NoRepeats (classify_targets targets policies).0
  pub denied_once : NoRepeats (classify_targets targets policies).1

-- The classification is right for any explicit list of targets, which may repeat, and any policies.
pub classify_targets-IsClassified :
    (targets : List TargetResource) (policies : List CachedPolicy)
    → targets ≢ []
    → IsClassified targets policies
unfolding classify_targets
classify_targets-IsClassified [] policies n = absurd (n refl)
classify_targets-IsClassified (t ∷ ts) policies n =
    let unique = unique_targets (t ∷ ts) [] in
    let once = partition-NoRepeats policies unique (unique_targets-NoRepeats (t ∷ ts) [] tt) in
    record {
      allowed = λ u.
          unfold has_target in
          (has_target-partition u policies unique).0
          ∙ ap (λ b. b && is_served u policies) (has_target-unique_targets u (t ∷ ts) []);
      denied = λ u.
          unfold has_target in
          (has_target-partition u policies unique).1
          ∙ ap (λ b. b && not (is_served u policies)) (has_target-unique_targets u (t ∷ ts) []);
      allowed_once = once.0;
      denied_once = once.1;
    }
