-- ===== src/Evaluation/Matching.antt =====
-- When internal/policy/evaluation/evaluator.go reports a match.
use search.Prelude.{
  Bool-cases, is_empty, Any, Str, str_eq_refl, str_eq_iff, Dict, ◌≡◌, refl, ◌↔◌, ◌⊎◌, inl, inr,
  true, ◌||◌, Option, none, some, [], ◌∷◌, arith,
}
use search.Api.{
  Json, null, bool, num, str, arr, obj, Fields, TargetResource, Program, CachedPolicy, ObjectApi,
  same_target,
}
use search.Evaluation.{activation, is_true, any_condition, evaluate}

-- Some condition evaluates to true on what the object shows of itself.
abbrev pub SomeHolds : Dict Program → Fields → Type 0
SomeHolds cs u = Any (λ (c : Str × Program). c.1 (activation u) ≡ some (bool true)) cs

is_true_iff : (o : Option Json) → (is_true o ≡ true) ↔ (o ≡ some (bool true))
is_true_iff o = (forth o, λ e. rw e refl)
  where
    forth : (p : Option Json) → is_true p ≡ true → p ≡ some (bool true)
    forth none h = cc
    forth (some null) h = cc
    forth (some (bool b)) h = cc
    forth (some (num s)) h = cc
    forth (some (str s)) h = cc
    forth (some (arr s)) h = cc
    forth (some (obj s)) h = cc

any_condition-SomeHolds :
    (cs : Dict Program) (u : Fields) → any_condition cs (activation u) ≡ true → SomeHolds cs u
unfolding any_condition
any_condition-SomeHolds [] u h = cc
any_condition-SomeHolds ((n, p) ∷ cs) u h = elim (Bool-cases (is_true (p (activation u)))) [
  | inl e ↦ inl ((is_true_iff (p (activation u))).0 e)
  | inr e ↦ inr (any_condition-SomeHolds cs u (rw e at h))
]

SomeHolds-any_condition :
    (cs : Dict Program) (u : Fields) → SomeHolds cs u → any_condition cs (activation u) ≡ true
unfolding any_condition
SomeHolds-any_condition [] u h = absurd h
SomeHolds-any_condition ((n, p) ∷ cs) u (inl e) = rw ((is_true_iff (p (activation u))).1 e) refl
SomeHolds-any_condition ((n, p) ∷ cs) u (inr h) = elim (Bool-cases (is_true (p (activation u)))) [
  | inl e ↦ rw e refl
  | inr e ↦ rw e (SomeHolds-any_condition cs u h)
]

same_target→eq : (a b : TargetResource) → same_target a b ≡ true → a ≡ b
same_target→eq a b h =
    ground
      (arith, str_eq_iff a.group b.group, str_eq_iff a.version b.version, str_eq_iff a.kind b.kind)

eq→same_target : (a b : TargetResource) → a ≡ b → same_target a b ≡ true
eq→same_target a b h = rw (h, str_eq_refl b.group, str_eq_refl b.version, str_eq_refl b.kind) refl

pub same_target_iff : (a b : TargetResource) → (same_target a b ≡ true) ↔ (a ≡ b)
same_target_iff a b = (same_target→eq a b, eq→same_target a b)

-- A resource matches exactly when its group, version and kind are the policy's target, and the
-- policy has no compiled condition or one of them evaluates to true.
pub evaluate-matched :
    (api : ObjectApi) (cp : CachedPolicy) (u : Fields)
    → ((evaluate api cp u).matched ≡ true) ↔ (
        (api.gvk u ≡ cp.policy.spec.target_resource)
        × ((cp.conditions ≡ []) ⊎ SomeHolds cp.conditions u))
unfolding evaluate
evaluate-matched api cp u = (
  λ h. (
    (same_target_iff (api.gvk u) cp.policy.spec.target_resource).0 (ground arith),
    found cp.conditions (ground arith),
  ),
  λ (t, c).
      rw ((same_target_iff (api.gvk u) cp.policy.spec.target_resource).1 t)
        (passes cp.conditions c),
)
  where
    found :
        (cs : Dict Program)
        → (is_empty cs || any_condition cs (activation u)) ≡ true
        → (cs ≡ []) ⊎ SomeHolds cs u
    found [] h = inl refl
    found (c ∷ cs) h = inr (any_condition-SomeHolds (c ∷ cs) u h)

    passes :
        (cs : Dict Program)
        → (cs ≡ []) ⊎ SomeHolds cs u
        → (is_empty cs || any_condition cs (activation u)) ≡ true
    passes [] h = refl
    passes (c ∷ cs) (inl h) = absurd (cc h)
    passes (c ∷ cs) (inr h) = SomeHolds-any_condition (c ∷ cs) u h
