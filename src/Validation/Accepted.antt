-- ===== src/Validation/Accepted.antt =====
-- Which policies internal/policy/validation/validator.go accepts.
use search.Prelude.{
  if◌then◌else◌, Bool-cases, is_empty, All, Str, str_eq, str_eq→eq, eq→str_eq, str_eq_iff, has_str,
  NoRepeat, Result, ℕ, suc, ◌≡◌, refl, sym, ◌∙◌, ◌↔◌, ◌⊎◌, inl, inr, Bool, true, false, ◌||◌, List,
  [], ◌∷◌, ◌++◌, map, arith,
}
use search.Api.{PolicyCondition, FieldPolicy, Policy, same_target}
use search.Cel.{CheckedAst, validate_expression}
use search.Cel.Allowed.{IsAllowed, validate_expression-IsAllowed}
use search.Paths.{validate_path}
use search.Validation.{
  FieldError, invalid_expression, duplicate_path, duplicate_name, target_errors, path_errors,
  repeated, paths_of, names_of, condition_errors, validate_policy,
}

nil_append_iff : {A : Type 0} (xs ys : List A) → (xs ++ ys ≡ []) ↔ ((xs ≡ []) × (ys ≡ []))
nil_append_iff [] ys = (λ h. (refl, h), λ h. h.1)
nil_append_iff (x ∷ xs) ys = (λ h. absurd (cc h), λ h. absurd (cc h.0))

nil_map_iff : {A B : Type 0} (f : A → B) (xs : List A) → (map f xs ≡ []) ↔ (xs ≡ [])
nil_map_iff f [] = (λ h. refl, λ h. refl)
nil_map_iff f (x ∷ xs) = (λ h. absurd (cc h), λ h. absurd (cc h))

-- The errors of a list, of which each entry adds its own.
both_iff :
    {A : Type 0} {P Q : Type 0} (xs ys : List A)
    → (xs ≡ []) ↔ P
    → (ys ≡ []) ↔ Q
    → (xs ++ ys ≡ []) ↔ (P × Q)
both_iff xs ys p q =
    let (split, join) = nil_append_iff xs ys in
    (λ h. let (a, b) = split h in (p.0 a, q.0 b), λ h. join (p.1 h.0, q.1 h.1))

-- Another policy has another target.
abbrev pub HasOwnTarget : Policy → Policy → Type 0
HasOwnTarget policy other =
    (other.name ≡ policy.name)
    ⊎ (same_target other.spec.target_resource policy.spec.target_resource ≡ false)

target_errors_iff :
    (policy : Policy) (others : List Policy)
    → (target_errors policy others ≡ []) ↔ All (HasOwnTarget policy) others
unfolding target_errors
target_errors_iff policy [] = (λ h. tt, λ h. refl)
target_errors_iff policy (o ∷ others) =
    let (forth, back) = target_errors_iff policy others in
    elim (Bool-cases (str_eq o.name policy.name)) [
      | inl e ↦
          (λ h. (inl (str_eq→eq o.name policy.name e), forth (rw e at h)), λ h. rw e (back h.1))
      | inr e ↦ elim (Bool-cases (same_target o.spec.target_resource policy.spec.target_resource)) [
        | inl f ↦ (
          λ h. absurd (cc (rw (e, f) at h)),
          λ h. elim h.0 [
            | inl g ↦ absurd (cc (sym (eq→str_eq o.name policy.name g) ∙ e))
            | inr g ↦ absurd (cc (sym f ∙ g))
          ],
        )
        | inr f ↦ (λ h. (inr f, forth (rw (e, f) at h)), λ h. rw (e, f) (back h.1))
      ]
    ]

message_iff : (s : Str) (e : FieldError) → ((if is_empty s then [] else e ∷ []) ≡ []) ↔ (s ≡ [])
message_iff [] e = (λ h. refl, λ h. refl)
message_iff (c ∷ s) e = (λ h. absurd (cc h), λ h. absurd (cc h))

path_errors_iff :
    (i : ℕ) (fs : List FieldPolicy)
    → (path_errors i fs ≡ []) ↔ All (λ (f : FieldPolicy). validate_path f.path ≡ []) fs
unfolding path_errors
path_errors_iff i [] = (λ h. tt, λ h. refl)
path_errors_iff i (f ∷ fs) =
    both_iff _ _ (message_iff (validate_path f.path) _) (path_errors_iff (suc i) fs)

flat : {P Q R : Type 0} → P × (Q × R) → P × Q × R
flat (p, q) = (p, q.0, q.1)

once_iff : (b : Bool) (e : FieldError) → ((if b then e ∷ [] else []) ≡ []) ↔ (b ≡ false)
once_iff true e = (λ h. absurd (cc h), λ h. absurd (cc h))
once_iff false e = (λ h. refl, λ h. refl)

fresh_iff :
    (x : Str) (seen xs : List Str)
    → All (λ y. has_str y (x ∷ seen) ≡ false) xs
      ↔ (All (λ y. has_str y seen ≡ false) xs × (has_str x xs ≡ false))
unfolding has_str
fresh_iff x seen [] = (λ h. (tt, refl), λ h. tt)
fresh_iff x seen (y ∷ xs) =
    let (forth, back) = fresh_iff x seen xs in
    (
      λ h.
          let (a, b) = forth h.1 in
          let (c, d) = or_false (str_eq x y) (has_str y seen) h.0 in
          ((d, a), false_or (str_eq y x) (has_str x xs) (str_eq_sym x y c) b),
      λ h.
          let (c, d) = or_false (str_eq y x) (has_str x xs) h.1 in
          (false_or (str_eq x y) (has_str y seen) (str_eq_sym y x c) h.0.0, back (h.0.1, d)),
    )
  where
    or_false : (a b : Bool) → (a || b) ≡ false → (a ≡ false) × (b ≡ false)
    or_false true b h = absurd (cc h)
    or_false false b h = (refl, h)

    false_or : (a b : Bool) → a ≡ false → b ≡ false → (a || b) ≡ false
    false_or a b h k = rw (h, k) refl

    str_eq_sym : (s t : Str) → str_eq s t ≡ false → str_eq t s ≡ false
    str_eq_sym s t h = ground (arith, h, str_eq_iff s t, str_eq_iff t s)

repeated_iff :
    (error : ℕ → Str → FieldError) (i : ℕ) (seen xs : List Str)
    → (repeated error i seen xs ≡ []) ↔ (All (λ x. has_str x seen ≡ false) xs × NoRepeat xs)
unfolding repeated
repeated_iff error i seen [] = (λ h. (tt, tt), λ h. refl)
repeated_iff error i seen (x ∷ xs) =
    let (split, join) =
      both_iff (if has_str x seen then error i x ∷ [] else []) _
        (once_iff (has_str x seen) (error i x)) (repeated_iff error (suc i) (x ∷ seen) xs) in
    let (apart, mixed) = fresh_iff x seen xs in
    (
      λ h. let (a, fresh, rest) = flat (split h) in let (b, c) = apart fresh in ((a, b), (c, rest)),
      λ h. join (h.0.0, (mixed (h.0.1, h.1.0), h.1.1)),
    )

once_each_iff :
    (error : ℕ → Str → FieldError) (xs : List Str) → (repeated error 0 [] xs ≡ []) ↔ NoRepeat xs
unfolding has_str
once_each_iff error xs =
    let (forth, back) = repeated_iff error 0 [] xs in
    (λ h. (forth h).1, λ h. back (all_fresh xs, h))
  where
    all_fresh : (ys : List Str) → All (λ y. has_str y [] ≡ false) ys
    all_fresh [] = tt
    all_fresh (y ∷ ys) = (refl, all_fresh ys)

module _ (compile : Str → Result CheckedAst) (max_depth : ℕ) where
  condition_errors_iff :
      (i : ℕ) (cs : List PolicyCondition)
      → (condition_errors compile max_depth i cs ≡ [])
        ↔ All
            (λ (c : PolicyCondition).
              (c.expression ≡ []) ⊎ IsAllowed compile max_depth c.expression)
            cs
  unfolding condition_errors
  condition_errors_iff i [] = (λ h. tt, λ h. refl)
  condition_errors_iff i (c ∷ cs) =
      let (forth, back) = validate_expression-IsAllowed compile max_depth c.expression in
      let (f, g) =
        nil_map_iff (λ e. invalid_expression i c.expression e)
          (validate_expression compile max_depth c.expression) in
      both_iff _ _ (λ h. forth (f h), λ h. g (back h)) (condition_errors_iff (suc i) cs)

  -- A policy is accepted exactly if: each other policy of another name has another target; each
  -- condition's expression is empty or is allowed; each field's path is valid; no path stands twice
  -- among the fields, and no name among the conditions.
  pub validate_policy_iff :
      (policy : Policy) (others : List Policy)
      → (validate_policy compile max_depth policy others ≡ []) ↔ (
          All (HasOwnTarget policy) others
          × All
              (λ (c : PolicyCondition).
                (c.expression ≡ []) ⊎ IsAllowed compile max_depth c.expression)
              policy.spec.conditions
          × All (λ (f : FieldPolicy). validate_path f.path ≡ []) policy.spec.fields
          × NoRepeat (paths_of policy.spec.fields)
          × NoRepeat (names_of policy.spec.conditions))
  unfolding validate_policy
  validate_policy_iff policy others =
      let (forth, back) = both_iff _ _ (target_errors_iff policy others) (
        both_iff _ _ (condition_errors_iff 0 policy.spec.conditions) (
          both_iff _ _ (path_errors_iff 0 policy.spec.fields) (
            both_iff _ _ (once_each_iff duplicate_path (paths_of policy.spec.fields))
              (once_each_iff duplicate_name (names_of policy.spec.conditions))))) in
      (
        λ h. let (a, r) = forth h in (a, r.0, r.1.0, r.1.1.0, r.1.1.1),
        λ h. back (h.0, (h.1, (h.2, (h.3, h.4)))),
      )
