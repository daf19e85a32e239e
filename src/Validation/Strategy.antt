-- ===== src/Validation/Strategy.antt =====
-- internal/registry/policy/resourceindexpolicy/strategy.go: what the API server asks of a policy
-- before it stores it, with the list of the stored policies as a parameter.
use search.Prelude.{
  All, Elem, All-Elem, Str, lit, str_eq, str_eq_iff, Result, ok, err, ℕ, ◌≡◌, sym, ap, subst, ◌∙◌,
  ◌⊎◌, inl, inr, Option, none, some, List, [], ◌∷◌, ◌++◌, arith,
}
use search.Api.{Policy}
use search.Cel.{CheckedAst}
use search.Validation.{FieldError, internal_error, validate_policy}
use search.Validation.Accepted.{HasOwnTarget, validate_policy_iff}

-- A `runtime.Object`: a policy, or an object of another type, by that type's name.
pub data StoredObject : Type 0 where
  policy_object : Policy → StoredObject
  other_object : Str → StoredObject

-- `NewStrategy`
abbrev pub strategy_depth : ℕ
strategy_depth = 50

-- What `lister.List` answers, if a lister is set: an error, or a list, which is one of policies or
-- of something else.
abbrev pub Listing : Type 0
Listing = Option (Result (Option (List Policy)))

-- The policies that `validate` compares with. A list that fails counts as an empty one.
unfoldable pub listed_policies : Listing → List Policy
listed_policies none = []
listed_policies (some (err e)) = []
listed_policies (some (ok none)) = []
listed_policies (some (ok (some policies))) = policies

unfoldable pub validate_object :
    (Str → Result CheckedAst) → Listing → StoredObject → List FieldError
unfolding listed_policies
validate_object compile listing (other_object t) =
    internal_error (lit "expected ResourceIndexPolicy, got " ++ t) ∷ []
validate_object compile listing (policy_object p) =
    validate_policy compile strategy_depth p (listed_policies listing)

-- `PrepareForUpdate` of a status: the spec stays as it is stored.
unfoldable pub prepare_status_update : Policy → Policy → Policy
prepare_status_update new old = record {
  name = new.name;
  deletion_timestamp = new.deletion_timestamp;
  spec = old.spec;
  status = new.status;
}

-- Any two policies of different names have different targets.
abbrev pub HaveOwnTargets : List Policy → Type 0
HaveOwnTargets policies = (p q : Policy) → Elem p policies → Elem q policies → HasOwnTarget p q

str_eq_swap : (s t : Str) → str_eq s t ≡ str_eq t s
str_eq_swap s t = ground (arith, str_eq_iff s t, str_eq_iff t s)

HasOwnTarget-swap : (p q : Policy) → HasOwnTarget p q → HasOwnTarget q p
HasOwnTarget-swap p q (inl e) = inl (sym e)
HasOwnTarget-swap p q (inr e) =
    let a = p.spec.target_resource in
    let b = q.spec.target_resource in
    inr (
      rw (str_eq_swap a.group b.group, str_eq_swap a.version b.version, str_eq_swap a.kind b.kind)
        e)

module _ (compile : Str → Result CheckedAst) where
  -- Where the stored policies of different names have different targets, and a policy passes the
  -- strategy against the list of them, the same holds of any list of that policy and of policies
  -- stored before, such as after the creation or the update.
  pub validate_object-HaveOwnTargets :
      (stored after : List Policy) (p : Policy)
      → HaveOwnTargets stored
      → validate_object compile (some (ok (some stored))) (policy_object p) ≡ []
      → ((q : Policy) → Elem q after → (q ≡ p) ⊎ Elem q stored)
      → HaveOwnTargets after
  unfolding validate_object
  validate_object-HaveOwnTargets stored after p own h old q r i j = of_origins (old q i) (old r j)
    where
      accepted : All (HasOwnTarget p) stored
      accepted = ((validate_policy_iff compile strategy_depth p stored).0 h).0

      of_origins : (q ≡ p) ⊎ Elem q stored → (r ≡ p) ⊎ Elem r stored → HasOwnTarget q r
      of_origins (inl e) (inl f) = inl (ap (λ (x : Policy). x.name) (f ∙ sym e))
      of_origins (inl e) (inr k) =
          subst (λ x. HasOwnTarget x r) (sym e) (All-Elem (HasOwnTarget p) r stored accepted k)
      of_origins (inr k) (inl f) =
          subst (λ x. HasOwnTarget q x) (sym f)
            (HasOwnTarget-swap p q (All-Elem (HasOwnTarget p) q stored accepted k))
      of_origins (inr k) (inr l) = own q r k l
