-- ===== src/Tenants/Removal.antt =====
-- What internal/tenant leaves of a tenant that is removed.
use search.Prelude.{
  ◌==◌, if◌then◌else◌, Bool-cases, eqb→eq, All, Any, Elem, Str, str_eq, str_eq→eq, eq→str_eq,
  lookup, lookup-delete, ◌≡◌, refl, sym, subst, ◌≢◌, ◌⊎◌, inl, inr, true, false, none, List, [],
  ◌∷◌, arith,
}
use search.Api.{CachedPolicy}
use search.Tenants.{
  MultiTenantRegistry, FilterDelete, has_special, tenant_filter, filter_deletes,
  on_tenant_disengaged, remove_project,
}

-- The requests delete by the filter in the policy's index, if it has one.
abbrev pub Clears : Str → List FilterDelete → CachedPolicy → Type 0
Clears filter requests cp =
    (cp.policy.status.index_name ≡ [])
    ⊎ Elem (record { index_uid = cp.policy.status.index_name; filter = filter }) requests

Clears-later :
    (filter : Str) (request : FilterDelete) (requests : List FilterDelete) (cps : List CachedPolicy)
    → All (Clears filter requests) cps
    → All (Clears filter (request ∷ requests)) cps
Clears-later filter request requests [] h = tt
Clears-later filter request requests (cp ∷ cps) (inl e, h) =
    (inl e, Clears-later filter request requests cps h)
Clears-later filter request requests (cp ∷ cps) (inr i, h) =
    (inr (inr i), Clears-later filter request requests cps h)

filter_deletes-Clears :
    (filter : Str) (policies : List CachedPolicy)
    → All (Clears filter (filter_deletes filter policies)) policies
unfolding filter_deletes
filter_deletes-Clears filter [] = tt
filter_deletes-Clears filter (cp ∷ cps) =
    elim (Bool-cases (str_eq cp.policy.status.index_name [])) [
      | inl e ↦
          let same : filter_deletes filter (cp ∷ cps) ≡ filter_deletes filter cps = rw e refl in
          subst (λ rs. All (Clears filter rs) (cp ∷ cps)) (sym same)
            (inl (str_eq→eq cp.policy.status.index_name [] e), filter_deletes-Clears filter cps)
      | inr e ↦
          let request : FilterDelete = record {
            index_uid = cp.policy.status.index_name;
            filter = filter;
          } in
          let more : filter_deletes filter (cp ∷ cps) ≡ request ∷ filter_deletes filter cps =
            rw e refl in
          subst (λ rs. All (Clears filter rs) (cp ∷ cps)) (sym more)
            (
              inr (inl refl),
              Clears-later filter request (filter_deletes filter cps) cps
                  (filter_deletes-Clears filter cps),
            )
    ]

-- The request is for the index of one of the policies, which has a name, with the filter.
abbrev pub IsAsked : Str → List CachedPolicy → FilterDelete → Type 0
IsAsked filter policies d =
    Any (λ (cp : CachedPolicy). cp.policy.status.index_name ≡ d.index_uid) policies
    × (d.index_uid ≢ [])
    × (d.filter ≡ filter)

IsAsked-later :
    (filter : Str) (cp : CachedPolicy) (cps : List CachedPolicy) (ds : List FilterDelete)
    → All (IsAsked filter cps) ds
    → All (IsAsked filter (cp ∷ cps)) ds
IsAsked-later filter cp cps [] h = tt
IsAsked-later filter cp cps (d ∷ ds) ((i, n, e), h) =
    ((inr i, n, e), IsAsked-later filter cp cps ds h)

filter_deletes-IsAsked :
    (filter : Str) (policies : List CachedPolicy)
    → All (IsAsked filter policies) (filter_deletes filter policies)
unfolding filter_deletes
filter_deletes-IsAsked filter [] = tt
filter_deletes-IsAsked filter (cp ∷ cps) =
    let rest =
      IsAsked-later filter cp cps (filter_deletes filter cps) (filter_deletes-IsAsked filter cps) in
    elim (Bool-cases (str_eq cp.policy.status.index_name [])) [
      | inl e ↦ rw e rest
      | inr e ↦ rw e (
        (inl refl, (λ n. ground (arith, eq→str_eq cp.policy.status.index_name [] n)), refl),
        rest,
      )
    ]

-- A name that holds a quote or a backslash, and one that holds neither.
abbrev pub HoldsSpecial : Str → Type 0
HoldsSpecial = Any (λ c. (c ≡ b'"') ⊎ (c ≡ b'\\'))

abbrev pub HoldsNoSpecial : Str → Type 0
HoldsNoSpecial = All (λ c. (c ≢ b'"') × (c ≢ b'\\'))

has_special-cases :
    (name : Str)
    → ((has_special name ≡ true) × HoldsSpecial name)
      ⊎ ((has_special name ≡ false) × HoldsNoSpecial name)
unfolding has_special
has_special-cases [] = inr (refl, tt)
has_special-cases (c ∷ s) = elim (Bool-cases (c == b'"')) [
  | inl e ↦ inl (rw e refl, inl (inl (eqb→eq c b'"' e)))
  | inr e ↦ elim (Bool-cases (c == b'\\')) [
    | inl f ↦ inl (rw (e, f) refl, inl (inr (eqb→eq c b'\\' f)))
    | inr f ↦ elim (has_special-cases s) [
      | inl h ↦ inl (rw (e, f) h.0, inr h.1)
      | inr h ↦ inr (rw (e, f) h.0, ((λ n. ground (arith, e, n), λ n. ground (arith, f, n)), h.1))
    ]
  ]
]

-- Removing a project forgets its client and no other project's. If the name holds no quote and no
-- backslash, the tenant's documents are deleted from the index of every policy that has one, and
-- nothing else is requested; if it holds one of them, nothing is requested.
pub remove_project_cleans :
    {C : Type 0} (policies : List CachedPolicy) (name other : Str) (r : MultiTenantRegistry C)
    → (lookup other (remove_project policies name r).0.project_clients
        ≡ (if str_eq name other then none else lookup other r.project_clients))
      × ((HoldsSpecial name × ((remove_project policies name r).1 ≡ []))
          ⊎ (HoldsNoSpecial name
              × All (Clears (tenant_filter name) (remove_project policies name r).1) policies
              × All (IsAsked (tenant_filter name) policies) (remove_project policies name r).1))
unfolding remove_project on_tenant_disengaged
remove_project_cleans policies name other r = (
  lookup-delete name other r.project_clients,
  elim (has_special-cases name) [
    | inl (e, h) ↦ inl (h, rw e refl)
    | inr (e, h) ↦ inr (
      h,
      rw e (filter_deletes-Clears (tenant_filter name) policies),
      rw e (filter_deletes-IsAsked (tenant_filter name) policies),
    )
  ],
)
