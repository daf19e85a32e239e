-- ===== src/Paging/Limits.antt =====
-- The limits that internal/registry/resourcesearchquery/rest.go accepts for a page.
use search.Prelude.{
  if◌then◌else◌, Str, str_eq, str_eq_refl, eq→str_eq, ℤ, pos, negsuc, ltb_ℤ, eqb_ℤ, eqb_ℤ_refl,
  to_int32, ℕ, ◌≡◌, refl, sym, subst, ◌≢◌, ◌⊎◌, inl, inr, Bool, true, false, some, List, [], ◌∷◌,
  arith,
}
use search.Api.{TargetResource}
use search.Paging.{
  QuerySpec, PagingClaims, Rest, negative_limit, limit_above_maximum, page, bad_request,
  same_targets, validate_token, validate_and_get_pagination,
}

-- A limit in the range that a new query may have.
abbrev IsFreshLimit : Rest → ℤ → Type 0
IsFreshLimit r limit = (ltb_ℤ r.max_search_limit limit ≡ false) ⊎ (limit ≡ r.default_search_limit)

page_parts : {l l' o o' : ℤ} → page l o ≡ page l' o' → l ≡ l'
page_parts h = cc

not_both : (l : ℤ) → ltb_ℤ l (pos 0) ≡ false → ltb_ℤ (pos 0) l ≡ false → l ≡ pos 0
not_both (pos n) h k = ground arith
not_both (negsuc n) h k = ground arith

pub same_targets_refl : (ts : List TargetResource) → same_targets ts ts ≡ true
unfolding same_targets
same_targets_refl [] = refl
same_targets_refl (t ∷ ts) =
    rw (str_eq_refl t.group)
      (rw (str_eq_refl t.version) (rw (str_eq_refl t.kind) (same_targets_refl ts)))

-- A new query names no limit and has the default, or names one within the maximum.
fresh-cases :
    (negative named above : Bool) (d l limit offset : ℤ)
    → (if negative
        then bad_request negative_limit
        else if named
        then (if above then bad_request limit_above_maximum else page l (pos 0))
        else page d (pos 0))
      ≡ page limit offset
    → ((negative ≡ false) × (named ≡ false) × (d ≡ limit)) ⊎ ((above ≡ false) × (l ≡ limit))
fresh-cases true named above d l limit offset h = cc
fresh-cases false true true d l limit offset h = cc
fresh-cases false true false d l limit offset h = inr (refl, page_parts h)
fresh-cases false false above d l limit offset h = inl (refl, refl, page_parts h)

pub filled : (s : Str) → s ≢ [] → str_eq s [] ≡ false
unfolding str_eq
filled [] n = absurd (n refl)
filled (a ∷ s) n = refl

accept-default_limit :
    (r : Rest) (q : QuerySpec) (claims : PagingClaims)
    → q.query ≡ claims.query
    → q.target_resources ≡ claims.target_resources
    → claims.limit ≡ to_int32 r.default_search_limit
    → validate_token r q (some claims) ≡ page claims.limit claims.offset
unfolding validate_token
accept-default_limit r q claims e ts d = rw (eq→str_eq q.query claims.query e) (
    rw
      (subst (λ us. same_targets q.target_resources us ≡ true) ts
        (same_targets_refl q.target_resources))
      (rw
        (subst (λ l. eqb_ℤ (to_int32 r.default_search_limit) l ≡ true) (sym d)
          (eqb_ℤ_refl (to_int32 r.default_search_limit)))
        refl))

module _ (now : ℕ) (r : Rest) (q : QuerySpec) where
  pub new_query-cases :
      (limit offset : ℤ)
      → validate_and_get_pagination now r q ≡ page limit offset
      → q.continue_token ≡ []
      → ((q.limit ≡ pos 0) × (r.default_search_limit ≡ limit))
        ⊎ ((ltb_ℤ r.max_search_limit q.limit ≡ false) × (q.limit ≡ limit))
  unfolding validate_and_get_pagination
  new_query-cases limit offset h e =
      elim (fresh-cases (ltb_ℤ q.limit (pos 0)) (ltb_ℤ (pos 0) q.limit)
        (ltb_ℤ r.max_search_limit q.limit) r.default_search_limit q.limit limit offset
        (rw (eq→str_eq q.continue_token [] e) at h)) [
          | inl p ↦ inl (not_both q.limit (p.0) (p.1), p.2)
          | inr p ↦ inr p
        ]

  -- A query without a token gets a limit within the maximum, or the default one.
  new_query-limit :
      (limit offset : ℤ)
      → q.continue_token ≡ []
      → validate_and_get_pagination now r q ≡ page limit offset
      → IsFreshLimit r limit
  new_query-limit limit offset e v = elim (new_query-cases limit offset v e) [
    | inl p ↦ inr (sym (p.1))
    | inr p ↦ inl (subst (λ l. ltb_ℤ r.max_search_limit l ≡ false) (p.1) (p.0))
  ]

  -- A valid token whose limit is the default one is accepted whatever limit the query names, as
  -- long as the query string and the targets are unchanged: the check on the limit is skipped.
  pub changed_limit-accepted :
      (claims : PagingClaims)
      → q.continue_token ≢ []
      → r.jwt.parse_with_claims now q.continue_token ≡ some claims
      → q.query ≡ claims.query
      → q.target_resources ≡ claims.target_resources
      → claims.limit ≡ to_int32 r.default_search_limit
      → validate_and_get_pagination now r q ≡ page claims.limit claims.offset
  unfolding validate_and_get_pagination
  changed_limit-accepted claims n p e ts d =
      rw (filled q.continue_token n) (rw p (accept-default_limit r q claims e ts d))
