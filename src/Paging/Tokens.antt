-- ===== src/Paging/Tokens.antt =====
-- The paging tokens of internal/registry/resourcesearchquery/rest.go.
use search.Prelude.{
  ltb, if◌then◌else◌, Bool-cases, Str, str_eq, str_eq_refl, str_eq→eq, Result, ok, err, ℤ, pos,
  ◌+ℤ◌, ltb_ℤ, eqb_ℤ, eqb_ℤ_refl, to_int32, to_int64, IsInt32, ℕ, ◌+◌, ◌<◌, ◌≡◌, refl, sym, ap, ◌∙◌,
  ◌≢◌, inl, inr, Bool, true, false, ◌&&◌, ◌||◌, not, Option, none, some, [], arith,
}
use search.Paging.{
  QuerySpec, PagingClaims, Jwt, Rest, page, validate_token, validate_and_get_pagination,
  next_claims, token_or_empty, calculate_next_continue_token,
}
use search.Paging.Limits.{same_targets_refl, filled, new_query-cases}

-- The token library reads back the claims it signed, until they expire.
abbrev pub ReadsBack : Jwt → Type 0
ReadsBack j =
    (c : PagingClaims) (t : Str) (now : ℕ)
    → j.signed_string c ≡ ok t
    → now < c.expires_at
    → j.parse_with_claims now t ≡ some c

-- The query that asks for the next page.
abbrev pub continued : Str → QuerySpec → QuerySpec
continued token q = record {
  query = q.query;
  target_resources = q.target_resources;
  continue_token = token;
  limit = q.limit;
}

-- The limit of a page agrees with the limit that the query names.
abbrev pub agrees : Rest → QuerySpec → ℤ → Bool
agrees r q limit =
    eqb_ℤ (to_int32 r.default_search_limit) limit || (eqb_ℤ q.limit (pos 0) || eqb_ℤ q.limit limit)

validate_token-agrees :
    (r : Rest) (q : QuerySpec) (c : Option PagingClaims) (limit offset : ℤ)
    → validate_token r q c ≡ page limit offset
    → agrees r q limit ≡ true
unfolding validate_token
validate_token-agrees r q none limit offset h = cc
validate_token-agrees r q (some c) limit offset h = ground arith

agrees_unnamed : (r : Rest) (q : QuerySpec) (limit : ℤ) → q.limit ≡ pos 0 → agrees r q limit ≡ true
unfolding eqb_ℤ
agrees_unnamed r q limit h = rw h (ground arith)

agrees_same : (r : Rest) (q : QuerySpec) (limit : ℤ) → q.limit ≡ limit → agrees r q limit ≡ true
agrees_same r q limit h = rw h (rw (eqb_ℤ_refl limit) (ground arith))

token_or_empty-cases :
    (b : Bool) (x : Result Str)
    → (if b then token_or_empty x else []) ≢ []
    → (t : Str) × (x ≡ ok t) × ((if b then token_or_empty x else []) ≡ t)
token_or_empty-cases true (ok t) h = (t, refl, refl)
token_or_empty-cases true (err e) h = absurd (h refl)
token_or_empty-cases false x h = absurd (h refl)

limit_test : (b c d : Bool) → (b || (c || d)) ≡ true → (not b && (not c && not d)) ≡ false
limit_test b c d h = ground arith

module _ (now : ℕ) (r : Rest) (q : QuerySpec) where
  validate-agrees :
      (limit offset : ℤ)
      → validate_and_get_pagination now r q ≡ page limit offset
      → agrees r q limit ≡ true
  unfolding validate_and_get_pagination
  validate-agrees limit offset h = elim (Bool-cases (str_eq q.continue_token [])) [
    | inl e ↦ elim (new_query-cases now r q limit offset h (str_eq→eq q.continue_token [] e)) [
      | inl p ↦ agrees_unnamed r q limit (p.0)
      | inr p ↦ agrees_same r q limit (p.1)
    ]
    | inr e ↦
        validate_token-agrees r q (r.jwt.parse_with_claims now q.continue_token) limit offset
          (rw e at h)
  ]

  token-cases :
      (offset limit : ℤ) (hits : ℕ)
      → calculate_next_continue_token now r offset limit hits q ≢ []
      → (t : Str) × (r.jwt.signed_string (next_claims now r offset limit q) ≡ ok t)
        × (calculate_next_continue_token now r offset limit hits q ≡ t)
  unfolding calculate_next_continue_token
  token-cases offset limit hits h =
      token_or_empty-cases (ltb 0 hits && not (ltb_ℤ (pos hits) limit))
        (r.jwt.signed_string (next_claims now r offset limit q)) h

  validate-own_claims :
      (offset limit : ℤ) (token : Str)
      → agrees r q limit ≡ true
      → IsInt32 limit
      → validate_token r (continued token q) (some (next_claims now r offset limit q))
        ≡ page limit (to_int64 (offset +ℤ limit))
  unfolding validate_token
  validate-own_claims offset limit token a i = rw (str_eq_refl q.query) (
      rw (same_targets_refl q.target_resources) (
        rw i (
          rw
            (limit_test (eqb_ℤ (to_int32 r.default_search_limit) limit) (eqb_ℤ q.limit (pos 0))
              (eqb_ℤ q.limit limit) a)
            refl)))

  reads-own_token :
      (offset limit : ℤ) (token : Str) (later : ℕ)
      → ReadsBack r.jwt
      → agrees r q limit ≡ true
      → IsInt32 limit
      → token ≢ []
      → r.jwt.signed_string (next_claims now r offset limit q) ≡ ok token
      → later < now + r.paging_timeout
      → validate_and_get_pagination later r (continued token q)
        ≡ page limit (to_int64 (offset +ℤ limit))
  unfolding validate_and_get_pagination
  reads-own_token offset limit token later back a i n s e = rw (filled token n) (
      rw (back (next_claims now r offset limit q) token later s e)
        (validate-own_claims offset limit token a i))

  -- The token that a page hands out is accepted with the same query until it expires, gives a page
  -- of the same limit, and moves the offset on by that limit, as an int64. It needs a limit that is
  -- an int32, which the token stores.
  pub validate-next_token :
      (limit offset : ℤ) (hits later : ℕ)
      → ReadsBack r.jwt
      → validate_and_get_pagination now r q ≡ page limit offset
      → IsInt32 limit
      → calculate_next_continue_token now r offset limit hits q ≢ []
      → later < now + r.paging_timeout
      → validate_and_get_pagination later r
          (continued (calculate_next_continue_token now r offset limit hits q) q)
        ≡ page limit (to_int64 (offset +ℤ limit))
  validate-next_token limit offset hits later back v i n e =
      let (t, s, c) = token-cases offset limit hits n in
      reads-own_token offset limit (calculate_next_continue_token now r offset limit hits q) later
        back (validate-agrees limit offset v) i n (s ∙ ap ok (sym c)) e
