-- ===== src/Paging.antt =====
-- internal/registry/resourcesearchquery/rest.go: the limit, the offset and the token of a page. Times
-- are in seconds.
pub mod Tokens
pub mod Limits
use search.Prelude.{
  ltb, if◌then◌else◌, Str, str_eq, Result, ok, err, ℤ, pos, ◌+ℤ◌, ltb_ℤ, eqb_ℤ, to_int32, to_int64,
  ℕ, ◌+◌, Bool, true, false, ◌&&◌, not, Option, none, some, List, [], ◌∷◌,
}
use search.Api.{TargetResource, same_target}

pub record QuerySpec : Type 0 where
  pub query : Str
  pub target_resources : List TargetResource
  pub continue_token : Str
  pub limit : ℤ

-- The claims of a paging token; the time of issue is not read.
pub record PagingClaims : Type 0 where
  pub offset : ℤ
  pub limit : ℤ
  pub query : Str
  pub target_resources : List TargetResource
  pub expires_at : ℕ

-- The JWT library with the server's key: `parse_with_claims now` gives the claims of a valid token.
pub record Jwt : Type 0 where
  pub signed_string : PagingClaims → Result Str
  pub parse_with_claims : ℕ → Str → Option PagingClaims

pub record Rest : Type 0 where
  pub max_search_limit : ℤ
  pub default_search_limit : ℤ
  pub paging_timeout : ℕ
  pub jwt : Jwt

pub data RequestError : Type 0 where
  invalid_continue_token query_changed limit_changed target_resources_changed : RequestError
  negative_limit limit_above_maximum : RequestError

pub data Validated : Type 0 where
  page : ℤ → ℤ → Validated
  bad_request : RequestError → Validated

-- reflect.DeepEqual on target resources.
unfoldable pub same_targets : List TargetResource → List TargetResource → Bool
same_targets [] [] = true
same_targets [] (b ∷ bs) = false
same_targets (a ∷ as') [] = false
same_targets (a ∷ as') (b ∷ bs) = same_target a b && same_targets as' bs

unfoldable pub validate_token : Rest → QuerySpec → Option PagingClaims → Validated
unfolding eqb_ℤ to_int32 same_targets
validate_token r q none = bad_request invalid_continue_token
validate_token r q (some claims) =
    if not (str_eq q.query claims.query)
    then bad_request query_changed
    else if not (eqb_ℤ (to_int32 r.default_search_limit) claims.limit)
        && (not (eqb_ℤ q.limit (pos 0)) && not (eqb_ℤ q.limit claims.limit))
    then bad_request limit_changed
    else if not (same_targets q.target_resources claims.target_resources)
    then bad_request target_resources_changed
    else page claims.limit claims.offset

unfoldable pub validate_and_get_pagination : ℕ → Rest → QuerySpec → Validated
unfolding validate_token
validate_and_get_pagination now r q =
    if not (str_eq q.continue_token [])
    then validate_token r q (r.jwt.parse_with_claims now q.continue_token)
    else if ltb_ℤ q.limit (pos 0)
    then bad_request negative_limit
    else if ltb_ℤ (pos 0) q.limit
    then (if ltb_ℤ r.max_search_limit q.limit
        then bad_request limit_above_maximum
        else page q.limit (pos 0))
    else page r.default_search_limit (pos 0)

abbrev pub next_claims : ℕ → Rest → ℤ → ℤ → QuerySpec → PagingClaims
next_claims now r offset limit q = record {
  offset = to_int64 (offset +ℤ limit);
  limit = to_int32 limit;
  query = q.query;
  target_resources = q.target_resources;
  expires_at = now + r.paging_timeout;
}

abbrev pub token_or_empty : Result Str → Str
token_or_empty (ok s) = s
token_or_empty (err e) = []

unfoldable pub calculate_next_continue_token : ℕ → Rest → ℤ → ℤ → ℕ → QuerySpec → Str
unfolding ◌+ℤ◌ to_int32 to_int64
calculate_next_continue_token now r offset limit hits q =
    if ltb 0 hits && not (ltb_ℤ (pos hits) limit)
    then token_or_empty (r.jwt.signed_string (next_claims now r offset limit q))
    else []
