-- ===== src/Tests/Search.antt =====
-- The search endpoint on one user and one policy.
use search.Prelude.{
  ltb, ◌==◌, if◌then◌else◌, lt→ltb, All, Str, lit, str_eq, str_eq_iff, lookup, ok, err, pos, ◌+ℤ◌,
  eqb_ℤ, eqb_ℤ→eq, to_int32, to_int64, IsInt32, ◌<◌, ◌≡◌, refl, sym, ap, subst, inl, Bool, true,
  false, ◌&&◌, none, some, List, [], ◌∷◌, arith,
}
use search.Api.{str, Fields, no_fields, field, get, remove, TargetResource}
use search.Evaluation.Matching.{same_target_iff}
use search.Paging.{
  QuerySpec, PagingClaims, Jwt, Rest, page, same_targets, validate_and_get_pagination,
  calculate_next_continue_token,
}
use search.Query.Response.{
  SearchResult, HitLibraries, without_internal, created, format_search_result, format_hits,
  answer_prepared, create, FromHit, create-scoped,
}
use search.Query.{
  serves, is_served, all_ready, has_target, unique_targets, partition, classify_targets,
  index_uid_for, index_uids_for, UserInfo, ParentContext, parent_type_key, parent_name_key,
  extract_parent_context, build_scoped_filter, per_index, MultiSearchRequest, multi_search_request,
  sends, prepare_page, prepare,
}
use search.Query.Classify.{IsClassified, classify_targets-IsClassified}
use search.Paging.Tokens.{ReadsBack, continued, validate-next_token}
use search.Paging.Limits.{changed_limit-accepted}
use search.Tests.{secret_target, secret_cached}

-- A token library whose only token stands for the claims of the first page.
abbrev first_claims : PagingClaims
first_claims = record {
  offset = pos 10;
  limit = pos 10;
  query = lit "web";
  target_resources = [];
  expires_at = 103;
}

abbrev claims_eq : PagingClaims → PagingClaims → Bool
claims_eq a b =
    eqb_ℤ a.offset b.offset
    && (eqb_ℤ a.limit b.limit
        && (str_eq a.query b.query
            && (same_targets a.target_resources b.target_resources
                && a.expires_at == b.expires_at)))

abbrev one_token : Jwt
one_token = record {
  signed_string = λ c. if claims_eq c first_claims then ok (lit "t") else err (lit "no key");
  parse_with_claims =
      λ now t. if str_eq t (lit "t") && ltb now 103 then some first_claims else none;
}

abbrev rest_server : Rest
rest_server = record {
  max_search_limit = pos 100;
  default_search_limit = pos 10;
  paging_timeout = 3;
  jwt = one_token;
}

abbrev first_query : QuerySpec
first_query = record {
  query = lit "web";
  target_resources = [];
  continue_token = [];
  limit = pos 0;
}

same_targets→eq : (as' bs : List TargetResource) → same_targets as' bs ≡ true → as' ≡ bs
unfolding same_targets
same_targets→eq [] [] h = refl
same_targets→eq [] (b ∷ bs) h = cc
same_targets→eq (a ∷ as') [] h = cc
same_targets→eq (a ∷ as') (b ∷ bs) h = ground (arith, same_target_iff a b, same_targets→eq as' bs)

claims_eq→eq : (a b : PagingClaims) → claims_eq a b ≡ true → a ≡ b
claims_eq→eq a b h = ground (
  arith,
  eqb_ℤ→eq a.offset b.offset,
  eqb_ℤ→eq a.limit b.limit,
  str_eq_iff a.query b.query,
  same_targets→eq a.target_resources b.target_resources,
)

signed_one :
    (b : Bool) (t : Str)
    → (if b then ok (lit "t") else err (lit "no key")) ≡ ok t
    → (b ≡ true) × (t ≡ lit "t")
signed_one true t s = (refl, cc)
signed_one false t s = cc

one_token-ReadsBack : ReadsBack one_token
unfolding str_eq
one_token-ReadsBack c t now s e =
    let (same, token) = signed_one (claims_eq c first_claims) t s in
    let claims = claims_eq→eq c first_claims same in
    rw (token, lt→ltb now 103 (subst (λ (x : PagingClaims). now < x.expires_at) claims e))
      (ap some (sym claims))

first_page : validate_and_get_pagination 100 rest_server first_query ≡ page (pos 10) (pos 0)
unfolding validate_and_get_pagination str_eq
first_page = refl

first_token :
    calculate_next_continue_token 100 rest_server (pos 0) (pos 10) 10 first_query ≡ lit "t"
unfolding calculate_next_continue_token ◌+ℤ◌ to_int32 to_int64 str_eq same_targets eqb_ℤ
first_token = refl

ten-IsInt32 : IsInt32 (pos 10)
unfolding to_int32
ten-IsInt32 = refl

validate-next_token_example :
    validate_and_get_pagination 101 rest_server (
      continued
        (calculate_next_continue_token 100 rest_server (pos 0) (pos 10) 10 first_query)
        first_query)
    ≡ page (pos 10) (to_int64 (pos 0 +ℤ pos 10))
validate-next_token_example =
    validate-next_token 100 rest_server first_query (pos 10) (pos 0) 10 101 one_token-ReadsBack
      first_page ten-IsInt32 (rw first_token (λ e. cc)) (omega arith)

-- The second page, with a limit that the first one did not have.
abbrev greedy_query : QuerySpec
greedy_query = record first_query { continue_token = lit "t"; limit = pos 5000 }

token_read : one_token.parse_with_claims 101 (lit "t") ≡ some first_claims
unfolding str_eq
token_read = refl

default_limit : pos 10 ≡ to_int32 (pos 10)
unfolding to_int32
default_limit = refl

changed_limit-accepted_example :
    validate_and_get_pagination 101 rest_server greedy_query ≡ page (pos 10) (pos 10)
changed_limit-accepted_example =
    changed_limit-accepted 101 rest_server greedy_query first_claims (λ e. cc) token_read refl refl
      default_limit

abbrev other_target : TargetResource
other_target = record { group = lit "apps"; version = lit "v1"; kind = lit "Deployment" }

classify_targets-IsClassified_example :
    IsClassified (secret_target ∷ other_target ∷ secret_target ∷ []) (secret_cached ∷ [])
classify_targets-IsClassified_example =
    classify_targets-IsClassified (secret_target ∷ other_target ∷ secret_target ∷ [])
      (secret_cached ∷ []) (λ e. cc)

abbrev unchanged : Str → Str
unchanged s = s

abbrev project_user : UserInfo
project_user = record {
  extra = (parent_type_key, lit "project" ∷ []) ∷ (parent_name_key, lit "acme" ∷ []) ∷ [];
}

abbrev project_context : ParentContext
project_context = record { type_name = lit "project"; name = lit "acme" }

user_context : extract_parent_context (some project_user) ≡ some project_context
unfolding extract_parent_context lookup str_eq
user_context = refl

abbrev first_request : MultiSearchRequest
first_request = record {
  queries =
      record {
        index_uid = lit "v1_secret";
        query = lit "web";
        filter = some (build_scoped_filter unchanged unchanged (some project_context));
      }
      ∷ [];
  limit = pos 10;
  offset = pos 0;
}

first_sent :
    prepare unchanged unchanged 100 rest_server (secret_cached ∷ []) (some project_user) first_query
    ≡ sends first_request [] (pos 10) (pos 0)
unfolding prepare prepare_page validate_and_get_pagination classify_targets all_ready index_uids_for
    index_uid_for serves extract_parent_context build_scoped_filter multi_search_request per_index
    lookup str_eq
first_sent = refl

abbrev scoped_hit : Fields
scoped_hit = field (lit "kind") (str (lit "Secret")) no_fields

abbrev plain_hits : HitLibraries
plain_hits = record { round_score = λ s. []; unmarshal_object = λ o. ok o }

abbrev hit_result : SearchResult
hit_result = record {
  resource = scoped_hit;
  relevance_score = [];
  tenant_name = lit "platform";
  tenant_type = lit "platform";
}

one_hit :
    create plain_hits unchanged unchanged 100 rest_server
      (secret_cached ∷ [])
      (λ request. ok (scoped_hit ∷ []))
      (some project_user)
      first_query
    ≡ created (hit_result ∷ []) [] []
unfolding create answer_prepared format_hits format_search_result without_internal remove get
    calculate_next_continue_token prepare prepare_page validate_and_get_pagination classify_targets
    unique_targets has_target partition is_served serves index_uids_for index_uid_for
    extract_parent_context build_scoped_filter multi_search_request per_index lookup str_eq
one_hit = refl

create-scoped_example :
    (request : MultiSearchRequest) × (hits : List Fields) × All
      (λ s. s.filter ≡ some (build_scoped_filter unchanged unchanged (some project_context)))
      request.queries
    × (ok (scoped_hit ∷ []) ≡ ok hits)
    × FromHit plain_hits hits hit_result
create-scoped_example =
    create-scoped plain_hits unchanged unchanged 100 rest_server (secret_cached ∷ [])
      (λ request. ok (scoped_hit ∷ [])) project_user project_context first_query (hit_result ∷ [])
      [] [] hit_result user_context one_hit (inl refl)
