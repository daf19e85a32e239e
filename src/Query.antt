-- ===== src/Query.antt =====
-- internal/registry/resourcesearchquery: the search endpoint. rest.go, classify.go, context.go, and
-- `MultiSearch` of pkg/meilisearch/sdk_client.go.
pub mod Classify
pub mod Indexes
pub mod Scope
pub mod Response
use search.Prelude.{
  if◌then◌else◌, is_empty, Str, lit, str_eq, Dict, lookup, Result, ok, err, ℤ, ℕ, Bool, true, false,
  ◌&&◌, ◌||◌, not, Option, none, some, List, [], ◌∷◌, ◌++◌,
}
use search.Paging.{
  QuerySpec, Rest, RequestError, Validated, page, bad_request, validate_and_get_pagination,
}
use search.Api.{TargetResource, CachedPolicy, same_target}

-- A policy with an index indexes the target.
unfoldable pub serves : TargetResource → CachedPolicy → Bool
serves t cp =
    same_target cp.policy.spec.target_resource t && not (str_eq cp.policy.status.index_name [])

unfoldable pub is_served : TargetResource → List CachedPolicy → Bool
unfolding serves
is_served t [] = false
is_served t (cp ∷ cps) = if serves t cp then true else is_served t cps

unfoldable pub all_ready : List CachedPolicy → List TargetResource
all_ready [] = []
all_ready (cp ∷ cps) =
    let rest = all_ready cps in
    if not (str_eq cp.policy.status.index_name [])
    then cp.policy.spec.target_resource ∷ rest
    else rest

unfoldable pub has_target : TargetResource → List TargetResource → Bool
has_target t [] = false
has_target t (u ∷ us) = same_target u t || has_target t us

-- The first loop: `seen` and `unique` hold the same targets.
unfoldable pub unique_targets : List TargetResource → List TargetResource → List TargetResource
unfolding has_target
unique_targets [] unique = unique
unique_targets (t ∷ ts) unique =
    unique_targets ts (if not (has_target t unique) then unique ++ t ∷ [] else unique)

unfoldable pub partition :
    List CachedPolicy → List TargetResource → List TargetResource × List TargetResource
unfolding is_served
partition policies [] = ([], [])
partition policies (t ∷ ts) =
    let (allowed, denied) = partition policies ts in
    if is_served t policies then (t ∷ allowed, denied) else (allowed, t ∷ denied)

-- The allowed and the denied targets.
unfoldable pub classify_targets :
    List TargetResource → List CachedPolicy → List TargetResource × List TargetResource
unfolding all_ready unique_targets partition
classify_targets [] policies = (all_ready policies, [])
classify_targets (t ∷ ts) policies = partition policies (unique_targets (t ∷ ts) [])

-- The inner loop of `indexUIDsFor`, which stops at the first policy that serves the target.
unfoldable pub index_uid_for : TargetResource → List CachedPolicy → List Str
unfolding serves
index_uid_for t [] = []
index_uid_for t (cp ∷ cps) =
    if serves t cp then cp.policy.status.index_name ∷ [] else index_uid_for t cps

unfoldable pub index_uids_for : List TargetResource → List CachedPolicy → List Str
unfolding index_uid_for
index_uids_for [] policies = []
index_uids_for (t ∷ ts) policies = index_uid_for t policies ++ index_uids_for ts policies

-- The identity of a request, by its extra attributes.
pub record UserInfo : Type 0 where
  pub extra : Dict (List Str)

pub record ParentContext : Type 0 where
  pub type_name : Str
  pub name : Str

abbrev pub parent_type_key : Str
parent_type_key = lit "iam.miloapis.com/parent-type"

abbrev pub parent_name_key : Str
parent_name_key = lit "iam.miloapis.com/parent-name"

-- The first value of each attribute, if both have one.
abbrev pub first_values : Option (List Str) → Option (List Str) → Option ParentContext
first_values (some (t ∷ ts)) (some (n ∷ ns)) = some (record { type_name = t; name = n })
first_values (some (t ∷ ts)) (some []) = none
first_values (some (t ∷ ts)) none = none
first_values (some []) _ = none
first_values none _ = none

unfoldable pub extract_parent_context : Option UserInfo → Option ParentContext
unfolding lookup
extract_parent_context none = none
extract_parent_context (some u) =
    first_values (lookup parent_type_key u.extra) (lookup parent_name_key u.extra)

-- `lower` is strings.ToLower, and `quote` the verb %q.
unfoldable pub build_scoped_filter : (Str → Str) → (Str → Str) → Option ParentContext → Str
build_scoped_filter lower quote none = []
build_scoped_filter lower quote (some p) =
    lit "(_tenant_type = "
    ++ (quote (lower p.type_name) ++ (lit " AND _tenant = " ++ (quote p.name ++ lit ")")))

-- One query of the federated request; `none` is a query without a filter.
pub record SearchRequest : Type 0 where
  pub index_uid : Str
  pub query : Str
  pub filter : Option Str

unfoldable pub per_index : Str → Str → List Str → List SearchRequest
per_index query filter [] = []
per_index query filter (uid ∷ uids) =
    record {
      index_uid = uid;
      query = query;
      filter = if not (str_eq filter []) then some filter else none;
    }
    ∷ per_index query filter uids

-- The request of `MultiSearch`, which refuses to search no index.
pub record MultiSearchRequest : Type 0 where
  pub queries : List SearchRequest
  pub limit : ℤ
  pub offset : ℤ

unfoldable pub multi_search_request : List Str → Str → ℤ → ℤ → Str → Result MultiSearchRequest
unfolding per_index
multi_search_request [] query limit offset filter = err (lit "no index UIDs provided")
multi_search_request (uid ∷ uids) query limit offset filter =
    ok (record { queries = per_index query filter (uid ∷ uids); limit = limit; offset = offset })

-- What `Create` does before it gets an answer: it fails, answers at once, or sends a request.
pub data Prepared : Type 0 where
  rejected : RequestError → Prepared
  unauthorized : Prepared
  nothing_to_search : List TargetResource → Prepared
  fails : Str → Prepared
  sends : MultiSearchRequest → List TargetResource → ℤ → ℤ → Prepared

module _ (lower quote : Str → Str) (now : ℕ) (r : Rest) (policies : List CachedPolicy) where
  unfoldable pub prepare_page : Option UserInfo → QuerySpec → Validated → Prepared
  unfolding classify_targets index_uids_for extract_parent_context build_scoped_filter
      multi_search_request
  prepare_page user q (bad_request e) = rejected e
  prepare_page none q (page limit offset) = unauthorized
  prepare_page (some u) q (page limit offset) =
      let (allowed, denied) = classify_targets q.target_resources policies in
      let filter = build_scoped_filter lower quote (extract_parent_context (some u)) in
      let uids = index_uids_for allowed policies in
      if is_empty uids
      then nothing_to_search denied
      else elim (multi_search_request uids q.query limit offset filter) [
        | err e ↦ fails e
        | ok request ↦ sends request denied limit offset
      ]

  unfoldable pub prepare : Option UserInfo → QuerySpec → Prepared
  unfolding prepare_page validate_and_get_pagination
  prepare user q = prepare_page user q (validate_and_get_pagination now r q)
