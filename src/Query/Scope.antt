-- ===== src/Query/Scope.antt =====
-- Tenant isolation in internal/registry/resourcesearchquery/rest.go.
use search.Prelude.{
  if◌then◌else◌, is_empty, All, Str, str_eq_iff, ok, err, ℤ, ℕ, ◌≡◌, subst, ◌≢◌, some, List, [],
  ◌∷◌, arith,
}
use search.Api.{TargetResource, CachedPolicy}
use search.Paging.{QuerySpec, Rest, Validated, page, bad_request, validate_and_get_pagination}
use search.Query.{
  classify_targets, index_uids_for, UserInfo, ParentContext, extract_parent_context,
  build_scoped_filter, per_index, MultiSearchRequest, multi_search_request, Prepared,
  nothing_to_search, fails, sends, prepare_page, prepare,
}

-- What a sent request looks like.
abbrev pub OnSend : (MultiSearchRequest → Type 0) → Prepared → Type 0
OnSend P (sends request denied limit offset) = P request
OnSend P _ = Unit {0}

per_index-filter :
    (query filter : Str) (uids : List Str)
    → filter ≢ []
    → All (λ q. q.filter ≡ some filter) (per_index query filter uids)
unfolding per_index
per_index-filter query filter [] n = tt
per_index-filter query filter (uid ∷ uids) n =
    (ground (arith, str_eq_iff filter []), per_index-filter query filter uids n)

module _ (lower quote : Str → Str) (now : ℕ) (r : Rest) (policies : List CachedPolicy) where
  build_scoped_filter-filled : (p : ParentContext) → build_scoped_filter lower quote (some p) ≢ []
  unfolding build_scoped_filter
  build_scoped_filter-filled p h = ground (arith, h)

  multi_search_request-scoped :
      (uids : List Str) (query filter : Str) (limit offset : ℤ) (denied : List TargetResource)
      → filter ≢ []
      → OnSend
          (λ request. All (λ s. s.filter ≡ some filter) request.queries)
          (if is_empty uids
            then nothing_to_search denied
            else elim (multi_search_request uids query limit offset filter) [
              | err e ↦ fails e
              | ok request ↦ sends request denied limit offset
            ])
  unfolding multi_search_request
  multi_search_request-scoped [] query filter limit offset denied n = tt
  multi_search_request-scoped (uid ∷ uids) query filter limit offset denied n =
      per_index-filter query filter (uid ∷ uids) n

  prepare_page-scoped :
      (u : UserInfo) (p : ParentContext) (q : QuerySpec) (v : Validated)
      → extract_parent_context (some u) ≡ some p
      → OnSend
          (λ request.
            All (λ s. s.filter ≡ some (build_scoped_filter lower quote (some p))) request.queries)
          (prepare_page lower quote now r policies (some u) q v)
  unfolding prepare_page
  prepare_page-scoped u p q (bad_request e) h = tt
  prepare_page-scoped u p q (page limit offset) h = rw h (
      multi_search_request-scoped
        (index_uids_for ((classify_targets q.target_resources policies).0) policies) q.query
        (build_scoped_filter lower quote (some p)) limit offset
        ((classify_targets q.target_resources policies).1) (build_scoped_filter-filled p))

  -- For a user within a parent context, every query of the request that is sent carries the filter
  -- on that parent, whatever the user asked for.
  pub prepare-scoped :
      (u : UserInfo) (p : ParentContext) (q : QuerySpec) (request : MultiSearchRequest)
      (denied : List TargetResource) (limit offset : ℤ)
      → extract_parent_context (some u) ≡ some p
      → prepare lower quote now r policies (some u) q ≡ sends request denied limit offset
      → All (λ s. s.filter ≡ some (build_scoped_filter lower quote (some p))) request.queries
  unfolding prepare
  prepare-scoped u p q request denied limit offset h e =
      subst
        (OnSend (λ request.
          All (λ s. s.filter ≡ some (build_scoped_filter lower quote (some p))) request.queries))
        e (prepare_page-scoped u p q (validate_and_get_pagination now r q) h)
