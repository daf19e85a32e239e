-- ===== src/Query/Response.antt =====
-- The answer of internal/registry/resourcesearchquery/rest.go: how hits become results, and all of
-- `Create`.
use search.Prelude.{
  or_else, length, All, Elem, Str, lit, Result, ok, err, Result-cases, ℕ, ◌≡◌, refl, sym, ap, subst,
  ◌∙◌, inl, inr, Option, some, List, [], ◌∷◌, ◌++◌,
}
use search.Api.{Json, Fields, get, remove, as_str, TargetResource, CachedPolicy}
use search.Paging.{QuerySpec, Rest, RequestError, calculate_next_continue_token}
use search.Query.Scope.{prepare-scoped}
use search.Query.{
  UserInfo, ParentContext, extract_parent_context, build_scoped_filter, MultiSearchRequest,
  Prepared, rejected, unauthorized, nothing_to_search, fails, sends, prepare,
}

pub record SearchResult : Type 0 where
  pub resource : Fields
  pub relevance_score : Str
  pub tenant_name : Str
  pub tenant_type : Str

-- The libraries: the rounded score of a hit, and the object that its JSON is read as.
pub record HitLibraries : Type 0 where
  pub round_score : Option Json → Str
  pub unmarshal_object : Fields → Result Fields

-- A field that is not a string leaves the variable empty.
abbrev pub string_field : Str → Fields → Str
string_field k hit = or_else (as_str (get k hit)) []

abbrev pub or_platform : Str → Str
or_platform [] = lit "platform"
or_platform (c ∷ s) = c ∷ s

unfoldable pub without_internal : Fields → Fields
unfolding remove
without_internal hit =
    remove (lit "_tenant_type")
      (remove (lit "_tenant") (remove (lit "_federation") (remove (lit "_rankingScore") hit)))

-- What `Create` answers.
pub data Created : Type 0 where
  create_rejected : RequestError → Created
  create_unauthorized : Created
  create_failed : Str → Created
  created : List SearchResult → List TargetResource → Str → Created

results_of :
    {rs ss : List SearchResult} {d e : List TargetResource} {s t : Str}
    → created rs d s ≡ created ss e t
    → rs ≡ ss
results_of h = cc h

module _ (libs : HitLibraries) where
  unfoldable pub format_search_result : Fields → Result SearchResult
  unfolding without_internal get
  format_search_result hit = elim (libs.unmarshal_object (without_internal hit)) [
    | err e ↦ err e
    | ok o ↦ ok (record {
      resource = o;
      relevance_score = libs.round_score (get (lit "_rankingScore") hit);
      tenant_name = or_platform (string_field (lit "_tenant") hit);
      tenant_type = or_platform (string_field (lit "_tenant_type") hit);
    })
  ]

  -- The loop over the hits, which drops one that cannot be read.
  unfoldable pub format_hits : List Fields → List SearchResult
  unfolding format_search_result
  format_hits [] = []
  format_hits (hit ∷ hits) =
      let rest = format_hits hits in
      elim (format_search_result hit) [ err e ↦ rest | ok r ↦ r ∷ rest ]

  -- `search` is the request to Meilisearch, with its hits.
  module _ (lower quote : Str → Str) (now : ℕ) (r : Rest) (policies : List CachedPolicy)
      (search : MultiSearchRequest → Result (List Fields)) where
    unfoldable pub answer_prepared : QuerySpec → Prepared → Created
    unfolding format_hits calculate_next_continue_token
    answer_prepared q (rejected e) = create_rejected e
    answer_prepared q unauthorized = create_unauthorized
    answer_prepared q (nothing_to_search denied) = created [] denied []
    answer_prepared q (fails e) = create_failed (lit "failed to search: " ++ e)
    answer_prepared q (sends request denied limit offset) = elim (search request) [
      | err e ↦ create_failed (lit "failed to search: " ++ e)
      | ok hits ↦
          created (format_hits hits) denied
            (calculate_next_continue_token now r offset limit (length hits) q)
    ]

    unfoldable pub create : Option UserInfo → QuerySpec → Created
    unfolding prepare answer_prepared
    create user q = answer_prepared q (prepare lower quote now r policies user q)

  -- The resource is what a hit reads as, without the fields that are not the object's.
  abbrev pub FromHit : List Fields → SearchResult → Type 0
  FromHit hits result =
      (hit : Fields) × Elem hit hits
      × (libs.unmarshal_object (without_internal hit) ≡ ok result.resource)

  format_hits-FromHit :
      (hits : List Fields) (result : SearchResult)
      → Elem result (format_hits hits)
      → FromHit hits result
  unfolding format_hits format_search_result
  format_hits-FromHit [] result i = absurd i
  format_hits-FromHit (hit ∷ hits) result i =
      elim (Result-cases (libs.unmarshal_object (without_internal hit))) [
        | inr (m, e) ↦
            later hit hits result (format_hits-FromHit hits result (rw (format_hits, e) at i))
        | inl (o, e) ↦ elim (rw (format_hits, e) at i) [
          | inl f ↦ (hit, inl refl, e ∙ ap (λ (x : SearchResult). ok x.resource) f)
          | inr j ↦ later hit hits result (format_hits-FromHit hits result j)
        ]
      ]
    where
      later : (h : Fields) (hs : List Fields) (x : SearchResult) → FromHit hs x → FromHit (h ∷ hs) x
      later h hs x (g, k, e) = (g, inr k, e)

module _ (libs : HitLibraries) (lower quote : Str → Str) (now : ℕ) (r : Rest)
    (policies : List CachedPolicy) (search : MultiSearchRequest → Result (List Fields)) where
  -- For a user within a parent context, each result of an answer was read from a hit that Meilisearch
  -- gave for one request, every query of which carries the filter on that parent.
  pub create-scoped :
      (u : UserInfo) (p : ParentContext) (q : QuerySpec) (results : List SearchResult)
      (denied : List TargetResource) (token : Str) (result : SearchResult)
      → extract_parent_context (some u) ≡ some p
      → create libs lower quote now r policies search (some u) q ≡ created results denied token
      → Elem result results
      → (request : MultiSearchRequest) × (hits : List Fields) × All
          (λ s. s.filter ≡ some (build_scoped_filter lower quote (some p)))
          request.queries
        × (search request ≡ ok hits)
        × FromHit libs hits result
  unfolding create answer_prepared
  create-scoped u p q results denied token result h e i =
      of_prepared (prepare lower quote now r policies (some u) q) refl e
    where
      of_prepared :
          (v : Prepared)
          → prepare lower quote now r policies (some u) q ≡ v
          → answer_prepared libs lower quote now r policies search q v
            ≡ created results denied token
          → (request : MultiSearchRequest) × (hits : List Fields) × All
              (λ s. s.filter ≡ some (build_scoped_filter lower quote (some p)))
              request.queries
            × (search request ≡ ok hits)
            × FromHit libs hits result
      of_prepared (rejected m) f g = absurd (cc g)
      of_prepared unauthorized f g = absurd (cc g)
      of_prepared (nothing_to_search d) f g = absurd (subst (Elem result) (sym (results_of g)) i)
      of_prepared (fails m) f g = absurd (cc g)
      of_prepared (sends request d limit offset) f g = elim (Result-cases (search request)) [
        | inr (m, k) ↦ absurd (cc (rw (answer_prepared, k) at g))
        | inl (hits, k) ↦ (
          request,
          hits,
          prepare-scoped lower quote now r policies u p q request d limit offset h f,
          k,
          format_hits-FromHit libs hits result
              (subst (Elem result) (sym (results_of (rw (answer_prepared, k) at g))) i),
        )
      ]
