-- ===== src/Cli/Pages.antt =====
-- What `fetchQuery` of cmd/milo-search/query.go gathers.
use search.Prelude.{
  if◌then◌else◌, is_empty, Str, Run, ℕ, zero, suc, ◌≤◌, ◌≡◌, refl, sym, ap, ◌∙◌, true, ◌||◌, not,
  List, [], ◌∷◌, ◌++◌, append-nil, append_assoc, arith,
}
use search.Cli.{SearchSpec, SearchStatus, Answer, answer, success, follow, fetch_query}

module _ {S R : Type 0} (search : SearchSpec → Run S (Answer (SearchStatus R))) where
  -- From a token and a state of the service on, the server answers with pages that hold these
  -- results and continue each other, so many, and the last one has no token.
  pub data Pages (base : SearchSpec) : Str → S → ℕ → List R → S → Type 0 where
    last_page : {s : S} → Pages base [] s 0 [] s
    next_page :
        {c : ℕ} {token : Str} {s t u : S} {n : ℕ} {rs : List R} {page : SearchStatus R}
        → search (record base { continue_token = c ∷ token }) s ≡ (t, answer page)
        → Pages base page.continue_token t n rs u
        → Pages base (c ∷ token) s (suc n) (page.results ++ rs) u

  -- All the results, what the first answer denied, and no token.
  abbrev pub gathered : SearchStatus R → List R → SearchStatus R
  gathered first results = record { results = results; denied = first.denied; continue_token = [] }

  follow-Pages :
      (lower : Str → Str) (scope : Str) (fuel : ℕ) (base : SearchSpec) (token : Str)
      (merged : SearchStatus R) (s u : S) (n : ℕ) (rs : List R)
      → Pages base token s n rs u
      → n ≤ fuel
      → follow lower scope search fuel base token merged s
        ≡ (u, success (gathered merged (merged.results ++ rs)))
  unfolding follow
  follow-Pages lower scope zero base _ merged s _ _ _ last_page enough =
      ap (λ rs. (s, success (gathered merged rs))) (sym (append-nil merged.results))
  follow-Pages lower scope (suc fuel) base _ merged s _ _ _ last_page enough =
      ap (λ rs. (s, success (gathered merged rs))) (sym (append-nil merged.results))
  follow-Pages lower scope zero base _ merged _ _ _ _ (next_page e p) enough =
      absurd (omega (arith, enough))
  follow-Pages lower scope (suc fuel) base _ merged _ _ _ _
        (next_page {c} {token} {s} {t} {u} {n} {rs} {page} e p) enough =
      rw (follow, e)
        (rw e (
          follow-Pages lower scope fuel base page.continue_token
            (record merged { results = merged.results ++ page.results }) t u n rs p
            (omega (arith, enough))
          ∙ ap (λ all. (u, success (gathered merged all)))
              (append_assoc merged.results page.results rs)))

  -- The first page's answer, where there may be no other.
  follow_first :
      (lower : Str → Str) (scope : Str) (fuel : ℕ) (base : SearchSpec) (first : SearchStatus R)
      (token : Str) (t u : S) (n : ℕ) (rs : List R)
      → first.continue_token ≡ token
      → Pages base token t n rs u
      → n ≤ fuel
      → (if not true || is_empty token
          then (t, success first)
          else follow lower scope search fuel base token first t)
        ≡ (u, success (gathered first (first.results ++ rs)))
  follow_first lower scope fuel base first _ t _ _ _ same last_page enough =
      ap
        (λ c. (
          t,
          success (record { results = first.results; denied = first.denied; continue_token = c }),
        ))
        same
      ∙ ap (λ rs. (t, success (gathered first rs))) (sym (append-nil first.results))
  follow_first lower scope fuel base first _ t u n _ same (next_page {c} {token} e p) enough =
      follow-Pages lower scope fuel base (c ∷ token) first t u n _ (next_page e p) enough

  -- With --all, if the server answers the first request with a page and from its token on with
  -- pages that end, the search ends after no more rounds than there are pages, and gives the
  -- results of all the pages in order, what the first page denied, and no token.
  pub fetch_query-Pages :
      (lower : Str → Str) (scope : Str) (fuel : ℕ) (base : SearchSpec) (first : SearchStatus R)
      (s t u : S) (n : ℕ) (rs : List R)
      → search base s ≡ (t, answer first)
      → Pages base first.continue_token t n rs u
      → n ≤ fuel
      → fetch_query lower scope search fuel base true s
        ≡ (u, success (gathered first (first.results ++ rs)))
  unfolding fetch_query
  fetch_query-Pages lower scope fuel base first s t u n rs e p enough =
      rw (fetch_query, e)
        (rw e
          (follow_first lower scope fuel base first first.continue_token t u n rs refl p enough))
