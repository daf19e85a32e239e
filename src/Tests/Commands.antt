-- ===== src/Tests/Commands.antt =====
-- The command line on two pages of results, and on a misspelt kind.
use search.Prelude.{
  if◌then◌else◌, is_empty, Str, lit, Run, pos, ℕ, ◌+◌, ◌≤◌, ◌≡◌, refl, true, [], ◌∷◌, arith,
}
use search.Cli.{SearchSpec, SearchStatus, Answer, answer, success, fetch_query}
use search.Cli.Pages.{Pages, last_page, next_page, gathered, fetch_query-Pages}
use search.Kinds.Distance.{min3, cost, fill_row, fill_rows, first_row, last_cell, levenshtein}
use search.Kinds.Distance.Scripts.{
  Script, no_edit, inserts, keeps, replaces, rev_onto, reversed, levenshtein_least,
}

-- A service with two pages, which counts the requests.
abbrev two_pages : SearchSpec → Run ℕ (Answer (SearchStatus ℕ))
two_pages spec s = (
  s + 1,
  answer (
      if is_empty spec.continue_token
      then record { results = 1 ∷ 2 ∷ []; denied = []; continue_token = lit "t" }
      else record { results = 3 ∷ []; denied = []; continue_token = [] }),
)

abbrev all_spec : SearchSpec
all_spec = record { query = lit "web"; targets = []; limit = pos 2; continue_token = [] }

abbrev first_of_two : SearchStatus ℕ
first_of_two = record { results = 1 ∷ 2 ∷ []; denied = []; continue_token = lit "t" }

abbrev unchanged_text : Str → Str
unchanged_text s = s

second_of_two : Pages two_pages all_spec (lit "t") 1 1 (3 ∷ []) 2
second_of_two = next_page refl last_page

fetch_query-Pages_example :
    fetch_query unchanged_text [] two_pages 5 all_spec true 0
    ≡ (2, success (gathered two_pages first_of_two (1 ∷ 2 ∷ 3 ∷ [])))
fetch_query-Pages_example =
    fetch_query-Pages two_pages unchanged_text [] 5 all_spec first_of_two 0 1 2 1 (3 ∷ []) refl
      second_of_two (omega arith)

pod_to_pot : levenshtein (lit "pod") (lit "pots") ≡ 2
unfolding levenshtein fill_rows fill_row first_row last_cell min3 cost
pod_to_pot = refl

-- An "s" is appended and the last byte replaced.
two_edits : Script (reversed (lit "pod")) (reversed (lit "pots")) 2
unfolding rev_onto
two_edits = inserts b's' (replaces b'd' b't' (keeps b'o' (keeps b'p' no_edit)))

levenshtein_least_example :
    Script (reversed (lit "pod")) (reversed (lit "pots")) (levenshtein (lit "pod") (lit "pots"))
    × (levenshtein (lit "pod") (lit "pots") ≤ 2)
levenshtein_least_example = levenshtein_least (lit "pod") (lit "pots") 2 two_edits
