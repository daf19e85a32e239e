-- ===== src/Cli.antt =====
-- cmd/milo-search: the search of query.go, the errors of errors.go and the choice of a transport in
-- transport.go. Flags are values, and the terminal is left out.
pub mod Pages
use search.Prelude.{
  ◌==◌, if◌then◌else◌, or_else, is_empty, Str, lit, Run, ℤ, pos, ltb_ℤ, ℕ, zero, suc, Bool, false,
  ◌&&◌, ◌||◌, not, Option, none, some, List, [], ◌∷◌, ◌++◌,
}
use search.Api.{TargetResource}
use search.Meilisearch.{contains}
use search.Kinds.{IndexedKind, KindError, all_resolved, first_error, resolve_kinds}

-- An error: one of the command itself, one with an HTTP status and message, or another.
pub record CliError : Type 0 where
  pub code : ℕ
  pub message : Str

pub data Error : Type 0 where
  of_cli : CliError → Error
  of_api : ℕ → Str → Str → Error
  of_other : Str → Error

abbrev pub cli_error : ℕ → Str → CliError
cli_error code message = record { code = code; message = message }

abbrev pub exit_error : ℕ
exit_error = 1

abbrev pub exit_usage : ℕ
exit_usage = 2

abbrev pub exit_forbidden : ℕ
exit_forbidden = 3

abbrev pub exit_not_found : ℕ
exit_not_found = 4

abbrev pub exit_invalid : ℕ
exit_invalid = 6

abbrev pub exit_partial : ℕ
exit_partial = 7

abbrev pub exit_unavailable : ℕ
exit_unavailable = 8

unfoldable pub contains_any : List Str → Str → Bool
unfolding contains
contains_any [] s = false
contains_any (p ∷ ps) s = contains p s || contains_any ps s

abbrev pub connection_words : List Str
connection_words =
    lit "connection refused"
    ∷ lit "no such host"
    ∷ lit "i/o timeout"
    ∷ lit "deadline exceeded"
    ∷ lit "tls"
    ∷ lit "dial tcp"
    ∷ lit "eof"
    ∷ lit "connect:"
    ∷ lit "unable to connect"
    ∷ []

-- The server's message if it has one, else the text of the error.
abbrev pub message_or_text : Str → Str → Str
message_or_text [] text = text
message_or_text (c ∷ m) text = c ∷ m

abbrev pub where_of : Str → Str → Str → Str
where_of default prefix [] = default
where_of default prefix (c ∷ scope) = prefix ++ c ∷ scope

unfoldable pub search_forbidden_error : Str → CliError
search_forbidden_error scope =
    cli_error exit_forbidden
      (lit "you don't have permission to search " ++ where_of (lit "here") (lit "in ") scope)

unfoldable pub unavailable_error : Str → CliError
unavailable_error scope = cli_error exit_unavailable (
    lit "couldn't reach "
    ++ where_of (lit "the search service") (lit "the search service for ") scope)

-- `lower` is strings.ToLower. The messages are shortened to their first part.
module _ (lower : Str → Str) where
  unfoldable pub mentions_continue_token : Str → Bool
  unfolding contains
  mentions_continue_token m = contains (lit "continue token") (lower m)

  unfoldable pub is_continue_token_mismatch : Str → Bool
  unfolding contains
  is_continue_token_mismatch m =
      contains (lit "cannot be changed when using a continue token") (lower m)

  unfoldable pub is_connection_error : Str → Bool
  unfolding contains_any
  is_connection_error m = contains_any connection_words (lower m)

  unfoldable pub classify_rejection : Str → CliError
  unfolding mentions_continue_token is_continue_token_mismatch
  classify_rejection m =
      if is_continue_token_mismatch m
      then cli_error exit_invalid (lit "that continue token was for a different search")
      else if mentions_continue_token m
      then cli_error exit_invalid (lit "that continue token has expired or isn't valid anymore")
      else cli_error exit_invalid (lit "the search service couldn't run that request: " ++ m)

  unfoldable pub classify_text : Str → Str → CliError
  unfolding is_connection_error unavailable_error
  classify_text scope text =
      if is_connection_error text then unavailable_error scope else cli_error exit_error text

  unfoldable pub classify_with_scope : Str → Error → CliError
  unfolding classify_rejection classify_text search_forbidden_error
  classify_with_scope scope (of_cli e) = e
  classify_with_scope scope (of_other text) = classify_text scope text
  classify_with_scope scope (of_api status message text) =
      if status == 401
      then cli_error exit_unavailable (lit "your session has expired or was signed out")
      else if status == 403
      then search_forbidden_error scope
      else if status == 404
      then cli_error exit_not_found (message_or_text message text)
      else if status == 400 || status == 422
      then classify_rejection (message_or_text message text)
      else classify_text scope text

  -- An error on listing the policies.
  unfoldable pub policy_error : Error → CliError
  unfolding classify_with_scope
  policy_error (of_cli e) = e
  policy_error (of_other text) = classify_with_scope [] (of_other text)
  policy_error (of_api status message text) =
      if status == 403
      then cli_error exit_forbidden (lit "you don't have access to see what's searchable")
      else classify_with_scope [] (of_api status message text)

-- The spec of a ResourceSearchQuery, and the status of one that was answered.
pub record SearchSpec : Type 0 where
  pub query : Str
  pub targets : List TargetResource
  pub limit : ℤ
  pub continue_token : Str

pub record SearchStatus (R : Type 0) : Type 0 where
  pub results : List R
  pub denied : List TargetResource
  pub continue_token : Str

-- An answer or an error of the server.
pub data Answer (A : Type 0) : Type 0 where
  answer : A → Answer A
  refused : Error → Answer A

-- What a command ends with. `unfinished` is fuel that ran out.
pub data CliOutcome (A : Type 0) : Type 0 where
  success : A → CliOutcome A
  failure : CliError → CliOutcome A
  unfinished : CliOutcome A

pub record QueryOptions : Type 0 where
  pub kinds : List Str
  pub limit : Option ℤ
  pub continue_token : Str
  pub all : Bool
  pub strict : Bool

abbrev pub bad_limit : Option ℤ → Bool
bad_limit none = false
bad_limit (some l) = ltb_ℤ l (pos 1) || ltb_ℤ (pos 100) l

-- `S` is the state of the service, and `R` a search result.
module _ {S R : Type 0} (lower : Str → Str) (scope : Str)
    (search : SearchSpec → Run S (Answer (SearchStatus R))) where
  -- The loop of `--all`: the pages from a token on, after the results so far, on fuel.
  unfoldable pub follow :
      ℕ → SearchSpec → Str → SearchStatus R → Run S (CliOutcome (SearchStatus R))
  unfolding classify_with_scope
  follow fuel base [] merged s = (s, success (record merged { continue_token = [] }))
  follow zero base (c ∷ token) merged s = (s, unfinished)
  follow (suc fuel) base (c ∷ token) merged s =
      let r = search (record base { continue_token = c ∷ token }) s in
      elim r.1 [
        | refused e ↦ (r.0, failure (classify_with_scope lower scope e))
        | answer page ↦
            follow fuel base page.continue_token
              (record merged { results = merged.results ++ page.results }) r.0
      ]

  unfoldable pub fetch_query : ℕ → SearchSpec → Bool → Run S (CliOutcome (SearchStatus R))
  unfolding follow classify_with_scope
  fetch_query fuel base all s =
      let r = search base s in
      elim r.1 [
        | refused e ↦ (r.0, failure (classify_with_scope lower scope e))
        | answer first ↦
            if not all || is_empty first.continue_token
            then (r.0, success first)
            else follow fuel base first.continue_token first r.0
      ]

  -- `--strict` refuses an answer that leaves a kind out.
  unfoldable pub check_strict : Bool → CliOutcome (SearchStatus R) → CliOutcome (SearchStatus R)
  check_strict strict (success status) =
      if strict && not (is_empty status.denied)
      then failure (
          cli_error exit_partial
            (lit "some of the kinds you asked for aren't ready to search yet:"))
      else success status
  check_strict strict (failure e) = failure e
  check_strict strict unfinished = unfinished

  -- From the targets on.
  unfoldable pub query_targets :
      ℕ → QueryOptions → Str → List TargetResource → Run S (CliOutcome (SearchStatus R))
  unfolding fetch_query check_strict
  query_targets fuel o query targets s =
      let r =
        fetch_query fuel
          (record {
            query = query;
            targets = targets;
            limit = or_else o.limit (pos 0);
            continue_token = o.continue_token;
          })
          o.all s in
      (r.0, check_strict o.strict r.1)

  -- `list_policies` lists the kinds that are indexed, and `kind_error` renders a kind's error.
  unfoldable pub run_query :
      (Str → Str → Bool)
      → Run S (Answer (List IndexedKind))
      → (KindError → CliError)
      → ℕ
      → QueryOptions
      → Str
      → Run S (CliOutcome (SearchStatus R))
  unfolding query_targets policy_error resolve_kinds
  run_query equal_fold list_policies kind_error fuel o query s =
      if bad_limit o.limit
      then (s, failure (cli_error exit_usage (lit "--limit must be between 1 and 100")))
      else if is_empty o.kinds
      then query_targets fuel o query [] s
      else resolved_query (list_policies s)
    where
      resolved_query : S × Answer (List IndexedKind) → S × CliOutcome (SearchStatus R)
      resolved_query (t, refused e) = (t, failure (policy_error lower e))
      resolved_query (t, answer kinds) = elim (resolve_kinds equal_fold o.kinds kinds []) [
        | first_error e ↦ (t, failure (kind_error e))
        | all_resolved targets ↦ query_targets fuel o query targets t
      ]

-- The transport.
pub record DatumEnv : Type 0 where
  pub org : Str
  pub project : Str
  pub api_host : Str
  pub cred_helper : Str

pub data TransportMode : Type 0 where
  mode_datum mode_kubeconfig : TransportMode

unfoldable pub usable : DatumEnv → Bool
usable d = not (is_empty d.api_host) && not (is_empty d.cred_helper)

unfoldable pub choose_mode : Str → DatumEnv → TransportMode
unfolding usable
choose_mode kubeconfig env =
    if not (is_empty kubeconfig)
    then mode_kubeconfig
    else if usable env
    then mode_datum
    else mode_kubeconfig

unfoldable pub ensure_scheme : Str → Str
unfolding contains
ensure_scheme host =
    if is_empty host || contains (lit "://") host then host else lit "https://" ++ host

-- strings.TrimRight(s, "/")
unfoldable pub trim_slashes : Str → Str
trim_slashes [] = []
trim_slashes (c ∷ s) =
    let rest = trim_slashes s in if is_empty rest && c == 47 then [] else c ∷ rest

unfoldable pub control_plane_host : DatumEnv → Str
unfolding ensure_scheme trim_slashes
control_plane_host env =
    let base = trim_slashes (ensure_scheme env.api_host) in
    if not (is_empty env.project)
    then base
      ++ (lit "/apis/resourcemanager.miloapis.com/v1alpha1/projects/"
          ++ (env.project ++ lit "/control-plane"))
    else if not (is_empty env.org)
    then base
      ++ (lit "/apis/resourcemanager.miloapis.com/v1alpha1/organizations/"
          ++ (env.org ++ lit "/control-plane"))
    else base
