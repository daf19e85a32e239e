-- ===== src/Kinds.antt =====
-- cmd/milo-search/helpers.go and kinds.go: the kinds that a user names on the command line.
pub mod Resolution
pub mod Printing
pub mod Distance
pub mod Listing
use search.Prelude.{
  ◌==◌, if◌then◌else◌, keep, Str, lit, str_eq, ℕ, Bool, true, false, ◌&&◌, ◌||◌, Option, none, some,
  List, [], ◌∷◌, ◌++◌,
}
use search.Api.{
  TargetResource, ConditionStatus, condition_true, condition_false, condition_unknown, Condition,
  Policy,
}

-- A searchable kind, less its age, which nothing below reads.
pub record IndexedKind : Type 0 where
  pub kind : Str
  pub group : Str
  pub version : Str
  pub ready : Bool
  pub ready_text : Str
  pub policy : Str
  pub index_name : Str

abbrev pub target : IndexedKind → TargetResource
target k = record { group = k.group; version = k.version; kind = k.kind }

abbrev pub status_text : ConditionStatus → Str
status_text condition_true = lit "True"
status_text condition_false = lit "False"
status_text condition_unknown = lit "Unknown"

abbrev pub is_condition_true : ConditionStatus → Bool
is_condition_true condition_true = true
is_condition_true condition_false = false
is_condition_true condition_unknown = false

-- The first condition of the type Ready decides.
unfoldable pub ready_condition_of : List Condition → Str × Bool
ready_condition_of [] = (lit "Unknown", false)
ready_condition_of (c ∷ cs) =
    if str_eq c.type_name (lit "Ready")
    then (status_text c.status, is_condition_true c.status)
    else ready_condition_of cs

unfoldable pub policy_to_kind : Policy → IndexedKind
unfolding ready_condition_of
policy_to_kind p =
    let (text, ready) = ready_condition_of p.status.conditions in
    record {
      kind = p.spec.target_resource.kind;
      group = p.spec.target_resource.group;
      version = p.spec.target_resource.version;
      ready = ready;
      ready_text = text;
      policy = p.name;
      index_name = p.status.index_name;
    }

abbrev pub put_before : ℕ → Option (Str × Str) → Option (Str × Str)
put_before d none = none
put_before d (some (before, after)) = some (d ∷ before, after)

-- `s[:i]` and `s[i+1:]` for the first index of a byte, if it occurs.
unfoldable pub cut : ℕ → Str → Option (Str × Str)
cut c [] = none
cut c (d ∷ s) = let rest = cut c s in if d == c then some ([], s) else put_before d rest

pub record KindRef : Type 0 where
  pub kind : Str
  pub group : Str
  pub version : Str

abbrev pub split_group : Str → Str → Option (Str × Str) → KindRef
split_group rest version none = record { kind = rest; group = []; version = version }
split_group rest version (some (kind, group)) = record {
  kind = kind;
  group = group;
  version = version;
}

abbrev pub split_version : Str → Option (Str × Str) → Str × Str
split_version ref none = (ref, [])
split_version ref (some (rest, version)) = (rest, version)

unfoldable pub parse_kind_ref : Str → KindRef
unfolding cut
parse_kind_ref ref =
    let (rest, version) = split_version ref (cut b'/' ref) in
    split_group rest version (cut b'.' rest)

unfoldable pub kind_ref : IndexedKind → Str
kind_ref k = if str_eq k.group [] then k.kind else k.kind ++ (b'.' ∷ k.group)

-- A candidate of the message of `ambiguousKindError`, `%s.%s/%s`.
unfoldable pub candidate : IndexedKind → Str
candidate k = k.kind ++ (b'.' ∷ k.group ++ (b'/' ∷ k.version))

pub data KindError : Type 0 where
  not_a_kind_name unknown_kind : KindError
  ambiguous_kind : List IndexedKind → KindError

pub data Resolved : Type 0 where
  resolved : TargetResource → Resolved
  unresolved : KindError → Resolved

-- `equal_fold` is strings.EqualFold.
module _ (equal_fold : Str → Str → Bool) where
  unfoldable pub matches_ref : KindRef → IndexedKind → Bool
  matches_ref r k =
      equal_fold k.kind r.kind
      && ((str_eq r.group [] || equal_fold k.group r.group)
          && (str_eq r.version [] || equal_fold k.version r.version))

  abbrev pub by_matches : List IndexedKind → Resolved
  by_matches [] = unresolved unknown_kind
  by_matches (k ∷ []) = resolved (target k)
  by_matches (k ∷ j ∷ ks) = unresolved (ambiguous_kind (k ∷ j ∷ ks))

  unfoldable pub resolve_ref : KindRef → List IndexedKind → Resolved
  unfolding matches_ref
  resolve_ref r kinds =
      if str_eq r.kind []
      then unresolved not_a_kind_name
      else by_matches (keep (matches_ref r) kinds)

  unfoldable pub resolve_kind : Str → List IndexedKind → Resolved
  unfolding parse_kind_ref resolve_ref
  resolve_kind ref kinds = resolve_ref (parse_kind_ref ref) kinds

  -- The targets of all the references, in order, or the first error.
  pub data AllResolved : Type 0 where
    all_resolved : List TargetResource → AllResolved
    first_error : KindError → AllResolved

  unfoldable pub resolve_kinds : List Str → List IndexedKind → List TargetResource → AllResolved
  unfolding resolve_kind
  resolve_kinds [] kinds out = all_resolved out
  resolve_kinds (ref ∷ refs) kinds out = elim (resolve_kind ref kinds) [
    | unresolved e ↦ first_error e
    | resolved t ↦ resolve_kinds refs kinds (out ++ t ∷ [])
  ]
