-- ===== src/Tests/Kinds.antt =====
-- References to kinds on a list with one kind in two groups.
use search.Prelude.{
  keep, Str, lit, str_eq, ℕ, ◌≤◌, ◌≡◌, refl, ◌≢◌, inl, inr, true, false, List, [], ◌∷◌, arith,
}
use search.Api.{TargetResource}
use search.Kinds.{
  IndexedKind, target, cut, parse_kind_ref, resolved, matches_ref, resolve_ref, resolve_kind,
}
use search.Kinds.Resolution.{IsMatch, resolve_kind-IsMatch, core_kind_unreachable}
use search.Kinds.Printing.{Without}

-- A ready kind of the given group, version v1.
abbrev kind_in : Str → Str → IndexedKind
kind_in group kind = record {
  kind = kind;
  group = group;
  version = lit "v1";
  ready = true;
  ready_text = lit "True";
  policy = lit "p";
  index_name = lit "i";
}

abbrev core_event : IndexedKind
core_event = kind_in [] (lit "Event")

abbrev grouped_event : IndexedKind
grouped_event = kind_in (lit "events.k8s.io") (lit "Event")

abbrev events : List IndexedKind
events = core_event ∷ grouped_event ∷ []

abbrev events_target : TargetResource
events_target = record { group = lit "events.k8s.io"; version = lit "v1"; kind = lit "Event" }

grouped_resolves : resolve_kind str_eq (lit "Event.events.k8s.io") events ≡ resolved events_target
unfolding resolve_kind parse_kind_ref cut resolve_ref matches_ref keep str_eq
grouped_resolves = refl

resolve_kind-IsMatch_example :
    IsMatch str_eq (parse_kind_ref (lit "Event.events.k8s.io")) events events_target
resolve_kind-IsMatch_example =
    resolve_kind-IsMatch str_eq (lit "Event.events.k8s.io") events events_target grouped_resolves

tells_empty : (g : Str) → g ≢ [] → str_eq [] g ≡ false
unfolding str_eq
tells_empty [] n = absurd (n refl)
tells_empty (c ∷ g) n = refl

core_kind_unreachable_example :
    resolve_kind str_eq (lit "Event./v1") events ≢ resolved (target core_event)
core_kind_unreachable_example =
    core_kind_unreachable str_eq (lit "Event./v1") events core_event grouped_event tells_empty
      (inr (inl refl)) refl (λ e. cc) refl refl

event-Without : (c : ℕ) → c ≤ 47 → Without c (lit "Event")
event-Without c h = ground arith

group-Without : Without b'/' (lit "events.k8s.io")
group-Without = ground arith
