-- ===== src/Tests/Rules.antt =====
-- The rules for policies and their expressions on a concrete policy.
use search.Prelude.{
  All, Any, Elem, drop, take, Str, lit, str_eq, has_str, NoRepeat, Result, ok, ◌≡◌, refl, sym, ap,
  ◌∙◌, ◌↔◌, ◌⊎◌, inl, inr, true, none, some, List, [], ◌∷◌, map,
}
use search.Api.{num, PolicyCondition, FieldPolicy, Policy}
use search.Cel.{
  literal, ident, call, no_exprs, more_exprs, is_internal, check_name, or_next, within, check_expr,
  CheckedAst, validate_expression,
}
use search.Cel.Allowed.{IsAllowed, validate_expression-IsAllowed}
use search.Paths.Segments.{Segment, render, name_of, IsSegment}
use search.Paths.Segments.Parsed.{HoldsBracket, parse_path-validate_path}
use search.Paths.{
  in_range, is_letter, is_digit, is_word, is_quote, skip, after, closed, after_key, after_dot,
  in_brackets, after_segment, validate_from, validate_path, trim_dot, index, trim_right,
  trim_quotes, cut_at, parse_from, parse_path,
}
use search.Validation.{
  target_errors, path_errors, repeated, paths_of, names_of, condition_errors, validate_policy,
}
use search.Validation.Accepted.{HasOwnTarget, validate_policy_iff}
use search.Validation.Strategy.{
  policy_object, listed_policies, validate_object, prepare_status_update, HaveOwnTargets,
  validate_object-HaveOwnTargets,
}
use search.Tests.{secret_policy}

-- A compiler that reads every expression as `kind == 1`.
abbrev pub one_expression : Str → Result CheckedAst
one_expression s = ok (record {
  tree =
      call (lit "_==_")
        (more_exprs (ident (lit "kind")) (more_exprs (literal (num (lit "1"))) no_exprs));
  output_is_bool = true;
})

one_expression_passes : validate_expression one_expression 5 (lit "kind == 1") ≡ []
unfolding validate_expression check_expr within or_next check_name is_internal has_str str_eq
one_expression_passes = refl

validate_expression-IsAllowed_example :
    (validate_expression one_expression 5 (lit "kind == 1") ≡ [])
    ↔ ((lit "kind == 1" ≡ []) ⊎ IsAllowed one_expression 5 (lit "kind == 1"))
validate_expression-IsAllowed_example =
    validate_expression-IsAllowed one_expression 5 (lit "kind == 1")

validate_policy_iff_example :
    (validate_policy one_expression 5 secret_policy (secret_policy ∷ []) ≡ []) ↔ (
      All (HasOwnTarget secret_policy) (secret_policy ∷ [])
      × All
          (λ (c : PolicyCondition). (c.expression ≡ []) ⊎ IsAllowed one_expression 5 c.expression)
          secret_policy.spec.conditions
      × All (λ (f : FieldPolicy). validate_path f.path ≡ []) secret_policy.spec.fields
      × NoRepeat (paths_of secret_policy.spec.fields)
      × NoRepeat (names_of secret_policy.spec.conditions))
validate_policy_iff_example =
    validate_policy_iff one_expression 5 secret_policy (secret_policy ∷ [])

abbrev label_path : Str
label_path = lit ".metadata.labels['app'][*]"

label_path_valid : validate_path label_path ≡ []
unfolding validate_path validate_from after_segment after_dot in_brackets after_key closed after
    skip is_letter is_word is_digit is_quote in_range
label_path_valid = refl

label_path_parsed : parse_path label_path ≡ lit "metadata" ∷ lit "labels" ∷ lit "app" ∷ lit "*" ∷ []
unfolding parse_path parse_from index cut_at trim_dot trim_quotes trim_right skip is_quote take drop
label_path_parsed = refl

-- A closing bracket in a key ends the key.
bracket_path_parsed : parse_path (lit ".a['b]c']") ≡ lit "a" ∷ lit "b" ∷ lit "c']" ∷ []
unfolding parse_path parse_from index cut_at trim_dot trim_quotes trim_right skip is_quote take drop
bracket_path_parsed = refl

parse_path-validate_path_example :
    (xs : List Segment) × All IsSegment xs
    × (label_path ≡ render xs)
    × ((parse_path label_path ≡ map name_of xs) ⊎ Any HoldsBracket xs)
parse_path-validate_path_example = parse_path-validate_path label_path label_path_valid

-- A second policy, for another kind.
abbrev map_policy : Policy
map_policy = record {
  name = lit "maps";
  deletion_timestamp = none;
  spec = record {
    target_resource = record { group = []; version = lit "v1"; kind = lit "ConfigMap" };
    conditions = record { name = lit "c"; expression = lit "kind == 1" } ∷ [];
    fields = record { path = label_path; searchable = true } ∷ [];
  };
  status = secret_policy.status;
}

map_policy_passes :
    validate_object one_expression
      (some (ok (some (secret_policy ∷ []))))
      (policy_object map_policy)
    ≡ []
unfolding validate_object listed_policies validate_policy target_errors condition_errors path_errors
    repeated has_str str_eq validate_expression check_expr within or_next check_name is_internal
    validate_path validate_from after_segment after_dot in_brackets after_key closed after skip
    is_letter is_word is_digit is_quote in_range
map_policy_passes = refl

secret_policy_alone : HaveOwnTargets (secret_policy ∷ [])
secret_policy_alone p q (inl e) (inl f) = inl (ap (λ (x : Policy). x.name) (sym f ∙ e))
secret_policy_alone p q (inl e) (inr i) = absurd i
secret_policy_alone p q (inr i) j = absurd i

stored_or_new :
    (q : Policy)
    → Elem q (map_policy ∷ secret_policy ∷ [])
    → (q ≡ map_policy) ⊎ Elem q (secret_policy ∷ [])
stored_or_new q (inl e) = inl (sym e)
stored_or_new q (inr i) = inr i

validate_object-HaveOwnTargets_example : HaveOwnTargets (map_policy ∷ secret_policy ∷ [])
validate_object-HaveOwnTargets_example =
    validate_object-HaveOwnTargets one_expression (secret_policy ∷ [])
      (map_policy ∷ secret_policy ∷ []) map_policy secret_policy_alone map_policy_passes
      stored_or_new

-- The status update keeps the stored spec, whatever the update says.
status_update_kept : (prepare_status_update map_policy secret_policy).spec ≡ secret_policy.spec
unfolding prepare_status_update
status_update_kept = refl
