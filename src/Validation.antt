-- ===== src/Validation.antt =====
-- internal/policy/validation/validator.go: the errors of a policy, given the other policies. The
-- messages of the field library are left to the paths and the values that they name.
pub mod Accepted
pub mod Strategy
use search.Prelude.{
  if◌then◌else◌, is_empty, Str, str_eq, has_str, Result, ℕ, suc, List, [], ◌∷◌, ◌++◌, map,
}
use search.Api.{PolicyCondition, FieldPolicy, Policy, same_target}
use search.Cel.{CheckedAst, validate_expression}
use search.Paths.{validate_path}

-- field.Error, by its kind, the index that its path has, and its value or detail.
pub data FieldError : Type 0 where
  duplicate_target : Str → FieldError
  invalid_expression : ℕ → Str → Str → FieldError
  invalid_path : ℕ → Str → Str → FieldError
  duplicate_path : ℕ → Str → FieldError
  duplicate_name : ℕ → Str → FieldError
  internal_error : Str → FieldError

unfoldable pub target_errors : Policy → List Policy → List FieldError
target_errors policy [] = []
target_errors policy (other ∷ others) =
    if str_eq other.name policy.name
    then target_errors policy others
    else if same_target other.spec.target_resource policy.spec.target_resource
    then duplicate_target other.name ∷ target_errors policy others
    else target_errors policy others

unfoldable pub path_errors : ℕ → List FieldPolicy → List FieldError
unfolding validate_path
path_errors i [] = []
path_errors i (f ∷ fs) =
    let message = validate_path f.path in
    (if is_empty message then [] else invalid_path i f.path message ∷ []) ++ path_errors (suc i) fs

-- The loops over what was seen before, with the error of a value that repeats.
unfoldable pub repeated : (ℕ → Str → FieldError) → ℕ → List Str → List Str → List FieldError
unfolding has_str
repeated error i seen [] = []
repeated error i seen (x ∷ xs) =
    (if has_str x seen then error i x ∷ [] else []) ++ repeated error (suc i) (x ∷ seen) xs

abbrev pub paths_of : List FieldPolicy → List Str
paths_of fs = map (λ (f : FieldPolicy). f.path) fs

abbrev pub names_of : List PolicyCondition → List Str
names_of cs = map (λ (c : PolicyCondition). c.name) cs

module _ (compile : Str → Result CheckedAst) (max_depth : ℕ) where
  unfoldable pub condition_errors : ℕ → List PolicyCondition → List FieldError
  unfolding validate_expression
  condition_errors i [] = []
  condition_errors i (c ∷ cs) =
      map (λ e. invalid_expression i c.expression e)
        (validate_expression compile max_depth c.expression)
      ++ condition_errors (suc i) cs

  unfoldable pub validate_policy : Policy → List Policy → List FieldError
  unfolding target_errors condition_errors path_errors repeated
  validate_policy policy others =
      target_errors policy others
      ++ (condition_errors 0 policy.spec.conditions
          ++ (path_errors 0 policy.spec.fields
              ++ (repeated duplicate_path 0 [] (paths_of policy.spec.fields)
                  ++ repeated duplicate_name 0 [] (names_of policy.spec.conditions))))
