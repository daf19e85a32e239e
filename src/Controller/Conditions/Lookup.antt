-- ===== src/Controller/Conditions/Lookup.antt =====
-- What internal/controllers/policy/policy_controller.go relies on when it sets conditions by
-- meta.SetStatusCondition.
use search.Prelude.{
  if◌then◌else◌, Str, str_eq, eq→str_eq, ◌≡◌, refl, ◌∙◌, false, Option, none, some, List, [], ◌∷◌,
}
use search.Api.{Condition}

-- meta.FindStatusCondition
unfoldable pub find_condition : List Condition → Str → Option Condition
find_condition [] t = none
find_condition (c ∷ cs) t = if str_eq c.type_name t then some c else find_condition cs t

-- meta.SetStatusCondition sets the condition of its type and leaves those of other types.
abbrev pub Sets : (List Condition → Condition → List Condition) → Type 0
Sets set =
    (cs : List Condition) (c : Condition) (t : Str)
    → find_condition (set cs c) t ≡ (if str_eq c.type_name t then some c else find_condition cs t)

-- Setting a condition of another type leaves the one that is looked for.
pub find-other :
    (set : List Condition → Condition → List Condition)
    → Sets set
    → (cs : List Condition) (c : Condition) (t u : Str) → c.type_name ≡ u
    → str_eq u t ≡ false
    → find_condition (set cs c) t ≡ find_condition cs t
find-other set law cs c t u e f = law cs c t ∙ rw (e, f) refl

pub find-same :
    (set : List Condition → Condition → List Condition)
    → Sets set
    → (cs : List Condition) (c : Condition) (t : Str) → c.type_name ≡ t
    → find_condition (set cs c) t ≡ some c
find-same set law cs c t e = law cs c t ∙ rw (eq→str_eq c.type_name t e) refl
