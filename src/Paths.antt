-- ===== src/Paths.antt =====
-- internal/jsonpath/validator.go and `ParsePath` of internal/policy/evaluation/evaluator.go: the
-- paths of a policy's fields. A character is its ASCII code.
pub mod Segments
use search.Prelude.{
  ltb, leb, ◌==◌, if◌then◌else◌, length, is_empty, drop, take, Str, lit, ℕ, zero, suc, Bool, ◌&&◌,
  ◌||◌, not, Option, none, some, List, [], ◌∷◌, ◌++◌,
}

-- The byte classes of the pattern's segments.
unfoldable pub in_range : ℕ → ℕ → ℕ → Bool
in_range a b c = leb a c && leb c b

unfoldable pub is_letter : ℕ → Bool
unfolding in_range
is_letter c = in_range 97 122 c || (in_range 65 90 c || c == 95)

unfoldable pub is_digit : ℕ → Bool
unfolding in_range
is_digit c = in_range 48 57 c

unfoldable pub is_word : ℕ → Bool
unfolding is_letter is_digit
is_word c = is_letter c || is_digit c

unfoldable pub is_quote : ℕ → Bool
is_quote c = c == 34 || c == 39

-- What remains after the longest run of bytes that pass a test.
unfoldable pub skip : (ℕ → Bool) → Str → Str
skip p [] = []
skip p (c ∷ s) = if p c then skip p s else c ∷ s

-- What remains after `c`, if the string starts with it.
unfoldable pub after : ℕ → Str → Option Str
after c [] = none
after c (d ∷ s) = if d == c then some s else none

-- A quote and `]`, after at least one byte that is not a quote.
unfoldable pub closed : Str → Option Str
unfolding after is_quote
closed [] = none
closed (q ∷ rest) = if is_quote q then after 93 rest else none

unfoldable pub after_key : Str → Option Str
unfolding is_quote skip closed
after_key [] = none
after_key (c ∷ s) = if is_quote c then none else closed (skip (λ d. not (is_quote d)) s)

unfoldable pub after_dot : Str → Option Str
unfolding is_letter is_word skip
after_dot [] = none
after_dot (d ∷ rest) = if is_letter d then some (skip is_word rest) else none

unfoldable pub in_brackets : Str → Option Str
unfolding is_quote is_digit after after_key skip
in_brackets [] = none
in_brackets (d ∷ rest) =
    if is_quote d
    then after_key rest
    else if is_digit d
    then after 93 (skip is_digit rest)
    else if d == 42
    then after 93 rest
    else none

-- What remains after the match of `segmentRegex`, which is never empty; `none` without a match. The
-- alternatives start differently, and in each the bytes of a run differ from what follows it.
unfoldable pub after_segment : Str → Option Str
unfolding after_dot in_brackets
after_segment [] = none
after_segment (c ∷ s) = if c == 46 then after_dot s else if c == 91 then in_brackets s else none

-- The loop over the segments, on fuel: a match is not empty.
unfoldable pub validate_from : ℕ → Str → Str
unfolding after_segment
validate_from fuel [] = []
validate_from zero (c ∷ s) = lit "invalid path syntax at: " ++ c ∷ s
validate_from (suc fuel) (c ∷ s) = elim (after_segment (c ∷ s)) [
  | none ↦ lit "invalid path syntax at: " ++ c ∷ s
  | some rest ↦ validate_from fuel rest
]

-- The message, which is empty if the path is valid.
unfoldable pub validate_path : Str → Str
unfolding validate_from
validate_path [] = lit "path cannot be empty"
validate_path (c ∷ s) =
    if c == 46 then validate_from (length (c ∷ s)) (c ∷ s) else lit "path must start with '.'"

-- strings.TrimPrefix(s, "."), strings.Index of one byte, and strings.Trim by the quotes
unfoldable pub trim_dot : Str → Str
trim_dot [] = []
trim_dot (c ∷ s) = if c == 46 then s else c ∷ s

unfoldable pub index : ℕ → Str → Option ℕ
index c [] = none
index c (d ∷ s) =
    if d == c then some 0 else elim (index c s) [ none ↦ none | some i ↦ some (suc i) ]

unfoldable pub trim_right : (ℕ → Bool) → Str → Str
trim_right p [] = []
trim_right p (c ∷ s) = let rest = trim_right p s in if is_empty rest && p c then [] else c ∷ rest

unfoldable pub trim_quotes : Str → Str
unfolding skip trim_right is_quote
trim_quotes s = trim_right is_quote (skip is_quote s)

-- Where a name ends: at the first dot or bracket.
unfoldable pub cut_at : Option ℕ → Option ℕ → Option ℕ
cut_at none none = none
cut_at none (some b) = some b
cut_at (some d) none = some d
cut_at (some d) (some b) = if ltb d b then some d else some b

-- The loop of `ParsePath` with the segments found so far, on fuel.
unfoldable pub parse_from : ℕ → Str → List Str → List Str
unfolding index trim_dot trim_quotes cut_at take drop
parse_from fuel [] segments = segments
parse_from zero (c ∷ s) segments = []
parse_from (suc fuel) (c ∷ s) segments =
    if c == 91
    then elim (index 93 (c ∷ s)) [
      | none ↦ []
      | some end ↦
          parse_from fuel (trim_dot (drop (suc end) (c ∷ s)))
            (segments ++ trim_quotes (drop 1 (take end (c ∷ s))) ∷ [])
    ]
    else elim (cut_at (index 46 (c ∷ s)) (index 91 (c ∷ s))) [
      | none ↦ segments ++ (c ∷ s) ∷ []
      | some cut ↦ parse_from fuel (trim_dot (drop cut (c ∷ s))) (segments ++ take cut (c ∷ s) ∷ [])
    ]

unfoldable pub parse_path : Str → List Str
unfolding parse_from trim_dot
parse_path path = let p = trim_dot path in parse_from (suc (length p)) p []
