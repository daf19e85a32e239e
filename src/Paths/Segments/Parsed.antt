-- ===== src/Paths/Segments/Parsed.antt =====
-- `ParsePath` of internal/policy/evaluation/evaluator.go on the paths that
-- internal/jsonpath/validator.go accepts.
use search.Prelude.{
  ◌==◌, if◌then◌else◌, Bool-cases, Option-cases, eqb→eq, length, length-append, is_empty, All, Any,
  Elem, All-append, drop, take, Str, ℕ, zero, suc, ◌≤◌, ◌<◌, ◌≡◌, refl, sym, ap, ◌∙◌, ◌⊎◌, inl, inr,
  Bool, true, false, ◌&&◌, not, Option, none, some, List, [], ◌∷◌, ◌++◌, map, append-nil,
  append_assoc, arith,
}
use search.Paths.{
  in_range, is_letter, is_digit, is_word, is_quote, skip, validate_path, trim_dot, index,
  trim_right, trim_quotes, cut_at, parse_from, parse_path,
}
use search.Paths.Segments.{
  Segment, name_segment, key_segment, number_segment, all_segment, render_one, render, name_of,
  AllBytes, IsSegment, validate_from-render,
}

word_plain : (c : ℕ) → is_word c ≡ true → ((c == 46) ≡ false) × ((c == 91) ≡ false)
unfolding is_word is_letter is_digit in_range
word_plain c h = (ground (arith, h), ground (arith, h))

not_quoted : (c : ℕ) → is_digit c ≡ true → (is_quote c ≡ false) × ((c == 93) ≡ false)
unfolding is_digit is_quote in_range
not_quoted c h = (ground (arith, h), ground (arith, h))

sucs : Option ℕ → Option ℕ
sucs none = none
sucs (some i) = some (suc i)

bump : ℕ → Option ℕ → Option ℕ
unfolding sucs
bump zero o = o
bump (suc n) o = sucs (bump n o)

bump-zero : (n : ℕ) → bump n (some 0) ≡ some n
unfolding bump sucs
bump-zero zero = refl
bump-zero (suc n) = ap sucs (bump-zero n)

bump-none : (n : ℕ) → bump n none ≡ none
unfolding bump sucs
bump-none zero = refl
bump-none (suc n) = ap sucs (bump-none n)

cut_at-sucs : (a b : Option ℕ) → cut_at (sucs a) (sucs b) ≡ sucs (cut_at a b)
unfolding cut_at sucs
cut_at-sucs none none = refl
cut_at-sucs none (some b) = refl
cut_at-sucs (some a) none = refl
cut_at-sucs (some a) (some b) = ground arith

index-next : (d c : ℕ) (s : Str) → (c == d) ≡ false → index d (c ∷ s) ≡ sucs (index d s)
unfolding index sucs
index-next d c s h = elim (Option-cases (index d s)) [
  | inl e ↦ rw (h, e) refl
  | inr (i, e) ↦ rw (h, e) refl
]

flipped : (b : Bool) → not b ≡ true → b ≡ false
flipped true h = absurd (cc h)
flipped false h = refl

index-found :
    (d : ℕ) (w r : Str) → AllBytes (λ c. not (c == d)) w → index d (w ++ d ∷ r) ≡ some (length w)
unfolding index sucs
index-found d [] r h = rw (same d) refl
  where
    same : (n : ℕ) → (n == n) ≡ true
    same n = ground arith
index-found d (c ∷ w) r h =
    index-next d c (w ++ d ∷ r) (flipped (c == d) h.0) ∙ ap sucs (index-found d w r h.1)

cut-past :
    (w r : Str)
    → AllBytes is_word w
    → cut_at (index 46 (w ++ r)) (index 91 (w ++ r))
      ≡ bump (length w) (cut_at (index 46 r) (index 91 r))
unfolding bump
cut-past [] r h = refl
cut-past (c ∷ w) r h =
    let (dot, bracket) = word_plain c h.0 in
    ap (λ a. cut_at a (index 91 (c ∷ (w ++ r)))) (index-next 46 c (w ++ r) dot)
    ∙ ap (cut_at (sucs (index 46 (w ++ r)))) (index-next 91 c (w ++ r) bracket)
    ∙ cut_at-sucs (index 46 (w ++ r)) (index 91 (w ++ r))
    ∙ ap sucs (cut-past w r h.1)

take-append : (w r : Str) → take (length w) (w ++ r) ≡ w
unfolding take
take-append [] r = refl
take-append (c ∷ w) r = ap (λ t. c ∷ t) (take-append w r)

drop-append : (w r : Str) → drop (length w) (w ++ r) ≡ r
unfolding drop
drop-append [] r = refl
drop-append (c ∷ w) r = drop-append w r

keep_last : (b q : Bool) (s : Str) → q ≡ false → (if b && q then [] else s) ≡ s
keep_last true q s h = rw h refl
keep_last false q s h = refl

drop-after : (w : Str) (c : ℕ) (r : Str) → drop (suc (length w)) (w ++ c ∷ r) ≡ r
unfolding drop
drop-after [] c r = refl
drop-after (b ∷ w) c r = drop-after w c r

trim_right-plain : (s : Str) → AllBytes (λ d. not (is_quote d)) s → trim_right is_quote s ≡ s
unfolding trim_right
trim_right-plain [] h = refl
trim_right-plain (c ∷ s) h =
    keep_last (is_empty (trim_right is_quote s)) (is_quote c) _ (flipped (is_quote c) h.0)
    ∙ ap (λ t. c ∷ t) (trim_right-plain s h.1)

trim_right-quote :
    (s : Str) (r : ℕ)
    → AllBytes (λ d. not (is_quote d)) s
    → is_quote r ≡ true
    → trim_right is_quote (s ++ r ∷ []) ≡ s
unfolding trim_right
trim_right-quote [] r h q = rw q refl
trim_right-quote (c ∷ s) r h q =
    keep_last (is_empty (trim_right is_quote (s ++ r ∷ []))) (is_quote c) _
      (flipped (is_quote c) h.0)
    ∙ ap (λ t. c ∷ t) (trim_right-quote s r h.1 q)

digits-plain : (ds : Str) → AllBytes is_digit ds → AllBytes (λ d. not (is_quote d)) ds
digits-plain [] h = tt
digits-plain (d ∷ ds) h = (rw (not_quoted d h.0).0 refl, digits-plain ds h.1)

digits-open : (ds : Str) → AllBytes is_digit ds → AllBytes (λ c. not (c == 93)) ds
digits-open [] h = tt
digits-open (d ∷ ds) h = (rw (not_quoted d h.0).1 refl, digits-open ds h.1)

trim_quotes-key :
    (q : ℕ) (s : Str) (r : ℕ) → IsSegment (key_segment q s r) → trim_quotes (q ∷ (s ++ r ∷ [])) ≡ s
unfolding trim_quotes skip
trim_quotes-key q [] r h = absurd (cc h.1)
trim_quotes-key q (c ∷ s) r h =
    rw (h.0, flipped (is_quote c) h.2.0) (trim_right-quote (c ∷ s) r h.2 h.3)

trim_quotes-number : (ds : Str) → IsSegment (number_segment ds) → trim_quotes ds ≡ ds
unfolding trim_quotes skip
trim_quotes-number [] h = absurd (cc h.0)
trim_quotes-number (d ∷ ds) h =
    rw ((not_quoted d h.1.0).0) (trim_right-plain (d ∷ ds) (digits-plain (d ∷ ds) h.1))

-- No key holds a closing bracket.
abbrev pub IsOpen : Segment → Type 0
IsOpen (key_segment q s r) = AllBytes (λ c. not (c == 93)) s
IsOpen _ = Unit

-- One round of the loop on a segment in brackets.
bracket_step :
    (fuel : ℕ) (inner rest name : Str) (acc : List Str)
    → AllBytes (λ c. not (c == 93)) inner
    → trim_quotes inner ≡ name
    → parse_from (suc fuel) (91 ∷ (inner ++ 93 ∷ rest)) acc
      ≡ parse_from fuel (trim_dot rest) (acc ++ name ∷ [])
unfolding parse_from take drop sucs
bracket_step fuel inner rest name acc unclosed trimmed =
    let e =
      index-next 93 91 (inner ++ 93 ∷ rest) refl ∙ ap sucs (index-found 93 inner rest unclosed) in
    rw (parse_from, e)
      (ap
          (λ r.
            parse_from fuel (trim_dot r)
              (acc ++ trim_quotes (take (length inner) (inner ++ 93 ∷ rest)) ∷ []))
          (drop-after inner 93 rest)
        ∙ ap (λ w. parse_from fuel (trim_dot rest) (acc ++ trim_quotes w ∷ []))
            (take-append inner (93 ∷ rest))
        ∙ ap (λ w. parse_from fuel (trim_dot rest) (acc ++ w ∷ [])) trimmed)

dot_first : (o : Option ℕ) → cut_at (some 0) (sucs o) ≡ some 0
unfolding cut_at sucs
dot_first none = refl
dot_first (some b) = ground arith

bracket_first : (o : Option ℕ) → cut_at (sucs o) (some 0) ≡ some 0
unfolding cut_at sucs
bracket_first none = refl
bracket_first (some a) = ground arith

-- The first dot or bracket is the byte that follows the name.
cut_at-end :
    (w rest : Str) (d : ℕ)
    → AllBytes is_word w
    → (d ≡ 46) ⊎ (d ≡ 91)
    → cut_at (index 46 (w ++ d ∷ rest)) (index 91 (w ++ d ∷ rest)) ≡ some (length w)
unfolding index
cut_at-end w rest d word ends =
    cut-past w (d ∷ rest) word ∙ ap (bump (length w)) (at_end d rest ends) ∙ bump-zero (length w)
  where
    at_end :
        (d : ℕ) (rest : Str)
        → (d ≡ 46) ⊎ (d ≡ 91)
        → cut_at (index 46 (d ∷ rest)) (index 91 (d ∷ rest)) ≡ some 0
    at_end d rest (inl e) =
        ap (λ b. cut_at (index 46 (b ∷ rest)) (index 91 (b ∷ rest))) e
        ∙ ap (cut_at (index 46 (46 ∷ rest))) (index-next 91 46 rest refl)
        ∙ dot_first (index 91 rest)
    at_end d rest (inr e) =
        ap (λ b. cut_at (index 46 (b ∷ rest)) (index 91 (b ∷ rest))) e
        ∙ ap (λ o. cut_at o (index 91 (91 ∷ rest))) (index-next 46 91 rest refl)
        ∙ bracket_first (index 46 rest)

-- One round on a name that more follows.
name_step :
    (fuel c : ℕ) (s rest : Str) (d : ℕ) (acc : List Str)
    → AllBytes is_word (c ∷ s)
    → (d ≡ 46) ⊎ (d ≡ 91)
    → parse_from (suc fuel) (c ∷ (s ++ d ∷ rest)) acc
      ≡ parse_from fuel (trim_dot (d ∷ rest)) (acc ++ (c ∷ s) ∷ [])
unfolding parse_from take drop
name_step fuel c s rest d acc word ends =
    rw (parse_from, cut_at-end (c ∷ s) rest d word ends, (word_plain c word.0).1)
      (ap
          (λ r.
            parse_from fuel (trim_dot r) (acc ++ take (length (c ∷ s)) (c ∷ (s ++ d ∷ rest)) ∷ []))
          (drop-append (c ∷ s) (d ∷ rest))
        ∙ ap (λ w. parse_from fuel (trim_dot (d ∷ rest)) (acc ++ w ∷ []))
            (take-append (c ∷ s) (d ∷ rest)))

-- The last name.
name_end :
    (fuel c : ℕ) (s : Str) (acc : List Str)
    → AllBytes is_word (c ∷ s)
    → parse_from (suc fuel) (c ∷ (s ++ [])) acc ≡ acc ++ (c ∷ s) ∷ []
unfolding parse_from index cut_at
name_end fuel c s acc word =
    rw (parse_from, cut-past (c ∷ s) [] word ∙ bump-none (length (c ∷ s)), (word_plain c word.0).1)
      (ap (λ w. acc ++ (c ∷ w) ∷ []) (append-nil s))

-- What stands after the first segment starts with a dot or a bracket.
render-starts :
    (x : Segment) (rest : Str)
    → (d : ℕ) × (t : Str) × ((d ≡ 46) ⊎ (d ≡ 91)) × (render_one x rest ≡ d ∷ t)
render-starts (name_segment c s) rest = (46, _, inl refl, refl)
render-starts (key_segment q s r) rest = (91, _, inr refl, refl)
render-starts (number_segment ds) rest = (91, _, inr refl, refl)
render-starts all_segment rest = (91, _, inr refl, refl)

name-AllBytes : (c : ℕ) (s : Str) → IsSegment (name_segment c s) → AllBytes is_word (c ∷ s)
unfolding is_word
name-AllBytes c s h = (rw h.0 refl, h.1)

quote_unclosed : (q : ℕ) → is_quote q ≡ true → not (q == 93) ≡ true
unfolding is_quote
quote_unclosed q h = ground (arith, h)

key-unclosed :
    (q : ℕ) (s : Str) (r : ℕ)
    → IsSegment (key_segment q s r)
    → IsOpen (key_segment q s r)
    → AllBytes (λ c. not (c == 93)) (q ∷ (s ++ r ∷ []))
key-unclosed q s r h unclosed = (
  quote_unclosed q h.0,
  All-append (λ c. not (c == 93) ≡ true) s (r ∷ []) unclosed (quote_unclosed r h.3, tt),
)

parse_from-render :
    (fuel : ℕ) (xs : List Segment) (acc : List Str)
    → All IsSegment xs
    → All IsOpen xs
    → length xs ≤ fuel
    → parse_from fuel (trim_dot (render xs)) acc ≡ acc ++ map name_of xs
unfolding render trim_dot parse_from trim_quotes skip trim_right is_quote
parse_from-render zero [] acc segs opens enough = sym (append-nil acc)
parse_from-render (suc fuel) [] acc segs opens enough = sym (append-nil acc)
parse_from-render zero (x ∷ xs) acc segs opens enough = absurd (omega (arith, enough))
parse_from-render (suc fuel) (name_segment c s ∷ []) acc segs opens enough =
    name_end fuel c s acc (name-AllBytes c s segs.0)
parse_from-render (suc fuel) (name_segment c s ∷ x ∷ xs) acc segs opens enough =
    let (d, t, ends, e) = render-starts x (render xs) in
    ap (λ r. parse_from (suc fuel) (c ∷ (s ++ r)) acc) e
    ∙ name_step fuel c s t d acc (name-AllBytes c s segs.0) ends
    ∙ ap (λ r. parse_from fuel (trim_dot r) (acc ++ (c ∷ s) ∷ [])) (sym e)
    ∙ parse_from-render fuel (x ∷ xs) (acc ++ (c ∷ s) ∷ []) segs.1 opens.1 (omega (arith, enough))
    ∙ append_assoc acc ((c ∷ s) ∷ []) (map name_of (x ∷ xs))
parse_from-render (suc fuel) (key_segment q s r ∷ xs) acc segs opens enough =
    bracket_step fuel (q ∷ (s ++ r ∷ [])) (render xs) s acc (key-unclosed q s r segs.0 opens.0)
      (trim_quotes-key q s r segs.0)
    ∙ parse_from-render fuel xs (acc ++ s ∷ []) segs.1 opens.1 (omega (arith, enough))
    ∙ append_assoc acc (s ∷ []) (map name_of xs)
parse_from-render (suc fuel) (number_segment ds ∷ xs) acc segs opens enough =
    bracket_step fuel ds (render xs) ds acc (digits-open ds segs.0.1) (trim_quotes-number ds segs.0)
    ∙ parse_from-render fuel xs (acc ++ ds ∷ []) segs.1 opens.1 (omega (arith, enough))
    ∙ append_assoc acc (ds ∷ []) (map name_of xs)
parse_from-render (suc fuel) (all_segment ∷ xs) acc segs opens enough =
    bracket_step fuel (42 ∷ []) (render xs) (42 ∷ []) acc (refl, tt) refl
    ∙ parse_from-render fuel xs (acc ++ (42 ∷ []) ∷ []) segs.1 opens.1 (omega (arith, enough))
    ∙ append_assoc acc ((42 ∷ []) ∷ []) (map name_of xs)

render_one-length : (x : Segment) (rest : Str) → length rest < length (trim_dot (render_one x rest))
unfolding trim_dot
render_one-length (name_segment c s) rest = omega (arith, length-append s rest)
render_one-length (key_segment q s r) rest = omega (arith, length-append (s ++ r ∷ []) (93 ∷ rest))
render_one-length (number_segment ds) rest = omega (arith, length-append ds (93 ∷ rest))
render_one-length all_segment rest = omega arith

trim_dot-length : (s : Str) → length (trim_dot s) ≤ length s
unfolding trim_dot
trim_dot-length [] = omega arith
trim_dot-length (c ∷ s) = ground arith

render-length : (xs : List Segment) → length xs ≤ length (trim_dot (render xs))
unfolding render
render-length [] = omega arith
render-length (x ∷ xs) =
    omega (arith, render_one-length x (render xs), render-length xs, trim_dot-length (render xs))

-- The segment is a key that holds a closing bracket.
abbrev pub HoldsBracket : Segment → Type 0
HoldsBracket (key_segment q s r) = Elem 93 s
HoldsBracket _ = ⊥

bytes-cases : (s : Str) → AllBytes (λ c. not (c == 93)) s ⊎ Elem 93 s
bytes-cases [] = inl tt
bytes-cases (c ∷ s) = elim (Bool-cases (c == 93)) [
  | inl e ↦ inr (inl (eqb→eq c 93 e))
  | inr e ↦ elim (bytes-cases s) [ inl h ↦ inl (rw e refl, h) | inr h ↦ inr (inr h) ]
]

segment-cases : (x : Segment) → IsOpen x ⊎ HoldsBracket x
segment-cases (key_segment q s r) = bytes-cases s
segment-cases (name_segment c s) = inl tt
segment-cases (number_segment ds) = inl tt
segment-cases all_segment = inl tt

segments-cases : (xs : List Segment) → All IsOpen xs ⊎ Any HoldsBracket xs
segments-cases [] = inl tt
segments-cases (x ∷ xs) = elim (segment-cases x) [
  | inr h ↦ inr (inl h)
  | inl h ↦ elim (segments-cases xs) [ inl k ↦ inl (h, k) | inr k ↦ inr (inr k) ]
]

parse_path-render :
    (xs : List Segment) → All IsSegment xs → All IsOpen xs → parse_path (render xs) ≡ map name_of xs
unfolding parse_path
parse_path-render xs segs opens =
    parse_from-render (suc (length (trim_dot (render xs)))) xs [] segs opens
      (omega (arith, render-length xs))

-- A path that the validator accepts is a sequence of segments that the pattern allows; and
-- ParsePath gives the segments' names in order (a key without its quotes, a number by its digits,
-- and `*`), unless some quoted key holds a closing bracket.
pub parse_path-validate_path :
    (path : Str)
    → validate_path path ≡ []
    → (xs : List Segment) × All IsSegment xs
      × (path ≡ render xs)
      × ((parse_path path ≡ map name_of xs) ⊎ Any HoldsBracket xs)
unfolding validate_path
parse_path-validate_path [] h = absurd (cc h)
parse_path-validate_path (c ∷ s) h = elim (Bool-cases (c == 46)) [
  | inr e ↦ absurd (cc (rw (validate_path, e) at h))
  | inl e ↦
      let (xs, segs, f) =
        validate_from-render (length (c ∷ s)) (c ∷ s) (rw (validate_path, e) at h) in
      (
        xs,
        segs,
        f,
        elim (segments-cases xs) [
          | inl opens ↦ inl (ap parse_path f ∙ parse_path-render xs segs opens)
          | inr holds ↦ inr holds
        ],
      )
]
