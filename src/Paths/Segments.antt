-- ===== src/Paths/Segments.antt =====
-- The paths that internal/jsonpath/validator.go accepts, as sequences of segments.
pub mod Parsed
use search.Prelude.{
  ◌==◌, Bool-cases, Option-cases, some_inj, eqb→eq, is_empty, All, Str, ℕ, zero, suc, ◌≡◌, refl,
  sym, ap, ◌∙◌, inl, inr, Bool, true, false, not, some, List, [], ◌∷◌, ◌++◌, append_assoc,
}
use search.Paths.{
  is_letter, is_digit, is_word, is_quote, skip, after, closed, after_key, after_dot, in_brackets,
  after_segment, validate_from,
}

-- `.name`, a key in quotes, a number, and `*`; with the quotes as they stand.
pub data Segment : Type 0 where
  name_segment : ℕ → Str → Segment
  key_segment : ℕ → Str → ℕ → Segment
  number_segment : Str → Segment
  all_segment : Segment

abbrev pub inner_of : Segment → Str
inner_of (name_segment c s) = c ∷ s
inner_of (key_segment q s r) = q ∷ (s ++ r ∷ [])
inner_of (number_segment ds) = ds
inner_of all_segment = 42 ∷ []

abbrev pub render_one : Segment → Str → Str
render_one (name_segment c s) rest = 46 ∷ c ∷ (s ++ rest)
render_one (key_segment q s r) rest = 91 ∷ ((q ∷ (s ++ r ∷ [])) ++ 93 ∷ rest)
render_one (number_segment ds) rest = 91 ∷ (ds ++ 93 ∷ rest)
render_one all_segment rest = 91 ∷ 42 ∷ 93 ∷ rest

unfoldable pub render : List Segment → Str
render [] = []
render (x ∷ xs) = render_one x (render xs)

-- What the segment names.
abbrev pub name_of : Segment → Str
name_of (name_segment c s) = c ∷ s
name_of (key_segment q s r) = s
name_of (number_segment ds) = ds
name_of all_segment = 42 ∷ []

abbrev pub AllBytes : (ℕ → Bool) → Str → Type 0
AllBytes p = All (λ c. p c ≡ true)

-- The bytes are those that the pattern allows.
abbrev pub IsSegment : Segment → Type 0
IsSegment (name_segment c s) = (is_letter c ≡ true) × AllBytes is_word s
IsSegment (key_segment q s r) =
    (is_quote q ≡ true)
    × (is_empty s ≡ false)
    × AllBytes (λ d. not (is_quote d)) s
    × (is_quote r ≡ true)
IsSegment (number_segment ds) = (is_empty ds ≡ false) × AllBytes is_digit ds
IsSegment all_segment = Unit

skip-split : (p : ℕ → Bool) (s : Str) → (w : Str) × AllBytes p w × (s ≡ w ++ skip p s)
unfolding skip
skip-split p [] = ([], tt, refl)
skip-split p (c ∷ s) = elim (Bool-cases (p c)) [
  | inl e ↦ let (w, all, f) = skip-split p s in (c ∷ w, (e, all), rw e (ap (λ t. c ∷ t) f))
  | inr e ↦ ([], tt, rw e refl)
]

after-some : (c : ℕ) (s rest : Str) → after c s ≡ some rest → s ≡ c ∷ rest
unfolding after
after-some c [] rest h = absurd (cc h)
after-some c (d ∷ s) rest h = elim (Bool-cases (d == c)) [
  | inl e ↦ ap (λ e. e ∷ s) (eqb→eq d c e) ∙ ap (λ t. c ∷ t) (some_inj (rw e at h))
  | inr e ↦ absurd (cc (rw e at h))
]

-- A match takes one segment.
abbrev Takes : Str → Str → Type 0
Takes s rest = (x : Segment) × IsSegment x × (s ≡ render_one x rest)

after_dot-Takes : (s rest : Str) → after_dot s ≡ some rest → Takes (46 ∷ s) rest
unfolding after_dot
after_dot-Takes [] rest h = absurd (cc h)
after_dot-Takes (d ∷ s) rest h = elim (Bool-cases (is_letter d)) [
  | inl e ↦
      let (w, all, f) = skip-split is_word s in
      (
        name_segment d w,
        (e, all),
        ap (λ t. 46 ∷ d ∷ t) (f ∙ ap (λ t. w ++ t) (some_inj (rw e at h))),
      )
  | inr e ↦ absurd (cc (rw e at h))
]

closed-Takes :
    (s rest : Str) → closed s ≡ some rest → (r : ℕ) × (is_quote r ≡ true) × (s ≡ r ∷ 93 ∷ rest)
unfolding closed
closed-Takes [] rest h = absurd (cc h)
closed-Takes (r ∷ s) rest h = elim (Bool-cases (is_quote r)) [
  | inl e ↦ (r, e, ap (λ t. r ∷ t) (after-some 93 s rest (rw e at h)))
  | inr e ↦ absurd (cc (rw e at h))
]

after_key-Takes :
    (q : ℕ) (s rest : Str) → is_quote q ≡ true → after_key s ≡ some rest → Takes (91 ∷ q ∷ s) rest
unfolding after_key
after_key-Takes q [] rest quote h = absurd (cc h)
after_key-Takes q (c ∷ s) rest quote h = elim (Bool-cases (is_quote c)) [
  | inl e ↦ absurd (cc (rw e at h))
  | inr e ↦
      let (w, all, f) = skip-split (λ d. not (is_quote d)) s in
      let (r, end, g) = closed-Takes (skip (λ d. not (is_quote d)) s) rest (rw e at h) in
      (
        key_segment q (c ∷ w) r,
        (quote, refl, (rw e refl, all), end),
        ap (λ t. 91 ∷ q ∷ c ∷ t)
            (f ∙ ap (λ t. w ++ t) g ∙ sym (append_assoc w (r ∷ []) (93 ∷ rest))),
      )
]

in_brackets-Takes : (s rest : Str) → in_brackets s ≡ some rest → Takes (91 ∷ s) rest
unfolding in_brackets
in_brackets-Takes [] rest h = absurd (cc h)
in_brackets-Takes (d ∷ s) rest h = elim (Bool-cases (is_quote d)) [
  | inl e ↦ after_key-Takes d s rest e (rw e at h)
  | inr e ↦ elim (Bool-cases (is_digit d)) [
    | inl f ↦
        let (w, all, g) = skip-split is_digit s in
        let k = after-some 93 (skip is_digit s) rest (rw (e, f) at h) in
        (number_segment (d ∷ w), (refl, (f, all)), ap (λ t. 91 ∷ d ∷ t) (g ∙ ap (λ t. w ++ t) k))
    | inr f ↦ elim (Bool-cases (d == 42)) [
      | inl g ↦ (
        all_segment,
        tt,
        ap (λ c. 91 ∷ c ∷ s) (eqb→eq d 42 g)
            ∙ ap (λ t. 91 ∷ 42 ∷ t) (after-some 93 s rest (rw (e, f, g) at h)),
      )
      | inr g ↦ absurd (cc (rw (e, f, g) at h))
    ]
  ]
]

after_segment-Takes : (s rest : Str) → after_segment s ≡ some rest → Takes s rest
unfolding after_segment
after_segment-Takes [] rest h = absurd (cc h)
after_segment-Takes (c ∷ s) rest h = elim (Bool-cases (c == 46)) [
  | inl e ↦
      let (x, seg, f) = after_dot-Takes s rest (rw e at h) in
      (x, seg, ap (λ b. b ∷ s) (eqb→eq c 46 e) ∙ f)
  | inr e ↦ elim (Bool-cases (c == 91)) [
    | inl f ↦
        let (x, seg, g) = in_brackets-Takes s rest (rw (e, f) at h) in
        (x, seg, ap (λ b. b ∷ s) (eqb→eq c 91 f) ∙ g)
    | inr f ↦ absurd (cc (rw (e, f) at h))
  ]
]

pub validate_from-render :
    (fuel : ℕ) (s : Str)
    → validate_from fuel s ≡ []
    → (xs : List Segment) × All IsSegment xs × (s ≡ render xs)
unfolding validate_from render
validate_from-render fuel [] h = ([], tt, refl)
validate_from-render zero (c ∷ s) h = absurd (cc h)
validate_from-render (suc fuel) (c ∷ s) h = elim (Option-cases (after_segment (c ∷ s))) [
  | inl e ↦ absurd (cc (rw (validate_from, e) at h))
  | inr (rest, e) ↦
      let (xs, all, f) = validate_from-render fuel rest (rw (validate_from, e) at h) in
      let (x, seg, g) = after_segment-Takes (c ∷ s) rest e in
      (x ∷ xs, (seg, all), g ∙ ap (render_one x) f)
]
