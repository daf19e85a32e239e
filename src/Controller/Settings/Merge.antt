-- ===== src/Controller/Settings/Merge.antt =====
-- The attributes that internal/controllers/policy/policy_controller.go asks for are there.
use search.Prelude.{
  Bool-cases, Str, str_eq, str_eq→eq, str_eq_iff, has_str, NoRepeat, ◌≡◌, refl, ap, ◌∙◌, inl, inr,
  true, false, ◌||◌, List, [], ◌∷◌, ◌++◌, arith,
}
use search.Controller.Settings.{
  insert_str, sort_strings, add_unseen, merge_filterable_attributes, same_strings,
}

has_str-append :
    (x : Str) (xs ys : List Str) → has_str x (xs ++ ys) ≡ (has_str x xs || has_str x ys)
unfolding has_str
has_str-append x [] ys = refl
has_str-append x (y ∷ xs) ys = ground (arith, has_str-append x xs ys)

add_unseen-has :
    (x : Str) (new result : List Str)
    → has_str x (add_unseen new result) ≡ (has_str x result || has_str x new)
unfolding add_unseen has_str
add_unseen-has x [] result = ground arith
add_unseen-has x (a ∷ new) result = elim (Bool-cases (has_str a result)) [
  | inl e ↦ rw e (add_unseen-has x new result ∙ ground (arith, str_eq→eq a x))
  | inr e ↦
      rw e
        (add_unseen-has x new (result ++ a ∷ []) ∙ ground (arith, has_str-append x result (a ∷ [])))
]

append-NoRepeat :
    (xs : List Str) (a : Str) → NoRepeat xs → has_str a xs ≡ false → NoRepeat (xs ++ a ∷ [])
unfolding has_str
append-NoRepeat [] a d h = (refl, tt)
append-NoRepeat (x ∷ xs) a d h = (
  has_str-append x xs (a ∷ []) ∙ ground (arith, d.0, h, str_eq_iff a x, str_eq_iff x a),
  append-NoRepeat xs a d.1 (ground (arith, h)),
)

add_unseen-NoRepeat : (new result : List Str) → NoRepeat result → NoRepeat (add_unseen new result)
unfolding add_unseen
add_unseen-NoRepeat [] result d = d
add_unseen-NoRepeat (a ∷ new) result d = elim (Bool-cases (has_str a result)) [
  | inl e ↦ rw e (add_unseen-NoRepeat new result d)
  | inr e ↦ rw e (add_unseen-NoRepeat new (result ++ a ∷ []) (append-NoRepeat result a d e))
]

-- The union has exactly the attributes of both lists, each once.
pub merge_filterable_attributes-union :
    (existing required : List Str) (x : Str)
    → NoRepeat (merge_filterable_attributes existing required)
      × (has_str x (merge_filterable_attributes existing required)
          ≡ (has_str x existing || has_str x required))
unfolding merge_filterable_attributes
merge_filterable_attributes-union existing required x = (
  add_unseen-NoRepeat required (add_unseen existing []) (add_unseen-NoRepeat existing [] tt),
  add_unseen-has x required (add_unseen existing [])
      ∙ ap (λ b. b || has_str x required) (add_unseen-has x existing []),
)

insert_str-has :
    (x y : Str) (ys : List Str) → has_str x (insert_str y ys) ≡ (str_eq y x || has_str x ys)
unfolding insert_str has_str
insert_str-has x y [] = refl
insert_str-has x y (z ∷ ys) = ground (arith, insert_str-has x y ys)

pub sort_strings-has : (x : Str) (xs : List Str) → has_str x (sort_strings xs) ≡ has_str x xs
unfolding sort_strings has_str
sort_strings-has x [] = refl
sort_strings-has x (y ∷ ys) =
    insert_str-has x y (sort_strings ys) ∙ ap (λ b. str_eq y x || b) (sort_strings-has x ys)

pub same_strings→eq : (xs ys : List Str) → same_strings xs ys ≡ true → xs ≡ ys
unfolding same_strings
same_strings→eq [] [] h = refl
same_strings→eq [] (y ∷ ys) h = cc
same_strings→eq (x ∷ xs) [] h = cc
same_strings→eq (x ∷ xs) (y ∷ ys) h = ground (arith, same_strings→eq xs ys, str_eq→eq x y)
