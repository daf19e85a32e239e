-- ===== src/Kinds/Distance/Scripts.antt =====
-- The distance of cmd/milo-search/helpers.go against edit scripts.
use search.Prelude.{
  length, Str, ℕ, suc, ◌+◌, ◌≤◌, ◌≡◌, refl, sym, ap, subst, ◌∙◌, ◌⊎◌, inl, inr, List, [], ◌∷◌,
  arith,
}
use search.Kinds.Distance.{min3, cost, fill_row, fill_rows, first_row, last_cell, levenshtein}

-- The scripts of `n` single edits that turn a string into another, from the end to the start.
pub data Script : Str → Str → ℕ → Type 0 where
  no_edit : Script [] [] 0
  removes : {u v : Str} {n : ℕ} (x : ℕ) → Script u v n → Script (x ∷ u) v (suc n)
  inserts : {u v : Str} {n : ℕ} (y : ℕ) → Script u v n → Script u (y ∷ v) (suc n)
  keeps : {u v : Str} {n : ℕ} (x : ℕ) → Script u v n → Script (x ∷ u) (x ∷ v) n
  replaces : {u v : Str} {n : ℕ} (x y : ℕ) → Script u v n → Script (x ∷ u) (y ∷ v) (suc n)

-- The recurrence of the distance, on strings that are read from the end.
unfoldable distance : Str → Str → ℕ
unfolding min3 cost
distance [] v = length v
distance (x ∷ u) [] = length (x ∷ u)
distance (x ∷ u) (y ∷ v) =
    min3 (distance u (y ∷ v) + 1) (distance (x ∷ u) v + 1) (distance u v + cost x y)

unfoldable pub rev_onto : Str → Str → Str
rev_onto [] u = u
rev_onto (x ∷ a) u = rev_onto a (x ∷ u)

-- The string from its end.
abbrev pub reversed : Str → Str
reversed a = rev_onto a []

rev_onto-length : (a u : Str) → length (rev_onto a u) ≡ length a + length u
unfolding rev_onto
rev_onto-length [] u = omega arith
rev_onto-length (x ∷ a) u = omega (arith, rev_onto-length a (x ∷ u))

distance_empty : (u : Str) → distance u [] ≡ length u
unfolding distance
distance_empty [] = refl
distance_empty (x ∷ u) = refl

-- The cells after the first one of the row of `u`, from the prefix `v` on.
unfoldable row_after : Str → Str → Str → List ℕ
unfolding distance
row_after u v [] = []
row_after u v (y ∷ b) = distance u (y ∷ v) ∷ row_after u (y ∷ v) b

fill_row-distance :
    (x : ℕ) (u v b : Str)
    → fill_row x b (distance u v ∷ row_after u v b) (distance (x ∷ u) v) ≡ row_after (x ∷ u) v b
unfolding fill_row row_after distance
fill_row-distance x u v [] = refl
fill_row-distance x u v (y ∷ b) =
    ap (λ ns. distance (x ∷ u) (y ∷ v) ∷ ns) (fill_row-distance x u (y ∷ v) b)

fill_rows-distance :
    (a b u : Str)
    → fill_rows a b (suc (length u)) (distance u [] ∷ row_after u [] b)
      ≡ distance (rev_onto a u) [] ∷ row_after (rev_onto a u) [] b
unfolding fill_rows rev_onto distance
fill_rows-distance [] b u = refl
fill_rows-distance (x ∷ a) b u =
    ap (λ ns. fill_rows a b (suc (suc (length u))) (suc (length u) ∷ ns))
      (fill_row-distance x u [] b)
    ∙ fill_rows-distance a b (x ∷ u)

first_row-distance : (b v : Str) → first_row (length v) b ≡ distance [] v ∷ row_after [] v b
unfolding first_row row_after distance
first_row-distance [] v = refl
first_row-distance (y ∷ b) v = ap (λ ns. length v ∷ ns) (first_row-distance b (y ∷ v))

last_cell-distance :
    (u v b : Str) → last_cell (distance u v ∷ row_after u v b) ≡ distance u (rev_onto b v)
unfolding last_cell row_after rev_onto
last_cell-distance u v [] = refl
last_cell-distance u v (y ∷ b) = last_cell-distance u (y ∷ v) b

levenshtein-distance : (a b : Str) → levenshtein a b ≡ distance (reversed a) (reversed b)
unfolding levenshtein distance rev_onto
levenshtein-distance [] b = omega (arith, rev_onto-length b [])
levenshtein-distance (x ∷ a) [] =
    omega (arith, rev_onto-length a (x ∷ []), distance_empty (rev_onto a (x ∷ [])))
levenshtein-distance (x ∷ a) (y ∷ b) =
    ap (λ ns. last_cell (fill_rows (x ∷ a) (y ∷ b) 1 ns)) (first_row-distance (y ∷ b) [])
    ∙ ap last_cell (fill_rows-distance (x ∷ a) (y ∷ b) [])
    ∙ last_cell-distance (reversed (x ∷ a)) [] (y ∷ b)

min3-cases : (a b c : ℕ) → (min3 a b c ≡ a) ⊎ (min3 a b c ≡ b) ⊎ (min3 a b c ≡ c)
unfolding min3
min3-cases a b c = ground arith

cost_cases : (x y : ℕ) → ((x ≡ y) × (cost x y ≡ 0)) ⊎ (cost x y ≡ 1)
unfolding cost
cost_cases x y = ground arith

cost_same : (x : ℕ) → cost x x ≡ 0
unfolding cost
cost_same x = ground arith

cost-le-one : (x y : ℕ) → cost x y ≤ 1
unfolding cost
cost-le-one x y = ground arith

-- A script of another number of edits that is the same.
resize : {u v : Str} (m n : ℕ) → m ≡ n → Script u v m → Script u v n
resize {u} {v} m n e s = subst (Script u v) e s

distance-Script : (u v : Str) → Script u v (distance u v)
unfolding distance
distance-Script [] [] = no_edit
distance-Script [] (y ∷ v) = inserts y (distance-Script [] v)
distance-Script (x ∷ u) [] =
    removes x (resize (distance u []) (length u) (distance_empty u) (distance-Script u []))
distance-Script (x ∷ u) (y ∷ v) =
    let above = distance u (y ∷ v) in
    let left = distance (x ∷ u) v in
    let diagonal = distance u v in
    elim (min3-cases (above + 1) (left + 1) (diagonal + cost x y)) [
      | inl e ↦ resize (suc above) _ (omega (arith, e)) (removes x (distance-Script u (y ∷ v)))
      | inr (inl e) ↦ resize (suc left) _ (omega (arith, e)) (inserts y (distance-Script (x ∷ u) v))
      | inr (inr e) ↦ elim (cost_cases x y) [
        | inl (f, g) ↦
            resize diagonal _ (omega (arith, e, g))
              (subst (λ z. Script (x ∷ u) (z ∷ v) diagonal) f (keeps x (distance-Script u v)))
        | inr g ↦ resize (suc diagonal) _ (omega (arith, e, g)) (replaces x y (distance-Script u v))
      ]
    ]

min3-least : (a b c n : ℕ) → (a ≤ n) ⊎ (b ≤ n) ⊎ (c ≤ n) → min3 a b c ≤ n
unfolding min3
min3-least a b c n h = ground arith

least_step :
    (x y : ℕ) (u v : Str) (n : ℕ)
    → (distance u (y ∷ v) + 1 ≤ n) ⊎ (distance (x ∷ u) v + 1 ≤ n) ⊎ (distance u v + cost x y ≤ n)
    → distance (x ∷ u) (y ∷ v) ≤ n
unfolding distance
least_step x y u v n h =
    min3-least (distance u (y ∷ v) + 1) (distance (x ∷ u) v + 1) (distance u v + cost x y) n h

distance_least : (u v : Str) (n : ℕ) → Script u v n → distance u v ≤ n
unfolding distance
distance_least _ _ _ no_edit = omega arith
distance_least _ _ _ (removes {u} {v = []} {n} x s) =
    omega (arith, distance_least u [] n s, distance_empty u)
distance_least _ _ _ (removes {u} {v = y ∷ v} {n} x s) =
    least_step x y u v (suc n) (inl (omega (arith, distance_least u (y ∷ v) n s)))
distance_least _ _ _ (inserts {u = []} {v} {n} y s) = omega (arith, distance_least [] v n s)
distance_least _ _ _ (inserts {u = x ∷ u} {v} {n} y s) =
    least_step x y u v (suc n) (inr (inl (omega (arith, distance_least (x ∷ u) v n s))))
distance_least _ _ _ (keeps {u} {v} {n} x s) =
    least_step x x u v n (inr (inr (omega (arith, distance_least u v n s, cost_same x))))
distance_least _ _ _ (replaces {u} {v} {n} x y s) =
    least_step x y u v (suc n) (inr (inr (omega (arith, distance_least u v n s, cost-le-one x y))))

-- The distance is the number of edits of some script that turns the one string into the other by
-- removing, inserting and replacing single bytes, and any such script has at least as many.
pub levenshtein_least :
    (a b : Str) (n : ℕ)
    → Script (reversed a) (reversed b) n
    → Script (reversed a) (reversed b) (levenshtein a b) × (levenshtein a b ≤ n)
levenshtein_least a b n s =
    let e = levenshtein-distance a b in
    (
      resize (distance (reversed a) (reversed b)) (levenshtein a b) (sym e)
          (distance-Script (reversed a) (reversed b)),
      subst (λ d. d ≤ n) (sym e) (distance_least (reversed a) (reversed b) n s),
    )
