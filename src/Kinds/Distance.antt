-- ===== src/Kinds/Distance.antt =====
-- The suggestion for an unknown kind, of cmd/milo-search/helpers.go.
pub mod Scripts
pub mod Nearest
use search.Prelude.{
  ltb, ◌==◌, if◌then◌else◌, length, is_empty, Str, ℕ, suc, ◌+◌, ◌/◌, Option, none, some, List, [],
  ◌∷◌,
}
use search.Kinds.{IndexedKind}

unfoldable pub min3 : ℕ → ℕ → ℕ → ℕ
min3 a b c = let m = if ltb b a then b else a in if ltb c m then c else m

unfoldable pub cost : ℕ → ℕ → ℕ
cost x y = if x == y then 0 else 1

-- The inner loop: the cells of `curr` from `j` on, given those of `prev` from `j - 1` on and
-- `curr[j-1]`. The rest of `b` is as long as what is left of `prev` but one.
unfoldable pub fill_row : ℕ → Str → List ℕ → ℕ → List ℕ
unfolding min3 cost
fill_row x (y ∷ b) (diagonal ∷ above ∷ prev) left =
    let cell = min3 (above + 1) (left + 1) (diagonal + cost x y) in
    cell ∷ fill_row x b (above ∷ prev) cell
fill_row x _ _ left = []

-- The outer loop from the `i`th byte on.
unfoldable pub fill_rows : Str → Str → ℕ → List ℕ → List ℕ
unfolding fill_row
fill_rows [] b i prev = prev
fill_rows (x ∷ a) b i prev = fill_rows a b (suc i) (i ∷ fill_row x b prev i)

-- `prev[j] = j` for each `j` from `j` on, over the bytes of `b`.
unfoldable pub first_row : ℕ → Str → List ℕ
first_row j [] = j ∷ []
first_row j (y ∷ b) = j ∷ first_row (suc j) b

-- `prev[lb]`, the last cell of a row
unfoldable pub last_cell : List ℕ → ℕ
last_cell [] = 0
last_cell (n ∷ []) = n
last_cell (n ∷ m ∷ ns) = last_cell (m ∷ ns)

unfoldable pub levenshtein : Str → Str → ℕ
unfolding fill_rows first_row last_cell
levenshtein a b =
    if is_empty a
    then length b
    else if is_empty b
    then length a
    else last_cell (fill_rows a b 1 (first_row 0 b))

-- The loop of `nearestKind`, with the best so far and its distance.
module _ (lower : Str → Str) (wanted : Str) where
  unfoldable pub nearest_from : List IndexedKind → Option IndexedKind → ℕ → Option IndexedKind × ℕ
  unfolding levenshtein
  nearest_from [] best distance = (best, distance)
  nearest_from (k ∷ ks) best distance =
      let d = levenshtein (lower wanted) (lower k.kind) in
      if ltb d distance then nearest_from ks (some k) d else nearest_from ks best distance

  unfoldable pub nearest_kind : List IndexedKind → Option IndexedKind
  unfolding nearest_from
  nearest_kind kinds =
      let (best, distance) = nearest_from kinds none 1073741824 in
      if ltb (1 + length wanted / 3) distance then none else best
