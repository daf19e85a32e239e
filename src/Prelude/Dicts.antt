-- ===== src/Prelude/Dicts.antt =====
-- A Go map with string keys as an association list. The order of the list stands for the order in
-- which a `range` visits the map, which Go leaves open: no theorem fixes it.
use Prim.Native.Nat.{ℕ, suc, ◌+◌, ◌≤◌}
use mathlib.Core.Path.{◌≡◌, refl}
use mathlib.Core.Bool.{Bool, true, false}
use mathlib.Core.List.{List, [], ◌∷◌}
use mathlib.Core.Option.{Option, none, some}
use native.Mathlib.Omega.{arith}
use search.Prelude.Tests.{if◌then◌else◌}
use search.Prelude.Strs.{Str, str_eq, str_eq_iff}

abbrev pub Dict {ℓ} : Type ℓ → Type ℓ
Dict V = List (Str × V)

module _ {ℓ} {V : Type ℓ} where
  unfoldable pub lookup : Str → Dict V → Option V
  lookup k [] = none
  lookup k ((j, v) ∷ m) = if str_eq j k then some v else lookup k m

  unfoldable pub insert : Str → V → Dict V → Dict V
  insert k v [] = (k, v) ∷ []
  insert k v ((j, w) ∷ m) = if str_eq j k then (k, v) ∷ m else (j, w) ∷ insert k v m

  unfoldable pub delete : Str → Dict V → Dict V
  delete k [] = []
  delete k ((j, w) ∷ m) = if str_eq j k then delete k m else (j, w) ∷ delete k m

  pub lookup-insert :
      (k j : Str) (v : V) (m : Dict V)
      → lookup j (insert k v m) ≡ (if str_eq k j then some v else lookup j m)
  unfolding lookup insert
  lookup-insert k j v [] = refl
  lookup-insert k j v ((i, w) ∷ m) =
      ground (arith, str_eq_iff k j, str_eq_iff i k, str_eq_iff i j, lookup-insert k j v m)

  pub lookup-delete :
      (k j : Str) (m : Dict V) → lookup j (delete k m) ≡ (if str_eq k j then none else lookup j m)
  unfolding lookup delete
  lookup-delete k j [] = ground arith
  lookup-delete k j ((i, w) ∷ m) =
      ground (arith, str_eq_iff k j, str_eq_iff i k, str_eq_iff i j, lookup-delete k j m)

-- No key stands twice.
abbrev pub Uniq {ℓ} : {V : Type ℓ} → Dict V → Type ℓ
Uniq [] = Unit
Uniq ((k, v) ∷ m) = (lookup k m ≡ none) × Uniq m

-- `len(m)`
abbrev pub size {ℓ} : {V : Type ℓ} → Dict V → ℕ
size [] = 0
size (e ∷ m) = suc (size m)

-- How many entries have a value that passes a test.
unfoldable pub count_values {ℓ} : {V : Type ℓ} → (V → Bool) → Dict V → ℕ
count_values p [] = 0
count_values p ((k, v) ∷ m) = if p v then suc (count_values p m) else count_values p m

-- 1 if the value that is looked up passes the test.
unfoldable pub counted {ℓ} : {V : Type ℓ} → (V → Bool) → Option V → ℕ
counted p none = 0
counted p (some v) = if p v then 1 else 0

abbrev pub AllEntries {ℓ κ} : {V : Type ℓ} → (Str → V → Type κ) → Dict V → Type κ
AllEntries P [] = Unit
AllEntries P ((k, v) ∷ m) = P k v × AllEntries P m

module _ {ℓ} {V : Type ℓ} where
  pub insert-Uniq : (k : Str) (v : V) (m : Dict V) → Uniq m → Uniq (insert k v m)
  unfolding insert lookup
  insert-Uniq k v [] u = (refl, tt)
  insert-Uniq k v ((j, w) ∷ m) u =
      ground (arith, insert-Uniq k v m u.1, lookup-insert k j v m, str_eq_iff j k, str_eq_iff k j)

  -- Replacing an entry takes its old value out of the count and puts the new one in.
  pub count_values-insert :
      (p : V → Bool) (k : Str) (v : V) (m : Dict V)
      → Uniq m
      → count_values p (insert k v m) + counted p (lookup k m)
        ≡ count_values p m + counted p (some v)
  unfolding insert lookup count_values counted
  count_values-insert p k v [] u = ground arith
  count_values-insert p k v ((j, w) ∷ m) u =
      ground (arith, count_values-insert p k v m u.1, str_eq_iff j k)

  pub counted-le-count :
      (p : V → Bool) (k : Str) (m : Dict V) → counted p (lookup k m) ≤ count_values p m
  unfolding lookup count_values counted
  counted-le-count p k [] = omega arith
  counted-le-count p k ((j, w) ∷ m) = ground (arith, counted-le-count p k m)

  pub count_values-le-size : (p : V → Bool) (m : Dict V) → count_values p m ≤ size m
  unfolding count_values
  count_values-le-size p [] = omega arith
  count_values-le-size p (e ∷ m) = ground (arith, count_values-le-size p m)

  pub insert-AllEntries {κ} :
      (P : Str → V → Type κ) (k : Str) (v : V) (m : Dict V)
      → P k v
      → AllEntries P m
      → AllEntries P (insert k v m)
  unfolding insert
  insert-AllEntries P k v [] h a = (h, tt)
  insert-AllEntries P k v ((j, w) ∷ m) h a =
      elim (str_eq j k) as (λ b. AllEntries P (if b then (k, v) ∷ m else (j, w) ∷ insert k v m)) [
        | true ↦ (h, a.1)
        | false ↦ (a.0, insert-AllEntries P k v m h a.1)
      ]
