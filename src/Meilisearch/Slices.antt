-- ===== src/Meilisearch/Slices.antt =====
-- Slices of a list as pkg/meilisearch/sdk_client.go takes them, one chunk after the other.
use search.Prelude.{
  leb, leb→le, Bool-cases, length, drop, take, ℕ, zero, suc, ◌+◌, ◌-◌, ◌≤◌, ◌<◌, min, ◌≡◌, refl,
  sym, ap, ◌⊎◌, inl, inr, List, [], ◌∷◌, ◌++◌, arith,
}
use search.Meilisearch.{slice}

length-drop {ℓ} : {A : Type ℓ} (n : ℕ) (xs : List A) → length (drop n xs) ≡ length xs - n
unfolding drop
length-drop zero xs = omega arith
length-drop (suc n) [] = omega arith
length-drop (suc n) (x ∷ xs) = omega (arith, length-drop n xs)

drop-nil {ℓ} : {A : Type ℓ} (n : ℕ) → drop {A = A} n [] ≡ []
unfolding drop
drop-nil zero = refl
drop-nil (suc n) = refl

drop-drop {ℓ} : {A : Type ℓ} (i c j : ℕ) (xs : List A) → j ≡ i + c → drop j xs ≡ drop c (drop i xs)
unfolding drop
drop-drop zero c j xs h = ap (λ n. drop n xs) (omega arith)
drop-drop (suc i) c zero xs h = absurd (omega arith)
drop-drop (suc i) c (suc j) [] h = sym (drop-nil c)
drop-drop (suc i) c (suc j) (x ∷ xs) h = drop-drop i c j xs (omega arith)

pub drop_all {ℓ} : {A : Type ℓ} (n : ℕ) (xs : List A) → length xs ≤ n → drop n xs ≡ []
unfolding drop
drop_all zero [] h = refl
drop_all zero (x ∷ xs) h = absurd (omega arith)
drop_all (suc n) [] h = refl
drop_all (suc n) (x ∷ xs) h = drop_all n xs (omega arith)

-- Taking `k` and dropping `c` leaves nothing out, where `k` is `c` or reaches the end.
take-drop {ℓ} :
    {A : Type ℓ} (k c : ℕ) (xs : List A)
    → k ≤ c
    → (k ≡ c) ⊎ (length xs ≤ k)
    → take k xs ++ drop c xs ≡ xs
unfolding take drop
take-drop zero zero xs h e = refl
take-drop zero (suc c) [] h e = refl
take-drop zero (suc c) (x ∷ xs) h e = absurd (ground arith)
take-drop (suc k) zero xs h e = absurd (omega arith)
take-drop (suc k) (suc c) [] h e = refl
take-drop (suc k) (suc c) (x ∷ xs) h e = ap (◌∷◌ x) (take-drop k c xs (omega arith) (ground arith))

length-take {ℓ} : {A : Type ℓ} (k : ℕ) (xs : List A) → length (take k xs) ≡ min k (length xs)
unfolding take
length-take zero xs = omega arith
length-take (suc k) [] = omega arith
length-take (suc k) (x ∷ xs) = omega (arith, length-take k xs)

at_end : (i c n m : ℕ) → i < n → m ≡ n - i → (min (i + c) n - i ≡ c) ⊎ (m ≤ min (i + c) n - i)
at_end i c n m h e = elim (Bool-cases (leb (i + c) n)) [
  | inl w ↦ inl (omega (arith, leb→le (i + c) n w))
  | inr w ↦ inr (ground arith)
]

-- The chunk at `i`, with what comes after it.
pub slice-drop {ℓ} :
    {A : Type ℓ} (i c : ℕ) (xs : List A)
    → i < length xs
    → slice i (min (i + c) (length xs)) xs ++ drop (i + c) xs ≡ drop i xs
unfolding slice
slice-drop i c xs h = rw (drop-drop i c (i + c) xs refl) (
    take-drop (min (i + c) (length xs) - i) c (drop i xs) (omega arith)
      (at_end i c (length xs) (length (drop i xs)) h (length-drop i xs)))

pub length-slice {ℓ} :
    {A : Type ℓ} (i c : ℕ) (xs : List A) → length (slice i (min (i + c) (length xs)) xs) ≤ c
unfolding slice
length-slice i c xs = omega (arith, length-take (min (i + c) (length xs) - i) (drop i xs))

unfoldable pub concat {ℓ} : {A : Type ℓ} → List (List A) → List A
concat [] = []
concat (xs ∷ xss) = xs ++ concat xss
