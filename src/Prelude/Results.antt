-- ===== src/Prelude/Results.antt =====
-- A value or a Go error, which is its message.
use mathlib.Core.Path.{◌≡◌, refl}
use mathlib.Core.Logic.{◌⊎◌, inl, inr}
use mathlib.Core.List.{◌++◌}
use search.Prelude.Strs.{Str}

pub data Result {ℓ} (A : Type ℓ) : Type ℓ where
  ok : A → Result A
  err : Str → Result A

infixl 5 ◌>>=◌
abbrev pub ◌>>=◌ {ℓ κ} : {A : Type ℓ} {B : Type κ} → Result A → (A → Result B) → Result B
ok a >>= f = f a
err e >>= f = err e

pub Result-cases {ℓ} :
    {A : Type ℓ} (r : Result A) → ((a : A) × (r ≡ ok a)) ⊎ ((e : Str) × (r ≡ err e))
Result-cases (ok a) = inl (a, refl)
Result-cases (err e) = inr (e, refl)

-- A call to the world outside, whose state is `S`: the state that it leaves, and its answer. Any
-- such call may find the world changed by others, so a read leaves a state as well.
abbrev pub Run : Type 0 → Type 0 → Type 0
Run S A = S → S × A

-- The answer of a call that returns only an error.
pub data Done : Type 0 where
  no_error : Done

-- `x, err := f(); if err != nil { return err }` and what follows.
unfoldable pub and_then :
    {S A B : Type 0} → Run S (Result A) → (A → Run S (Result B)) → Run S (Result B)
and_then m f s = elim (m s).1 [ ok a ↦ f a (m s).0 | err e ↦ ((m s).0, err e) ]

-- `fmt.Errorf("...: %w", err)`
abbrev pub wrap {ℓ} : {A : Type ℓ} → Str → Result A → Result A
wrap prefix (ok a) = ok a
wrap prefix (err e) = err (prefix ++ e)

abbrev pub wrapping : {S A : Type 0} → Str → Run S (Result A) → Run S (Result A)
wrapping prefix m s = ((m s).0, wrap prefix (m s).1)

-- A chain that succeeds has a first call that succeeds.
pub and_then-ok :
    {S A B : Type 0} (m : Run S (Result A)) (f : A → Run S (Result B)) (s : S) (b : B)
    → (and_then m f s).1 ≡ ok b
    → (a : A) × ((m s).1 ≡ ok a) × ((f a (m s).0).1 ≡ ok b)
unfolding and_then
and_then-ok m f s b h = elim (Result-cases (m s).1) [
  | inl (a, e) ↦ (a, e, rw (and_then, e) at h)
  | inr (m, e) ↦ absurd (cc (rw (and_then, e) at h))
]

pub wrap-ok {ℓ} : {A : Type ℓ} (p : Str) (r : Result A) (a : A) → wrap p r ≡ ok a → r ≡ ok a
wrap-ok p (ok b) a h = h
wrap-ok p (err e) a h = absurd (cc h)
