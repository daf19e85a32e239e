-- ===== src/Kinds/Distance/Nearest.antt =====
-- The kind that cmd/milo-search/helpers.go suggests.
use search.Prelude.{
  ltb, ltb→lt, Bool-cases, some_inj, length, All, Elem, Str, ℕ, ◌+◌, ◌/◌, ◌≤◌, ◌≡◌, refl, sym,
  subst, ◌∙◌, ◌⊎◌, inl, inr, false, Option, none, some, List, [], ◌∷◌, arith,
}
use search.Kinds.{IndexedKind}
use search.Kinds.Distance.{levenshtein, nearest_from, nearest_kind}

at_most : (r a b : ℕ) → ltb a b ≡ false → r ≤ b → r ≤ a
at_most r a b e h = ground arith

not_above : (b r : ℕ) → ltb b r ≡ false → r ≤ b
not_above b r e = ground arith

module _ (lower : Str → Str) (wanted : Str) where
  abbrev pub distance_to : IndexedKind → ℕ
  distance_to k = levenshtein (lower wanted) (lower k.kind)

  -- What the loop ends with is as near as all that it saw, and is what it began with or one of the
  -- kinds, at its distance.
  record IsNearest (ks : List IndexedKind) (best : Option IndexedKind) (distance : ℕ)
      (r : Option IndexedKind × ℕ) : Type 0 where
    no_farther : r.1 ≤ distance
    nearest : All (λ j. r.1 ≤ distance_to j) ks
    origin :
        ((r.0 ≡ best) × (r.1 ≡ distance))
        ⊎ ((k : IndexedKind) × (r.0 ≡ some k) × Elem k ks × (r.1 ≡ distance_to k))

  nearest_from-IsNearest :
      (ks : List IndexedKind) (best : Option IndexedKind) (distance : ℕ)
      → IsNearest ks best distance (nearest_from lower wanted ks best distance)
  unfolding nearest_from
  nearest_from-IsNearest [] best distance = record {
    no_farther = omega arith;
    nearest = tt;
    origin = inl (refl, refl);
  }
  nearest_from-IsNearest (k ∷ ks) best distance = elim (Bool-cases (ltb (distance_to k) distance)) [
    | inl e ↦
        let r = nearest_from-IsNearest ks (some k) (distance_to k) in
        rw e (record {
          no_farther = omega (arith, r.no_farther, ltb→lt (distance_to k) distance e);
          nearest = (r.no_farther, r.nearest);
          origin = inr (elim r.origin [
            | inl (f, g) ↦ (k, f, inl refl, g)
            | inr (j, f, i, g) ↦ (j, f, inr i, g)
          ]);
        })
    | inr e ↦
        let r = nearest_from-IsNearest ks best distance in
        rw e (record {
          no_farther = r.no_farther;
          nearest = (at_most _ (distance_to k) distance e r.no_farther, r.nearest);
          origin = elim r.origin [ inl f ↦ inl f | inr (j, f, i, g) ↦ inr (j, f, inr i, g) ];
        })
  ]

  -- A kind that is suggested is one of those listed, no other is nearer to the name, and its
  -- distance is at most a third of the name's length and one.
  pub nearest_kind_lem :
      (kinds : List IndexedKind) (k : IndexedKind)
      → nearest_kind lower wanted kinds ≡ some k
      → Elem k kinds
        × All (λ j. distance_to k ≤ distance_to j) kinds
        × (distance_to k ≤ 1 + length wanted / 3)
  unfolding nearest_kind
  nearest_kind_lem kinds k h =
      let r = nearest_from lower wanted kinds none 1073741824 in
      let near = nearest_from-IsNearest kinds none 1073741824 in
      elim (Bool-cases (ltb (1 + length wanted / 3) r.1)) [
        | inl e ↦ absurd (cc (rw e at h))
        | inr e ↦
            let f = rw e at h in
            elim near.origin [
              | inl (g, d) ↦ absurd (cc (g, f))
              | inr (j, g, i, d) ↦
                  let same = some_inj (sym g ∙ f) in
                  subst
                    (λ x.
                      Elem x kinds
                      × All (λ l. distance_to x ≤ distance_to l) kinds
                      × (distance_to x ≤ 1 + length wanted / 3))
                    same
                    (
                      i,
                      subst (λ n. All (λ l. n ≤ distance_to l) kinds) d near.nearest,
                      subst (λ n. n ≤ 1 + length wanted / 3) d (not_above _ _ e),
                    )
            ]
      ]
