-- ===== src/Kinds/Listing.antt =====
-- `indexedKinds` of cmd/milo-search/helpers.go: the order of the listed kinds, with the library's sort
-- as a parameter.
use search.Prelude.{
  ltb, ◌==◌, if◌then◌else◌, Bool-cases, Str, str_eq, str_eq→eq, eq→str_eq, str_eq_iff, ◌≡◌, refl,
  sym, subst, ◌∙◌, inl, inr, Bool, true, false, not, List, [], ◌∷◌, map, arith,
}
use search.Api.{Policy}
use search.Kinds.{IndexedKind, policy_to_kind}

-- `s < t` on strings, by their bytes.
unfoldable str_less : Str → Str → Bool
str_less s [] = false
str_less [] (d ∷ t) = true
str_less (c ∷ s) (d ∷ t) = let rest = str_less s t in if c == d then rest else ltb c d

unfoldable kind_less : IndexedKind → IndexedKind → Bool
unfolding str_less
kind_less a b =
    if not (str_eq a.kind b.kind) then str_less a.kind b.kind else str_less a.group b.group

unfoldable indexed_kinds :
    ((IndexedKind → IndexedKind → Bool) → List IndexedKind → List IndexedKind)
    → List Policy
    → List IndexedKind
unfolding kind_less
indexed_kinds sort policies = sort kind_less (map policy_to_kind policies)

str_less_irrefl : (s : Str) → str_less s s ≡ false
unfolding str_less
str_less_irrefl [] = refl
str_less_irrefl (c ∷ s) = grind (arith, str_less_irrefl s)

str_less_trans : (s t u : Str) → str_less s t ≡ true → str_less t u ≡ true → str_less s u ≡ true
unfolding str_less
str_less_trans s t [] h k = absurd (cc k)
str_less_trans s [] (e ∷ u) h k = absurd (cc h)
str_less_trans [] (d ∷ t) (e ∷ u) h k = refl
str_less_trans (c ∷ s) (d ∷ t) (e ∷ u) h k = grind (arith, str_less_trans s t u, h, k)

str_less_total : (s t : Str) → str_less s t ≡ false → str_less t s ≡ false → s ≡ t
unfolding str_less
str_less_total [] [] h k = refl
str_less_total [] (d ∷ t) h k = absurd (cc h)
str_less_total (c ∷ s) [] h k = absurd (cc k)
str_less_total (c ∷ s) (d ∷ t) h k = grind (arith, str_less_total s t, h, k)

-- What `sort.Slice` needs of its order.
record IsStrictWeak {A : Type 0} (less : A → A → Bool) : Type 0 where
  irreflexive : (a : A) → less a a ≡ false
  transitive : (a b c : A) → less a b ≡ true → less b c ≡ true → less a c ≡ true
  incomparable :
      (a b c : A)
      → less a b ≡ false
      → less b a ≡ false
      → less b c ≡ false
      → less c b ≡ false
      → (less a c ≡ false) × (less c a ≡ false)

-- Kinds that neither comes before the other agree in kind and group.
kind_less_total :
    (a b : IndexedKind)
    → kind_less a b ≡ false
    → kind_less b a ≡ false
    → (a.kind ≡ b.kind) × (a.group ≡ b.group)
unfolding kind_less
kind_less_total a b h k = elim (Bool-cases (str_eq a.kind b.kind)) [
  | inl e ↦
      let f = eq→str_eq b.kind a.kind (sym (str_eq→eq a.kind b.kind e)) in
      (str_eq→eq a.kind b.kind e, str_less_total a.group b.group (rw e at h) (rw f at k))
  | inr e ↦
      let f = not_equal_back a.kind b.kind e in
      absurd (
        cc (sym e ∙ eq→str_eq a.kind b.kind (str_less_total a.kind b.kind (rw e at h) (rw f at k))))
]
  where
    not_equal_back : (s t : Str) → str_eq s t ≡ false → str_eq t s ≡ false
    not_equal_back s t h = ground (arith, h, str_eq_iff s t, str_eq_iff t s)

kind_less_irrefl : (a : IndexedKind) → kind_less a a ≡ false
unfolding kind_less
kind_less_irrefl a = rw (eq→str_eq a.kind a.kind refl) (str_less_irrefl a.group)

kind_less_trans :
    (a b c : IndexedKind) → kind_less a b ≡ true → kind_less b c ≡ true → kind_less a c ≡ true
unfolding kind_less
kind_less_trans a b c h k = grind (
  arith,
  h,
  k,
  str_eq_iff a.kind b.kind,
  str_eq_iff b.kind c.kind,
  str_eq_iff a.kind c.kind,
  str_less_trans a.kind b.kind c.kind,
  str_less_trans a.group b.group c.group,
  str_less_irrefl a.kind,
  str_less_irrefl b.kind,
  str_less_trans a.kind b.kind a.kind,
)

-- The order of the listed kinds is one that the library can sort by.
kind_less-IsStrictWeak : IsStrictWeak kind_less
unfolding kind_less
kind_less-IsStrictWeak = record {
  irreflexive = kind_less_irrefl;
  transitive = kind_less_trans;
  incomparable = λ a b c h k l m.
      let (e, f) = kind_less_total a b h k in
      let (g, i) = kind_less_total b c l m in
      (same_kinds a c (e ∙ g) (f ∙ i), same_kinds c a (sym (e ∙ g)) (sym (f ∙ i)));
}
  where
    same_kinds : (a c : IndexedKind) → a.kind ≡ c.kind → a.group ≡ c.group → kind_less a c ≡ false
    same_kinds a c e f =
        rw (eq→str_eq a.kind c.kind e)
          (subst (λ g. str_less a.group g ≡ false) f (str_less_irrefl a.group))
