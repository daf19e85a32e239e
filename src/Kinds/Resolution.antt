-- ===== src/Kinds/Resolution.antt =====
-- Which kind cmd/milo-search/helpers.go resolves a reference to.
use search.Prelude.{
  Bool-cases, keep, All, Elem, All-Elem, Str, str_eq, eq→str_eq, ◌≡◌, refl, sym, ap, subst, ◌∙◌,
  ◌≢◌, ◌⊎◌, inl, inr, Bool, true, false, ◌&&◌, ◌||◌, List, [], ◌∷◌, arith,
}
use search.Api.{TargetResource}
use search.Kinds.{
  IndexedKind, target, KindRef, parse_kind_ref, resolved, matches_ref, by_matches, resolve_ref,
  resolve_kind,
}

swap_group :
    (a e g g' w : Bool)
    → (e ≡ true) ⊎ (g ≡ false)
    → (a && ((e || g) && w)) ≡ true
    → (a && ((e || g') && w)) ≡ true
swap_group a e g g' w s h = ground arith

module _ (equal_fold : Str → Str → Bool) where
  keep-Elem :
      (p : IndexedKind → Bool) (k : IndexedKind) (ks : List IndexedKind)
      → Elem k ks
      → p k ≡ true
      → Elem k (keep p ks)
  unfolding keep
  keep-Elem p k [] i h = absurd i
  keep-Elem p k (j ∷ ks) (inl e) h = rw (e, h) (inl refl)
  keep-Elem p k (j ∷ ks) (inr i) h = elim (Bool-cases (p j)) [
    | inl e ↦ rw e (inr (keep-Elem p k ks i h))
    | inr e ↦ rw e (keep-Elem p k ks i h)
  ]

  Elem-keep :
      (p : IndexedKind → Bool) (k : IndexedKind) (ks : List IndexedKind)
      → Elem k (keep p ks)
      → Elem k ks × (p k ≡ true)
  unfolding keep
  Elem-keep p k [] i = absurd i
  Elem-keep p k (j ∷ ks) i = elim (Bool-cases (p j)) [
    | inl e ↦ first p k j ks e (Elem-keep p k ks) (rw e at i)
    | inr e ↦ let (there, h) = Elem-keep p k ks (rw e at i) in (inr there, h)
  ]
    where
      first :
          (p : IndexedKind → Bool) (k j : IndexedKind) (ks : List IndexedKind)
          → p j ≡ true
          → (Elem k (keep p ks) → Elem k ks × (p k ≡ true))
          → Elem k (j ∷ keep p ks)
          → Elem k (j ∷ ks) × (p k ≡ true)
      first p k j ks e ih (inl s) = (inl s, subst (λ x. p x ≡ true) s e)
      first p k j ks e ih (inr i) = let (there, h) = ih i in (inr there, h)

  -- The target is that of a kind in the list that matches the reference, and no other one does.
  pub record IsMatch (r : KindRef) (kinds : List IndexedKind) (t : TargetResource) : Type 0 where
    pub found : IndexedKind
    pub listed : Elem found kinds
    pub matching : matches_ref equal_fold r found ≡ true
    pub only : All (λ k. (matches_ref equal_fold r k ≡ false) ⊎ (k ≡ found)) kinds
    pub its_target : t ≡ target found

  by_matches-one :
      (ms : List IndexedKind) (t : TargetResource)
      → by_matches equal_fold ms ≡ resolved t
      → (m : IndexedKind) × (ms ≡ m ∷ []) × (t ≡ target m)
  by_matches-one [] t h = cc
  by_matches-one (m ∷ []) t h = (m, refl, cc)
  by_matches-one (m ∷ j ∷ ms) t h = cc

  keep-only :
      (p : IndexedKind → Bool) (m : IndexedKind) (ks : List IndexedKind)
      → ((k : IndexedKind) → Elem k (keep p ks) → k ≡ m)
      → All (λ k. (p k ≡ false) ⊎ (k ≡ m)) ks
  unfolding keep
  keep-only p m [] f = tt
  keep-only p m (k ∷ ks) f = elim (Bool-cases (p k)) [
    | inl e ↦ (inr (f k (rw e (inl refl))), keep-only p m ks (λ j i. f j (rw e (inr i))))
    | inr e ↦ (inl e, keep-only p m ks (λ j i. f j (rw e i)))
  ]

  Elem-one : (k m : IndexedKind) → Elem k (m ∷ []) → k ≡ m
  Elem-one k m (inl e) = sym e
  Elem-one k m (inr i) = absurd i

  by_matches-IsMatch :
      (r : KindRef) (kinds : List IndexedKind) (t : TargetResource)
      → by_matches equal_fold (keep (matches_ref equal_fold r) kinds) ≡ resolved t
      → IsMatch r kinds t
  by_matches-IsMatch r kinds t h =
      let (m, one, same) = by_matches-one (keep (matches_ref equal_fold r) kinds) t h in
      let (listed, matching) =
        Elem-keep (matches_ref equal_fold r) m kinds (subst (Elem m) (sym one) (inl refl)) in
      record {
        found = m;
        listed = listed;
        matching = matching;
        only =
            keep-only (matches_ref equal_fold r) m kinds
              (λ k i. Elem-one k m (subst (Elem k) one i));
        its_target = same;
      }

  resolve_ref-IsMatch :
      (r : KindRef) (kinds : List IndexedKind) (t : TargetResource)
      → resolve_ref equal_fold r kinds ≡ resolved t
      → IsMatch r kinds t
  unfolding resolve_ref
  resolve_ref-IsMatch r kinds t h = elim (Bool-cases (str_eq r.kind [])) [
    | inl e ↦ absurd (cc (rw e at h))
    | inr e ↦ by_matches-IsMatch r kinds t (rw e at h)
  ]

  -- A reference that resolves gives the target of a listed kind that it matches, and it matches no
  -- other kind of the list.
  pub resolve_kind-IsMatch :
      (ref : Str) (kinds : List IndexedKind) (t : TargetResource)
      → resolve_kind equal_fold ref kinds ≡ resolved t
      → IsMatch (parse_kind_ref ref) kinds t
  unfolding resolve_kind
  resolve_kind-IsMatch ref kinds t h = resolve_ref-IsMatch (parse_kind_ref ref) kinds t h

  matches_ref-grouped :
      (r : KindRef) (core other : IndexedKind)
      → ((g : Str) → g ≢ [] → equal_fold [] g ≡ false)
      → core.group ≡ []
      → other.kind ≡ core.kind
      → other.version ≡ core.version
      → matches_ref equal_fold r core ≡ true
      → matches_ref equal_fold r other ≡ true
  unfolding matches_ref
  matches_ref-grouped r core other fold g k v h =
      rw (k, v)
        (swap_group (equal_fold core.kind r.kind) (str_eq r.group [])
          (equal_fold core.group r.group) (equal_fold other.group r.group)
          (str_eq r.version [] || equal_fold core.version r.version) group_free h)
    where
      group_free : (str_eq r.group [] ≡ true) ⊎ (equal_fold core.group r.group ≡ false)
      group_free = elim (Bool-cases (str_eq r.group [])) [
        | inl e ↦ inl e
        | inr e ↦ inr (rw g (fold r.group (λ s. ground (arith, eq→str_eq r.group [] s))))
      ]

  -- A kind of the core group cannot be named on the command line where another group has a kind of
  -- the same name and version: whatever the reference, it does not resolve to the core kind. This
  -- only asks of strings.EqualFold that it tells the empty string from every other one.
  pub core_kind_unreachable :
      (ref : Str) (kinds : List IndexedKind) (core other : IndexedKind)
      → ((g : Str) → g ≢ [] → equal_fold [] g ≡ false)
      → Elem other kinds
      → core.group ≡ []
      → other.group ≢ []
      → other.kind ≡ core.kind
      → other.version ≡ core.version
      → resolve_kind equal_fold ref kinds ≢ resolved (target core)
  core_kind_unreachable ref kinds core other fold o g n k v h =
      let match = resolve_kind-IsMatch ref kinds (target core) h in
      let same = match.its_target in
      let group = ap (λ (x : TargetResource). x.group) same in
      let kind = ap (λ (x : TargetResource). x.kind) same in
      let version = ap (λ (x : TargetResource). x.version) same in
      let other_matches =
        matches_ref-grouped (parse_kind_ref ref) match.found other fold (sym group ∙ g) (k ∙ kind)
          (v ∙ version) match.matching in
      elim (All-Elem _ other kinds match.only o) [
        | inl e ↦ cc
        | inr e ↦ n (ap (λ (x : IndexedKind). x.group) e ∙ sym group ∙ g)
      ]
