-- ===== src/Kinds/Printing.antt =====
-- References to kinds as cmd/milo-search prints them, read back.
use search.Prelude.{
  ◌==◌, Bool-cases, All, All-append, Str, str_eq, str_eq→eq, ℕ, ◌≡◌, refl, sym, ap, subst, inl, inr,
  false, none, some, [], ◌∷◌, ◌++◌, append_assoc, arith,
}
use search.Kinds.{IndexedKind, cut, parse_kind_ref, kind_ref, candidate}

-- A string without the byte.
abbrev pub Without : ℕ → Str → Type 0
Without c = All (λ d. (d == c) ≡ false)

cut-first : (c : ℕ) (s t : Str) → Without c s → cut c (s ++ (c ∷ t)) ≡ some (s, t)
unfolding cut
cut-first c [] t h = ground arith
cut-first c (d ∷ s) t h = rw (h.0, cut-first c s t h.1) refl

cut-none : (c : ℕ) (s : Str) → Without c s → cut c s ≡ none
unfolding cut
cut-none c [] h = refl
cut-none c (d ∷ s) h = rw (h.0, cut-none c s h.1) refl

Without-append :
    (c d : ℕ) (s t : Str) → (d == c) ≡ false → Without c s → Without c t → Without c (s ++ (d ∷ t))
Without-append c d s t e hs ht = All-append (λ x. (x == c) ≡ false) s (d ∷ t) hs (e, ht)

-- A candidate of the message on an ambiguous kind reads back as exactly that kind, group and
-- version, if the kind has no dot and no slash and the group has no slash.
pub parse_kind_ref-candidate :
    (k : IndexedKind)
    → Without b'.' k.kind
    → Without b'/' k.kind
    → Without b'/' k.group
    → parse_kind_ref (candidate k) ≡ record { kind = k.kind; group = k.group; version = k.version }
unfolding parse_kind_ref candidate
parse_kind_ref-candidate k d s g = rw (cut_slash, cut-first b'.' k.kind k.group d) refl
  where
    cut_slash :
        cut b'/' (k.kind ++ (b'.' ∷ (k.group ++ (b'/' ∷ k.version))))
        ≡ some (k.kind ++ (b'.' ∷ k.group), k.version)
    cut_slash =
        subst (λ x. cut b'/' x ≡ some (k.kind ++ (b'.' ∷ k.group), k.version))
          (append_assoc k.kind (b'.' ∷ k.group) (b'/' ∷ k.version))
          (cut-first b'/' (k.kind ++ (b'.' ∷ k.group)) k.version
            (Without-append b'/' b'.' k.kind k.group refl s g))

-- The short form reads back as the kind and group without a version.
parse_kind_ref-kind_ref :
    (k : IndexedKind)
    → Without b'.' k.kind
    → Without b'/' k.kind
    → Without b'/' k.group
    → parse_kind_ref (kind_ref k) ≡ record { kind = k.kind; group = k.group; version = [] }
unfolding parse_kind_ref kind_ref
parse_kind_ref-kind_ref k d s g = elim (Bool-cases (str_eq k.group [])) [
  | inl e ↦
      rw (e, cut-none b'/' k.kind s, cut-none b'.' k.kind d)
        (ap (λ group. record { kind = k.kind; group = group; version = [] })
          (sym (str_eq→eq k.group [] e)))
  | inr e ↦
      rw
        (
          e,
          cut-none b'/' (k.kind ++ (b'.' ∷ k.group))
              (Without-append b'/' b'.' k.kind k.group refl s g),
          cut-first b'.' k.kind k.group d,
        )
        refl
]
