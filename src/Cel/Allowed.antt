-- ===== src/Cel/Allowed.antt =====
-- The check of internal/cel/validator.go against a description of the allowed expressions.
use search.Prelude.{
  ltb, leb, if◌then◌else◌, Bool-cases, is_empty, Str, lit, has_str, Result, ok, Result-cases, ℕ,
  suc, ◌-◌, ◌≤◌, ◌≡◌, refl, sym, ap, ◌∙◌, ◌↔◌, ◌⊎◌, inl, inr, Bool, true, false, ◌&&◌, ◌||◌, [],
  ◌∷◌, ◌++◌, arith,
}
use search.Cel.{
  Expr, nothing, literal, ident, call, member_call, select, list_of, map_of, struct_of,
  comprehension, Exprs, no_exprs, more_exprs, Entries, no_entries, more_entries, StructFields,
  no_struct_fields, more_struct_fields, allowed_operators, is_internal, is_list_concat, check_name,
  or_next, within, check_expr, check_exprs, check_entries, check_fields, CheckedAst,
  validate_expression,
}

unfoldable or_max : ℕ → ℕ → ℕ
or_max a b = if ltb a b then b else a

-- The depth of the tree, and whether each of its calls is of an operator that is allowed.
unfoldable mutual
  unfolding or_max

  pub height : Expr → ℕ
  height nothing = 0
  height (literal v) = 1
  height (ident x) = 1
  height (call name args) = suc (exprs_height args)
  height (member_call name target args) = suc (or_max (height target) (exprs_height args))
  height (select operand f) = suc (height operand)
  height (list_of es) = suc (exprs_height es)
  height (map_of es) = suc (entries_height es)
  height (struct_of name fs) = suc (fields_height fs)
  height (comprehension range init condition step result) = suc (
      or_max (height range)
        (or_max (height init) (or_max (height condition) (or_max (height step) (height result)))))

  exprs_height : Exprs → ℕ
  exprs_height no_exprs = 0
  exprs_height (more_exprs e es) = or_max (height e) (exprs_height es)

  entries_height : Entries → ℕ
  entries_height no_entries = 0
  entries_height (more_entries k v es) = or_max (height k) (or_max (height v) (entries_height es))

  fields_height : StructFields → ℕ
  fields_height no_struct_fields = 0
  fields_height (more_struct_fields f v fs) = or_max (height v) (fields_height fs)

unfoldable pub permits : Str → Exprs → Bool
unfolding is_internal has_str is_list_concat
permits name args = is_internal name || (has_str name allowed_operators || is_list_concat name args)

unfoldable mutual
  unfolding permits

  pub permitted : Expr → Bool
  permitted nothing = true
  permitted (literal v) = true
  permitted (ident x) = true
  permitted (call name args) = permits name args && exprs_permitted args
  permitted (member_call name target args) =
      permits name args && (permitted target && exprs_permitted args)
  permitted (select operand f) = permitted operand
  permitted (list_of es) = exprs_permitted es
  permitted (map_of es) = entries_permitted es
  permitted (struct_of name fs) = fields_permitted fs
  permitted (comprehension range init condition step result) =
      permitted range
      && (permitted init && (permitted condition && (permitted step && permitted result)))

  exprs_permitted : Exprs → Bool
  exprs_permitted no_exprs = true
  exprs_permitted (more_exprs e es) = permitted e && exprs_permitted es

  entries_permitted : Entries → Bool
  entries_permitted no_entries = true
  entries_permitted (more_entries k v es) = permitted k && (permitted v && entries_permitted es)

  fields_permitted : StructFields → Bool
  fields_permitted no_struct_fields = true
  fields_permitted (more_struct_fields f v fs) = permitted v && fields_permitted fs

or_next-is_empty : (a b : Str) → is_empty (or_next a b) ≡ (is_empty a && is_empty b)
unfolding or_next
or_next-is_empty [] b = refl
or_next-is_empty (c ∷ a) b = refl

within-is_empty : (m d : ℕ) (s : Str) → is_empty (within m d s) ≡ (leb 1 (suc m - d) && is_empty s)
unfolding within
within-is_empty m d s = ground arith

check_name-is_empty :
    (name : Str) (args : Exprs) → is_empty (check_name name args) ≡ permits name args
unfolding check_name permits
check_name-is_empty name args = elim (Bool-cases (is_internal name)) [
  | inl e ↦ rw e refl
  | inr e ↦ elim (Bool-cases (has_str name allowed_operators || is_list_concat name args)) [
    | inl f ↦ rw (e, f) refl
    | inr f ↦ rw (e, f) refl
  ]
]

-- Two parts fit in `n` exactly if the larger does.
or_max-fits :
    (p q : Bool) (a b n : ℕ) → ((p && leb a n) && (q && leb b n)) ≡ ((p && q) && leb (or_max a b) n)
unfolding or_max
or_max-fits p q a b n = ground arith

suc_fits :
    (p : Bool) (h m d : ℕ)
    → (leb 1 (suc m - d) && (p && leb h (suc m - suc d))) ≡ (p && leb (suc h) (suc m - d))
suc_fits p h m d = ground arith

-- The message is empty exactly if `p` holds and a tree of height `h` fits in `n` levels.
record Agrees (s : Str) (p : Bool) (h n : ℕ) : Type 0 where
  agrees : is_empty s ≡ (p && leb h n)

node :
    {p : Bool} {h : ℕ} {s : Str} (m d : ℕ)
    → Agrees s p h (suc m - suc d)
    → Agrees (within m d s) p (suc h) (suc m - d)
node {p} {h} {s} m d e = record {
  agrees = within-is_empty m d s ∙ ap (λ b. leb 1 (suc m - d) && b) e.agrees ∙ suc_fits p h m d;
}

both :
    {a b : Str} {p q : Bool} {x y n : ℕ}
    → Agrees a p x n
    → Agrees b q y n
    → Agrees (or_next a b) (p && q) (or_max x y) n
both {a} {b} {p} {q} {x} {y} {n} e f = record {
  agrees =
      or_next-is_empty a b
      ∙ ap (λ c. c && is_empty b) e.agrees
      ∙ ap (λ c. (p && leb x n) && c) f.agrees
      ∙ or_max-fits p q x y n;
}

named :
    {q : Bool} {b : Str} {y n : ℕ} (name : Str) (args : Exprs)
    → Agrees b q y n
    → Agrees (or_next (check_name name args) b) (permits name args && q) y n
named {q} {b} {y} {n} name args f = record {
  agrees =
      or_next-is_empty (check_name name args) b
      ∙ ap (λ c. c && is_empty b) (check_name-is_empty name args)
      ∙ ap (λ c. permits name args && c) f.agrees
      ∙ sym (and_assoc (permits name args) q (leb y n));
}
  where
    and_assoc : (a b c : Bool) → ((a && b) && c) ≡ (a && (b && c))
    and_assoc true b c = refl
    and_assoc false b c = refl

leaf : (m d : ℕ) → Agrees (within m d []) true 1 (suc m - d)
leaf m d = record { agrees = ground (arith, within-is_empty m d []) }

empty_part : (n : ℕ) → Agrees [] true 0 n
empty_part n = record { agrees = ground arith }

module _ (m : ℕ) where
  mutual
    unfolding check_expr height permitted

    check-allowed :
        (e : Expr) (d : ℕ) → Agrees (check_expr m e d) (permitted e) (height e) (suc m - d)
    check-allowed nothing d = empty_part (suc m - d)
    check-allowed (literal v) d = leaf m d
    check-allowed (ident x) d = leaf m d
    check-allowed (call name args) d = node m d (named name args (check_exprs-allowed args (suc d)))
    check-allowed (member_call name target args) d =
        node m d
          (named name args (both (check-allowed target (suc d)) (check_exprs-allowed args (suc d))))
    check-allowed (select operand f) d = node m d (check-allowed operand (suc d))
    check-allowed (list_of es) d = node m d (check_exprs-allowed es (suc d))
    check-allowed (map_of es) d = node m d (check_entries-allowed es (suc d))
    check-allowed (struct_of name fs) d = node m d (check_fields-allowed fs (suc d))
    check-allowed (comprehension range init condition step result) d = node m d (
        both (check-allowed range (suc d)) (
          both (check-allowed init (suc d)) (
            both (check-allowed condition (suc d))
              (both (check-allowed step (suc d)) (check-allowed result (suc d))))))

    check_exprs-allowed :
        (es : Exprs) (d : ℕ)
        → Agrees (check_exprs m es d) (exprs_permitted es) (exprs_height es) (suc m - d)
    check_exprs-allowed no_exprs d = empty_part (suc m - d)
    check_exprs-allowed (more_exprs e es) d = both (check-allowed e d) (check_exprs-allowed es d)

    check_entries-allowed :
        (es : Entries) (d : ℕ)
        → Agrees (check_entries m es d) (entries_permitted es) (entries_height es) (suc m - d)
    check_entries-allowed no_entries d = empty_part (suc m - d)
    check_entries-allowed (more_entries k v es) d =
        both (check-allowed k d) (both (check-allowed v d) (check_entries-allowed es d))

    check_fields-allowed :
        (fs : StructFields) (d : ℕ)
        → Agrees (check_fields m fs d) (fields_permitted fs) (fields_height fs) (suc m - d)
    check_fields-allowed no_struct_fields d = empty_part (suc m - d)
    check_fields-allowed (more_struct_fields f v fs) d =
        both (check-allowed v d) (check_fields-allowed fs d)

accepts_iff :
    (s : Str) (p : Bool) (h m : ℕ)
    → is_empty s ≡ (p && leb h (suc m - 0))
    → (s ≡ []) ↔ ((p ≡ true) × (h ≤ suc m))
accepts_iff [] p h m e = (λ f. ground arith, λ f. refl)
accepts_iff (c ∷ s) p h m e = (λ f. absurd (cc f), λ f. ground arith)

check_expr-allowed :
    (max_depth : ℕ) (e : Expr)
    → (check_expr max_depth e 0 ≡ []) ↔ ((permitted e ≡ true) × (height e ≤ suc max_depth))
check_expr-allowed max_depth e =
    accepts_iff (check_expr max_depth e 0) (permitted e) (height e) max_depth
      (check-allowed max_depth e 0).agrees

-- The expression compiles to one of type bool whose calls are all permitted, and whose tree has at
-- most one level more than the maximal depth.
abbrev pub IsAllowed : (Str → Result CheckedAst) → ℕ → Str → Type 0
IsAllowed compile max_depth x =
    (c : CheckedAst) × (compile x ≡ ok c)
    × (c.output_is_bool ≡ true)
    × (permitted c.tree ≡ true)
    × (height c.tree ≤ suc max_depth)

compiled_errors :
    (b : Bool) (s : Str)
    → (if b then [] else lit "expression must evaluate to a boolean" ∷ [])
        ++ (if is_empty s then [] else s ∷ [])
      ≡ []
    → (b ≡ true) × (s ≡ [])
compiled_errors true [] h = (refl, refl)
compiled_errors true (c ∷ s) h = absurd (cc h)
compiled_errors false s h = absurd (cc h)

-- The errors of an expression that is not empty, from what compiling it gives.
errors_iff :
    (max_depth : ℕ) (b : Bool) (e : Expr)
    → ((if b then [] else lit "expression must evaluate to a boolean" ∷ [])
          ++ (if is_empty (check_expr max_depth e 0) then [] else check_expr max_depth e 0 ∷ [])
        ≡ [])
      ↔ ((b ≡ true) × (permitted e ≡ true) × (height e ≤ suc max_depth))
errors_iff max_depth b e =
    let (sound, complete) = check_expr-allowed max_depth e in
    (
      λ h.
          let (f, g) = compiled_errors b (check_expr max_depth e 0) h in
          let (p, q) = sound g in (f, p, q),
      λ h. rw (h.0, complete (h.1, h.2)) refl,
    )

-- A condition has no error exactly if its expression is empty, or compiles to one of type bool in
-- which every call, its macros expanded, is of an operator of the list, of an internal name, or
-- concatenates a list, and whose tree has at most one level more than the maximal depth.
pub validate_expression-IsAllowed :
    (compile : Str → Result CheckedAst) (max_depth : ℕ) (x : Str)
    → (validate_expression compile max_depth x ≡ []) ↔ ((x ≡ []) ⊎ IsAllowed compile max_depth x)
unfolding validate_expression
validate_expression-IsAllowed compile max_depth [] = (λ h. inl refl, λ h. refl)
validate_expression-IsAllowed compile max_depth (a ∷ x) = elim (Result-cases (compile (a ∷ x))) [
  | inr (e, f) ↦ (
    λ h. absurd (cc (rw f at h)),
    λ h. elim h [ inl g ↦ absurd (cc g) | inr g ↦ absurd (cc (f, g.1)) ],
  )
  | inl (c, f) ↦ (
    λ h.
        let (b, p, q) = (errors_iff max_depth c.output_is_bool c.tree).0 (rw f at h) in
        inr (c, f, b, p, q),
    λ h. elim h [
      | inl g ↦ absurd (cc g)
      | inr (d, g, b, p, q) ↦ rw g ((errors_iff max_depth d.output_is_bool d.tree).1 (b, p, q))
    ],
  )
]
