-- ===== src/Cel.antt =====
-- internal/cel/validator.go: which CEL expressions a policy may use. The parser and the type checker
-- of the CEL library are parameters; an expression of its syntax tree is a data type.
pub mod Allowed
use search.Prelude.{
  ltb, ◌==◌, if◌then◌else◌, is_empty, Str, lit, str_eq, has_str, Result, ok, err, ℕ, suc, Bool,
  true, false, ◌&&◌, ◌||◌, List, [], ◌∷◌, ◌++◌,
}
use search.Api.{Json}

-- ast.Expr by its kinds; `nothing` is a nil one. A call has a target if it is a member function.
mutual
  pub data Expr : Type 0 where
    nothing : Expr
    literal : Json → Expr
    ident : Str → Expr
    call : Str → Exprs → Expr
    member_call : Str → Expr → Exprs → Expr
    select : Expr → Str → Expr
    list_of : Exprs → Expr
    map_of : Entries → Expr
    struct_of : Str → StructFields → Expr
    comprehension : Expr → Expr → Expr → Expr → Expr → Expr

  pub data Exprs : Type 0 where
    no_exprs : Exprs
    more_exprs : Expr → Exprs → Exprs

  pub data Entries : Type 0 where
    no_entries : Entries
    more_entries : Expr → Expr → Entries → Entries

  pub data StructFields : Type 0 where
    no_struct_fields : StructFields
    more_struct_fields : Str → Expr → StructFields → StructFields

abbrev pub allowed_operators : List Str
allowed_operators =
    lit "_==_"
    ∷ lit "_!=_"
    ∷ lit "_<_"
    ∷ lit "_<=_"
    ∷ lit "_>_"
    ∷ lit "_>=_"
    ∷ lit "_&&_"
    ∷ lit "_||_"
    ∷ lit "!_"
    ∷ lit "_[_]"
    ∷ lit "_._"
    ∷ lit "_?_:_"
    ∷ lit "has"
    ∷ lit "contains"
    ∷ lit "startsWith"
    ∷ lit "endsWith"
    ∷ lit "matches"
    ∷ lit "@in"
    ∷ lit "exists"
    ∷ lit "all"
    ∷ lit "size"
    ∷ lit "map"
    ∷ lit "filter"
    ∷ []

-- strings.HasPrefix(name, "@")
unfoldable pub is_internal : Str → Bool
is_internal [] = false
is_internal (c ∷ s) = c == 64

unfoldable pub is_list : Expr → Bool
is_list (list_of es) = true
is_list _ = false

-- The exception for `_+_` of two arguments, one of which is a list.
unfoldable pub is_list_concat : Str → Exprs → Bool
unfolding is_list
is_list_concat name (more_exprs a (more_exprs b no_exprs)) =
    str_eq name (lit "_+_") && (is_list a || is_list b)
is_list_concat name _ = false

unfoldable pub check_name : Str → Exprs → Str
unfolding is_internal has_str is_list_concat
check_name name args =
    if is_internal name
    then []
    else if has_str name allowed_operators || is_list_concat name args
    then []
    else lit "operator or function '"
      ++ name
      ++ lit "' is not allowed; checks limited to basic comparison and list/map logic"

-- `if err := a; err != "" { return err }`, then `b`.
unfoldable pub or_next : Str → Str → Str
or_next [] b = b
or_next (c ∷ a) b = c ∷ a

-- The limit on the depth, at the entry of `checkExpr`.
unfoldable pub within : ℕ → ℕ → Str → Str
within max_depth depth rest =
    if ltb max_depth depth then lit "expression complexity exceeds maximum depth" else rest

module _ (max_depth : ℕ) where
  -- The message, which is empty if the expression is allowed.
  unfoldable mutual
    unfolding within or_next check_name

    pub check_expr : Expr → ℕ → Str
    check_expr nothing depth = []
    check_expr (literal v) depth = within max_depth depth []
    check_expr (ident x) depth = within max_depth depth []
    check_expr (call name args) depth =
        within max_depth depth (or_next (check_name name args) (check_exprs args (suc depth)))
    check_expr (member_call name target args) depth = within max_depth depth (
        or_next (check_name name args)
          (or_next (check_expr target (suc depth)) (check_exprs args (suc depth))))
    check_expr (select operand f) depth = within max_depth depth (check_expr operand (suc depth))
    check_expr (list_of es) depth = within max_depth depth (check_exprs es (suc depth))
    check_expr (map_of es) depth = within max_depth depth (check_entries es (suc depth))
    check_expr (struct_of name fs) depth = within max_depth depth (check_fields fs (suc depth))
    check_expr (comprehension range init condition step result) depth = within max_depth depth (
        or_next (check_expr range (suc depth)) (
          or_next (check_expr init (suc depth)) (
            or_next (check_expr condition (suc depth))
              (or_next (check_expr step (suc depth)) (check_expr result (suc depth))))))

    pub check_exprs : Exprs → ℕ → Str
    check_exprs no_exprs depth = []
    check_exprs (more_exprs e es) depth = or_next (check_expr e depth) (check_exprs es depth)

    pub check_entries : Entries → ℕ → Str
    check_entries no_entries depth = []
    check_entries (more_entries k v es) depth =
        or_next (check_expr k depth) (or_next (check_expr v depth) (check_entries es depth))

    pub check_fields : StructFields → ℕ → Str
    check_fields no_struct_fields depth = []
    check_fields (more_struct_fields f v fs) depth =
        or_next (check_expr v depth) (check_fields fs depth)

-- What compiling gives: the issues, or the tree and whether its output type is bool.
pub record CheckedAst : Type 0 where
  pub tree : Expr
  pub output_is_bool : Bool

-- The errors of an expression, in order.
unfoldable pub validate_expression : (Str → Result CheckedAst) → ℕ → Str → List Str
unfolding check_expr
validate_expression compile max_depth expression =
    if is_empty expression then [] else elim (compile expression) [
      | err e ↦ e ∷ []
      | ok c ↦
          let message = check_expr max_depth c.tree 0 in
          (if c.output_is_bool then [] else lit "expression must evaluate to a boolean" ∷ [])
          ++ (if is_empty message then [] else message ∷ [])
    ]
