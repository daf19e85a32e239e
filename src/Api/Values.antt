-- ===== src/Api/Values.antt =====
-- JSON values as Go's `any` holds them, and the operations of `map[string]any`.
use search.Prelude.{
  if◌then◌else◌, Str, str_eq, str_eq_iff, ◌≡◌, refl, Bool, true, false, Option, none, some, arith,
}

mutual
  pub data Json : Type 0 where
    null : Json
    bool : Bool → Json
    num : Str → Json
    str : Str → Json
    arr : Items → Json
    obj : Fields → Json

  pub data Items : Type 0 where
    nil : Items
    cons : Json → Items → Items

  pub data Fields : Type 0 where
    no_fields : Fields
    field : Str → Json → Fields → Fields

-- `v, ok := m[k]`
unfoldable pub get : Str → Fields → Option Json
get k no_fields = none
get k (field j v m) = if str_eq j k then some v else get k m

-- `m[k] = v`
unfoldable pub put : Str → Json → Fields → Fields
put k v no_fields = field k v no_fields
put k v (field j w m) = if str_eq j k then field k v m else field j w (put k v m)

-- `delete(m, k)`
unfoldable pub remove : Str → Fields → Fields
remove k no_fields = no_fields
remove k (field j w m) = if str_eq j k then remove k m else field j w (remove k m)

-- `len(m) == 0`
abbrev pub has_no_fields : Fields → Bool
has_no_fields no_fields = true
has_no_fields (field k v m) = false

-- `v.(map[string]any)` and `v.(string)`, of a value that may be absent
abbrev pub as_obj : Option Json → Option Fields
as_obj (some (obj m)) = some m
as_obj _ = none

abbrev pub as_str : Option Json → Option Str
as_str (some (str s)) = some s
as_str _ = none

pub get-put :
    (k j : Str) (v : Json) (m : Fields)
    → get j (put k v m) ≡ (if str_eq k j then some v else get j m)
unfolding get put
get-put k j v no_fields = refl
get-put k j v (field i w m) =
    ground (arith, str_eq_iff k j, str_eq_iff i k, str_eq_iff i j, get-put k j v m)

pub get-remove :
    (k j : Str) (m : Fields) → get j (remove k m) ≡ (if str_eq k j then none else get j m)
unfolding get remove
get-remove k j no_fields = ground arith
get-remove k j (field i w m) =
    ground (arith, str_eq_iff k j, str_eq_iff i k, str_eq_iff i j, get-remove k j m)
