-- ===== src/Py/Json.antt =====
-- JSON values as `json.loads` gives them, with the dictionary methods that the package calls. A
-- float carries its whole part and whether something is behind the point.
use near_kit_py.Base.{zero, Bool, true, false, List, [], ◌∷◌, Option, none, some, if◌then◌else◌}
use near_kit_py.Base.Int.{ℤ, pos}
use near_kit_py.Py.Text.{Str, str_eq}

mutual
  pub data Json : Type 0 where
    null : Json
    bool : Bool → Json
    int : ℤ → Json
    float : ℤ → Bool → Json
    str : Str → Json
    arr : Items → Json
    obj : Fields → Json

  pub data Items : Type 0 where
    nil : Items
    cons : Json → Items → Items

  pub data Fields : Type 0 where
    end : Fields
    field : Str → Json → Fields → Fields

-- The items of an array.
abbrev pub items : Items → List Json
items nil = []
items (cons x xs) = x ∷ items xs

-- `d.get(k)` on the fields, where `none` says that the key is missing.
unfoldable pub lookup : Str → Fields → Option Json
lookup k end = none
lookup k (field j v fs) = if str_eq k j then some v else lookup k fs

-- `d.get(k)`, with `None` for a missing key.
unfoldable pub get : Str → Fields → Json
unfolding lookup
get k fs = elim (lookup k fs) [ none ↦ null | some v ↦ v ]

-- `d.get(k, default)`
unfoldable pub get_default : Str → Json → Fields → Json
unfolding lookup
get_default k d fs = elim (lookup k fs) [ none ↦ d | some v ↦ v ]

-- `k in d`
unfoldable pub has_key : Str → Fields → Bool
unfolding lookup
has_key k fs = elim (lookup k fs) [ none ↦ false | some v ↦ true ]

-- The truth value of an object, as `if x`, `x or y` and `not x` read it.
unfoldable pub truthy : Json → Bool
truthy null = false
truthy (bool b) = b
truthy (int (pos zero)) = false
truthy (float (pos zero) rest) = rest
truthy (str []) = false
truthy (arr nil) = false
truthy (obj end) = false
truthy _ = true

-- `x or y`
unfoldable pub or_else : Json → Json → Json
unfolding truthy
or_else x y = if truthy x then x else y
