-- ===== src/Operation/Json.antt =====
-- encoding/json decoded without a schema, as fence.go reads a status report: `any` values. A number
-- is kept as the text that it was written as. Lists and objects are types of their own.
use Prim.Native.String.{String}
use mathlib.Core.Bool.{Bool, false, not, true, ◌||◌}
use mathlib.Core.List.{List, [], ◌∷◌}
use mathlib.Core.Option.{Option, none, some}
use text.Mathlib.Text.{◌==◌}
use nix_packages.Base.{if◌then◌else◌}

mutual
  pub data Json : Type 0 where
    null : Json
    boolean : Bool → Json
    number string : String → Json
    array : Items → Json
    object : Fields → Json

  pub data Items : Type 0 where
    no_items : Items
    item : Json → Items → Items

  pub data Fields : Type 0 where
    no_fields : Fields
    field : String → Json → Fields → Fields

-- `value, ok := m[key]`
unfoldable pub find_field : String → Fields → Option Json
find_field key no_fields = none
find_field key (field k v rest) =
    let later = find_field key rest in if k == key then some v else later

-- `m[key]`: a missing field reads as nil, like null.
unfoldable pub get_field : String → Fields → Json
get_field key m = elim (find_field key m) [ none ↦ null | some v ↦ v ]

-- `value == true`, `value == "…"`, `value == nil`
unfoldable pub is_true : Json → Bool
is_true (boolean b) = b
is_true null = false
is_true (number n) = false
is_true (string t) = false
is_true (array a) = false
is_true (object o) = false

unfoldable pub is_false : Json → Bool
is_false (boolean b) = not b
is_false null = false
is_false (number n) = false
is_false (string t) = false
is_false (array a) = false
is_false (object o) = false

unfoldable pub is_text : String → Json → Bool
is_text s (string t) = t == s
is_text s null = false
is_text s (boolean b) = false
is_text s (number n) = false
is_text s (array a) = false
is_text s (object o) = false

unfoldable pub is_null : Json → Bool
is_null null = true
is_null (boolean b) = false
is_null (number n) = false
is_null (string t) = false
is_null (array a) = false
is_null (object o) = false

-- asObject: null reads as an empty object.
unfoldable pub as_object : Json → Option Fields
as_object null = some no_fields
as_object (object m) = some m
as_object (boolean b) = none
as_object (number n) = none
as_object (string t) = none
as_object (array a) = none

-- orElse, jq's `//`
unfoldable pub or_else : Json → Json → Json
or_else value fallback = if is_null value || is_false value then fallback else value

-- `value.(float64)`, of the text that spells it
unfoldable pub number_of : Json → Option String
number_of (number n) = some n
number_of null = none
number_of (boolean b) = none
number_of (string t) = none
number_of (array a) = none
number_of (object o) = none

-- Every element as an object, or none where one is something else.
unfoldable pub objects_of : Items → Option (List Fields)
objects_of no_items = some []
objects_of (item v rest) = elim (as_object v) [
  | none ↦ none
  | some m ↦ elim (objects_of rest) [ none ↦ none | some ms ↦ some (m ∷ ms) ]
]

-- `value.([]any)`
unfoldable pub items_of : Json → Option Items
items_of (array xs) = some xs
items_of null = none
items_of (boolean b) = none
items_of (number n) = none
items_of (string t) = none
items_of (object o) = none
