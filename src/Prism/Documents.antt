-- ===== src/Prism/Documents.antt =====
-- The JSON documents that controllers/prism_client.go builds and reads, and its nested lookups.
-- An object holds each key once. A number is known by what the code takes from it: the int64 of its
-- float64, and its value as an int64 where it is an integer in range.
use ahv_to_ove_operator.Base.{
  ℕ, Bool, List, [], ◌∷◌, Text, text_eq, if◌then◌else◌, Option, none, some,
}

mutual
  pub data Json : Type 0 where
    null : Json
    bool : Bool → Json
    num : ℕ → Option ℕ → Json
    str : Text → Json
    arr : Items → Json
    obj : Fields → Json

  pub data Items : Type 0 where
    nil : Items
    cons : Json → Items → Items

  pub data Fields : Type 0 where
    none_left : Fields
    field : Text → Json → Fields → Fields

unfoldable pub items : Items → List Json
items nil = []
items (cons j js) = j ∷ items js

-- `m[key]`: nil, which stands for JSON's null too, if the key is missing.
unfoldable pub get : Text → Fields → Json
get key none_left = null
get key (field k v fs) = let rest = get key fs in if text_eq k key then v else rest

-- `delete(m, key)`
unfoldable pub delete : Text → Fields → Fields
delete key none_left = none_left
delete key (field k v fs) =
    let rest = delete key fs in if text_eq k key then rest else field k v rest

-- `m[key] = v`
unfoldable pub assign : Text → Json → Fields → Fields
assign key v none_left = field key v none_left
assign key v (field k w fs) =
    let rest = assign key v fs in if text_eq k key then field k v fs else field k w rest

-- The two-valued type assertions, whose first value is empty where the second is false.
unfoldable pub as_fields : Json → Fields
as_fields (obj fs) = fs
as_fields _ = none_left

unfoldable pub as_text : Json → Text
as_text (str s) = s
as_text _ = []

unfoldable pub as_items : Json → List Json
as_items (arr js) = items js
as_items _ = []

unfoldable pub as_map : Json → Option Fields
as_map (obj fs) = some fs
as_map _ = none

-- `int64(v)` for `v, ok := x.(float64)`
unfoldable pub as_int : Json → Option ℕ
as_int (num n _) = some n
as_int _ = none

-- The walk of `unstructuredNestedString` and of `unstructuredNestedSlice`.
unfoldable pub walk : Json → List Text → Option Json
walk cur [] = some cur
walk cur (f ∷ fs) = elim (as_map cur) [ none ↦ none | some m ↦ walk (get f m) fs ]

-- Its first value alone, which is what every caller takes: empty where nothing is found.
unfoldable pub unstructured_nested_string : Fields → List Text → Text
unstructured_nested_string m fs = elim (walk (obj m) fs) [ none ↦ [] | some j ↦ as_text j ]

unfoldable pub unstructured_nested_slice : Fields → List Text → List Json
unstructured_nested_slice m fs = elim (walk (obj m) fs) [ none ↦ [] | some j ↦ as_items j ]

-- `json.Unmarshal` into a map or a struct, and into the fields of a struct. `none` is a value of
-- another type, which is an error; a missing key and null leave the zero value.
unfoldable pub to_object : Json → Option Fields
to_object null = some none_left
to_object (obj fs) = some fs
to_object _ = none

unfoldable pub to_text : Json → Option Text
to_text null = some []
to_text (str s) = some s
to_text _ = none

unfoldable pub to_int64 : Json → Option ℕ
to_int64 null = some 0
to_int64 (num _ n) = n
to_int64 _ = none

unfoldable pub to_list : Json → Option (List Json)
to_list null = some []
to_list (arr js) = some (items js)
to_list _ = none

-- Each item of a list.
unfoldable pub each {ℓ} : {A : Type ℓ} → (Json → Option A) → List Json → Option (List A)
each decode [] = some []
each decode (j ∷ js) = elim (decode j) [
  | none ↦ none
  | some a ↦ elim (each decode js) [ none ↦ none | some rest ↦ some (a ∷ rest) ]
]
