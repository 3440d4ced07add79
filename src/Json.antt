-- ===== src/Json.antt =====
-- JSON values as the language's parser gives them, and what the code reads of them.
use gian_proxies.Base.{
  ℕ, ◌^◌, String, str_eq, Bool, true, false, ◌&&◌, Option, none, some, List, [], ◌∷◌, ltb,
  if◌then◌else◌,
}

-- A number: a natural one, the negative of `n + 1`, a finite one that is no integer, or one that is
-- not finite, which a text such as 1e999 is read as.
pub data Number : Type 0 where
  whole minus fraction : ℕ → Number
  infinite : Number

-- The fields of an object have distinct names.
mutual
  pub data Json : Type 0 where
    null : Json
    bool : Bool → Json
    num : Number → Json
    str : String → Json
    arr : Items → Json
    obj : Fields → Json

  pub data Items : Type 0 where
    nil : Items
    cons : Json → Items → Items

  pub data Fields : Type 0 where
    end : Fields
    field : String → Json → Fields → Fields

-- `record[name]`, where `undefined` is `none`.
abbrev pub member : String → Fields → Option Json
member name end = none
member name (field k v rest) = if str_eq k name then some v else member name rest

-- The same on a value that need not be an object; other values have no such member.
abbrev pub property : String → Json → Option Json
property name (obj fields) = member name fields
property name _ = none

-- `value ?? other`
abbrev pub value_or : Json → Option Json → Json
value_or d none = d
value_or d (some null) = d
value_or d (some v) = v

-- `value !== null && typeof value === 'object' && !Array.isArray(value)`
abbrev pub as_record : Json → Option Fields
as_record (obj fields) = some fields
as_record _ = none

abbrev pub as_string : Json → Option String
as_string (str s) = some s
as_string _ = none

abbrev pub items : Items → List Json
items nil = []
items (cons v vs) = v ∷ items vs

abbrev pub as_array : Json → Option (List Json)
as_array (arr vs) = some (items vs)
as_array _ = none

-- `Number.isSafeInteger(value) && value >= 0`
abbrev pub as_safe_natural : Json → Option ℕ
as_safe_natural (num (whole n)) = if ltb n (2 ^ 53) then some n else none
as_safe_natural _ = none

-- The keys of an object.
abbrev pub keys : Fields → List String
keys end = []
keys (field k v rest) = k ∷ keys rest

-- `Number.isFinite` on a number.
abbrev pub is_finite : Number → Bool
is_finite infinite = false
is_finite _ = true

-- `isJsonValue` of packages/proxies/dsh-bridge/src/schema.ts.
unfoldable mutual
  pub is_json_value : Json → Bool
  is_json_value null = true
  is_json_value (bool b) = true
  is_json_value (num n) = is_finite n
  is_json_value (str s) = true
  is_json_value (arr vs) = are_json_items vs
  is_json_value (obj fields) = are_json_fields fields

  pub are_json_items : Items → Bool
  are_json_items nil = true
  are_json_items (cons v vs) = is_json_value v && are_json_items vs

  pub are_json_fields : Fields → Bool
  are_json_fields end = true
  are_json_fields (field k v rest) = is_json_value v && are_json_fields rest
