-- ===== src/ClType/Json.antt =====
-- The JSON of types: `toJSON` of the classes in src/types/clvalue/cltype, and `fromInterface`
-- of Parser.ts with the `fromJSON` of each class.
pub mod RoundTrip
use casper_js_sdk.Prelude.{
  ℕ, String, List, [], ◌∷◌, Option, none, some, Bool, true, false, if◌then◌else◌, Result, ok, err,
  ◌>>=◌, complex_type_format_invalid, complex_type_format_not_detected, json_constructor_not_found,
  type_name_not_registered, invalid_byte_array_json, invalid_result_json, invalid_map_json,
  invalid_tuple_json,
}
use text.Mathlib.Text.{◌==◌ as str_eq}
use casper_js_sdk.Prelude.Int.{ℤ}
use casper_js_sdk.ClType.{
  ClType, SimpleType, type_name, simple_id, simple, option, list, byte_array, result, map, tuple1,
  tuple2, tuple3, dynamic,
}

-- The values of `JSON.parse`, with numbers that are integers. The names in an object are distinct.
mutual
  pub data Json : Type 0 where
    null : Json
    bool : Bool → Json
    num : ℤ → Json
    str : String → Json
    arr : Items → Json
    obj : Fields → Json

  pub data Items : Type 0 where
    nil : Items
    cons : Json → Items → Items

  pub data Fields : Type 0 where
    end : Fields
    field : String → Json → Fields → Fields

-- `toJSON` of each class
unfoldable pub to_json : ClType → Json
to_json (simple s) = str (type_name (simple_id s))
to_json (option t) = obj (field "Option" (to_json t) end)
to_json (list t) = obj (field "List" (to_json t) end)
to_json (byte_array n) = obj (field "ByteArray" (num n) end)
to_json (result t u) =
    obj (field "Result" (obj (field "ok" (to_json t) (field "err" (to_json u) end))) end)
to_json (map t u) =
    obj (field "Map" (obj (field "key" (to_json t) (field "value" (to_json u) end))) end)
to_json (tuple1 t) = obj (field "Tuple1" (arr (cons (to_json t) nil)) end)
to_json (tuple2 t u) = obj (field "Tuple2" (arr (cons (to_json t) (cons (to_json u) nil))) end)
to_json (tuple3 t u v) =
    obj (field "Tuple3" (arr (cons (to_json t) (cons (to_json u) (cons (to_json v) nil)))) end)
to_json (dynamic id t) = to_json t

-- The record `simpleTypeByName`, by its own keys.
abbrev pub simple_types : List SimpleType
simple_types =
    SimpleType.bool ∷ SimpleType.i32 ∷ SimpleType.i64 ∷ SimpleType.u8 ∷ SimpleType.u32
    ∷ SimpleType.u64 ∷ SimpleType.u128 ∷ SimpleType.u256 ∷ SimpleType.u512 ∷ SimpleType.unit
    ∷ SimpleType.string ∷ SimpleType.key ∷ SimpleType.uref ∷ SimpleType.any ∷ SimpleType.public_key
    ∷ []

unfoldable pub find_simple_type : String → List SimpleType → Result ClType
find_simple_type name [] = err type_name_not_registered
find_simple_type name (s ∷ rest) =
    if str_eq (type_name (simple_id s)) name then ok (simple s) else find_simple_type name rest

-- `getSimpleTypeByName`
unfoldable pub get_simple_type_by_name : String → Result ClType
unfolding find_simple_type
get_simple_type_by_name name = find_simple_type name simple_types

-- A JSON value as `fromJSON` of a class looks at it: with `fromInterface` of its parts. The parts
-- are pure, so it does not matter that `fromJSON` reads them one after the other, as needed.
pub data Source : Type 0 where
  number : ℤ → Source
  items : List (Result ClType) → Source
  fields : List (String × Result ClType) → Source
  other : Source

-- `source.name`, where `undefined` is refused with `missing`
unfoldable pub member : String → List (String × Result ClType) → Result ClType → Result ClType
member name [] missing = missing
member name ((k, v) ∷ rest) missing = if str_eq k name then v else member name rest missing

-- `CLTypeResult.fromJSON` and `CLTypeMap.fromJSON`: an array is an object without these members.
unfoldable pub pair_from_json :
    (ClType → ClType → ClType) → String → String → Result ClType → Source → Result ClType
pair_from_json make first second missing (fields fs) = do
  a ← member first fs missing
  b ← member second fs missing
  ok (make a b)
pair_from_json make first second missing _ = missing

-- `CLTypeTuple1.fromJSON`, `CLTypeTuple2.fromJSON` and `CLTypeTuple3.fromJSON`
unfoldable pub tuple1_from_json : Source → Result ClType
tuple1_from_json (items (a ∷ [])) = do inner ← a; ok (tuple1 inner)
tuple1_from_json _ = err invalid_tuple_json

unfoldable pub tuple2_from_json : Source → Result ClType
tuple2_from_json (items (a ∷ b ∷ [])) = do inner1 ← a; inner2 ← b; ok (tuple2 inner1 inner2)
tuple2_from_json _ = err invalid_tuple_json

unfoldable pub tuple3_from_json : Source → Result ClType
tuple3_from_json (items (a ∷ b ∷ c ∷ [])) = do
  inner1 ← a
  inner2 ← b
  inner3 ← c
  ok (tuple3 inner1 inner2 inner3)
tuple3_from_json _ = err invalid_tuple_json

-- `CLTypeByteArray.fromJSON`
unfoldable pub byte_array_from_json : Source → Result ClType
byte_array_from_json (number n) = ok (byte_array n)
byte_array_from_json _ = err invalid_byte_array_json

-- The `switch` of `fromComplexStruct`, at the one key of the object and its value: what
-- `fromInterface` makes of the value, and its parts.
unfoldable pub from_constructor : String → Result ClType → Source → Result ClType
unfolding pair_from_json member tuple1_from_json tuple2_from_json tuple3_from_json
    byte_array_from_json
from_constructor key inner source =
    if str_eq key "Option"
    then (inner >>= λ t. ok (option t))
    else if str_eq key "List"
    then (inner >>= λ t. ok (list t))
    else if str_eq key "ByteArray"
    then byte_array_from_json source
    else if str_eq key "Result"
    then pair_from_json result "ok" "err" (err invalid_result_json) source
    else if str_eq key "Map"
    then pair_from_json map "key" "value" (err invalid_map_json) source
    else if str_eq key "Tuple1"
    then tuple1_from_json source
    else if str_eq key "Tuple2"
    then tuple2_from_json source
    else if str_eq key "Tuple3"
    then tuple3_from_json source
    else err json_constructor_not_found

-- `fromInterface` and `fromComplexStruct`. The keys of an array are its indices.
unfoldable mutual
  pub from_interface : Json → Result ClType
  from_interface (str name) = get_simple_type_by_name name
  from_interface (obj (field key val end)) = from_constructor key (from_interface val) (parts val)
  from_interface (obj (field key val (field key' val' rest))) = err complex_type_format_invalid
  from_interface (obj end) = err json_constructor_not_found
  from_interface (arr nil) = err json_constructor_not_found
  from_interface (arr (cons x nil)) = err json_constructor_not_found
  from_interface (arr (cons x (cons y rest))) = err complex_type_format_invalid
  from_interface null = err complex_type_format_not_detected
  from_interface (bool b) = err complex_type_format_not_detected
  from_interface (num n) = err complex_type_format_not_detected

  pub parts : Json → Source
  parts (num n) = number n
  parts (arr xs) = items (item_types xs)
  parts (obj fs) = fields (field_types fs)
  parts (str s) = other
  parts (bool b) = other
  parts null = other

  pub item_types : Items → List (Result ClType)
  item_types nil = []
  item_types (cons x xs) = from_interface x ∷ item_types xs

  pub field_types : Fields → List (String × Result ClType)
  field_types end = []
  field_types (field k v fs) = (k, from_interface v) ∷ field_types fs
