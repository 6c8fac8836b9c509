-- ===== src/ClType/Parser.antt =====
-- src/types/clvalue/cltype/Parser.ts: types from bytes (`matchBytesToCLType`).
pub mod Complete
pub mod Sound
pub mod Fuel
use casper_js_sdk.Prelude.{
  ℕ, zero, suc, List, [], ◌∷◌, Option, none, some, length, ◌==◌, if◌then◌else◌, Result, ok, err,
  ◌>>=◌, buffer_constructor_not_detected, out_of_fuel,
}
use casper_js_sdk.Prelude.Words.{Bytes}
use casper_js_sdk.Ethers.{Ethers}
use casper_js_sdk.Numeric.{Parsed, u32_from_bytes}
use casper_js_sdk.ClType.{
  ClType, TypeId, SimpleType, type_code, simple, option, list, byte_array, result, map, tuple1,
  tuple2, tuple3,
}

-- `Object.values(TypeID)`, its numbers
abbrev pub type_ids : List TypeId
type_ids =
    TypeId.bool ∷ TypeId.i32 ∷ TypeId.i64 ∷ TypeId.u8 ∷ TypeId.u32 ∷ TypeId.u64 ∷ TypeId.u128
    ∷ TypeId.u256 ∷ TypeId.u512 ∷ TypeId.unit ∷ TypeId.string ∷ TypeId.key ∷ TypeId.uref
    ∷ TypeId.option ∷ TypeId.list ∷ TypeId.byte_array ∷ TypeId.result ∷ TypeId.map ∷ TypeId.tuple1
    ∷ TypeId.tuple2 ∷ TypeId.tuple3 ∷ TypeId.any ∷ TypeId.public_key ∷ []

unfoldable pub find_type_id : ℕ → List TypeId → Option TypeId
find_type_id tag [] = none
find_type_id tag (id ∷ ids) = if type_code id == tag then some id else find_type_id tag ids

-- `toCLTypeTag`
unfoldable pub to_cl_type_tag : ℕ → Option TypeId
unfolding find_type_id
to_cl_type_tag tag = find_type_id tag type_ids

module _ ⦃e : Ethers⦄ where
  -- The `switch` of `matchBytesToCLType`; `rec` is the recursive call.
  unfoldable pub match_tag : (Bytes → Parsed ClType) → TypeId → Bytes → Parsed ClType
  match_tag rec TypeId.bool remainder = ok (simple SimpleType.bool, remainder)
  match_tag rec TypeId.i32 remainder = ok (simple SimpleType.i32, remainder)
  match_tag rec TypeId.i64 remainder = ok (simple SimpleType.i64, remainder)
  match_tag rec TypeId.u8 remainder = ok (simple SimpleType.u8, remainder)
  match_tag rec TypeId.u32 remainder = ok (simple SimpleType.u32, remainder)
  match_tag rec TypeId.u64 remainder = ok (simple SimpleType.u64, remainder)
  match_tag rec TypeId.u128 remainder = ok (simple SimpleType.u128, remainder)
  match_tag rec TypeId.u256 remainder = ok (simple SimpleType.u256, remainder)
  match_tag rec TypeId.u512 remainder = ok (simple SimpleType.u512, remainder)
  match_tag rec TypeId.unit remainder = ok (simple SimpleType.unit, remainder)
  match_tag rec TypeId.string remainder = ok (simple SimpleType.string, remainder)
  match_tag rec TypeId.key remainder = ok (simple SimpleType.key, remainder)
  match_tag rec TypeId.uref remainder = ok (simple SimpleType.uref, remainder)
  match_tag rec TypeId.any remainder = ok (simple SimpleType.any, remainder)
  match_tag rec TypeId.public_key remainder = ok (simple SimpleType.public_key, remainder)
  match_tag rec TypeId.option remainder = do
    (inner, option_bytes) ← rec remainder
    ok (option inner, option_bytes)
  match_tag rec TypeId.list remainder = do
    (inner, list_bytes) ← rec remainder
    ok (list inner, list_bytes)
  match_tag rec TypeId.byte_array remainder = do
    (size, byte_array_bytes) ← u32_from_bytes remainder
    ok (byte_array size, byte_array_bytes)
  match_tag rec TypeId.result remainder = do
    (inner_ok, result_bytes) ← rec remainder
    (inner_err, err_bytes) ← rec result_bytes
    ok (result inner_ok inner_err, err_bytes)
  match_tag rec TypeId.map remainder = do
    (key_type, key_bytes) ← rec remainder
    (val_type, val_bytes) ← rec key_bytes
    ok (map key_type val_type, val_bytes)
  match_tag rec TypeId.tuple1 remainder = do
    (inner, tuple1_bytes) ← rec remainder
    ok (tuple1 inner, tuple1_bytes)
  match_tag rec TypeId.tuple2 remainder = do
    (inner1, inner1_bytes) ← rec remainder
    (inner2, inner2_bytes) ← rec inner1_bytes
    ok (tuple2 inner1 inner2, inner2_bytes)
  match_tag rec TypeId.tuple3 remainder = do
    (inner1, inner1_bytes) ← rec remainder
    (inner2, inner2_bytes) ← rec inner1_bytes
    (inner3, inner3_bytes) ← rec inner2_bytes
    ok (tuple3 inner1 inner2 inner3, inner3_bytes)

  -- `bytes[0]` of no bytes is `undefined`, which is no tag.
  unfoldable pub match_first : (Bytes → Parsed ClType) → Bytes → Parsed ClType
  match_first rec [] = err buffer_constructor_not_detected
  match_first rec (tag ∷ remainder) = elim (to_cl_type_tag tag) [
    | none ↦ err buffer_constructor_not_detected
    | some id ↦ match_tag rec id remainder
  ]

  -- Each call takes a byte at least, so calls nested as deep as there are bytes, and one more, are
  -- enough.
  unfoldable pub match_fuel : ℕ → Bytes → Parsed ClType
  match_fuel zero bytes = err out_of_fuel
  match_fuel (suc fuel) bytes = match_first (match_fuel fuel) bytes

  unfoldable pub match_bytes_to_cl_type : Bytes → Parsed ClType
  match_bytes_to_cl_type bytes = match_fuel (suc (length bytes)) bytes
