-- ===== src/ClValue/Parser.antt =====
-- src/types/clvalue: the readers of values (Parser.ts, and `fromBytes` of Bool.ts, Unit.ts,
-- ByteArray.ts, Option.ts, List.ts, Result.ts, Map.ts, Tuple1.ts, Tuple2.ts, Tuple3.ts).
use casper_js_sdk.Prelude.{
  ℕ, zero, suc, List, [], ◌∷◌, take, drop, Bool, true, false, ◌==◌, ◌||◌, if◌then◌else◌, Result, ok,
  err, ◌>>=◌, empty_byte_array, invalid_bool, unit_not_empty, result_type_mismatch, map_entry,
  invalid_value_length, ◌≡◌,
}
use text.Mathlib.Text.{◌==◌ as str_eq}
use casper_js_sdk.Prelude.Int.{pos_part}
use casper_js_sdk.Prelude.Words.{Bytes}
use casper_js_sdk.Ethers.{Ethers}
use casper_js_sdk.ByteConverters.{to_bytes_array_u8}
use casper_js_sdk.Numeric.{
  Parsed, u8_from_bytes, u32_from_bytes, u64_from_bytes, i32_from_bytes, i64_from_bytes,
  from_bytes_big_int_base,
}
use casper_js_sdk.Text.{Text, Decoder, string_from_bytes}
use casper_js_sdk.ClType.{
  ClType, SimpleType, simple, option, list, byte_array, result, map, tuple1, tuple2, tuple3,
  dynamic, get_type_id, get_name, to_bytes,
}
use casper_js_sdk.ClType.Parser.{match_bytes_to_cl_type}
use casper_js_sdk.Key.{key_from_bytes}
use casper_js_sdk.Key.Reference.{uref_from_bytes}
use casper_js_sdk.ClValue.Keypair.{public_key_from_bytes}
use casper_js_sdk.ClValue.Plain.{plain}
use casper_js_sdk.ClValue.{
  ClValue, ClValues, Entries, nil, cons, end, entry, cl_bool, cl_i32, cl_i64, cl_u8, cl_u32, cl_u64,
  cl_u128, cl_u256, cl_u512, cl_unit, cl_string, cl_key, cl_uref, cl_any, cl_public_key,
  cl_byte_array, cl_none, cl_some, cl_list, cl_result, cl_map, cl_tuple1, cl_tuple2, cl_tuple3,
  cl_untyped, get_type, is_any, value_bytes,
}

-- `CLValueBool.fromBytes`
unfoldable pub bool_from_bytes : Bytes → Parsed Bool
bool_from_bytes [] = err empty_byte_array
bool_from_bytes (b ∷ rest) =
    if b == 1 then ok (true, rest) else if b == 0 then ok (false, rest) else err invalid_bool

-- `CLValueUnit.fromBytes`
unfoldable pub unit_from_bytes : Bytes → Parsed ClValue
unit_from_bytes [] = ok (cl_unit, [])
unit_from_bytes (b ∷ rest) = err unit_not_empty

-- A value that has a reader of its own.
abbrev pub read_as {ℓ} : {A : Type ℓ} → (A → ClValue) → Parsed A → Parsed ClValue
read_as value parsed = do (a, rest) ← parsed; ok (value a, rest)

-- The constructor of `CLValueResult` compares the names of the types.
unfoldable pub new_result : ClType → ClType → Bool → ClValue → Result ClValue
new_result t u success v =
    if str_eq (get_name (if success then t else u)) (get_name (get_type v))
    then ok (cl_result t u success v)
    else err result_type_mismatch

-- The loop of `CLValueList.fromBytes`: once no bytes are left, the other elements are passed over.
unfoldable pub read_elements : (Bytes → Parsed ClValue) → ℕ → Bytes → Parsed ClValues
read_elements read zero remainder = ok (nil, remainder)
read_elements read (suc i) [] = read_elements read i []
read_elements read (suc i) (b ∷ remainder) = do
  (inner, inner_bytes) ← read (b ∷ remainder)
  (elements, rest) ← read_elements read i inner_bytes
  ok (cons inner elements, rest)

-- What `toString` gives for the keys of a map. ClValue/Texts has the texts of the program.
pub record KeyTexts : Type 0 where
  pub to_text : ClValue → Result Text
  pub same_text : Text → Text → Bool
  -- The text of a large number is that of its value.
  pub to_text-plain : (v : ClValue) → to_text (plain v) ≡ to_text v

abbrev pub is_dynamic : ClType → Bool
is_dynamic (dynamic id t) = true
is_dynamic _ = false

-- `indexedData.has(keyString)`; the index holds the texts of the keys read so far.
unfoldable pub has_text : KeyTexts → Text → List Text → Bool
has_text texts text [] = false
has_text texts text (t ∷ index) = texts.same_text t text || has_text texts text index

-- Whatever an entry throws is the cause of another error.
abbrev pub catch_entry {ℓ} : {A : Type ℓ} → Result A → Result A
catch_entry (err x) = err map_entry
catch_entry (ok a) = ok a

-- `append` as the reader calls it, which does not look at the error that it returns. The types of the
-- key and of the value are those of the map itself, save dynamic ones, which the reader replaces.
-- The result is whether the pair is added, and the index.
unfoldable pub append_entry :
    KeyTexts → ClType → ClType → ClValue → List Text → Result (Bool × List Text)
append_entry texts t u key index =
    let indexed = do
      text ← texts.to_text key
      ok (if has_text texts text index then (false, index) else (true, text ∷ index))
    in if is_dynamic t || is_dynamic u then ok (false, index) else indexed

-- A key, its value, and what comes of appending them.
abbrev pub read_pair :
    KeyTexts
    → ClType
    → ClType
    → (Bytes → Parsed ClValue)
    → (Bytes → Parsed ClValue)
    → List Text
    → Bytes
    → Result ((ClValue × ClValue) × (Bool × List Text) × Bytes)
read_pair texts t u read_key read_val index remainder = do
  (key, key_bytes) ← read_key remainder
  (val, val_bytes) ← read_val key_bytes
  added ← append_entry texts t u key index
  ok ((key, val), added, val_bytes)

-- The loop of `CLValueMap.fromBytes`.
unfoldable pub read_entries :
    KeyTexts
    → ClType
    → ClType
    → (Bytes → Parsed ClValue)
    → (Bytes → Parsed ClValue)
    → ℕ
    → List Text
    → Bytes
    → Parsed Entries
read_entries texts t u read_key read_val zero index remainder = ok (end, remainder)
read_entries texts t u read_key read_val (suc i) index [] =
    read_entries texts t u read_key read_val i index []
read_entries texts t u read_key read_val (suc i) index (b ∷ remainder) = do
  ((key, val), (added, index'), rest) ←
      catch_entry (read_pair texts t u read_key read_val index (b ∷ remainder))
  (entries, rest') ← read_entries texts t u read_key read_val i index' rest
  ok (if added then entry key val entries else entries, rest')

module _ ⦃e : Ethers⦄ (d : Decoder) (texts : KeyTexts) where
  unfoldable pub read_simple : SimpleType → Bytes → Parsed ClValue
  read_simple SimpleType.bool bytes = read_as cl_bool (bool_from_bytes bytes)
  read_simple SimpleType.i32 bytes = read_as cl_i32 (i32_from_bytes bytes)
  read_simple SimpleType.i64 bytes = read_as cl_i64 (i64_from_bytes bytes)
  read_simple SimpleType.u8 bytes = read_as cl_u8 (u8_from_bytes bytes)
  read_simple SimpleType.u32 bytes = read_as cl_u32 (u32_from_bytes bytes)
  read_simple SimpleType.u64 bytes = read_as cl_u64 (u64_from_bytes bytes)
  read_simple SimpleType.u128 bytes = read_as cl_u128 (from_bytes_big_int_base bytes 128)
  read_simple SimpleType.u256 bytes = read_as cl_u256 (from_bytes_big_int_base bytes 256)
  read_simple SimpleType.u512 bytes = read_as cl_u512 (from_bytes_big_int_base bytes 512)
  read_simple SimpleType.unit bytes = unit_from_bytes bytes
  read_simple SimpleType.string bytes = read_as cl_string (string_from_bytes d bytes)
  read_simple SimpleType.key bytes = read_as cl_key (key_from_bytes bytes)
  read_simple SimpleType.uref bytes = read_as cl_uref (uref_from_bytes bytes)
  read_simple SimpleType.any bytes = ok (cl_any bytes, [])
  read_simple SimpleType.public_key bytes = read_as cl_public_key (public_key_from_bytes bytes)

  -- `CLValueParser.fromBytesByType`, with the readers of the composite values.
  unfoldable pub from_bytes_by_type : ClType → Bytes → Parsed ClValue
  from_bytes_by_type (simple s) bytes = read_simple s bytes
  from_bytes_by_type (option t) bytes = do
    (tag, u8_bytes) ← u8_from_bytes bytes
    elim (pos_part tag) [
      | zero ↦ ok (cl_none t, u8_bytes)
      | suc n ↦ do (inner, rest) ← from_bytes_by_type t u8_bytes; ok (cl_some t inner, rest)
    ]
  from_bytes_by_type (list t) bytes = do
    (n, u32_bytes) ← u32_from_bytes bytes
    (elements, rest) ←
        read_elements (from_bytes_by_type t) (pos_part n) (if is_any t then bytes else u32_bytes)
    ok (cl_list t elements, rest)
  from_bytes_by_type (byte_array n) bytes =
      ok (cl_byte_array n (take (pos_part n) bytes), drop (pos_part n) bytes)
  from_bytes_by_type (result t u) bytes = do
    (tag, u8_bytes) ← u8_from_bytes bytes
    (inner, rest) ← elim (pos_part tag == 1) [
      | true ↦ from_bytes_by_type t u8_bytes
      | false ↦ from_bytes_by_type u u8_bytes
    ]
    v ← new_result t u (pos_part tag == 1) inner
    ok (v, rest)
  from_bytes_by_type (map t u) bytes = do
    (n, u32_bytes) ← u32_from_bytes bytes
    (entries, rest) ←
        read_entries texts t u (from_bytes_by_type t) (from_bytes_by_type u) (pos_part n) []
          u32_bytes
    ok (cl_map t u entries, rest)
  from_bytes_by_type (tuple1 t) bytes = do
    (inner, rest) ← from_bytes_by_type t bytes
    ok (cl_tuple1 t inner, rest)
  from_bytes_by_type (tuple2 t u) bytes = do
    (inner1, bytes1) ← from_bytes_by_type t bytes
    (inner2, rest) ← from_bytes_by_type u bytes1
    ok (cl_tuple2 t u inner1 inner2, rest)
  from_bytes_by_type (tuple3 t u s) bytes = do
    (inner1, bytes1) ← from_bytes_by_type t bytes
    (inner2, bytes2) ← from_bytes_by_type u bytes1
    (inner3, rest) ← from_bytes_by_type s bytes2
    ok (cl_tuple3 t u s inner1 inner2 inner3, rest)
  from_bytes_by_type (dynamic id t) bytes = do
    (inner, rest) ← match_bytes_to_cl_type bytes
    ok (cl_untyped (dynamic (get_type_id inner) inner), rest)

  -- `CLValueParser.fromBytesWithType`
  unfoldable pub from_bytes_with_type : Bytes → Parsed ClValue
  from_bytes_with_type bytes = do
    (size, u32_bytes) ← u32_from_bytes bytes
    elim (pos_part size) [
      | zero ↦ err invalid_value_length
      | suc n ↦ do
        (t, type_rest) ← match_bytes_to_cl_type (drop (suc n) u32_bytes)
        (v, rest) ← from_bytes_by_type t (take (suc n) u32_bytes)
        ok (v, type_rest)
    ]

-- `CLValueParser.toBytesWithType`
unfoldable pub to_bytes_with_type : ⦃e : Ethers⦄ → ClValue → Result Bytes
to_bytes_with_type ⦃e⦄ v = do
  type_bytes ← to_bytes (get_type v)
  bytes ← value_bytes v
  sized ← to_bytes_array_u8 bytes
  ok (e.concat (sized ∷ type_bytes ∷ []))
