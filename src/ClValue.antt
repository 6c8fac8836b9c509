-- ===== src/ClValue.antt =====
-- src/types/clvalue: the values of the network (CLValue.ts, Bool.ts, Unit.ts, Any.ts, ByteArray.ts,
-- Option.ts, List.ts, Result.ts, Map.ts, Tuple1.ts, Tuple2.ts, Tuple3.ts) and their bytes.
pub mod Keypair
pub mod Plain
pub mod Texts
pub mod Parser
pub mod Readable
pub mod Parts
pub mod Lists
pub mod Maps
pub mod Leaves
pub mod RoundTrip
pub mod WithType
pub mod Empty
use casper_js_sdk.Prelude.{
  ℕ, suc, List, [], ◌∷◌, ◌++◌, Bool, true, false, Option, if◌then◌else◌, Result, ok, err, ◌>>=◌,
  type_error,
}
use casper_js_sdk.Prelude.Int.{ℤ, pos}
use casper_js_sdk.Prelude.Words.{Bytes}
use casper_js_sdk.Ethers.{Ethers}
use casper_js_sdk.ByteConverters.{
  to_bytes_u8, to_bytes_i32, to_bytes_u32, to_bytes_i64, to_bytes_u64,
}
use casper_js_sdk.Numeric.{BigUint, big_uint_bytes}
use casper_js_sdk.Text.{Text, string_bytes}
use casper_js_sdk.ClType.{
  ClType, TypeId, SimpleType, simple, option, list, byte_array, result, map, tuple1, tuple2, tuple3,
  dynamic, get_type_id,
}
use casper_js_sdk.Key.{Key, key_bytes}
use casper_js_sdk.Key.Reference.{URef, uref_bytes}
use casper_js_sdk.ClValue.Keypair.{PublicKey, public_key_bytes}

-- A `CLValue` is its type and the field that the type names: a constructor for each, with what the
-- field holds and the types that the type is made of. `cl_untyped` is a value that has a type but no
-- field, as the reader makes them of dynamic types.
mutual
  pub data ClValue : Type 0 where
    cl_bool : Bool → ClValue
    cl_i32 cl_i64 cl_u8 cl_u32 cl_u64 : ℤ → ClValue
    cl_u128 cl_u256 cl_u512 : BigUint → ClValue
    cl_unit : ClValue
    cl_string : Text → ClValue
    cl_key : Key → ClValue
    cl_uref : URef → ClValue
    cl_any : Bytes → ClValue
    cl_public_key : PublicKey → ClValue
    cl_byte_array : ℤ → Bytes → ClValue
    cl_none : ClType → ClValue
    cl_some : ClType → ClValue → ClValue
    cl_list : ClType → ClValues → ClValue
    cl_result : ClType → ClType → Bool → ClValue → ClValue
    cl_map : ClType → ClType → Entries → ClValue
    cl_tuple1 : ClType → ClValue → ClValue
    cl_tuple2 : ClType → ClType → ClValue → ClValue → ClValue
    cl_tuple3 : ClType → ClType → ClType → ClValue → ClValue → ClValue → ClValue
    cl_untyped : ClType → ClValue

  pub data ClValues : Type 0 where
    nil : ClValues
    cons : ClValue → ClValues → ClValues

  -- The pairs of a map, in order.
  pub data Entries : Type 0 where
    end : Entries
    entry : ClValue → ClValue → Entries → Entries

-- `elements.length` and `data.length`
unfoldable pub size : ClValues → ℕ
size nil = 0
size (cons v vs) = suc (size vs)

unfoldable pub entry_count : Entries → ℕ
entry_count end = 0
entry_count (entry k v es) = suc (entry_count es)

-- `type`
abbrev pub type_of : ClValue → ClType
type_of (cl_bool b) = simple SimpleType.bool
type_of (cl_i32 n) = simple SimpleType.i32
type_of (cl_i64 n) = simple SimpleType.i64
type_of (cl_u8 n) = simple SimpleType.u8
type_of (cl_u32 n) = simple SimpleType.u32
type_of (cl_u64 n) = simple SimpleType.u64
type_of (cl_u128 n) = simple SimpleType.u128
type_of (cl_u256 n) = simple SimpleType.u256
type_of (cl_u512 n) = simple SimpleType.u512
type_of cl_unit = simple SimpleType.unit
type_of (cl_string s) = simple SimpleType.string
type_of (cl_key k) = simple SimpleType.key
type_of (cl_uref u) = simple SimpleType.uref
type_of (cl_any bytes) = simple SimpleType.any
type_of (cl_public_key k) = simple SimpleType.public_key
type_of (cl_byte_array size data_) = byte_array size
type_of (cl_none t) = option t
type_of (cl_some t v) = option t
type_of (cl_list t vs) = list t
type_of (cl_result t u success v) = result t u
type_of (cl_map t u es) = map t u
type_of (cl_tuple1 t v) = tuple1 t
type_of (cl_tuple2 t u v w) = tuple2 t u
type_of (cl_tuple3 t u s v w x) = tuple3 t u s
type_of (cl_untyped t) = t

-- `getType`
abbrev pub get_type : ClValue → ClType
get_type v = elim (type_of v) [ dynamic id t ↦ t | t ↦ t ]

-- `elementsType.getTypeID() === TypeID.Any`
abbrev pub is_any : ClType → Bool
is_any t = elim (get_type_id t) [ TypeId.any ↦ true | _ ↦ false ]

module _ ⦃e : Ethers⦄ where
  -- `CLValueList.bytes`, of the bytes of the elements: a list of anything has no size in front.
  unfoldable pub list_bytes : ClType → ℕ → List Bytes → Result Bytes
  list_bytes t count parts =
      let counted = do n ← to_bytes_u32 (pos count); ok (e.concat (n ∷ parts))
      in if is_any t then ok (e.concat parts) else counted

  -- `bytes`, which reads the field that the type names.
  unfoldable mutual
    pub value_bytes : ClValue → Result Bytes
    value_bytes (cl_bool b) = ok ((if b then 1 else 0) ∷ [])
    value_bytes (cl_i32 n) = to_bytes_i32 n
    value_bytes (cl_i64 n) = to_bytes_i64 n
    value_bytes (cl_u8 n) = to_bytes_u8 n
    value_bytes (cl_u32 n) = to_bytes_u32 n
    value_bytes (cl_u64 n) = to_bytes_u64 n
    value_bytes (cl_u128 n) = big_uint_bytes 128 n
    value_bytes (cl_u256 n) = big_uint_bytes 256 n
    value_bytes (cl_u512 n) = big_uint_bytes 512 n
    value_bytes cl_unit = ok []
    value_bytes (cl_string s) = ok (string_bytes s)
    value_bytes (cl_key k) = key_bytes true k
    value_bytes (cl_uref u) = ok (uref_bytes u)
    value_bytes (cl_any bytes) = ok bytes
    value_bytes (cl_public_key k) = ok (public_key_bytes k)
    value_bytes (cl_byte_array size data_) = ok data_
    value_bytes (cl_none t) = ok (0 ∷ [])
    value_bytes (cl_some t v) = do inner ← value_bytes v; ok (e.concat ((1 ∷ []) ∷ inner ∷ []))
    value_bytes (cl_list t vs) = do parts ← values_bytes vs; list_bytes t (size vs) parts
    value_bytes (cl_result t u success v) = do
      inner ← value_bytes v
      ok (e.concat (((if success then 1 else 0) ∷ []) ∷ inner ∷ []))
    value_bytes (cl_map t u es) = do
      parts ← entries_bytes es
      n ← to_bytes_u32 (pos (entry_count es))
      ok (e.concat (n ∷ parts))
    value_bytes (cl_tuple1 t v) = value_bytes v
    value_bytes (cl_tuple2 t u v w) = do
      inner1 ← value_bytes v
      inner2 ← value_bytes w
      ok (e.concat (inner1 ∷ inner2 ∷ []))
    value_bytes (cl_tuple3 t u s v w x) = do
      inner1 ← value_bytes v
      inner2 ← value_bytes w
      inner3 ← value_bytes x
      ok (e.concat (inner1 ∷ inner2 ∷ inner3 ∷ []))
    value_bytes (cl_untyped t) = err type_error

    pub values_bytes : ClValues → Result (List Bytes)
    values_bytes nil = ok []
    values_bytes (cons v vs) = do bytes ← value_bytes v; parts ← values_bytes vs; ok (bytes ∷ parts)

    pub entries_bytes : Entries → Result (List Bytes)
    entries_bytes end = ok []
    entries_bytes (entry k v es) = do
      byte_key ← value_bytes k
      byte_val ← value_bytes v
      parts ← entries_bytes es
      ok (e.concat (byte_key ∷ byte_val ∷ []) ∷ parts)
