-- ===== src/ClType.antt =====
-- src/types/clvalue/cltype: the types of CLValues (CLType.ts, Option.ts, List.ts, ByteArray.ts,
-- Result.ts, Map.ts, Tuple1.ts, Tuple2.ts, Tuple3.ts, Dynamic.ts) and their bytes.
pub mod Encoding
pub mod Parser
pub mod Json
use casper_js_sdk.Prelude.{ℕ, String, List, [], ◌∷◌, Result, ok, ◌>>=◌}
use casper_js_sdk.Prelude.Int.{ℤ}
use casper_js_sdk.Prelude.Words.{Bytes}
use casper_js_sdk.Ethers.{Ethers}
use casper_js_sdk.ByteConverters.{number_to_bytes_u32}

pub data TypeId : Type 0 where
  bool i32 i64 u8 u32 u64 u128 u256 u512 unit string key uref : TypeId
  option list byte_array result map tuple1 tuple2 tuple3 any public_key : TypeId

-- The predefined instances of the class `SimpleType`.
pub data SimpleType : Type 0 where
  bool i32 i64 u8 u32 u64 u128 u256 u512 unit string key uref any public_key : SimpleType

-- The classes that implement the interface `CLType`, with their fields.
pub data ClType : Type 0 where
  simple : SimpleType → ClType
  option : ClType → ClType
  list : ClType → ClType
  byte_array : ℤ → ClType
  result : ClType → ClType → ClType
  map : ClType → ClType → ClType
  tuple1 : ClType → ClType
  tuple2 : ClType → ClType → ClType
  tuple3 : ClType → ClType → ClType → ClType
  dynamic : TypeId → ClType → ClType

-- The numbers of the enum `TypeID`.
abbrev pub type_code : TypeId → ℕ
type_code TypeId.bool = 0
type_code TypeId.i32 = 1
type_code TypeId.i64 = 2
type_code TypeId.u8 = 3
type_code TypeId.u32 = 4
type_code TypeId.u64 = 5
type_code TypeId.u128 = 6
type_code TypeId.u256 = 7
type_code TypeId.u512 = 8
type_code TypeId.unit = 9
type_code TypeId.string = 10
type_code TypeId.key = 11
type_code TypeId.uref = 12
type_code TypeId.option = 13
type_code TypeId.list = 14
type_code TypeId.byte_array = 15
type_code TypeId.result = 16
type_code TypeId.map = 17
type_code TypeId.tuple1 = 18
type_code TypeId.tuple2 = 19
type_code TypeId.tuple3 = 20
type_code TypeId.any = 21
type_code TypeId.public_key = 22

-- The strings of `TypeName`.
abbrev pub type_name : TypeId → String
type_name TypeId.bool = "Bool"
type_name TypeId.i32 = "I32"
type_name TypeId.i64 = "I64"
type_name TypeId.u8 = "U8"
type_name TypeId.u32 = "U32"
type_name TypeId.u64 = "U64"
type_name TypeId.u128 = "U128"
type_name TypeId.u256 = "U256"
type_name TypeId.u512 = "U512"
type_name TypeId.unit = "Unit"
type_name TypeId.string = "String"
type_name TypeId.key = "Key"
type_name TypeId.uref = "URef"
type_name TypeId.option = "Option"
type_name TypeId.list = "List"
type_name TypeId.byte_array = "ByteArray"
type_name TypeId.result = "Result"
type_name TypeId.map = "Map"
type_name TypeId.tuple1 = "Tuple1"
type_name TypeId.tuple2 = "Tuple2"
type_name TypeId.tuple3 = "Tuple3"
type_name TypeId.any = "Any"
type_name TypeId.public_key = "PublicKey"

-- The field `typeID` of each predefined instance; its `typeName` is the name of that id.
abbrev pub simple_id : SimpleType → TypeId
simple_id SimpleType.bool = TypeId.bool
simple_id SimpleType.i32 = TypeId.i32
simple_id SimpleType.i64 = TypeId.i64
simple_id SimpleType.u8 = TypeId.u8
simple_id SimpleType.u32 = TypeId.u32
simple_id SimpleType.u64 = TypeId.u64
simple_id SimpleType.u128 = TypeId.u128
simple_id SimpleType.u256 = TypeId.u256
simple_id SimpleType.u512 = TypeId.u512
simple_id SimpleType.unit = TypeId.unit
simple_id SimpleType.string = TypeId.string
simple_id SimpleType.key = TypeId.key
simple_id SimpleType.uref = TypeId.uref
simple_id SimpleType.any = TypeId.any
simple_id SimpleType.public_key = TypeId.public_key

-- `getTypeID`
unfoldable pub get_type_id : ClType → TypeId
get_type_id (simple s) = simple_id s
get_type_id (option t) = TypeId.option
get_type_id (list t) = TypeId.list
get_type_id (byte_array n) = TypeId.byte_array
get_type_id (result a b) = TypeId.result
get_type_id (map a b) = TypeId.map
get_type_id (tuple1 a) = TypeId.tuple1
get_type_id (tuple2 a b) = TypeId.tuple2
get_type_id (tuple3 a b c) = TypeId.tuple3
get_type_id (dynamic id t) = id

-- `getName`
unfoldable pub get_name : ClType → String
get_name (simple s) = type_name (simple_id s)
get_name (option t) = "Option"
get_name (list t) = "List"
get_name (byte_array n) = "ByteArray"
get_name (result a b) = "Result"
get_name (map a b) = "Map"
get_name (tuple1 a) = "Tuple1"
get_name (tuple2 a b) = "Tuple2"
get_name (tuple3 a b c) = "Tuple3"
get_name (dynamic id t) = get_name t

module _ ⦃e : Ethers⦄ where
  -- `Uint8Array.from([this.getTypeID()])` in front of the parts
  abbrev tagged : TypeId → List Bytes → Result Bytes
  tagged id parts = ok (e.concat ((type_code id ∷ []) ∷ parts))

  -- `toBytes`
  unfoldable pub to_bytes : ClType → Result Bytes
  to_bytes (simple s) = ok (type_code (simple_id s) ∷ [])
  to_bytes (option t) = do inner ← to_bytes t; tagged TypeId.option (inner ∷ [])
  to_bytes (list t) = do elements ← to_bytes t; tagged TypeId.list (elements ∷ [])
  to_bytes (byte_array size) = do
    bytes ← number_to_bytes_u32 size
    tagged TypeId.byte_array (bytes ∷ [])
  to_bytes (result t u) = do
    inner_ok ← to_bytes t
    inner_err ← to_bytes u
    tagged TypeId.result (inner_ok ∷ inner_err ∷ [])
  to_bytes (map t u) = do
    key_bytes ← to_bytes t
    val_bytes ← to_bytes u
    tagged TypeId.map (key_bytes ∷ val_bytes ∷ [])
  to_bytes (tuple1 t) = do inner ← to_bytes t; tagged TypeId.tuple1 (inner ∷ [])
  to_bytes (tuple2 t u) = do
    inner1 ← to_bytes t
    inner2 ← to_bytes u
    tagged TypeId.tuple2 (inner1 ∷ inner2 ∷ [])
  to_bytes (tuple3 t u v) = do
    inner1 ← to_bytes t
    inner2 ← to_bytes u
    inner3 ← to_bytes v
    tagged TypeId.tuple3 (inner1 ∷ inner2 ∷ inner3 ∷ [])
  to_bytes (dynamic id t) = to_bytes t
