-- ===== src/Key/Entity.antt =====
-- src/types/key: EntityAddr.ts, and the addresses that begin with one, MessageAddr.ts,
-- NewNamedKeyAddr.ts and EntryPointAddr.ts.
pub mod RoundTrip
use casper_js_sdk.Prelude.{
  ℕ, ◌%◌, ◌^◌, [], ◌∷◌, ◌++◌, length, take, drop, slice, get_elem?, ltb, leb, ◌==◌, if◌then◌else◌,
  Option, none, some, Result, ok, err, ◌>>=◌, range_error, empty_buffer, invalid_entity_kind,
  unexpected_entity_addr, insufficient_name_bytes, invalid_entry_point_tag,
  unexpected_entry_point_addr,
}
use casper_js_sdk.Prelude.Words.{Bytes, le_bytes, le_value}
use casper_js_sdk.Ethers.{Ethers}
use casper_js_sdk.Numeric.{Parsed}
use casper_js_sdk.Hash.{hash_from_bytes}

-- `EntityKindType`
pub data EntityKind : Type 0 where
  system_kind account_kind smart_contract_kind : EntityKind

-- A class with three optional hashes.
pub record EntityAddr : Type 0 where
  pub system : Option Bytes
  pub account : Option Bytes
  pub smart_contract : Option Bytes

abbrev pub entity_of : EntityKind → Bytes → EntityAddr
entity_of system_kind hash = record { system = some hash; account = none; smart_contract = none }
entity_of account_kind hash = record { system = none; account = some hash; smart_contract = none }
entity_of smart_contract_kind hash = record {
  system = none;
  account = none;
  smart_contract = some hash;
}

-- `getEntityKindFromByte`
unfoldable pub get_entity_kind : ℕ → Result EntityKind
get_entity_kind tag =
    if tag == 0
    then ok system_kind
    else if tag == 1
    then ok account_kind
    else if tag == 2
    then ok smart_contract_kind
    else err invalid_entity_kind

-- `EntityAddr.fromBytes`
unfoldable pub entity_from_bytes : Bytes → Parsed EntityAddr
entity_from_bytes [] = err empty_buffer
entity_from_bytes (tag ∷ rem) = do
  kind ← get_entity_kind tag
  (hash, rest) ← hash_from_bytes rem
  ok (entity_of kind hash, rest)

-- The selector and the index of a message are read by a `DataView`, which refuses to read past the
-- end.
unfoldable pub read_u32 : Bytes → Parsed ℕ
read_u32 bytes =
    if ltb (length bytes) 4 then err range_error else ok (le_value (take 4 bytes), drop 4 bytes)

pub record MessageAddr : Type 0 where
  pub entity_addr : EntityAddr
  pub topic_name_hash : Bytes
  pub message_index : Option ℕ

-- Four bytes or more after the hash are taken for an index.
unfoldable pub read_index : Bytes → Parsed (Option ℕ)
read_index remainder =
    let present = do (index, rest) ← read_u32 remainder; ok (some index, rest)
    in if leb 4 (length remainder) then present else ok (none, remainder)

-- `MessageAddr.fromBytes`
unfoldable pub message_from_bytes : Bytes → Parsed MessageAddr
message_from_bytes bytes = do
  (entity_addr, after_entity) ← entity_from_bytes bytes
  (topic, remainder) ← hash_from_bytes after_entity
  (index, rest) ← read_index remainder
  ok (record { entity_addr = entity_addr; topic_name_hash = topic; message_index = index }, rest)

pub record NamedKeyAddr : Type 0 where
  pub base_addr : EntityAddr
  pub name_bytes : Bytes

-- `NamedKeyAddr.fromBytes`
unfoldable pub named_key_from_bytes : Bytes → Parsed NamedKeyAddr
named_key_from_bytes bytes = do
  (base_addr, rem) ← entity_from_bytes bytes
  if ltb (length rem) 32
      then err insufficient_name_bytes
      else ok (record { base_addr = base_addr; name_bytes = take 32 rem }, drop 32 rem)

pub record VmCasperV1 : Type 0 where
  pub entity_addr : EntityAddr
  pub name_bytes : Bytes

pub record VmCasperV2 : Type 0 where
  pub entity_addr : EntityAddr
  pub selector : ℕ

pub record EntryPointAddr : Type 0 where
  pub vm_casper_v1 : Option VmCasperV1
  pub vm_casper_v2 : Option VmCasperV2

-- The two branches of `EntryPointAddr.fromBytes`, and the whole; `tag` meets `getEntryPointTag`.
unfoldable pub read_v1 : Bytes → Parsed EntryPointAddr
read_v1 array = do
  (entity_addr, rem) ← entity_from_bytes array
  ok (
    record {
      vm_casper_v1 = some (record { entity_addr = entity_addr; name_bytes = take 32 rem });
      vm_casper_v2 = none;
    },
    drop 32 rem,
  )

unfoldable pub read_v2 : Bytes → Parsed EntryPointAddr
read_v2 array = do
  (entity_addr, rem) ← entity_from_bytes array
  (selector, rest) ← read_u32 rem
  ok (
    record {
      vm_casper_v1 = none;
      vm_casper_v2 = some (record { entity_addr = entity_addr; selector = selector });
    },
    rest,
  )

unfoldable pub entry_point_addr_from_bytes : Bytes → Parsed EntryPointAddr
entry_point_addr_from_bytes [] = err invalid_entry_point_tag
entry_point_addr_from_bytes (tag ∷ array) =
    if tag == 0
    then read_v1 array
    else if tag == 1
    then read_v2 array
    else err invalid_entry_point_tag

-- The last part of a MessageAddr's bytes; `setUint32` keeps 32 bits.
unfoldable pub index_bytes : Option ℕ → Bytes
index_bytes (some index) = le_bytes 4 (index % 2 ^ 32)
index_bytes none = []

module _ ⦃e : Ethers⦄ where
  -- `EntityAddr.toBytes`
  unfoldable pub entity_to_bytes : EntityAddr → Result Bytes
  entity_to_bytes a = elim a.system [
    | some hash ↦ ok (e.concat ((0 ∷ []) ∷ hash ∷ []))
    | none ↦ elim a.account [
      | some hash ↦ ok (e.concat ((1 ∷ []) ∷ hash ∷ []))
      | none ↦ elim a.smart_contract [
        | some hash ↦ ok (e.concat ((2 ∷ []) ∷ hash ∷ []))
        | none ↦ err unexpected_entity_addr
      ]
    ]
  ]

  -- `MessageAddr.toBytes`
  unfoldable pub message_to_bytes : MessageAddr → Result Bytes
  message_to_bytes a = do
    entity ← entity_to_bytes a.entity_addr
    ok (entity ++ a.topic_name_hash ++ index_bytes a.message_index)

  -- `NamedKeyAddr.toBytes`
  unfoldable pub named_key_to_bytes : NamedKeyAddr → Result Bytes
  named_key_to_bytes a = do base ← entity_to_bytes a.base_addr; ok (base ++ a.name_bytes)

  -- `writeUInt32LE` refuses more than 32 bits.
  unfoldable pub v2_to_bytes : Bytes → ℕ → Result Bytes
  v2_to_bytes entity selector =
      if ltb selector (2 ^ 32)
      then ok (e.concat ((1 ∷ []) ∷ entity ∷ le_bytes 4 selector ∷ []))
      else err range_error

  -- `EntryPointAddr.toBytes`
  unfoldable pub entry_point_addr_to_bytes : EntryPointAddr → Result Bytes
  entry_point_addr_to_bytes a = elim a.vm_casper_v1 [
    | some v1 ↦ do
      entity ← entity_to_bytes v1.entity_addr
      ok (e.concat ((0 ∷ []) ∷ entity ∷ v1.name_bytes ∷ []))
    | none ↦ elim a.vm_casper_v2 [
      | some v2 ↦ do entity ← entity_to_bytes v2.entity_addr; v2_to_bytes entity v2.selector
      | none ↦ err unexpected_entry_point_addr
    ]
  ]
