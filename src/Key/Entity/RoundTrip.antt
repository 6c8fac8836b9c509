-- ===== src/Key/Entity/RoundTrip.antt =====
-- Addresses of entities, and those that begin with one: what is written is read back.
use casper_js_sdk.Prelude.{
  ℕ, ◌%◌, ◌^◌, ◌<◌, ◌≡◌, refl, arith, ◌∷◌, ◌++◌, append_assoc, length, length-append, take-append,
  drop-append, ltb, leb, le→ltb, lt→ltb, le→leb, Option, none, some, ok, false, true,
}
use native.Mathlib.Nat.{mod-eq_of_lt}
use casper_js_sdk.Prelude.Words.{Bytes, le_bytes, length-le_bytes, le_value-le_bytes}
use casper_js_sdk.Prelude.Codec.{RoundTrip}
use casper_js_sdk.Ethers.{Ethers}
use casper_js_sdk.Ethers.Concat.{concat2, concat3}
use casper_js_sdk.Hash.{hash_from_bytes-append}
use casper_js_sdk.Key.Entity.{
  EntityKind, system_kind, account_kind, smart_contract_kind, EntityAddr, entity_of,
  get_entity_kind, entity_to_bytes, entity_from_bytes, read_u32, read_index, index_bytes,
  MessageAddr, message_to_bytes, message_from_bytes, NamedKeyAddr, named_key_to_bytes,
  named_key_from_bytes, EntryPointAddr, v2_to_bytes, read_v1, read_v2, entry_point_addr_to_bytes,
  entry_point_addr_from_bytes,
}

abbrev pub kind_code : EntityKind → ℕ
kind_code system_kind = 0
kind_code account_kind = 1
kind_code smart_contract_kind = 2

-- A system's, an account's or a contract's address, of 32 bytes.
pub data IsEntity : EntityAddr → Type 0 where
  entity : (kind : EntityKind) (hash : Bytes) → length hash ≡ 32 → IsEntity (entity_of kind hash)

get_entity_kind-kind_code : (kind : EntityKind) → get_entity_kind (kind_code kind) ≡ ok kind
unfolding get_entity_kind
get_entity_kind-kind_code system_kind = refl
get_entity_kind-kind_code account_kind = refl
get_entity_kind-kind_code smart_contract_kind = refl

pub read_u32-le_bytes :
    (n : ℕ) (rest : Bytes) → n < 2 ^ 32 → read_u32 (le_bytes 4 n ++ rest) ≡ ok (n, rest)
unfolding read_u32
read_u32-le_bytes n rest h =
    let long : ltb (length (le_bytes 4 n ++ rest)) 4 ≡ false =
      le→ltb _ _ (omega (arith, length-append (le_bytes 4 n) rest, length-le_bytes 4 n)) in
    rw (
      long,
      take-append (le_bytes 4 n) rest 4 (length-le_bytes 4 n),
      drop-append (le_bytes 4 n) rest 4 (length-le_bytes 4 n),
      le_value-le_bytes 4 n (omega arith),
    )

-- The index of a message fits 32 bits; the topic's own address has none, and then fewer than four
-- bytes may follow.
abbrev pub FitsIndex : Option ℕ → Bytes → Type 0
FitsIndex (some index) rest = index < 2 ^ 32
FitsIndex none rest = length rest < 4

read_index-index_bytes :
    (index : Option ℕ) (rest : Bytes)
    → FitsIndex index rest
    → read_index (index_bytes index ++ rest) ≡ ok (index, rest)
unfolding read_index index_bytes
read_index-index_bytes (some index) rest h =
    let long : leb 4 (length (le_bytes 4 index ++ rest)) ≡ true =
      le→leb _ _ (omega (arith, length-append (le_bytes 4 index) rest, length-le_bytes 4 index)) in
    let same : index % 2 ^ 32 ≡ index = mod-eq_of_lt h in
    rw (same, long, read_u32-le_bytes index rest h)
read_index-index_bytes none rest h =
    let short : leb 4 (length rest) ≡ false = ground arith in rw (short)

-- An entry point of the first kind has a name of 32 bytes, one of the second a 32-bit selector.
pub data IsEntryPoint : EntryPointAddr → Type 0 where
  named :
      (a : EntityAddr) (name : Bytes)
      → IsEntity a
      → length name ≡ 32
      → IsEntryPoint (record {
        vm_casper_v1 = some (record { entity_addr = a; name_bytes = name });
        vm_casper_v2 = none;
      })
  selected :
      (a : EntityAddr) (selector : ℕ)
      → IsEntity a
      → selector < 2 ^ 32
      → IsEntryPoint (record {
        vm_casper_v1 = none;
        vm_casper_v2 = some (record { entity_addr = a; selector = selector });
      })

module _ ⦃e : Ethers⦄ where
  entity_to_bytes_lem :
      (kind : EntityKind) (hash : Bytes)
      → entity_to_bytes (entity_of kind hash) ≡ ok (kind_code kind ∷ hash)
  unfolding entity_to_bytes
  entity_to_bytes_lem system_kind hash = rw (concat2)
  entity_to_bytes_lem account_kind hash = rw (concat2)
  entity_to_bytes_lem smart_contract_kind hash = rw (concat2)

  entity_from_bytes_lem :
      (kind : EntityKind) (hash rest : Bytes)
      → length hash ≡ 32
      → entity_from_bytes (kind_code kind ∷ hash ++ rest) ≡ ok (entity_of kind hash, rest)
  unfolding entity_from_bytes
  entity_from_bytes_lem kind hash rest h =
      rw (get_entity_kind-kind_code kind, hash_from_bytes-append hash rest h)

  -- An EntityAddr with one 32-byte hash is written, and read back with what follows left over.
  pub entity_from_bytes-to_bytes :
      (a : EntityAddr) (rest : Bytes)
      → IsEntity a
      → RoundTrip entity_to_bytes entity_from_bytes a rest
  entity_from_bytes-to_bytes a rest (entity kind hash h) =
      (kind_code kind ∷ hash, entity_to_bytes_lem kind hash, entity_from_bytes_lem kind hash rest h)

  -- An address that follows that of an entity: what reads it back reads the whole.
  after_entity :
      (a : EntityAddr) (tail rest : Bytes)
      → IsEntity a
      → (bytes : Bytes) × (entity_to_bytes a ≡ ok bytes)
        × (entity_from_bytes (bytes ++ tail ++ rest) ≡ ok (a, tail ++ rest))
  after_entity a tail rest h =
      let (bytes, written, read) = entity_from_bytes-to_bytes a (tail ++ rest) h in
      (bytes, written, rw (append_assoc bytes tail rest, read))

  -- A NamedKeyAddr of an entity and 32 bytes is written, and read back with what follows left over.
  pub named_key_from_bytes-to_bytes :
      (a : NamedKeyAddr) (rest : Bytes)
      → IsEntity a.base_addr
      → length a.name_bytes ≡ 32
      → RoundTrip named_key_to_bytes named_key_from_bytes a rest
  unfolding named_key_to_bytes named_key_from_bytes
  named_key_from_bytes-to_bytes a rest h l =
      let (bytes, written, read) = after_entity a.base_addr a.name_bytes rest h in
      let long : ltb (length (a.name_bytes ++ rest)) 32 ≡ false =
        le→ltb _ _ (omega (arith, length-append a.name_bytes rest)) in
      (
        bytes ++ a.name_bytes,
        rw (written),
        rw (read, long, take-append a.name_bytes rest 32 l, drop-append a.name_bytes rest 32 l),
      )

  -- A MessageAddr of an entity, a 32-byte topic and an index that fits 32 bits is written, and read
  -- back with what follows left over; one without an index, if fewer than four bytes follow.
  pub message_from_bytes-to_bytes :
      (a : MessageAddr) (rest : Bytes)
      → IsEntity a.entity_addr
      → length a.topic_name_hash ≡ 32
      → FitsIndex a.message_index rest
      → RoundTrip message_to_bytes message_from_bytes a rest
  unfolding message_to_bytes message_from_bytes
  message_from_bytes-to_bytes a rest h l fits =
      let tail = a.topic_name_hash ++ index_bytes a.message_index in
      let (bytes, written, read) = after_entity a.entity_addr tail rest h in
      (
        bytes ++ a.topic_name_hash ++ index_bytes a.message_index,
        rw (written),
        rw (
          append_assoc bytes a.topic_name_hash (index_bytes a.message_index),
          read,
          append_assoc a.topic_name_hash (index_bytes a.message_index) rest,
          hash_from_bytes-append a.topic_name_hash (index_bytes a.message_index ++ rest) l,
          read_index-index_bytes a.message_index rest fits,
        ),
      )

  -- An EntryPointAddr with one address, of an entity and 32 bytes or a 32-bit selector, is written,
  -- and read back with what follows left over.
  pub entry_point_addr_from_bytes-to_bytes :
      (a : EntryPointAddr) (rest : Bytes)
      → IsEntryPoint a
      → RoundTrip entry_point_addr_to_bytes entry_point_addr_from_bytes a rest
  unfolding entry_point_addr_to_bytes entry_point_addr_from_bytes read_v1 read_v2 v2_to_bytes
  entry_point_addr_from_bytes-to_bytes a rest (named owner name h l) =
      let (bytes, written, read) = after_entity owner name rest h in
      (
        0 ∷ bytes ++ name,
        rw (written, concat3),
        rw (read, take-append name rest 32 l, drop-append name rest 32 l),
      )
  entry_point_addr_from_bytes-to_bytes a rest (selected owner selector h l) =
      let (bytes, written, read) = after_entity owner (le_bytes 4 selector) rest h in
      (
        1 ∷ bytes ++ le_bytes 4 selector,
        rw (written, v2_to_bytes, lt→ltb selector (2 ^ 32) l, concat3),
        rw (read, read_u32-le_bytes selector rest l),
      )
