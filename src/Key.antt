-- ===== src/Key.antt =====
-- src/types/key/Key.ts: the keys of global state, as bytes.
pub mod Kind
pub mod Reference
pub mod Entity
pub mod Addresses
pub mod Bid
pub mod ReadBack
pub mod RoundTrip
pub mod Leftover
use casper_js_sdk.Prelude.{
  ℕ, List, [], ◌∷◌, ◌++◌, length, take, drop, replicate, get_elem?, ltb, leb, if◌then◌else◌, Bool,
  Option, none, some, Result, ok, err, ◌>>=◌, missing_key_type, early_end_of_stream,
}
use casper_js_sdk.Prelude.Int.{ℤ, pos}
use casper_js_sdk.Prelude.Words.{Bytes}
use casper_js_sdk.Ethers.{Ethers}
use casper_js_sdk.ByteConverters.{number_to_bytes_u64}
use casper_js_sdk.Numeric.{Parsed}
use casper_js_sdk.Hash.{hash_from_bytes}
use casper_js_sdk.Key.Kind.{
  KeyTypeId, key_type_ids, key_type_code, account_id, hash_id, uref_id, transfer_id, deploy_info_id,
  era_id_id, balance_id, bid_id, withdraw_id, dictionary_id, system_contract_registry_id,
  era_summary_id, unbond_id, chainspec_registry_id, checksum_registry_id, bid_addr_id, package_id,
  addressable_entity_id, byte_code_id, message_id, named_key_id, block_global_id, balance_hold_id,
  entry_point_id, state_id, rewards_handling_id,
}
use casper_js_sdk.Key.Reference.{URef, uref_bytes, uref_from_bytes}
use casper_js_sdk.Key.Entity.{
  EntityAddr, entity_to_bytes, entity_from_bytes, MessageAddr, message_to_bytes, message_from_bytes,
  NamedKeyAddr, named_key_to_bytes, named_key_from_bytes, EntryPointAddr, entry_point_addr_to_bytes,
  entry_point_addr_from_bytes,
}
use casper_js_sdk.Key.Addresses.{
  ByteCode, byte_code_to_bytes, byte_code_from_bytes, BlockGlobalAddr, block_global_to_bytes,
  block_global_from_bytes, BalanceHoldAddr, balance_hold_to_bytes, balance_hold_from_bytes,
  era_from_bytes,
}
use casper_js_sdk.Key.Bid.{BidAddr, bid_to_bytes, bid_from_bytes}

-- A key is its type and the field that the type names, which may be unset: `bytes` and `fromBytes`
-- read and set no other. An account hash and a transfer hash are their bytes; the prefix that they
-- keep for their texts is left out.
pub data Key : Type 0 where
  account_key : Option Bytes → Key
  hash_key : Option Bytes → Key
  uref_key : Option URef → Key
  transfer_key : Option Bytes → Key
  deploy_info_key : Option Bytes → Key
  era_id_key : Option ℤ → Key
  balance_key : Option Bytes → Key
  bid_key : Option Bytes → Key
  withdraw_key : Option Bytes → Key
  dictionary_key : Option Bytes → Key
  system_contract_registry_key : Option Bytes → Key
  era_summary_key : Option Bytes → Key
  unbond_key : Option Bytes → Key
  chainspec_registry_key : Option Bytes → Key
  checksum_registry_key : Option Bytes → Key
  bid_addr_key : Option BidAddr → Key
  package_key : Option Bytes → Key
  addressable_entity_key : Option EntityAddr → Key
  byte_code_key : Option ByteCode → Key
  message_key : Option MessageAddr → Key
  named_key_key : Option NamedKeyAddr → Key
  block_global_key : Option BlockGlobalAddr → Key
  balance_hold_key : Option BalanceHoldAddr → Key
  entry_point_key : Option EntryPointAddr → Key
  state_key : Option EntityAddr → Key
  rewards_handling_key : Key

-- `type`
abbrev pub key_type : Key → KeyTypeId
key_type (account_key field) = account_id
key_type (hash_key field) = hash_id
key_type (uref_key field) = uref_id
key_type (transfer_key field) = transfer_id
key_type (deploy_info_key field) = deploy_info_id
key_type (era_id_key field) = era_id_id
key_type (balance_key field) = balance_id
key_type (bid_key field) = bid_id
key_type (withdraw_key field) = withdraw_id
key_type (dictionary_key field) = dictionary_id
key_type (system_contract_registry_key field) = system_contract_registry_id
key_type (era_summary_key field) = era_summary_id
key_type (unbond_key field) = unbond_id
key_type (chainspec_registry_key field) = chainspec_registry_id
key_type (checksum_registry_key field) = checksum_registry_id
key_type (bid_addr_key field) = bid_addr_id
key_type (package_key field) = package_id
key_type (addressable_entity_key field) = addressable_entity_id
key_type (byte_code_key field) = byte_code_id
key_type (message_key field) = message_id
key_type (named_key_key field) = named_key_id
key_type (block_global_key field) = block_global_id
key_type (balance_hold_key field) = balance_hold_id
key_type (entry_point_key field) = entry_point_id
key_type (state_key field) = state_id
key_type rewards_handling_key = rewards_handling_id

-- `this.field?.toBytes()`
abbrev pub optional_bytes {ℓ} : {A : Type ℓ} → (A → Result Bytes) → Option A → Result (Option Bytes)
optional_bytes write none = ok none
optional_bytes write (some a) = do bytes ← write a; ok (some bytes)

-- `concatBytes`, whose first argument is by default no bytes.
unfoldable pub concat_bytes : Option Bytes → Option Bytes → Bytes
concat_bytes none none = []
concat_bytes none (some type_bytes) = type_bytes ++ []
concat_bytes (some field_bytes) none = field_bytes
concat_bytes (some field_bytes) (some type_bytes) = type_bytes ++ field_bytes

-- `splitAt`
unfoldable pub split_at : ℕ → Bytes → Result (Bytes × Bytes)
split_at i arr = if leb (length arr) i then err early_end_of_stream else ok (take i arr, drop i arr)

-- A field that has a reader of its own.
abbrev pub field_from_bytes {ℓ} : {A : Type ℓ} → (Option A → Key) → Parsed A → Parsed Key
field_from_bytes key parsed = do (field, rest) ← parsed; ok (key (some field), rest)

-- The branch of `RewardsHandling`, which has padding in place of an address.
unfoldable pub read_padding : Bytes → Parsed Key
read_padding content =
    if ltb (length content) 32
    then err early_end_of_stream
    else ok (rewards_handling_key, drop 32 content)

-- The branch of `EraId`. `splitAt` clones the content, and the first part is a view of the clone.
unfoldable pub read_era : Bytes → Parsed Key
read_era content = do
  (_, remainder) ← split_at 1 content
  era ← era_from_bytes content
  ok (era_id_key (some (pos era)), remainder)

-- The branch of `ChainspecRegistry`.
unfoldable pub read_chainspec : Bytes → Parsed Key
read_chainspec content = do
  (chain_bytes, remainder) ← split_at 32 content
  (hash, _) ← hash_from_bytes chain_bytes
  ok (chainspec_registry_key (some hash), remainder)

module _ ⦃e : Ethers⦄ where
  -- The bytes of the field that the type names.
  unfoldable pub field_bytes : Key → Result (Option Bytes)
  field_bytes (account_key field) = ok field
  field_bytes (hash_key field) = ok field
  field_bytes (uref_key field) = optional_bytes (λ u. ok (uref_bytes u)) field
  field_bytes (transfer_key field) = ok field
  field_bytes (deploy_info_key field) = ok field
  field_bytes (era_id_key field) = optional_bytes number_to_bytes_u64 field
  field_bytes (balance_key field) = ok field
  field_bytes (bid_key field) = ok field
  field_bytes (withdraw_key field) = ok field
  field_bytes (dictionary_key field) = ok field
  field_bytes (system_contract_registry_key field) = ok field
  field_bytes (era_summary_key field) = ok field
  field_bytes (unbond_key field) = ok field
  field_bytes (chainspec_registry_key field) = ok field
  field_bytes (checksum_registry_key field) = ok field
  field_bytes (bid_addr_key field) = optional_bytes bid_to_bytes field
  field_bytes (package_key field) = ok field
  field_bytes (addressable_entity_key field) = optional_bytes entity_to_bytes field
  field_bytes (byte_code_key field) = optional_bytes byte_code_to_bytes field
  field_bytes (message_key field) = optional_bytes message_to_bytes field
  field_bytes (named_key_key field) = optional_bytes named_key_to_bytes field
  field_bytes (block_global_key field) = optional_bytes (λ a. ok (block_global_to_bytes a)) field
  field_bytes (balance_hold_key field) = optional_bytes balance_hold_to_bytes field
  field_bytes (entry_point_key field) = optional_bytes entry_point_addr_to_bytes field
  field_bytes (state_key field) = optional_bytes entity_to_bytes field
  field_bytes rewards_handling_key = ok (some (replicate 32 0))

  -- `bytes`
  unfoldable pub key_bytes : Bool → Key → Result Bytes
  key_bytes with_key_type_id key = do
    field ← field_bytes key
    ok (
        concat_bytes field
          (if with_key_type_id then some (key_type_code (key_type key) ∷ []) else none))

  -- The branches of `fromBytes`.
  unfoldable pub read_content : KeyTypeId → Bytes → Parsed Key
  read_content account_id content = field_from_bytes account_key (hash_from_bytes content)
  read_content hash_id content = field_from_bytes hash_key (hash_from_bytes content)
  read_content uref_id content = field_from_bytes uref_key (uref_from_bytes content)
  read_content transfer_id content = field_from_bytes transfer_key (hash_from_bytes content)
  read_content deploy_info_id content = field_from_bytes deploy_info_key (hash_from_bytes content)
  read_content era_id_id content = read_era content
  read_content balance_id content = field_from_bytes balance_key (hash_from_bytes content)
  read_content bid_id content = field_from_bytes bid_key (hash_from_bytes content)
  read_content withdraw_id content = field_from_bytes withdraw_key (hash_from_bytes content)
  read_content dictionary_id content = field_from_bytes dictionary_key (hash_from_bytes content)
  read_content system_contract_registry_id content =
      field_from_bytes system_contract_registry_key (hash_from_bytes content)
  read_content era_summary_id content = field_from_bytes era_summary_key (hash_from_bytes content)
  read_content unbond_id content = field_from_bytes unbond_key (hash_from_bytes content)
  read_content chainspec_registry_id content = read_chainspec content
  read_content checksum_registry_id content =
      field_from_bytes checksum_registry_key (hash_from_bytes content)
  read_content bid_addr_id content = field_from_bytes bid_addr_key (bid_from_bytes content)
  read_content package_id content = field_from_bytes package_key (hash_from_bytes content)
  read_content addressable_entity_id content =
      field_from_bytes addressable_entity_key (entity_from_bytes content)
  read_content byte_code_id content = field_from_bytes byte_code_key (byte_code_from_bytes content)
  read_content message_id content = field_from_bytes message_key (message_from_bytes content)
  read_content named_key_id content = field_from_bytes named_key_key (named_key_from_bytes content)
  read_content block_global_id content =
      field_from_bytes block_global_key (block_global_from_bytes content)
  read_content balance_hold_id content =
      field_from_bytes balance_hold_key (balance_hold_from_bytes content)
  read_content entry_point_id content =
      field_from_bytes entry_point_key (entry_point_addr_from_bytes content)
  read_content state_id content = field_from_bytes state_key (entity_from_bytes content)
  read_content rewards_handling_id content = read_padding content

  -- `fromBytes`
  unfoldable pub key_from_bytes : Bytes → Parsed Key
  key_from_bytes [] = err missing_key_type
  key_from_bytes (t ∷ content) = elim (get_elem? key_type_ids t) [
    | some id ↦ read_content id content
    | none ↦ err missing_key_type
  ]
