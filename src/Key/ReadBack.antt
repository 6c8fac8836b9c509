-- ===== src/Key/ReadBack.antt =====
-- Which keys are read back, and what may follow them.
use casper_js_sdk.Prelude.{◌<◌, ◌≡◌, [], length, Option, none, some}
use casper_js_sdk.Prelude.Words.{Bytes}
use casper_js_sdk.Key.{
  Key, account_key, hash_key, uref_key, transfer_key, deploy_info_key, era_id_key, balance_key,
  bid_key, withdraw_key, dictionary_key, system_contract_registry_key, era_summary_key, unbond_key,
  chainspec_registry_key, checksum_registry_key, bid_addr_key, package_key, addressable_entity_key,
  byte_code_key, message_key, named_key_key, block_global_key, balance_hold_key, entry_point_key,
  state_key, rewards_handling_key,
}
use casper_js_sdk.Key.Reference.{URef}
use casper_js_sdk.Key.Entity.RoundTrip.{IsEntity, FitsIndex, IsEntryPoint}
use casper_js_sdk.Key.Addresses.RoundTrip.{IsBalanceHold}
use casper_js_sdk.Key.Bid.RoundTrip.{IsAccountBid}

abbrev pub IsHash : Bytes → Type 0
IsHash hash = length hash ≡ 32

abbrev pub IsUref : URef → Type 0
IsUref u = (length u.data_ ≡ 32) × (u.access < 8)

-- A field that is there, of which `P` holds.
abbrev pub Present {ℓ} : {A : Type ℓ} → (A → Type 0) → Option A → Type 0
Present P none = ⊥
Present P (some a) = P a

-- The keys that are read back when `rest` follows them. A message's key without an index is one if
-- fewer than four bytes follow, a URef's if none do, a chainspec registry's if some do. Those of eras,
-- byte code and block globals, of credits and of purses never are.
abbrev pub ReadBack : Key → Bytes → Type 0
ReadBack (account_key field) rest = Present IsHash field
ReadBack (hash_key field) rest = Present IsHash field
ReadBack (uref_key field) rest = Present IsUref field × (rest ≡ [])
ReadBack (transfer_key field) rest = Present IsHash field
ReadBack (deploy_info_key field) rest = Present IsHash field
ReadBack (era_id_key field) rest = ⊥
ReadBack (balance_key field) rest = Present IsHash field
ReadBack (bid_key field) rest = Present IsHash field
ReadBack (withdraw_key field) rest = Present IsHash field
ReadBack (dictionary_key field) rest = Present IsHash field
ReadBack (system_contract_registry_key field) rest = Present IsHash field
ReadBack (era_summary_key field) rest = Present IsHash field
ReadBack (unbond_key field) rest = Present IsHash field
ReadBack (chainspec_registry_key field) rest = Present IsHash field × (0 < length rest)
ReadBack (checksum_registry_key field) rest = Present IsHash field
ReadBack (bid_addr_key field) rest = Present IsAccountBid field
ReadBack (package_key field) rest = Present IsHash field
ReadBack (addressable_entity_key field) rest = Present IsEntity field
ReadBack (byte_code_key field) rest = ⊥
ReadBack (message_key field) rest =
    Present
      (λ a. IsEntity a.entity_addr × IsHash a.topic_name_hash × FitsIndex a.message_index rest)
      field
ReadBack (named_key_key field) rest =
    Present (λ a. IsEntity a.base_addr × IsHash a.name_bytes) field
ReadBack (block_global_key field) rest = ⊥
ReadBack (balance_hold_key field) rest = Present IsBalanceHold field
ReadBack (entry_point_key field) rest = Present IsEntryPoint field
ReadBack (state_key field) rest = Present IsEntity field
ReadBack rewards_handling_key rest = Unit
