-- ===== src/Key/Kind.antt =====
-- src/types/key/Key.ts: the types of keys, and their numbers.
use casper_js_sdk.Prelude.{ℕ, List, [], ◌∷◌}

-- `KeyTypeID`
pub data KeyTypeId : Type 0 where
  account_id hash_id uref_id transfer_id deploy_info_id : KeyTypeId
  era_id_id balance_id bid_id withdraw_id dictionary_id : KeyTypeId
  system_contract_registry_id era_summary_id unbond_id chainspec_registry_id checksum_registry_id :
      KeyTypeId
  bid_addr_id package_id addressable_entity_id byte_code_id message_id : KeyTypeId
  named_key_id block_global_id balance_hold_id entry_point_id state_id : KeyTypeId
  rewards_handling_id : KeyTypeId

abbrev pub key_type_ids : List KeyTypeId
key_type_ids =
    account_id ∷ hash_id ∷ uref_id ∷ transfer_id ∷ deploy_info_id ∷ era_id_id ∷ balance_id ∷ bid_id
    ∷ withdraw_id ∷ dictionary_id ∷ system_contract_registry_id ∷ era_summary_id ∷ unbond_id
    ∷ chainspec_registry_id ∷ checksum_registry_id ∷ bid_addr_id ∷ package_id
    ∷ addressable_entity_id ∷ byte_code_id ∷ message_id ∷ named_key_id ∷ block_global_id
    ∷ balance_hold_id ∷ entry_point_id ∷ state_id ∷ rewards_handling_id ∷ []

abbrev pub key_type_code : KeyTypeId → ℕ
key_type_code account_id = 0
key_type_code hash_id = 1
key_type_code uref_id = 2
key_type_code transfer_id = 3
key_type_code deploy_info_id = 4
key_type_code era_id_id = 5
key_type_code balance_id = 6
key_type_code bid_id = 7
key_type_code withdraw_id = 8
key_type_code dictionary_id = 9
key_type_code system_contract_registry_id = 10
key_type_code era_summary_id = 11
key_type_code unbond_id = 12
key_type_code chainspec_registry_id = 13
key_type_code checksum_registry_id = 14
key_type_code bid_addr_id = 15
key_type_code package_id = 16
key_type_code addressable_entity_id = 17
key_type_code byte_code_id = 18
key_type_code message_id = 19
key_type_code named_key_id = 20
key_type_code block_global_id = 21
key_type_code balance_hold_id = 22
key_type_code entry_point_id = 23
key_type_code state_id = 24
key_type_code rewards_handling_id = 25
