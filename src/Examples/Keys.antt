-- ===== src/Examples/Keys.antt =====
-- Runs of the keys.
use casper_js_sdk.Prelude.{
  ◌%◌, ◌^◌, ◌≡◌, refl, arith, [], ◌∷◌, ◌++◌, drop, replicate, true, some, ok,
}
use casper_js_sdk.Prelude.Int.{pos}
use casper_js_sdk.Prelude.Words.{Bytes, le_bytes}
use casper_js_sdk.Prelude.Codec.{RoundTrip}
use casper_js_sdk.Ethers.Model.{ethers_model}
use casper_js_sdk.Key.{era_id_key, message_key, key_bytes, key_from_bytes}
use casper_js_sdk.Key.Reference.{URef}
use casper_js_sdk.Key.Entity.{MessageAddr, entity_of, account_kind}
use casper_js_sdk.Key.Entity.RoundTrip.{entity}
use casper_js_sdk.Key.RoundTrip.{key_from_bytes-key_bytes}
use casper_js_sdk.Key.Leftover.{era_key_leftover}

abbrev hash : Bytes
hash = replicate 32 7

abbrev reference : URef
reference = record { data_ = hash; access = 7 }

abbrev message : MessageAddr
message = record {
  entity_addr = entity_of account_kind hash;
  topic_name_hash = hash;
  message_index = some 5;
}

key_from_bytes-key_bytes_example :
    RoundTrip (key_bytes true) key_from_bytes (message_key (some message)) (9 ∷ [])
key_from_bytes-key_bytes_example =
    key_from_bytes-key_bytes (message_key (some message)) (9 ∷ [])
      (entity account_kind hash refl, refl, omega arith)

era_key_leftover_example :
    (key_bytes true (era_id_key (some (pos 300))) ≡ ok (5 ∷ le_bytes 8 300))
    × (key_from_bytes (5 ∷ le_bytes 8 300 ++ 1 ∷ [])
        ≡ ok (era_id_key (some (pos (300 % 2 ^ 32))), drop 1 (le_bytes 8 300 ++ 1 ∷ [])))
era_key_leftover_example = era_key_leftover 300 (1 ∷ []) (omega arith)
