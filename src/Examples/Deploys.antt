-- ===== src/Examples/Deploys.antt =====
-- Runs of the deploys: one that is made and signed.
use casper_js_sdk.Prelude.{
  ℕ, ◌≡◌, refl, arith, [], ◌∷◌, replicate, length-replicate, true, none, some, ok, ◌>>=◌,
}
use casper_js_sdk.Prelude.Int.{pos}
use casper_js_sdk.Ethers.Model.{ethers_model}
use casper_js_sdk.ByteConverters.Numbers.{to_bytes_u32-le_bytes, number_to_bytes_u64-le_bytes}
use casper_js_sdk.Text.{utf8, utf8_char}
use casper_js_sdk.Text.RoundTrip.{to_bytes_string_lem}
use casper_js_sdk.Hash.{new_hash}
use casper_js_sdk.Args.{args_to_bytes, each_to_bytes}
use casper_js_sdk.ClValue.Keypair.{ed25519}
use casper_js_sdk.Transaction.Scheduling.{at}
use casper_js_sdk.Deploy.Item.{DeployItem, item_to_bytes}
use casper_js_sdk.Deploy.{
  Crypto, PrivateKey, DeployHeader, Deploy, hash_equals, header_to_bytes, body_bytes, make_deploy,
  validate, sign_deploy,
}
use casper_js_sdk.Deploy.Valid.{
  hash_equals_refl, Signs, Hashed, AllVerified, validate-sign_deploy, validate_sound,
}

-- A signature of a message is the message behind a 1.
abbrev pub crypto : Crypto
crypto = record {
  byte_hash = λ bytes. replicate 32 7;
  length-byte_hash = λ bytes. length-replicate {A = ℕ} 32 7;
  verify = λ alg key message signature. hash_equals signature (1 ∷ message);
}

abbrev pub keys : PrivateKey
keys = record {
  alg = ed25519;
  public_key = record { crypto_alg = ed25519; key = some (replicate 32 9) };
  sign = λ message. 1 ∷ message;
}

pub keys-Signs : Signs crypto keys
keys-Signs = record {
  key = replicate 32 9;
  is_key = refl;
  not_empty = λ message. omega arith;
  verified = λ message. hash_equals_refl (1 ∷ message);
}

abbrev pub item : DeployItem
item = record {
  module_bytes = none;
  stored_contract_by_hash = none;
  stored_contract_by_name = none;
  versioned_contract_by_hash = none;
  versioned_contract_by_name = none;
  transfer = some [];
}

abbrev header : DeployHeader
header = record {
  account = some keys.public_key;
  body_hash = none;
  chain_name = 99 ∷ 97 ∷ [];
  dependencies = [];
  gas_price = pos 1;
  timestamp = at (pos 1700000000000);
  ttl = pos 1800000;
}

abbrev made : Deploy
made = record {
  approvals = [];
  hash = replicate 32 7;
  header = record header { body_hash = some (replicate 32 7) };
  payment = item;
  session = item;
}

made_by_make_deploy : make_deploy crypto header item item ≡ ok made
unfolding make_deploy body_bytes item_to_bytes args_to_bytes each_to_bytes header_to_bytes new_hash
    utf8 utf8_char
made_by_make_deploy = rw (
  to_bytes_u32-le_bytes 0 (omega arith),
  number_to_bytes_u64-le_bytes 1700000000000 (omega arith),
  number_to_bytes_u64-le_bytes 1800000 (omega arith),
  number_to_bytes_u64-le_bytes 1 (omega arith),
  to_bytes_string_lem (99 ∷ 97 ∷ []) (omega arith),
)

validate-sign_deploy_example :
    (do d ← make_deploy crypto header item item; validate crypto (sign_deploy keys d))
    ≡ (do d ← make_deploy crypto header item item; ok true)
validate-sign_deploy_example = validate-sign_deploy crypto keys header item item keys-Signs

accepted : validate crypto (sign_deploy keys made) ≡ ok true
accepted = rw made_by_make_deploy at (validate-sign_deploy crypto keys header item item keys-Signs)

validate_sound_example :
    Hashed crypto (sign_deploy keys made)
    × AllVerified crypto (sign_deploy keys made).hash (sign_deploy keys made).approvals
validate_sound_example = validate_sound crypto (sign_deploy keys made) accepted
