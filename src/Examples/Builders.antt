-- ===== src/Examples/Builders.antt =====
-- Runs of the builders of transactions.
use casper_js_sdk.Prelude.{◌≡◌, refl, arith, [], replicate, true, some, ok, err, ◌>>=◌, Error}
use casper_js_sdk.Prelude.Int.{pos}
use casper_js_sdk.Prelude.Words.{Bytes}
use casper_js_sdk.Ethers.Model.{ethers_model}
use casper_js_sdk.Text.{codes}
use casper_js_sdk.Hex.{to_hex, hash_from_hex, hash_from_hex-to_hex}
use casper_js_sdk.Args.{Args}
use casper_js_sdk.Transaction.Origin.{AmountTexts, sign_transaction, validate_transaction}
use casper_js_sdk.Deploy.Item.Arguments.{standard_payment}
use casper_js_sdk.Builder.{Builder, from, set_chain_name, payment, build, build_deploy}
use casper_js_sdk.Builder.Valid.{validate_transaction-build, validate_transaction-build_deploy}
use casper_js_sdk.Builder.Transfer.{
  TransferBuilder, new_transfer_builder, set_target, target_account_hash, build_transfer_for_1_5,
}
use casper_js_sdk.Builder.Transfer.Faults.{build_transfer_for_1_5_needs_payment}
use casper_js_sdk.Examples.Deploys.{crypto, keys, keys-Signs, item}

abbrev hash : Bytes
hash = replicate 32 7

abbrev no_amounts : AmountTexts
no_amounts = record { parsed = λ value. pos 0 }

abbrev unpaid : TransferBuilder
unpaid = new_transfer_builder (pos 1700000000000)

abbrev paid : Builder
paid =
    record (payment (pos 100000000) (pos 1)
      (set_chain_name (codes "casper") (from keys.public_key unpaid.base))) {
        runtime_args = some [];
      }

validate_transaction-build_example :
    (do t ← build crypto paid; signed ← sign_transaction keys t; validate_transaction crypto signed)
    ≡ (do t ← build crypto paid; ok true)
validate_transaction-build_example = validate_transaction-build crypto keys paid keys-Signs

validate_transaction-build_deploy_example :
    (do
      t ← build_deploy crypto no_amounts paid (standard_payment (pos 5)) item
      signed ← sign_transaction keys t
      validate_transaction crypto signed)
    ≡ (do t ← build_deploy crypto no_amounts paid (standard_payment (pos 5)) item; ok true)
validate_transaction-build_deploy_example =
    validate_transaction-build_deploy crypto keys no_amounts paid (standard_payment (pos 5)) item
      keys-Signs

abbrev paid_transfer : TransferBuilder
paid_transfer = record unpaid { base = paid; id_transfer = some (pos 7) }

abbrev two_targets : TransferBuilder
two_targets = target_account_hash hash (set_target keys.public_key paid_transfer)

build_transfer_for_1_5_needs_payment_example :
    (x : Error) × (build_transfer_for_1_5 crypto no_amounts (set_target keys.public_key unpaid)
      ≡ err x)
build_transfer_for_1_5_needs_payment_example =
    build_transfer_for_1_5_needs_payment crypto no_amounts (set_target keys.public_key unpaid) refl

hash_from_hex-to_hex_example : hash_from_hex (to_hex hash) ≡ ok hash
hash_from_hex-to_hex_example = hash_from_hex-to_hex hash (omega arith) refl
