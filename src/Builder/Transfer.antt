-- ===== src/Builder/Transfer.antt =====
-- `NativeTransferBuilder` and `NativeBurnBuilder` of src/types/TransactionBuilder.ts. Amounts and ids are
-- integers. A value that is not set is a type error of `toBytes`, which follows.
pub mod Faults
use casper_js_sdk.Prelude.{
  ℕ, ◌≡◌, List, [], ◌∷◌, length, Option, none, some, Result, ok, err, ◌>>=◌,
  payment_amount_not_specified,
}
use casper_js_sdk.Prelude.Int.{ℤ, pos}
use casper_js_sdk.Prelude.Words.{Bytes}
use casper_js_sdk.Ethers.{Ethers}
use casper_js_sdk.Text.{codes}
use casper_js_sdk.ClType.{simple, SimpleType}
use casper_js_sdk.Key.Reference.{URef}
use casper_js_sdk.ClValue.Keypair.{PublicKey}
use casper_js_sdk.ClValue.{ClValue, cl_u64, cl_uref, cl_public_key, cl_byte_array, cl_some}
use casper_js_sdk.Args.{Args, insert}
use casper_js_sdk.Transaction.EntryPoint.{transfer, burn}
use casper_js_sdk.Transaction.Target.{truthy_number}
use casper_js_sdk.Transaction.Target.Stored.{native_target}
use casper_js_sdk.Transaction.Origin.{Transaction, AmountTexts}
use casper_js_sdk.Deploy.{Crypto, required}
use casper_js_sdk.Deploy.Item.{DeployItem}
use casper_js_sdk.Deploy.Item.Arguments.{
  empty_item, new_u512, new_transfer, TransferDestination, owner, nothing, standard_payment,
}
use casper_js_sdk.Builder.{Builder, new_builder, amount_of, build, build_deploy}

pub record TransferBuilder : Type 0 where
  pub base : Builder
  pub target : Option ClValue
  pub public_key : Option PublicKey
  pub amount : ℤ
  pub id_transfer : Option ℤ

-- the constructor
abbrev pub new_transfer_builder : ℤ → TransferBuilder
new_transfer_builder now = record {
  base =
      new_builder now (some native_target)
        (some (record { type_ = transfer; custom_entry_point = none }));
  target = none;
  public_key = none;
  amount = pos 0;
  id_transfer = none;
}

-- `target`
abbrev pub set_target : PublicKey → TransferBuilder → TransferBuilder
set_target key b = record b { public_key = some key; target = some (cl_public_key key) }

-- `targetAccountHash`, which leaves the key as it is
abbrev pub target_account_hash : Bytes → TransferBuilder → TransferBuilder
target_account_hash hash b = record b { target = some (cl_byte_array (pos (length hash)) hash) }

-- `amount` and `id`
abbrev pub set_amount : ℤ → TransferBuilder → TransferBuilder
set_amount amount b = record b { amount = amount }

abbrev pub set_id : ℤ → TransferBuilder → TransferBuilder
set_id id b = record b { id_transfer = some id }

-- The arguments of `build`: an id that is undefined or 0 is left out.
unfoldable pub transfer_args : ⦃e : Ethers⦄ → TransferBuilder → Result Args
transfer_args ⦃e⦄ b = do
  target ← required b.target
  let args = insert (codes "amount") (new_u512 b.amount) (insert (codes "target") target [])
  elim (truthy_number b.id_transfer) [
    | none ↦ ok args
    | some n ↦ do
      id ← e.from_number n
      ok (insert (codes "id") (cl_some (simple SimpleType.u64) (cl_u64 id)) args)
  ]

-- The destination of the deploy: the key that `target` set.
unfoldable pub destination_of : Option PublicKey → TransferDestination
destination_of none = nothing
destination_of (some key) = owner key

-- The payment of `buildFor1_5`: the one that is set, or else 100000000 motes.
unfoldable pub transfer_payment : Builder → DeployItem
transfer_payment b = elim (truthy_number (amount_of b.pricing_mode)) [
  | none ↦ standard_payment (pos 100000000)
  | some amount ↦ standard_payment amount
]

pub record BurnBuilder : Type 0 where
  pub base : Builder
  pub source : Option ClValue
  pub amount : ℤ

-- the constructor
abbrev pub new_burn_builder : ℤ → BurnBuilder
new_burn_builder now = record {
  base =
      new_builder now (some native_target)
        (some (record { type_ = burn; custom_entry_point = none }));
  source = none;
  amount = pos 0;
}

-- `source` and `amount`
abbrev pub set_source : URef → BurnBuilder → BurnBuilder
set_source purse b = record b { source = some (cl_uref purse) }

abbrev pub set_burn_amount : ℤ → BurnBuilder → BurnBuilder
set_burn_amount amount b = record b { amount = amount }

-- The arguments of `build`
unfoldable pub burn_args : BurnBuilder → Args
burn_args b = elim b.source [
  | none ↦ insert (codes "amount") (new_u512 b.amount) []
  | some source ↦ insert (codes "amount") (new_u512 b.amount) (insert (codes "source") source [])
]

module _ ⦃e : Ethers⦄ (c : Crypto) where
  -- `NativeTransferBuilder.build`
  unfoldable pub build_transfer : TransferBuilder → Result Transaction
  build_transfer b = do args ← transfer_args b; build c (record b.base { runtime_args = some args })

  -- `NativeTransferBuilder.buildFor1_5`
  unfoldable pub build_transfer_for_1_5 : AmountTexts → TransferBuilder → Result Transaction
  build_transfer_for_1_5 texts b = do
    args ← new_transfer b.amount (destination_of b.public_key) none b.id_transfer
    build_deploy c texts b.base (transfer_payment b.base)
        (record empty_item { transfer = some args })

  -- `NativeBurnBuilder.build`
  unfoldable pub build_burn : BurnBuilder → Result Transaction
  build_burn b = build c (record b.base { runtime_args = some (burn_args b) })
