-- ===== src/Builder.antt =====
-- The abstract class `TransactionBuilder` of src/types/TransactionBuilder.ts.
pub mod Transfer
pub mod Auction
pub mod Call
pub mod Valid
use casper_js_sdk.Prelude.{
  ℕ, ◌≡◌, List, [], ◌∷◌, ◌++◌, length, ◌==◌, Bool, true, false, if◌then◌else◌, Option, none, some,
  Result, ok, err, ◌>>=◌, type_error, missing_payload_fields, payment_amount_not_specified,
  missing_contract_hash,
}
use casper_js_sdk.Prelude.Int.{ℤ, pos}
use casper_js_sdk.Prelude.Words.{Bytes}
use casper_js_sdk.Ethers.{Ethers}
use casper_js_sdk.Text.{Text, codes}
use casper_js_sdk.Hex.{new_contract}
use casper_js_sdk.ClValue.Keypair.{PublicKey}
use casper_js_sdk.Args.{Args, text_eq}
use casper_js_sdk.Transaction.Scheduling.{Timestamp, at, Scheduling, standard_scheduling}
use casper_js_sdk.Transaction.EntryPoint.{EntryPoint}
use casper_js_sdk.Transaction.Target.{truthy_number}
use casper_js_sdk.Transaction.Target.Stored.{TransactionTarget}
use casper_js_sdk.Transaction.PricingMode.{PricingMode, PaymentLimitedMode}
use casper_js_sdk.Transaction.Payload.{InitiatorAddr, Payload}
use casper_js_sdk.Transaction.V1.{make_transaction_v1}
use casper_js_sdk.Transaction.Origin.{Transaction, AmountTexts, from_transaction_v1, from_deploy}
use casper_js_sdk.Deploy.{Crypto, DeployHeader, required, make_deploy}
use casper_js_sdk.Deploy.Item.{DeployItem}
use casper_js_sdk.Deploy.Item.Arguments.{empty_item, standard_payment}

-- What is not set is undefined.
pub record Builder : Type 0 where
  pub initiator_addr : Option InitiatorAddr
  pub chain_name : Option Text
  pub timestamp : Timestamp
  pub ttl : ℤ
  pub pricing_mode : Option PricingMode
  pub invocation_target : Option TransactionTarget
  pub entry_point : Option EntryPoint
  pub scheduling : Scheduling
  pub runtime_args : Option Args
  pub contract_hash : Option Text

-- The initial fields, made at a time `now`, of a class that sets a target and an entry point.
abbrev pub new_builder : ℤ → Option TransactionTarget → Option EntryPoint → Builder
new_builder now target entry_point = record {
  initiator_addr = none;
  chain_name = none;
  timestamp = at now;
  ttl = pos 1800000;
  pricing_mode = none;
  invocation_target = target;
  entry_point = entry_point;
  scheduling = standard_scheduling;
  runtime_args = none;
  contract_hash = none;
}

-- `from` and `fromAccountHash`
abbrev pub from : PublicKey → Builder → Builder
from key b = record b {
  initiator_addr = some (record { public_key = some key; account_hash = none });
}

abbrev pub from_account_hash : Bytes → Builder → Builder
from_account_hash hash b = record b {
  initiator_addr = some (record { public_key = none; account_hash = some hash });
}

-- `chainName`, `contractHash`, `timestamp` and `ttl`
abbrev pub set_chain_name : Text → Builder → Builder
set_chain_name name b = record b { chain_name = some name }

abbrev pub set_contract_hash : Text → Builder → Builder
set_contract_hash hash b = record b { contract_hash = some hash }

abbrev pub set_timestamp : Timestamp → Builder → Builder
set_timestamp timestamp b = record b { timestamp = timestamp }

abbrev pub set_ttl : ℤ → Builder → Builder
set_ttl ttl b = record b { ttl = ttl }

-- `payment`, of an amount and a tolerance that are taken for integers
abbrev pub payment : ℤ → ℤ → Builder → Builder
payment amount tolerance b = record b {
  pricing_mode = some (record {
    payment_limited = some (record {
      gas_price_tolerance = tolerance;
      payment_amount = amount;
      standard_payment = true;
    });
    fixed = none;
    prepaid = none;
  });
}

-- The gas price of a header: the tolerance of a payment, if it is there and not 0, and else 1.
unfoldable pub gas_price : PricingMode → ℤ
gas_price mode = elim mode.payment_limited [
  | none ↦ pos 1
  | some m ↦ elim (truthy_number (some m.gas_price_tolerance)) [ none ↦ pos 1 | some n ↦ n ]
]

-- `_getDefaultDeployHeader`. The type error of an undefined chain name is that of `toBytes` of the
-- header, which follows.
unfoldable pub default_deploy_header : Builder → Result DeployHeader
default_deploy_header b = do
  initiator ← required b.initiator_addr
  mode ← required b.pricing_mode
  chain_name ← required b.chain_name
  ok (record {
    account = initiator.public_key;
    body_hash = none;
    chain_name = chain_name;
    dependencies = [];
    gas_price = gas_price mode;
    timestamp = b.timestamp;
    ttl = b.ttl;
  })

-- `this._pricingMode?.paymentLimited?.paymentAmount`
unfoldable pub amount_of : Option PricingMode → Option ℤ
amount_of none = none
amount_of (some mode) = elim mode.payment_limited [ none ↦ none | some m ↦ some m.payment_amount ]

-- `_getStandardPayment`
unfoldable pub builder_payment : Builder → Result DeployItem
builder_payment b = elim (truthy_number (amount_of b.pricing_mode)) [
  | none ↦ err payment_amount_not_specified
  | some amount ↦ ok (standard_payment amount)
]

-- A part that `PayloadFields.build` asks for.
abbrev pub payload_field {ℓ} : {A : Type ℓ} → Option A → Result A
payload_field none = err missing_payload_fields
payload_field (some a) = ok a

-- `TransactionV1Payload.build`. The type errors of the parts that it does not check are those of
-- `toBytes` of the payload, which follows.
unfoldable pub build_payload : Builder → Result Payload
build_payload b = do
  args ← payload_field b.runtime_args
  target ← payload_field b.invocation_target
  entry_point ← payload_field b.entry_point
  initiator ← required b.initiator_addr
  chain_name ← required b.chain_name
  mode ← required b.pricing_mode
  ok (record {
    initiator_addr = initiator;
    timestamp = b.timestamp;
    ttl = b.ttl;
    pricing_mode = mode;
    chain_name = chain_name;
    args = args;
    target = target;
    entry_point = entry_point;
    scheduling = b.scheduling;
  })

-- `AuctionManagerContractHashMap` of src/utils/constants.ts, at a chain name
unfoldable pub auction_contract : Text → Option Text
auction_contract name =
    if text_eq name (codes "casper")
    then some (codes "ccb576d6ce6dec84a551e48f0d0b7af89ddba44c7390b690036257a04a3ae9ea")
    else if text_eq name (codes "casper-test")
    then some (codes "93d923e336b20a4c4ca14d592b60e5bd3fe330775618290104f9beb326db7ae2")
    else if text_eq name (codes "integration-test")
    then some (codes "e22d38bcf3454a93face78a353feaccbf1d637d1ef9ef2e061a655728ff59bbe")
    else if text_eq name (codes "dev-net")
    then some (codes "93d923e336b20a4c4ca14d592b60e5bd3fe330775618290104f9beb326db7ae2")
    else none

-- `this._contractHash ?? AuctionManagerContractHashMap[this._chainName] ?? ....casper`
unfoldable pub chosen_contract : Builder → Text
chosen_contract b = elim b.contract_hash [
  | some hash ↦ hash
  | none ↦
      let mainnet = codes "ccb576d6ce6dec84a551e48f0d0b7af89ddba44c7390b690036257a04a3ae9ea" in
      elim b.chain_name [
        | none ↦ mainnet
        | some name ↦ elim (auction_contract name) [ none ↦ mainnet | some hash ↦ hash ]
      ]
]

-- The session of the auction contract: an empty text for its hash is refused.
unfoldable pub auction_session : Builder → Text → Args → Result DeployItem
auction_session b entry_point args = elim (chosen_contract b) [
  | [] ↦ err missing_contract_hash
  | c ∷ source ↦ do
    hash ← new_contract (c ∷ source)
    ok (record empty_item {
      stored_contract_by_hash =
          some (record { name = hash; entry_point = entry_point; args = args });
    })
]

module _ ⦃e : Ethers⦄ (c : Crypto) where
  -- `build`
  unfoldable pub build : Builder → Result Transaction
  build b = do payload ← build_payload b; v1 ← make_transaction_v1 c payload; from_transaction_v1 v1

  -- How each `buildFor1_5` ends: a deploy of the default header, a payment and a session.
  unfoldable pub build_deploy : AmountTexts → Builder → DeployItem → DeployItem → Result Transaction
  build_deploy texts b payment session = do
    header ← default_deploy_header b
    deploy ← make_deploy c header payment session
    from_deploy texts deploy

  -- `buildFor1_5` with the standard payment of the builder
  unfoldable pub build_with_payment : AmountTexts → Builder → DeployItem → Result Transaction
  build_with_payment texts b session = do
    header ← default_deploy_header b
    payment ← builder_payment b
    deploy ← make_deploy c header payment session
    from_deploy texts deploy
