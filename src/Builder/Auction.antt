-- ===== src/Builder/Auction.antt =====
-- The builders of src/types/TransactionBuilder.ts for bids and delegations. Amounts are integers. A
-- value that is not set is a type error of `toBytes`, which follows.
use casper_js_sdk.Prelude.{[], Option, none, some, Result, ok, err, ◌>>=◌, initiator_not_specified}
use casper_js_sdk.Prelude.Int.{ℤ, pos}
use casper_js_sdk.Ethers.{Ethers}
use casper_js_sdk.Text.{Text, codes}
use casper_js_sdk.ClValue.Keypair.{PublicKey}
use casper_js_sdk.ClValue.{ClValue, cl_u8, cl_u32, cl_u64, cl_public_key}
use casper_js_sdk.Args.{Args, insert}
use casper_js_sdk.Transaction.EntryPoint.{EntryPointType, add_bid}
use casper_js_sdk.Transaction.Target.Stored.{native_target}
use casper_js_sdk.Transaction.Origin.{Transaction, AmountTexts}
use casper_js_sdk.Deploy.{Crypto, required}
use casper_js_sdk.Deploy.Item.Arguments.{new_u512}
use casper_js_sdk.Builder.{Builder, new_builder, auction_session, build, build_with_payment}

-- The builder of a native entry point
abbrev pub native_builder : EntryPointType → ℤ → Builder
native_builder entry_point now =
    new_builder now (some native_target)
      (some (record { type_ = entry_point; custom_entry_point = none }))

pub record AddBidBuilder : Type 0 where
  pub base : Builder
  pub validator : Option PublicKey
  pub amount : Option ℤ
  pub delegation_rate : Option ℤ
  pub minimum_delegation_amount : Option ℤ
  pub maximum_delegation_amount : Option ℤ
  pub reserved_slots : Option ℤ

-- the constructor
abbrev pub new_add_bid_builder : ℤ → AddBidBuilder
new_add_bid_builder now = record {
  base = native_builder add_bid now;
  validator = none;
  amount = none;
  delegation_rate = none;
  minimum_delegation_amount = none;
  maximum_delegation_amount = none;
  reserved_slots = none;
}

-- An argument that is left out if it is not set
unfoldable pub insert_some : Text → Option ClValue → Args → Args
insert_some name none args = args
insert_some name (some value) args = insert name value args

abbrev pub as_u64 : Option ℤ → Option ClValue
as_u64 none = none
as_u64 (some n) = some (cl_u64 n)

abbrev pub as_u32 : Option ℤ → Option ClValue
as_u32 none = none
as_u32 (some n) = some (cl_u32 n)

-- The arguments of `NativeAddBidBuilder.build`, and of its `buildFor1_5`
unfoldable pub add_bid_args : AddBidBuilder → Result Args
add_bid_args b = do
  validator ← required b.validator
  amount ← required b.amount
  rate ← required b.delegation_rate
  let args0 = insert (codes "public_key") (cl_public_key validator) []
  let args1 = insert (codes "amount") (new_u512 amount) args0
  let args2 = insert (codes "delegation_rate") (cl_u8 rate) args1
  let args3 =
      insert_some (codes "minimum_delegation_amount") (as_u64 b.minimum_delegation_amount) args2
  let args4 =
      insert_some (codes "maximum_delegation_amount") (as_u64 b.maximum_delegation_amount) args3
  ok (insert_some (codes "reserved_slots") (as_u32 b.reserved_slots) args4)

-- `NativeWithdrawBidBuilder`, `NativeDelegateBuilder` and `NativeUndelegateBuilder`
pub record StakeBuilder : Type 0 where
  pub base : Builder
  pub validator : Option PublicKey
  pub amount : ℤ

abbrev pub new_stake_builder : EntryPointType → ℤ → StakeBuilder
new_stake_builder entry_point now = record {
  base = native_builder entry_point now;
  validator = none;
  amount = pos 0;
}

pub record RedelegateBuilder : Type 0 where
  pub base : Builder
  pub validator : Option PublicKey
  pub new_validator : Option PublicKey
  pub amount : ℤ

pub record ActivateBidBuilder : Type 0 where
  pub base : Builder
  pub validator : Option PublicKey

pub record ChangeBidBuilder : Type 0 where
  pub base : Builder
  pub public_key : Option PublicKey
  pub new_public_key : Option PublicKey

-- `if (!this._initiatorAddr.publicKey)`
unfoldable pub initiator_key : Builder → Result PublicKey
initiator_key b = do
  initiator ← required b.initiator_addr
  elim initiator.public_key [ none ↦ err initiator_not_specified | some key ↦ ok key ]

-- `fromMap` of a key and an amount
unfoldable pub withdraw_bid_args : StakeBuilder → Result Args
withdraw_bid_args b = do
  validator ← required b.validator
  let args = insert (codes "public_key") (cl_public_key validator) []
  ok (insert (codes "amount") (new_u512 b.amount) args)

-- `fromMap` of `build` of a delegation: the delegator first
unfoldable pub stake_args : StakeBuilder → Result Args
stake_args b = do
  delegator ← initiator_key b.base
  validator ← required b.validator
  let args0 = insert (codes "delegator") (cl_public_key delegator) []
  let args1 = insert (codes "validator") (cl_public_key validator) args0
  ok (insert (codes "amount") (new_u512 b.amount) args1)

-- `fromMap` of `buildFor1_5` of a delegation: the validator first
unfoldable pub stake_args_for_1_5 : StakeBuilder → Result Args
stake_args_for_1_5 b = do
  delegator ← initiator_key b.base
  validator ← required b.validator
  let args0 = insert (codes "validator") (cl_public_key validator) []
  let args1 = insert (codes "delegator") (cl_public_key delegator) args0
  ok (insert (codes "amount") (new_u512 b.amount) args1)

unfoldable pub redelegate_args : RedelegateBuilder → Result Args
redelegate_args b = do
  delegator ← initiator_key b.base
  validator ← required b.validator
  new_validator ← required b.new_validator
  let args0 = insert (codes "delegator") (cl_public_key delegator) []
  let args1 = insert (codes "validator") (cl_public_key validator) args0
  let args2 = insert (codes "amount") (new_u512 b.amount) args1
  ok (insert (codes "new_validator") (cl_public_key new_validator) args2)

unfoldable pub redelegate_args_for_1_5 : RedelegateBuilder → Result Args
redelegate_args_for_1_5 b = do
  delegator ← initiator_key b.base
  validator ← required b.validator
  new_validator ← required b.new_validator
  let args0 = insert (codes "validator") (cl_public_key validator) []
  let args1 = insert (codes "new_validator") (cl_public_key new_validator) args0
  let args2 = insert (codes "delegator") (cl_public_key delegator) args1
  ok (insert (codes "amount") (new_u512 b.amount) args2)

unfoldable pub activate_bid_args : ActivateBidBuilder → Result Args
activate_bid_args b = do
  validator ← required b.validator
  ok (insert (codes "validator") (cl_public_key validator) [])

unfoldable pub change_bid_args : ChangeBidBuilder → Result Args
change_bid_args b = do
  key ← required b.public_key
  new_key ← required b.new_public_key
  let args = insert (codes "public_key") (cl_public_key key) []
  ok (insert (codes "new_public_key") (cl_public_key new_key) args)

module _ ⦃e : Ethers⦄ (c : Crypto) where
  -- How each `build` ends: the arguments are set first.
  unfoldable pub build_with_args : Builder → Result Args → Result Transaction
  build_with_args b made = do args ← made; build c (record b { runtime_args = some args })

  -- How each `buildFor1_5` ends: a call of the auction contract's entry point.
  unfoldable pub build_auction : AmountTexts → Builder → Text → Result Args → Result Transaction
  build_auction texts b entry_point made = do
    args ← made
    session ← auction_session b entry_point args
    build_with_payment c texts b session

  unfoldable pub build_add_bid : AddBidBuilder → Result Transaction
  unfolding build_with_args
  build_add_bid b = build_with_args b.base (add_bid_args b)

  -- The initiator is asked for a key first.
  unfoldable pub build_add_bid_for_1_5 : AmountTexts → AddBidBuilder → Result Transaction
  unfolding build_auction
  build_add_bid_for_1_5 texts b = do
    key ← initiator_key b.base
    build_auction texts b.base (codes "add_bid") (add_bid_args b)

  unfoldable pub build_withdraw_bid : StakeBuilder → Result Transaction
  unfolding build_with_args
  build_withdraw_bid b = build_with_args b.base (withdraw_bid_args b)

  unfoldable pub build_withdraw_bid_for_1_5 : AmountTexts → StakeBuilder → Result Transaction
  unfolding build_auction
  build_withdraw_bid_for_1_5 texts b =
      build_auction texts b.base (codes "withdraw_bid") (withdraw_bid_args b)

  unfoldable pub build_delegate : StakeBuilder → Result Transaction
  unfolding build_with_args
  build_delegate b = build_with_args b.base (stake_args b)

  unfoldable pub build_delegate_for_1_5 : AmountTexts → StakeBuilder → Result Transaction
  unfolding build_auction
  build_delegate_for_1_5 texts b =
      build_auction texts b.base (codes "delegate") (stake_args_for_1_5 b)

  unfoldable pub build_undelegate : StakeBuilder → Result Transaction
  unfolding build_with_args
  build_undelegate b = build_with_args b.base (stake_args b)

  unfoldable pub build_undelegate_for_1_5 : AmountTexts → StakeBuilder → Result Transaction
  unfolding build_auction
  build_undelegate_for_1_5 texts b =
      build_auction texts b.base (codes "undelegate") (stake_args_for_1_5 b)

  unfoldable pub build_redelegate : RedelegateBuilder → Result Transaction
  unfolding build_with_args
  build_redelegate b = build_with_args b.base (redelegate_args b)

  unfoldable pub build_redelegate_for_1_5 : AmountTexts → RedelegateBuilder → Result Transaction
  unfolding build_auction
  build_redelegate_for_1_5 texts b =
      build_auction texts b.base (codes "redelegate") (redelegate_args_for_1_5 b)

  unfoldable pub build_activate_bid : ActivateBidBuilder → Result Transaction
  unfolding build_with_args
  build_activate_bid b = build_with_args b.base (activate_bid_args b)

  unfoldable pub build_activate_bid_for_1_5 : AmountTexts → ActivateBidBuilder → Result Transaction
  unfolding build_auction
  build_activate_bid_for_1_5 texts b =
      build_auction texts b.base (codes "activate_bid") (activate_bid_args b)

  unfoldable pub build_change_bid : ChangeBidBuilder → Result Transaction
  unfolding build_with_args
  build_change_bid b = build_with_args b.base (change_bid_args b)
