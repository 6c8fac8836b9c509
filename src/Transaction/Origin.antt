-- ===== src/Transaction/Origin.antt =====
-- The class `Transaction` of src/types/Transaction.ts: a transaction of either form, with the deploy or
-- the version 1 transaction that it was made from.
use casper_js_sdk.Prelude.{
  [], ◌∷◌, Bool, false, Option, none, some, Result, ok, err, ◌>>=◌, missing_origin, two_origins,
}
use casper_js_sdk.Prelude.Int.{ℤ, pos}
use casper_js_sdk.Prelude.Words.{Bytes}
use casper_js_sdk.Ethers.{Ethers}
use casper_js_sdk.Text.{Text, codes}
use casper_js_sdk.ClValue.{ClValue}
use casper_js_sdk.ClValue.Keypair.{PublicKey}
use casper_js_sdk.Args.{Args, get_by_name}
use casper_js_sdk.Deploy.{
  Crypto, PrivateKey, Deploy, hash_equals, validate, sign_and_add_algorithm_bytes,
}
use casper_js_sdk.Deploy.Item.{DeployItem}
use casper_js_sdk.Deploy.Item.Arguments.{get_args, is_standard_payment, target_from_session}
use casper_js_sdk.Deploy.Change.{set_deploy_signature, deploy_to_bytes}
use casper_js_sdk.Transaction.Scheduling.{Timestamp, Scheduling, standard_scheduling}
use casper_js_sdk.Transaction.EntryPoint.{EntryPoint, transfer, call, custom, new_entry_point}
use casper_js_sdk.Transaction.Target.Stored.{TransactionTarget}
use casper_js_sdk.Transaction.PricingMode.{PricingMode}
use casper_js_sdk.Transaction.Payload.{InitiatorAddr}
use casper_js_sdk.Transaction.V1.{TransactionV1, validate_v1, set_signature, v1_to_bytes}

pub record TransactionHash : Type 0 where
  pub deploy : Option Bytes
  pub transaction_v1 : Option Bytes

-- `fromDeployHash` and `fromTransactionHash`
abbrev pub from_deploy_hash : Bytes → TransactionHash
from_deploy_hash hash = record { deploy = some hash; transaction_v1 = none }

abbrev pub from_transaction_hash : Bytes → TransactionHash
from_transaction_hash hash = record { deploy = none; transaction_v1 = some hash }

-- `getHash`
unfoldable pub get_hash : TransactionHash → Option Bytes
get_hash h = elim h.deploy [ some hash ↦ some hash | none ↦ h.transaction_v1 ]

-- `toBytes`
unfoldable pub hash_to_bytes : TransactionHash → Bytes
unfolding get_hash
hash_to_bytes h = elim (get_hash h) [ some hash ↦ hash | none ↦ [] ]

-- `equals`
unfoldable pub transaction_hash_equals : TransactionHash → Bytes → Bool
unfolding get_hash
transaction_hash_equals h other = elim (get_hash h) [
  | none ↦ false
  | some hash ↦ hash_equals hash other
]

-- The array `approvals` of a `Transaction` is that of its origin, the same object, so it is not a
-- field of its own.
pub record Transaction : Type 0 where
  pub hash : TransactionHash
  pub chain_name : Text
  pub timestamp : Timestamp
  pub ttl : ℤ
  pub initiator_addr : InitiatorAddr
  pub pricing_mode : PricingMode
  pub args : Option Args
  pub target : TransactionTarget
  pub entry_point : EntryPoint
  pub scheduling : Scheduling
  pub origin_transaction_v1 : Option TransactionV1
  pub origin_deploy_v1 : Option Deploy

-- The checks of the constructor: exactly one origin.
unfoldable pub new_transaction : Transaction → Result Transaction
new_transaction t = elim t.origin_deploy_v1 [
  | none ↦ elim t.origin_transaction_v1 [ none ↦ err missing_origin | some v1 ↦ ok t ]
  | some d ↦ elim t.origin_transaction_v1 [ none ↦ ok t | some v1 ↦ err two_origins ]
]

-- `fromTransactionV1`
unfoldable pub from_transaction_v1 : TransactionV1 → Result Transaction
from_transaction_v1 v1 = new_transaction (record {
  hash = from_transaction_hash v1.hash;
  chain_name = v1.payload.chain_name;
  timestamp = v1.payload.timestamp;
  ttl = v1.payload.ttl;
  initiator_addr = v1.payload.initiator_addr;
  pricing_mode = v1.payload.pricing_mode;
  args = some v1.payload.args;
  target = v1.payload.target;
  entry_point = v1.payload.entry_point;
  scheduling = v1.payload.scheduling;
  origin_transaction_v1 = some v1;
  origin_deploy_v1 = none;
})

-- The entry point that a session calls: the text is empty if the session has none.
unfoldable pub session_entry_point : DeployItem → Text
session_entry_point session = elim session.stored_contract_by_hash [
  | some c ↦ c.entry_point
  | none ↦ elim session.stored_contract_by_name [
    | some c ↦ c.entry_point
    | none ↦ elim session.versioned_contract_by_hash [
      | some c ↦ c.entry_point
      | none ↦ elim session.versioned_contract_by_name [ some c ↦ c.entry_point | none ↦ [] ]
    ]
  ]
]

-- `TransactionEntryPoint` of a session
unfoldable pub entry_point_of_session : DeployItem → Result EntryPoint
entry_point_of_session session = elim session.transfer [
  | some args ↦ new_entry_point transfer none
  | none ↦ elim session.module_bytes [
    | some m ↦ new_entry_point call none
    | none ↦ new_entry_point custom (some (session_entry_point session))
  ]
]

-- `parseInt(value.toString(), 10) || 0`, of the texts that the classes of values and the package of
-- large numbers give.
pub record AmountTexts : Type 0 where
  pub parsed : ClValue → ℤ

-- The amount of a payment's arguments, 0 if there is none.
unfoldable pub payment_amount : AmountTexts → Option Args → ℤ
payment_amount texts none = pos 0
payment_amount texts (some args) = elim (get_by_name (codes "amount") args) [
  | none ↦ pos 0
  | some value ↦ texts.parsed value
]

-- `Deploy.newTransactionFromDeploy`, and `fromDeploy`
unfoldable pub from_deploy : AmountTexts → Deploy → Result Transaction
from_deploy texts d = do
  entry_point ← entry_point_of_session d.session
  payment_args ← get_args d.payment
  session_args ← get_args d.session
  new_transaction (record {
    hash = from_deploy_hash d.hash;
    chain_name = d.header.chain_name;
    timestamp = d.header.timestamp;
    ttl = d.header.ttl;
    initiator_addr = record { public_key = d.header.account; account_hash = none };
    pricing_mode = record {
      payment_limited = some (record {
        gas_price_tolerance = d.header.gas_price;
        payment_amount = payment_amount texts payment_args;
        standard_payment = is_standard_payment d.payment;
      });
      fixed = none;
      prepaid = none;
    };
    args = session_args;
    target = target_from_session d.session;
    entry_point = entry_point;
    scheduling = standard_scheduling;
    origin_transaction_v1 = none;
    origin_deploy_v1 = some d;
  })

-- `setSignature`: the approval is pushed to the array of the origin.
unfoldable pub add_signature : Bytes → PublicKey → Transaction → Result Transaction
add_signature signature public_key t = elim t.origin_transaction_v1 [
  | some v1 ↦ ok (record t { origin_transaction_v1 = some (set_signature v1 signature public_key) })
  | none ↦ elim t.origin_deploy_v1 [
    | some d ↦
        ok (record t { origin_deploy_v1 = some (set_deploy_signature d signature public_key) })
    | none ↦ err missing_origin
  ]
]

module _ ⦃e : Ethers⦄ where
  -- `sign`: what is signed is the hash of the transaction.
  unfoldable pub sign_transaction : PrivateKey → Transaction → Result Transaction
  sign_transaction keys t =
      add_signature (sign_and_add_algorithm_bytes keys (hash_to_bytes t.hash)) keys.public_key t

  -- `toBytes`
  unfoldable pub transaction_to_bytes : Transaction → Result Bytes
  transaction_to_bytes t = elim t.origin_deploy_v1 [
    | some d ↦ do bytes ← deploy_to_bytes d; ok (e.concat ((0 ∷ []) ∷ bytes ∷ []))
    | none ↦ elim t.origin_transaction_v1 [
      | some v1 ↦ do bytes ← v1_to_bytes v1; ok (e.concat ((1 ∷ []) ∷ bytes ∷ []))
      | none ↦ err missing_origin
    ]
  ]

  -- `validate`
  unfoldable pub validate_transaction : Crypto → Transaction → Result Bool
  validate_transaction c t = elim t.origin_transaction_v1 [
    | some v1 ↦ validate_v1 c v1
    | none ↦ elim t.origin_deploy_v1 [ some d ↦ validate c d | none ↦ err missing_origin ]
  ]
