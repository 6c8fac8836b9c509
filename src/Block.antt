-- ===== src/Block.antt =====
-- src/types/Block.ts: blocks of both versions, and the block that either is made into. A `Hash` is its
-- bytes.
pub mod Header
pub mod Json
use casper_js_sdk.Prelude.{
  List, [], ◌∷◌, ◌++◌, map, Bool, Option, none, some, Result, ok, err, ◌>>=◌, missing_block,
}
use casper_js_sdk.Prelude.Int.{ℤ, pos}
use casper_js_sdk.Prelude.Words.{Bytes}
use casper_js_sdk.Text.{Text}
use casper_js_sdk.ClValue.Keypair.{PublicKey}
use casper_js_sdk.Transaction.Scheduling.{Timestamp}
use casper_js_sdk.EraEnd.{EraEndV1, EraEndV2, EraEnd, from_v1, from_v2}

pub record Proof : Type 0 where
  pub public_key : PublicKey
  pub signature : Bytes

pub record Proposer : Type 0 where
  pub is_system : Bool
  pub public_key : Option PublicKey

pub data TransactionCategory : Type 0 where
  mint auction install_upgrade large medium small : TransactionCategory

pub data TransactionVersion : Type 0 where
  v1 deploy : TransactionVersion

pub record BlockTransaction : Type 0 where
  pub category : TransactionCategory
  pub version : TransactionVersion
  pub hash : Bytes

pub record BlockHeaderV1 : Type 0 where
  pub accumulated_seed : Option Bytes
  pub body_hash : Bytes
  pub era_id : ℤ
  pub height : ℤ
  pub parent_hash : Bytes
  pub protocol_version : Option Text
  pub random_bit : Bool
  pub state_root_hash : Bytes
  pub timestamp : Timestamp
  pub era_end : Option EraEndV1

pub record BlockBodyV1 : Type 0 where
  pub deploy_hashes : List Bytes
  pub proposer : Proposer
  pub transfer_hashes : List Bytes

pub record BlockV1 : Type 0 where
  pub hash : Bytes
  pub header : BlockHeaderV1
  pub body : BlockBodyV1
  pub proofs : List Proof

-- `lastSwitchBlockHash` may be null.
pub record BlockHeaderV2 : Type 0 where
  pub accumulated_seed : Option Bytes
  pub body_hash : Bytes
  pub era_id : ℤ
  pub current_gas_price : ℤ
  pub height : ℤ
  pub parent_hash : Bytes
  pub proposer : Proposer
  pub protocol_version : Option Text
  pub random_bit : Bool
  pub state_root_hash : Bytes
  pub last_switch_block_hash : Option Bytes
  pub timestamp : Timestamp
  pub era_end : Option EraEndV2

pub record BlockBodyV2 : Type 0 where
  pub transactions : List BlockTransaction
  pub rewarded_signatures : List (List ℤ)

pub record BlockV2 : Type 0 where
  pub hash : Bytes
  pub header : BlockHeaderV2
  pub body : BlockBodyV2

pub record BlockWrapper : Type 0 where
  pub block_v1 : Option BlockV1
  pub block_v2 : Option BlockV2

pub record Block : Type 0 where
  pub hash : Bytes
  pub height : ℤ
  pub state_root_hash : Bytes
  pub last_switch_block_hash : Option Bytes
  pub parent_hash : Bytes
  pub era_id : ℤ
  pub timestamp : Timestamp
  pub accumulated_seed : Option Bytes
  pub random_bit : Bool
  pub current_gas_price : ℤ
  pub proposer : Proposer
  pub protocol_version : Option Text
  pub era_end : Option EraEnd
  pub transactions : List BlockTransaction
  pub rewarded_signatures : List (List ℤ)
  pub proofs : List Proof
  pub origin_block_v1 : Option BlockV1
  pub origin_block_v2 : Option BlockV2

-- The elements that a loop of `newBlockFromBlockV1` pushes
abbrev pub deploys_of : TransactionCategory → List Bytes → List BlockTransaction
deploys_of category hashes =
    map (λ hash. record { category = category; version = deploy; hash = hash }) hashes

-- `newBlockFromBlockV1`
unfoldable pub new_block_from_block_v1 : BlockV1 → Result Block
unfolding from_v1
new_block_from_block_v1 b = do
  era_end ← from_v1 b.header.era_end
  ok (record {
    hash = b.hash;
    height = b.header.height;
    state_root_hash = b.header.state_root_hash;
    last_switch_block_hash = none;
    parent_hash = b.header.parent_hash;
    era_id = b.header.era_id;
    timestamp = b.header.timestamp;
    accumulated_seed = b.header.accumulated_seed;
    random_bit = b.header.random_bit;
    current_gas_price = pos 1;
    proposer = b.body.proposer;
    protocol_version = b.header.protocol_version;
    era_end = era_end;
    transactions = deploys_of mint b.body.transfer_hashes ++ deploys_of large b.body.deploy_hashes;
    rewarded_signatures = [];
    proofs = b.proofs;
    origin_block_v1 = some b;
    origin_block_v2 = none;
  })

-- The block of `newBlockFromBlockWrapper` for the second version
unfoldable pub new_block_from_block_v2 : BlockV2 → List Proof → Block
unfolding from_v2
new_block_from_block_v2 b proofs = record {
  hash = b.hash;
  height = b.header.height;
  state_root_hash = b.header.state_root_hash;
  last_switch_block_hash = b.header.last_switch_block_hash;
  parent_hash = b.header.parent_hash;
  era_id = b.header.era_id;
  timestamp = b.header.timestamp;
  accumulated_seed = b.header.accumulated_seed;
  random_bit = b.header.random_bit;
  current_gas_price = b.header.current_gas_price;
  proposer = b.header.proposer;
  protocol_version = b.header.protocol_version;
  era_end = from_v2 b.header.era_end;
  transactions = b.body.transactions;
  rewarded_signatures = b.body.rewarded_signatures;
  proofs = proofs;
  origin_block_v1 = none;
  origin_block_v2 = some b;
}

-- `newBlockFromBlockWrapper`
unfoldable pub new_block_from_block_wrapper : BlockWrapper → List Proof → Result Block
unfolding new_block_from_block_v1 new_block_from_block_v2
new_block_from_block_wrapper w proofs = elim w.block_v1 [
  | some b ↦ do block ← new_block_from_block_v1 b; ok (record block { proofs = proofs })
  | none ↦ elim w.block_v2 [
    | some b ↦ ok (new_block_from_block_v2 b proofs)
    | none ↦ err missing_block
  ]
]
