-- ===== src/Block/Header.antt =====
-- src/types/Block.ts: the headers of both versions, and the header that either is made into.
use casper_js_sdk.Prelude.{Bool, Option, none, some, Result, ok, ◌>>=◌}
use casper_js_sdk.Prelude.Int.{ℤ, pos}
use casper_js_sdk.Prelude.Words.{Bytes}
use casper_js_sdk.Text.{Text}
use casper_js_sdk.Transaction.Scheduling.{Timestamp}
use casper_js_sdk.EraEnd.{EraEnd, from_v1, from_v2}
use casper_js_sdk.Block.{Proposer, BlockHeaderV1, BlockHeaderV2}

-- The proposer of a header of the first version is undefined.
pub record BlockHeader : Type 0 where
  pub accumulated_seed : Option Bytes
  pub body_hash : Bytes
  pub era_id : ℤ
  pub current_gas_price : ℤ
  pub height : ℤ
  pub parent_hash : Bytes
  pub proposer : Option Proposer
  pub protocol_version : Option Text
  pub random_bit : Bool
  pub state_root_hash : Bytes
  pub timestamp : Timestamp
  pub era_end : Option EraEnd
  pub origin_block_header_v1 : Option BlockHeaderV1
  pub origin_block_header_v2 : Option BlockHeaderV2

-- `newBlockHeaderFromV1`
unfoldable pub new_block_header_from_v1 : BlockHeaderV1 → Result BlockHeader
unfolding from_v1
new_block_header_from_v1 header = do
  era_end ← from_v1 header.era_end
  ok (record {
    accumulated_seed = header.accumulated_seed;
    body_hash = header.body_hash;
    era_id = header.era_id;
    current_gas_price = pos 1;
    height = header.height;
    parent_hash = header.parent_hash;
    proposer = none;
    protocol_version = header.protocol_version;
    random_bit = header.random_bit;
    state_root_hash = header.state_root_hash;
    timestamp = header.timestamp;
    era_end = era_end;
    origin_block_header_v1 = some header;
    origin_block_header_v2 = none;
  })

-- `newBlockHeaderFromV2`
unfoldable pub new_block_header_from_v2 : BlockHeaderV2 → BlockHeader
unfolding from_v2
new_block_header_from_v2 header = record {
  accumulated_seed = header.accumulated_seed;
  body_hash = header.body_hash;
  era_id = header.era_id;
  current_gas_price = header.current_gas_price;
  height = header.height;
  parent_hash = header.parent_hash;
  proposer = some header.proposer;
  protocol_version = header.protocol_version;
  random_bit = header.random_bit;
  state_root_hash = header.state_root_hash;
  timestamp = header.timestamp;
  era_end = from_v2 header.era_end;
  origin_block_header_v1 = none;
  origin_block_header_v2 = some header;
}
