-- ===== src/Key/Bid.antt =====
-- src/types/key/BidAddr.ts: the addresses of bids.
pub mod RoundTrip
use casper_js_sdk.Prelude.{
  invalid_number, ℕ, List, [], ◌∷◌, ◌++◌, length, take, reverse, get_elem?, ltb, ◌<◌, if◌then◌else◌,
  Option, none, some, Result, ok, err, ◌>>=◌, type_error, range_error, invalid_bid_addr,
  invalid_bid_addr_tag, missing_bid_field, ◌^◌,
}
use casper_js_sdk.Prelude.Int.{ℤ, pos, negsuc}
use casper_js_sdk.Prelude.Words.{Bytes, le_bytes}
use casper_js_sdk.Ethers.{Ethers}
use casper_js_sdk.Numeric.{Parsed}
use casper_js_sdk.Hash.{hash_from_bytes}

pub data BidAddrTag : Type 0 where
  unified_tag validator_tag delegated_account_tag delegated_purse_tag credit_tag : BidAddrTag
  reserved_delegation_account_tag reserved_delegation_purse_tag : BidAddrTag
  unbond_account_tag unbond_purse_tag validator_rev_tag : BidAddrTag

-- The purse's address is kept as a hex text; here it is the bytes that the text spells.
pub record BidAddr : Type 0 where
  pub tag : BidAddrTag
  pub unified : Option Bytes
  pub validator : Option Bytes
  pub delegator_account : Option Bytes
  pub delegator_purse_address : Option Bytes
  pub era_id : Option ℤ

abbrev pub bid_addr_tags : List BidAddrTag
bid_addr_tags =
    unified_tag ∷ validator_tag ∷ delegated_account_tag ∷ delegated_purse_tag ∷ credit_tag
    ∷ reserved_delegation_account_tag ∷ reserved_delegation_purse_tag ∷ unbond_account_tag
    ∷ unbond_purse_tag ∷ validator_rev_tag ∷ []

abbrev pub bid_addr_code : BidAddrTag → ℕ
bid_addr_code unified_tag = 0
bid_addr_code validator_tag = 1
bid_addr_code delegated_account_tag = 2
bid_addr_code delegated_purse_tag = 3
bid_addr_code credit_tag = 4
bid_addr_code reserved_delegation_account_tag = 5
bid_addr_code reserved_delegation_purse_tag = 6
bid_addr_code unbond_account_tag = 7
bid_addr_code unbond_purse_tag = 8
bid_addr_code validator_rev_tag = 9

-- `new BidAddr()` with its tag set
abbrev pub new_bid_addr : BidAddrTag → BidAddr
new_bid_addr t = record {
  tag = t;
  unified = none;
  validator = none;
  delegator_account = none;
  delegator_purse_address = none;
  era_id = none;
}

abbrev pub unified_bid : Bytes → BidAddr
unified_bid hash = record (new_bid_addr unified_tag) { unified = some hash }

abbrev pub validator_bid : BidAddrTag → Bytes → BidAddr
validator_bid t hash = record (new_bid_addr t) { validator = some hash }

abbrev pub account_bid : BidAddrTag → Bytes → Bytes → BidAddr
account_bid t v delegator = record (new_bid_addr t) {
  validator = some v;
  delegator_account = some delegator;
}

abbrev pub purse_bid : BidAddrTag → Bytes → Bytes → BidAddr
purse_bid t v purse = record (new_bid_addr t) {
  validator = some v;
  delegator_purse_address = some purse;
}

abbrev pub credit_bid : Bytes → ℤ → BidAddr
credit_bid v era = record (new_bid_addr credit_tag) { validator = some v; era_id = some era }

-- `this.unified!.toBytes()` and `this.validator!.toBytes()`
unfoldable pub one_hash : BidAddrTag → Option Bytes → Result Bytes
one_hash t none = err type_error
one_hash t (some hash) = ok (bid_addr_code t ∷ hash)

-- The branches that write the validator and a delegator's account.
unfoldable pub with_account : BidAddr → Result Bytes
with_account a = elim a.validator [
  | none ↦ err missing_bid_field
  | some v ↦ elim a.delegator_account [
    | none ↦ err missing_bid_field
    | some delegator ↦ ok (bid_addr_code a.tag ∷ v ++ delegator)
  ]
]

-- The branches that write the validator and a purse; the empty text counts as none.
unfoldable pub with_purse : BidAddr → Result Bytes
with_purse a = elim a.validator [
  | none ↦ err missing_bid_field
  | some v ↦ elim a.delegator_purse_address [
    | none ↦ err missing_bid_field
    | some [] ↦ err missing_bid_field
    | some (b ∷ purse) ↦ ok (bid_addr_code a.tag ∷ v ++ b ∷ purse)
  ]
]

-- `writeBigUInt64LE(BigInt(eraId))`; the era 0 counts as none.
unfoldable pub era_id_bytes : Option ℤ → Result Bytes
era_id_bytes none = err missing_bid_field
era_id_bytes (some (pos n)) =
    if ltb 0 n
    then if ltb n (2 ^ 64) then ok (le_bytes 8 n) else err range_error
    else err missing_bid_field
era_id_bytes (some (negsuc n)) = err range_error

unfoldable pub with_era : BidAddr → Result Bytes
with_era a = elim a.validator [
  | none ↦ err missing_bid_field
  | some v ↦ do era ← era_id_bytes a.era_id; ok (bid_addr_code credit_tag ∷ v ++ era)
]

-- `ValidatorRevTag` alone checks that the validator is there.
unfoldable pub with_validator : BidAddr → Result Bytes
with_validator a = elim a.validator [
  | none ↦ err missing_bid_field
  | some v ↦ ok (bid_addr_code a.tag ∷ v)
]

-- `toBytes`
unfoldable pub bid_to_bytes : BidAddr → Result Bytes
bid_to_bytes a = elim a.tag [
  | unified_tag ↦ one_hash unified_tag a.unified
  | validator_tag ↦ one_hash validator_tag a.validator
  | delegated_account_tag ↦ with_account a
  | delegated_purse_tag ↦ with_purse a
  | credit_tag ↦ with_era a
  | reserved_delegation_account_tag ↦ with_account a
  | reserved_delegation_purse_tag ↦ with_purse a
  | unbond_account_tag ↦ with_account a
  | unbond_purse_tag ↦ with_purse a
  | validator_rev_tag ↦ with_validator a
]

-- `parseHashPair`
unfoldable pub parse_hash_pair : Bytes → Parsed (Bytes × Bytes)
parse_hash_pair input = do
  (v, next) ← hash_from_bytes input
  (delegator, rest) ← hash_from_bytes next
  ok ((v, delegator), rest)

-- `parseHexBytesPair`: the purse takes all that follows, and leaves it too.
unfoldable pub parse_hex_bytes_pair : Bytes → Parsed (Bytes × Bytes)
parse_hex_bytes_pair input = do (v, next) ← hash_from_bytes input; ok ((v, next), next)

abbrev pub read_validator : BidAddrTag → Bytes → Parsed BidAddr
read_validator t rem = do (v, rest) ← hash_from_bytes rem; ok (validator_bid t v, rest)

abbrev pub read_account : BidAddrTag → Bytes → Parsed BidAddr
read_account t rem = do
  ((v, delegator), rest) ← parse_hash_pair rem
  ok (account_bid t v delegator, rest)

abbrev pub read_purse : BidAddrTag → Bytes → Parsed BidAddr
read_purse t rem = do ((v, purse), rest) ← parse_hex_bytes_pair rem; ok (purse_bid t v purse, rest)

module _ ⦃e : Ethers⦄ where
  -- `BigNumber.from` of no bytes throws.
  unfoldable pub era_of : Bytes → Result ℤ
  era_of [] = err invalid_number
  era_of (b ∷ bytes) = e.to_number (e.from_bytes (reverse (take 8 (b ∷ bytes))))

  -- The branch of `CreditTag` leaves the bytes of the era too.
  unfoldable pub read_credit : Bytes → Parsed BidAddr
  unfolding era_of
  read_credit rem = do
    (v, next) ← hash_from_bytes rem
    era ← era_of next
    ok (credit_bid v era, next)

  abbrev pub read_bid : BidAddrTag → Bytes → Parsed BidAddr
  read_bid unified_tag rem = do (hash, rest) ← hash_from_bytes rem; ok (unified_bid hash, rest)
  read_bid validator_tag rem = read_validator validator_tag rem
  read_bid delegated_account_tag rem = read_account delegated_account_tag rem
  read_bid delegated_purse_tag rem = read_purse delegated_purse_tag rem
  read_bid credit_tag rem = read_credit rem
  read_bid reserved_delegation_account_tag rem = read_account reserved_delegation_account_tag rem
  read_bid reserved_delegation_purse_tag rem = read_purse reserved_delegation_purse_tag rem
  read_bid unbond_account_tag rem = read_account unbond_account_tag rem
  read_bid unbond_purse_tag rem = read_purse unbond_purse_tag rem
  read_bid validator_rev_tag rem = read_validator validator_rev_tag rem

  -- `fromBytes`
  unfoldable pub bid_from_bytes : Bytes → Parsed BidAddr
  bid_from_bytes [] = err invalid_bid_addr
  bid_from_bytes (tag ∷ rem) =
      if ltb (length (tag ∷ rem)) 33
      then err invalid_bid_addr
      else elim (get_elem? bid_addr_tags tag) [
        | some t ↦ read_bid t rem
        | none ↦ err invalid_bid_addr_tag
      ]
