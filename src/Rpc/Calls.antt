-- ===== src/Rpc/Calls.antt =====
-- src/rpc/rpc_client.ts: the queries of transactions, the global state and accounts. Each definition is
-- the method of that name.
pub mod Chain
pub mod Auction
use casper_js_sdk.Prelude.{
  ℕ, ◌≡◌, List, [], ◌∷◌, ◌++◌, Bool, true, false, Option, none, some, ok, err,
}
use casper_js_sdk.Prelude.Int.{ℤ}
use casper_js_sdk.Prelude.Words.{Bytes}
use casper_js_sdk.Text.{Text, codes}
use casper_js_sdk.Hex.{to_hex, hash_from_hex}
use casper_js_sdk.ClValue.Keypair.{PublicKey}
use casper_js_sdk.Transaction.EntryPoint.{truthy}
use casper_js_sdk.Transaction.V1.{public_key_hex}
use casper_js_sdk.Transaction.Origin.{from_deploy_hash, from_transaction_hash}
use casper_js_sdk.Rpc.{
  Method, BlockIdentifier, GlobalStateIdentifier, EntityIdentifier, DictionaryIdentifier, Params,
  by_hash, by_height, thrown, ResultType, done, Node, Answer, Call, and_then, ◌>>=◌, throw, call,
}

pub record AccountIdentifier : Type 0 where
  pub account_hash : Option Bytes
  pub public_key : Option PublicKey

abbrev pub state_by_hash : Text → GlobalStateIdentifier
state_by_hash hash = record { block_hash = some hash; block_height = none; state_root = none }

abbrev pub state_by_height : ℤ → GlobalStateIdentifier
state_by_height height = record { block_hash = none; block_height = some height; state_root = none }

abbrev pub state_by_root : Text → GlobalStateIdentifier
state_by_root root = record { block_hash = none; block_height = none; state_root = some root }

-- `Hash.fromHex` of a parameter
unfoldable pub hash_param : Text → Call Bytes
hash_param source = elim (hash_from_hex source) [
  | ok hash ↦ λ sent. (sent, done hash)
  | err x ↦ throw (thrown (codes "Invalid hash"))
]

-- `toHex` of a key
unfoldable pub key_param : PublicKey → Call Text
key_param key = elim (public_key_hex key) [
  | ok hex ↦ λ sent. (sent, done hex)
  | err x ↦ throw (thrown (codes "Public key initialised incorrectly. Missing key"))
]

-- The text of an account: its hash behind a prefix, or else its key
unfoldable pub account_param : AccountIdentifier → Call Text
unfolding key_param
account_param identifier = elim identifier.account_hash [
  | some hash ↦ λ sent. (sent, done (codes "account-hash-" ++ to_hex hash))
  | none ↦ elim identifier.public_key [
    | some key ↦ key_param key
    | none ↦ throw (thrown (codes "account identifier is empty"))
  ]
]

module _ {J : Type 0} (node : Node J) where
  unfoldable pub get_deploy : Text → Call (Answer J)
  get_deploy hash =
      call node Method.get_deploy (Params.deploy_hash hash false) ResultType.get_deploy_result

  unfoldable pub get_deploy_finalized_approval : Text → Call (Answer J)
  get_deploy_finalized_approval hash =
      call node Method.get_deploy (Params.deploy_hash hash true) ResultType.get_deploy_result

  unfoldable pub get_transaction_by_transaction_hash : Text → Call (Answer J)
  get_transaction_by_transaction_hash source = do
    hash ← hash_param source
    call node Method.get_transaction (Params.transaction_hash (from_transaction_hash hash) false)
        ResultType.get_transaction_result

  unfoldable pub get_transaction_by_deploy_hash : Text → Call (Answer J)
  get_transaction_by_deploy_hash source = do
    hash ← hash_param source
    call node Method.get_transaction (Params.transaction_hash (from_deploy_hash hash) false)
        ResultType.get_transaction_result

  unfoldable pub get_transaction_finalized_approval_by_transaction_hash : Text → Call (Answer J)
  get_transaction_finalized_approval_by_transaction_hash source = do
    hash ← hash_param source
    call node Method.get_transaction (Params.transaction_hash (from_transaction_hash hash) true)
        ResultType.get_transaction_result

  unfoldable pub get_transaction_finalized_approval_by_deploy_hash : Text → Call (Answer J)
  get_transaction_finalized_approval_by_deploy_hash source = do
    hash ← hash_param source
    call node Method.get_transaction (Params.transaction_hash (from_deploy_hash hash) true)
        ResultType.get_transaction_result

  unfoldable pub get_state_root_hash_latest : Call (Answer J)
  get_state_root_hash_latest =
      call node Method.get_state_root_hash Params.no_params ResultType.state_root_hash_result

  unfoldable pub get_state_root_hash_by_hash : Text → Call (Answer J)
  get_state_root_hash_by_hash hash =
      call node Method.get_state_root_hash (Params.block (by_hash hash))
        ResultType.state_root_hash_result

  unfoldable pub get_state_root_hash_by_height : ℤ → Call (Answer J)
  get_state_root_hash_by_height height =
      call node Method.get_state_root_hash (Params.block (by_height height))
        ResultType.state_root_hash_result

  -- The root hash that is given, or, where it is null or empty, the latest one
  unfoldable pub latest_root : Option Text → Call Text
  unfolding get_state_root_hash_latest
  latest_root given = elim (truthy given) [
    | some hash ↦ λ sent. (sent, done hash)
    | none ↦ do
      answer ← get_state_root_hash_latest
      λ sent. (sent, done (node.state_root answer.raw))
  ]

  unfoldable pub get_state_item : Option Text → Text → List Text → Call (Answer J)
  unfolding latest_root
  get_state_item state_root_hash key path = do
    root ← latest_root state_root_hash
    call node Method.get_state_item (Params.state_root_hash root key path)
        ResultType.state_get_item_result

  unfoldable pub query_latest_global_state : Text → List Text → Call (Answer J)
  query_latest_global_state key path =
      call node Method.query_global_state (Params.global_state none key path)
        ResultType.query_global_state_result

  unfoldable pub query_global_state_by_block_hash : Text → Text → List Text → Call (Answer J)
  query_global_state_by_block_hash hash key path =
      call node Method.query_global_state (Params.global_state (some (state_by_hash hash)) key path)
        ResultType.query_global_state_result

  unfoldable pub query_global_state_by_block_height : ℤ → Text → List Text → Call (Answer J)
  query_global_state_by_block_height height key path =
      call node Method.query_global_state
        (Params.global_state (some (state_by_height height)) key path)
        ResultType.query_global_state_result

  unfoldable pub query_global_state_by_state_hash : Option Text → Text → List Text → Call (Answer J)
  query_global_state_by_state_hash state_root_hash key path = elim (truthy state_root_hash) [
    | none ↦
        call node Method.query_global_state (Params.global_state none key path)
          ResultType.query_global_state_result
    | some root ↦
        call node Method.query_global_state
          (Params.global_state (some (state_by_root root)) key path)
          ResultType.query_global_state_result
  ]

  unfoldable pub get_latest_entity : EntityIdentifier → Call (Answer J)
  get_latest_entity identifier =
      call node Method.get_state_entity (Params.state_entity identifier none)
        ResultType.state_get_entity_result

  unfoldable pub get_entity_by_block_hash : EntityIdentifier → Text → Call (Answer J)
  get_entity_by_block_hash identifier hash =
      call node Method.get_state_entity (Params.state_entity identifier (some (by_hash hash)))
        ResultType.state_get_entity_result

  unfoldable pub get_entity_by_block_height : EntityIdentifier → ℤ → Call (Answer J)
  get_entity_by_block_height identifier height =
      call node Method.get_state_entity (Params.state_entity identifier (some (by_height height)))
        ResultType.state_get_entity_result

  unfoldable pub get_account_info_by_block_hash : Text → PublicKey → Call (Answer J)
  get_account_info_by_block_hash hash key = do
    account ← key_param key
    call node Method.get_state_account (Params.account_info account (some (by_hash hash)))
        ResultType.state_get_account_info

  unfoldable pub get_account_info_by_block_height : ℤ → PublicKey → Call (Answer J)
  get_account_info_by_block_height height key = do
    account ← key_param key
    call node Method.get_state_account (Params.account_info account (some (by_height height)))
        ResultType.state_get_account_info

  unfoldable pub get_account_info : Option BlockIdentifier → AccountIdentifier → Call (Answer J)
  get_account_info block account_identifier = do
    account ← account_param account_identifier
    call node Method.get_state_account (Params.account_info account block)
        ResultType.state_get_account_info

  unfoldable pub get_dictionary_item_by_identifier :
      Option Text → DictionaryIdentifier → Call (Answer J)
  unfolding latest_root
  get_dictionary_item_by_identifier state_root_hash identifier = do
    root ← latest_root state_root_hash
    call node Method.get_dictionary_item (Params.dictionary root identifier)
        ResultType.state_get_dictionary_result

  unfoldable pub get_dictionary_item : Option Text → Text → Text → Call (Answer J)
  unfolding get_dictionary_item_by_identifier
  get_dictionary_item state_root_hash uref key =
      get_dictionary_item_by_identifier state_root_hash (record {
        account_named_key = none;
        contract_named_key = none;
        uref = some (record { dictionary_item_key = key; seed_uref = uref });
        dictionary = none;
      })

  unfoldable pub get_latest_balance : Text → Call (Answer J)
  unfolding get_state_root_hash_latest
  get_latest_balance purse = do
    answer ← get_state_root_hash_latest
    call node Method.get_state_balance (Params.state_balance (node.state_root answer.raw) purse)
        ResultType.state_get_balance_result

  unfoldable pub get_balance_by_state_root_hash : Text → Text → Call (Answer J)
  get_balance_by_state_root_hash purse root =
      call node Method.get_state_balance (Params.state_balance root purse)
        ResultType.state_get_balance_result
