-- ===== src/Rpc.antt =====
-- src/rpc/request.ts, and how src/rpc/rpc_client.ts sends a request and reads the answer.
pub mod Calls
pub mod Confirmation
use casper_js_sdk.Prelude.{
  ℕ, ◌≡◌, String, List, [], ◌∷◌, ◌++◌, Bool, true, false, ◌||◌, if◌then◌else◌, Option, none, some,
}
use casper_js_sdk.Prelude.Int.{ℤ}
use casper_js_sdk.Prelude.Words.{Bytes}
use casper_js_sdk.Text.{Text, codes}
use casper_js_sdk.Hex.{starts_with}
use casper_js_sdk.Key.Reference.{URef}
use casper_js_sdk.Key.Entity.{EntityAddr}
use casper_js_sdk.ClValue.Keypair.{PublicKey}
use casper_js_sdk.Transaction.Origin.{TransactionHash}
use casper_js_sdk.Transaction.V1.{TransactionV1}
use casper_js_sdk.Deploy.{Deploy}

-- `Method`, less `SpeculativeExec`, which another client sends
pub data Method : Type 0 where
  get_deploy get_transaction get_state_item query_global_state get_dictionary_item : Method
  get_state_balance get_state_account get_state_entity get_era_info get_block : Method
  get_block_transfers get_era_summary get_auction_info get_auction_info_v2 : Method
  get_validator_changes get_state_root_hash get_status get_reward get_peers : Method
  put_deploy put_transaction query_balance query_balance_details info_get_chainspec : Method

-- The members of the enum.
abbrev pub method_text : Method → String
method_text get_deploy = "info_get_deploy"
method_text get_transaction = "info_get_transaction"
method_text get_state_item = "state_get_item"
method_text query_global_state = "query_global_state"
method_text get_dictionary_item = "state_get_dictionary_item"
method_text get_state_balance = "state_get_balance"
method_text get_state_account = "state_get_account_info"
method_text get_state_entity = "state_get_entity"
method_text get_era_info = "chain_get_era_info_by_switch_block"
method_text get_block = "chain_get_block"
method_text get_block_transfers = "chain_get_block_transfers"
method_text get_era_summary = "chain_get_era_summary"
method_text get_auction_info = "state_get_auction_info"
method_text get_auction_info_v2 = "state_get_auction_info_v2"
method_text get_validator_changes = "info_get_validator_changes"
method_text get_state_root_hash = "chain_get_state_root_hash"
method_text get_status = "info_get_status"
method_text get_reward = "info_get_reward"
method_text get_peers = "info_get_peers"
method_text put_deploy = "account_put_deploy"
method_text put_transaction = "account_put_transaction"
method_text query_balance = "query_balance"
method_text query_balance_details = "query_balance_details"
method_text info_get_chainspec = "info_get_chainspec"

pub record BlockIdentifier : Type 0 where
  pub hash : Option Text
  pub height : Option ℤ

-- `ParamQueryGlobalStateID` and `GlobalStateIdentifier`, which have the same fields
pub record GlobalStateIdentifier : Type 0 where
  pub block_hash : Option Text
  pub block_height : Option ℤ
  pub state_root : Option Text

pub record EraIdentifier : Type 0 where
  pub block : Option BlockIdentifier
  pub era : Option ℤ

pub record EntityIdentifier : Type 0 where
  pub account_hash : Option Bytes
  pub public_key : Option PublicKey
  pub entity_addr : Option EntityAddr

pub record PurseIdentifier : Type 0 where
  pub main_purse_under_public_key : Option PublicKey
  pub main_purse_under_account_hash : Option Bytes
  pub main_purse_under_entity_addr : Option EntityAddr
  pub purse_uref : Option URef

-- `AccountNamedKey` and `ParamDictionaryIdentifierContractNamedKey`
pub record DictionaryNamedKey : Type 0 where
  pub key : Text
  pub dictionary_name : Text
  pub dictionary_item_key : Text

pub record DictionaryUref : Type 0 where
  pub dictionary_item_key : Text
  pub seed_uref : Text

-- `ParamDictionaryIdentifier`
pub record DictionaryIdentifier : Type 0 where
  pub account_named_key : Option DictionaryNamedKey
  pub contract_named_key : Option DictionaryNamedKey
  pub uref : Option DictionaryUref
  pub dictionary : Option Text

-- The parameters of a request, with a constructor for each of the classes of request.ts. A flag of
-- finalized approvals is true or undefined.
pub data Params : Type 0 where
  no_params : Params
  deploy_hash : Text → Bool → Params
  transaction_hash : TransactionHash → Bool → Params
  state_root_hash : Text → Text → List Text → Params
  global_state : Option GlobalStateIdentifier → Text → List Text → Params
  state_entity : EntityIdentifier → Option BlockIdentifier → Params
  account_info : Text → Option BlockIdentifier → Params
  block : BlockIdentifier → Params
  dictionary : Text → DictionaryIdentifier → Params
  state_balance : Text → Text → Params
  balance : PurseIdentifier → Option GlobalStateIdentifier → Params
  reward : PublicKey → Option PublicKey → Option EraIdentifier → Params
  deploy : Deploy → Params
  transaction_wrapper : Option Deploy → Option TransactionV1 → Params

pub record RpcRequest : Type 0 where
  pub version : String
  pub method : Method
  pub params : Params
  pub id : String

-- `RpcRequest.defaultRpcRequest`
abbrev pub default_rpc_request : Method → Params → RpcRequest
default_rpc_request method params = record {
  version = "2.0";
  method = method;
  params = params;
  id = "1";
}

-- `BlockIdentifier`s by hash and by height
abbrev pub by_hash : Text → BlockIdentifier
by_hash hash = record { hash = some hash; height = none }

abbrev pub by_height : ℤ → BlockIdentifier
by_height height = record { hash = none; height = some height }

pub record RpcError : Type 0 where
  pub code : ℤ
  pub message : Text

-- What a call throws: an `HttpError` of a code and the message of its source, or another error.
pub data Failure : Type 0 where
  http_error : ℤ → Text → Failure
  thrown : Text → Failure

pub record RpcResponse (J : Type 0) : Type 0 where
  pub error : Option RpcError
  pub result : J

-- The class that a result is parsed as.
pub data ResultType : Type 0 where
  get_deploy_result get_transaction_result state_get_item_result : ResultType
  query_global_state_result state_get_entity_result state_get_account_info : ResultType
  state_get_dictionary_result state_get_balance_result chain_get_era_info_result : ResultType
  chain_get_block_result chain_get_block_transfers_result chain_get_era_summary_result : ResultType
  auction_info_v1_result auction_info_v2_result state_root_hash_result : ResultType
  validator_changes_result get_status_result get_peer_result put_deploy_result : ResultType
  put_transaction_result query_balance_result query_balance_details_result : ResultType
  chainspec_result get_reward_result : ResultType

pub data Outcome {ℓ} (A : Type ℓ) : Type ℓ where
  failed : Failure → Outcome A
  done : A → Outcome A

-- The handler of requests, which may answer by what was sent before, and the parser of results. `J`
-- is the type of JSON values; `state_root` is the text of `stateRootHash` of a parsed result.
pub record Node (J : Type 0) : Type 0 where
  pub process_call : List RpcRequest → RpcRequest → Outcome (RpcResponse J)
  pub parses : ResultType → J → Bool
  pub state_root : J → Text

-- A parsed result, with its `rawJSON`. The conversion to classes of other versions is left out.
pub record Answer (J : Type 0) : Type 0 where
  pub type_ : ResultType
  pub raw : J

-- A method of the client: what it sends is put behind what was sent before.
abbrev pub Call {ℓ} : Type ℓ → Type ℓ
Call A = List RpcRequest → List RpcRequest × Outcome A

abbrev pub and_then {ℓ ℓ'} :
    {A : Type ℓ} {B : Type ℓ'}
    → List RpcRequest × Outcome A
    → (A → Call B)
    → List RpcRequest × Outcome B
and_then (sent, failed f) next = (sent, failed f)
and_then (sent, done a) next = next a sent

infixl 5 ◌>>=◌
abbrev pub ◌>>=◌ {ℓ ℓ'} : {A : Type ℓ} {B : Type ℓ'} → Call A → (A → Call B) → Call B
call >>= next = λ sent. and_then (call sent) next

abbrev pub throw {ℓ} : {A : Type ℓ} → Failure → Call A
throw failure = λ sent. (sent, failed failure)

-- `errorMessage.includes(text)`; the text of an `HttpError` is that of its source behind a prefix
-- without a capital M.
unfoldable pub includes : Text → Text → Bool
includes [] text = starts_with [] text
includes (c ∷ message) text = starts_with (c ∷ message) text || includes message text

abbrev pub message_of : Failure → Text
message_of (http_error code message) = message
message_of (thrown message) = message

unfoldable pub is_method_not_found : Failure → Bool
is_method_not_found failure = includes (message_of failure) (codes "Method not found")

module _ {J : Type 0} (node : Node J) where
  -- The part of `processRequest` behind the call: an error of the node is thrown.
  unfoldable pub check_error : Outcome (RpcResponse J) → Outcome J
  check_error (failed failure) = failed failure
  check_error (done response) = elim response.error [
    | some error ↦ failed (http_error error.code error.message)
    | none ↦ done response.result
  ]

  -- `processRequest`; no method gives an id of its own.
  unfoldable pub process_request : Method → Params → Call J
  process_request method params = λ sent.
      let request = default_rpc_request method params in
      (sent ++ request ∷ [], check_error (node.process_call sent request))

  -- `parseResponse`; its message has the name of the class too.
  unfoldable pub parse_response : ResultType → J → Call (Answer J)
  parse_response type_ raw = λ sent. (
    sent,
    if node.parses type_ raw
        then done (record { type_ = type_; raw = raw })
        else failed (thrown (codes "Error parsing response data")),
  )

  -- What the methods have in common
  unfoldable pub call : Method → Params → ResultType → Call (Answer J)
  call method params type_ = process_request method params >>= parse_response type_
