-- ===== src/Rpc/Calls/Chain.antt =====
-- src/rpc/rpc_client.ts: the queries of blocks, eras, auctions, balances and rewards, and the sending of
-- transactions. Each definition is the method of that name.
use casper_js_sdk.Prelude.{List, none, some, if◌then◌else◌}
use casper_js_sdk.Prelude.Int.{ℤ}
use casper_js_sdk.Text.{Text}
use casper_js_sdk.ClValue.Keypair.{PublicKey}
use casper_js_sdk.Deploy.{Deploy}
use casper_js_sdk.Transaction.Origin.{Transaction}
use casper_js_sdk.Rpc.{
  RpcRequest, Method, BlockIdentifier, EraIdentifier, PurseIdentifier, Params, by_hash, by_height,
  is_method_not_found, ResultType, Outcome, failed, done, Node, Answer, Call, call,
}
use casper_js_sdk.Rpc.Calls.{state_by_hash, state_by_height, state_by_root}

abbrev pub era_of_block : BlockIdentifier → EraIdentifier
era_of_block block = record { block = some block; era = none }

-- What the methods do that catch: where the node does not know a method, it is asked by the older
-- one, and any other error is thrown again. The conversion of the result is left out.
unfoldable pub or_older_after :
    {A : Type 0} → List RpcRequest × Outcome A → Call A → List RpcRequest × Outcome A
or_older_after (sent, done a) older = (sent, done a)
or_older_after (sent, failed failure) older =
    if is_method_not_found failure then older sent else (sent, failed failure)

abbrev pub or_older : {A : Type 0} → Call A → Call A → Call A
or_older newer older = λ sent. or_older_after (newer sent) older

module _ {J : Type 0} (node : Node J) where
  unfoldable pub get_era_info_latest : Call (Answer J)
  get_era_info_latest =
      call node Method.get_era_info Params.no_params ResultType.chain_get_era_info_result

  unfoldable pub get_era_info_by_block_height : ℤ → Call (Answer J)
  get_era_info_by_block_height height =
      call node Method.get_era_info (Params.block (by_height height))
        ResultType.chain_get_era_info_result

  unfoldable pub get_era_info_by_block_hash : Text → Call (Answer J)
  get_era_info_by_block_hash hash =
      call node Method.get_era_info (Params.block (by_hash hash))
        ResultType.chain_get_era_info_result

  unfoldable pub get_latest_block : Call (Answer J)
  get_latest_block = call node Method.get_block Params.no_params ResultType.chain_get_block_result

  unfoldable pub get_block_by_hash : Text → Call (Answer J)
  get_block_by_hash hash =
      call node Method.get_block (Params.block (by_hash hash)) ResultType.chain_get_block_result

  unfoldable pub get_block_by_height : ℤ → Call (Answer J)
  get_block_by_height height =
      call node Method.get_block (Params.block (by_height height)) ResultType.chain_get_block_result

  unfoldable pub get_latest_block_transfers : Call (Answer J)
  get_latest_block_transfers =
      call node Method.get_block_transfers Params.no_params
        ResultType.chain_get_block_transfers_result

  unfoldable pub get_block_transfers_by_hash : Text → Call (Answer J)
  get_block_transfers_by_hash hash =
      call node Method.get_block_transfers (Params.block (by_hash hash))
        ResultType.chain_get_block_transfers_result

  unfoldable pub get_block_transfers_by_height : ℤ → Call (Answer J)
  get_block_transfers_by_height height =
      call node Method.get_block_transfers (Params.block (by_height height))
        ResultType.chain_get_block_transfers_result

  unfoldable pub get_era_summary_latest : Call (Answer J)
  get_era_summary_latest =
      call node Method.get_era_summary Params.no_params ResultType.chain_get_era_summary_result

  unfoldable pub get_era_summary_by_hash : Text → Call (Answer J)
  get_era_summary_by_hash hash =
      call node Method.get_era_summary (Params.block (by_hash hash))
        ResultType.chain_get_era_summary_result

  unfoldable pub get_era_summary_by_height : ℤ → Call (Answer J)
  get_era_summary_by_height height =
      call node Method.get_era_summary (Params.block (by_height height))
        ResultType.chain_get_era_summary_result

  unfoldable pub get_latest_auction_info_v1 : Call (Answer J)
  get_latest_auction_info_v1 =
      call node Method.get_auction_info Params.no_params ResultType.auction_info_v1_result

  unfoldable pub get_auction_info_v1_by_hash : Text → Call (Answer J)
  get_auction_info_v1_by_hash hash =
      call node Method.get_auction_info (Params.block (by_hash hash))
        ResultType.auction_info_v1_result

  unfoldable pub get_auction_info_v1_by_height : ℤ → Call (Answer J)
  get_auction_info_v1_by_height height =
      call node Method.get_auction_info (Params.block (by_height height))
        ResultType.auction_info_v1_result

  unfoldable pub get_latest_auction_info_v2 : Call (Answer J)
  get_latest_auction_info_v2 =
      call node Method.get_auction_info_v2 Params.no_params ResultType.auction_info_v2_result

  unfoldable pub get_auction_info_v2_by_hash : Text → Call (Answer J)
  get_auction_info_v2_by_hash hash =
      call node Method.get_auction_info_v2 (Params.block (by_hash hash))
        ResultType.auction_info_v2_result

  unfoldable pub get_auction_info_v2_by_height : ℤ → Call (Answer J)
  get_auction_info_v2_by_height height =
      call node Method.get_auction_info_v2 (Params.block (by_height height))
        ResultType.auction_info_v2_result

  unfoldable pub get_latest_auction_info : Call (Answer J)
  unfolding get_latest_auction_info_v2 get_latest_auction_info_v1
  get_latest_auction_info = or_older get_latest_auction_info_v2 get_latest_auction_info_v1

  unfoldable pub get_auction_info_by_hash : Text → Call (Answer J)
  unfolding get_auction_info_v2_by_hash get_auction_info_v1_by_hash
  get_auction_info_by_hash hash =
      or_older (get_auction_info_v2_by_hash hash) (get_auction_info_v1_by_hash hash)

  unfoldable pub get_auction_info_by_height : ℤ → Call (Answer J)
  unfolding get_auction_info_v2_by_height get_auction_info_v1_by_height
  get_auction_info_by_height height =
      or_older (get_auction_info_v2_by_height height) (get_auction_info_v1_by_height height)

  unfoldable pub get_validator_changes_info : Call (Answer J)
  get_validator_changes_info =
      call node Method.get_validator_changes Params.no_params ResultType.validator_changes_result

  unfoldable pub get_status : Call (Answer J)
  get_status = call node Method.get_status Params.no_params ResultType.get_status_result

  unfoldable pub get_peers : Call (Answer J)
  get_peers = call node Method.get_peers Params.no_params ResultType.get_peer_result

  unfoldable pub put_deploy : Deploy → Call (Answer J)
  put_deploy d = call node Method.put_deploy (Params.deploy d) ResultType.put_deploy_result

  unfoldable pub put_transaction : Transaction → Call (Answer J)
  put_transaction t =
      call node Method.put_transaction
        (Params.transaction_wrapper t.origin_deploy_v1 t.origin_transaction_v1)
        ResultType.put_transaction_result

  unfoldable pub query_latest_balance : PurseIdentifier → Call (Answer J)
  query_latest_balance purse =
      call node Method.query_balance (Params.balance purse none) ResultType.query_balance_result

  unfoldable pub query_balance_by_block_height : PurseIdentifier → ℤ → Call (Answer J)
  query_balance_by_block_height purse height =
      call node Method.query_balance (Params.balance purse (some (state_by_height height)))
        ResultType.query_balance_result

  unfoldable pub query_balance_by_block_hash : PurseIdentifier → Text → Call (Answer J)
  query_balance_by_block_hash purse hash =
      call node Method.query_balance (Params.balance purse (some (state_by_hash hash)))
        ResultType.query_balance_result

  unfoldable pub query_balance_by_state_root_hash : PurseIdentifier → Text → Call (Answer J)
  query_balance_by_state_root_hash purse root =
      call node Method.query_balance (Params.balance purse (some (state_by_root root)))
        ResultType.query_balance_result

  unfoldable pub query_latest_balance_details : PurseIdentifier → Call (Answer J)
  query_latest_balance_details purse =
      call node Method.query_balance_details (Params.balance purse none)
        ResultType.query_balance_details_result

  unfoldable pub query_balance_details_by_block_height : PurseIdentifier → ℤ → Call (Answer J)
  query_balance_details_by_block_height purse height =
      call node Method.query_balance_details (Params.balance purse (some (state_by_height height)))
        ResultType.query_balance_details_result

  unfoldable pub query_balance_details_by_block_hash : PurseIdentifier → Text → Call (Answer J)
  query_balance_details_by_block_hash purse hash =
      call node Method.query_balance_details (Params.balance purse (some (state_by_hash hash)))
        ResultType.query_balance_details_result

  unfoldable pub query_balance_details_by_state_root_hash : PurseIdentifier → Text → Call (Answer J)
  query_balance_details_by_state_root_hash purse root =
      call node Method.query_balance_details (Params.balance purse (some (state_by_root root)))
        ResultType.query_balance_details_result

  unfoldable pub get_chainspec : Call (Answer J)
  get_chainspec = call node Method.info_get_chainspec Params.no_params ResultType.chainspec_result

  unfoldable pub get_validator_reward_by_era_id : PublicKey → ℤ → Call (Answer J)
  get_validator_reward_by_era_id validator era =
      call node Method.get_reward
        (Params.reward validator none (some (record { block = none; era = some era })))
        ResultType.get_reward_result

  unfoldable pub get_validator_reward_by_block_hash : PublicKey → Text → Call (Answer J)
  get_validator_reward_by_block_hash validator hash =
      call node Method.get_reward
        (Params.reward validator none (some (era_of_block (by_hash hash))))
        ResultType.get_reward_result

  unfoldable pub get_validator_reward_by_block_height : PublicKey → ℤ → Call (Answer J)
  get_validator_reward_by_block_height validator height =
      call node Method.get_reward
        (Params.reward validator none (some (era_of_block (by_height height))))
        ResultType.get_reward_result

  unfoldable pub get_latest_validator_reward : PublicKey → Call (Answer J)
  get_latest_validator_reward validator =
      call node Method.get_reward (Params.reward validator none none) ResultType.get_reward_result

  unfoldable pub get_delegator_reward_by_era_id : PublicKey → PublicKey → ℤ → Call (Answer J)
  get_delegator_reward_by_era_id validator delegator era =
      call node Method.get_reward
        (Params.reward validator (some delegator) (some (record { block = none; era = some era })))
        ResultType.get_reward_result

  unfoldable pub get_delegator_reward_by_block_hash : PublicKey → PublicKey → Text → Call (Answer J)
  get_delegator_reward_by_block_hash validator delegator hash =
      call node Method.get_reward
        (Params.reward validator (some delegator) (some (era_of_block (by_hash hash))))
        ResultType.get_reward_result

  unfoldable pub get_delegator_reward_by_block_height : PublicKey → PublicKey → ℤ → Call (Answer J)
  get_delegator_reward_by_block_height validator delegator height =
      call node Method.get_reward
        (Params.reward validator (some delegator) (some (era_of_block (by_height height))))
        ResultType.get_reward_result

  unfoldable pub get_latest_delegator_reward : PublicKey → PublicKey → Call (Answer J)
  get_latest_delegator_reward validator delegator =
      call node Method.get_reward (Params.reward validator (some delegator) none)
        ResultType.get_reward_result
