-- ===== src/Examples/Clients.antt =====
-- Runs of the clients: of the node's methods, of a confirmation, and of a stream of events.
use casper_js_sdk.Prelude.{ℕ, zero, suc, ◌+◌, ◌*◌, ◌≡◌, ◌⊎◌, arith, List, [], ◌∷◌, true, none, some}
use casper_js_sdk.Prelude.Int.{negsuc}
use casper_js_sdk.Text.{Text, codes}
use casper_js_sdk.Rpc.{
  Method, RpcResponse, Failure, is_method_not_found, Outcome, failed, done, Node,
}
use casper_js_sdk.Rpc.Calls.Chain.{get_latest_auction_info_v2, get_latest_auction_info}
use casper_js_sdk.Rpc.Calls.Auction.{newer_request, older_request, get_latest_auction_info_sends}
use casper_js_sdk.Rpc.Confirmation.{
  Poll, executed, pending, Polls, wait_for_confirmation, Explains, wait_for_confirmation_lem,
}
use casper_js_sdk.Sse.{
  transaction_processed, fault, ParsedData, own_properties, RawEvent, EventSubscription,
  run_events_loop, subscribe, is_subscribed, same_event, event_index,
}
use casper_js_sdk.Sse.Distinct.{Distinct, start, subscribed, called, told_once}

-- A node of an older version
abbrev answer_of : Method → Outcome (RpcResponse ℕ)
answer_of Method.get_auction_info_v2 = done (record {
  error = some (record { code = negsuc 32600; message = codes "Method not found" });
  result = 0;
})
answer_of _ = done (record { error = none; result = 5 })

abbrev older_node : Node ℕ
older_node = record {
  process_call = λ sent request. answer_of request.method;
  parses = λ type_ json. true;
  state_root = λ json. [];
}

get_latest_auction_info_sends_example :
    ((get_latest_auction_info older_node []).0 ≡ newer_request ∷ [])
    ⊎ ((failure : Failure) × ((get_latest_auction_info_v2 older_node []).1 ≡ failed failure)
        × (is_method_not_found failure ≡ true)
        × ((get_latest_auction_info older_node []).0 ≡ newer_request ∷ older_request ∷ []))
get_latest_auction_info_sends_example = get_latest_auction_info_sends older_node []

-- The fourth call confirms.
abbrev poll_at : ℕ → Poll ℕ
poll_at (suc (suc (suc zero))) = executed 7
poll_at _ = pending

abbrev polls : Polls ℕ
polls = record { poll = poll_at; ended = λ n. n * 400 + 30; spaced = λ n. omega arith }

wait_for_confirmation_lem_example : Explains polls 6000 3 0 0 (wait_for_confirmation polls 6000 3)
wait_for_confirmation_lem_example = wait_for_confirmation_lem polls 6000 3

abbrev parse : Text → ParsedData
parse text = own_properties (transaction_processed ∷ [])

abbrev message : RawEvent
message = record { event_type = codes "message"; payload = codes "{}"; last_event_id = codes "1" }

abbrev two_subscriptions : List (EventSubscription ℕ)
two_subscriptions =
    record { event_name = fault; event_handler_fn = 1 }
    ∷ record { event_name = transaction_processed; event_handler_fn = 2 }
    ∷ []

told_once_example : Distinct (called (run_events_loop parse message two_subscriptions))
unfolding subscribe is_subscribed same_event event_index
told_once_example =
    told_once parse message two_subscriptions
      (subscribed transaction_processed 2 (subscribed fault 1 start))
