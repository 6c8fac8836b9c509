-- ===== src/Rpc/Calls/Auction.antt =====
-- What is sent where the client asks for the auction.
use casper_js_sdk.Prelude.{◌≡◌, ◌⊎◌, inl, inr, refl, List, [], ◌∷◌, ◌++◌, true, Bool-cases}
use casper_js_sdk.Rpc.{
  RpcRequest, Method, Params, default_rpc_request, Failure, is_method_not_found, ResultType,
  Outcome, failed, done, Node, Answer, check_error, process_request, parse_response, call,
}
use casper_js_sdk.Rpc.Calls.Chain.{
  or_older_after, get_latest_auction_info_v1, get_latest_auction_info_v2, get_latest_auction_info,
}

Outcome-cases :
    {A : Type 0} (o : Outcome A) → ((a : A) × (o ≡ done a)) ⊎ ((f : Failure) × (o ≡ failed f))
Outcome-cases (done a) = inl (a, refl)
Outcome-cases (failed f) = inr (f, refl)

abbrev pub newer_request : RpcRequest
newer_request = default_rpc_request Method.get_auction_info_v2 Params.no_params

abbrev pub older_request : RpcRequest
older_request = default_rpc_request Method.get_auction_info Params.no_params

module _ {J : Type 0} (node : Node J) where
  -- A call sends one request, whatever it comes to.
  call_sends :
      (method : Method) (params : Params) (type_ : ResultType) (sent : List RpcRequest)
      → (call node method params type_ sent).0 ≡ sent ++ default_rpc_request method params ∷ []
  unfolding call process_request parse_response
  call_sends method params type_ sent =
      elim (Outcome-cases
        (check_error node (node.process_call sent (default_rpc_request method params)))) [
          | inl (raw, answered) ↦ rw (answered)
          | inr (failure, refused) ↦ rw (refused)
        ]

  -- getLatestAuctionInfo asks for the auction by state_get_auction_info_v2. It sends nothing more,
  -- or that failed with a message that says that the method was not found, and then it asks once
  -- more, by state_get_auction_info.
  pub get_latest_auction_info_sends :
      (sent : List RpcRequest)
      → ((get_latest_auction_info node sent).0 ≡ sent ++ newer_request ∷ [])
        ⊎ ((failure : Failure) × ((get_latest_auction_info_v2 node sent).1 ≡ failed failure)
            × (is_method_not_found failure ≡ true)
            × ((get_latest_auction_info node sent).0
                ≡ (sent ++ newer_request ∷ []) ++ older_request ∷ []))
  unfolding get_latest_auction_info get_latest_auction_info_v1 get_latest_auction_info_v2
      or_older_after
  get_latest_auction_info_sends sent =
      let first =
        call_sends Method.get_auction_info_v2 Params.no_params ResultType.auction_info_v2_result
          sent in
      let second =
        call_sends Method.get_auction_info Params.no_params ResultType.auction_info_v1_result
          (sent ++ newer_request ∷ []) in
      split
        (call node Method.get_auction_info_v2 Params.no_params ResultType.auction_info_v2_result
          sent)
        first second
    where
      split :
          (r : List RpcRequest × Outcome (Answer J))
          → r.0 ≡ sent ++ newer_request ∷ []
          → (call node Method.get_auction_info Params.no_params ResultType.auction_info_v1_result
              (sent ++ newer_request ∷ [])).0
            ≡ (sent ++ newer_request ∷ []) ++ older_request ∷ []
          → ((or_older_after r (get_latest_auction_info_v1 node)).0 ≡ sent ++ newer_request ∷ [])
            ⊎ ((failure : Failure) × (r.1 ≡ failed failure)
                × (is_method_not_found failure ≡ true)
                × ((or_older_after r (get_latest_auction_info_v1 node)).0
                    ≡ (sent ++ newer_request ∷ []) ++ older_request ∷ []))
      split (sent', done answer) one two = inl one
      split (sent', failed failure) one two = elim (Bool-cases (is_method_not_found failure)) [
        | inl unknown ↦ inr (failure, refl, unknown, rw (unknown, one) two)
        | inr known ↦ inl (rw (known) one)
      ]
