-- ===== src/Sse.antt =====
-- src/sse/client.ts and event_parser.ts: subscriptions to an event stream, and what they are told.
pub mod Distinct
use casper_js_sdk.Prelude.{
  ℕ, ◌≡◌, List, [], ◌∷◌, ◌++◌, ◌==◌, Bool, true, false, not, ◌||◌, ◌&&◌, if◌then◌else◌, Option,
  none, some,
}
use casper_js_sdk.Text.{Text, codes}

-- `EventName`
pub data EventName : Type 0 where
  api_version block_added deploy_processed deploy_accepted deploy_expired : EventName
  transaction_processed transaction_accepted transaction_expired event_id : EventName
  finality_signature step_event fault shutdown : EventName

-- A number for each member: their texts are different from each other.
unfoldable pub event_index : EventName → ℕ
event_index api_version = 0
event_index block_added = 1
event_index deploy_processed = 2
event_index deploy_accepted = 3
event_index deploy_expired = 4
event_index transaction_processed = 5
event_index transaction_accepted = 6
event_index transaction_expired = 7
event_index event_id = 8
event_index finality_signature = 9
event_index step_event = 10
event_index fault = 11
event_index shutdown = 12

unfoldable pub same_event : EventName → EventName → Bool
same_event a b = event_index a == event_index b

-- What `JSON.parse` makes of the data of a message: an error, a value that counts as false, or a
-- value with own properties, of which only those named like an event matter.
pub data ParsedData : Type 0 where
  invalid falsy : ParsedData
  own_properties : List EventName → ParsedData

pub record RawEvent : Type 0 where
  pub event_type : Text
  pub payload : Text
  pub last_event_id : Text

-- A handler is a value of any type: what it does is not modelled.
pub record EventSubscription (H : Type 0) : Type 0 where
  pub event_name : EventName
  pub event_handler_fn : H

unfoldable pub has_event : EventName → List EventName → Bool
has_event name [] = false
has_event name (e ∷ events) = same_event e name || has_event name events

-- `shouldHandleEvent`, given what the data was parsed as
unfoldable pub should_handle_event : ParsedData → EventName → Bool
unfolding has_event
should_handle_event invalid name = false
should_handle_event falsy name = false
should_handle_event (own_properties events) name = has_event name events

module _ {H : Type 0} where
  -- `subscribedTo.some(e => e.eventName === eventName)`
  unfoldable pub is_subscribed : EventName → List (EventSubscription H) → Bool
  is_subscribed name [] = false
  is_subscribed name (s ∷ subscribed_to) =
      same_event s.event_name name || is_subscribed name subscribed_to

  -- The subscriptions after `subscribe`, and whether it returned `Ok`
  unfoldable pub subscribe :
      EventName → H → List (EventSubscription H) → List (EventSubscription H) × Bool
  subscribe name handler subscribed_to =
      if is_subscribed name subscribed_to
      then (subscribed_to, false)
      else (subscribed_to ++ record { event_name = name; event_handler_fn = handler } ∷ [], true)

  -- `subscribedTo.filter(e => e.eventName !== eventName)`
  unfoldable pub without_event : EventName → List (EventSubscription H) → List (EventSubscription H)
  without_event name [] = []
  without_event name (s ∷ subscribed_to) =
      let rest = without_event name subscribed_to in
      if same_event s.event_name name then rest else s ∷ rest

  -- `unsubscribe`, likewise
  unfoldable pub unsubscribe :
      EventName → List (EventSubscription H) → List (EventSubscription H) × Bool
  unsubscribe name subscribed_to =
      if not (is_subscribed name subscribed_to)
      then (subscribed_to, false)
      else (without_event name subscribed_to, true)

  -- `runEventsLoop`: the handlers that are called, in order, each with the event
  unfoldable pub run_events_loop :
      (Text → ParsedData)
      → RawEvent
      → List (EventSubscription H)
      → List (EventSubscription H × RawEvent)
  run_events_loop parse event [] = []
  run_events_loop parse event (s ∷ subscribed_to) =
      let rest = run_events_loop parse event subscribed_to in
      if should_handle_event (parse event.payload) s.event_name then (s, event) ∷ rest else rest
