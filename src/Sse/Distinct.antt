-- ===== src/Sse/Distinct.antt =====
-- No event has two subscriptions.
use casper_js_sdk.Prelude.{
  ℕ, ◌≡◌, inl, inr, refl, arith, List, [], ◌∷◌, ◌++◌, ◌==◌, Bool, false, ◌||◌, Bool-cases,
}
use casper_js_sdk.Text.{Text}
use casper_js_sdk.Sse.{
  EventName, event_index, same_event, ParsedData, RawEvent, EventSubscription, is_subscribed,
  should_handle_event, subscribe, without_event, unsubscribe, run_events_loop,
}

or_false : (a b : Bool) → (a || b) ≡ false → (a ≡ false) × (b ≡ false)
or_false a b h = (ground arith, ground arith)

equal_comm : (m n : ℕ) → (m == n) ≡ (n == m)
equal_comm m n = ground arith

same_event_comm : (a b : EventName) → same_event b a ≡ same_event a b
unfolding same_event
same_event_comm a b = equal_comm (event_index b) (event_index a)

module _ {H : Type 0} where
  abbrev pub Distinct : List (EventSubscription H) → Type 0
  Distinct [] = Unit
  Distinct (s ∷ subscribed_to) =
      (is_subscribed s.event_name subscribed_to ≡ false) × Distinct subscribed_to

  -- The subscriptions that a client can come to have.
  pub data Reached : List (EventSubscription H) → Type 0 where
    start : Reached []
    subscribed :
        {subs : List (EventSubscription H)} (name : EventName) (handler : H)
        → Reached subs
        → Reached (subscribe name handler subs).0
    unsubscribed :
        {subs : List (EventSubscription H)} (name : EventName)
        → Reached subs
        → Reached (unsubscribe name subs).0

  is_subscribed-append :
      (name : EventName) (subs : List (EventSubscription H)) (s : EventSubscription H)
      → same_event s.event_name name ≡ false
      → is_subscribed name subs ≡ false
      → is_subscribed name (subs ++ s ∷ []) ≡ false
  unfolding is_subscribed
  is_subscribed-append name [] s other h = rw (other)
  is_subscribed-append name (t ∷ subs) s other h =
      let (first, rest) = or_false (same_event t.event_name name) (is_subscribed name subs) h in
      rw (first) (is_subscribed-append name subs s other rest)

  Distinct-append :
      (subs : List (EventSubscription H)) (s : EventSubscription H)
      → is_subscribed s.event_name subs ≡ false
      → Distinct subs
      → Distinct (subs ++ s ∷ [])
  unfolding is_subscribed
  Distinct-append [] s new h = (refl, tt)
  Distinct-append (t ∷ subs) s new (first, h) =
      let (other, rest) =
        or_false (same_event t.event_name s.event_name) (is_subscribed s.event_name subs) new in
      let apart = same_event_comm t.event_name s.event_name in
      (is_subscribed-append t.event_name subs s (cc) first, Distinct-append subs s rest h)

  is_subscribed-without_event :
      (name other : EventName) (subs : List (EventSubscription H))
      → is_subscribed name subs ≡ false
      → is_subscribed name (without_event other subs) ≡ false
  unfolding is_subscribed without_event
  is_subscribed-without_event name other [] h = refl
  is_subscribed-without_event name other (s ∷ subs) h =
      let (first, rest) = or_false (same_event s.event_name name) (is_subscribed name subs) h in
      let behind = is_subscribed-without_event name other subs rest in
      elim (Bool-cases (same_event s.event_name other)) [
        | inl gone ↦ rw (gone) behind
        | inr kept ↦ rw (kept, first) behind
      ]

  without_event-Distinct :
      (name : EventName) (subs : List (EventSubscription H))
      → Distinct subs
      → Distinct (without_event name subs)
  unfolding without_event
  without_event-Distinct name [] h = tt
  without_event-Distinct name (s ∷ subs) (first, h) =
      elim (Bool-cases (same_event s.event_name name)) [
        | inl gone ↦ rw (gone) (without_event-Distinct name subs h)
        | inr kept ↦ rw (kept) (
          is_subscribed-without_event s.event_name name subs first,
          without_event-Distinct name subs h,
        )
      ]

  -- Whatever a client subscribes to and unsubscribes from, in any order and with any result, no
  -- event has two subscriptions.
  pub Reached-Distinct : (subs : List (EventSubscription H)) → Reached subs → Distinct subs
  unfolding subscribe unsubscribe
  Reached-Distinct _ start = tt
  Reached-Distinct _ (subscribed {subs} name handler r) =
      elim (Bool-cases (is_subscribed name subs)) [
        | inl there ↦ rw (there) (Reached-Distinct subs r)
        | inr new ↦ rw (new) (Distinct-append subs _ new (Reached-Distinct subs r))
      ]
  Reached-Distinct _ (unsubscribed {subs} name r) = elim (Bool-cases (is_subscribed name subs)) [
    | inl there ↦ rw (there) (without_event-Distinct name subs (Reached-Distinct subs r))
    | inr new ↦ rw (new) (Reached-Distinct subs r)
  ]

  abbrev pub called : List (EventSubscription H × RawEvent) → List (EventSubscription H)
  called [] = []
  called ((s, event) ∷ calls) = s ∷ called calls

  not_called :
      (parse : Text → ParsedData) (event : RawEvent) (name : EventName)
      (subs : List (EventSubscription H))
      → is_subscribed name subs ≡ false
      → is_subscribed name (called (run_events_loop parse event subs)) ≡ false
  unfolding is_subscribed run_events_loop
  not_called parse event name [] h = refl
  not_called parse event name (s ∷ subs) h =
      let (first, rest) = or_false (same_event s.event_name name) (is_subscribed name subs) h in
      let behind = not_called parse event name subs rest in
      elim (Bool-cases (should_handle_event (parse event.payload) s.event_name)) [
        | inl handled ↦ rw (handled, first) behind
        | inr passed ↦ rw (passed) behind
      ]

  run_events_loop-Distinct :
      (parse : Text → ParsedData) (event : RawEvent) (subs : List (EventSubscription H))
      → Distinct subs
      → Distinct (called (run_events_loop parse event subs))
  unfolding run_events_loop
  run_events_loop-Distinct parse event [] h = tt
  run_events_loop-Distinct parse event (s ∷ subs) (first, h) =
      elim (Bool-cases (should_handle_event (parse event.payload) s.event_name)) [
        | inl handled ↦ rw (handled) (
          not_called parse event s.event_name subs first,
          run_events_loop-Distinct parse event subs h,
        )
        | inr passed ↦ rw (passed) (run_events_loop-Distinct parse event subs h)
      ]

  -- A message of the stream is never told twice to the subscriptions of one event, whatever was
  -- subscribed to and unsubscribed from before.
  pub told_once :
      (parse : Text → ParsedData) (event : RawEvent) (subs : List (EventSubscription H))
      → Reached subs
      → Distinct (called (run_events_loop parse event subs))
  told_once parse event subs r = run_events_loop-Distinct parse event subs (Reached-Distinct subs r)
