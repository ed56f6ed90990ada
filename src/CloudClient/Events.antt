-- ===== src/CloudClient/Events.antt =====
-- The main loop of daemon/internal/cloud_client/cloud_client.go over any events.
use observability_cli.Prelude.{
  Bool, false, ◌||◌, ltb, count_if, if◌then◌else◌, if_cases, Option, none, some, List, [], ◌∷◌,
}
use observability_cli.CloudClient.State.{
  CloudClient, Output, sends_diff, rejects_events, uploads_events, is_answer, Event,
  heartbeat_event, long_poll_service_event, change_active_traces_event, registration_request,
  trace_event_request, unregister_client_from_trace,
}
use observability_cli.CloudClient.Handlers.{
  handle_registration, handle_change, handle_trace_events, handle_unregister, handle_long_poll,
  handle_heartbeat,
}

-- event.handle(client), but for the closing of channels.
unfoldable pub handle_event : CloudClient → Event → Option CloudClient
handle_event c heartbeat_event = some (handle_heartbeat c)
handle_event c (long_poll_service_event id) = handle_long_poll c id
handle_event c (change_active_traces_event id diff) = handle_change c id diff
handle_event c (registration_request req) = some (handle_registration c req)
handle_event c (trace_event_request req) = some (handle_trace_events c req)
handle_event c (unregister_client_from_trace name service_id trace_id) =
    some (handle_unregister c name service_id trace_id)

-- Whether the channel of a response has another response behind it.
unfoldable pub answered_again : Output → List Output → Bool
answered_again (sends_diff channel _) later = ltb 0 (count_if (is_answer channel) later)
answered_again (rejects_events channel) later = ltb 0 (count_if (is_answer channel) later)
answered_again (uploads_events req _) later =
    ltb 0 (count_if (is_answer req.response_channel) later)
answered_again _ later = false

unfoldable pub closes_twice : List Output → Bool
closes_twice [] = false
closes_twice (o ∷ outputs) = let rest = closes_twice outputs in answered_again o outputs || rest

-- A channel is closed once its response is sent, by a deferred call of close, or by the goroutine
-- that uploads the events; a second response, or its close, panics.
unfoldable pub close_channels : CloudClient → Option CloudClient
close_channels c = if closes_twice c.outputs then none else some c

-- event.handle(client)
unfoldable pub handle : CloudClient → Event → Option CloudClient
handle c e = elim (handle_event c e) [ none ↦ none | some c' ↦ close_channels c' ]

unfoldable pub run : CloudClient → List Event → Option CloudClient
run c [] = some c
run c (e ∷ es) = elim (handle c e) [ none ↦ none | some c' ↦ run c' es ]

-- What holds of a result after any event is kept by the closing.
pub close_channels-keeps {ℓ} :
    (P : Option CloudClient → Type ℓ) (o : Option CloudClient)
    → P none
    → P o
    → P (elim o [ none ↦ none | some c' ↦ close_channels c' ])
unfolding close_channels
close_channels-keeps P none h k = h
close_channels-keeps P (some c) h k = if_cases P (closes_twice c.outputs) (λ _. h) (λ _. k)
