-- ===== src/CloudClient/Handlers.antt =====
-- The handlers of daemon/internal/cloud_client's events. `none` is a panic. That a response channel is
-- closed after its response, and panics at a second one, is in Events (`close_channels`).
use observability_cli.Prelude.{
  ℕ, suc, Bool, true, false, ◌||◌, ◌&&◌, Option, none, some, List, [], ◌∷◌, ◌++◌, String, nat_eq,
  string_eq, ltb, nat_beq, length, if◌then◌else◌, Map, get, put, delete,
}
use observability_cli.CloudClient.State.{
  LoggingOptions, ActiveTraceDiff, diff_size, TraceInfo, NamedResponseChannel, ServiceInfo,
  TraceEventRequest, RegistrationRequest, Event, long_poll_service_event,
  unregister_client_from_trace, sends_diff, rejects_events, uploads_events, polls, sends_heartbeat,
  CloudClient, put_trace, emit, ensure_service_registered, active_ids, start_trace_event_collector,
  unregister_trace,
}

-- The set of a request's active traces.
unfoldable pub to_set : List ℕ → Map ℕ (Unit {0})
to_set [] = []
to_set (id ∷ ids) = put id tt (to_set ids)

-- Is this trace active, and unknown to the client?
unfoldable pub is_news : Map ℕ (Unit {0}) → ℕ → TraceInfo → Bool
is_news known_traces id trace =
    trace.active && elim (get id known_traces) [ none ↦ true | some _ ↦ false ]

-- The first loop of `getActiveTraceDiff`.
unfoldable pub activated : Map ℕ (Unit {0}) → Map ℕ TraceInfo → List LoggingOptions
activated known_traces [] = []
activated known_traces ((id, trace) ∷ traces) =
    let rest = activated known_traces traces in
    if is_news known_traces id trace then trace.logging_options ∷ rest else rest

-- The second loop.
unfoldable pub deactivated : Map ℕ TraceInfo → Map ℕ (Unit {0}) → List ℕ
deactivated traces [] = []
deactivated traces ((id, _) ∷ known_traces) =
    let rest = deactivated traces known_traces in
    let is_active = (elim (get id traces) as (λ _. Bool) [
      | none ↦ false
      | some trace ↦ trace.active
    ]) in
    if is_active then rest else id ∷ rest

unfoldable pub get_active_trace_diff : ServiceInfo → Map ℕ (Unit {0}) → ActiveTraceDiff
get_active_trace_diff info known_traces = record {
  activated_traces = activated known_traces info.traces;
  deactivated_traces = deactivated info.traces known_traces;
}

-- The loop that registers the client with the traces that the diff activates.
unfoldable pub register_client : String → Map ℕ (Unit {0}) → Map ℕ TraceInfo → Map ℕ TraceInfo
register_client name known_traces [] = []
register_client name known_traces ((id, trace) ∷ traces) =
    (
      id,
      if is_news known_traces id trace
          then record trace { client_names = put name tt trace.client_names }
          else trace,
    )
    ∷ register_client name known_traces traces

unfoldable pub handle_registration : CloudClient → RegistrationRequest → CloudClient
handle_registration c req =
    let (c', info) = ensure_service_registered c req.service_id in
    let known_traces = to_set req.active_traces in
    let diff = get_active_trace_diff info known_traces in
    if nat_beq (diff_size diff) 0
    then record c' {
      service_info_by_id =
          put req.service_id
            (record info {
              response_channels =
                  info.response_channels
                  ++ record { client_name = req.client_name; channel = req.response_channel } ∷ [];
            })
            c'.service_info_by_id;
    }
    else emit
        (record c' {
          service_info_by_id =
              put req.service_id
                (record info { traces = register_client req.client_name known_traces info.traces })
                c'.service_info_by_id;
        })
        (sends_diff req.response_channel diff)

-- The loops of a change of the active traces.
unfoldable pub activate_all : CloudClient → ℕ → List LoggingOptions → CloudClient
activate_all c service_id [] = c
activate_all c service_id (options ∷ rest) =
    activate_all (start_trace_event_collector c service_id options) service_id rest

unfoldable pub deactivate : CloudClient → ℕ → ℕ → CloudClient
deactivate c service_id trace_id = elim (get service_id c.service_info_by_id) [
  | none ↦ c
  | some info ↦ elim (get trace_id info.traces) [
    | none ↦ c
    | some trace ↦
        let c' = put_trace c service_id info trace_id (record trace { active = false }) in
        if ltb 0 (length trace.client_names) then c' else unregister_trace c' service_id trace_id
  ]
]

unfoldable pub deactivate_all : CloudClient → ℕ → List ℕ → CloudClient
deactivate_all c service_id [] = c
deactivate_all c service_id (id ∷ rest) =
    deactivate_all (deactivate c service_id id) service_id rest

-- A client that has waited is registered with an activated trace, wherever that now stands.
unfoldable pub register_waiting : CloudClient → String → LoggingOptions → Option CloudClient
register_waiting c name options = elim (get options.service_id c.service_info_by_id) [
  | none ↦ none
  | some info ↦ elim (get options.trace_id info.traces) [
    | none ↦ some c
    | some trace ↦ some (
        put_trace c options.service_id info options.trace_id
          (record trace { client_names = put name tt trace.client_names }))
  ]
]

unfoldable pub register_waiting_all :
    CloudClient → String → List LoggingOptions → Option CloudClient
register_waiting_all c name [] = some c
register_waiting_all c name (options ∷ rest) = elim (register_waiting c name options) [
  | none ↦ none
  | some c' ↦ register_waiting_all c' name rest
]

unfoldable pub answer_all :
    CloudClient → ActiveTraceDiff → List NamedResponseChannel → Option CloudClient
answer_all c diff [] = some c
answer_all c diff (waiting ∷ rest) =
    elim (register_waiting_all (emit c (sends_diff waiting.channel diff)) waiting.client_name
      diff.activated_traces) [ none ↦ none | some c' ↦ answer_all c' diff rest ]

unfoldable pub schedule : CloudClient → Event → CloudClient
schedule c e = record c { event_channel = c.event_channel ++ e ∷ [] }

-- The answers to all who wait at the service, which are then forgotten.
unfoldable pub answer_waiting : CloudClient → ℕ → ActiveTraceDiff → Option CloudClient
answer_waiting c service_id diff = elim (get service_id c.service_info_by_id) [
  | none ↦ some c
  | some info ↦
      answer_all
        (record c {
          service_info_by_id =
              put service_id (record info { response_channels = [] }) c.service_info_by_id;
        })
        diff info.response_channels
]

unfoldable pub handle_change : CloudClient → ℕ → ActiveTraceDiff → Option CloudClient
handle_change c service_id diff =
    let changed =
      deactivate_all (activate_all c service_id diff.activated_traces) service_id
        diff.deactivated_traces in
    elim (get service_id c.service_info_by_id) [
      | none ↦ some c
      | some _ ↦ elim (answer_waiting changed service_id diff) [
        | none ↦ none
        | some c' ↦ some (schedule c' (long_poll_service_event service_id))
      ]
    ]

unfoldable pub handle_trace_events : CloudClient → TraceEventRequest → CloudClient
handle_trace_events c req = elim (get req.service_id c.service_info_by_id) [
  | none ↦ emit c (rejects_events req.response_channel)
  | some info ↦ elim (get req.trace_id info.traces) [
    | none ↦ emit c (rejects_events req.response_channel)
    | some trace ↦
        emit
          (put_trace c req.service_id info req.trace_id
            (record trace { client_names = put req.client_name tt trace.client_names }))
          (uploads_events req trace.trace_event_channel)
  ]
]

-- The goroutine's status and number of drops; `has_room` says of each event whether the channel had
-- room for it. Afterwards it may schedule that the client is unregistered.
unfoldable pub upload_trace_events : List Bool → ℕ × ℕ
upload_trace_events [] = (202, 0)
upload_trace_events (has_room ∷ rest) =
    let (status, drops) = upload_trace_events rest in
    if has_room then (status, drops) else (422, suc drops)

unfoldable pub finish_upload : CloudClient → TraceEventRequest → CloudClient
finish_upload c req =
    if req.no_more_events
    then schedule c (unregister_client_from_trace req.client_name req.service_id req.trace_id)
    else c

unfoldable pub handle_unregister : CloudClient → String → ℕ → ℕ → CloudClient
handle_unregister c name service_id trace_id = elim (get service_id c.service_info_by_id) [
  | none ↦ c
  | some info ↦ elim (get trace_id info.traces) [
    | none ↦ c
    | some trace ↦
        let names = delete name trace.client_names in
        let c' = put_trace c service_id info trace_id (record trace { client_names = names }) in
        if trace.active || ltb 0 (length names) then c' else unregister_trace c' service_id trace_id
  ]
]

-- A poll for a service that is not registered would panic.
unfoldable pub handle_long_poll : CloudClient → ℕ → Option CloudClient
handle_long_poll c service_id = elim (get service_id c.service_info_by_id) [
  | none ↦ none
  | some info ↦ some (emit c (polls service_id (active_ids info.traces)))
]

unfoldable pub handle_heartbeat : CloudClient → CloudClient
handle_heartbeat c = emit c sends_heartbeat
