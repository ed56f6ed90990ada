-- ===== src/CloudClient/Invariant.antt =====
-- Why daemon/internal/cloud_client keeps a trace, after any events.
use mathlib.Core.Path.{subst}
use observability_cli.Prelude.{
  ℕ, ◌≡◌, inr, ◌||◌, Option, none, some, List, [], ◌∷◌, String, nat_eq, string_eq, ltb, nat_beq,
  length, Map, get, delete, All, All-put, All-get, arith, if_cases, option_cases,
}
use observability_cli.CloudClient.State.{
  LoggingOptions, ActiveTraceDiff, TraceInfo, NamedResponseChannel, ServiceInfo, TraceEventRequest,
  RegistrationRequest, Event, heartbeat_event, long_poll_service_event, change_active_traces_event,
  registration_request, trace_event_request, unregister_client_from_trace, sends_diff, diff_size,
  CloudClient, new_cloud_client, new_service_info, emit, ensure_service_registered,
}
use observability_cli.CloudClient.Handlers.{
  is_news, get_active_trace_diff, register_client, to_set, handle_registration, activate_all,
  deactivate_all, register_waiting, register_waiting_all, answer_all, answer_waiting, schedule,
  handle_change, handle_trace_events, handle_unregister, handle_long_poll, handle_heartbeat,
}
use observability_cli.CloudClient.Events.{handle_event, handle, close_channels-keeps, run}
use observability_cli.CloudClient.Needed.{
  IsNeeded, AllNeeded, Inv, put_trace-Inv, unregister_written-Inv, activate_all-Inv,
  deactivate_all-Inv, put-nonempty, add_client-Inv,
}

-- Every state that an operation may reach, if it does not panic.
abbrev Keeps : Option CloudClient → Type 0
Keeps o = elim o [ none ↦ Unit | some c ↦ Inv c ]

register_waiting-Inv :
    (c : CloudClient) (name : String) (options : LoggingOptions)
    → Inv c
    → Keeps (register_waiting c name options)
unfolding register_waiting
register_waiting-Inv c name options v =
    option_cases Keeps (get options.service_id c.service_info_by_id) (λ _. tt)
      λ info e.
        option_cases Keeps (get options.trace_id info.traces) (λ _. v)
          λ trace _. add_client-Inv c options.service_id info options.trace_id trace name v e

register_waiting_all-Inv :
    (c : CloudClient) (name : String) (options : List LoggingOptions)
    → Inv c
    → Keeps (register_waiting_all c name options)
unfolding register_waiting_all
register_waiting_all-Inv c name [] v = v
register_waiting_all-Inv c name (o ∷ rest) v =
    option_cases Keeps (register_waiting c name o) (λ _. tt)
      λ c' e.
        register_waiting_all-Inv c' name rest (subst Keeps e (register_waiting-Inv c name o v))

answer_all-Inv :
    (c : CloudClient) (diff : ActiveTraceDiff) (waiting : List NamedResponseChannel)
    → Inv c
    → Keeps (answer_all c diff waiting)
unfolding answer_all
answer_all-Inv c diff [] v = v
answer_all-Inv c diff (w ∷ rest) v =
    let sent = emit c (sends_diff w.channel diff) in
    option_cases Keeps (register_waiting_all sent w.client_name diff.activated_traces) (λ _. tt)
      λ c' e. answer_all-Inv c' diff rest (
        subst Keeps e
          (register_waiting_all-Inv sent w.client_name diff.activated_traces (unfold emit in v)))

answer_waiting-Inv :
    (c : CloudClient) (s : ℕ) (diff : ActiveTraceDiff) → Inv c → Keeps (answer_waiting c s diff)
unfolding answer_waiting
answer_waiting-Inv c s diff v =
    option_cases Keeps (get s c.service_info_by_id) (λ _. v)
      λ info e. answer_all-Inv _ diff info.response_channels (
        All-put AllNeeded s _ c.service_info_by_id
          (All-get AllNeeded s info c.service_info_by_id v e) v)

handle_change-Inv :
    (c : CloudClient) (s : ℕ) (diff : ActiveTraceDiff) → Inv c → Keeps (handle_change c s diff)
unfolding handle_change schedule
handle_change-Inv c s diff v =
    let activated = activate_all c s diff.activated_traces in
    let changed = deactivate_all activated s diff.deactivated_traces in
    option_cases Keeps (get s c.service_info_by_id) (λ _. v)
      λ info _.
        option_cases Keeps (answer_waiting changed s diff) (λ _. tt)
          λ c' e. subst Keeps e (
            answer_waiting-Inv changed s diff (
              deactivate_all-Inv activated s diff.deactivated_traces
                (activate_all-Inv c s diff.activated_traces v)))

handle_trace_events-Inv :
    (c : CloudClient) (req : TraceEventRequest) → Inv c → Inv (handle_trace_events c req)
unfolding handle_trace_events emit
handle_trace_events-Inv c req v =
    option_cases Inv (get req.service_id c.service_info_by_id) (λ _. v)
      λ info e.
        option_cases Inv (get req.trace_id info.traces) (λ _. v)
          λ trace _. add_client-Inv c req.service_id info req.trace_id trace req.client_name v e

handle_unregister-Inv :
    (c : CloudClient) (name : String) (s t : ℕ) → Inv c → Inv (handle_unregister c name s t)
unfolding handle_unregister
handle_unregister-Inv c name s t v =
    option_cases Inv (get s c.service_info_by_id) (λ _. v)
      λ info e.
        option_cases Inv (get t info.traces) (λ _. v)
          λ trace _.
            let left : TraceInfo = record trace { client_names = delete name trace.client_names } in
            if_cases Inv (trace.active || ltb 0 (length left.client_names))
              (λ needed. put_trace-Inv c s info t left v e (ground (arith, needed)))
              (λ not_needed. unregister_written-Inv c s info t left v e not_needed)

register_client-All :
    (name : String) (known : Map ℕ (Unit {0})) (traces : Map ℕ TraceInfo)
    → All IsNeeded traces
    → All IsNeeded (register_client name known traces)
unfolding register_client
register_client-All name known [] h = tt
register_client-All name known ((id, trace) ∷ traces) h = (
  if_cases (λ (t : TraceInfo). IsNeeded (id, t)) (is_news known id trace)
      (λ _. inr (put-nonempty name trace.client_names)) (λ _. h.0),
  register_client-All name known traces h.1,
)

ensure_service_registered-Inv :
    (c : CloudClient) (s : ℕ)
    → Inv c
    → Inv (ensure_service_registered c s).0 × AllNeeded (s, (ensure_service_registered c s).1)
unfolding ensure_service_registered new_service_info
ensure_service_registered-Inv c s v =
    option_cases (λ (r : CloudClient × ServiceInfo). Inv r.0 × AllNeeded (s, r.1))
      (get s c.service_info_by_id)
      (λ _. (All-put AllNeeded s new_service_info c.service_info_by_id tt v, tt))
      λ info e. (v, All-get AllNeeded s info c.service_info_by_id v e)

handle_registration-Inv :
    (c : CloudClient) (req : RegistrationRequest) → Inv c → Inv (handle_registration c req)
unfolding handle_registration emit
handle_registration-Inv c req v =
    let (c', info) = ensure_service_registered c req.service_id in
    let (v', needed) = ensure_service_registered-Inv c req.service_id v in
    if_cases Inv (nat_beq (diff_size (get_active_trace_diff info (to_set req.active_traces))) 0)
      (λ _. All-put AllNeeded req.service_id _ c'.service_info_by_id needed v')
      (λ _.
        All-put AllNeeded req.service_id _ c'.service_info_by_id
          (register_client-All req.client_name (to_set req.active_traces) info.traces needed) v')

handle_event-Inv : (c : CloudClient) (e : Event) → Inv c → Keeps (handle_event c e)
unfolding handle_event handle_heartbeat emit handle_long_poll
handle_event-Inv c heartbeat_event v = v
handle_event-Inv c (long_poll_service_event id) v =
    option_cases Keeps (get id c.service_info_by_id) (λ _. tt) λ _ _. v
handle_event-Inv c (change_active_traces_event id diff) v = handle_change-Inv c id diff v
handle_event-Inv c (registration_request req) v = handle_registration-Inv c req v
handle_event-Inv c (trace_event_request req) v = handle_trace_events-Inv c req v
handle_event-Inv c (unregister_client_from_trace name s t) v = handle_unregister-Inv c name s t v

handle-Inv : (c : CloudClient) (e : Event) → Inv c → Keeps (handle c e)
unfolding handle
handle-Inv c e v = close_channels-keeps Keeps (handle_event c e) tt (handle_event-Inv c e v)

run-Keeps : (c : CloudClient) (es : List Event) → Inv c → Keeps (run c es)
unfolding run
run-Keeps c [] v = v
run-Keeps c (e ∷ es) v =
    option_cases Keeps (handle c e) (λ _. tt)
      λ c' q. run-Keeps c' es (subst Keeps q (handle-Inv c e v))

-- Whatever events come, in whatever order, as long as none panics: each trace that the daemon keeps
-- is active, or a client may still send events for it.
pub run-new_cloud_client-Inv :
    (es : List Event) (c : CloudClient) → run new_cloud_client es ≡ some c → Inv c
unfolding new_cloud_client
run-new_cloud_client-Inv es c e = subst Keeps e (run-Keeps new_cloud_client es tt)
