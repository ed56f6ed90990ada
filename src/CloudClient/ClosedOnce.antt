-- ===== src/CloudClient/ClosedOnce.antt =====
-- No handler of daemon/internal/cloud_client closes the channel of a collector a second time.
use mathlib.Core.Path.{subst}
use observability_cli.Prelude.{
  ℕ, ◌+◌, ◌≤◌, ◌≡◌, refl, false, ◌||◌, Option, none, some, List, [], ◌∷◌, String, nat_eq, string_eq,
  ltb, nat_beq, length, Map, get, delete, arith, if_cases, option_cases, get-put_self,
}
use observability_cli.CloudClient.State.{
  LoggingOptions, ActiveTraceDiff, diff_size, TraceInfo, NamedResponseChannel, ServiceInfo,
  TraceEventRequest, RegistrationRequest, Event, heartbeat_event, long_poll_service_event,
  change_active_traces_event, registration_request, trace_event_request,
  unregister_client_from_trace, sends_diff, CloudClient, new_cloud_client, new_service_info,
  put_trace, emit, ensure_service_registered, start_trace_event_collector,
}
use observability_cli.CloudClient.Handlers.{
  get_active_trace_diff, register_client, to_set, handle_registration, activate_all, deactivate,
  deactivate_all, register_waiting, register_waiting_all, answer_all, answer_waiting, schedule,
  handle_change, handle_trace_events, handle_unregister, handle_long_poll, handle_heartbeat,
}
use observability_cli.CloudClient.Events.{handle_event, handle, close_channels-keeps, run}
use observability_cli.CloudClient.Channels.{
  held_traces, closed, held, Safe, held_services-put, emit-Safe, put_service-Safe, put_trace-Safe,
  start-Safe, unregister-Safe,
}

module _ (n : ℕ) where
  deactivate-Safe : (c : CloudClient) (s t : ℕ) → Safe n c → Safe n (deactivate c s t)
  unfolding deactivate
  deactivate-Safe c s t v =
      option_cases (Safe n) (get s c.service_info_by_id) (λ _. v)
        λ info e.
          option_cases (Safe n) (get t info.traces) (λ _. v)
            λ trace f.
              let left : TraceInfo = record trace { active = false } in
              let w = put_trace-Safe n c s info t trace left e f refl v in
              if_cases (Safe n) (ltb 0 (length trace.client_names)) (λ _. w)
                (λ _. unregister-Safe n (put_trace c s info t left) s t w)

  activate_all-Safe :
      (c : CloudClient) (s : ℕ) (options : List LoggingOptions)
      → Safe n c
      → Safe n (activate_all c s options)
  unfolding activate_all
  activate_all-Safe c s [] v = v
  activate_all-Safe c s (o ∷ rest) v =
      activate_all-Safe (start_trace_event_collector c s o) s rest (start-Safe n c s o v)

  deactivate_all-Safe :
      (c : CloudClient) (s : ℕ) (ids : List ℕ) → Safe n c → Safe n (deactivate_all c s ids)
  unfolding deactivate_all
  deactivate_all-Safe c s [] v = v
  deactivate_all-Safe c s (id ∷ rest) v =
      deactivate_all-Safe (deactivate c s id) s rest (deactivate-Safe c s id v)

  abbrev StaysSafe : Option CloudClient → Type 0
  StaysSafe o = elim o [ none ↦ Unit | some c ↦ Safe n c ]

  register_waiting-Safe :
      (c : CloudClient) (name : String) (o : LoggingOptions)
      → Safe n c
      → StaysSafe (register_waiting c name o)
  unfolding register_waiting
  register_waiting-Safe c name o v =
      option_cases StaysSafe (get o.service_id c.service_info_by_id) (λ _. tt)
        λ info e.
          option_cases StaysSafe (get o.trace_id info.traces) (λ _. v)
            λ trace f. put_trace-Safe n c o.service_id info o.trace_id trace _ e f refl v

  register_waiting_all-Safe :
      (c : CloudClient) (name : String) (options : List LoggingOptions)
      → Safe n c
      → StaysSafe (register_waiting_all c name options)
  unfolding register_waiting_all
  register_waiting_all-Safe c name [] v = v
  register_waiting_all-Safe c name (o ∷ rest) v =
      option_cases StaysSafe (register_waiting c name o) (λ _. tt)
        λ c' e.
          register_waiting_all-Safe c' name rest
            (subst StaysSafe e (register_waiting-Safe c name o v))

  answer_all-Safe :
      (c : CloudClient) (diff : ActiveTraceDiff) (waiting : List NamedResponseChannel)
      → Safe n c
      → StaysSafe (answer_all c diff waiting)
  unfolding answer_all
  answer_all-Safe c diff [] v = v
  answer_all-Safe c diff (w ∷ rest) v =
      let sent = emit c (sends_diff w.channel diff) in
      option_cases StaysSafe (register_waiting_all sent w.client_name diff.activated_traces)
        (λ _. tt)
        λ c' e. answer_all-Safe c' diff rest (
          subst StaysSafe e (
            register_waiting_all-Safe sent w.client_name diff.activated_traces
              (emit-Safe n c (sends_diff w.channel diff) refl refl v)))

  answer_waiting-Safe :
      (c : CloudClient) (s : ℕ) (diff : ActiveTraceDiff)
      → Safe n c
      → StaysSafe (answer_waiting c s diff)
  unfolding answer_waiting
  answer_waiting-Safe c s diff v =
      option_cases StaysSafe (get s c.service_info_by_id) (λ _. v)
        λ info e.
          answer_all-Safe _ diff info.response_channels
            (put_service-Safe n c s info (record info { response_channels = [] }) e refl v)

  schedule-Safe : (c : CloudClient) (e : Event) → Safe n c → Safe n (schedule c e)
  unfolding schedule
  schedule-Safe c e v = record { fits = v.fits; once = v.once }

  handle_change-Safe :
      (c : CloudClient) (s : ℕ) (diff : ActiveTraceDiff)
      → Safe n c
      → StaysSafe (handle_change c s diff)
  unfolding handle_change
  handle_change-Safe c s diff v =
      let activated = activate_all c s diff.activated_traces in
      let changed = deactivate_all activated s diff.deactivated_traces in
      let w =
        deactivate_all-Safe activated s diff.deactivated_traces
          (activate_all-Safe c s diff.activated_traces v) in
      option_cases StaysSafe (get s c.service_info_by_id) (λ _. v)
        λ info _.
          option_cases StaysSafe (answer_waiting changed s diff) (λ _. tt)
            λ c' e.
              schedule-Safe c' (long_poll_service_event s)
                (subst StaysSafe e (answer_waiting-Safe changed s diff w))

  handle_trace_events-Safe :
      (c : CloudClient) (req : TraceEventRequest) → Safe n c → Safe n (handle_trace_events c req)
  unfolding handle_trace_events
  handle_trace_events-Safe c req v =
      option_cases (Safe n) (get req.service_id c.service_info_by_id)
        (λ _. emit-Safe n c _ refl refl v)
        λ info e.
          option_cases (Safe n) (get req.trace_id info.traces) (λ _. emit-Safe n c _ refl refl v)
            λ trace f.
              emit-Safe n _ _ refl refl
                (put_trace-Safe n c req.service_id info req.trace_id trace _ e f refl v)

  handle_unregister-Safe :
      (c : CloudClient) (name : String) (s t : ℕ) → Safe n c → Safe n (handle_unregister c name s t)
  unfolding handle_unregister
  handle_unregister-Safe c name s t v =
      option_cases (Safe n) (get s c.service_info_by_id) (λ _. v)
        λ info e.
          option_cases (Safe n) (get t info.traces) (λ _. v)
            λ trace f.
              let left : TraceInfo = record trace {
                client_names = delete name trace.client_names;
              } in
              let w = put_trace-Safe n c s info t trace left e f refl v in
              if_cases (Safe n) (trace.active || ltb 0 (length left.client_names)) (λ _. w)
                (λ _. unregister-Safe n (put_trace c s info t left) s t w)

  held_traces-register_client :
      (name : String) (known : Map ℕ (Unit {0})) (traces : Map ℕ TraceInfo)
      → held_traces n (register_client name known traces) ≡ held_traces n traces
  unfolding register_client
  held_traces-register_client name known [] = refl
  held_traces-register_client name known ((id, trace) ∷ traces) =
      ground (arith, held_traces-register_client name known traces)

  IsFound : ℕ → CloudClient × ServiceInfo → Type 0
  IsFound s r = Safe n r.0 × (get s r.0.service_info_by_id ≡ some r.1)

  ensure-IsFound : (c : CloudClient) (s : ℕ) → Safe n c → IsFound s (ensure_service_registered c s)
  unfolding ensure_service_registered IsFound new_service_info
  ensure-IsFound c s v =
      option_cases (IsFound s) (get s c.service_info_by_id)
        (λ e. (
          ground
              (arith, v.fits, v.once, held_services-put n s new_service_info c.service_info_by_id),
          get-put_self s new_service_info c.service_info_by_id,
        ))
        λ info e. (v, e)

  handle_registration-Safe :
      (c : CloudClient) (req : RegistrationRequest) → Safe n c → Safe n (handle_registration c req)
  unfolding handle_registration IsFound
  handle_registration-Safe c req v =
      let (c', info) = ensure_service_registered c req.service_id in
      let (w, found) = ensure-IsFound c req.service_id v in
      let known = to_set req.active_traces in
      if_cases (Safe n) (nat_beq (diff_size (get_active_trace_diff info known)) 0)
        (λ _. put_service-Safe n c' req.service_id info _ found refl w)
        (λ _. emit-Safe n _ _ refl refl (
          put_service-Safe n c' req.service_id info _ found
            (held_traces-register_client req.client_name known info.traces) w))

  handle_event-Safe : (c : CloudClient) (e : Event) → Safe n c → StaysSafe (handle_event c e)
  unfolding handle_event handle_heartbeat handle_long_poll
  handle_event-Safe c heartbeat_event v = emit-Safe n c _ refl refl v
  handle_event-Safe c (long_poll_service_event id) v =
      option_cases StaysSafe (get id c.service_info_by_id) (λ _. tt)
        λ _ _. emit-Safe n c _ refl refl v
  handle_event-Safe c (change_active_traces_event id diff) v = handle_change-Safe c id diff v
  handle_event-Safe c (registration_request req) v = handle_registration-Safe c req v
  handle_event-Safe c (trace_event_request req) v = handle_trace_events-Safe c req v
  handle_event-Safe c (unregister_client_from_trace name s t) v =
      handle_unregister-Safe c name s t v

  handle-Safe : (c : CloudClient) (e : Event) → Safe n c → StaysSafe (handle c e)
  unfolding handle
  handle-Safe c e v = close_channels-keeps StaysSafe (handle_event c e) tt (handle_event-Safe c e v)

  run-Safe : (c : CloudClient) (es : List Event) → Safe n c → StaysSafe (run c es)
  unfolding run
  run-Safe c [] v = v
  run-Safe c (e ∷ es) v =
      option_cases StaysSafe (handle c e) (λ _. tt)
        λ c' q. run-Safe c' es (subst StaysSafe q (handle-Safe c e v))

  new_cloud_client-Safe : Safe n new_cloud_client
  unfolding new_cloud_client
  new_cloud_client-Safe = ground arith

  -- Whatever events come, in whatever order, as long as none panics: the traces that have a
  -- collector's channel and the times that it was closed are together at most one.
  pub run-new_cloud_client-closed :
      (es : List Event) (c : CloudClient)
      → run new_cloud_client es ≡ some c
      → held n c + closed n c ≤ 1
  run-new_cloud_client-closed es c e =
      let v = subst StaysSafe e (run-Safe new_cloud_client es new_cloud_client-Safe) in
      ground (arith, v.fits, v.once)
