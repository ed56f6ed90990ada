-- ===== src/CloudClient/Answered.antt =====
-- Each client that registers with daemon/internal/cloud_client is answered once, or still waits.
use mathlib.Core.Path.{subst}
use observability_cli.Prelude.{
  ℕ, ◌+◌, ◌≡◌, refl, ◌∙◌, Bool, false, some, List, [], ◌∷◌, ◌++◌, nat_eq, string_eq, nat_beq,
  if◌then◌else◌, get, count_if, count_if-append, arith, if_cases, option_cases, get-put_self,
}
use observability_cli.CloudClient.State.{
  diff_size, NamedResponseChannel, ServiceInfo, RegistrationRequest, Event, heartbeat_event,
  long_poll_service_event, change_active_traces_event, registration_request, trace_event_request,
  unregister_client_from_trace, sends_diff, is_answer, CloudClient, new_cloud_client,
  new_service_info, emit, ensure_service_registered,
}
use observability_cli.CloudClient.Handlers.{
  get_active_trace_diff, register_client, to_set, handle_registration, handle_change,
  handle_long_poll, handle_heartbeat,
}
use observability_cli.CloudClient.Events.{handle_event, handle, close_channels-keeps, run}
use observability_cli.CloudClient.Answers.{
  answers, waits, balance, total_waits-put, emit-balance, put_service-waits,
}
use observability_cli.CloudClient.Conservation.{
  Balances, handle_change-Balances, handle_trace_events-adds, handle_unregister-Same,
}

module _ (ch : ℕ) where
  -- A request for an answer on the channel.
  abbrev pub asks_on : Event → Bool
  asks_on (registration_request req) = nat_beq req.response_channel ch
  asks_on (trace_event_request req) = nat_beq req.response_channel ch
  asks_on _ = false

  abbrev pub asked : Event → ℕ
  asked e = if asks_on e then 1 else 0

  IsRegistered : ℕ → CloudClient → CloudClient × ServiceInfo → Type 0
  IsRegistered s c r = (balance ch r.0 ≡ balance ch c) × (get s r.0.service_info_by_id ≡ some r.1)

  ensure-IsRegistered : (c : CloudClient) (s : ℕ) → IsRegistered s c (ensure_service_registered c s)
  unfolding ensure_service_registered IsRegistered new_service_info
  ensure-IsRegistered c s =
      option_cases (IsRegistered s c) (get s c.service_info_by_id)
        (λ e. (
          ground (arith, total_waits-put ch s new_service_info c.service_info_by_id),
          get-put_self s new_service_info c.service_info_by_id,
        ))
        λ info e. (refl, e)

  handle_registration-balance :
      (c : CloudClient) (req : RegistrationRequest)
      → balance ch (handle_registration c req) ≡ balance ch c + asked (registration_request req)
  unfolding handle_registration emit IsRegistered
  handle_registration-balance c req =
      let (c', info) = ensure_service_registered c req.service_id in
      let (same, found) = ensure-IsRegistered c req.service_id in
      let known = to_set req.active_traces in
      let diff = get_active_trace_diff info known in
      let waiter : NamedResponseChannel = record {
        client_name = req.client_name;
        channel = req.response_channel;
      } in
      let waiting : ServiceInfo = record info {
        response_channels = info.response_channels ++ waiter ∷ [];
      } in
      if_cases (λ d. balance ch d ≡ balance ch c + asked (registration_request req))
        (nat_beq (diff_size diff) 0)
        (λ _. ground (
          arith,
          same,
          found,
          total_waits-put ch req.service_id waiting c'.service_info_by_id,
          count_if-append (λ (w : NamedResponseChannel). nat_beq w.channel ch)
              info.response_channels (waiter ∷ []),
        ))
        (λ _. ground (
          arith,
          same,
          put_service-waits ch req.service_id info
              (register_client req.client_name known info.traces) c'.service_info_by_id found,
          count_if-append (is_answer ch) c'.outputs (sends_diff req.response_channel diff ∷ []),
        ))

  pub handle_event-Balances :
      (c : CloudClient) (e : Event) → Balances ch (balance ch c + asked e) (handle_event c e)
  unfolding handle_event handle_heartbeat handle_long_poll
  handle_event-Balances c heartbeat_event = emit-balance ch c _ refl ∙ omega arith
  handle_event-Balances c (long_poll_service_event id) =
      option_cases (Balances ch (balance ch c + 0)) (get id c.service_info_by_id) (λ _. tt)
        λ info _. emit-balance ch c _ refl ∙ omega arith
  handle_event-Balances c (change_active_traces_event id diff) =
      subst (λ n. Balances ch n (handle_change c id diff)) (omega arith)
        (handle_change-Balances ch c id diff)
  handle_event-Balances c (registration_request req) = handle_registration-balance c req
  handle_event-Balances c (trace_event_request req) = handle_trace_events-adds ch c req
  handle_event-Balances c (unregister_client_from_trace name s t) =
      handle_unregister-Same ch c name s t ∙ omega arith

  handle-Balances :
      (c : CloudClient) (e : Event) → Balances ch (balance ch c + asked e) (handle c e)
  unfolding handle
  handle-Balances c e =
      close_channels-keeps (Balances ch (balance ch c + asked e)) (handle_event c e) tt
        (handle_event-Balances c e)

  run-Balances :
      (c : CloudClient) (es : List Event)
      → Balances ch (balance ch c + count_if asks_on es) (run c es)
  unfolding run
  run-Balances c [] = omega arith
  run-Balances c (e ∷ es) =
      option_cases (Balances ch (balance ch c + count_if asks_on (e ∷ es))) (handle c e) (λ _. tt)
        λ c' q.
          subst (λ n. Balances ch n (run c' es))
            (ground (arith, subst (Balances ch (balance ch c + asked e)) q (handle-Balances c e)))
            (run-Balances c' es)

  -- Whatever events come, in whatever order, as long as none panics: a channel has had as many
  -- answers, and stands as often among those that wait, as registrations and requests with trace events
  -- asked for an answer on it.
  pub run-new_cloud_client-answers :
      (es : List Event) (c : CloudClient)
      → run new_cloud_client es ≡ some c
      → answers ch c + waits ch c ≡ count_if asks_on es
  unfolding new_cloud_client
  run-new_cloud_client-answers es c e = omega (
    arith,
    subst (Balances ch (balance ch new_cloud_client + count_if asks_on es)) e
        (run-Balances new_cloud_client es),
  )
