-- ===== src/CloudClient/Runs.antt =====
-- When daemon/internal/cloud_client's main goroutine does not panic.
use mathlib.Core.Path.{subst}
use observability_cli.Prelude.{
  ℕ, ◌+◌, ◌≤◌, count_if, ◌≡◌, refl, Bool, true, false, ◌||◌, some, List, [], ◌∷◌, String, nat_eq,
  string_eq, ltb, nat_beq, nat_beq_iff, length, get, put, delete, get-put_self, All, Bool-cases,
  arith, if_cases, option_cases, inl, inr,
}
use observability_cli.CloudClient.State.{
  ActiveTraceDiff, diff_size, TraceInfo, NamedResponseChannel, ServiceInfo, TraceEventRequest,
  RegistrationRequest, Event, heartbeat_event, long_poll_service_event, change_active_traces_event,
  registration_request, trace_event_request, unregister_client_from_trace, polls, active_ids,
  sends_diff, rejects_events, uploads_events, Output, is_answer, CloudClient, new_cloud_client,
  put_trace, emit, ensure_service_registered,
}
use observability_cli.CloudClient.Handlers.{
  get_active_trace_diff, to_set, handle_registration, activate_all, deactivate_all, answer_all,
  answer_waiting, schedule, handle_change, handle_trace_events, handle_unregister, handle_long_poll,
  handle_heartbeat,
}
use observability_cli.CloudClient.Events.{
  handle_event, handle, answered_again, closes_twice, close_channels, run,
}
use observability_cli.CloudClient.Answers.{balance}
use observability_cli.CloudClient.Conservation.{Balances}
use observability_cli.CloudClient.Answered.{asks_on, asked, handle_event-Balances}
use observability_cli.CloudClient.Total.{
  Registered, KeepsServices, Goes, IsAbout, put-Registered, put_trace-KeepsServices,
  unregister-KeepsServices, activate_all-KeepsServices, deactivate_all-KeepsServices,
  register_waiting_all-Goes,
}

answer_all-Goes :
    (c : CloudClient) (s : ℕ) (diff : ActiveTraceDiff) (waiting : List NamedResponseChannel)
    → All (IsAbout s) diff.activated_traces
    → Registered s c
    → Goes c (answer_all c diff waiting)
unfolding answer_all emit
answer_all-Goes c s diff [] a r = (c, refl, λ k h. h)
answer_all-Goes c s diff (w ∷ rest) a r =
    let sent = emit c (sends_diff w.channel diff) in
    let (d, e, keeps) = register_waiting_all-Goes sent w.client_name s diff.activated_traces a r in
    let (d', e', keeps') = answer_all-Goes d s diff rest a (keeps s r) in
    (d', rw (e, answer_all) e', λ k h. keeps' k (keeps k h))

answer_waiting-Goes :
    (c : CloudClient) (s : ℕ) (diff : ActiveTraceDiff)
    → All (IsAbout s) diff.activated_traces
    → Registered s c
    → Goes c (answer_waiting c s diff)
unfolding answer_waiting
answer_waiting-Goes c s diff a r =
    option_cases (Goes c) (get s c.service_info_by_id) (λ _. (c, refl, λ k h. h))
      λ info _.
        let cleared : CloudClient = record c {
          service_info_by_id = put s (record info { response_channels = [] }) c.service_info_by_id;
        } in
        let (d, e, keeps) =
          answer_all-Goes cleared s diff info.response_channels a
            (put-Registered s s _ c.service_info_by_id r) in
        (d, e, λ k h. keeps k (put-Registered k s _ c.service_info_by_id h))

handle_change-Goes :
    (c : CloudClient) (s : ℕ) (diff : ActiveTraceDiff)
    → All (IsAbout s) diff.activated_traces
    → Goes c (handle_change c s diff)
unfolding handle_change schedule
handle_change-Goes c s diff a =
    let activated = activate_all c s diff.activated_traces in
    let changed = deactivate_all activated s diff.deactivated_traces in
    let keeps : KeepsServices c changed = λ k h.
      deactivate_all-KeepsServices activated s diff.deactivated_traces k
        (activate_all-KeepsServices c s diff.activated_traces k h) in
    option_cases (Goes c) (get s c.service_info_by_id) (λ _. (c, refl, λ k h. h))
      λ info e.
        let (d, f, keeps') = answer_waiting-Goes changed s diff a (keeps s (info, e)) in
        (schedule d (long_poll_service_event s), rw f refl, λ k h. keeps' k (keeps k h))

handle_trace_events-KeepsServices :
    (c : CloudClient) (req : TraceEventRequest) → KeepsServices c (handle_trace_events c req)
unfolding handle_trace_events emit
handle_trace_events-KeepsServices c req =
    option_cases (KeepsServices c) (get req.service_id c.service_info_by_id) (λ _ k h. h)
      λ info _.
        option_cases (KeepsServices c) (get req.trace_id info.traces) (λ _ k h. h)
          λ trace _ k h. put_trace-KeepsServices c req.service_id info req.trace_id _ k h

handle_unregister-KeepsServices :
    (c : CloudClient) (name : String) (s t : ℕ) → KeepsServices c (handle_unregister c name s t)
unfolding handle_unregister
handle_unregister-KeepsServices c name s t =
    option_cases (KeepsServices c) (get s c.service_info_by_id) (λ _ k h. h)
      λ info _.
        option_cases (KeepsServices c) (get t info.traces) (λ _ k h. h)
          λ trace _.
            let left : TraceInfo = record trace { client_names = delete name trace.client_names } in
            if_cases (KeepsServices c) (trace.active || ltb 0 (length left.client_names))
              (λ _ k h. put_trace-KeepsServices c s info t left k h)
              λ _ k h.
                unregister-KeepsServices (put_trace c s info t left) s t k
                  (put_trace-KeepsServices c s info t left k h)

ensure-KeepsServices : (c : CloudClient) (s : ℕ) → KeepsServices c (ensure_service_registered c s).0
unfolding ensure_service_registered
ensure-KeepsServices c s =
    option_cases (λ (r : CloudClient × ServiceInfo). KeepsServices c r.0)
      (get s c.service_info_by_id) (λ _ k h. put-Registered k s _ c.service_info_by_id h)
      λ _ _ k h. h

-- A registration registers its service.
handle_registration-Registered :
    (c : CloudClient) (req : RegistrationRequest)
    → Registered req.service_id (handle_registration c req)
      × KeepsServices c (handle_registration c req)
unfolding handle_registration emit
handle_registration-Registered c req =
    let (c', info) = ensure_service_registered c req.service_id in
    let keeps = ensure-KeepsServices c req.service_id in
    if_cases (λ d. Registered req.service_id d × KeepsServices c d)
      (nat_beq (diff_size (get_active_trace_diff info (to_set req.active_traces))) 0)
      (λ _. (
        (_, get-put_self req.service_id _ c'.service_info_by_id),
        λ k h. put-Registered k req.service_id _ c'.service_info_by_id (keeps k h),
      ))
      λ _. (
        (_, get-put_self req.service_id _ c'.service_info_by_id),
        λ k h. put-Registered k req.service_id _ c'.service_info_by_id (keeps k h),
      )

-- The services registered before and by an event.
abbrev pub learns : List ℕ → Event → List ℕ
learns known (registration_request req) = req.service_id ∷ known
learns known _ = known

abbrev pub is_in : ℕ → List ℕ → Bool
is_in s [] = false
is_in s (k ∷ known) = nat_beq k s || is_in s known

-- What the cloud and the goroutine itself send: polls only of services that were registered, and
-- diffs of traces of the service that they are about.
abbrev pub IsProper : List ℕ → Event → Type 0
IsProper known (long_poll_service_event s) = is_in s known ≡ true
IsProper known (change_active_traces_event s diff) = All (IsAbout s) diff.activated_traces
IsProper known _ = Unit

abbrev pub AllProper : List ℕ → List Event → Type 0
AllProper known [] = Unit
AllProper known (e ∷ es) = IsProper known e × AllProper (learns known e) es

Known : List ℕ → CloudClient → Type 0
Known known c = (s : ℕ) → is_in s known ≡ true → Registered s c

handle_event-Goes :
    (known : List ℕ) (c : CloudClient) (e : Event)
    → IsProper known e
    → Known known c
    → (d : CloudClient) × (handle_event c e ≡ some d) × Known (learns known e) d
unfolding handle_event Known handle_heartbeat handle_long_poll emit
handle_event-Goes known c heartbeat_event p r = (_, refl, r)
handle_event-Goes known c (long_poll_service_event s) p r =
    let (info, e) = r s p in
    (emit c (polls s (active_ids info.traces)), rw (e, handle_event, handle_long_poll) refl, r)
handle_event-Goes known c (change_active_traces_event s diff) p r =
    let (d, e, keeps) = handle_change-Goes c s diff p in (d, e, λ k h. keeps k (r k h))
handle_event-Goes known c (registration_request req) p r =
    let (new, keeps) = handle_registration-Registered c req in
    let d = handle_registration c req in
    (
      d,
      refl,
      λ k h. elim (Bool-cases (nat_beq req.service_id k)) [
        | inl same ↦ subst (λ j. Registered j d) ((nat_beq_iff req.service_id k).0 same) new
        | inr other ↦ keeps k (r k (ground (arith, h, other)))
      ],
    )
handle_event-Goes known c (trace_event_request req) p r =
    (_, refl, λ k h. handle_trace_events-KeepsServices c req k (r k h))
handle_event-Goes known c (unregister_client_from_trace name s t) p r =
    (_, refl, λ k h. handle_unregister-KeepsServices c name s t k (r k h))

-- A channel that has at most one response is not closed twice.
answered_again_lem :
    (o : Output) (outputs : List Output)
    → ((ch : ℕ) → count_if (is_answer ch) (o ∷ outputs) ≤ 1)
    → answered_again o outputs ≡ false
unfolding answered_again
answered_again_lem (sends_diff ch d) outputs h = ground (arith, h ch, nat_beq_iff ch ch)
answered_again_lem (rejects_events ch) outputs h = ground (arith, h ch, nat_beq_iff ch ch)
answered_again_lem (uploads_events req n) outputs h =
    ground (arith, h req.response_channel, nat_beq_iff req.response_channel req.response_channel)
answered_again_lem _ outputs h = refl

closes_twice_lem :
    (outputs : List Output)
    → ((ch : ℕ) → count_if (is_answer ch) outputs ≤ 1)
    → closes_twice outputs ≡ false
unfolding closes_twice
closes_twice_lem [] h = refl
closes_twice_lem (o ∷ outputs) h =
    rw (answered_again_lem o outputs h, closes_twice_lem outputs (λ ch. ground (arith, h ch))) refl

handle-some :
    (c d : CloudClient) (e : Event)
    → handle_event c e ≡ some d
    → closes_twice d.outputs ≡ false
    → handle c e ≡ some d
unfolding handle close_channels
handle-some c d e q once = rw (q, handle, once) refl

-- Each channel is asked for a response at most once, by what has come and what is to come.
abbrev OnceFrom : CloudClient → List Event → Type 0
OnceFrom c es = (ch : ℕ) → balance ch c + count_if (asks_on ch) es ≤ 1

run-Goes :
    (known : List ℕ) (c : CloudClient) (es : List Event)
    → AllProper known es
    → OnceFrom c es
    → Known known c
    → (d : CloudClient) × (run c es ≡ some d)
unfolding run
run-Goes known c [] p once r = (c, refl)
run-Goes known c (e ∷ es) p once r =
    let (d, q, r') = handle_event-Goes known c e p.0 r in
    let after : (ch : ℕ) → balance ch d ≡ balance ch c + asked ch e =
      λ ch. subst (Balances ch (balance ch c + asked ch e)) q (handle_event-Balances ch c e) in
    let open_ones : closes_twice d.outputs ≡ false =
      closes_twice_lem d.outputs (λ ch. ground (arith, after ch, once ch)) in
    let (d', q') =
      run-Goes (learns known e) d es p.1 (λ ch. ground (arith, after ch, once ch)) r' in
    (d', rw (handle-some c d e q open_ones, run) q')

-- The goroutine does not panic, whatever events come in whatever order, as long as only services
-- that were registered are polled, each diff activates traces of its own service only, and no two
-- requests ask for a response on one channel.
pub run-new_cloud_client-total :
    (es : List Event)
    → AllProper [] es
    → ((ch : ℕ) → count_if (asks_on ch) es ≤ 1)
    → (c : CloudClient) × (run new_cloud_client es ≡ some c)
unfolding Known new_cloud_client
run-new_cloud_client-total es p once =
    run-Goes [] new_cloud_client es p (λ ch. omega (arith, once ch)) (λ s h. ground (arith, h))
