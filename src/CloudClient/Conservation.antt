-- ===== src/CloudClient/Conservation.antt =====
-- The handlers of daemon/internal/cloud_client lose no client that waits for an answer.
use mathlib.Core.Path.{subst}
use observability_cli.Prelude.{
  ℕ, ◌+◌, ◌≡◌, refl, ap, ◌∙◌, false, ◌||◌, Option, none, some, List, [], ◌∷◌, String, nat_eq,
  string_eq, ltb, nat_beq, length, get, put, delete, count_if, count_if-append, arith, if_cases,
  if◌then◌else◌, option_cases,
}
use observability_cli.CloudClient.State.{
  LoggingOptions, ActiveTraceDiff, TraceInfo, NamedResponseChannel, ServiceInfo, TraceEventRequest,
  sends_diff, is_answer, CloudClient, put_trace, emit, start_trace_event_collector,
}
use observability_cli.CloudClient.Handlers.{
  activate_all, deactivate, deactivate_all, register_waiting, register_waiting_all, answer_all,
  answer_waiting, schedule, handle_change, handle_trace_events, handle_unregister,
}
use observability_cli.CloudClient.Answers.{
  balance, emit-adds, total_waits-put, put_trace-balance, Same, start-Same, unregister-Same,
}

module _ (ch : ℕ) where
  deactivate-Same : (c : CloudClient) (s t : ℕ) → Same ch c (deactivate c s t)
  unfolding deactivate
  deactivate-Same c s t =
      option_cases (Same ch c) (get s c.service_info_by_id) (λ _. refl)
        λ info e.
          option_cases (Same ch c) (get t info.traces) (λ _. refl)
            λ trace _.
              let c' = put_trace c s info t (record trace { active = false }) in
              let same = put_trace-balance ch c s info t (record trace { active = false }) e in
              if_cases (Same ch c) (ltb 0 (length trace.client_names)) (λ _. same)
                (λ _. unregister-Same ch c' s t ∙ same)

  activate_all-Same :
      (c : CloudClient) (s : ℕ) (options : List LoggingOptions)
      → Same ch c (activate_all c s options)
  unfolding activate_all
  activate_all-Same c s [] = refl
  activate_all-Same c s (o ∷ rest) =
      activate_all-Same (start_trace_event_collector c s o) s rest ∙ start-Same ch c s o

  deactivate_all-Same :
      (c : CloudClient) (s : ℕ) (ids : List ℕ) → Same ch c (deactivate_all c s ids)
  unfolding deactivate_all
  deactivate_all-Same c s [] = refl
  deactivate_all-Same c s (id ∷ rest) =
      deactivate_all-Same (deactivate c s id) s rest ∙ deactivate-Same c s id

  -- The balance after an operation that may panic.
  abbrev pub Balances : ℕ → Option CloudClient → Type 0
  Balances n o = elim o [ none ↦ Unit | some c ↦ balance ch c ≡ n ]

  register_waiting-Balances :
      (c : CloudClient) (name : String) (o : LoggingOptions)
      → Balances (balance ch c) (register_waiting c name o)
  unfolding register_waiting
  register_waiting-Balances c name o =
      let n = balance ch c in
      option_cases (Balances n) (get o.service_id c.service_info_by_id) (λ _. tt)
        λ info e.
          option_cases (Balances n) (get o.trace_id info.traces) (λ _. refl)
            λ trace _. put_trace-balance ch c o.service_id info o.trace_id _ e

  register_waiting_all-Balances :
      (c : CloudClient) (name : String) (options : List LoggingOptions) (n : ℕ)
      → balance ch c ≡ n
      → Balances n (register_waiting_all c name options)
  unfolding register_waiting_all
  register_waiting_all-Balances c name [] n h = h
  register_waiting_all-Balances c name (o ∷ rest) n h =
      option_cases (Balances n) (register_waiting c name o) (λ _. tt)
        λ c' e.
          register_waiting_all-Balances c' name rest n
            (subst (Balances (balance ch c)) e (register_waiting-Balances c name o) ∙ h)

  abbrev times : List NamedResponseChannel → ℕ
  times waiting = count_if (λ (w : NamedResponseChannel). nat_beq w.channel ch) waiting

  emit_answer-balance :
      (c : CloudClient) (w : NamedResponseChannel) (diff : ActiveTraceDiff)
      (rest : List NamedResponseChannel)
      → balance ch (emit c (sends_diff w.channel diff)) + times rest
        ≡ balance ch c + times (w ∷ rest)
  unfolding emit
  emit_answer-balance c w diff rest =
      ground (arith, count_if-append (is_answer ch) c.outputs (sends_diff w.channel diff ∷ []))

  answer_all-Balances :
      (c : CloudClient) (diff : ActiveTraceDiff) (waiting : List NamedResponseChannel) (n : ℕ)
      → balance ch c + times waiting ≡ n
      → Balances n (answer_all c diff waiting)
  unfolding answer_all
  answer_all-Balances c diff [] n h = omega (arith, h)
  answer_all-Balances c diff (w ∷ rest) n h =
      let sent = emit c (sends_diff w.channel diff) in
      option_cases (Balances n) (register_waiting_all sent w.client_name diff.activated_traces)
        (λ _. tt)
        λ c' e.
          let same = subst (Balances (balance ch sent)) e (
            register_waiting_all-Balances sent w.client_name diff.activated_traces (balance ch sent)
              refl) in
          answer_all-Balances c' diff rest n
            (ap (λ k. k + times rest) same ∙ emit_answer-balance c w diff rest ∙ h)

  answer_waiting-Balances :
      (c : CloudClient) (s : ℕ) (diff : ActiveTraceDiff)
      → Balances (balance ch c) (answer_waiting c s diff)
  unfolding answer_waiting
  answer_waiting-Balances c s diff =
      let n = balance ch c in
      option_cases (Balances n) (get s c.service_info_by_id) (λ _. refl)
        λ info e.
          let cleared : ServiceInfo = record info { response_channels = [] } in
          answer_all-Balances (record c { service_info_by_id = put s cleared c.service_info_by_id })
            diff info.response_channels n
            (ground (arith, total_waits-put ch s cleared c.service_info_by_id))

  pub handle_change-Balances :
      (c : CloudClient) (s : ℕ) (diff : ActiveTraceDiff)
      → Balances (balance ch c) (handle_change c s diff)
  unfolding handle_change schedule
  handle_change-Balances c s diff =
      let n = balance ch c in
      let activated = activate_all c s diff.activated_traces in
      let changed = deactivate_all activated s diff.deactivated_traces in
      let same : balance ch changed ≡ n =
        deactivate_all-Same activated s diff.deactivated_traces
        ∙ activate_all-Same c s diff.activated_traces in
      option_cases (Balances n) (get s c.service_info_by_id) (λ _. refl)
        λ info _.
          option_cases (Balances n) (answer_waiting changed s diff) (λ _. tt)
            λ c' e.
              subst (Balances (balance ch changed)) e (answer_waiting-Balances changed s diff)
              ∙ same

  -- A request with trace events gets one response.
  pub handle_trace_events-adds :
      (c : CloudClient) (req : TraceEventRequest)
      → balance ch (handle_trace_events c req)
        ≡ balance ch c + (if nat_beq req.response_channel ch then 1 else 0)
  unfolding handle_trace_events
  handle_trace_events-adds c req =
      let n = balance ch c + (if nat_beq req.response_channel ch then 1 else 0) in
      option_cases (λ d. balance ch d ≡ n) (get req.service_id c.service_info_by_id)
        (λ _. emit-adds ch _ _)
        λ info e.
          option_cases (λ d. balance ch d ≡ n) (get req.trace_id info.traces)
            (λ _. emit-adds ch _ _)
            λ trace _.
              emit-adds ch _ _
              ∙ ap (λ k. k + (if nat_beq req.response_channel ch then 1 else 0))
                  (put_trace-balance ch c req.service_id info req.trace_id _ e)

  pub handle_unregister-Same :
      (c : CloudClient) (name : String) (s t : ℕ) → Same ch c (handle_unregister c name s t)
  unfolding handle_unregister
  handle_unregister-Same c name s t =
      option_cases (Same ch c) (get s c.service_info_by_id) (λ _. refl)
        λ info e.
          option_cases (Same ch c) (get t info.traces) (λ _. refl)
            λ trace _.
              let left : TraceInfo = record trace {
                client_names = delete name trace.client_names;
              } in
              let same = put_trace-balance ch c s info t left e in
              if_cases (Same ch c) (trace.active || ltb 0 (length left.client_names)) (λ _. same)
                (λ _. unregister-Same ch (put_trace c s info t left) s t ∙ same)
