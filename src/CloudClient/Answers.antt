-- ===== src/CloudClient/Answers.antt =====
-- Who waits for an answer of daemon/internal/cloud_client, and who has got one.
use observability_cli.Prelude.{
  ℕ, ◌+◌, if◌then◌else◌, ◌≡◌, refl, ap, ◌∙◌, false, ◌||◌, none, some, [], ◌∷◌, nat_eq, string_eq,
  ltb, nat_beq, length, Map, get, put, delete, count_if, count_if-append, arith, if_cases,
  option_cases,
}
use observability_cli.CloudClient.State.{
  LoggingOptions, TraceInfo, NamedResponseChannel, ServiceInfo, Output, is_answer, CloudClient,
  new_trace_info, put_trace, emit, start_trace_event_collector, unregister_trace,
}

module _ (ch : ℕ) where
  -- How many answers the channel has got.
  abbrev pub answers : CloudClient → ℕ
  answers c = count_if (is_answer ch) c.outputs

  abbrev pub waits_in : ServiceInfo → ℕ
  waits_in info =
      count_if (λ (w : NamedResponseChannel). nat_beq w.channel ch) info.response_channels

  abbrev pub total_waits : Map ℕ ServiceInfo → ℕ
  total_waits [] = 0
  total_waits ((_, info) ∷ services) = waits_in info + total_waits services

  -- How often the channel stands in a list of clients that wait.
  abbrev pub waits : CloudClient → ℕ
  waits c = total_waits c.service_info_by_id

  abbrev pub balance : CloudClient → ℕ
  balance c = answers c + waits c

  pub total_waits-put :
      (s : ℕ) (info : ServiceInfo) (m : Map ℕ ServiceInfo)
      → total_waits (put s info m) + elim (get s m) [ none ↦ 0 | some old ↦ waits_in old ]
        ≡ total_waits m + waits_in info
  unfolding get put
  total_waits-put s info [] = omega arith
  total_waits-put s info ((j, old) ∷ m) = ground (arith, total_waits-put s info m)

  -- An output that is no answer.
  pub emit-balance :
      (c : CloudClient) (o : Output) → is_answer ch o ≡ false → balance (emit c o) ≡ balance c
  unfolding emit
  emit-balance c o e = ground (arith, count_if-append (is_answer ch) c.outputs (o ∷ []))

  -- Any output.
  pub emit-adds :
      (c : CloudClient) (o : Output)
      → balance (emit c o) ≡ balance c + (if is_answer ch o then 1 else 0)
  unfolding emit
  emit-adds c o = ground (arith, count_if-append (is_answer ch) c.outputs (o ∷ []))

  -- A write to a service that leaves its list of clients alone.
  pub put_service-waits :
      (s : ℕ) (info : ServiceInfo) (traces : Map ℕ TraceInfo) (m : Map ℕ ServiceInfo)
      → get s m ≡ some info
      → total_waits (put s (record info { traces = traces }) m) ≡ total_waits m
  put_service-waits s info traces m e =
      ground (arith, total_waits-put s (record info { traces = traces }) m)

  pub put_trace-balance :
      (c : CloudClient) (s : ℕ) (info : ServiceInfo) (t : ℕ) (trace : TraceInfo)
      → get s c.service_info_by_id ≡ some info
      → balance (put_trace c s info t trace) ≡ balance c
  unfolding put_trace
  put_trace-balance c s info t trace e =
      ap (λ n. answers c + n)
        (put_service-waits s info (put t trace info.traces) c.service_info_by_id e)

  abbrev pub Same : CloudClient → CloudClient → Type 0
  Same c d = balance d ≡ balance c

  pub start-Same :
      (c : CloudClient) (s : ℕ) (o : LoggingOptions) → Same c (start_trace_event_collector c s o)
  unfolding start_trace_event_collector
  start-Same c s o =
      option_cases (Same c) (get s c.service_info_by_id) (λ _. refl)
        λ info e.
          option_cases (Same c) (get o.trace_id info.traces)
            (λ _.
              emit-balance _ _ refl
              ∙ put_trace-balance c s info o.trace_id (new_trace_info o c.next_channel) e)
            λ trace _. put_trace-balance c s info o.trace_id _ e

  pub unregister-Same : (c : CloudClient) (s t : ℕ) → Same c (unregister_trace c s t)
  unfolding unregister_trace
  unregister-Same c s t =
      option_cases (Same c) (get s c.service_info_by_id) (λ _. refl)
        λ info e.
          option_cases (Same c) (get t info.traces) (λ _. refl)
            λ trace _.
              if_cases (Same c) (trace.active || ltb 0 (length trace.client_names)) (λ _. refl)
                λ _.
                  emit-balance _ _ refl
                  ∙ ap (λ n. answers c + n)
                      (put_service-waits s info (delete t info.traces) c.service_info_by_id e)
