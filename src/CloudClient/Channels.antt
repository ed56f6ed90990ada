-- ===== src/CloudClient/Channels.antt =====
-- The channels from which daemon/internal/cloud_client's collectors read, over the operations.
use observability_cli.Prelude.{
  ℕ, ◌+◌, ◌≤◌, ◌≡◌, refl, Bool, true, false, ◌||◌, none, some, [], ◌∷◌, nat_eq, string_eq, ltb,
  nat_beq, length, if◌then◌else◌, Map, get, put, delete, count_if, count_if-append, arith, if_cases,
  option_cases,
}
use observability_cli.CloudClient.State.{
  LoggingOptions, TraceInfo, ServiceInfo, Output, starts_collector, closes_collector, CloudClient,
  new_trace_info, put_trace, emit, start_trace_event_collector, unregister_trace,
}

module _ (n : ℕ) where
  abbrev pub is_start : Output → Bool
  is_start (starts_collector channel _) = nat_beq channel n
  is_start _ = false

  abbrev pub is_close : Output → Bool
  is_close (closes_collector channel) = nat_beq channel n
  is_close _ = false

  abbrev pub share : TraceInfo → ℕ
  share trace = if nat_beq trace.trace_event_channel n then 1 else 0

  abbrev pub held_traces : Map ℕ TraceInfo → ℕ
  held_traces [] = 0
  held_traces ((_, trace) ∷ traces) = share trace + held_traces traces

  abbrev pub held_services : Map ℕ ServiceInfo → ℕ
  held_services [] = 0
  held_services ((_, info) ∷ services) = held_traces info.traces + held_services services

  abbrev pub started : CloudClient → ℕ
  started c = count_if is_start c.outputs

  abbrev pub closed : CloudClient → ℕ
  closed c = count_if is_close c.outputs

  -- How many traces have the channel.
  abbrev pub held : CloudClient → ℕ
  held c = held_services c.service_info_by_id

  -- The channel was made once if it was made, and it is closed or in use no more often than that.
  pub record Safe (c : CloudClient) : Type 0 where
    pub fits : held c + closed c ≤ started c
    pub once : started c ≡ (if ltb n c.next_channel then 1 else 0)

  held_traces-put :
      (t : ℕ) (trace : TraceInfo) (m : Map ℕ TraceInfo)
      → held_traces (put t trace m) + elim (get t m) [ none ↦ 0 | some old ↦ share old ]
        ≡ held_traces m + share trace
  unfolding get put
  held_traces-put t trace [] = omega arith
  held_traces-put t trace ((j, old) ∷ m) = ground (arith, held_traces-put t trace m)

  held_traces-delete_le : (t : ℕ) (m : Map ℕ TraceInfo) → held_traces (delete t m) ≤ held_traces m
  unfolding delete
  held_traces-delete_le t [] = omega arith
  held_traces-delete_le t ((j, old) ∷ m) = ground (arith, held_traces-delete_le t m)

  held_traces-delete :
      (t : ℕ) (trace : TraceInfo) (m : Map ℕ TraceInfo)
      → get t m ≡ some trace
      → held_traces (delete t m) + share trace ≤ held_traces m
  unfolding get delete
  held_traces-delete t trace [] e = ground arith
  held_traces-delete t trace ((j, old) ∷ m) e =
      ground (arith, held_traces-delete t trace m, held_traces-delete_le t m)

  pub held_services-put :
      (s : ℕ) (info : ServiceInfo) (m : Map ℕ ServiceInfo)
      → held_services (put s info m)
          + elim (get s m) [ none ↦ 0 | some old ↦ held_traces old.traces ]
        ≡ held_services m + held_traces info.traces
  unfolding get put
  held_services-put s info [] = omega arith
  held_services-put s info ((j, old) ∷ m) = ground (arith, held_services-put s info m)

  -- An output that neither starts nor closes a collector.
  pub emit-Safe :
      (c : CloudClient) (o : Output)
      → is_start o ≡ false
      → is_close o ≡ false
      → Safe c
      → Safe (emit c o)
  unfolding emit
  emit-Safe c o p q v = ground (
    arith,
    count_if-append is_start c.outputs (o ∷ []),
    count_if-append is_close c.outputs (o ∷ []),
  )

  -- A write to a service that keeps the channels of its traces.
  pub put_service-Safe :
      (c : CloudClient) (s : ℕ) (old info : ServiceInfo)
      → get s c.service_info_by_id ≡ some old
      → held_traces info.traces ≡ held_traces old.traces
      → Safe c
      → Safe (record c { service_info_by_id = put s info c.service_info_by_id })
  put_service-Safe c s old info e h v =
      ground (arith, v.fits, v.once, held_services-put s info c.service_info_by_id)

  -- A write to a trace that keeps its channel.
  pub put_trace-Safe :
      (c : CloudClient) (s : ℕ) (info : ServiceInfo) (t : ℕ) (old trace : TraceInfo)
      → get s c.service_info_by_id ≡ some info
      → get t info.traces ≡ some old
      → share trace ≡ share old
      → Safe c
      → Safe (put_trace c s info t trace)
  unfolding put_trace
  put_trace-Safe c s info t old trace e f h v =
      put_service-Safe c s info (record info { traces = put t trace info.traces }) e
        (ground (arith, held_traces-put t trace info.traces)) v

  pub start-Safe :
      (c : CloudClient) (s : ℕ) (o : LoggingOptions)
      → Safe c
      → Safe (start_trace_event_collector c s o)
  unfolding start_trace_event_collector put_trace emit new_trace_info
  start-Safe c s o v =
      option_cases Safe (get s c.service_info_by_id) (λ _. v)
        λ info e.
          option_cases Safe (get o.trace_id info.traces)
            (λ f.
              let trace = new_trace_info o c.next_channel in
              let info' : ServiceInfo = record info { traces = put o.trace_id trace info.traces } in
              ground (
                arith,
                v.fits,
                v.once,
                held_traces-put o.trace_id trace info.traces,
                held_services-put s info' c.service_info_by_id,
                count_if-append is_start c.outputs (starts_collector c.next_channel o ∷ []),
                count_if-append is_close c.outputs (starts_collector c.next_channel o ∷ []),
              ))
            λ trace f.
              put_trace-Safe c s info o.trace_id trace
                (record trace { active = true; logging_options = o }) e f refl v

  pub unregister-Safe : (c : CloudClient) (s t : ℕ) → Safe c → Safe (unregister_trace c s t)
  unfolding unregister_trace emit
  unregister-Safe c s t v =
      option_cases Safe (get s c.service_info_by_id) (λ _. v)
        λ info e.
          option_cases Safe (get t info.traces) (λ _. v)
            λ trace f.
              if_cases Safe (trace.active || ltb 0 (length trace.client_names)) (λ _. v)
                λ _.
                  let info' : ServiceInfo = record info { traces = delete t info.traces } in
                  ground (
                    arith,
                    v.fits,
                    v.once,
                    held_traces-delete t trace info.traces f,
                    held_services-put s info' c.service_info_by_id,
                    count_if-append is_start c.outputs
                        (closes_collector trace.trace_event_channel ∷ []),
                    count_if-append is_close c.outputs
                        (closes_collector trace.trace_event_channel ∷ []),
                  )
