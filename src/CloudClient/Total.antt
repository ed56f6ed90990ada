-- ===== src/CloudClient/Total.antt =====
-- The operations of daemon/internal/cloud_client drop no service, and find those that they need.
use observability_cli.Prelude.{
  ℕ, ◌≡◌, refl, ap, false, ◌||◌, Option, some, List, [], ◌∷◌, String, nat_eq, string_eq, ltb,
  length, Map, get, put, get-put, All, Option-cases, arith, if_cases, option_cases, inl, inr,
}
use observability_cli.CloudClient.State.{
  LoggingOptions, TraceInfo, ServiceInfo, CloudClient, put_trace, emit, start_trace_event_collector,
  unregister_trace,
}
use observability_cli.CloudClient.Handlers.{
  activate_all, deactivate, deactivate_all, register_waiting, register_waiting_all,
}

abbrev pub Registered : ℕ → CloudClient → Type 0
Registered s c = (info : ServiceInfo) × (get s c.service_info_by_id ≡ some info)

-- No service is ever dropped.
abbrev pub KeepsServices : CloudClient → CloudClient → Type 0
KeepsServices c d = (s : ℕ) → Registered s c → Registered s d

pub put-Registered :
    (s k : ℕ) (info : ServiceInfo) (m : Map ℕ ServiceInfo)
    → (old : ServiceInfo) × (get s m ≡ some old)
    → (new : ServiceInfo) × (get s (put k info m) ≡ some new)
put-Registered s k info m h = elim (Option-cases (get s (put k info m))) [
  | inl e ↦ ground (arith, get-put k s info m, h.1)
  | inr found ↦ found
]

pub put_trace-KeepsServices :
    (c : CloudClient) (s : ℕ) (info : ServiceInfo) (t : ℕ) (trace : TraceInfo)
    → KeepsServices c (put_trace c s info t trace)
unfolding put_trace
put_trace-KeepsServices c s info t trace k h = put-Registered k s _ c.service_info_by_id h

start-KeepsServices :
    (c : CloudClient) (s : ℕ) (o : LoggingOptions)
    → KeepsServices c (start_trace_event_collector c s o)
unfolding start_trace_event_collector emit
start-KeepsServices c s o =
    option_cases (KeepsServices c) (get s c.service_info_by_id) (λ _ k h. h)
      λ info _.
        option_cases (KeepsServices c) (get o.trace_id info.traces)
          (λ _ k h. put_trace-KeepsServices c s info o.trace_id _ k h)
          λ trace _ k h. put_trace-KeepsServices c s info o.trace_id _ k h

pub unregister-KeepsServices :
    (c : CloudClient) (s t : ℕ) → KeepsServices c (unregister_trace c s t)
unfolding unregister_trace emit
unregister-KeepsServices c s t =
    option_cases (KeepsServices c) (get s c.service_info_by_id) (λ _ k h. h)
      λ info _.
        option_cases (KeepsServices c) (get t info.traces) (λ _ k h. h)
          λ trace _.
            if_cases (KeepsServices c) (trace.active || ltb 0 (length trace.client_names))
              (λ _ k h. h) λ _ k h. put-Registered k s _ c.service_info_by_id h

deactivate-KeepsServices : (c : CloudClient) (s t : ℕ) → KeepsServices c (deactivate c s t)
unfolding deactivate
deactivate-KeepsServices c s t =
    option_cases (KeepsServices c) (get s c.service_info_by_id) (λ _ k h. h)
      λ info _.
        option_cases (KeepsServices c) (get t info.traces) (λ _ k h. h)
          λ trace _.
            let left : TraceInfo = record trace { active = false } in
            if_cases (KeepsServices c) (ltb 0 (length trace.client_names))
              (λ _ k h. put_trace-KeepsServices c s info t left k h)
              λ _ k h.
                unregister-KeepsServices (put_trace c s info t left) s t k
                  (put_trace-KeepsServices c s info t left k h)

pub activate_all-KeepsServices :
    (c : CloudClient) (s : ℕ) (options : List LoggingOptions)
    → KeepsServices c (activate_all c s options)
unfolding activate_all
activate_all-KeepsServices c s [] k h = h
activate_all-KeepsServices c s (o ∷ rest) k h =
    activate_all-KeepsServices (start_trace_event_collector c s o) s rest k
      (start-KeepsServices c s o k h)

pub deactivate_all-KeepsServices :
    (c : CloudClient) (s : ℕ) (ids : List ℕ) → KeepsServices c (deactivate_all c s ids)
unfolding deactivate_all
deactivate_all-KeepsServices c s [] k h = h
deactivate_all-KeepsServices c s (id ∷ rest) k h =
    deactivate_all-KeepsServices (deactivate c s id) s rest k (deactivate-KeepsServices c s id k h)

-- An operation that does not panic.
abbrev pub Goes : CloudClient → Option CloudClient → Type 0
Goes c o = (d : CloudClient) × (o ≡ some d) × KeepsServices c d

-- The service that the options name is the one that the event is about.
abbrev pub IsAbout : ℕ → LoggingOptions → Type 0
IsAbout s o = o.service_id ≡ s

register_waiting-Goes :
    (c : CloudClient) (name : String) (s : ℕ) (o : LoggingOptions)
    → IsAbout s o
    → Registered s c
    → Goes c (register_waiting c name o)
unfolding register_waiting
register_waiting-Goes c name s o a r =
    option_cases (Goes c) (get o.service_id c.service_info_by_id)
      (λ e. ground (arith, e, r.1, ap (λ k. get k c.service_info_by_id) a))
      λ info _.
        option_cases (Goes c) (get o.trace_id info.traces) (λ _. (c, refl, λ k h. h))
          λ trace _. (_, refl, put_trace-KeepsServices c o.service_id info o.trace_id _)

pub register_waiting_all-Goes :
    (c : CloudClient) (name : String) (s : ℕ) (options : List LoggingOptions)
    → All (IsAbout s) options
    → Registered s c
    → Goes c (register_waiting_all c name options)
unfolding register_waiting_all
register_waiting_all-Goes c name s [] a r = (c, refl, λ k h. h)
register_waiting_all-Goes c name s (o ∷ rest) a r =
    let (d, e, keeps) = register_waiting-Goes c name s o a.0 r in
    let (d', e', keeps') = register_waiting_all-Goes d name s rest a.1 (keeps s r) in
    (d', rw (e, register_waiting_all) e', λ k h. keeps' k (keeps k h))
