-- ===== src/CloudClient/Needed.antt =====
-- What daemon/internal/cloud_client keeps its traces for, over the operations on one trace.
use mathlib.Core.Path.{subst}
use observability_cli.Prelude.{
  ℕ, ◌<◌, ◌≡◌, ◌⊎◌, inl, inr, refl, sym, true, false, ◌||◌, some, List, [], ◌∷◌, String, nat_eq,
  string_eq, ltb, length, Map, get, put, delete, All, All-put, All-delete, All-get, get-put_self,
  arith, if_cases, option_cases,
}
use observability_cli.CloudClient.State.{
  LoggingOptions, TraceInfo, ServiceInfo, CloudClient, new_trace_info, put_trace, emit,
  start_trace_event_collector, unregister_trace,
}
use observability_cli.CloudClient.Handlers.{activate_all, deactivate, deactivate_all}

-- A trace is kept for a reason: it is active, or a client may still send events for it.
abbrev pub IsNeeded : ℕ × TraceInfo → Type 0
IsNeeded e = (e.1.active ≡ true) ⊎ (0 < length e.1.client_names)

abbrev pub AllNeeded : ℕ × ServiceInfo → Type 0
AllNeeded e = All IsNeeded e.1.traces

abbrev pub Inv : CloudClient → Type 0
Inv c = All AllNeeded c.service_info_by_id

put-put : {V : Type 0} (k : ℕ) (v w : V) (m : Map ℕ V) → put k v (put k w m) ≡ put k v m
unfolding put
put-put k v w [] = ground arith
put-put k v w ((j, x) ∷ m) = ground (arith, put-put k v w m)

All-delete-put :
    {V : Type 0} (P : ℕ × V → Type 0) (k : ℕ) (v : V) (m : Map ℕ V)
    → All P m
    → All P (delete k (put k v m))
unfolding put delete
All-delete-put P k v [] h = ground arith
All-delete-put P k v ((j, x) ∷ m) h =
    ground (arith, All-delete-put P k v m h.1, All-delete P k m h.1)

pub put_trace-Inv :
    (c : CloudClient) (s : ℕ) (info : ServiceInfo) (t : ℕ) (trace : TraceInfo)
    → Inv c
    → get s c.service_info_by_id ≡ some info
    → IsNeeded (t, trace)
    → Inv (put_trace c s info t trace)
unfolding put_trace
put_trace-Inv c s info t trace v e n =
    All-put AllNeeded s _ c.service_info_by_id
      (All-put IsNeeded t trace info.traces n (All-get AllNeeded s info c.service_info_by_id v e)) v

pub start_trace_event_collector-Inv :
    (c : CloudClient) (s : ℕ) (options : LoggingOptions)
    → Inv c
    → Inv (start_trace_event_collector c s options)
unfolding start_trace_event_collector emit new_trace_info
start_trace_event_collector-Inv c s options v =
    option_cases Inv (get s c.service_info_by_id) (λ _. v)
      λ info e.
        option_cases Inv (get options.trace_id info.traces)
          (λ _.
            put_trace-Inv c s info options.trace_id (new_trace_info options c.next_channel) v e
              (inl refl))
          λ trace _.
            put_trace-Inv c s info options.trace_id
              (record trace { active = true; logging_options = options }) v e (inl refl)

-- A trace that was just deactivated, with no client, is unregistered.
unregister_written :
    (c : CloudClient) (s : ℕ) (info : ServiceInfo) (t : ℕ) (trace : TraceInfo)
    → (trace.active || ltb 0 (length trace.client_names)) ≡ false
    → (unregister_trace (put_trace c s info t trace) s t).service_info_by_id
      ≡ put s (record info { traces = delete t (put t trace info.traces) }) c.service_info_by_id
unfolding put_trace unregister_trace emit
unregister_written c s info t trace n =
    let written : ServiceInfo = record info { traces = put t trace info.traces } in
    ground (
      arith,
      n,
      get-put_self s written c.service_info_by_id,
      get-put_self t trace info.traces,
      put-put s (record info { traces = delete t (put t trace info.traces) }) written
          c.service_info_by_id,
    )

pub unregister_written-Inv :
    (c : CloudClient) (s : ℕ) (info : ServiceInfo) (t : ℕ) (trace : TraceInfo)
    → Inv c
    → get s c.service_info_by_id ≡ some info
    → (trace.active || ltb 0 (length trace.client_names)) ≡ false
    → Inv (unregister_trace (put_trace c s info t trace) s t)
unregister_written-Inv c s info t trace v e n =
    subst (All AllNeeded) (sym (unregister_written c s info t trace n)) (
      All-put AllNeeded s _ c.service_info_by_id
        (All-delete-put IsNeeded t trace info.traces
          (All-get AllNeeded s info c.service_info_by_id v e))
        v)

pub deactivate-Inv : (c : CloudClient) (s t : ℕ) → Inv c → Inv (deactivate c s t)
unfolding deactivate
deactivate-Inv c s t v =
    option_cases Inv (get s c.service_info_by_id) (λ _. v)
      λ info e.
        option_cases Inv (get t info.traces) (λ _. v)
          λ trace _.
            if_cases Inv (ltb 0 (length trace.client_names))
              (λ some_left.
                put_trace-Inv c s info t (record trace { active = false }) v e (inr (ground arith)))
              (λ none_left.
                unregister_written-Inv c s info t (record trace { active = false }) v e none_left)

pub activate_all-Inv :
    (c : CloudClient) (s : ℕ) (options : List LoggingOptions)
    → Inv c
    → Inv (activate_all c s options)
unfolding activate_all
activate_all-Inv c s [] v = v
activate_all-Inv c s (o ∷ rest) v =
    activate_all-Inv (start_trace_event_collector c s o) s rest
      (start_trace_event_collector-Inv c s o v)

pub deactivate_all-Inv :
    (c : CloudClient) (s : ℕ) (ids : List ℕ) → Inv c → Inv (deactivate_all c s ids)
unfolding deactivate_all
deactivate_all-Inv c s [] v = v
deactivate_all-Inv c s (id ∷ rest) v =
    deactivate_all-Inv (deactivate c s id) s rest (deactivate-Inv c s id v)

pub put-nonempty : (k : String) (m : Map String (Unit {0})) → 0 < length (put k tt m)
unfolding put
put-nonempty k [] = omega arith
put-nonempty k ((j, x) ∷ m) = ground arith

-- A client that is added keeps a trace needed.
pub add_client-Inv :
    (c : CloudClient) (s : ℕ) (info : ServiceInfo) (t : ℕ) (trace : TraceInfo) (name : String)
    → Inv c
    → get s c.service_info_by_id ≡ some info
    → Inv (put_trace c s info t (record trace { client_names = put name tt trace.client_names }))
add_client-Inv c s info t trace name v e =
    put_trace-Inv c s info t _ v e (inr (put-nonempty name trace.client_names))
