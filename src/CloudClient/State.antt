-- ===== src/CloudClient/State.antt =====
-- daemon/internal/cloud_client/client_state.go and the operations of cloud_client.go.
use observability_cli.Prelude.{
  ℕ, suc, ◌+◌, Bool, true, ◌||◌, none, some, List, [], ◌∷◌, ◌++◌, String, nat_eq, string_eq, ltb,
  nat_beq, false, length, if◌then◌else◌, Map, get, put, delete,
}

-- The library `daemon`'s types.
pub record LoggingOptions : Type 0 where
  pub trace_id : ℕ
  pub service_id : ℕ
  pub trace_name : String

pub record ActiveTraceDiff : Type 0 where
  pub activated_traces : List LoggingOptions
  pub deactivated_traces : List ℕ

-- ActiveTraceDiff.Size
abbrev pub diff_size : ActiveTraceDiff → ℕ
diff_size d = length d.activated_traces + length d.deactivated_traces

-- Channels are numbers. The list of deactivation channels is never used.
pub record TraceInfo : Type 0 where
  pub active : Bool
  pub client_names : Map String (Unit {0})
  pub logging_options : LoggingOptions
  pub trace_event_channel : ℕ

pub record NamedResponseChannel : Type 0 where
  pub client_name : String
  pub channel : ℕ

pub record ServiceInfo : Type 0 where
  pub traces : Map ℕ TraceInfo
  pub response_channels : List NamedResponseChannel

-- traceEventRequest
pub record TraceEventRequest : Type 0 where
  pub client_name : String
  pub service_id : ℕ
  pub trace_id : ℕ
  pub trace_event_count : ℕ
  pub no_more_events : Bool
  pub response_channel : ℕ

-- registrationRequest
pub record RegistrationRequest : Type 0 where
  pub client_name : String
  pub service_id : ℕ
  pub active_traces : List ℕ
  pub response_channel : ℕ

pub data Event : Type 0 where
  heartbeat_event : Event
  long_poll_service_event : ℕ → Event
  change_active_traces_event : ℕ → ActiveTraceDiff → Event
  registration_request : RegistrationRequest → Event
  trace_event_request : TraceEventRequest → Event
  unregister_client_from_trace : String → ℕ → ℕ → Event

-- What the goroutine does to the outside.
pub data Output : Type 0 where
  sends_diff : ℕ → ActiveTraceDiff → Output
  rejects_events : ℕ → Output
  starts_collector : ℕ → LoggingOptions → Output
  closes_collector : ℕ → Output
  uploads_events : TraceEventRequest → ℕ → Output
  polls : ℕ → List ℕ → Output
  sends_heartbeat : Output

-- A response on the channel. A number stands for one channel, of diffs or of the status of events.
abbrev pub is_answer : ℕ → Output → Bool
is_answer ch (sends_diff channel _) = nat_beq channel ch
is_answer ch (rejects_events channel) = nat_beq channel ch
is_answer ch (uploads_events req _) = nat_beq req.response_channel ch
is_answer ch _ = false

-- `event_channel` has the events that the goroutine itself has put there; `next_channel` is the
-- next channel to be made.
pub record CloudClient : Type 0 where
  pub service_info_by_id : Map ℕ ServiceInfo
  pub next_channel : ℕ
  pub event_channel : List Event
  pub outputs : List Output

unfoldable pub new_cloud_client : CloudClient
new_cloud_client = record {
  service_info_by_id = [];
  next_channel = 0;
  event_channel = heartbeat_event ∷ [];
  outputs = [];
}

unfoldable pub new_service_info : ServiceInfo
new_service_info = record { traces = []; response_channels = [] }

unfoldable pub new_trace_info : LoggingOptions → ℕ → TraceInfo
new_trace_info options channel = record {
  active = true;
  client_names = [];
  logging_options = options;
  trace_event_channel = channel;
}

-- A write through the pointers to a service and to its trace.
unfoldable pub put_trace : CloudClient → ℕ → ServiceInfo → ℕ → TraceInfo → CloudClient
put_trace c service_id info trace_id trace = record c {
  service_info_by_id =
      put service_id (record info { traces = put trace_id trace info.traces }) c.service_info_by_id;
}

unfoldable pub emit : CloudClient → Output → CloudClient
emit c o = record c { outputs = c.outputs ++ o ∷ [] }

unfoldable pub ensure_service_registered : CloudClient → ℕ → CloudClient × ServiceInfo
ensure_service_registered c service_id = elim (get service_id c.service_info_by_id) [
  | some info ↦ (c, info)
  | none ↦ (
    record c {
      service_info_by_id = put service_id new_service_info c.service_info_by_id;
      event_channel = c.event_channel ++ long_poll_service_event service_id ∷ [];
    },
    new_service_info,
  )
]

-- The loop of `getCurrentTraces`.
unfoldable pub active_ids : Map ℕ TraceInfo → List ℕ
active_ids [] = []
active_ids ((id, trace) ∷ traces) =
    let rest = active_ids traces in if trace.active then id ∷ rest else rest

unfoldable pub start_trace_event_collector : CloudClient → ℕ → LoggingOptions → CloudClient
start_trace_event_collector c service_id options = elim (get service_id c.service_info_by_id) [
  | none ↦ c
  | some info ↦ elim (get options.trace_id info.traces) [
    | some trace ↦
        put_trace c service_id info options.trace_id
          (record trace { active = true; logging_options = options })
    | none ↦
        emit
          (record (put_trace c service_id info options.trace_id
            (new_trace_info options c.next_channel)) { next_channel = suc c.next_channel })
          (starts_collector c.next_channel options)
  ]
]

unfoldable pub unregister_trace : CloudClient → ℕ → ℕ → CloudClient
unregister_trace c service_id trace_id = elim (get service_id c.service_info_by_id) [
  | none ↦ c
  | some info ↦ elim (get trace_id info.traces) [
    | none ↦ c
    | some trace ↦
        if trace.active || ltb 0 (length trace.client_names)
        then c
        else emit
            (record c {
              service_info_by_id =
                  put service_id (record info { traces = delete trace_id info.traces })
                    c.service_info_by_id;
            })
            (closes_collector trace.trace_event_channel)
  ]
]
