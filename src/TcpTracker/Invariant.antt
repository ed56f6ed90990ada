-- ===== src/TcpTracker/Invariant.antt =====
-- What holds of the tracker of tcp_conn_tracker/tcp_conn_tracker.go between two calls.
use observability_cli.Prelude.{
  ℕ, ◌≤◌, ◌≡◌, refl, true, false, [], arith, nat_eq, All, IsMap, put, delete, put-IsMap,
  delete-IsMap, All-put, All-delete, All-get,
}
use observability_cli.Net.{Traffic, TcpPacket}
use observability_cli.Collector.{Collector}
use observability_cli.Collector.SampledErrors.{SampledErrors}
use observability_cli.TcpTracker.{
  ConnectionInfo, Tracker, augment_with, new_connection, add_connection, process_tcp, process,
  flush_connection, close_connections, close, new_collector,
}
use observability_cli.TcpTracker.Cases.{process_tcp_cases, process_cases, flush_cases}

-- The summary carries its key's ID, its times are in order, and its timer runs.
abbrev pub IsSummaryOf : ℕ × ConnectionInfo → Type 0
IsSummaryOf (k, info) =
    (info.tcp_metadata.connection_id ≡ k)
    × (info.first_observation_time ≤ info.last_observation_time)
    × (info.timeout ≡ true)

pub record Inv {S : Type 0} (c : Tracker S) : Type 0 where
  pub keys : IsMap c.active_connections
  pub summaries : All IsSummaryOf c.active_connections
  pub closed_empty : c.closed ≡ true → c.active_connections ≡ []

pub new_collector-Inv : {S : Type 0} (s : S) → Inv (new_collector s)
unfolding new_collector
new_collector-Inv s = record { keys = tt; summaries = tt; closed_empty = λ _. refl }

augment_with-IsSummaryOf :
    (k : ℕ) (info : ConnectionInfo) (packet : Traffic) (tcp : TcpPacket)
    → IsSummaryOf (k, info)
    → IsSummaryOf (k, augment_with info packet tcp)
unfolding augment_with
augment_with-IsSummaryOf k info packet tcp h = ground arith

put-Inv :
    {S : Type 0} (c : Tracker S) (k : ℕ) (info : ConnectionInfo) (s : S)
    → Inv c
    → c.closed ≡ false
    → IsSummaryOf (k, info)
    → Inv (record c { active_connections = put k info c.active_connections; next = s })
put-Inv c k info s v o h = record {
  keys = put-IsMap k info c.active_connections v.keys;
  summaries = All-put IsSummaryOf k info c.active_connections h v.summaries;
  closed_empty = λ q. cc;
}

module _ {S : Type 0} (collector : Collector S) where
  process_tcp-Inv :
      (c : Tracker S) (packet : Traffic) (tcp : TcpPacket)
      → Inv c
      → Inv (process_tcp collector c packet tcp).0
  unfolding add_connection new_connection
  process_tcp-Inv c packet tcp v =
      process_tcp_cases collector Inv c packet tcp v
        (λ o e.
          put-Inv c tcp.connection_id (new_connection packet tcp) c.next v o
            (refl, omega arith, refl))
        (λ info o e. put-Inv c tcp.connection_id _ _ v o (
          augment_with-IsSummaryOf tcp.connection_id info packet tcp
            (All-get IsSummaryOf tcp.connection_id info c.active_connections v.summaries e)))

  -- Each packet keeps the invariant.
  pub process-Inv : (c : Tracker S) (packet : Traffic) → Inv c → Inv (process collector c packet).0
  process-Inv c packet v =
      process_cases collector Inv c packet
        (record { keys = v.keys; summaries = v.summaries; closed_empty = v.closed_empty })
        (λ tcp _. process_tcp-Inv c packet tcp v)

  -- So does each timeout.
  pub flush_connection-Inv :
      (c : Tracker S) (k : ℕ) → Inv c → Inv (flush_connection collector c k).0
  unfolding delete
  flush_connection-Inv c k v =
      flush_cases collector (λ r. Inv r.0) c k (λ _. v)
        (λ info e. record {
          keys = delete-IsMap k c.active_connections v.keys;
          summaries = All-delete IsSummaryOf k c.active_connections v.summaries;
          closed_empty = λ q. rw (v.closed_empty q) refl;
        })

module _ {S E : Type 0} (collector : Collector S) (sampled : SampledErrors E) where
  -- And so does `Close`.
  pub close-Inv : (c : Tracker S) → Inv (close collector sampled c).0
  unfolding close close_connections
  close-Inv c = record { keys = tt; summaries = tt; closed_empty = λ _. refl }
