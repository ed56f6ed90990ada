-- ===== src/TcpTracker/Reports.antt =====
-- How often tcp_conn_tracker/tcp_conn_tracker.go reports a connection, over packets, timeouts and
-- the final `Close`, in any order.
use observability_cli.Prelude.{
  ℕ, ◌+◌, ◌-◌, ◌≤◌, ◌≡◌, refl, Bool, false, none, some, List, [], ◌∷◌, ◌++◌, arith, nat_eq, nat_beq,
  nat_beq_iff, if◌then◌else◌, Map, get, put, delete, get-put, get-delete, Fresh-get, All, IsMap,
  count_if, count_if-append, All-get,
}
use observability_cli.Net.{Traffic, tcp_connection}
use observability_cli.Collector.Run.{recorder}
use observability_cli.Collector.SampledErrors.{SampledErrors}
use observability_cli.TcpTracker.{
  ConnectionInfo, Tracker, augment_with, report, new_connection, add_connection, process,
  flush_connection, flush_all, close_connections, close, new_collector,
}
use observability_cli.TcpTracker.Cases.{process_tcp_cases, process_cases, flush_cases}
use observability_cli.TcpTracker.Invariant.{
  Inv, IsSummaryOf, process-Inv, flush_connection-Inv, new_collector-Inv,
}
use observability_cli.TcpTracker.History.{Event, arrives, times_out, step, replay, replay-Inv}

-- Is this traffic the report of connection `k`?
abbrev pub is_report : ℕ → Traffic → Bool
is_report k t = elim t.content [ tcp_connection m ↦ nat_beq m.connection_id k | _ ↦ false ]

-- How many reports of `k` the next collector has been given.
abbrev pub reports : ℕ → List Traffic → ℕ
reports k = count_if (is_report k)

-- 1 if the tracker has a summary of `k`, else 0.
abbrev pub active : ℕ → Map ℕ ConnectionInfo → ℕ
active k m = elim (get k m) [ none ↦ 0 | some _ ↦ 1 ]

abbrev pub Log : Type 0
Log = Tracker (List Traffic)

-- What comes from the network is no report of a connection.
abbrev pub IsInput : Event → Type 0
IsInput (arrives t) = (k : ℕ) → is_report k t ≡ false
IsInput (times_out _) = Unit

-- How often a connection `k` is opened: a packet of `k` comes in that makes the tracker keep `k`.
unfoldable pub openings : ℕ → Log → List Event → ℕ
openings k c [] = 0
openings k c (e ∷ es) =
    let rest = openings k (step recorder c e) es in
    elim e [
      | arrives t ↦
          (active k (step recorder c (arrives t)).active_connections
            - active k c.active_connections)
          + rest
      | times_out _ ↦ rest
    ]

reports-snoc :
    (k : ℕ) (log : List Traffic) (t : Traffic)
    → reports k (log ++ t ∷ []) ≡ reports k log + (if is_report k t then 1 else 0)
reports-snoc k log t = ground (arith, count_if-append (is_report k) log (t ∷ []))

active-delete :
    (k j : ℕ) (m : Map ℕ ConnectionInfo)
    → active k (delete j m) ≡ (if nat_beq j k then 0 else active k m)
active-delete k j m = ground (arith, get-delete j k m)

active-put-ge :
    (k j : ℕ) (info : ConnectionInfo) (m : Map ℕ ConnectionInfo)
    → active k (put j info m) ≡ (if nat_beq j k then 1 else active k m)
active-put-ge k j info m = ground (arith, get-put j k info m)

-- A packet reports nothing, and no connection is forgotten.
Quiet : ℕ → Log → Log → Type 0
Quiet k c d =
    (reports k d.next ≡ reports k c.next)
    × (active k c.active_connections ≤ active k d.active_connections)

process-Quiet :
    (k : ℕ) (c : Log) (t : Traffic) → is_report k t ≡ false → Quiet k c (process recorder c t).0
unfolding Quiet add_connection
process-Quiet k c t input =
    process_cases recorder (Quiet k c) c t (passed, omega arith)
      λ p _.
        process_tcp_cases recorder (Quiet k c) c t p (refl, omega arith)
          (λ _ _. (
            refl,
            ground
                (arith, active-put-ge k p.connection_id (new_connection t p) c.active_connections),
          ))
          (λ info _ _. (
            passed,
            ground (
              arith,
              active-put-ge k p.connection_id (augment_with info t p) c.active_connections,
            ),
          ))
  where
    passed : reports k (c.next ++ t ∷ []) ≡ reports k c.next
    passed = ground (arith, reports-snoc k c.next t)

is_report-report :
    (k j : ℕ) (info : ConnectionInfo)
    → IsSummaryOf (j, info)
    → is_report k (report info) ≡ nat_beq j k
unfolding report
is_report-report k j info h = ground arith

-- A timeout turns a summary into a report.
flush-balance :
    (k j : ℕ) (c : Log)
    → Inv c
    → let d = (flush_connection recorder c j).0 in
      reports k d.next + active k d.active_connections
      ≡ reports k c.next + active k c.active_connections
flush-balance k j c v =
    flush_cases recorder
      (λ r.
        reports k r.0.next + active k r.0.active_connections
        ≡ reports k c.next + active k c.active_connections)
      c j (λ _. refl)
      λ info e. ground (
        arith,
        nat_beq_iff j k,
        reports-snoc k c.next (report info),
        is_report-report k j info (All-get IsSummaryOf j info c.active_connections v.summaries e),
        active-delete k j c.active_connections,
      )

-- So do the flushes of `Close`, each connection in turn.
module _ {E : Type 0} (sampled : SampledErrors E) where
  flush_all-reports :
      (k : ℕ) (m : Map ℕ ConnectionInfo) (log : List Traffic) (errs : E)
      → IsMap m
      → All IsSummaryOf m
      → reports k (flush_all recorder sampled m log errs).0 ≡ reports k log + active k m
  unfolding flush_all get
  flush_all-reports k [] log errs h s = omega arith
  flush_all-reports k ((j, info) ∷ m) log errs h s = ground (
    arith,
    nat_beq_iff j k,
    flush_all-reports k m (log ++ report info ∷ []) errs h.1 s.1,
    reports-snoc k log (report info),
    is_report-report k j info s.0,
    Fresh-get j m h.0,
  )

replay-balance :
    (k : ℕ) (c : Log) (es : List Event)
    → Inv c
    → All IsInput es
    → reports k (replay recorder c es).next + active k (replay recorder c es).active_connections
      ≡ reports k c.next + active k c.active_connections + openings k c es
unfolding replay openings step Quiet
replay-balance k c [] v i = omega arith
replay-balance k c (arrives t ∷ es) v i = omega (
  arith,
  process-Quiet k c t (i.0 k),
  replay-balance k (process recorder c t).0 es (process-Inv recorder c t v) i.1,
)
replay-balance k c (times_out j ∷ es) v i = omega (
  arith,
  flush-balance k j c v,
  replay-balance k (flush_connection recorder c j).0 es (flush_connection-Inv recorder c j v) i.1,
)

-- Whatever packets and timeouts come, in whatever order, if no packet is itself a report: once the
-- tracker is closed each connection has been reported exactly as often as it was opened.
pub close-reports :
    {E : Type 0} (sampled : SampledErrors E) (k : ℕ) (es : List Event)
    → All IsInput es
    → reports k (close recorder sampled (replay recorder (new_collector []) es)).0.next
      ≡ openings k (new_collector []) es
unfolding close close_connections new_collector get
close-reports sampled k es i =
    let c = replay recorder (new_collector []) es in
    let v = replay-Inv recorder (new_collector []) es (new_collector-Inv []) in
    omega (
      arith,
      flush_all-reports sampled k c.active_connections c.next (sampled.empty 5) v.keys v.summaries,
      replay-balance k (new_collector []) es (new_collector-Inv []) i,
    )
