-- ===== src/TcpTracker/History.antt =====
-- Histories of the tracker of tcp_conn_tracker/tcp_conn_tracker.go: packets and timeouts in any order.
use observability_cli.Prelude.{ℕ, List, [], ◌∷◌}
use observability_cli.Net.{Traffic}
use observability_cli.Collector.{Collector}
use observability_cli.TcpTracker.{Tracker, process, flush_connection, new_collector}
use observability_cli.TcpTracker.Invariant.{
  Inv, process-Inv, flush_connection-Inv, new_collector-Inv,
}

pub data Event : Type 0 where
  arrives : Traffic → Event
  times_out : ℕ → Event

module _ {S : Type 0} (collector : Collector S) where
  unfoldable pub step : Tracker S → Event → Tracker S
  step c (arrives t) = (process collector c t).0
  step c (times_out k) = (flush_connection collector c k).0

  unfoldable pub replay : Tracker S → List Event → Tracker S
  unfolding step
  replay c [] = c
  replay c (e ∷ es) = replay (step c e) es

  pub replay-Inv : (c : Tracker S) (es : List Event) → Inv c → Inv (replay c es)
  unfolding replay
  replay-Inv c [] v = v
  replay-Inv c (arrives t ∷ es) v =
      replay-Inv (process collector c t).0 es (process-Inv collector c t v)
  replay-Inv c (times_out k ∷ es) v =
      replay-Inv (flush_connection collector c k).0 es (flush_connection-Inv collector c k v)

  -- After any packets and timeouts, no connection has two summaries, each summary carries the ID
  -- that it is filed under, its first time is not after its last, its timer runs, and a closed
  -- tracker has none.
  pub replay-new_collector-Inv : (s : S) (es : List Event) → Inv (replay (new_collector s) es)
  replay-new_collector-Inv s es = replay-Inv (new_collector s) es (new_collector-Inv s)
