-- ===== src/Trace/Stats/Examples.antt =====
-- The counters of trace/stats.go on a little traffic.
use observability_cli.Prelude.{ℕ, [], ◌∷◌, arith, nat_eq, ltb}
use observability_cli.Trace.Telemetry.{no_counts}
use observability_cli.Trace.Stats.{BoundedPacketCounter}
use observability_cli.Trace.Stats.Top.{Ordered, top_n}
use observability_cli.Trace.Stats.Top.Largest.{IsTop, top_n-IsTop}
use observability_cli.Trace.Stats.Top.Insertion.{insertion}

by_number : Ordered ℕ
by_number = record {
  less = ltb;
  less_irrefl = λ a. ground arith;
  less_trans = λ a b c h k. ground arith;
  less_total = λ a b h k. ground arith;
}

abbrev ports : BoundedPacketCounter ℕ
ports = record {
  limit = 3;
  overflow = no_counts;
  m =
      (80, record no_counts { tcp_packets = 3 })
      ∷ (5000, record no_counts { tcp_packets = 2 })
      ∷ (6000, record no_counts { tcp_packets = 1 })
      ∷ [];
}

top_n-IsTop_example :
    IsTop by_number
      (λ c. c.tcp_packets)
      2
      ports.m
      (top_n by_number insertion ports 2 (λ c. c.tcp_packets)).0
top_n-IsTop_example =
    top_n-IsTop by_number insertion ports 2 (λ c. c.tcp_packets)
      (((λ e. ground arith), ((λ e. ground arith), tt)), (((λ e. ground arith), tt), (tt, tt)))
