-- ===== src/Trace/Stats/Summary.antt =====
-- `Summary` of trace/stats.go.
use observability_cli.Prelude.{ℕ, ◌+◌, String, Option, Map, nat_eq, string_eq}
use observability_cli.Trace.Telemetry.{PacketCounts}
use observability_cli.Trace.Stats.{PacketCounter, max_keys}
use observability_cli.Trace.Stats.Top.{Ordered, SortFunc, top_n}

-- client_telemetry.PacketCountSummary, without its version.
pub record PacketCountSummary : Type 0 where
  pub total : PacketCounts
  pub top_by_port : Map ℕ PacketCounts
  pub top_by_interface : Map String PacketCounts
  pub top_by_host : Map String PacketCounts
  pub by_port_overflow_limit : ℕ
  pub by_interface_overflow_limit : ℕ
  pub by_host_overflow_limit : ℕ
  pub by_port_overflow : Option PacketCounts
  pub by_interface_overflow : Option PacketCounts
  pub by_host_overflow : Option PacketCounts

module _ (ports : Ordered ℕ) (names : Ordered String) (sort_ports : SortFunc (ℕ × PacketCounts))
    (sort_names : SortFunc (String × PacketCounts)) where
  unfoldable pub summary : PacketCounter → ℕ → PacketCountSummary
  summary s n =
      let (top_by_port, by_port_overflow) = top_n ports sort_ports s.by_port n λ c. c.tcp_packets in
      let (top_by_interface, by_interface_overflow) =
        top_n names sort_names s.by_interface n λ c. c.tcp_packets in
      let (top_by_host, by_host_overflow) =
        top_n names sort_names s.by_host n λ c. c.http_requests + c.tls_hello in
      record {
        total = s.total;
        top_by_port = top_by_port;
        top_by_interface = top_by_interface;
        top_by_host = top_by_host;
        by_port_overflow_limit = max_keys;
        by_interface_overflow_limit = max_keys;
        by_host_overflow_limit = max_keys;
        by_port_overflow = by_port_overflow;
        by_interface_overflow = by_interface_overflow;
        by_host_overflow = by_host_overflow;
      }
