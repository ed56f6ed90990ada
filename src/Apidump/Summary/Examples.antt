-- ===== src/Apidump/Summary/Examples.antt =====
-- The ends of some captures, in apidump/summary.go.
use observability_cli.Prelude.{arith, ℕ, false, List, [], ◌∷◌, String}
use observability_cli.Trace.Telemetry.{PacketCounts, no_counts, field_by_field}
use observability_cli.Apidump.Summary.Tables.{matched_filter, not_matched_filter}
use observability_cli.Apidump.Summary.Reading.{read_ports}
use observability_cli.Apidump.Summary.Columns.{read_interfaces}
use observability_cli.Apidump.Summary.Counted.{IsCounted, printed, dump_packet_counters-IsCounted}
use observability_cli.Apidump.Summary.{stops_at_host, print_up_to}
use observability_cli.Apidump.Summary.Hosts.{IsCut, print_up_to-IsCut}

abbrev requests_of : ℕ → PacketCounts
requests_of n = record no_counts { http_requests = n }

-- A host with 90% of the traffic is not printed, nor is any after it.
abbrev hosts : List (String × PacketCounts)
hosts = ("api", requests_of 90) ∷ ("other", requests_of 10) ∷ []

print_up_to-IsCut_example : IsCut 100 0 0 hosts 0
unfolding print_up_to stops_at_host
print_up_to-IsCut_example = print_up_to-IsCut 100 hosts (omega arith)

abbrev exchange : ℕ → PacketCounts
exchange n = record no_counts {
  interface = "en0";
  src_port = 50_000;
  dst_port = 80;
  tcp_packets = n;
  http_requests = 1;
}

dump_packet_counters-IsCounted_example :
    let lines =
      printed field_by_field
        ("en0" ∷ "lo0" ∷ [])
        (exchange 3 ∷ exchange 4 ∷ [])
        (exchange 5 ∷ []) in
    IsCounted field_by_field
      ("en0" ∷ "lo0" ∷ [])
      (exchange 3 ∷ exchange 4 ∷ [])
      (read_ports matched_filter false lines)
      (read_interfaces matched_filter lines)
    × IsCounted field_by_field
        ("en0" ∷ "lo0" ∷ [])
        (exchange 5 ∷ [])
        (read_ports not_matched_filter false lines)
        (read_interfaces not_matched_filter lines)
dump_packet_counters-IsCounted_example =
    dump_packet_counters-IsCounted field_by_field ("en0" ∷ "lo0" ∷ [])
      (exchange 3 ∷ exchange 4 ∷ []) (exchange 5 ∷ [])
