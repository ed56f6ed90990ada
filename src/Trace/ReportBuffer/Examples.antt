-- ===== src/Trace/ReportBuffer/Examples.antt =====
-- The buffer of trace/report_buffer.go with a limit of ten bytes.
use observability_cli.Prelude.{ℕ, ◌≡◌, none, some, List, [], ◌∷◌}
use observability_cli.Trace.Telemetry.{field_by_field}
use observability_cli.Trace.Stats.{PacketCounter, new_packet_counter, update}
use observability_cli.Trace.Counting.{Consumer}
use observability_cli.Trace.ReportBuffer.{RawReport, empty_request, new_report_buffer, is_oversized}
use observability_cli.Trace.ReportBuffer.Conservation.{
  Step, adds, flushes, run, in_all, run-accepted,
}

abbrev counters : Consumer PacketCounter
counters = record { update = update field_by_field }

abbrev witness : ℕ → ℕ → RawReport ℕ ℕ
witness id size = record {
  witness = some (record {
    report = some (record { witness_id = id; witness_proto_length = size });
    net_interface = "eth0";
    src_port = 80;
    dst_port = 5000;
  });
  tcp_report = none;
  tls_handshake_report = some id;
}

abbrev steps : List (Step ℕ ℕ)
steps =
    adds (witness 1 5)
    ∷ flushes
    ∷ adds (witness 2 11)
    ∷ flushes
    ∷ flushes
    ∷ adds (witness 3 10)
    ∷ []

run-accepted_example :
    in_all counters
      (λ _. 0)
      (run counters
        (λ _. 0)
        (new_report_buffer new_packet_counter 100 (some 10), empty_request)
        steps)
    ≡ record {
      witnesses =
          record { witness_id = 1; witness_proto_length = 5 }
          ∷ record { witness_id = 3; witness_proto_length = 10 }
          ∷ [];
      tcp_connections = [];
      tls_handshakes = 1 ∷ 2 ∷ 3 ∷ [];
    }
unfolding is_oversized
run-accepted_example = run-accepted counters (λ _. 0) new_packet_counter 100 (some 10) steps
