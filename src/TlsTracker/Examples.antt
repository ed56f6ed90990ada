-- ===== src/TlsTracker/Examples.antt =====
-- The tracker of tls_conn_tracker/tls_conn_tracker.go on two interleaved handshakes.
use observability_cli.Prelude.{ℕ, ◌≡◌, refl, true, false, none, some, List, [], ◌∷◌, nat_eq, arith}
use observability_cli.Net.{
  Traffic, Content, TlsHandshake, client_hello, server_hello, tls_handshake,
}
use observability_cli.Collector.Run.{recorder}
use observability_cli.TlsTracker.{Handshakes, new_collector, new_connection, report}
use observability_cli.TlsTracker.Events.{Event, arrives, times_out, closes, run}
use observability_cli.TlsTracker.View.{view}
use observability_cli.TlsTracker.Isolation.{run-new_collector-view}

-- Complete with a version and a name; a second client hello fails.
abbrev both_hellos : Handshakes
both_hellos = record {
  add_client_hello = λ m h. elim m.sni_hostname [
    | none ↦ (record m { sni_hostname = some "example.org" }, none)
    | some _ ↦ (m, some "a second client hello")
  ];
  add_server_hello = λ m h. (record m { version = some 3 }, none);
  handshake_complete = λ m. elim m.sni_hostname [
    | none ↦ false
    | some _ ↦ elim m.version [ none ↦ false | some _ ↦ true ]
  ];
  connection_id-add_client_hello = λ m h. ground arith;
  connection_id-add_server_hello = λ m h. refl;
}

abbrev packet : ℕ → Content → Traffic
packet time x = record {
  src_ip = 1;
  src_port = 5000;
  dst_ip = 2;
  dst_port = 443;
  interface = "eth0";
  content = x;
  observation_time = time;
  final_packet_time = time;
}

abbrev client : ℕ → ℕ → Event
client id time =
    arrives (packet time (client_hello (record { connection_id = id; hostname = none })))

abbrev server : ℕ → ℕ → Event
server id time =
    arrives (packet time (server_hello (record { connection_id = id; dns_names = [] })))

abbrev events : List Event
events = client 7 10 ∷ client 8 11 ∷ server 7 12 ∷ times_out 8 ∷ server 8 13 ∷ closes ∷ []

abbrev handshake_7 : TlsHandshake
handshake_7 = record {
  connection_id = 7;
  version = some 3;
  sni_hostname = some "example.org";
  supported_protocols = [];
  selected_protocol = none;
  subject_alternative_names = [];
}

abbrev report_7 : Traffic
report_7 = record (packet 10 (tls_handshake handshake_7)) { interface = ""; final_packet_time = 10 }

run-new_collector-view_example :
    view 7 (run both_hellos recorder (new_collector []) events)
    ≡ record { closed = true; entry = none; reports = report_7 ∷ [] }
unfolding new_connection report
run-new_collector-view_example = run-new_collector-view both_hellos 7 events
