-- ===== src/TcpTracker/Examples.antt =====
-- Runs of the tracker of tcp_conn_tracker/tcp_conn_tracker.go on a short connection.
use observability_cli.Prelude.{
  ℕ, ◌≡◌, refl, true, false, some, List, [], ◌∷◌, get, put, nat_eq, delete,
}
use observability_cli.Net.{Traffic, TcpPacket, tcp_packet}
use observability_cli.Collector.Run.{recorder}
use observability_cli.Collector.SampledErrors.{counted_errors}
use observability_cli.TcpTracker.{
  ConnectionInfo, Tracker, augment_with, new_connection, is_stray, add_connection, process,
  flush_connection, close, new_collector,
}
use observability_cli.TcpTracker.Findings.{Summarises}
use observability_cli.TcpTracker.Summary.{packets_of, run, run-Summarises}
use observability_cli.TcpTracker.History.{Event, arrives, times_out, replay}
use observability_cli.TcpTracker.Reports.{reports, openings, close-reports}

abbrev syn : TcpPacket
syn = record {
  connection_id = 7;
  syn = true;
  ack = false;
  fin = false;
  rst = false;
  payload_length = 0;
}

abbrev syn_ack : TcpPacket
syn_ack = record syn { ack = true }

abbrev reset : TcpPacket
reset = record syn { syn = false; rst = true }

abbrev packet : TcpPacket → ℕ → Traffic
packet p time = record {
  src_ip = 1;
  src_port = 5000;
  dst_ip = 2;
  dst_port = 80;
  interface = "eth0";
  content = tcp_packet p;
  observation_time = time;
  final_packet_time = 0;
}

abbrev reply : TcpPacket → ℕ → Traffic
reply p time = record (packet p time) { src_ip = 2; src_port = 80; dst_ip = 1; dst_port = 5000 }

-- The tracker after the first SYN.
abbrev opened : Tracker (List Traffic)
opened = record {
  closed = false;
  active_connections = (7, unfold new_connection in new_connection (packet syn 10) syn) ∷ [];
  next = [];
}

opened_lem : (process recorder (new_collector []) (packet syn 10)).0 ≡ opened
unfolding process new_collector is_stray add_connection new_connection get put
opened_lem = refl

abbrev conversation : List Traffic
conversation = reply syn_ack 11 ∷ packet reset 9 ∷ []

run-Summarises_example :
    (found : ConnectionInfo) × (get 7 (run recorder opened conversation).active_connections
      ≡ some found)
    × Summarises
        (unfold new_connection in new_connection (packet syn 10) syn)
        (packets_of 7 conversation)
        found
unfolding get new_connection
run-Summarises_example =
    run-Summarises recorder opened 7 (new_connection (packet syn 10) syn) conversation refl refl

abbrev history : List Event
history =
    arrives (packet syn 10)
    ∷ arrives (reply syn_ack 11)
    ∷ times_out 7
    ∷ arrives (packet syn 30)
    ∷ []

close-reports_example :
    reports 7 (close recorder counted_errors (replay recorder (new_collector []) history)).0.next
    ≡ openings 7 (new_collector []) history
close-reports_example =
    close-reports counted_errors 7 history ((λ _. refl), ((λ _. refl), (tt, ((λ _. refl), tt))))

history_opens_twice : openings 7 (new_collector []) history ≡ 2
unfolding openings replay process flush_connection new_collector is_stray add_connection
    new_connection augment_with get put delete
history_opens_twice = refl
