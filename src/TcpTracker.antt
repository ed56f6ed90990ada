-- ===== src/TcpTracker.antt =====
-- tcp_conn_tracker/tcp_conn_tracker.go: summaries of TCP connections. The methods hold the mutex
-- throughout, so each is one step of the state. A timer is its callback: the environment calls
-- `flush_connection` for any connection at any time, a superset of what the timers do; `timeout`
-- says whether the connection's timer was last started or stopped.
pub mod Infer
pub mod Cases
pub mod Invariant
pub mod Findings
pub mod Summary
pub mod History
pub mod Reports
pub mod Closing
pub mod Examples
use Infer.{infer_initiator, next_end_state}
use observability_cli.Prelude.{
  ℕ, Bool, true, false, not, ◌&&◌, ◌||◌, Option, none, some, List, [], ◌∷◌, String, ltb, nat_beq,
  nat_eq, if◌then◌else◌, Map, get, put, delete,
}
use observability_cli.Net.{
  Traffic, TcpPacket, TcpConnection, Content, http_request, http_response, tcp_packet,
  tcp_connection, client_hello, server_hello, tls_handshake, http2_preface, quic_handshake,
  dropped_bytes, unknown_initiator, connection_open, Error,
}
use observability_cli.Collector.{Collector}
use observability_cli.Collector.SampledErrors.{SampledErrors, add_error, as_error}

pub record ConnectionInfo : Type 0 where
  pub src_ip : ℕ
  pub src_port : ℕ
  pub dst_ip : ℕ
  pub dst_port : ℕ
  pub first_observation_time : ℕ
  pub last_observation_time : ℕ
  pub tcp_metadata : TcpConnection
  pub timeout : Bool

-- The collector, together with the state of the next one.
pub record Tracker (S : Type 0) : Type 0 where
  pub closed : Bool
  pub active_connections : Map ℕ ConnectionInfo
  pub next : S

pub new_collector : {S : Type 0} → S → Tracker S
new_collector s = record { closed = false; active_connections = []; next = s }

unfoldable pub augment_with : ConnectionInfo → Traffic → TcpPacket → ConnectionInfo
unfolding infer_initiator next_end_state
augment_with info packet metadata = record info {
  first_observation_time =
      if ltb packet.observation_time info.first_observation_time
      then packet.observation_time
      else info.first_observation_time;
  last_observation_time =
      if ltb info.last_observation_time packet.observation_time
      then packet.observation_time
      else info.last_observation_time;
  tcp_metadata = record info.tcp_metadata {
    initiator =
        infer_initiator info.tcp_metadata.initiator
          (nat_beq info.src_ip packet.src_ip && nat_beq info.src_port packet.src_port) metadata;
    end_state = next_end_state info.tcp_metadata.end_state metadata;
  };
  timeout = true;
}

-- What `flushConnection` and `close` send on for a connection.
pub report : ConnectionInfo → Traffic
report info = record {
  src_ip = info.src_ip;
  src_port = info.src_port;
  dst_ip = info.dst_ip;
  dst_port = info.dst_port;
  interface = "";
  content = tcp_connection info.tcp_metadata;
  observation_time = info.first_observation_time;
  final_packet_time = info.last_observation_time;
}

unfoldable pub new_connection : Traffic → TcpPacket → ConnectionInfo
new_connection packet metadata = record {
  src_ip = packet.src_ip;
  src_port = packet.src_port;
  dst_ip = packet.dst_ip;
  dst_port = packet.dst_port;
  first_observation_time = packet.observation_time;
  last_observation_time = packet.observation_time;
  tcp_metadata = record {
    connection_id = metadata.connection_id;
    initiator = unknown_initiator;
    end_state = connection_open;
  };
  timeout = true;
}

-- A packet of no known connection that `Process` passes over: a lone ACK, or a reset.
pub is_stray : TcpPacket → Bool
is_stray p = (nat_beq p.payload_length 0 && (p.ack && not (p.fin || (p.rst || p.syn)))) || p.rst

module _ {S : Type 0} where
  pub add_connection : Tracker S → Traffic → TcpPacket → Tracker S
  unfolding new_connection
  add_connection c packet metadata = record c {
    active_connections =
        put metadata.connection_id (new_connection packet metadata) c.active_connections;
  }

module _ {S : Type 0} (collector : Collector S) where
  -- `c.collector.Process(packet)`
  pub forward : Tracker S → Traffic → Tracker S × Error
  forward c packet = let (s, err) = collector.process c.next packet in (record c { next = s }, err)

  pub process_tcp : Tracker S → Traffic → TcpPacket → Tracker S × Error
  unfolding forward
  process_tcp c packet tcp =
      if c.closed then (c, none) else elim (get tcp.connection_id c.active_connections) [
        | none ↦ if is_stray tcp then (c, none) else (add_connection c packet tcp, none)
        | some info ↦
            forward
              (record c {
                active_connections =
                    put tcp.connection_id (augment_with info packet tcp) c.active_connections;
              })
              packet
      ]

  pub process_content : Content → Tracker S → Traffic → Tracker S × Error
  unfolding process_tcp forward
  process_content (tcp_packet tcp) c packet = process_tcp c packet tcp
  process_content (http_request _) c packet = forward c packet
  process_content (http_response _) c packet = forward c packet
  process_content (tcp_connection _) c packet = forward c packet
  process_content (client_hello _) c packet = forward c packet
  process_content (server_hello _) c packet = forward c packet
  process_content (tls_handshake _) c packet = forward c packet
  process_content http2_preface c packet = forward c packet
  process_content quic_handshake c packet = forward c packet
  process_content (dropped_bytes _) c packet = forward c packet

  pub process : Tracker S → Traffic → Tracker S × Error
  unfolding process_content
  process c packet = process_content packet.content c packet

  -- The result says whether the connection existed.
  pub flush_connection : Tracker S → ℕ → Tracker S × (Bool × Error)
  unfolding report
  flush_connection c connection_id = elim (get connection_id c.active_connections) [
    | none ↦ (c, (false, none))
    | some info ↦
        let (s, err) = collector.process c.next (report info) in
        (
          record c { active_connections = delete connection_id c.active_connections; next = s },
          (true, err),
        )
  ]

module _ {S E : Type 0} (collector : Collector S) (sampled : SampledErrors E) where
  -- The loop of `close` over the active connections.
  pub flush_all : Map ℕ ConnectionInfo → S → E → S × E
  unfolding report
  flush_all [] s errs = (s, errs)
  flush_all ((_, info) ∷ rest) s errs =
      let (s', err) = collector.process s (report info) in
      flush_all rest s' (add_error sampled errs err)

  -- `close`: the tracker afterwards, and the errors.
  pub close_connections : Tracker S → Tracker S × E
  unfolding flush_all
  close_connections c =
      let (s, errs) = flush_all c.active_connections c.next (sampled.empty 5) in
      (record { closed = true; active_connections = []; next = s }, errs)

  -- `Close`
  pub close : Tracker S → Tracker S × Error
  unfolding close_connections
  close c =
      let (c', errs) = close_connections c in
      let (s, close_err) = collector.close c'.next in
      (record c' { next = s }, as_error sampled (add_error sampled errs close_err))

  pub tcp_collector : Collector (Tracker S)
  unfolding process close
  tcp_collector = record { process = process collector; close = close }
