-- ===== src/TlsTracker.antt =====
-- tls_conn_tracker/tls_conn_tracker.go: TLS hellos made into one report for each complete handshake.
pub mod Events
pub mod View
pub mod Isolation
pub mod Complete
pub mod Examples
use observability_cli.Prelude.{
  ℕ, ◌≡◌, Bool, true, false, Option, none, some, List, [], ◌∷◌, nat_eq, if◌then◌else◌, Map, get,
  put, delete,
}
use observability_cli.Net.{
  Traffic, Content, ClientHello, ServerHello, TlsHandshake, http_request, http_response, tcp_packet,
  tcp_connection, client_hello, server_hello, tls_handshake, http2_preface, quic_handshake,
  dropped_bytes, Error,
}
use observability_cli.Collector.{Collector}

-- The methods of akinet.TLSHandshakeMetadata. The two that add return the new value, which keeps its
-- ID, and may fail.
pub record Handshakes : Type 0 where
  pub add_client_hello : TlsHandshake → ClientHello → TlsHandshake × Error
  pub add_server_hello : TlsHandshake → ServerHello → TlsHandshake × Error
  pub handshake_complete : TlsHandshake → Bool
  pub connection_id-add_client_hello :
      (m : TlsHandshake) (h : ClientHello)
      → (add_client_hello m h).0.connection_id ≡ m.connection_id
  pub connection_id-add_server_hello :
      (m : TlsHandshake) (h : ServerHello)
      → (add_server_hello m h).0.connection_id ≡ m.connection_id

-- connectionInfo
pub record TlsConnectionInfo : Type 0 where
  pub src_ip : ℕ
  pub src_port : ℕ
  pub dst_ip : ℕ
  pub dst_port : ℕ
  pub first_observation_time : ℕ
  pub last_observation_time : ℕ
  pub handshake_metadata : TlsHandshake
  -- Whether the timer runs.
  pub timeout : Bool

-- collector
pub record TlsTracker (S : Type 0) : Type 0 where
  pub closed : Bool
  pub active_connections : Map ℕ TlsConnectionInfo
  pub next : S

pub new_collector : {S : Type 0} → S → TlsTracker S
new_collector s = record { closed = false; active_connections = []; next = s }

-- The entry that `addConnection` makes.
pub new_connection : ℕ → Traffic → TlsConnectionInfo
new_connection id packet = record {
  src_ip = packet.src_ip;
  src_port = packet.src_port;
  dst_ip = packet.dst_ip;
  dst_port = packet.dst_port;
  first_observation_time = packet.observation_time;
  last_observation_time = packet.observation_time;
  handshake_metadata = record {
    connection_id = id;
    version = none;
    sni_hostname = none;
    supported_protocols = [];
    selected_protocol = none;
    subject_alternative_names = [];
  };
  timeout = true;
}

-- What `flushConnection` sends on.
pub report : TlsConnectionInfo → Traffic
report info = record {
  src_ip = info.src_ip;
  src_port = info.src_port;
  dst_ip = info.dst_ip;
  dst_port = info.dst_port;
  interface = "";
  content = tls_handshake info.handshake_metadata;
  observation_time = info.first_observation_time;
  final_packet_time = info.last_observation_time;
}

module _ {S : Type 0} where
  -- The entry, found or made. The hello that is then added is written to the map with it.
  pub ensure_connection : TlsTracker S → ℕ → Traffic → TlsConnectionInfo
  unfolding new_connection
  ensure_connection c id packet = elim (get id c.active_connections) [
    | some info ↦ info
    | none ↦ new_connection id packet
  ]

  -- The function that the timer runs.
  pub expire_connection : TlsTracker S → ℕ → TlsTracker S
  expire_connection c id = record c { active_connections = delete id c.active_connections }

module _ (handshakes : Handshakes) {S : Type 0} (collector : Collector S) where
  open handshakes use {add_client_hello, add_server_hello, handshake_complete}

  pub flush_connection : TlsTracker S → ℕ → TlsTracker S × (Bool × Error)
  unfolding report
  flush_connection c id = elim (get id c.active_connections) [
    | none ↦ (c, (false, none))
    | some info ↦
        let (s, err) = collector.process c.next (report info) in
        (record c { active_connections = delete id c.active_connections; next = s }, (true, err))
  ]

  -- A branch of the `switch` for a hello, from where the hello is added to the entry `info`.
  pub add_hello : TlsTracker S → ℕ → TlsConnectionInfo → TlsHandshake × Error → TlsTracker S × Error
  unfolding flush_connection
  add_hello c id info (metadata, err) =
      let c' = record c {
        active_connections =
            put id (record info { handshake_metadata = metadata }) c.active_connections;
      } in
      let (flushed, (_, flush_err)) = flush_connection c' id in
      elim err [
        | some e ↦ (c', some e)
        | none ↦ if handshake_complete metadata then (flushed, flush_err) else (c', none)
      ]

  pub process_client_hello : TlsTracker S → Traffic → ClientHello → TlsTracker S × Error
  unfolding add_hello ensure_connection
  process_client_hello c packet tls =
      let info = ensure_connection c tls.connection_id packet in
      if c.closed
      then (c, none)
      else add_hello c tls.connection_id info (add_client_hello info.handshake_metadata tls)

  pub process_server_hello : TlsTracker S → Traffic → ServerHello → TlsTracker S × Error
  unfolding add_hello ensure_connection
  process_server_hello c packet tls =
      let info = ensure_connection c tls.connection_id packet in
      if c.closed
      then (c, none)
      else add_hello c tls.connection_id info (add_server_hello info.handshake_metadata tls)

  pub forward : TlsTracker S → Traffic → TlsTracker S × Error
  forward c packet = let (s, err) = collector.process c.next packet in (record c { next = s }, err)

  pub process_content : Content → TlsTracker S → Traffic → TlsTracker S × Error
  unfolding process_client_hello process_server_hello forward
  process_content (client_hello tls) c packet = process_client_hello c packet tls
  process_content (server_hello tls) c packet = process_server_hello c packet tls
  process_content (http_request _) c packet = forward c packet
  process_content (http_response _) c packet = forward c packet
  process_content (tcp_packet _) c packet = forward c packet
  process_content (tcp_connection _) c packet = forward c packet
  process_content (tls_handshake _) c packet = forward c packet
  process_content http2_preface c packet = forward c packet
  process_content quic_handshake c packet = forward c packet
  process_content (dropped_bytes _) c packet = forward c packet

  pub process : TlsTracker S → Traffic → TlsTracker S × Error
  unfolding process_content
  process c packet = process_content packet.content c packet

  -- `Close`: partial handshakes are dropped with their timers.
  pub close : TlsTracker S → TlsTracker S × Error
  close c =
      let (s, err) = collector.close c.next in
      (record { closed = true; active_connections = []; next = s }, err)

  pub tls_collector : Collector (TlsTracker S)
  unfolding process close
  tls_collector = record { process = process; close = close }
