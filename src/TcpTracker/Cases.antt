-- ===== src/TcpTracker/Cases.antt =====
-- The ways through `Process` and `flushConnection` of tcp_conn_tracker/tcp_conn_tracker.go.
use observability_cli.Prelude.{
  ℕ, ◌≡◌, refl, Bool, true, false, none, some, nat_eq, get, put, delete, if_cases, option_cases,
}
use observability_cli.Net.{
  Traffic, TcpPacket, Content, http_request, http_response, tcp_packet, tcp_connection,
  client_hello, server_hello, tls_handshake, http2_preface, quic_handshake, dropped_bytes, Error,
}
use observability_cli.Collector.{Collector}
use observability_cli.TcpTracker.{
  ConnectionInfo, Tracker, augment_with, report, is_stray, add_connection, forward, process_tcp,
  process_content, process, flush_connection,
}

module _ {S : Type 0} (collector : Collector S) where
  -- The state after a packet of a connection that is known.
  abbrev pub augmented : Tracker S → ConnectionInfo → Traffic → TcpPacket → Tracker S
  augmented c info packet tcp = record c {
    active_connections = put tcp.connection_id (augment_with info packet tcp) c.active_connections;
    next = (collector.process c.next packet).0;
  }

  pub process_tcp_cases {ℓ} :
      (P : Tracker S → Type ℓ) (c : Tracker S) (packet : Traffic) (tcp : TcpPacket)
      → P c
      → (c.closed ≡ false
          → get tcp.connection_id c.active_connections ≡ none
          → P (add_connection c packet tcp))
      → ((info : ConnectionInfo)
          → c.closed ≡ false
          → get tcp.connection_id c.active_connections ≡ some info
          → P (augmented c info packet tcp))
      → P (process_tcp collector c packet tcp).0
  unfolding process_tcp forward
  process_tcp_cases P c packet tcp same added known =
      if_cases (λ (r : Tracker S × Error). P r.0) c.closed (λ _. same)
        λ running.
          option_cases (λ (r : Tracker S × Error). P r.0)
            (get tcp.connection_id c.active_connections)
            (λ e.
              if_cases (λ (r : Tracker S × Error). P r.0) (is_stray tcp) (λ _. same)
                (λ _. added running e))
            (λ info e. known info running e)

  -- Whatever else comes is handed on, and the tracker keeps its connections.
  pub process_cases {ℓ} :
      (P : Tracker S → Type ℓ) (c : Tracker S) (packet : Traffic)
      → P (record c { next = (collector.process c.next packet).0 })
      → ((tcp : TcpPacket)
          → packet.content ≡ tcp_packet tcp
          → P (process_tcp collector c packet tcp).0)
      → P (process collector c packet).0
  unfolding process process_content forward
  process_cases P c packet other tcp = go packet.content refl
    where
      go : (k : Content) → packet.content ≡ k → P (process_content collector k c packet).0
      go (tcp_packet p) e = tcp p e
      go (http_request _) _ = other
      go (http_response _) _ = other
      go (tcp_connection _) _ = other
      go (client_hello _) _ = other
      go (server_hello _) _ = other
      go (tls_handshake _) _ = other
      go http2_preface _ = other
      go quic_handshake _ = other
      go (dropped_bytes _) _ = other

  pub flush_cases {ℓ} :
      (P : Tracker S × (Bool × Error) → Type ℓ) (c : Tracker S) (k : ℕ)
      → (get k c.active_connections ≡ none → P (c, (false, none)))
      → ((info : ConnectionInfo)
          → get k c.active_connections ≡ some info
          → P (
            record c {
              active_connections = delete k c.active_connections;
              next = (collector.process c.next (report info)).0;
            },
            (true, (collector.process c.next (report info)).1),
          ))
      → P (flush_connection collector c k)
  unfolding flush_connection
  flush_cases P c k absent present = option_cases P (get k c.active_connections) absent present
