-- ===== src/TlsTracker/Events.antt =====
-- What may happen to the tracker of tls_conn_tracker/tls_conn_tracker.go, and whom it concerns.
use observability_cli.Prelude.{ℕ, Bool, true, false, List, [], ◌∷◌, nat_beq}
use observability_cli.Net.{Traffic, Content, client_hello, server_hello, tls_handshake}
use observability_cli.Collector.{Collector}
use observability_cli.TlsTracker.{Handshakes, TlsTracker, process, expire_connection, close}

pub data Event : Type 0 where
  arrives : Traffic → Event
  times_out : ℕ → Event
  closes : Event

module _ (handshakes : Handshakes) {S : Type 0} (collector : Collector S) where
  unfoldable pub step : TlsTracker S → Event → TlsTracker S
  step c (arrives t) = (process handshakes collector c t).0
  step c (times_out id) = expire_connection c id
  step c closes = (close handshakes collector c).0

  unfoldable pub run : TlsTracker S → List Event → TlsTracker S
  unfolding step
  run c [] = c
  run c (e ∷ es) = run (step c e) es

-- TLS traffic of connection `k`: its hellos, and what is already a report.
abbrev pub is_tls_of : ℕ → Content → Bool
is_tls_of k (client_hello h) = nat_beq h.connection_id k
is_tls_of k (server_hello h) = nat_beq h.connection_id k
is_tls_of k (tls_handshake h) = nat_beq h.connection_id k
is_tls_of k _ = false

abbrev pub concerns : ℕ → Event → Bool
concerns k (arrives t) = is_tls_of k t.content
concerns k (times_out id) = nat_beq id k
concerns k closes = true

-- A report on connection `k`.
abbrev pub is_report_of : ℕ → Traffic → Bool
is_report_of k t = elim t.content [ tls_handshake h ↦ nat_beq h.connection_id k | _ ↦ false ]
