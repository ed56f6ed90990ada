-- ===== src/TlsTracker/View.antt =====
-- tls_conn_tracker/tls_conn_tracker.go as one connection sees it.
use observability_cli.Prelude.{
  ℕ, ◌≡◌, Bool, true, Option, none, some, List, [], ◌∷◌, ◌++◌, not, ◌&&◌, nat_eq, nat_beq,
  if◌then◌else◌, get, All, filter_by,
}
use observability_cli.Net.{Traffic, TlsHandshake, client_hello, server_hello, tls_handshake, Error}
use observability_cli.TlsTracker.{Handshakes, TlsConnectionInfo, TlsTracker, new_connection, report}
use observability_cli.TlsTracker.Events.{Event, arrives, times_out, closes, is_report_of}

-- A tracker whose next collector keeps what it gets.
abbrev pub Recorded : Type 0
Recorded = TlsTracker (List Traffic)

-- Each entry is filed under the ID that its report carries.
abbrev pub IsFiled : ℕ × TlsConnectionInfo → Type 0
IsFiled e = e.1.handshake_metadata.connection_id ≡ e.0

abbrev pub Filed : Recorded → Type 0
Filed c = All IsFiled c.active_connections

-- What there is of connection `k`.
pub record View : Type 0 where
  pub closed : Bool
  pub entry : Option TlsConnectionInfo
  pub reports : List Traffic

abbrev pub view : ℕ → Recorded → View
view k c = record {
  closed = c.closed;
  entry = get k c.active_connections;
  reports = filter_by (is_report_of k) c.next;
}

module _ (handshakes : Handshakes) where
  open handshakes use {handshake_complete}

  -- The hello `(m, err)` added to the entry `info`, seen from one connection that keeps it.
  abbrev pub view_hello : View → TlsConnectionInfo → TlsHandshake → Error → View
  view_hello v info m err =
      let info' : TlsConnectionInfo = record info { handshake_metadata = m } in
      elim err [
        | some e ↦ record v { entry = some info' }
        | none ↦
            if handshake_complete m
            then record v { entry = none; reports = v.reports ++ report info' ∷ [] }
            else record v { entry = some info' }
      ]

  -- The entry for a hello of `k`, seen from `k`.
  abbrev pub view_entry : ℕ → View → Traffic → TlsConnectionInfo
  view_entry k v t = elim v.entry [ some info ↦ info | none ↦ new_connection k t ]

  -- The tracker as one connection `k` needs it: it knows nothing of any other.
  abbrev pub view_step : ℕ → View → Event → View
  view_step k v (arrives t) = elim t.content [
    | client_hello h ↦
        let info = view_entry k v t in
        let (m, err) = handshakes.add_client_hello info.handshake_metadata h in
        if not v.closed && nat_beq h.connection_id k then view_hello v info m err else v
    | server_hello h ↦
        let info = view_entry k v t in
        let (m, err) = handshakes.add_server_hello info.handshake_metadata h in
        if not v.closed && nat_beq h.connection_id k then view_hello v info m err else v
    | tls_handshake h ↦
        if nat_beq h.connection_id k then record v { reports = v.reports ++ t ∷ [] } else v
    | _ ↦ v
  ]
  view_step k v (times_out id) = if nat_beq id k then record v { entry = none } else v
  view_step k v closes = record v { closed = true; entry = none }

  abbrev pub view_run : ℕ → View → List Event → View
  view_run k v [] = v
  view_run k v (e ∷ es) = view_run k (view_step k v e) es
