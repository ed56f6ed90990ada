-- ===== src/TlsTracker/Complete.antt =====
-- What tls_conn_tracker/tls_conn_tracker.go reports.
use mathlib.Core.Path.{subst}
use observability_cli.Prelude.{
  ℕ, ◌≡◌, refl, sym, true, false, List, [], ◌∷◌, arith, nat_eq, All, All-append, filter_by,
}
use observability_cli.Net.{
  Traffic, Content, TlsHandshake, client_hello, server_hello, tls_handshake, Error,
}
use observability_cli.Collector.Run.{recorder}
use observability_cli.TlsTracker.{Handshakes, TlsConnectionInfo, new_collector, report}
use observability_cli.TlsTracker.Events.{Event, arrives, times_out, closes, run, is_report_of}
use observability_cli.TlsTracker.View.{View, view_hello, view_entry, view_step, view_run}
use observability_cli.TlsTracker.Isolation.{run-new_collector-view}

module _ (handshakes : Handshakes) (k : ℕ) where
  open handshakes use {handshake_complete}

  -- A report of a complete handshake.
  abbrev pub IsComplete : Traffic → Type 0
  IsComplete t = elim t.content [ tls_handshake m ↦ handshake_complete m ≡ true | _ ↦ Unit ]

  -- What comes from the network is no report.
  abbrev pub IsInput : Event → Type 0
  IsInput (arrives t) = is_report_of k t ≡ false
  IsInput _ = Unit

  view_hello-IsComplete :
      (v : View) (info : TlsConnectionInfo) (m : TlsHandshake) (err : Error)
      → All IsComplete v.reports
      → All IsComplete (view_hello handshakes v info m err).reports
  unfolding report
  view_hello-IsComplete v info m err h = ground (
    arith,
    λ (e : handshake_complete m ≡ true).
        All-append IsComplete v.reports (report (record info { handshake_metadata = m }) ∷ []) h
          (e, tt),
  )

  view_step-IsComplete :
      (v : View) (e : Event)
      → IsInput e
      → All IsComplete v.reports
      → All IsComplete (view_step handshakes k v e).reports
  view_step-IsComplete v (arrives t) i h = go t.content refl
    where
      go :
          (x : Content)
          → t.content ≡ x
          → All IsComplete (view_step handshakes k v (arrives t)).reports
      go (client_hello q) e =
          let info = view_entry handshakes k v t in
          let (m, err) = handshakes.add_client_hello info.handshake_metadata q in
          ground (arith, view_hello-IsComplete v info m err h)
      go (server_hello q) e =
          let info = view_entry handshakes k v t in
          let (m, err) = handshakes.add_server_hello info.handshake_metadata q in
          ground (arith, view_hello-IsComplete v info m err h)
      go x e = ground arith
  view_step-IsComplete v (times_out id) i h = ground arith
  view_step-IsComplete v closes i h = h

  view_run-IsComplete :
      (v : View) (es : List Event)
      → All IsInput es
      → All IsComplete v.reports
      → All IsComplete (view_run handshakes k v es).reports
  view_run-IsComplete v [] i h = h
  view_run-IsComplete v (e ∷ es) i h =
      view_run-IsComplete (view_step handshakes k v e) es i.1 (view_step-IsComplete v e i.0 h)

  -- Whatever hellos, other packets and timeouts come, and whenever the tracker is closed, if no
  -- report of the connection comes in from outside: each report of it that the next collector gets
  -- is of a complete handshake.
  pub run-IsComplete :
      (es : List Event)
      → All IsInput es
      → All IsComplete
          (filter_by (is_report_of k) (run handshakes recorder (new_collector []) es).next)
  run-IsComplete es i =
      subst (λ w. All IsComplete w.reports) (sym (run-new_collector-view handshakes k es))
        (view_run-IsComplete _ es i tt)
