-- ===== src/TlsTracker/Isolation.antt =====
-- The connections of tls_conn_tracker/tls_conn_tracker.go do not disturb each other.
use observability_cli.Prelude.{
  ℕ, ◌≡◌, refl, sym, ◌∙◌, ap, true, false, none, List, [], ◌∷◌, ◌++◌, arith, append-nil, not, ◌&&◌,
  nat_eq, nat_beq, nat_beq_iff, if◌then◌else◌, get, put, get-put, get-put_self, get-delete, All-put,
  All-delete, All-get, filter_by, filter_by-append, Option-cases, Bool-cases, inl, inr,
}
use observability_cli.Net.{Traffic, Content, TlsHandshake, client_hello, server_hello, Error}
use observability_cli.Collector.Run.{recorder}
use observability_cli.TlsTracker.{
  Handshakes, TlsConnectionInfo, new_collector, new_connection, ensure_connection, report,
  expire_connection, flush_connection, add_hello, process_client_hello, process_server_hello,
  forward, process_content, process, close,
}
use observability_cli.TlsTracker.Events.{
  Event, arrives, times_out, closes, step, run, concerns, is_report_of,
}
use observability_cli.TlsTracker.View.{
  Recorded, IsFiled, Filed, View, view, view_hello, view_entry, view_step, view_run,
}

module _ (handshakes : Handshakes) where
  add_hello-Filed :
      (c : Recorded) (id : ℕ) (info : TlsConnectionInfo) (m : TlsHandshake) (err : Error)
      → Filed c
      → m.connection_id ≡ id
      → Filed (add_hello handshakes recorder c id info (m, err)).0
  unfolding add_hello flush_connection
  add_hello-Filed c id info m err v e =
      let info' : TlsConnectionInfo = record info { handshake_metadata = m } in
      let active = put id info' c.active_connections in
      let filed = All-put IsFiled id info' c.active_connections e v in
      ground (arith, filed, All-delete IsFiled id active filed)

  add_hello-view :
      (k : ℕ) (c : Recorded) (id : ℕ) (info : TlsConnectionInfo) (m : TlsHandshake) (err : Error)
      → m.connection_id ≡ id
      → view k (add_hello handshakes recorder c id info (m, err)).0
        ≡ (if nat_beq id k then view_hello handshakes (view k c) info m err else view k c)
  unfolding add_hello flush_connection report
  add_hello-view k c id info m err e =
      let info' : TlsConnectionInfo = record info { handshake_metadata = m } in
      let active = put id info' c.active_connections in
      ground (
        arith,
        nat_beq_iff id k,
        get-put id k info' c.active_connections,
        get-put_self id info' c.active_connections,
        get-delete id k active,
        filter_by-append (is_report_of k) c.next (report info' ∷ []),
        append-nil (filter_by (is_report_of k) c.next),
      )

  ensure_connection-id :
      (c : Recorded) (id : ℕ) (t : Traffic)
      → Filed c
      → (ensure_connection c id t).handshake_metadata.connection_id ≡ id
  unfolding ensure_connection new_connection
  ensure_connection-id c id t v = elim (Option-cases (get id c.active_connections)) [
    | inl e ↦ rw (e, ensure_connection) refl
    | inr (info, e) ↦ rw (e, ensure_connection) (All-get IsFiled id info c.active_connections v e)
  ]

  ensure_connection-view_entry :
      (k : ℕ) (c : Recorded) (id : ℕ) (t : Traffic)
      → nat_beq id k ≡ true
      → ensure_connection c id t ≡ view_entry handshakes k (view k c) t
  unfolding ensure_connection
  ensure_connection-view_entry k c id t e =
      ap (λ j. ensure_connection c j t) ((nat_beq_iff id k).0 e)

  hello-view :
      (k : ℕ) (c : Recorded) (id : ℕ) (t : Traffic) (add : TlsHandshake → TlsHandshake × Error)
      → ((m : TlsHandshake) → (add m).0.connection_id ≡ m.connection_id)
      → Filed c
      → let info = ensure_connection c id t in
        view k
          (if c.closed
            then (c, none)
            else add_hello handshakes recorder c id info (add info.handshake_metadata)).0
        ≡ (let info = view_entry handshakes k (view k c) t in
            let (m, err) = add info.handshake_metadata in
            if not c.closed && nat_beq id k
            then view_hello handshakes (view k c) info m err
            else view k c)
  hello-view k c id t add h v =
      let info = ensure_connection c id t in
      let (m, err) = add info.handshake_metadata in
      let step =
        add_hello-view k c id info m err
          (h info.handshake_metadata ∙ ensure_connection-id c id t v) in
      ground (
        arith,
        step,
        λ (same : nat_beq id k ≡ true).
            ap
              (λ i.
                view_hello handshakes (view k c) i (add i.handshake_metadata).0
                  (add i.handshake_metadata).1)
              (ensure_connection-view_entry k c id t same),
      )

  forward-view :
      (k : ℕ) (c : Recorded) (t : Traffic)
      → view k (forward handshakes recorder c t).0 ≡ (
          if is_report_of k t
          then record (view k c) { reports = (view k c).reports ++ t ∷ [] }
          else view k c)
  unfolding forward
  forward-view k c t = ground (
    arith,
    filter_by-append (is_report_of k) c.next (t ∷ []),
    append-nil (filter_by (is_report_of k) c.next),
  )

  content-view :
      (k : ℕ) (c : Recorded) (t : Traffic) (x : Content)
      → t.content ≡ x
      → Filed c
      → view k (process_content handshakes recorder x c t).0
        ≡ view_step handshakes k (view k c) (arrives t)
  unfolding process_content process_client_hello process_server_hello
  content-view k c t (client_hello h) q v = rw q (
      hello-view k c h.connection_id t (λ m. handshakes.add_client_hello m h)
        (λ m. handshakes.connection_id-add_client_hello m h) v)
  content-view k c t (server_hello h) q v = rw q (
      hello-view k c h.connection_id t (λ m. handshakes.add_server_hello m h)
        (λ m. handshakes.connection_id-add_server_hello m h) v)
  content-view k c t x q v = ground (arith, forward-view k c t)

  content-Filed :
      (c : Recorded) (t : Traffic) (x : Content)
      → Filed c
      → Filed (process_content handshakes recorder x c t).0
  unfolding process_content process_client_hello process_server_hello forward
  content-Filed c t (client_hello h) v =
      let info = ensure_connection c h.connection_id t in
      let (m, err) = handshakes.add_client_hello info.handshake_metadata h in
      ground (
        arith,
        add_hello-Filed c h.connection_id info m err v (
            handshakes.connection_id-add_client_hello info.handshake_metadata h
            ∙ ensure_connection-id c h.connection_id t v),
      )
  content-Filed c t (server_hello h) v =
      let info = ensure_connection c h.connection_id t in
      let (m, err) = handshakes.add_server_hello info.handshake_metadata h in
      ground (
        arith,
        add_hello-Filed c h.connection_id info m err v (
            handshakes.connection_id-add_server_hello info.handshake_metadata h
            ∙ ensure_connection-id c h.connection_id t v),
      )
  content-Filed c t x v = v

  step-Filed : (c : Recorded) (e : Event) → Filed c → Filed (step handshakes recorder c e)
  unfolding step process expire_connection close
  step-Filed c (arrives t) v = content-Filed c t t.content v
  step-Filed c (times_out id) v = All-delete IsFiled id c.active_connections v
  step-Filed c closes v = tt

  step-view :
      (k : ℕ) (c : Recorded) (e : Event)
      → Filed c
      → view k (step handshakes recorder c e) ≡ view_step handshakes k (view k c) e
  unfolding step process expire_connection close get
  step-view k c (arrives t) v = content-view k c t t.content refl v
  step-view k c (times_out id) v = ground (arith, get-delete id k c.active_connections)
  step-view k c closes v = refl

  run-view :
      (k : ℕ) (c : Recorded) (es : List Event)
      → Filed c
      → view k (run handshakes recorder c es) ≡ view_run handshakes k (view k c) es
  unfolding run
  run-view k c [] v = refl
  run-view k c (e ∷ es) v =
      run-view k (step handshakes recorder c e) es (step-Filed c e v)
      ∙ ap (λ w. view_run handshakes k w es) (step-view k c e v)

  -- Whatever packets and timeouts come, in whatever order, and whenever the tracker is closed, the
  -- entry of a connection and the reports that the next collector has of it are those of a machine
  -- that keeps this one connection and knows nothing of any other.
  pub run-new_collector-view :
      (k : ℕ) (es : List Event)
      → view k (run handshakes recorder (new_collector []) es)
        ≡ view_run handshakes k (record { closed = false; entry = none; reports = [] }) es
  unfolding new_collector get
  run-new_collector-view k es = run-view k (new_collector []) es tt

  view_step-concerns :
      (k : ℕ) (v : View) (e : Event) → concerns k e ≡ false → view_step handshakes k v e ≡ v
  view_step-concerns k v (arrives t) h = ground arith
  view_step-concerns k v (times_out id) h = ground arith
  view_step-concerns k v closes h = ground arith

  view_run-concerns :
      (k : ℕ) (v : View) (es : List Event)
      → view_run handshakes k v es ≡ view_run handshakes k v (filter_by (concerns k) es)
  view_run-concerns k v [] = refl
  view_run-concerns k v (e ∷ es) = elim (Bool-cases (concerns k e)) [
    | inl same ↦ rw same (view_run-concerns k (view_step handshakes k v e) es)
    | inr other ↦ rw other (
        ap (λ w. view_run handshakes k w es) (view_step-concerns k v e other)
        ∙ view_run-concerns k v es)
  ]

  -- What the tracker keeps of a connection, and what it reports of it, is the same if all events
  -- that concern only other connections are left out.
  pub run-concerns :
      (k : ℕ) (es : List Event)
      → view k (run handshakes recorder (new_collector []) es)
        ≡ view k (run handshakes recorder (new_collector []) (filter_by (concerns k) es))
  run-concerns k es =
      run-new_collector-view k es
      ∙ view_run-concerns k _ es
      ∙ sym (run-new_collector-view k (filter_by (concerns k) es))
