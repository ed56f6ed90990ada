-- ===== src/TcpTracker/Summary.antt =====
-- What the tracker of tcp_conn_tracker/tcp_conn_tracker.go has found out about a connection after
-- any traffic, against a description that does not go packet by packet.
use observability_cli.Prelude.{
  ℕ, ◌≡◌, refl, ◌∙◌, ap, false, some, List, [], ◌∷◌, ◌++◌, sym, nat_eq, nat_beq, nat_beq_iff,
  if◌then◌else◌, get, get-put, get-put_self, Bool-cases, inl, inr,
}
use observability_cli.Net.{
  Traffic, TcpPacket, Content, http_request, http_response, tcp_packet, tcp_connection,
  client_hello, server_hello, tls_handshake, http2_preface, quic_handshake, dropped_bytes,
}
use observability_cli.Collector.{Collector}
use observability_cli.TcpTracker.{
  ConnectionInfo, Tracker, augment_with, new_connection, add_connection, process_tcp,
  process_content, process, forward,
}
use observability_cli.TcpTracker.Findings.{
  Packets, augment_all, Summarises, augment_all-append, augment_all-Summarises,
}
use observability_cli.TcpTracker.Cases.{process_tcp_cases}

-- The packets of connection `k` among the traffic, in order.
abbrev pub packets_of : ℕ → List Traffic → Packets
packets_of k [] = []
packets_of k (t ∷ ts) =
    let rest = packets_of k ts in
    elim t.content [
      | tcp_packet p ↦ if nat_beq p.connection_id k then (t, p) ∷ rest else rest
      | _ ↦ rest
    ]

packets_of-cons :
    (k : ℕ) (t : Traffic) (ts : List Traffic)
    → packets_of k (t ∷ ts) ≡ packets_of k (t ∷ []) ++ packets_of k ts
packets_of-cons k t ts = go t.content refl
  where
    go :
        (x : Content)
        → t.content ≡ x
        → packets_of k (t ∷ ts) ≡ packets_of k (t ∷ []) ++ packets_of k ts
    go (tcp_packet p) q = elim (Bool-cases (nat_beq p.connection_id k)) [
      | inl same ↦ rw (q, same)
      | inr other ↦ rw (q, other)
    ]
    go (http_request _) q = rw q
    go (http_response _) q = rw q
    go (tcp_connection _) q = rw q
    go (client_hello _) q = rw q
    go (server_hello _) q = rw q
    go (tls_handshake _) q = rw q
    go http2_preface q = rw q
    go quic_handshake q = rw q
    go (dropped_bytes _) q = rw q

module _ {S : Type 0} (collector : Collector S) where
  -- The tracker after a sequence of calls of `Process`.
  abbrev pub run : Tracker S → List Traffic → Tracker S
  run c [] = c
  run c (t ∷ ts) = run (process collector c t).0 ts

  process_tcp-closed :
      (c : Tracker S) (t : Traffic) (p : TcpPacket)
      → (process_tcp collector c t p).0.closed ≡ c.closed
  unfolding add_connection
  process_tcp-closed c t p =
      process_tcp_cases collector (λ d. d.closed ≡ c.closed) c t p refl (λ _ _. refl)
        (λ _ _ _. refl)

  process_tcp-get_self :
      (c : Tracker S) (info : ConnectionInfo) (t : Traffic) (p : TcpPacket)
      → c.closed ≡ false
      → get p.connection_id c.active_connections ≡ some info
      → get p.connection_id (process_tcp collector c t p).0.active_connections
        ≡ some (augment_with info t p)
  unfolding process_tcp forward
  process_tcp-get_self c info t p o e =
      simp (o, e) (get-put_self p.connection_id (augment_with info t p) c.active_connections)

  process_tcp-get_ne :
      (c : Tracker S) (k : ℕ) (t : Traffic) (p : TcpPacket)
      → nat_beq p.connection_id k ≡ false
      → get k (process_tcp collector c t p).0.active_connections ≡ get k c.active_connections
  unfolding add_connection
  process_tcp-get_ne c k t p n =
      process_tcp_cases collector (λ d. get k d.active_connections ≡ get k c.active_connections) c t
        p refl (λ _ _. get-put p.connection_id k (new_connection t p) c.active_connections ∙ simp n)
        (λ info _ _.
          get-put p.connection_id k (augment_with info t p) c.active_connections ∙ simp n)

  run-packets_step :
      (c : Tracker S) (k : ℕ) (info : ConnectionInfo) (t : Traffic)
      → c.closed ≡ false
      → get k c.active_connections ≡ some info
      → ((process collector c t).0.closed ≡ false)
        × (get k (process collector c t).0.active_connections
            ≡ some (augment_all info (packets_of k (t ∷ []))))
  unfolding process process_content forward
  run-packets_step c k info t o e = go t.content refl
    where
      tcp :
          (p : TcpPacket)
          → t.content ≡ tcp_packet p
          → ((process_tcp collector c t p).0.closed ≡ false)
            × (get k (process_tcp collector c t p).0.active_connections
                ≡ some (augment_all info (packets_of k (t ∷ []))))
      tcp p q = elim (Bool-cases (nat_beq p.connection_id k)) [
        | inl same ↦ (
          process_tcp-closed c t p ∙ o,
          rw (q, same)
              (rw (← (nat_beq_iff p.connection_id k).0 same) (
                process_tcp-get_self c info t p o (rw ((nat_beq_iff p.connection_id k).0 same) e))),
        )
        | inr other ↦
            (process_tcp-closed c t p ∙ o, rw (q, other) (process_tcp-get_ne c k t p other ∙ e))
      ]

      go :
          (x : Content)
          → t.content ≡ x
          → ((process_content collector x c t).0.closed ≡ false)
            × (get k (process_content collector x c t).0.active_connections
                ≡ some (augment_all info (packets_of k (t ∷ []))))
      go (tcp_packet p) q = tcp p q
      go (http_request _) q = (o, rw q e)
      go (http_response _) q = (o, rw q e)
      go (tcp_connection _) q = (o, rw q e)
      go (client_hello _) q = (o, rw q e)
      go (server_hello _) q = (o, rw q e)
      go (tls_handshake _) q = (o, rw q e)
      go http2_preface q = (o, rw q e)
      go quic_handshake q = (o, rw q e)
      go (dropped_bytes _) q = (o, rw q e)

  run-augment_all :
      (c : Tracker S) (k : ℕ) (info : ConnectionInfo) (ts : List Traffic)
      → c.closed ≡ false
      → get k c.active_connections ≡ some info
      → get k (run c ts).active_connections ≡ some (augment_all info (packets_of k ts))
  run-augment_all c k info [] o e = e
  run-augment_all c k info (t ∷ ts) o e =
      let (o', e') = run-packets_step c k info t o e in
      run-augment_all (process collector c t).0 k _ ts o' e'
      ∙ ap some (
          sym (augment_all-append info (packets_of k (t ∷ [])) (packets_of k ts))
          ∙ ap (augment_all info) (sym (packets_of-cons k t ts)))

  -- While the tracker is open and no timeout flushes connection `k`, which it knows, it has after
  -- any traffic, other connections' packets among it, a summary of `k` with the earliest and the
  -- latest time of the packets of `k`, with the initiator that the first SYN tells unless it was
  -- known, and with an end state that is a reset if any packet was one, else closed if any packet
  -- had a FIN, else as before.
  pub run-Summarises :
      (c : Tracker S) (k : ℕ) (info : ConnectionInfo) (ts : List Traffic)
      → c.closed ≡ false
      → get k c.active_connections ≡ some info
      → (found : ConnectionInfo) × (get k (run c ts).active_connections ≡ some found)
        × Summarises info (packets_of k ts) found
  run-Summarises c k info ts o e = (
    augment_all info (packets_of k ts),
    run-augment_all c k info ts o e,
    augment_all-Summarises info (packets_of k ts),
  )
