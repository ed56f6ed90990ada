-- ===== src/TcpTracker/Closing.antt =====
-- `Close` of tcp_conn_tracker/tcp_conn_tracker.go: its error, and what the tracker does after it.
use observability_cli.Prelude.{
  ℕ, ◌+◌, ◌≡◌, ◌↔◌, refl, ◌∙◌, ap, Bool, true, false, none, some, List, [], ◌∷◌, arith, Map,
  filter_by, filter_by-append, sym,
}
use observability_cli.Net.{
  Traffic, Content, http_request, http_response, tcp_packet, tcp_connection, client_hello,
  server_hello, tls_handshake, http2_preface, quic_handshake, dropped_bytes, Error,
}
use observability_cli.Collector.{Collector}
use observability_cli.Collector.Run.{process_all, process_all-append}
use observability_cli.Collector.SampledErrors.{SampledErrors, add_error, as_error}
use observability_cli.TcpTracker.{
  ConnectionInfo, Tracker, report, process_content, process, flush_all, close_connections, close,
  process_tcp, forward,
}
use observability_cli.TcpTracker.Summary.{run}

abbrev pub error_count : Error → ℕ
error_count none = 0
error_count (some _) = 1

module _ {S : Type 0} (collector : Collector S) where
  -- How many of the reports the next collector refuses, when it is given one for each summary.
  pub refusals : Map ℕ ConnectionInfo → S → ℕ
  refusals [] s = 0
  refusals ((_, info) ∷ m) s =
      error_count (collector.process s (report info)).1
      + refusals m (collector.process s (report info)).0

module _ {S E : Type 0} (collector : Collector S) (sampled : SampledErrors E) where
  add_error-total :
      (errs : E) (err : Error)
      → sampled.total_count (add_error sampled errs err)
        ≡ sampled.total_count errs + error_count err
  add_error-total errs none = omega arith
  add_error-total errs (some x) = omega (arith, sampled.total_count-add errs x)

  flush_all-total :
      (m : Map ℕ ConnectionInfo) (s : S) (errs : E)
      → sampled.total_count (flush_all collector sampled m s errs).1
        ≡ sampled.total_count errs + refusals collector m s
  unfolding flush_all refusals
  flush_all-total [] s errs = omega arith
  flush_all-total ((_, info) ∷ m) s errs = omega (
    arith,
    add_error-total errs (collector.process s (report info)).1,
    flush_all-total m (collector.process s (report info)).0
        (add_error sampled errs (collector.process s (report info)).1),
  )

  as_error-none : (errs : E) → (as_error sampled errs ≡ none) ↔ (sampled.total_count errs ≡ 0)
  as_error-none errs = ground arith

  -- `Close` reports success exactly if the next collector took the report of every open connection
  -- and closed without an error.
  pub close-none :
      (c : Tracker S)
      → ((close collector sampled c).1 ≡ none) ↔ (
          (refusals collector c.active_connections c.next ≡ 0)
          × ((collector.close (close_connections collector sampled c).0.next).1 ≡ none))
  unfolding close close_connections
  close-none c =
      let (s, errs) = flush_all collector sampled c.active_connections c.next (sampled.empty 5) in
      ground (
        arith,
        sampled.total_count-empty 5,
        flush_all-total c.active_connections c.next (sampled.empty 5),
        add_error-total errs (collector.close s).1,
      )

abbrev pub is_not_tcp_packet : Traffic → Bool
is_not_tcp_packet t = elim t.content [ tcp_packet _ ↦ false | _ ↦ true ]

module _ {S : Type 0} (collector : Collector S) where
  shut_step :
      (c : Tracker S) (t : Traffic)
      → c.closed ≡ true
      → (process collector c t).0
        ≡ record c { next = process_all collector c.next (filter_by is_not_tcp_packet (t ∷ [])) }
  unfolding process process_content process_tcp forward process_all
  shut_step c t shut = go t.content refl
    where
      go :
          (x : Content)
          → t.content ≡ x
          → (process_content collector x c t).0 ≡ record c {
            next = process_all collector c.next (filter_by is_not_tcp_packet (t ∷ []));
          }
      go (tcp_packet p) q = rw (shut, q)
      go (http_request _) q = rw q
      go (http_response _) q = rw q
      go (tcp_connection _) q = rw q
      go (client_hello _) q = rw q
      go (server_hello _) q = rw q
      go (tls_handshake _) q = rw q
      go http2_preface q = rw q
      go quic_handshake q = rw q
      go (dropped_bytes _) q = rw q

  shut-run :
      (d : Tracker S) (ts : List Traffic)
      → d.closed ≡ true
      → run collector d ts
        ≡ record d { next = process_all collector d.next (filter_by is_not_tcp_packet ts) }
  unfolding process_all
  shut-run d [] shut = refl
  shut-run d (t ∷ ts) shut =
      let s = process_all collector d.next (filter_by is_not_tcp_packet (t ∷ [])) in
      ap (λ x. run collector x ts) (shut_step d t shut)
      ∙ (shut-run (record d { next = s }) ts shut
          ∙ ap (λ n. record d { next = n })
              (sym (
                ap (process_all collector d.next) (filter_by-append is_not_tcp_packet (t ∷ []) ts)
                ∙ process_all-append collector d.next (filter_by is_not_tcp_packet (t ∷ []))
                    (filter_by is_not_tcp_packet ts))))

  -- After `Close`, TCP packets change nothing and are dropped; all else goes on to the next
  -- collector, in order, and no connection is ever opened again.
  pub close-run :
      {E : Type 0} (sampled : SampledErrors E) (c : Tracker S) (ts : List Traffic)
      → let d = (close collector sampled c).0 in
        run collector d ts
        ≡ record d { next = process_all collector d.next (filter_by is_not_tcp_packet ts) }
  unfolding close close_connections
  close-run sampled c ts = shut-run (close collector sampled c).0 ts refl
