-- ===== src/Trace/ReportBuffer/Conservation.antt =====
-- What trace/report_buffer.go sends over any additions and flushes.
use observability_cli.Prelude.{
  ℕ, ◌+◌, ◌≡◌, refl, sym, ap, ◌∙◌, Option, none, some, List, [], ◌∷◌, ◌++◌, append_assoc,
  append-nil, arith, if◌then◌else◌,
}
use observability_cli.Trace.Telemetry.{PacketCounts, measure, oversized}
use observability_cli.Trace.Counting.{Consumer}
use observability_cli.Trace.ReportBuffer.{
  WitnessWithInfo, RawReport, UploadReportsRequest, empty_request, ReportBuffer, is_oversized,
  oversized_counts, new_report_buffer, add_witness, add_tcp_report, add_tls_handshake_report, add,
  flush,
}

pub data Step (T H : Type 0) : Type 0 where
  adds : RawReport T H → Step T H
  flushes : Step T H

-- The reports that a request has, of each kind.
abbrev pub append_requests :
    {T H : Type 0} → UploadReportsRequest T H → UploadReportsRequest T H → UploadReportsRequest T H
append_requests a b = record {
  witnesses = a.witnesses ++ b.witnesses;
  tcp_connections = a.tcp_connections ++ b.tcp_connections;
  tls_handshakes = a.tls_handshakes ++ b.tls_handshakes;
}

abbrev list_of : {A : Type 0} → Option A → List A
list_of none = []
list_of (some x) = x ∷ []

-- The part of a report that has to be sent.
abbrev pub accepted : {T H : Type 0} → Option ℕ → RawReport T H → UploadReportsRequest T H
accepted limit raw = record {
  witnesses = elim raw.witness [
    | none ↦ []
    | some w ↦ elim w.report [ none ↦ [] | some r ↦ if is_oversized limit r then [] else r ∷ [] ]
  ];
  tcp_connections = list_of raw.tcp_report;
  tls_handshakes = list_of raw.tls_handshake_report;
}

abbrev pub all_accepted : {T H : Type 0} → Option ℕ → List (Step T H) → UploadReportsRequest T H
all_accepted limit [] = empty_request
all_accepted limit (adds raw ∷ steps) =
    append_requests (accepted limit raw) (all_accepted limit steps)
all_accepted limit (flushes ∷ steps) = all_accepted limit steps

module _ {P T H : Type 0} (consumer : Consumer P)
    (size_in_bytes : UploadReportsRequest T H → ℕ) where
  -- The buffer, and all that was sent so far.
  unfoldable pub run :
      ReportBuffer P T H × UploadReportsRequest T H
      → List (Step T H)
      → ReportBuffer P T H × UploadReportsRequest T H
  run (buf, sent) [] = (buf, sent)
  run (buf, sent) (adds raw ∷ steps) = run ((add consumer size_in_bytes buf raw).0, sent) steps
  run (buf, sent) (flushes ∷ steps) =
      let (buf', request) = flush consumer buf in
      run (buf', elim request [ none ↦ sent | some r ↦ append_requests sent r ]) steps

  -- All that was sent or waits to be sent.
  abbrev pub in_all : ReportBuffer P T H × UploadReportsRequest T H → UploadReportsRequest T H
  in_all (buf, sent) = append_requests sent buf.request

  add-request :
      (buf : ReportBuffer P T H) (raw : RawReport T H)
      → ((add consumer size_in_bytes buf raw).0.request
          ≡ append_requests buf.request (accepted buf.max_witness_size_bytes raw))
        × ((add consumer size_in_bytes buf raw).0.max_witness_size_bytes
            ≡ buf.max_witness_size_bytes)
  unfolding add add_witness add_tcp_report add_tls_handshake_report
  add-request buf raw = ground (
    arith,
    append-nil buf.request.witnesses,
    append-nil buf.request.tcp_connections,
    append-nil buf.request.tls_handshakes,
  )

  append_requests_assoc :
      (a b c : UploadReportsRequest T H)
      → append_requests (append_requests a b) c ≡ append_requests a (append_requests b c)
  append_requests_assoc a b c = ground (
    arith,
    append_assoc a.witnesses b.witnesses c.witnesses,
    append_assoc a.tcp_connections b.tcp_connections c.tcp_connections,
    append_assoc a.tls_handshakes b.tls_handshakes c.tls_handshakes,
  )

  append_requests-empty_request :
      (a : UploadReportsRequest T H) → append_requests a empty_request ≡ a
  append_requests-empty_request a =
      ground
        (arith, append-nil a.witnesses, append-nil a.tcp_connections, append-nil a.tls_handshakes)

  flush-in_all :
      (buf : ReportBuffer P T H) (sent : UploadReportsRequest T H)
      → let (buf', request) = flush consumer buf in
        (in_all (buf', elim request [ none ↦ sent | some r ↦ append_requests sent r ])
          ≡ in_all (buf, sent))
        × (buf'.max_witness_size_bytes ≡ buf.max_witness_size_bytes)
  unfolding flush
  flush-in_all buf sent =
      ground (arith, append_requests-empty_request (append_requests sent buf.request))

  run-in_all :
      (buf : ReportBuffer P T H) (sent : UploadReportsRequest T H) (steps : List (Step T H))
      → in_all (run (buf, sent) steps)
        ≡ append_requests (in_all (buf, sent)) (all_accepted buf.max_witness_size_bytes steps)
  unfolding run
  run-in_all buf sent [] = sym (append_requests-empty_request (in_all (buf, sent)))
  run-in_all buf sent (adds raw ∷ steps) =
      let limit = buf.max_witness_size_bytes in
      let (grows, same) = add-request buf raw in
      let buf' = (add consumer size_in_bytes buf raw).0 in
      run-in_all buf' sent steps
      ∙ ap (λ l. append_requests (in_all (buf', sent)) (all_accepted l steps)) same
      ∙ ap (λ r. append_requests (append_requests sent r) (all_accepted limit steps)) grows
      ∙ ap (λ r. append_requests r (all_accepted limit steps))
          (sym (append_requests_assoc sent buf.request (accepted limit raw)))
      ∙ append_requests_assoc (in_all (buf, sent)) (accepted limit raw) (all_accepted limit steps)
  run-in_all buf sent (flushes ∷ steps) =
      let (buf', request) = flush consumer buf in
      let sent' : UploadReportsRequest T H = elim request [
        | none ↦ sent
        | some r ↦ append_requests sent r
      ] in
      let (kept, same) = flush-in_all buf sent in
      run-in_all buf' sent' steps
      ∙ ap (λ l. append_requests (in_all (buf', sent')) (all_accepted l steps)) same
      ∙ ap (λ r. append_requests r (all_accepted buf.max_witness_size_bytes steps)) kept

  -- Over any additions and flushes, what was sent and what waits are together, in order and of each
  -- kind, the reports that were added, but for the witnesses that could not be encoded or are
  -- too large.
  pub run-accepted :
      (packet_counts : P) (max_size : ℕ) (limit : Option ℕ) (steps : List (Step T H))
      → in_all (run (new_report_buffer packet_counts max_size limit, empty_request) steps)
        ≡ all_accepted limit steps
  unfolding new_report_buffer
  run-accepted packet_counts max_size limit steps = run-in_all _ empty_request steps

  -- How many witnesses of these steps are too large.
  abbrev pub oversized_in : Option ℕ → List (Step T H) → ℕ
  oversized_in limit [] = 0
  oversized_in limit (flushes ∷ steps) = oversized_in limit steps
  oversized_in limit (adds raw ∷ steps) =
      elim raw.witness [
        | none ↦ 0
        | some w ↦ elim w.report [ none ↦ 0 | some r ↦ if is_oversized limit r then 1 else 0 ]
      ]
      + oversized_in limit steps

  add-value :
      (value : P → ℕ)
      → ((p : P) (c : PacketCounts) → value (consumer.update p c) ≡ value p + measure oversized c)
      → (buf : ReportBuffer P T H) (raw : RawReport T H)
      → value (add consumer size_in_bytes buf raw).0.packet_counts
        ≡ value buf.packet_counts + oversized_in buf.max_witness_size_bytes (adds raw ∷ [])
  unfolding add add_witness add_tcp_report add_tls_handshake_report oversized_counts
  add-value value h buf raw = go raw.witness refl
    where
      go :
          (o : Option WitnessWithInfo)
          → raw.witness ≡ o
          → value (add consumer size_in_bytes buf raw).0.packet_counts
            ≡ value buf.packet_counts + oversized_in buf.max_witness_size_bytes (adds raw ∷ [])
      go none e = ground arith
      go (some w) e = ground (arith, h buf.packet_counts (oversized_counts w))

  flush-packet_counts :
      (buf : ReportBuffer P T H) → (flush consumer buf).0.packet_counts ≡ buf.packet_counts
  unfolding flush
  flush-packet_counts buf = ground arith

  -- A consumer whose value grows by the number of oversized witnesses in each update has grown by
  -- the number of witnesses that were left out for their size.
  pub run-oversized :
      (value : P → ℕ)
      → ((p : P) (c : PacketCounts) → value (consumer.update p c) ≡ value p + measure oversized c)
      → (buf : ReportBuffer P T H) (sent : UploadReportsRequest T H) (steps : List (Step T H))
      → value (run (buf, sent) steps).0.packet_counts
        ≡ value buf.packet_counts + oversized_in buf.max_witness_size_bytes steps
  unfolding run
  run-oversized value h buf sent [] = omega arith
  run-oversized value h buf sent (adds raw ∷ steps) =
      let buf' = (add consumer size_in_bytes buf raw).0 in
      run-oversized value h buf' sent steps
      ∙ ap (λ l. value buf'.packet_counts + oversized_in l steps) (add-request buf raw).1
      ∙ omega (arith, add-value value h buf raw)
  run-oversized value h buf sent (flushes ∷ steps) =
      let (buf', request) = flush consumer buf in
      let sent' : UploadReportsRequest T H = elim request [
        | none ↦ sent
        | some r ↦ append_requests sent r
      ] in
      run-oversized value h buf' sent' steps
      ∙ ap (λ l. value buf'.packet_counts + oversized_in l steps) (flush-in_all buf sent).1
      ∙ ap (λ p. value p + oversized_in buf.max_witness_size_bytes steps) (flush-packet_counts buf)
