-- ===== src/Apispec/Har/Latency.antt =====
-- The latency of an entry of a HAR file (apispec/har.go), in the witness that the back-end collector
-- (trace/backend_collector.go) reports of it.
use observability_cli.Prelude.{
  ℕ, ◌+◌, ◌≡◌, ◌≢◌, refl, ap, ◌∙◌, true, none, some, nat_eq, nat_beq, ◌||◌, arith, get, if_cases,
}
use observability_cli.Prelude.Int.{pos, sub_ℕ}
use observability_cli.Net.{Traffic, http_request, http_response}
use observability_cli.Collector.{Collector}
use observability_cli.Collector.SampledErrors.{SampledErrors}
use observability_cli.Trace.BackendCollector.{
  PartialWitness, WitnessLibrary, BackendCollector, microseconds, write_latency, queue_upload,
  process,
}
use observability_cli.Trace.BackendCollector.Pairing.{exchange, process-exchange}
use observability_cli.Apispec.Har.{
  Milliseconds, CustomHarEntry, FromHar, har_traffic, reconstruct_from_har, process_half,
  process_request, process_response, process_har_entry,
}
use observability_cli.Apispec.Har.Timestamps.{wait_of, reconstruct_from_har-IsReconstruction}

sub_ℕ-wait : (m n d : ℕ) → n ≡ m + d → sub_ℕ n m ≡ pos d
sub_ℕ-wait m n d e = ground (arith, e)

module _ {F Rq Rs : Type 0} (ms : Milliseconds F) (from_har : FromHar Rq Rs)
    (entry : CustomHarEntry F Rq Rs) (u i : ℕ) where
  abbrev pub request_of : Rq → Traffic
  request_of rq =
      let ts = reconstruct_from_har ms entry in
      har_traffic ts.request_start ts.request_end
        (http_request (record (from_har.convert_request rq).0 { stream_id = u; seq = i }))

  abbrev pub response_of : Rs → Traffic
  response_of rs =
      let ts = reconstruct_from_har ms entry in
      har_traffic ts.response_start ts.response_end
        (http_response (record (from_har.convert_response rs).0 { stream_id = u; seq = i }))

module _ {W E F Rq Rs : Type 0} (lib : WitnessLibrary W) (col : Collector (BackendCollector W))
    (sampled : SampledErrors E) (ms : Milliseconds F) (from_har : FromHar Rq Rs)
    (is_backend : (c : BackendCollector W) (t : Traffic)
      → col.process c t ≡ (process lib c t, none)) where
  process_har_entry-backend :
      (entry : CustomHarEntry F Rq Rs) (u i : ℕ) (rq : Rq) (rs : Rs) (c : BackendCollector W)
      (errs : E)
      → entry.request ≡ some rq
      → entry.response ≡ some rs
      → (from_har.convert_request rq).1 ≡ none
      → (from_har.convert_response rs).1 ≡ none
      → let req = request_of ms from_har entry u i rq in
        let resp = response_of ms from_har entry u i rs in
        process_har_entry col sampled ms from_har c errs u i entry
        ≡ (process lib (process lib c req) resp, errs, true)
  unfolding process_har_entry process_request process_response process_half har_traffic
  process_har_entry-backend entry u i rq rs c errs has_rq has_rs ok_rq ok_rs =
      let ts = reconstruct_from_har ms entry in
      let req = request_of ms from_har entry u i rq in
      let resp = response_of ms from_har entry u i rs in
      let first = process_request col sampled from_har ts u i (c, errs, true) in
      let second = process_response col sampled from_har ts u i in
      ap (λ o. second (first o) entry.response) has_rq
      ∙ ap (second (first (some rq))) has_rs
      ∙ ap (λ e. second (process_half col sampled (c, errs, true) e req) (some rs)) ok_rq
      ∙ ap (λ r. second (r.0, errs, true) (some rs)) (is_backend c req)
      ∙ ap (λ e. process_half col sampled (process lib c req, errs, true) e resp) ok_rs
      ∙ ap (λ r. (r.0, errs, true)) (is_backend (process lib c req) resp)

  write_latency-wait :
      (w : W) (m n d : ℕ)
      → m ≢ 0
      → n ≡ m + d
      → write_latency lib w m n ≡ lib.set_processing_latency w (microseconds (pos d))
  unfolding write_latency
  write_latency-wait w m n d h e =
      if_cases (λ v. v ≡ lib.set_processing_latency w (microseconds (pos d)))
        (nat_beq m 0 || nat_beq n 0) (λ z. absurd (ground (arith, h, e, z)))
        (λ _. ap (λ t. lib.set_processing_latency w (microseconds t)) (sub_ℕ-wait m n d e))

  -- An entry with a start, and with a request and a response that convert and are then parsed to
  -- halves of one key that the back-end collector's cache does not have: the collector queues one
  -- exchange, whose processing latency is the Wait of the file, and its cache is as before.
  pub process_har_entry-latency :
      (entry : CustomHarEntry F Rq Rs) (u i : ℕ) (rq : Rq) (rs : Rs) (c : BackendCollector W)
      (errs : E) (p q : PartialWitness W)
      → entry.started_date_time ≢ 0
      → entry.request ≡ some rq
      → entry.response ≡ some rs
      → (from_har.convert_request rq).1 ≡ none
      → (from_har.convert_response rs).1 ≡ none
      → lib.parse_http (request_of ms from_har entry u i rq).content ≡ some p
      → lib.parse_http (response_of ms from_har entry u i rs).content ≡ some q
      → p.pair_key ≡ q.pair_key
      → get p.pair_key c.pair_cache ≡ none
      → let w =
          exchange lib
            (request_of ms from_har entry u i rq)
            p
            (response_of ms from_har entry u i rs)
            q
            true in
        (process_har_entry col sampled ms from_har c errs u i entry
          ≡ (queue_upload lib c w, errs, true))
        × (w.witness
            ≡ lib.set_processing_latency
                (lib.merge_witness p.witness q.witness)
                (microseconds (pos (wait_of ms entry.timings))))
  unfolding har_traffic
  process_har_entry-latency entry u i rq rs c errs p q start has_rq has_rs ok_rq ok_rs parsed_rq
        parsed_rs same absent =
      let ts = reconstruct_from_har ms entry in
      let (late, ordered, waited, _) = (reconstruct_from_har-IsReconstruction ms entry).0 start in
      (
        process_har_entry-backend entry u i rq rs c errs has_rq has_rs ok_rq ok_rs
            ∙ ap (λ d. (d, errs, true))
                (process-exchange lib (request_of ms from_har entry u i rq)
                  (response_of ms from_har entry u i rs) _ _ p q refl refl c parsed_rq parsed_rs
                  same (refl, refl, refl, refl) absent).0,
        write_latency-wait (lib.merge_witness p.witness q.witness) ts.request_end ts.response_start
            (wait_of ms entry.timings) (λ z. start (omega (arith, late, ordered, z))) waited,
      )
