-- ===== src/Trace/BackendCollector/Pairing.antt =====
-- The two halves of an exchange, in trace/backend_collector.go, in either order.
use observability_cli.Prelude.{
  ◌≡◌, refl, sym, ap, ◌∙◌, Bool, true, false, none, some, nat_eq, arith, if◌then◌else◌, get, put,
  delete, delete-put, get-put_self, option_cases,
}
use observability_cli.Net.{Traffic, HttpRequest, HttpResponse, http_request, http_response}
use observability_cli.Trace.BackendCollector.{
  PartialWitness, WitnessLibrary, WitnessWithInfo, BackendCollector, uint16, is_request,
  record_timestamp, new_entry, flip_endpoints, write_latency, compute_processing_latency,
  complete_pair, queue_upload, process_partial, process_http, process,
}

-- The two messages are seen on one connection, from its two ends.
abbrev pub AreOpposite : Traffic → Traffic → Type 0
AreOpposite t u =
    (t.src_ip ≡ u.dst_ip)
    × (t.src_port ≡ u.dst_port)
    × (t.dst_ip ≡ u.src_ip)
    × (t.dst_port ≡ u.src_port)

module _ {W : Type 0} (lib : WitnessLibrary W) where
  -- What has to be reported of a request and its response: the request's source as the client, and
  -- the time between the request's last packet and the response's first.
  abbrev pub exchange :
      Traffic → PartialWitness W → Traffic → PartialWitness W → Bool → WitnessWithInfo W
  exchange req p resp q request_first = record {
    net_interface = if request_first then req.interface else resp.interface;
    src_ip = req.src_ip;
    src_port = uint16 req.src_port;
    dst_ip = req.dst_ip;
    dst_port = uint16 req.dst_port;
    observation_time = if request_first then req.observation_time else resp.observation_time;
    id = p.pair_key;
    request_end = if request_first then req.final_packet_time else 0;
    response_start = if request_first then 0 else resp.observation_time;
    witness =
        write_latency lib
          (if request_first
            then lib.merge_witness p.witness q.witness
            else lib.merge_witness q.witness p.witness)
          req.final_packet_time resp.observation_time;
  }

  process_partial_absent :
      (c : BackendCollector W) (p : PartialWitness W) (t : Traffic)
      → get p.pair_key c.pair_cache ≡ none
      → process_partial lib c p t
        ≡ record c { pair_cache = put p.pair_key (new_entry p t) c.pair_cache }
  unfolding process_partial
  process_partial_absent c p t absent =
      option_cases
        (λ (r : BackendCollector W).
          r ≡ record c { pair_cache = put p.pair_key (new_entry p t) c.pair_cache })
        (get p.pair_key c.pair_cache) (λ _. refl) λ pair e. cc

  process_partial_present :
      (c : BackendCollector W) (q : PartialWitness W) (u : Traffic) (e : WitnessWithInfo W)
      → get q.pair_key c.pair_cache ≡ some e
      → process_partial lib c q u
        ≡ queue_upload lib
            (record c { pair_cache = delete q.pair_key c.pair_cache })
            (complete_pair lib e q u)
  unfolding process_partial
  process_partial_present c q u e present =
      option_cases
        (λ (r : BackendCollector W).
          r
          ≡ queue_upload lib (record c { pair_cache = delete q.pair_key c.pair_cache })
              (complete_pair lib e q u))
        (get q.pair_key c.pair_cache) (λ absent. cc) λ pair h. cc

  -- Two halves of the same key, the first of which finds nothing in the cache.
  process_partial_twice :
      (c : BackendCollector W) (p q : PartialWitness W) (t u : Traffic)
      → p.pair_key ≡ q.pair_key
      → get p.pair_key c.pair_cache ≡ none
      → process_partial lib (process_partial lib c p t) q u
        ≡ queue_upload lib c (complete_pair lib (new_entry p t) q u)
  process_partial_twice c p q t u same absent =
      let stored : BackendCollector W = record c {
        pair_cache = put p.pair_key (new_entry p t) c.pair_cache;
      } in
      ap (λ d. process_partial lib d q u) (process_partial_absent c p t absent)
      ∙ process_partial_present stored q u (new_entry p t) (
          ap (λ k. get k stored.pair_cache) (sym same)
          ∙ get-put_self p.pair_key (new_entry p t) c.pair_cache)
      ∙ ap
          (λ m.
            queue_upload lib (record c { pair_cache = m }) (complete_pair lib (new_entry p t) q u))
          (ap (λ k. delete k stored.pair_cache) (sym same)
            ∙ delete-put p.pair_key (new_entry p t) c.pair_cache absent)

  module _ (req resp : Traffic) (r : HttpRequest) (s : HttpResponse) (p q : PartialWitness W)
      (is_req : req.content ≡ http_request r) (is_resp : resp.content ≡ http_response s) where
    complete-request_first :
        p.pair_key ≡ q.pair_key
        → complete_pair lib (new_entry p req) q resp ≡ exchange req p resp q true
    unfolding complete_pair new_entry record_timestamp is_request compute_processing_latency
    complete-request_first e = rw (is_req, is_resp) refl

    complete-response_first :
        p.pair_key ≡ q.pair_key
        → AreOpposite req resp
        → complete_pair lib (new_entry q resp) p req ≡ exchange req p resp q false
    unfolding complete_pair new_entry record_timestamp is_request compute_processing_latency
        flip_endpoints
    complete-response_first e (a, b, c, d) = rw (is_req, is_resp, a, b, c, d, e) refl

    process_request :
        (c : BackendCollector W)
        → lib.parse_http req.content ≡ some p
        → process lib c req ≡ process_partial lib c p req
    unfolding process process_http
    process_request c parsed = ground (arith, parsed, is_req)

    process_response :
        (c : BackendCollector W)
        → lib.parse_http resp.content ≡ some q
        → process lib c resp ≡ process_partial lib c q resp
    unfolding process process_http
    process_response c parsed = ground (arith, parsed, is_resp)

    -- A request and a response that are parsed to halves of one key, seen from the two ends of one
    -- connection, while the cache has nothing of that key: in either order, the collector queues the
    -- same exchange, with the request's source as the client and the time from the request's last
    -- packet to the response's first, and its cache is as before. The order shows only in the
    -- interface, the observation time and which half was merged into which.
    pub process-exchange :
        (c : BackendCollector W)
        → lib.parse_http req.content ≡ some p
        → lib.parse_http resp.content ≡ some q
        → p.pair_key ≡ q.pair_key
        → AreOpposite req resp
        → get p.pair_key c.pair_cache ≡ none
        → (process lib (process lib c req) resp ≡ queue_upload lib c (exchange req p resp q true))
          × (process lib (process lib c resp) req
              ≡ queue_upload lib c (exchange req p resp q false))
    process-exchange c parsed_req parsed_resp same opposite absent =
        let response_absent : get q.pair_key c.pair_cache ≡ none =
          ap (λ k. get k c.pair_cache) (sym same) ∙ absent in
        (
          process_response _ parsed_resp
              ∙ ap (λ d. process_partial lib d q resp) (process_request c parsed_req)
              ∙ process_partial_twice c p q req resp same absent
              ∙ ap (queue_upload lib c) (complete-request_first same),
          process_request _ parsed_req
              ∙ ap (λ d. process_partial lib d p req) (process_response c parsed_resp)
              ∙ process_partial_twice c q p resp req (sym same) response_absent
              ∙ ap (queue_upload lib c) (complete-response_first same opposite),
        )
