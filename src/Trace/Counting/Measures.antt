-- ===== src/Trace/Counting/Measures.antt =====
-- What a counting collector counts over a whole run, and what it passes on.
use observability_cli.Prelude.{
  ℕ, ◌+◌, ◌≡◌, refl, ap, ◌∙◌, Bool, true, false, Option, none, some, List, [], ◌∷◌, map, arith,
  String,
}
use observability_cli.Net.{
  Traffic, Content, http_request, http_response, client_hello, server_hello, http2_preface,
  quic_handshake, dropped_bytes,
}
use observability_cli.Collector.{Collector}
use observability_cli.Collector.Run.{process_all}
use observability_cli.Trace.Telemetry.{
  PacketCounts, Measure, measure, requests, responses, hellos, prefaces, quics, unparsed_packets,
}
use observability_cli.Trace.Counting.{
  Consumer, PacketCountCollector, include_host_name, server_host, sort_names, counts_of,
  hello_counts, counts_at, count_traffic, packet_count_collector, hostname_unavailable,
}

module _ (sort_strings : List String → List String) (domain : String) (dogfood : Bool) where
  -- The name that a client hello counts for.
  abbrev pub client_host : Option String → String
  client_host none = hostname_unavailable
  client_host (some name) = name

  abbrev pub to_number : Bool → ℕ
  to_number false = 0
  to_number true = 1

  -- What one content adds to a count.
  abbrev pub share : Measure → Content → ℕ
  share requests (http_request _) = 1
  share responses (http_response _) = 1
  share hellos (client_hello c) =
      to_number (include_host_name domain dogfood (client_host c.hostname))
  share hellos (server_hello c) =
      to_number (include_host_name domain dogfood (server_host sort_strings c.dns_names))
  share prefaces http2_preface = 1
  share quics quic_handshake = 1
  share unparsed_packets (dropped_bytes _) = 1
  share _ _ = 0

  abbrev pub total_share : Measure → List Traffic → ℕ
  total_share μ [] = 0
  total_share μ (t ∷ ts) = share μ t.content + total_share μ ts

  measure_of : Measure → Option PacketCounts → ℕ
  measure_of μ none = 0
  measure_of μ (some c) = measure μ c

  counts_of-share :
      (μ : Measure) (t : Traffic) (x : Content)
      → measure_of μ (counts_of sort_strings domain dogfood t x) ≡ share μ x
  unfolding counts_of measure_of hello_counts counts_at
  counts_of-share μ t x = ground arith

  module _ {P S : Type 0} (consumer : Consumer P) (collector : Collector S) where
    count_traffic-value :
        (μ : Measure) (value : P → ℕ)
        → ((p : P) (c : PacketCounts) → value (consumer.update p c) ≡ value p + measure μ c)
        → (p : P) (t : Traffic)
        → value (count_traffic sort_strings domain dogfood consumer p t)
          ≡ value p + share μ t.content
    unfolding count_traffic measure_of
    count_traffic-value μ value h p t =
        added (counts_of sort_strings domain dogfood t t.content)
        ∙ ap (λ n. value p + n) (counts_of-share μ t t.content)
      where
        added :
            (o : Option PacketCounts)
            → value (elim o [ none ↦ p | some c ↦ consumer.update p c ]) ≡ value p + measure_of μ o
        added none = omega arith
        added (some c) = h p c

    -- A consumer whose value grows by the measure of each update has, after any traffic, grown by
    -- what each content counts for: one for each HTTP request, response, HTTP/2 preface, QUIC
    -- handshake, and dropped or unknown data under its own measure, one for each TLS hello whose
    -- host name is included, and nothing for TCP and TLS metadata.
    pub packet_count_collector-counts :
        (μ : Measure) (value : P → ℕ)
        → ((p : P) (c : PacketCounts) → value (consumer.update p c) ≡ value p + measure μ c)
        → (pc : PacketCountCollector P S) (ts : List Traffic)
        → value
            (process_all
              (packet_count_collector sort_strings domain dogfood consumer collector)
              pc
              ts).packet_counts
          ≡ value pc.packet_counts + total_share μ ts
    unfolding process_all packet_count_collector
    packet_count_collector-counts μ value h pc [] = omega arith
    packet_count_collector-counts μ value h pc (t ∷ ts) = omega (
      arith,
      count_traffic-value μ value h pc.packet_counts t,
      packet_count_collector-counts μ value h
          ((packet_count_collector sort_strings domain dogfood consumer collector).process pc t).0
          ts,
    )

    -- Whatever is counted, all the traffic goes on to the next collector, in order, changed only in
    -- that the DNS names of server hellos are sorted.
    pub packet_count_collector-next :
        (pc : PacketCountCollector P S) (ts : List Traffic)
        → (process_all
            (packet_count_collector sort_strings domain dogfood consumer collector)
            pc
            ts).next
          ≡ process_all collector pc.next
              (map {A = Traffic} (λ t. record t { content = sort_names sort_strings t.content }) ts)
    unfolding process_all packet_count_collector
    packet_count_collector-next pc [] = refl
    packet_count_collector-next pc (t ∷ ts) =
        packet_count_collector-next
          ((packet_count_collector sort_strings domain dogfood consumer collector).process pc t).0
          ts
