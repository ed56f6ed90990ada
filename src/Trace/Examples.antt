-- ===== src/Trace/Examples.antt =====
-- The collectors of trace/ that filter, sample, count and copy, on one exchange.
use observability_cli.Prelude.{
  ℕ, ◌+◌, ◌*◌, Bool, ◌==◌, string_eq, Option, if◌then◌else◌, nat_beq, ◌≡◌, ◌⊎◌, refl, not, none,
  some, [], ◌∷◌, ◌++◌, filter_by,
}
use observability_cli.Net.{
  Traffic, Content, HttpRequest, HttpResponse, http_request, http_response, quic_handshake,
}
use observability_cli.Collector.Run.{process_all, recorder}
use observability_cli.Trace.Filters.{request_filter}
use observability_cli.Trace.Filters.Responses.{request_filter-kept}
use observability_cli.Trace.Sampling.{Sampler, sampling_collector}
use observability_cli.Trace.Sampling.Pairs.{is_sampled, sampling_collector-pair}
use observability_cli.Trace.Telemetry.{field_by_field}
use observability_cli.Trace.Stats.{PacketCounter, update}
use observability_cli.Trace.Counting.{Consumer}

abbrev at_port : ℕ → Content → Traffic
at_port port x = record {
  src_ip = 1;
  src_port = port;
  dst_ip = 2;
  dst_port = 80;
  interface = "eth0";
  content = x;
  observation_time = 1010;
  final_packet_time = 1011;
}

abbrev question : HttpRequest
question = record { stream_id = 7; seq = 0; host = "ads.example"; url = none; header = [] }

abbrev answer : HttpResponse
answer = record { stream_id = 7; seq = 0; header = [] }

abbrev asks : Traffic
asks = at_port 5000 (http_request question)

abbrev answers : Traffic
answers = at_port 80 (http_response answer)

abbrev other : Traffic
other = at_port 6000 quic_handshake

abbrev no_ads : Option (HttpRequest → Bool)
no_ads = some (λ r. not (r.host == "ads.example"))

abbrev pairing_id : ℕ → ℕ → ℕ
pairing_id stream seq = 1_000 * stream + seq

-- The exchange with the filtered host disappears whole.
request_filter-kept_example :
    (process_all
      (request_filter pairing_id no_ads recorder)
      (record { filtered_ids = []; next = [] })
      (asks ∷ other ∷ answers ∷ [])).next
    ≡ process_all recorder [] (other ∷ [])
request_filter-kept_example =
    request_filter-kept pairing_id no_ads recorder [] (asks ∷ other ∷ answers ∷ [])

-- It takes keys with an odd hash, which is the key's first letter's.
abbrev some_keys : Sampler
some_keys = record {
  uuid_string = λ n. "stream";
  connection_string = λ n. "connection";
  sum32 = λ key. if key == "" then 0 else 1;
  below_threshold = λ n. nat_beq n 1;
}

sampling_collector-pair_example :
    (process_all (sampling_collector some_keys recorder) [] (other ∷ asks ∷ (other ∷ answers ∷ []))
      ≡ process_all recorder [] (
          filter_by (is_sampled some_keys) (other ∷ [])
          ++ asks ∷ (filter_by (is_sampled some_keys) (other ∷ []) ++ answers ∷ [])))
    ⊎ (process_all
          (sampling_collector some_keys recorder)
          []
          (other ∷ asks ∷ (other ∷ answers ∷ []))
        ≡ process_all recorder [] (
            filter_by (is_sampled some_keys) (other ∷ [])
            ++ (filter_by (is_sampled some_keys) (other ∷ []) ++ [])))
sampling_collector-pair_example =
    sampling_collector-pair some_keys recorder [] asks answers question answer (other ∷ [])
      (other ∷ []) [] refl refl refl refl

-- The counters of trace/stats.go as the consumer.
abbrev counters : Consumer PacketCounter
counters = record { update = update field_by_field }
