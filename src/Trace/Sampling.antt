-- ===== src/Trace/Sampling.antt =====
-- Two collectors of trace/collector.go that drop traffic: the sampler, and the filter of the agent's
-- own traffic with its test in util/util.go.
pub mod Pairs
use Prim.Native.String.{◌++◌ as text_append}
use observability_cli.Prelude.{
  ℕ, zero, suc, ◌/◌, ◌%◌, ltb, Bool, true, false, ◌||◌, not, none, some, String, ◌==◌, string_eq,
  if◌then◌else◌, Map, get,
}
use observability_cli.Net.{
  Traffic, Content, http_request, http_response, tcp_packet, tcp_connection, client_hello,
  server_hello, tls_handshake, http2_preface, quic_handshake, dropped_bytes,
}
use observability_cli.Collector.{Collector}

-- strconv.Itoa, of a number that is not negative.
digit : ℕ → String
digit n = elim n [
  | zero ↦ "0"
  | suc zero ↦ "1"
  | suc (suc zero) ↦ "2"
  | suc (suc (suc zero)) ↦ "3"
  | suc (suc (suc (suc zero))) ↦ "4"
  | suc (suc (suc (suc (suc zero)))) ↦ "5"
  | suc (suc (suc (suc (suc (suc zero))))) ↦ "6"
  | suc (suc (suc (suc (suc (suc (suc zero)))))) ↦ "7"
  | suc (suc (suc (suc (suc (suc (suc (suc zero))))))) ↦ "8"
  | _ ↦ "9"
]

itoa_from : ℕ → ℕ → String
unfolding digit
itoa_from zero n = ""
itoa_from (suc fuel) n =
    let front = itoa_from fuel (n / 10) in
    if ltb n 10 then digit n else text_append front (digit (n % 10))

pub itoa : ℕ → String
unfolding itoa_from
itoa n = itoa_from (suc n) n

-- How the sampler spells IDs, and what its hash and its threshold decide about a key.
pub record Sampler : Type 0 where
  pub uuid_string : ℕ → String
  pub connection_string : ℕ → String
  -- xxhash's Sum32
  pub sum32 : String → ℕ
  -- Whether a hash is below the threshold, in floating-point arithmetic.
  pub below_threshold : ℕ → Bool

module _ (sampling : Sampler) where
  pub include_sample : String → Bool
  include_sample key = sampling.below_threshold (sampling.sum32 key)

  pub sample_key : Content → String
  unfolding itoa
  sample_key (http_request c) = text_append (sampling.uuid_string c.stream_id) (itoa c.seq)
  sample_key (http_response c) = text_append (sampling.uuid_string c.stream_id) (itoa c.seq)
  sample_key (tcp_connection c) = sampling.connection_string c.connection_id
  sample_key (tls_handshake c) = sampling.connection_string c.connection_id
  sample_key _ = ""

  pub sampling_collector : {S : Type 0} → Collector S → Collector S
  unfolding include_sample
  sampling_collector collector = record {
    process =
        λ s t. if include_sample (sample_key t.content) then collector.process s t else (s, none);
    close = collector.close;
  }

  -- A rate of 1.0 samples nothing away.
  pub new_sampling_collector : {S : Type 0} → Bool → Collector S → Collector S
  unfolding sampling_collector
  new_sampling_collector rate_is_one collector =
      if rate_is_one then collector else sampling_collector collector

-- http.Header's Get: a header that is not there is empty.
header_get : Map String String → String → String
header_get header k = elim (get k header) [ none ↦ "" | some v ↦ v ]

-- The names are constants of the library `spec_util`.
module _ (cli_git_version request_id : String) where
  -- The loop over the two names.
  pub has_cli_header : Map String String → Bool
  unfolding header_get
  has_cli_header header =
      not (header_get header cli_git_version == "") || not (header_get header request_id == "")

  pub contains_cli_traffic : Content → Bool
  unfolding has_cli_header
  contains_cli_traffic (http_request c) = has_cli_header c.header
  contains_cli_traffic (http_response c) = has_cli_header c.header
  contains_cli_traffic _ = false

  pub user_traffic_collector : {S : Type 0} → Collector S → Collector S
  user_traffic_collector collector = record {
    process = λ s t. if contains_cli_traffic t.content then (s, none) else collector.process s t;
    close = collector.close;
  }
