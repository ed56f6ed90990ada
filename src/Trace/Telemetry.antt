-- ===== src/Trace/Telemetry.antt =====
-- The library `client_telemetry`, which trace/stats.go and trace/collector.go only call: the fields
-- of `PacketCounts` that the repository uses, and `Add`, a parameter with its documented behaviour.
-- Counts are Go `int`s, taken as numbers that do not overflow.
use observability_cli.Prelude.{ℕ, ◌+◌, ◌≡◌, refl, String}

pub record PacketCounts : Type 0 where
  pub interface : String
  pub src_host : String
  pub dst_host : String
  pub src_port : ℕ
  pub dst_port : ℕ
  pub tcp_packets : ℕ
  pub http_requests : ℕ
  pub http_responses : ℕ
  pub tls_hello : ℕ
  pub http2_prefaces : ℕ
  pub quic_handshakes : ℕ
  pub unparsed : ℕ
  pub oversized_witnesses : ℕ

-- PacketCounts{}
abbrev pub no_counts : PacketCounts
no_counts = record {
  interface = "";
  src_host = "";
  dst_host = "";
  src_port = 0;
  dst_port = 0;
  tcp_packets = 0;
  http_requests = 0;
  http_responses = 0;
  tls_hello = 0;
  http2_prefaces = 0;
  quic_handshakes = 0;
  unparsed = 0;
  oversized_witnesses = 0;
}

-- The fields that are counts.
pub data Measure : Type 0 where
  tcp requests responses hellos prefaces quics unparsed_packets oversized : Measure

abbrev pub measure : Measure → PacketCounts → ℕ
measure tcp c = c.tcp_packets
measure requests c = c.http_requests
measure responses c = c.http_responses
measure hellos c = c.tls_hello
measure prefaces c = c.http2_prefaces
measure quics c = c.quic_handshakes
measure unparsed_packets c = c.unparsed
measure oversized c = c.oversized_witnesses

pub record Telemetry : Type 0 where
  -- a.Add(b), the new value of a
  pub add : PacketCounts → PacketCounts → PacketCounts
  pub measure-add :
      (μ : Measure) (a b : PacketCounts) → measure μ (add a b) ≡ measure μ a + measure μ b
  pub src_port-add : (a b : PacketCounts) → (add a b).src_port ≡ a.src_port
  pub src_host-add : (a b : PacketCounts) → (add a b).src_host ≡ a.src_host
  pub interface-add : (a b : PacketCounts) → (add a b).interface ≡ a.interface

abbrev pub add_fields : PacketCounts → PacketCounts → PacketCounts
add_fields a b = record a {
  tcp_packets = a.tcp_packets + b.tcp_packets;
  http_requests = a.http_requests + b.http_requests;
  http_responses = a.http_responses + b.http_responses;
  tls_hello = a.tls_hello + b.tls_hello;
  http2_prefaces = a.http2_prefaces + b.http2_prefaces;
  quic_handshakes = a.quic_handshakes + b.quic_handshakes;
  unparsed = a.unparsed + b.unparsed;
  oversized_witnesses = a.oversized_witnesses + b.oversized_witnesses;
}

pub measure-add_fields :
    (μ : Measure) (a b : PacketCounts) → measure μ (add_fields a b) ≡ measure μ a + measure μ b
measure-add_fields tcp a b = refl
measure-add_fields _ a b = refl

-- An `Add` that behaves so.
abbrev pub field_by_field : Telemetry
field_by_field = record {
  add = add_fields;
  measure-add = measure-add_fields;
  src_port-add = λ _ _. refl;
  src_host-add = λ _ _. refl;
  interface-add = λ _ _. refl;
}
