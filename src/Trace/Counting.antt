-- ===== src/Trace/Counting.antt =====
-- trace/collector.go: `PacketCountCollector`, which counts traffic by payload and passes it on.
pub mod Measures
use observability_cli.Prelude.{
  ℕ, Bool, true, false, Option, none, some, List, [], ◌∷◌, String, ◌==◌, string_eq, if◌then◌else◌,
}
use observability_cli.Net.{
  Traffic, Content, ServerHello, http_request, http_response, tcp_packet, tcp_connection,
  client_hello, server_hello, tls_handshake, http2_preface, quic_handshake, dropped_bytes, Error,
}
use observability_cli.Collector.{Collector}
use observability_cli.Trace.Telemetry.{PacketCounts, no_counts}

abbrev pub hostname_unavailable : String
hostname_unavailable = "(hosts without available names)"

-- PacketCountConsumer
pub record Consumer (P : Type 0) : Type 0 where
  pub update : P → PacketCounts → P

pub record PacketCountCollector (P S : Type 0) : Type 0 where
  pub packet_counts : P
  pub next : S

-- PacketCounts with what every branch sets: the interface and the ports.
pub counts_at : Traffic → PacketCounts
counts_at t = record no_counts {
  interface = t.interface;
  src_port = t.src_port;
  dst_port = t.dst_port;
}

-- c[len(c)-1] of a list that is not empty
pub last_of : String → List String → String
last_of x [] = x
last_of x (y ∷ ys) = last_of y ys

-- `sort_strings` is `sort.Strings`.
module _ (sort_strings : List String → List String) where
  -- The name for a server hello, after its names were sorted in place.
  pub server_host : List String → String
  unfolding last_of
  server_host names = elim (sort_strings names) [
    | [] ↦ hostname_unavailable
    | x ∷ xs ↦ last_of x xs
  ]

  -- The sort is seen by whoever gets the traffic afterwards.
  abbrev pub sort_names : Content → Content
  sort_names (server_hello c) = server_hello (record c { dns_names = sort_strings c.dns_names })
  sort_names x = x

-- `domain` is `rest.Domain`, and `dogfood` the flag's value.
pub include_host_name : String → Bool → String → Bool
include_host_name domain dogfood tls_name = if tls_name == domain then dogfood else true

module _ (sort_strings : List String → List String) (domain : String) (dogfood : Bool) where
  pub hello_counts : Traffic → String → Option PacketCounts
  unfolding include_host_name counts_at
  hello_counts t dst_host =
      if include_host_name domain dogfood dst_host
      then some (record (counts_at t) { dst_host = dst_host; tls_hello = 1 })
      else none

  -- What the type switch passes to `Update`, if anything.
  pub counts_of : Traffic → Content → Option PacketCounts
  unfolding hello_counts server_host counts_at
  counts_of t (http_request c) =
      some (record (counts_at t) { dst_host = c.host; http_requests = 1 })
  counts_of t (http_response c) = some (record (counts_at t) { http_responses = 1 })
  counts_of t (client_hello c) = elim c.hostname [
    | none ↦ hello_counts t hostname_unavailable
    | some name ↦ hello_counts t name
  ]
  counts_of t (server_hello c) = hello_counts t (server_host sort_strings c.dns_names)
  counts_of t (tcp_packet _) = none
  counts_of t (tcp_connection _) = none
  counts_of t (tls_handshake _) = none
  counts_of t http2_preface = some (record (counts_at t) { http2_prefaces = 1 })
  counts_of t quic_handshake = some (record (counts_at t) { quic_handshakes = 1 })
  counts_of t (dropped_bytes _) = some (record (counts_at t) { unparsed = 1 })

  module _ {P : Type 0} (consumer : Consumer P) where
    pub count_traffic : P → Traffic → P
    unfolding counts_of
    count_traffic p t = elim (counts_of t t.content) [ none ↦ p | some c ↦ consumer.update p c ]

  module _ {P S : Type 0} (consumer : Consumer P) (collector : Collector S) where
    pub packet_count_collector : Collector (PacketCountCollector P S)
    unfolding count_traffic
    packet_count_collector = record {
      process = λ pc t.
          let (s, err) =
            collector.process pc.next (record t { content = sort_names sort_strings t.content }) in
          (record { packet_counts = count_traffic consumer pc.packet_counts t; next = s }, err);
      close = λ pc. let (s, err) = collector.close pc.next in (record pc { next = s }, err);
    }
