-- ===== src/Pcap/Packets.antt =====
-- pcap/net_parse.go: each captured packet goes to the assembler of TCP or becomes traffic.
pub mod Isolation
pub mod Examples
use observability_cli.Prelude.{
  ℕ, ◌+◌, ◌-◌, ◌*◌, Bool, true, false, Option, none, some, List, [], ◌∷◌, ◌++◌, nat_beq,
  if◌then◌else◌,
}
use observability_cli.Net.{Traffic, dropped_bytes}
use observability_cli.Pcap.Stream.{AssemblerCtxWithSeq}
use observability_cli.Pcap.Connection.{Segment}

-- gopacket.NetworkLayer: the addresses of IPv4 and IPv6, of which others have none (0).
pub record NetworkLayer : Type 0 where
  pub src_ip : ℕ
  pub dst_ip : ℕ
  pub layer_payload : ℕ

-- gopacket.TransportLayer, each with the length of its payload.
pub data TransportLayer : Type 0 where
  tcp_layer : Segment → ℕ → ℕ → TransportLayer
  udp_layer : ℕ → ℕ → ℕ → TransportLayer
  other_layer : ℕ → TransportLayer

-- gopacket.Packet; a timestamp of zero is not set.
pub record Packet : Type 0 where
  pub network_layer : Option NetworkLayer
  pub transport_layer : Option TransportLayer
  pub timestamp : ℕ

-- reassembly.Assembler, of which each call may send traffic through the streams.
pub record Assembler (A : Type 0) : Type 0 where
  pub assemble_with_context : A → ℕ × ℕ → Segment → AssemblerCtxWithSeq → A × List Traffic
  pub flush_with_options : A → ℕ → ℕ → A × List Traffic
  pub flush_all : A → A × List Traffic

abbrev pub second : ℕ
second = 1000000000

abbrev pub stream_timeout_seconds : ℕ
stream_timeout_seconds = 10

abbrev pub stream_close_timeout_seconds : ℕ
stream_close_timeout_seconds = 90

unfoldable pub context_from_tcp_packet : Packet → ℕ → ℕ → AssemblerCtxWithSeq
context_from_tcp_packet p seq ack = record { seq = seq; ack = ack; timestamp = p.timestamp }

-- Traffic of which only the size is known.
unfoldable pub dropped : NetworkLayer → ℕ → ℕ → ℕ → ℕ → Traffic
dropped l src_port dst_port size observation_time = record {
  src_ip = l.src_ip;
  src_port = src_port;
  dst_ip = l.dst_ip;
  dst_port = dst_port;
  interface = "";
  content = dropped_bytes size;
  observation_time = observation_time;
  final_packet_time = 0;
}

-- What the goroutine of ParseFromInterface gets: a packet, the end of the packets, or a tick; each
-- with the time of the clock.
pub data Input : Type 0 where
  packet_arrives : Packet → ℕ → Input
  packets_end : Input
  ticks : ℕ → Input

-- `observed` has the packets that the observer saw and `out` the traffic sent, in order.
pub record Parser (A : Type 0) : Type 0 where
  pub assembler : A
  pub observed : List Packet
  pub out : List Traffic
  pub closed : Bool

unfoldable pub sends : {A : Type 0} → Parser A → List Traffic → Parser A
sends p ts = record p { out = p.out ++ ts }

unfoldable pub assembled : {A : Type 0} → Parser A → A × List Traffic → Parser A
assembled p (a, ts) = sends (record p { assembler = a }) ts

module _ {A : Type 0} (lib : Assembler A) where
  unfoldable pub transport_to_traffic :
      Parser A → Packet → NetworkLayer → ℕ → Option TransportLayer → Parser A
  transport_to_traffic p packet l time none = sends p (dropped l 0 0 l.layer_payload time ∷ [])
  transport_to_traffic p packet l time (some (tcp_layer tcp seq ack)) = assembled p (
      lib.assemble_with_context p.assembler (l.src_ip, l.dst_ip) tcp
        (context_from_tcp_packet packet seq ack))
  transport_to_traffic p packet l time (some (udp_layer src_port dst_port size)) =
      sends p (dropped l src_port dst_port size time ∷ [])
  transport_to_traffic p packet l time (some (other_layer size)) =
      sends p (dropped l 0 0 size time ∷ [])

  -- packetToParsedNetworkTraffic; a packet without a network layer is not usable.
  unfoldable pub packet_to_parsed_network_traffic : Parser A → Packet → ℕ → Parser A
  packet_to_parsed_network_traffic p packet now = elim packet.network_layer [
    | none ↦ p
    | some l ↦
        let time = if nat_beq packet.timestamp 0 then now else packet.timestamp in
        transport_to_traffic p packet l time packet.transport_layer
  ]

  unfoldable pub handle_input : Parser A → Input → Parser A
  handle_input p (packet_arrives packet now) =
      packet_to_parsed_network_traffic (record p { observed = p.observed ++ packet ∷ [] }) packet
        now
  handle_input p packets_end = record (assembled p (lib.flush_all p.assembler)) { closed = true }
  handle_input p (ticks now) = assembled p (
      lib.flush_with_options p.assembler (now - stream_timeout_seconds * second)
        (now - stream_close_timeout_seconds * second))

  -- The goroutine returns when the packets end.
  unfoldable pub run_parser : Parser A → List Input → Parser A
  run_parser p [] = p
  run_parser p (i ∷ is) =
      let rest = run_parser (handle_input p i) is in if p.closed then p else rest
