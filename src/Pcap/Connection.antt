-- ===== src/Pcap/Connection.antt =====
-- pcap/stream.go, tcpStream: the two directions of a TCP connection.
pub mod Bytes
pub mod Initiator
pub mod Examples
use observability_cli.Prelude.{ℕ, Bool, Option, none, some, List, [], ◌∷◌, ◌++◌, map}
use observability_cli.Net.{Traffic, TcpPacket, tcp_packet}
use observability_cli.Pcap.Stream.{
  ScatterGather, Parsers, Sent, TcpFlow, new_tcp_flow, reassembled, reassembly_complete,
}

-- reassembly.TCPFlowDirection
pub data Direction : Type 0 where
  client_to_server server_to_client : Direction

unfoldable pub reverse : Direction → Direction
reverse client_to_server = server_to_client
reverse server_to_client = client_to_server

-- layers.TCP, as far as it is read.
pub record Segment : Type 0 where
  pub src_port : ℕ
  pub dst_port : ℕ
  pub syn : Bool
  pub ack : Bool
  pub fin : Bool
  pub rst : Bool
  pub payload_length : ℕ

-- The network and the transport flow of a direction.
pub record Endpoints : Type 0 where
  pub src_ip : ℕ
  pub src_port : ℕ
  pub dst_ip : ℕ
  pub dst_port : ℕ

unfoldable pub reverse_endpoints : Endpoints → Endpoints
reverse_endpoints e = record {
  src_ip = e.dst_ip;
  src_port = e.dst_port;
  dst_ip = e.src_ip;
  dst_port = e.src_port;
}

-- toPNT: what a flow sends has the endpoints of the flow.
unfoldable pub as_traffic : Endpoints → Sent → Traffic
as_traffic e s = record {
  src_ip = e.src_ip;
  src_port = e.src_port;
  dst_ip = e.dst_ip;
  dst_port = e.dst_port;
  interface = "";
  content = s.content;
  observation_time = s.observation_time;
  final_packet_time = s.final_packet_time;
}

-- The map of flows has an entry for each direction, or is nil.
pub record Flows (P : Type 0) : Type 0 where
  pub from_client : Endpoints × TcpFlow P
  pub from_server : Endpoints × TcpFlow P

unfoldable pub flow_of : {P : Type 0} → Flows P → Direction → Endpoints × TcpFlow P
flow_of fs client_to_server = fs.from_client
flow_of fs server_to_client = fs.from_server

unfoldable pub set_flow : {P : Type 0} → Flows P → Direction → Endpoints × TcpFlow P → Flows P
set_flow fs client_to_server f = record fs { from_client = f }
set_flow fs server_to_client f = record fs { from_server = f }

-- `out_chan` has what was sent, the last first.
pub record TcpStream (P : Type 0) : Type 0 where
  pub bidi_id : ℕ
  pub net_src : ℕ
  pub net_dst : ℕ
  pub flows : Option (Flows P)
  pub out_chan : List Traffic

unfoldable pub new_tcp_stream : {P : Type 0} → ℕ → ℕ → ℕ → TcpStream P
new_tcp_stream bidi_id net_src net_dst = record {
  bidi_id = bidi_id;
  net_src = net_src;
  net_dst = net_dst;
  flows = none;
  out_chan = [];
}

-- The endpoints of the first packet.
unfoldable pub endpoints : {P : Type 0} → TcpStream P → Segment → Endpoints
endpoints c tcp = record {
  src_ip = c.net_src;
  src_port = tcp.src_port;
  dst_ip = c.net_dst;
  dst_port = tcp.dst_port;
}

unfoldable pub new_flows : {P : Type 0} → TcpStream P → Segment → Direction → Flows P
new_flows c tcp dir =
    let e = endpoints c tcp in
    let empty : Flows _ = record {
      from_client = (e, new_tcp_flow c.bidi_id);
      from_server = (e, new_tcp_flow c.bidi_id);
    } in
    set_flow empty (reverse dir) (reverse_endpoints e, new_tcp_flow c.bidi_id)

-- akinet.TCPPacketMetadata of a packet.
unfoldable pub packet_metadata : {P : Type 0} → TcpStream P → Segment → TcpPacket
packet_metadata c tcp = record {
  connection_id = c.bidi_id;
  syn = tcp.syn;
  ack = tcp.ack;
  fin = tcp.fin;
  rst = tcp.rst;
  payload_length = tcp.payload_length;
}

-- The metadata of a packet: its ports, and the addresses of the stream.
unfoldable pub metadata : {P : Type 0} → TcpStream P → Segment → ℕ → Traffic
metadata c tcp timestamp = record {
  src_ip = c.net_src;
  src_port = tcp.src_port;
  dst_ip = c.net_dst;
  dst_port = tcp.dst_port;
  interface = "";
  content = tcp_packet (packet_metadata c tcp);
  observation_time = timestamp;
  final_packet_time = 0;
}

-- Accept takes every packet, and makes the stream start with it.
unfoldable pub accept : {P : Type 0} → TcpStream P → Segment → Direction → ℕ → TcpStream P
accept c tcp dir timestamp =
    let flows : Flows _ = elim c.flows [ none ↦ new_flows c tcp dir | some fs ↦ fs ] in
    record c { flows = some flows; out_chan = metadata c tcp timestamp ∷ c.out_chan }

-- A flow's new state, with what it sent moved to the shared channel.
unfoldable pub put_back :
    {P : Type 0} → TcpStream P → Flows P → Direction → Endpoints → TcpFlow P → TcpStream P
put_back c fs dir e f = record c {
  flows = some (set_flow fs dir (e, record f { out_chan = [] }));
  out_chan = map (as_traffic e) f.out_chan ++ c.out_chan;
}

module _ {F P : Type 0} (parsers : Parsers F P) where
  -- ReassembledSG, in the direction that `sg.Info` tells; `none`: out of fuel.
  unfoldable pub reassembled_sg :
      TcpStream P → Direction → ScatterGather → Option ℕ → ℕ → Option (TcpStream P)
  reassembled_sg c dir sg ac now = elim c.flows [
    | none ↦ some c
    | some fs ↦
        let (e, f) = flow_of fs dir in
        elim (reassembled parsers now f sg ac) [
          | none ↦ none
          | some f' ↦ some (put_back c fs dir e f')
        ]
  ]

  unfoldable pub complete_flow : TcpStream P → Direction → ℕ → TcpStream P
  complete_flow c dir now = elim c.flows [
    | none ↦ c
    | some fs ↦
        let (e, f) = flow_of fs dir in put_back c fs dir e (reassembly_complete parsers now f)
  ]

  -- ReassemblyComplete; the map's order decides which direction is first.
  unfoldable pub stream_complete : TcpStream P → Direction → ℕ → TcpStream P
  stream_complete c first now = complete_flow (complete_flow c first now) (reverse first) now
