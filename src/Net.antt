-- ===== src/Net.antt =====
-- What the collectors exchange: the fields of `akinet.ParsedNetworkTraffic` and of its contents
-- that the repository's code reads or writes. UUIDs, ports and times (nanoseconds since Go's zero
-- time) are numbers; an IP address is a number that stands for all its spellings, since the code
-- compares addresses by `net.IP.Equal`.
use observability_cli.Prelude.{ℕ, String, Bool, Option, List, Map}

pub data Initiator : Type 0 where
  unknown_initiator source_initiator dest_initiator : Initiator

pub data EndState : Type 0 where
  connection_open connection_closed connection_reset : EndState

pub record TcpPacket : Type 0 where
  pub connection_id : ℕ
  pub syn : Bool
  pub ack : Bool
  pub fin : Bool
  pub rst : Bool
  pub payload_length : ℕ

pub record TcpConnection : Type 0 where
  pub connection_id : ℕ
  pub initiator : Initiator
  pub end_state : EndState

pub record HttpUrl : Type 0 where
  pub url_host : String
  pub url_path : String

pub record HttpRequest : Type 0 where
  pub stream_id : ℕ
  pub seq : ℕ
  pub host : String
  pub url : Option HttpUrl
  -- By canonical name, the first value of each.
  pub header : Map String String

pub record HttpResponse : Type 0 where
  pub stream_id : ℕ
  pub seq : ℕ
  pub header : Map String String

pub record ClientHello : Type 0 where
  pub connection_id : ℕ
  pub hostname : Option String

pub record ServerHello : Type 0 where
  pub connection_id : ℕ
  pub dns_names : List String

pub record TlsHandshake : Type 0 where
  pub connection_id : ℕ
  pub version : Option ℕ
  pub sni_hostname : Option String
  pub supported_protocols : List String
  pub selected_protocol : Option String
  pub subject_alternative_names : List String

pub data Content : Type 0 where
  http_request : HttpRequest → Content
  http_response : HttpResponse → Content
  tcp_packet : TcpPacket → Content
  tcp_connection : TcpConnection → Content
  client_hello : ClientHello → Content
  server_hello : ServerHello → Content
  tls_handshake : TlsHandshake → Content
  http2_preface : Content
  quic_handshake : Content
  dropped_bytes : ℕ → Content

pub record Traffic : Type 0 where
  pub src_ip : ℕ
  pub src_port : ℕ
  pub dst_ip : ℕ
  pub dst_port : ℕ
  pub interface : String
  pub content : Content
  pub observation_time : ℕ
  pub final_packet_time : ℕ

-- `error` is an `Option` of a message.
abbrev pub Error : Type 0
Error = Option String
