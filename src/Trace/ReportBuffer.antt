-- ===== src/Trace/ReportBuffer.antt =====
-- trace/report_buffer.go: reports on their way to the back end, which a batcher adds and flushes.
pub mod Conservation
pub mod Examples
use observability_cli.Prelude.{
  ℕ, Bool, true, false, ◌&&◌, Option, none, some, List, [], ◌∷◌, ◌++◌, String, ltb, leb,
  if◌then◌else◌,
}
use observability_cli.Net.{Error}
use observability_cli.Trace.Telemetry.{PacketCounts, no_counts}
use observability_cli.Trace.Counting.{Consumer}

-- What a witness is turned into: its encoded form, by number of bytes.
pub record WitnessReport : Type 0 where
  pub witness_id : ℕ
  pub witness_proto_length : ℕ

-- witnessWithInfo, with `toReport` carried out: none is its error.
pub record WitnessWithInfo : Type 0 where
  pub report : Option WitnessReport
  pub net_interface : String
  pub src_port : ℕ
  pub dst_port : ℕ

-- Reports on connections and handshakes are passed on as they are.
pub record RawReport (T H : Type 0) : Type 0 where
  pub witness : Option WitnessWithInfo
  pub tcp_report : Option T
  pub tls_handshake_report : Option H

-- kgxapi.UploadReportsRequest: its methods that add put a report at the end.
pub record UploadReportsRequest (T H : Type 0) : Type 0 where
  pub witnesses : List WitnessReport
  pub tcp_connections : List T
  pub tls_handshakes : List H

abbrev pub empty_request : {T H : Type 0} → UploadReportsRequest T H
empty_request = record { witnesses = []; tcp_connections = []; tls_handshakes = [] }

abbrev is_nil : {A : Type 0} → List A → Bool
is_nil [] = true
is_nil (_ ∷ _) = false

abbrev pub is_empty : {T H : Type 0} → UploadReportsRequest T H → Bool
is_empty r = is_nil r.witnesses && (is_nil r.tcp_connections && is_nil r.tls_handshakes)

-- The buffer with what it counts on.
pub record ReportBuffer (P T H : Type 0) : Type 0 where
  pub request : UploadReportsRequest T H
  pub packet_counts : P
  pub max_size_bytes : ℕ
  pub max_witness_size_bytes : Option ℕ

pub new_report_buffer : {P T H : Type 0} → P → ℕ → Option ℕ → ReportBuffer P T H
new_report_buffer packet_counts max_size_bytes max_witness_size_bytes = record {
  request = empty_request;
  packet_counts = packet_counts;
  max_size_bytes = max_size_bytes;
  max_witness_size_bytes = max_witness_size_bytes;
}

-- Is the encoded witness too large?
pub is_oversized : Option ℕ → WitnessReport → Bool
is_oversized none r = false
is_oversized (some max_size) r = ltb max_size r.witness_proto_length

pub oversized_counts : WitnessWithInfo → PacketCounts
oversized_counts w = record no_counts {
  interface = w.net_interface;
  src_port = w.src_port;
  dst_port = w.dst_port;
  oversized_witnesses = 1;
}

module _ {P T H : Type 0} (consumer : Consumer P) where
  pub add_witness : ReportBuffer P T H → Option WitnessWithInfo → ReportBuffer P T H
  unfolding is_oversized oversized_counts
  add_witness buf none = buf
  add_witness buf (some w) = elim w.report [
    | none ↦ buf
    | some r ↦
        if is_oversized buf.max_witness_size_bytes r
        then record buf { packet_counts = consumer.update buf.packet_counts (oversized_counts w) }
        else record buf {
          request = record buf.request { witnesses = buf.request.witnesses ++ r ∷ [] };
        }
  ]

  pub add_tcp_report : ReportBuffer P T H → Option T → ReportBuffer P T H
  add_tcp_report buf none = buf
  add_tcp_report buf (some r) = record buf {
    request = record buf.request { tcp_connections = buf.request.tcp_connections ++ r ∷ [] };
  }

  pub add_tls_handshake_report : ReportBuffer P T H → Option H → ReportBuffer P T H
  add_tls_handshake_report buf none = buf
  add_tls_handshake_report buf (some r) = record buf {
    request = record buf.request { tls_handshakes = buf.request.tls_handshakes ++ r ∷ [] };
  }

  -- `size_in_bytes` is UploadReportsRequest.SizeInBytes.
  module _ (size_in_bytes : UploadReportsRequest T H → ℕ) where
    pub is_full : ReportBuffer P T H → Bool
    is_full buf = leb buf.max_size_bytes (size_in_bytes buf.request)

    -- The buffer afterwards, and whether it is full. The error is always nil.
    pub add : ReportBuffer P T H → RawReport T H → ReportBuffer P T H × Bool
    unfolding add_witness add_tcp_report add_tls_handshake_report is_full
    add buf raw =
        let buf' =
          add_tls_handshake_report (add_tcp_report (add_witness buf raw.witness) raw.tcp_report)
            raw.tls_handshake_report in
        (buf', is_full buf')

  -- The buffer afterwards, and what was sent. It is cleared and the error is nil, whether or not
  -- the upload succeeds.
  pub flush : ReportBuffer P T H → ReportBuffer P T H × Option (UploadReportsRequest T H)
  flush buf =
      if is_empty buf.request
      then (buf, none)
      else (record buf { request = empty_request }, some buf.request)
