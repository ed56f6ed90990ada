-- ===== src/Trace/BackendCollector.antt =====
-- trace/backend_collector.go: requests and responses become witnesses for the back end.
pub mod Queue
pub mod Conservation
pub mod Cache
pub mod Flush
pub mod Pairing
pub mod Interleaving
pub mod Sparing
pub mod Interleaved
pub mod Examples
pub mod Overlaps
use observability_cli.Prelude.{
  ℕ, ◌+◌, ◌-◌, ◌/◌, ◌%◌, ◌^◌, Bool, true, false, ◌||◌, Option, none, some, List, [], ◌∷◌, String,
  ltb, nat_beq, nat_eq, if◌then◌else◌, Map, get, put, delete,
}
use observability_cli.Prelude.Int.{ℤ, pos, negsuc, sub_ℕ}
use observability_cli.Net.{
  Traffic, Content, http_request, http_response, tcp_connection, tls_handshake, TcpConnection,
  TlsHandshake, EndState, unknown_initiator, dest_initiator, Error,
}

-- time.Minute, in nanoseconds.
abbrev pub pair_cache_expiration : ℕ
pair_cache_expiration = 60000000000

-- learn.PartialWitness
pub record PartialWitness (W : Type 0) : Type 0 where
  pub witness : W
  pub pair_key : ℕ

-- What is done to a `pb.Witness` W elsewhere: `learn.ParseHTTP` (none: its error),
-- `learn.MergeWitness`, the field ProcessingLatency, which is written in milliseconds from a number
-- of microseconds, and `obfuscate`.
pub record WitnessLibrary (W : Type 0) : Type 0 where
  pub parse_http : Content → Option (PartialWitness W)
  pub merge_witness : W → W → W
  pub set_processing_latency : W → ℤ → W
  pub obfuscate : W → W

-- plugin.AkitaPlugin: `Transform` changes the witness in place, also when it returns an error.
pub record AkitaPlugin (W : Type 0) : Type 0 where
  pub name : String
  pub transform : W → W × Error

pub record WitnessWithInfo (W : Type 0) : Type 0 where
  pub net_interface : String
  pub src_ip : ℕ
  pub src_port : ℕ
  pub dst_ip : ℕ
  pub dst_port : ℕ
  pub observation_time : ℕ
  pub id : ℕ
  pub request_end : ℕ
  pub response_start : ℕ
  pub witness : W

-- kgxapi.TCPConnectionReport
pub record TcpConnectionReport : Type 0 where
  pub id : ℕ
  pub src_addr : ℕ
  pub src_port : ℕ
  pub dest_addr : ℕ
  pub dest_port : ℕ
  pub first_observed : ℕ
  pub last_observed : ℕ
  pub initiator_known : Bool
  pub end_state : EndState

-- kgxapi.TLSHandshakeReport
pub record TlsHandshakeReport : Type 0 where
  pub id : ℕ
  pub version : Option ℕ
  pub sni_hostname : Option String
  pub supported_protocols : List String
  pub selected_protocol : Option String
  pub subject_alternative_names : List String

-- rawReport: the code fills one of its three fields at a time.
pub data Report (W : Type 0) : Type 0 where
  witness_report : WitnessWithInfo W → Report W
  tcp_report : TcpConnectionReport → Report W
  tls_report : TlsHandshakeReport → Report W

-- `added` has the reports given to the batcher, the last one first, and `skipped` the witnesses that
-- a plugin refused, which the code prints the plugin's name and error of. `flush_done` and
-- `batch_closed` say whether Close was called.
pub record BackendCollector (W : Type 0) : Type 0 where
  pub learn_session_id : ℕ
  pub pair_cache : Map ℕ (WitnessWithInfo W)
  pub added : List (Report W)
  pub skipped : List (WitnessWithInfo W)
  pub flush_done : Bool
  pub batch_closed : Bool
  pub plugins : List (AkitaPlugin W)

unfoldable pub new_backend_collector : {W : Type 0} → ℕ → List (AkitaPlugin W) → BackendCollector W
new_backend_collector lrn plugins = record {
  learn_session_id = lrn;
  pair_cache = [];
  added = [];
  skipped = [];
  flush_done = false;
  batch_closed = false;
  plugins = plugins;
}

-- uint16(port)
unfoldable pub uint16 : ℕ → ℕ
uint16 port = port % 2 ^ 16

unfoldable pub is_request : Content → Bool
is_request (http_request _) = true
is_request _ = false

-- Duration.Microseconds rounds towards zero.
unfoldable pub microseconds : ℤ → ℤ
microseconds (pos n) = pos (n / 1000)
microseconds (negsuc n) = sub_ℕ 0 ((n + 1) / 1000)

unfoldable pub record_timestamp :
    {W : Type 0} → WitnessWithInfo W → Bool → Traffic → WitnessWithInfo W
record_timestamp w true t = record w { request_end = t.final_packet_time }
record_timestamp w false t = record w { response_start = t.observation_time }

-- The partial witness as it is stored for its pair.
unfoldable pub new_entry : {W : Type 0} → PartialWitness W → Traffic → WitnessWithInfo W
unfolding uint16 record_timestamp is_request
new_entry p t =
    record_timestamp
      (record {
        net_interface = t.interface;
        src_ip = t.src_ip;
        src_port = uint16 t.src_port;
        dst_ip = t.dst_ip;
        dst_port = uint16 t.dst_port;
        observation_time = t.observation_time;
        id = p.pair_key;
        request_end = 0;
        response_start = 0;
        witness = p.witness;
      })
      (is_request t.content) t

unfoldable pub flip_endpoints : {W : Type 0} → WitnessWithInfo W → WitnessWithInfo W
flip_endpoints w = record w {
  src_ip = w.dst_ip;
  dst_ip = w.src_ip;
  src_port = w.dst_port;
  dst_port = w.src_port;
}

-- The plugins in turn: none when one returns an error.
unfoldable pub transform_all : {W : Type 0} → List (AkitaPlugin W) → W → Option W
transform_all [] w = some w
transform_all (p ∷ ps) w =
    let rest = transform_all ps (p.transform w).0 in
    elim (p.transform w).1 [ none ↦ rest | some _ ↦ none ]

unfoldable pub add_report : {W : Type 0} → BackendCollector W → Report W → BackendCollector W
add_report c r = record c { added = r ∷ c.added }

unfoldable pub process_tcp_connection :
    {W : Type 0} → BackendCollector W → Traffic → TcpConnection → BackendCollector W
process_tcp_connection c t tcp =
    let flipped : Bool = elim tcp.initiator [ dest_initiator ↦ true | _ ↦ false ] in
    add_report c (
      tcp_report (record {
        id = tcp.connection_id;
        src_addr = if flipped then t.dst_ip else t.src_ip;
        src_port = uint16 (if flipped then t.dst_port else t.src_port);
        dest_addr = if flipped then t.src_ip else t.dst_ip;
        dest_port = uint16 (if flipped then t.src_port else t.dst_port);
        first_observed = t.observation_time;
        last_observed = t.final_packet_time;
        initiator_known = elim tcp.initiator [ unknown_initiator ↦ false | _ ↦ true ];
        end_state = tcp.end_state;
      }))

unfoldable pub process_tls_handshake :
    {W : Type 0} → BackendCollector W → TlsHandshake → BackendCollector W
process_tls_handshake c tls = add_report c (
    tls_report (record {
      id = tls.connection_id;
      version = tls.version;
      sni_hostname = tls.sni_hostname;
      supported_protocols = tls.supported_protocols;
      selected_protocol = tls.selected_protocol;
      subject_alternative_names = tls.subject_alternative_names;
    }))

unfoldable pub switch_learn_session : {W : Type 0} → BackendCollector W → ℕ → BackendCollector W
switch_learn_session c session = record c { learn_session_id = session }

module _ {W : Type 0} (lib : WitnessLibrary W) where
  -- A time of zero is missing data.
  unfoldable pub write_latency : W → ℕ → ℕ → W
  write_latency w request_end response_start =
      if nat_beq request_end 0 || nat_beq response_start 0
      then w
      else lib.set_processing_latency w (microseconds (sub_ℕ response_start request_end))

  unfoldable pub compute_processing_latency : WitnessWithInfo W → Bool → Traffic → WitnessWithInfo W
  compute_processing_latency w true t = record w {
    witness = write_latency w.witness t.final_packet_time w.response_start;
  }
  compute_processing_latency w false t = record w {
    witness = write_latency w.witness w.request_end t.observation_time;
  }

  unfoldable pub queue_upload : BackendCollector W → WitnessWithInfo W → BackendCollector W
  queue_upload c w = elim (transform_all c.plugins w.witness) [
    | none ↦ record c { skipped = w ∷ c.skipped }
    | some v ↦ add_report c (witness_report (record w { witness = lib.obfuscate v }))
  ]

  -- The stored half with the other half merged into it.
  unfoldable pub complete_pair : WitnessWithInfo W → PartialWitness W → Traffic → WitnessWithInfo W
  complete_pair pair p t =
      let request = is_request t.content in
      let merged =
        compute_processing_latency
          (record pair { witness = lib.merge_witness pair.witness p.witness }) request t in
      if request then flip_endpoints merged else merged

  unfoldable pub process_partial :
      BackendCollector W → PartialWitness W → Traffic → BackendCollector W
  process_partial c p t = elim (get p.pair_key c.pair_cache) [
    | some pair ↦
        queue_upload (record c { pair_cache = delete p.pair_key c.pair_cache })
          (complete_pair pair p t)
    | none ↦ record c { pair_cache = put p.pair_key (new_entry p t) c.pair_cache }
  ]

  -- ParseHTTP's error is only counted and printed.
  unfoldable pub process_http : BackendCollector W → Traffic → BackendCollector W
  process_http c t = elim (lib.parse_http t.content) [ none ↦ c | some p ↦ process_partial c p t ]

  -- The error is always nil.
  unfoldable pub process : BackendCollector W → Traffic → BackendCollector W
  process c t = elim t.content [
    | http_request _ ↦ process_http c t
    | http_response _ ↦ process_http c t
    | tcp_connection tcp ↦ process_tcp_connection c t tcp
    | tls_handshake tls ↦ process_tls_handshake c tls
    | _ ↦ c
  ]

  unfoldable pub flush_entry : BackendCollector W → ℕ → ℕ → WitnessWithInfo W → BackendCollector W
  flush_entry c cutoff k e =
      let uploaded = queue_upload c e in
      if ltb e.observation_time cutoff
      then record uploaded { pair_cache = delete k uploaded.pair_cache }
      else c

  -- Range goes through the entries that the cache had.
  unfoldable pub flush_entries :
      BackendCollector W → ℕ → Map ℕ (WitnessWithInfo W) → BackendCollector W
  flush_entries c cutoff [] = c
  flush_entries c cutoff ((k, e) ∷ rest) = flush_entries (flush_entry c cutoff k e) cutoff rest

  unfoldable pub flush_pair_cache : BackendCollector W → ℕ → BackendCollector W
  flush_pair_cache c cutoff = flush_entries c cutoff c.pair_cache

  -- A tick of periodicFlush, at time `now`.
  unfoldable pub periodic_flush : BackendCollector W → ℕ → BackendCollector W
  periodic_flush c now =
      if c.flush_done then c else flush_pair_cache c (now - pair_cache_expiration)

  -- A second Close panics: `none`.
  unfoldable pub close : BackendCollector W → ℕ → Option (BackendCollector W)
  close c now =
      let flushed = flush_pair_cache (record c { flush_done = true }) now in
      if c.flush_done then none else some (record flushed { batch_closed = true })
