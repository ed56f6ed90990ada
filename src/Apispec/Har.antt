-- ===== src/Apispec/Har.antt =====
-- apispec/har.go: the entries of a HAR file become requests and responses.
pub mod Timestamps
pub mod Entries
pub mod Latency
pub mod Examples
use observability_cli.Prelude.{
  ℕ, suc, ◌+◌, Bool, true, false, ◌&&◌, Option, none, some, List, [], ◌∷◌, nat_beq, if◌then◌else◌,
}
use observability_cli.Net.{
  Traffic, Content, HttpRequest, HttpResponse, http_request, http_response, Error,
}
use observability_cli.Collector.{Collector}
use observability_cli.Collector.SampledErrors.{SampledErrors, add_error}

-- The arithmetic of float32, on milliseconds: `*ms <= 0.0`, and `int64(*ms * 1_000_000.0)` for a
-- positive number.
pub record Milliseconds (F : Type 0) : Type 0 where
  pub at_most_zero : F → Bool
  pub nanoseconds : F → ℕ

-- har_loader.CustomTimings
pub record CustomTimings (F : Type 0) : Type 0 where
  pub blocked : Option F
  pub dns : Option F
  pub connect : Option F
  pub ssl : Option F
  pub send : Option F
  pub wait : Option F
  pub receive : Option F

-- har_loader.CustomHAREntry, with the requests and responses of the library `har`.
pub record CustomHarEntry (F Rq Rs : Type 0) : Type 0 where
  pub started_date_time : ℕ
  pub request : Option Rq
  pub response : Option Rs
  pub timings : Option (CustomTimings F)

pub record ReconstructedTimestamps : Type 0 where
  pub request_start : ℕ
  pub request_end : ℕ
  pub response_start : ℕ
  pub response_end : ℕ

-- `FromHAR` of the library `akinet`: what was read, and the error.
pub record FromHar (Rq Rs : Type 0) : Type 0 where
  pub convert_request : Rq → HttpRequest × Error
  pub convert_response : Rs → HttpResponse × Error

module _ {F : Type 0} (ms : Milliseconds F) where
  unfoldable pub advance_time : ℕ → Option F → ℕ
  advance_time current none = current
  advance_time current (some d) = if ms.at_most_zero d then current else current + ms.nanoseconds d

  unfoldable pub reconstruct_from_timings : ℕ → CustomTimings F → ReconstructedTimestamps
  reconstruct_from_timings started timings =
      let request_start = advance_time (advance_time started timings.blocked) timings.dns in
      let connected = advance_time (advance_time request_start timings.connect) timings.ssl in
      let request_end = advance_time connected timings.send in
      let response_start = advance_time request_end timings.wait in
      record {
        request_start = request_start;
        request_end = request_end;
        response_start = response_start;
        response_end = advance_time response_start timings.receive;
      }

  unfoldable pub reconstruct : ℕ → Option (CustomTimings F) → ReconstructedTimestamps
  reconstruct started none = record {
    request_start = started;
    request_end = started;
    response_start = started;
    response_end = started;
  }
  reconstruct started (some timings) = reconstruct_from_timings started timings

  -- Without a start, the times are all zero.
  unfoldable pub reconstruct_from_har :
      {Rq Rs : Type 0} → CustomHarEntry F Rq Rs → ReconstructedTimestamps
  reconstruct_from_har entry =
      if nat_beq entry.started_date_time 0
      then record { request_start = 0; request_end = 0; response_start = 0; response_end = 0 }
      else reconstruct entry.started_date_time entry.timings

-- The fields that ProcessHAREntry leaves alone have their zero values.
unfoldable pub har_traffic : ℕ → ℕ → Content → Traffic
har_traffic observed final content = record {
  src_ip = 0;
  src_port = 0;
  dst_ip = 0;
  dst_port = 0;
  interface = "";
  content = content;
  observation_time = observed;
  final_packet_time = final;
}

-- The collector, the errors, and whether the entry is a success so far.
abbrev pub Progress : Type 0 → Type 0 → Type 0
Progress S E = S × E × Bool

module _ {S E : Type 0} (col : Collector S) (sampled : SampledErrors E) where
  -- One half of an entry. The error of the collector's Process is not looked at.
  unfoldable pub process_half : Progress S E → Error → Traffic → Progress S E
  process_half (s, errs, success) none t = ((col.process s t).0, errs, success)
  process_half (s, errs, success) (some e) t = (s, sampled.add errs e, false)

module _ {S E Rq Rs : Type 0} (col : Collector S) (sampled : SampledErrors E)
    (from_har : FromHar Rq Rs) where
  unfoldable pub process_request :
      ReconstructedTimestamps → ℕ → ℕ → Progress S E → Option Rq → Progress S E
  unfolding process_half har_traffic
  process_request ts har_uuid seq_num p none = p
  process_request ts har_uuid seq_num p (some r) =
      let (req, err) = from_har.convert_request r in
      process_half col sampled p err (
        har_traffic ts.request_start ts.request_end
          (http_request (record req { stream_id = har_uuid; seq = seq_num })))

  unfoldable pub process_response :
      ReconstructedTimestamps → ℕ → ℕ → Progress S E → Option Rs → Progress S E
  unfolding process_half har_traffic
  process_response ts har_uuid seq_num p none = p
  process_response ts har_uuid seq_num p (some r) =
      let (resp, err) = from_har.convert_response r in
      process_half col sampled p err (
        har_traffic ts.response_start ts.response_end
          (http_response (record resp { stream_id = har_uuid; seq = seq_num })))

module _ {S E F Rq Rs : Type 0} (col : Collector S) (sampled : SampledErrors E)
    (ms : Milliseconds F) (from_har : FromHar Rq Rs) where
  unfoldable pub process_har_entry : S → E → ℕ → ℕ → CustomHarEntry F Rq Rs → Progress S E
  process_har_entry s errs har_uuid seq_num entry =
      let ts = reconstruct_from_har ms entry in
      process_response col sampled from_har ts har_uuid seq_num
        (process_request col sampled from_har ts har_uuid seq_num (s, errs, true) entry.request)
        entry.response

  -- The loop of ParseFromHAR from entry `i` on, with the number of successes so far.
  unfoldable pub parse_entries : S → E → ℕ → ℕ → ℕ → List (CustomHarEntry F Rq Rs) → S × E × ℕ
  parse_entries s errs har_uuid i successes [] = (s, errs, successes)
  parse_entries s errs har_uuid i successes (entry ∷ entries) =
      let (s', errs', success) = process_har_entry s errs har_uuid i entry in
      parse_entries s' errs' har_uuid (suc i) (if success then suc successes else successes) entries

  -- `har_uuid` is the new UUID.
  unfoldable pub parse_from_har : S → ℕ → List (CustomHarEntry F Rq Rs) → S × E × ℕ
  parse_from_har s har_uuid entries = parse_entries s (sampled.empty 3) har_uuid 0 0 entries
