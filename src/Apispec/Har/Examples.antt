-- ===== src/Apispec/Har/Examples.antt =====
-- A HAR file of apispec/har.go with an entry that waited 25 milliseconds.
use observability_cli.Prelude.{
  ℕ, ◌*◌, ◌≡◌, refl, true, false, none, some, List, [], ◌∷◌, nat_beq, nat_eq, get, arith, ltb,
}
use observability_cli.Prelude.Int.{pos}
use observability_cli.Net.{Error}
use observability_cli.Collector.{Collector}
use observability_cli.Collector.Run.{process_all, recorder}
use observability_cli.Collector.SampledErrors.{counted_errors}
use observability_cli.Trace.BackendCollector.{BackendCollector, queue_upload, process, microseconds}
use observability_cli.Trace.BackendCollector.Pairing.{exchange}
use observability_cli.Trace.BackendCollector.Examples.{Messages, half, library}
use observability_cli.Apispec.Har.{
  Milliseconds, CustomHarEntry, FromHar, har_traffic, process_har_entry, parse_from_har,
}
use observability_cli.Apispec.Har.Entries.{traffic_of, parse_from_har-all}
use observability_cli.Apispec.Har.Latency.{request_of, response_of, process_har_entry-latency}

-- Whole milliseconds.
abbrev whole : Milliseconds ℕ
whole = record { at_most_zero = λ d. nat_beq d 0; nanoseconds = λ d. d * 1000000 }

-- Messages are numbers; those from 100 on do not convert.
abbrev refusal : ℕ → Error
refusal n = elim (ltb n 100) [ true ↦ none | false ↦ some "malformed" ]

abbrev numbers : FromHar ℕ ℕ
numbers = record {
  convert_request =
      λ n. (record { stream_id = 0; seq = 0; host = "h"; url = none; header = [] }, refusal n);
  convert_response = λ n. (record { stream_id = 0; seq = 0; header = [] }, refusal n);
}

abbrev entry : ℕ → ℕ → CustomHarEntry ℕ ℕ ℕ
entry rq rs = record {
  started_date_time = 1000;
  request = some rq;
  response = some rs;
  timings = some (record {
    blocked = none;
    dns = some 1;
    connect = some 2;
    ssl = none;
    send = some 3;
    wait = some 25;
    receive = some 4;
  });
}

abbrev entries : List (CustomHarEntry ℕ ℕ ℕ)
entries = entry 1 2 ∷ entry 3 100 ∷ entry 200 300 ∷ []

parse_from_har-all_example :
    let (s, errs, n) = parse_from_har recorder counted_errors whole numbers [] 5 entries in
    (s ≡ process_all recorder [] (traffic_of whole numbers 5 0 entries)) × (errs ≡ 3) × (n ≡ 1)
parse_from_har-all_example = parse_from_har-all recorder counted_errors whole numbers [] 5 entries

abbrev back_end : Collector (BackendCollector Messages)
back_end = record { process = λ c t. (process library c t, none); close = λ c. (c, none) }

abbrev start : BackendCollector Messages
start = record {
  learn_session_id = 7;
  pair_cache = [];
  added = [];
  skipped = [];
  flush_done = false;
  batch_closed = false;
  plugins = [];
}

process_har_entry-latency_example :
    let w =
      exchange library
        (request_of whole numbers (entry 1 2) 5 6 1)
        (half 12 6)
        (response_of whole numbers (entry 1 2) 5 6 2)
        (half 13 6)
        true in
    (process_har_entry back_end counted_errors whole numbers start 0 5 6 (entry 1 2)
      ≡ (queue_upload library start w, 0, true))
    × (w.witness ≡ (12 ∷ 13 ∷ [], pos 25000))
unfolding microseconds get har_traffic
process_har_entry-latency_example =
    process_har_entry-latency library back_end counted_errors whole numbers (λ _ _. refl)
      (entry 1 2) 5 6 1 2 start 0 (half 12 6) (half 13 6) (ground arith) refl refl refl refl refl
      refl refl refl
