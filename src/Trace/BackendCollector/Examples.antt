-- ===== src/Trace/BackendCollector/Examples.antt =====
-- The collector of trace/backend_collector.go with witnesses that are lists of the messages in them.
use observability_cli.Prelude.{
  ℕ, Bool, ◌+◌, ◌*◌, ◌≡◌, refl, true, false, Option, none, some, List, [], ◌∷◌, ◌++◌, nat_eq,
  nat_beq, length, length-append, if◌then◌else◌, get, put, delete,
}
use observability_cli.Prelude.Int.{ℤ, pos}
use observability_cli.Net.{
  Traffic, Content, HttpRequest, HttpResponse, http_request, http_response, Error,
}
use observability_cli.Trace.BackendCollector.{
  PartialWitness, WitnessLibrary, AkitaPlugin, BackendCollector, new_backend_collector, uint16,
  is_request, record_timestamp, new_entry, flip_endpoints, microseconds, write_latency,
  compute_processing_latency, complete_pair, transform_all, add_report, queue_upload,
  process_partial, process_http, process, flush_entry, flush_entries, flush_pair_cache,
  periodic_flush, close, switch_learn_session,
}
use observability_cli.Trace.BackendCollector.Queue.{
  Event, processes, ticks, switches, handle, run, IsAdditive,
}
use observability_cli.Trace.BackendCollector.Flush.{IsClosed, run-flushed}
use observability_cli.Trace.BackendCollector.Pairing.{exchange, process-exchange}

-- The messages of a witness, and its latency.
abbrev pub Messages : Type 0
Messages = List ℕ × ℤ

abbrev pub half : ℕ → ℕ → PartialWitness Messages
half message key = record { witness = (message ∷ [], pos 0); pair_key = key }

abbrev parse : Content → Option (PartialWitness Messages)
parse (http_request r) = some (half (2 * r.seq) r.seq)
parse (http_response r) = some (half (2 * r.seq + 1) r.seq)
parse _ = none

abbrev pub library : WitnessLibrary Messages
library = record {
  parse_http = parse;
  merge_witness = λ a b. (a.0 ++ b.0, a.1);
  set_processing_latency = λ a us. (a.0, us);
  obfuscate = λ a. a;
}

-- A plugin that refuses the exchange 9.
abbrev is_nine : List ℕ → Bool
is_nine [] = false
is_nine (m ∷ _) = nat_beq m 18

abbrev refuses_nine : Messages → Messages × Error
refuses_nine w = (w, if is_nine w.0 then some "nine" else none)

abbrev pub nine : AkitaPlugin Messages
nine = record { name = "nine"; transform = refuses_nine }

abbrev request : ℕ → HttpRequest
request n = record { stream_id = 1; seq = n; host = "h"; url = none; header = [] }

abbrev response : ℕ → HttpResponse
response n = record { stream_id = 1; seq = n; header = [] }

-- The client is 1, port 70000 stands for 4464.
abbrev pub sent : ℕ → ℕ → Traffic
sent n at = record {
  src_ip = 1;
  src_port = 70000;
  dst_ip = 2;
  dst_port = 80;
  interface = "eth0";
  content = http_request (request n);
  observation_time = at;
  final_packet_time = at + 5000;
}

abbrev pub answered : ℕ → ℕ → Traffic
answered n at = record {
  src_ip = 2;
  src_port = 80;
  dst_ip = 1;
  dst_port = 70000;
  interface = "eth0";
  content = http_response (response n);
  observation_time = at;
  final_packet_time = at + 5000;
}

abbrev pub minute : ℕ
minute = 60000000000

-- An exchange in each order, one that the plugin refuses, one half too old, one half too young.
abbrev events : List Event
events =
    processes (sent 1 10000)
    ∷ processes (answered 1 25000)
    ∷ processes (answered 2 9000)
    ∷ switches 8
    ∷ processes (sent 2 1000)
    ∷ processes (sent 9 1)
    ∷ processes (answered 9 30000)
    ∷ processes (sent 3 40000)
    ∷ processes (answered 4 (minute + 50000))
    ∷ ticks (minute + 40001)
    ∷ []

pub count-IsAdditive : IsAdditive (λ (w : Messages). length w.0) library (nine ∷ [])
count-IsAdditive = record {
  merging = λ a b. length-append a.0 b.0;
  timing = λ _ _. refl;
  obfuscating = λ _. refl;
  transforming = (λ _. refl, tt);
}

abbrev ended : BackendCollector Messages
ended = elim (run library (new_backend_collector 7 (nine ∷ [])) events) [
  | none ↦ new_backend_collector 7 []
  | some c ↦ c
]

run-ended : run library (new_backend_collector 7 (nine ∷ [])) events ≡ some ended
unfolding new_backend_collector handle run process process_http process_partial new_entry
    record_timestamp is_request complete_pair compute_processing_latency write_latency microseconds
    flip_endpoints queue_upload transform_all add_report flush_entry flush_entries flush_pair_cache
    periodic_flush switch_learn_session close get put delete uint16
run-ended = refl

run-flushed_example :
    (get 4 (periodic_flush library ended (2 * minute + 50001)).pair_cache ≡ none)
    × IsClosed ended (2 * minute + 50001) 4 (close library ended (2 * minute + 50001))
unfolding new_backend_collector handle run process process_http process_partial new_entry
    record_timestamp is_request complete_pair compute_processing_latency write_latency microseconds
    flip_endpoints queue_upload transform_all add_report flush_entry flush_entries flush_pair_cache
    periodic_flush switch_learn_session close get put delete uint16
run-flushed_example =
    run-flushed library 7 (nine ∷ []) events ended run-ended (2 * minute + 50001) 4

process-exchange_example :
    (process library
        (process library (new_backend_collector 7 []) (sent 1 10000))
        (answered 1 25000)
      ≡ queue_upload library
          (new_backend_collector 7 [])
          (exchange library (sent 1 10000) (half 2 1) (answered 1 25000) (half 3 1) true))
    × (process library
          (process library (new_backend_collector 7 []) (answered 1 25000))
          (sent 1 10000)
        ≡ queue_upload library
            (new_backend_collector 7 [])
            (exchange library (sent 1 10000) (half 2 1) (answered 1 25000) (half 3 1) false))
unfolding new_backend_collector get
process-exchange_example =
    process-exchange library (sent 1 10000) (answered 1 25000) (request 1) (response 1) (half 2 1)
      (half 3 1) refl refl (new_backend_collector 7 []) refl refl refl (refl, refl, refl, refl) refl
