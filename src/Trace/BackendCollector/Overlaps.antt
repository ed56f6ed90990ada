-- ===== src/Trace/BackendCollector/Overlaps.antt =====
-- Calls of trace/backend_collector.go between the steps of a flush.
use observability_cli.Prelude.{
  ◌+◌, ◌≡◌, refl, none, some, List, [], ◌∷◌, nat_eq, length, sum_by, get, put, delete, arith,
}
use observability_cli.Trace.BackendCollector.{
  new_backend_collector, uint16, is_request, record_timestamp, new_entry, flip_endpoints,
  microseconds, write_latency, compute_processing_latency, complete_pair, transform_all, add_report,
  queue_upload, process_partial, process_http, process,
}
use observability_cli.Trace.BackendCollector.Queue.{
  processes, handle, of_added, of_skipped, of_entry,
}
use observability_cli.Trace.BackendCollector.Interleaving.{
  Shared, Move, does, loads, queues, deletes, move, run_moves, load_entry, queue_loaded,
  delete_queued, Undisturbed,
}
use observability_cli.Trace.BackendCollector.Interleaved.{start, in_both, run_moves-conserved}
use observability_cli.Trace.BackendCollector.Examples.{
  Messages, library, nine, sent, answered, count-IsAdditive,
}

-- A half of another key comes while the entry of key 3 is flushed.
abbrev moves : List Move
moves =
    does (processes (sent 3 40000))
    ∷ loads 3
    ∷ queues 50000
    ∷ does (processes (answered 4 60000))
    ∷ deletes
    ∷ []

abbrev flushed : Shared Messages
flushed = elim (run_moves library (start 7 (nine ∷ [])) moves) [ none ↦ start 7 [] | some s ↦ s ]

runs_flushed : run_moves library (start 7 (nine ∷ [])) moves ≡ some flushed
unfolding new_backend_collector handle run_moves move load_entry queue_loaded delete_queued process
    process_http process_partial new_entry record_timestamp is_request complete_pair
    compute_processing_latency write_latency microseconds flip_endpoints queue_upload transform_all
    add_report get put delete uint16
runs_flushed = refl

moves-Undisturbed : Undisturbed library (start 7 (nine ∷ [])) moves
unfolding new_backend_collector handle run_moves move load_entry queue_loaded delete_queued process
    process_http process_partial new_entry record_timestamp is_request complete_pair
    compute_processing_latency write_latency microseconds flip_endpoints queue_upload transform_all
    add_report get put delete uint16 Undisturbed
moves-Undisturbed = (tt, (tt, (tt, ((λ e. omega (arith, e)), (tt, tt)))))

run_moves-conserved_example :
    of_added (λ (w : Messages). length w.0) flushed.collector.added
      + of_skipped (λ (w : Messages). length w.0) flushed.collector.skipped
      + sum_by (of_entry (λ (w : Messages). length w.0)) flushed.collector.pair_cache
    ≡ 2 + in_both (λ (w : Messages). length w.0) flushed
run_moves-conserved_example =
    run_moves-conserved (λ (w : Messages). length w.0) library 7 (nine ∷ []) moves flushed
      count-IsAdditive moves-Undisturbed runs_flushed

-- A half of the key itself comes: its request is queued twice.
abbrev overlapping : List Move
overlapping =
    does (processes (sent 3 40000))
    ∷ loads 3
    ∷ queues 50000
    ∷ does (processes (answered 3 60000))
    ∷ deletes
    ∷ []

abbrev disturbed : Shared Messages
disturbed = elim (run_moves library (start 7 (nine ∷ [])) overlapping) [
  | none ↦ start 7 []
  | some s ↦ s
]

counted_twice : of_added (λ (w : Messages). length w.0) disturbed.collector.added ≡ 3
unfolding new_backend_collector handle run_moves move load_entry queue_loaded delete_queued process
    process_http process_partial new_entry record_timestamp is_request complete_pair
    compute_processing_latency write_latency microseconds flip_endpoints queue_upload transform_all
    add_report get put delete uint16
counted_twice = refl
