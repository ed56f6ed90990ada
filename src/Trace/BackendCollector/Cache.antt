-- ===== src/Trace/BackendCollector/Cache.antt =====
-- The cache of trace/backend_collector.go, after any events.
use mathlib.Core.Path.{subst}
use observability_cli.Prelude.{
  ℕ, ◌^◌, ◌<◌, ◌≡◌, sym, Option, none, some, List, [], ◌∷◌, nat_eq, ltb, arith, Map, IsMap, All,
  All-put, All-delete, put-IsMap, delete-IsMap, if_cases, option_cases, get, delete,
}
use observability_cli.Net.{Traffic}
use observability_cli.Trace.BackendCollector.{
  PartialWitness, WitnessLibrary, AkitaPlugin, WitnessWithInfo, BackendCollector, complete_pair,
  new_entry, uint16, record_timestamp, process_tcp_connection, process_tls_handshake, add_report,
  queue_upload, process_partial, process_http, process, flush_entry, flush_entries,
  flush_pair_cache, periodic_flush, close, switch_learn_session, new_backend_collector,
}
use observability_cli.Trace.BackendCollector.Queue.{
  Event, processes, ticks, switches, closes, handle, run, queue_upload-pair_cache,
}

module _ {W : Type 0} where
  -- An entry stands under its own id, and its ports fit sixteen bits.
  abbrev pub IsEntry : ℕ × WitnessWithInfo W → Type 0
  IsEntry (k, w) = (w.id ≡ k) × (w.src_port < 2 ^ 16) × (w.dst_port < 2 ^ 16)

  abbrev pub IsCache : Map ℕ (WitnessWithInfo W) → Type 0
  IsCache m = IsMap m × All IsEntry m

  new_entry-IsEntry : (p : PartialWitness W) (t : Traffic) → IsEntry (p.pair_key, new_entry p t)
  unfolding new_entry uint16 record_timestamp
  new_entry-IsEntry p t = ground arith

  pub delete-IsCache : (k : ℕ) (m : Map ℕ (WitnessWithInfo W)) → IsCache m → IsCache (delete k m)
  delete-IsCache k m (h, es) = (delete-IsMap k m h, All-delete IsEntry k m es)

module _ {W : Type 0} (lib : WitnessLibrary W) where
  abbrev Keeps : BackendCollector W → Type 0
  Keeps c = IsCache c.pair_cache

  pub queue_upload-Keeps :
      (c : BackendCollector W) (w : WitnessWithInfo W) → Keeps c → Keeps (queue_upload lib c w)
  queue_upload-Keeps c w = subst IsCache (sym (queue_upload-pair_cache lib c w))

  process_partial-Keeps :
      (c : BackendCollector W) (p : PartialWitness W) (t : Traffic)
      → Keeps c
      → Keeps (process_partial lib c p t)
  unfolding process_partial
  process_partial-Keeps c p t h =
      option_cases Keeps (get p.pair_key c.pair_cache)
        (λ _. (
          put-IsMap p.pair_key (new_entry p t) c.pair_cache h.0,
          All-put IsEntry p.pair_key (new_entry p t) c.pair_cache (new_entry-IsEntry p t) h.1,
        ))
        λ pair _.
          queue_upload-Keeps (record c { pair_cache = delete p.pair_key c.pair_cache })
            (complete_pair lib pair p t) (delete-IsCache p.pair_key c.pair_cache h)

  process_http-Keeps :
      (c : BackendCollector W) (t : Traffic) → Keeps c → Keeps (process_http lib c t)
  unfolding process_http
  process_http-Keeps c t h =
      option_cases Keeps (lib.parse_http t.content) (λ _. h) λ p _. process_partial-Keeps c p t h

  process-Keeps : (c : BackendCollector W) (t : Traffic) → Keeps c → Keeps (process lib c t)
  unfolding process process_tcp_connection process_tls_handshake add_report
  process-Keeps c t h = ground (arith, process_http-Keeps c t h)

  pub flush_entry-Keeps :
      (c : BackendCollector W) (cutoff k : ℕ) (e : WitnessWithInfo W)
      → Keeps c
      → Keeps (flush_entry lib c cutoff k e)
  unfolding flush_entry
  flush_entry-Keeps c cutoff k e h =
      if_cases Keeps (ltb e.observation_time cutoff)
        (λ _. delete-IsCache k (queue_upload lib c e).pair_cache (queue_upload-Keeps c e h))
        (λ _. h)

  flush_entries-Keeps :
      (c : BackendCollector W) (cutoff : ℕ) (rest : Map ℕ (WitnessWithInfo W))
      → Keeps c
      → Keeps (flush_entries lib c cutoff rest)
  unfolding flush_entries
  flush_entries-Keeps c cutoff [] h = h
  flush_entries-Keeps c cutoff ((k, e) ∷ rest) h =
      flush_entries-Keeps (flush_entry lib c cutoff k e) cutoff rest
        (flush_entry-Keeps c cutoff k e h)

  pub flush_pair_cache-Keeps :
      (c : BackendCollector W) (cutoff : ℕ) → Keeps c → Keeps (flush_pair_cache lib c cutoff)
  unfolding flush_pair_cache
  flush_pair_cache-Keeps c cutoff = flush_entries-Keeps c cutoff c.pair_cache

  -- After an event that does not panic.
  abbrev pub KeepsIf : Option (BackendCollector W) → Type 0
  KeepsIf o = elim o [ none ↦ Unit | some c ↦ Keeps c ]

  pub handle-Keeps : (c : BackendCollector W) (e : Event) → Keeps c → KeepsIf (handle lib c e)
  unfolding handle periodic_flush close switch_learn_session
  handle-Keeps c (processes t) h = process-Keeps c t h
  handle-Keeps c (ticks now) h =
      if_cases Keeps c.flush_done (λ _. h) (λ _. flush_pair_cache-Keeps c _ h)
  handle-Keeps c (switches s) h = h
  handle-Keeps c (closes now) h =
      if_cases KeepsIf c.flush_done (λ _. tt) (λ _. flush_pair_cache-Keeps _ now h)

  run-Keeps : (c : BackendCollector W) (es : List Event) → Keeps c → KeepsIf (run lib c es)
  unfolding run
  run-Keeps c [] h = h
  run-Keeps c (e ∷ es) h =
      option_cases KeepsIf (handle lib c e) (λ _. tt)
        λ c' q. run-Keeps c' es (subst KeepsIf q (handle-Keeps c e h))

  -- After any events that do not panic, no key stands twice in the cache, every entry stands under
  -- its own id, and its ports fit sixteen bits.
  pub run-IsCache :
      (lrn : ℕ) (plugins : List (AkitaPlugin W)) (es : List Event) (c : BackendCollector W)
      → run lib (new_backend_collector lrn plugins) es ≡ some c
      → IsCache c.pair_cache
  unfolding new_backend_collector
  run-IsCache lrn plugins es c e =
      subst KeepsIf e (run-Keeps (new_backend_collector lrn plugins) es (tt, tt))
