-- ===== src/Trace/BackendCollector/Conservation.antt =====
-- Where the requests and responses that trace/backend_collector.go parses end up.
use mathlib.Core.Path.{subst}
use observability_cli.Prelude.{
  ℕ, ◌+◌, ◌≡◌, refl, sym, ap, ◌∙◌, Bool, true, false, ◌||◌, nat_beq, Option, none, some, List, [],
  ◌∷◌, nat_eq, ltb, arith, Map, IsMap, IsMap-get, if_cases, option_cases, get, delete, sum_by,
  sum_by-put, sum_by-delete,
}
use observability_cli.Prelude.Int.{sub_ℕ}
use observability_cli.Net.{Traffic}
use observability_cli.Trace.BackendCollector.{
  PartialWitness, WitnessLibrary, AkitaPlugin, WitnessWithInfo, BackendCollector, is_request,
  record_timestamp, new_entry, flip_endpoints, write_latency, microseconds,
  compute_processing_latency, complete_pair, process_tcp_connection, process_tls_handshake,
  add_report, process_partial, process_http, process, flush_entry, flush_entries, flush_pair_cache,
  periodic_flush, close, switch_learn_session,
}
use observability_cli.Trace.BackendCollector.Queue.{
  Event, processes, ticks, switches, closes, handle, half_of, of_collector, of_entry, IsAdditive,
  queue_upload-of_collector, queue_upload-pair_cache, queue_upload-plugins,
}
use observability_cli.Trace.BackendCollector.Cache.{IsCache, flush_entry-Keeps}
use observability_cli.Trace.BackendCollector.Flush.{Has, flush_entry-Has, flush_entry-plugins}

module _ {W : Type 0} (μ : W → ℕ) (lib : WitnessLibrary W) where
  write_latency-additive :
      (plugins : List (AkitaPlugin W)) (w : W) (m n : ℕ)
      → IsAdditive μ lib plugins
      → μ (write_latency lib w m n) ≡ μ w
  unfolding write_latency
  write_latency-additive plugins w m n h =
      if_cases (λ v. μ v ≡ μ w) (nat_beq m 0 || nat_beq n 0) (λ _. refl)
        λ _. h.timing w (microseconds (sub_ℕ n m))

  compute_processing_latency-additive :
      (plugins : List (AkitaPlugin W)) (w : WitnessWithInfo W) (request : Bool) (t : Traffic)
      → IsAdditive μ lib plugins
      → μ (compute_processing_latency lib w request t).witness ≡ μ w.witness
  unfolding compute_processing_latency
  compute_processing_latency-additive plugins w true t h =
      write_latency-additive plugins w.witness t.final_packet_time w.response_start h
  compute_processing_latency-additive plugins w false t h =
      write_latency-additive plugins w.witness w.request_end t.observation_time h

  complete_pair-additive :
      (plugins : List (AkitaPlugin W)) (pair : WitnessWithInfo W) (p : PartialWitness W)
      (t : Traffic)
      → IsAdditive μ lib plugins
      → μ (complete_pair lib pair p t).witness ≡ μ pair.witness + μ p.witness
  unfolding complete_pair flip_endpoints
  complete_pair-additive plugins pair p t h =
      let merged : WitnessWithInfo W = record pair {
        witness = lib.merge_witness pair.witness p.witness;
      } in
      let timed = compute_processing_latency-additive plugins merged (is_request t.content) t h in
      if_cases (λ (r : WitnessWithInfo W). μ r.witness ≡ μ pair.witness + μ p.witness)
        (is_request t.content) (λ _. timed ∙ h.merging pair.witness p.witness)
        (λ _. timed ∙ h.merging pair.witness p.witness)

  new_entry-additive :
      (p : PartialWitness W) (t : Traffic) → μ (new_entry p t).witness ≡ μ p.witness
  unfolding new_entry record_timestamp
  new_entry-additive p t = ground arith

  abbrev pub of_half : Option (PartialWitness W) → ℕ
  of_half none = 0
  of_half (some p) = μ p.witness

  process_partial-additive :
      (c : BackendCollector W) (p : PartialWitness W) (t : Traffic)
      → IsMap c.pair_cache
      → IsAdditive μ lib c.plugins
      → of_collector μ (process_partial lib c p t) ≡ of_collector μ c + μ p.witness
  unfolding process_partial
  process_partial-additive c p t m h =
      let k = p.pair_key in
      option_cases (λ (r : BackendCollector W). of_collector μ r ≡ of_collector μ c + μ p.witness)
        (get k c.pair_cache)
        (λ q.
          omega (
            arith,
            sum_by-put (of_entry μ) k (new_entry p t) c.pair_cache q,
            new_entry-additive p t,
          ))
        λ pair q.
          let taken : BackendCollector W = record c { pair_cache = delete k c.pair_cache } in
          queue_upload-of_collector μ lib taken (complete_pair lib pair p t) h
          ∙ omega (
            arith,
            complete_pair-additive c.plugins pair p t h,
            sum_by-delete (of_entry μ) k pair c.pair_cache m q,
          )

  process_http-additive :
      (c : BackendCollector W) (t : Traffic)
      → IsMap c.pair_cache
      → IsAdditive μ lib c.plugins
      → of_collector μ (process_http lib c t)
        ≡ of_collector μ c + of_half (lib.parse_http t.content)
  unfolding process_http
  process_http-additive c t m h = go (lib.parse_http t.content)
    where
      go :
          (o : Option (PartialWitness W))
          → of_collector μ (elim o [ none ↦ c | some p ↦ process_partial lib c p t ])
            ≡ of_collector μ c + of_half o
      go none = omega arith
      go (some p) = process_partial-additive c p t m h

  process-additive :
      (c : BackendCollector W) (t : Traffic)
      → IsMap c.pair_cache
      → IsAdditive μ lib c.plugins
      → of_collector μ (process lib c t) ≡ of_collector μ c + of_half (half_of lib t)
  unfolding process process_tcp_connection process_tls_handshake add_report
  process-additive c t m h = ground (arith, process_http-additive c t m h)

  -- What a flush takes out of the cache is uploaded or skipped.
  flush_entry-additive :
      (c : BackendCollector W) (cutoff k : ℕ) (e : WitnessWithInfo W)
      → IsMap c.pair_cache
      → get k c.pair_cache ≡ some e
      → IsAdditive μ lib c.plugins
      → of_collector μ (flush_entry lib c cutoff k e) ≡ of_collector μ c
  unfolding flush_entry
  flush_entry-additive c cutoff k e m q h =
      if_cases (λ (r : BackendCollector W). of_collector μ r ≡ of_collector μ c)
        (ltb e.observation_time cutoff)
        (λ _. omega (
          arith,
          queue_upload-of_collector μ lib c e h,
          ap (sum_by (of_entry μ)) (queue_upload-pair_cache lib c e),
          ap (λ n. sum_by (of_entry μ) (delete k n)) (queue_upload-pair_cache lib c e),
          sum_by-delete (of_entry μ) k e c.pair_cache m q,
        ))
        (λ _. refl)

  flush_entries-additive :
      (cutoff : ℕ) (rest : Map ℕ (WitnessWithInfo W)) (c : BackendCollector W)
      → IsCache c.pair_cache
      → IsMap rest
      → Has c.pair_cache rest
      → IsAdditive μ lib c.plugins
      → (of_collector μ (flush_entries lib c cutoff rest) ≡ of_collector μ c)
        × ((flush_entries lib c cutoff rest).plugins ≡ c.plugins)
  unfolding flush_entries
  flush_entries-additive cutoff [] c m r q h = (refl, refl)
  flush_entries-additive cutoff ((k, e) ∷ rest) c m (f, r) (q, qs) h =
      let c' = flush_entry lib c cutoff k e in
      let same = flush_entry-plugins lib c cutoff k e in
      let (kept, still) =
        flush_entries-additive cutoff rest c' (flush_entry-Keeps lib c cutoff k e m) r
          (flush_entry-Has lib c cutoff k e rest f qs) (subst (IsAdditive μ lib) (sym same) h) in
      (kept ∙ flush_entry-additive c cutoff k e m.0 q h, still ∙ same)

  flush_pair_cache-additive :
      (c : BackendCollector W) (cutoff : ℕ)
      → IsCache c.pair_cache
      → IsAdditive μ lib c.plugins
      → (of_collector μ (flush_pair_cache lib c cutoff) ≡ of_collector μ c)
        × ((flush_pair_cache lib c cutoff).plugins ≡ c.plugins)
  unfolding flush_pair_cache
  flush_pair_cache-additive c cutoff m =
      flush_entries-additive cutoff c.pair_cache c m m.0 (IsMap-get c.pair_cache m.0)

  process_partial-plugins :
      (c : BackendCollector W) (p : PartialWitness W) (t : Traffic)
      → (process_partial lib c p t).plugins ≡ c.plugins
  unfolding process_partial
  process_partial-plugins c p t =
      option_cases (λ (r : BackendCollector W). r.plugins ≡ c.plugins) (get p.pair_key c.pair_cache)
        (λ _. refl)
        λ pair _.
          queue_upload-plugins lib (record c { pair_cache = delete p.pair_key c.pair_cache })
            (complete_pair lib pair p t)

  process_http-plugins :
      (c : BackendCollector W) (t : Traffic) → (process_http lib c t).plugins ≡ c.plugins
  unfolding process_http
  process_http-plugins c t =
      option_cases (λ (r : BackendCollector W). r.plugins ≡ c.plugins) (lib.parse_http t.content)
        (λ _. refl) λ p _. process_partial-plugins c p t

  process-plugins : (c : BackendCollector W) (t : Traffic) → (process lib c t).plugins ≡ c.plugins
  unfolding process process_tcp_connection process_tls_handshake add_report
  process-plugins c t = ground (arith, process_http-plugins c t)

  -- What the events add.
  abbrev pub of_event : Event → ℕ
  of_event (processes t) = of_half (half_of lib t)
  of_event _ = 0

  abbrev pub Grows : BackendCollector W → ℕ → BackendCollector W → Type 0
  Grows c n c' = (of_collector μ c' ≡ of_collector μ c + n) × (c'.plugins ≡ c.plugins)

  abbrev pub GrowsIf : BackendCollector W → ℕ → Option (BackendCollector W) → Type 0
  GrowsIf c n none = Unit
  GrowsIf c n (some c') = Grows c n c'

  flushed :
      (c : BackendCollector W) (cutoff : ℕ)
      → IsCache c.pair_cache
      → IsAdditive μ lib c.plugins
      → Grows c 0 (flush_pair_cache lib c cutoff)
  flushed c cutoff m h =
      let (kept, same) = flush_pair_cache-additive c cutoff m h in (omega (arith, kept), same)

  pub handle-additive :
      (c : BackendCollector W) (e : Event)
      → IsCache c.pair_cache
      → IsAdditive μ lib c.plugins
      → GrowsIf c (of_event e) (handle lib c e)
  unfolding handle periodic_flush close switch_learn_session
  handle-additive c (processes t) m h = (process-additive c t m.0 h, process-plugins c t)
  handle-additive c (ticks now) m h =
      if_cases (Grows c 0) c.flush_done (λ _. (omega arith, refl)) λ _. flushed c _ m h
  handle-additive c (switches s) m h = (omega arith, refl)
  handle-additive c (closes now) m h =
      if_cases (GrowsIf c 0) c.flush_done (λ _. tt)
        λ _. flushed (record c { flush_done = true }) now m h
