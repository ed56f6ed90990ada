-- ===== src/Trace/BackendCollector/Sparing.antt =====
-- What a call of trace/backend_collector.go leaves of the keys that it is not about.
use observability_cli.Prelude.{
  ℕ, ◌≡◌, ◌≢◌, refl, sym, ap, ◌∙◌, Option, none, some, nat_eq, arith, option_cases, get, delete,
  get-put, get-delete,
}
use observability_cli.Net.{Traffic}
use observability_cli.Trace.BackendCollector.{
  PartialWitness, WitnessLibrary, BackendCollector, new_entry, complete_pair, process_partial,
  process_http, process, process_tcp_connection, process_tls_handshake, add_report,
  switch_learn_session,
}
use observability_cli.Trace.BackendCollector.Queue.{
  Event, processes, ticks, switches, closes, handle, half_of, queue_upload-pair_cache,
}
use observability_cli.Trace.BackendCollector.Interleaving.{IsOther, Spares}

module _ {W : Type 0} (lib : WitnessLibrary W) (k : ℕ) where
  process_partial-spares :
      (c : BackendCollector W) (p : PartialWitness W) (t : Traffic)
      → k ≢ p.pair_key
      → get k (process_partial lib c p t).pair_cache ≡ get k c.pair_cache
  unfolding process_partial
  process_partial-spares c p t other =
      let j = p.pair_key in
      option_cases (λ (r : BackendCollector W). get k r.pair_cache ≡ get k c.pair_cache)
        (get j c.pair_cache)
        (λ _. ground (arith, get-put j k (new_entry p t) c.pair_cache, nat_eq.beq_iff j k))
        λ pair _.
          ap (get k) (
            queue_upload-pair_cache lib (record c { pair_cache = delete j c.pair_cache })
              (complete_pair lib pair p t))
          ∙ ground (arith, get-delete j k c.pair_cache, nat_eq.beq_iff j k)

  process_http-spares :
      (c : BackendCollector W) (t : Traffic)
      → IsOther lib k (lib.parse_http t.content)
      → get k (process_http lib c t).pair_cache ≡ get k c.pair_cache
  unfolding process_http
  process_http-spares c t = go (lib.parse_http t.content)
    where
      go :
          (o : Option (PartialWitness W))
          → IsOther lib k o
          → get k
              (elim o as (λ _. BackendCollector W) [
                | none ↦ c
                | some p ↦ process_partial lib c p t
              ]).pair_cache
            ≡ get k c.pair_cache
      go none h = refl
      go (some p) h = process_partial-spares c p t h

  process-spares :
      (c : BackendCollector W) (t : Traffic)
      → IsOther lib k (half_of lib t)
      → get k (process lib c t).pair_cache ≡ get k c.pair_cache
  unfolding process process_tcp_connection process_tls_handshake add_report
  process-spares c t h = ground (arith, h, process_http-spares c t)

module _ {W : Type 0} (lib : WitnessLibrary W) where
  pub spared :
      (k : ℕ) (c c' : BackendCollector W) (event : Event)
      → Spares lib k event
      → handle lib c event ≡ some c'
      → get k c'.pair_cache ≡ get k c.pair_cache
  unfolding handle switch_learn_session
  spared k c c' (processes t) h q =
      let e : process lib c t ≡ c' = cc in
      ap (λ (d : BackendCollector W). get k d.pair_cache) (sym e) ∙ process-spares lib k c t h
  spared k c c' (ticks now) h q = absurd h
  spared k c c' (switches session) h q =
      let e : switch_learn_session c session ≡ c' = cc in
      ap (λ (d : BackendCollector W). get k d.pair_cache) (sym e)
  spared k c c' (closes now) h q = absurd h
