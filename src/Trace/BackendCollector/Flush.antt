-- ===== src/Trace/BackendCollector/Flush.antt =====
-- What flushPairCache of trace/backend_collector.go takes out of the cache.
use observability_cli.Prelude.{
  ℕ, ◌-◌, ◌≡◌, refl, ◌≢◌, ◌∙◌, ap, true, false, ◌&&◌, Option, none, some, List, [], ◌∷◌, nat_eq,
  ltb, nat_beq, nat_beq_iff, arith, Map, IsMap, IsMap-get, Fresh, All, All-both, if◌then◌else◌,
  if_cases, get, delete, get-delete,
}
use observability_cli.Trace.BackendCollector.{
  WitnessLibrary, WitnessWithInfo, BackendCollector, AkitaPlugin, flush_entry, flush_entries,
  flush_pair_cache, periodic_flush, close, pair_cache_expiration, new_backend_collector,
}
use observability_cli.Trace.BackendCollector.Cache.{run-IsCache}
use observability_cli.Trace.BackendCollector.Queue.{
  Event, run, queue_upload-pair_cache, queue_upload-plugins,
}

module _ {W : Type 0} where
  -- What the cache has of a key once what is older than the cutoff is taken out.
  abbrev pub unexpired : ℕ → Option (WitnessWithInfo W) → Option (WitnessWithInfo W)
  unexpired cutoff none = none
  unexpired cutoff (some e) = if ltb e.observation_time cutoff then none else some e

  -- The cache has every one of these entries.
  abbrev pub Has : Map ℕ (WitnessWithInfo W) → Map ℕ (WitnessWithInfo W) → Type 0
  Has m = All (λ kv. get kv.0 m ≡ some kv.1)

  -- What Close may do: panic if it was called before, or leave what is not older than `now`.
  abbrev pub IsClosed : BackendCollector W → ℕ → ℕ → Option (BackendCollector W) → Type 0
  IsClosed c now j none = c.flush_done ≡ true
  IsClosed c now j (some c') =
      (c.flush_done ≡ false) × (get j c'.pair_cache ≡ unexpired now (get j c.pair_cache))

module _ {W : Type 0} (lib : WitnessLibrary W) where
  pub flush_entry-get :
      (c : BackendCollector W) (cutoff k j : ℕ) (e : WitnessWithInfo W)
      → get j (flush_entry lib c cutoff k e).pair_cache
        ≡ (if ltb e.observation_time cutoff && nat_beq k j then none else get j c.pair_cache)
  unfolding flush_entry
  flush_entry-get c cutoff k j e =
      if_cases
        (λ (r : BackendCollector W).
          get j r.pair_cache
          ≡ (if ltb e.observation_time cutoff && nat_beq k j then none else get j c.pair_cache))
        (ltb e.observation_time cutoff)
        (λ old.
          ap (λ m. get j (delete k m)) (queue_upload-pair_cache lib c e)
          ∙ get-delete k j c.pair_cache
          ∙ ground arith)
        (λ young. ground arith)

  pub flush_entry-plugins :
      (c : BackendCollector W) (cutoff k : ℕ) (e : WitnessWithInfo W)
      → (flush_entry lib c cutoff k e).plugins ≡ c.plugins
  unfolding flush_entry
  flush_entry-plugins c cutoff k e =
      if_cases (λ (r : BackendCollector W). r.plugins ≡ c.plugins) (ltb e.observation_time cutoff)
        (λ _. queue_upload-plugins lib c e) (λ _. refl)

  pub flush_entry-Has :
      (c : BackendCollector W) (cutoff k : ℕ) (e : WitnessWithInfo W)
      (rest : Map ℕ (WitnessWithInfo W))
      → Fresh k rest
      → Has c.pair_cache rest
      → Has (flush_entry lib c cutoff k e).pair_cache rest
  flush_entry-Has c cutoff k e rest =
      All-both (λ kv. kv.0 ≢ k) (λ kv. get kv.0 c.pair_cache ≡ some kv.1)
        (λ kv. get kv.0 (flush_entry lib c cutoff k e).pair_cache ≡ some kv.1)
        (λ kv f q. ground (arith, flush_entry-get c cutoff k kv.0 e)) rest

  flush_entries-get :
      (cutoff j : ℕ) (rest : Map ℕ (WitnessWithInfo W)) (c : BackendCollector W)
      → IsMap rest
      → Has c.pair_cache rest
      → get j (flush_entries lib c cutoff rest).pair_cache ≡ elim (get j rest) [
        | none ↦ get j c.pair_cache
        | some e ↦ unexpired cutoff (get j c.pair_cache)
      ]
  unfolding flush_entries get
  flush_entries-get cutoff j [] c m h = refl
  flush_entries-get cutoff j ((k, e) ∷ rest) c (f, m) (q, h) =
      let c' = flush_entry lib c cutoff k e in
      ground (
        arith,
        nat_beq_iff k j,
        flush_entry-get c cutoff k j e,
        flush_entries-get cutoff j rest c' m (flush_entry-Has c cutoff k e rest f h),
      )

  -- A flush takes out of the cache exactly the entries that are older than the cutoff.
  pub flush_pair_cache-get :
      (c : BackendCollector W) (cutoff j : ℕ)
      → IsMap c.pair_cache
      → get j (flush_pair_cache lib c cutoff).pair_cache ≡ unexpired cutoff (get j c.pair_cache)
  unfolding flush_pair_cache
  flush_pair_cache-get c cutoff j m =
      ground (arith, flush_entries-get cutoff j c.pair_cache c m (IsMap-get c.pair_cache m))

  -- After any events that do not panic, a tick of the periodic flush leaves of each key the entry
  -- that is at most a minute old, if Close was not called, and changes nothing otherwise; and Close
  -- succeeds exactly the first time, and leaves no entry that is older than the time of the call.
  pub run-flushed :
      (lrn : ℕ) (plugins : List (AkitaPlugin W)) (es : List Event) (c : BackendCollector W)
      → run lib (new_backend_collector lrn plugins) es ≡ some c
      → (now j : ℕ)
      → (get j (periodic_flush lib c now).pair_cache ≡ (
          if c.flush_done
          then get j c.pair_cache
          else unexpired (now - pair_cache_expiration) (get j c.pair_cache)))
        × IsClosed c now j (close lib c now)
  unfolding periodic_flush close
  run-flushed lrn plugins es c reached now j =
      let m : IsMap c.pair_cache = (run-IsCache lib lrn plugins es c reached).0 in
      (
        if_cases
            (λ (r : BackendCollector W). get j r.pair_cache ≡ (
              if c.flush_done
              then get j c.pair_cache
              else unexpired (now - pair_cache_expiration) (get j c.pair_cache)))
            c.flush_done (λ closed. ground arith)
            (λ running. flush_pair_cache-get c (now - pair_cache_expiration) j m ∙ ground arith),
        if_cases (IsClosed c now j) c.flush_done (λ closed. closed)
            (λ running. (running, flush_pair_cache-get (record c { flush_done = true }) now j m)),
      )
