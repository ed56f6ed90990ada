-- ===== src/Trace/BackendCollector/Interleaved.antt =====
-- What trace/backend_collector.go counts while its flush runs between the calls of Process.
use mathlib.Core.Path.{subst}
use observability_cli.Prelude.{
  ℕ, ◌+◌, ◌≡◌, refl, sym, ap, ◌∙◌, Option, none, some, List, [], ◌∷◌, nat_eq, ltb, arith, if_cases,
  option_cases, get, sum_by, sum_by-delete,
}
use observability_cli.Trace.BackendCollector.{
  WitnessLibrary, AkitaPlugin, WitnessWithInfo, BackendCollector, new_backend_collector,
}
use observability_cli.Trace.BackendCollector.Queue.{
  Event, handle, of_collector, of_entry, of_added, of_skipped, IsAdditive,
  queue_upload-of_collector, queue_upload-pair_cache, queue_upload-plugins,
}
use observability_cli.Trace.BackendCollector.Cache.{
  IsCache, KeepsIf, handle-Keeps, delete-IsCache, queue_upload-Keeps,
}
use observability_cli.Trace.BackendCollector.Conservation.{
  of_event, Grows, GrowsIf, handle-additive,
}
use observability_cli.Trace.BackendCollector.Sparing.{spared}
use observability_cli.Trace.BackendCollector.Interleaving.{
  Hand, idle, loaded, queued, Shared, Move, does, loads, queues, deletes, queue_loaded,
  delete_queued, load_entry, move, run_moves, Fits, Undisturbed,
}

module _ {W : Type 0} (μ : W → ℕ) (lib : WitnessLibrary W) where
  abbrev of_move : Move → ℕ
  of_move (does event) = of_event μ lib event
  of_move _ = 0

  -- What the halves that are parsed have.
  abbrev pub of_moves : List Move → ℕ
  of_moves [] = 0
  of_moves (m ∷ ms) = of_move m + of_moves ms

module _ {W : Type 0} (μ : W → ℕ) (lib : WitnessLibrary W) (plugins : List (AkitaPlugin W)) where
  -- With an entry loaded, it is in the cache; with an entry queued, it is in the cache too, and
  -- counts twice.
  abbrev Counts : Hand W → BackendCollector W → ℕ → Type 0
  Counts idle c n = of_collector μ c ≡ n
  Counts (loaded k e) c n = (of_collector μ c ≡ n) × (get k c.pair_cache ≡ some e)
  Counts (queued k) c n =
      (e : WitnessWithInfo W) × (of_collector μ c ≡ n + μ e.witness) × (get k c.pair_cache ≡ some e)

  record Conserved (s : Shared W) (n : ℕ) : Type 0 where
    cache : IsCache s.collector.pair_cache
    same : s.collector.plugins ≡ plugins
    counts : Counts s.hand s.collector n

  abbrev ConservedIf : Option (Shared W) → ℕ → Type 0
  ConservedIf none n = Unit
  ConservedIf (some s) n = Conserved s n

  does-Counts :
      (hand : Hand W) (c c' : BackendCollector W) (event : Event) (n : ℕ)
      → Fits lib hand (does event)
      → handle lib c event ≡ some c'
      → of_collector μ c' ≡ of_collector μ c + of_event μ lib event
      → Counts hand c n
      → Counts hand c' (n + of_event μ lib event)
  does-Counts idle c c' event n f q grown h = omega (arith, grown, h)
  does-Counts (loaded k e) c c' event n f q grown (h, there) =
      (omega (arith, grown, h), spared lib k c c' event f q ∙ there)
  does-Counts (queued k) c c' event n f q grown (e, h, there) =
      (e, omega (arith, grown, h), spared lib k c c' event f q ∙ there)

  does-Conserved :
      (s : Shared W) (event : Event) (n : ℕ)
      → IsAdditive μ lib plugins
      → Fits lib s.hand (does event)
      → Conserved s n
      → ConservedIf (move lib s (does event)) (n + of_event μ lib event)
  unfolding move
  does-Conserved s event n additive f v =
      option_cases (λ r. ConservedIf r (n + of_event μ lib event)) (handle lib s.collector event)
        (λ _. tt)
        λ c q.
          let (grown, still) : Grows μ lib s.collector (of_event μ lib event) c =
            subst (GrowsIf μ lib s.collector (of_event μ lib event)) q (
              handle-additive μ lib s.collector event v.cache
                (subst (IsAdditive μ lib) (sym v.same) additive)) in
          record {
            cache = subst (KeepsIf lib) q (handle-Keeps lib s.collector event v.cache);
            same = still ∙ v.same;
            counts = does-Counts s.hand s.collector c event n f q grown v.counts;
          }

  load_entry-Conserved :
      (s : Shared W) (k n : ℕ) (hand : Hand W)
      → s.hand ≡ hand
      → Conserved s n
      → Conserved (load_entry lib s k hand) n
  unfolding load_entry
  load_entry-Conserved s k n idle q v =
      option_cases (λ r. Conserved r n) (get k s.collector.pair_cache) (λ _. v)
        λ e there. record {
          cache = v.cache;
          same = v.same;
          counts = (subst (λ h. Counts h s.collector n) q v.counts, there);
        }
  load_entry-Conserved s k n (loaded j e) q v = v
  load_entry-Conserved s k n (queued j) q v = v

  queue_loaded-Conserved :
      (s : Shared W) (cutoff n : ℕ) (hand : Hand W)
      → IsAdditive μ lib plugins
      → s.hand ≡ hand
      → Conserved s n
      → Conserved (queue_loaded lib s cutoff hand) n
  unfolding queue_loaded
  queue_loaded-Conserved s cutoff n idle additive q v = v
  queue_loaded-Conserved s cutoff n (queued k) additive q v = v
  queue_loaded-Conserved s cutoff n (loaded k e) additive q v =
      let (h, there) = subst (λ h. Counts h s.collector n) q v.counts in
      let c = s.collector in
      if_cases (λ r. Conserved r n) (ltb e.observation_time cutoff)
        (λ _. record {
          cache = queue_upload-Keeps lib c e v.cache;
          same = queue_upload-plugins lib c e ∙ v.same;
          counts = (
            e,
            queue_upload-of_collector μ lib c e (subst (IsAdditive μ lib) (sym v.same) additive)
                ∙ ap (λ m. m + μ e.witness) h,
            ap (get k) (queue_upload-pair_cache lib c e) ∙ there,
          );
        })
        (λ _. record { cache = v.cache; same = v.same; counts = h })

  delete_queued-Conserved :
      (s : Shared W) (n : ℕ) (hand : Hand W)
      → s.hand ≡ hand
      → Conserved s n
      → Conserved (delete_queued lib s hand) n
  unfolding delete_queued
  delete_queued-Conserved s n idle q v = v
  delete_queued-Conserved s n (loaded k e) q v = v
  delete_queued-Conserved s n (queued k) q v =
      let (e, h, there) = subst (λ h. Counts h s.collector n) q v.counts in
      record {
        cache = delete-IsCache k s.collector.pair_cache v.cache;
        same = v.same;
        counts =
            omega (arith, h, sum_by-delete (of_entry μ) k e s.collector.pair_cache v.cache.0 there);
      }

  move-Conserved :
      (s : Shared W) (m : Move) (n : ℕ)
      → IsAdditive μ lib plugins
      → Fits lib s.hand m
      → Conserved s n
      → ConservedIf (move lib s m) (n + of_move μ lib m)
  unfolding move
  move-Conserved s (does event) n additive f v = does-Conserved s event n additive f v
  move-Conserved s (loads k) n additive f v =
      subst (Conserved _) (omega arith) (load_entry-Conserved s k n s.hand refl v)
  move-Conserved s (queues cutoff) n additive f v =
      subst (Conserved _) (omega arith) (queue_loaded-Conserved s cutoff n s.hand additive refl v)
  move-Conserved s deletes n additive f v =
      subst (Conserved _) (omega arith) (delete_queued-Conserved s n s.hand refl v)

  run_moves-Conserved :
      (s : Shared W) (ms : List Move) (n : ℕ)
      → IsAdditive μ lib plugins
      → Undisturbed lib s ms
      → Conserved s n
      → ConservedIf (run_moves lib s ms) (n + of_moves μ lib ms)
  unfolding run_moves Undisturbed
  run_moves-Conserved s [] n additive u v = subst (Conserved s) (omega arith) v
  run_moves-Conserved s (m ∷ ms) n additive (f, u) v =
      go (move lib s m) (move-Conserved s m n additive f v) u
        (λ s' u' v'. run_moves-Conserved s' ms (n + of_move μ lib m) additive u' v')
    where
      go :
          (o : Option (Shared W))
          → ConservedIf o (n + of_move μ lib m)
          → (elim o as (λ _. Type 0) [ none ↦ Unit | some s' ↦ Undisturbed lib s' ms ])
          → ((s' : Shared W)
              → Undisturbed lib s' ms
              → Conserved s' (n + of_move μ lib m)
              → ConservedIf (run_moves lib s' ms) (n + of_move μ lib m + of_moves μ lib ms))
          → ConservedIf
              (elim o [ none ↦ none | some s' ↦ run_moves lib s' ms ])
              (n + of_moves μ lib (m ∷ ms))
      go none v' u' rest = tt
      go (some s') v' u' rest =
          subst (ConservedIf (run_moves lib s' ms)) (omega arith) (rest s' u' v')

-- At first the goroutine has nothing at hand.
abbrev pub start : {W : Type 0} → ℕ → List (AkitaPlugin W) → Shared W
start lrn plugins = record { collector = new_backend_collector lrn plugins; hand = idle }

-- What is queued already and not deleted yet.
abbrev pub in_both : {W : Type 0} → (W → ℕ) → Shared W → ℕ
in_both μ s = elim s.hand [
  | queued k ↦ elim (get k s.collector.pair_cache) [ none ↦ 0 | some e ↦ μ e.witness ]
  | _ ↦ 0
]

-- Nothing that is parsed is lost or counted twice, if calls of Process and Close come one at a time,
-- and from the loading of an entry by the flush to the end of its visit neither a half of its key is
-- processed nor all is flushed: after any such calls and steps of the flush that do not panic, every
-- quantity of witnesses that merging adds up, and that plugins, times and obfuscation leave alone, is
-- in what was given to the batcher, what a plugin refused and what waits in the cache together as
-- much as in the requests and responses that were parsed, but for an entry that is queued and not yet
-- deleted, which is in two of these.
pub run_moves-conserved :
    {W : Type 0} (μ : W → ℕ) (lib : WitnessLibrary W) (lrn : ℕ) (plugins : List (AkitaPlugin W))
    (ms : List Move) (s : Shared W)
    → IsAdditive μ lib plugins
    → Undisturbed lib (start lrn plugins) ms
    → run_moves lib (start lrn plugins) ms ≡ some s
    → of_added μ s.collector.added
        + of_skipped μ s.collector.skipped
        + sum_by (of_entry μ) s.collector.pair_cache
      ≡ of_moves μ lib ms + in_both μ s
unfolding new_backend_collector
run_moves-conserved {W} μ lib lrn plugins ms s additive u q =
    let v : Conserved μ lib plugins s (0 + of_moves μ lib ms) =
      subst (λ o. ConservedIf μ lib plugins o (0 + of_moves μ lib ms)) q
        (run_moves-Conserved μ lib plugins (start lrn plugins) ms 0 additive u
          (record { cache = (tt, tt); same = refl; counts = refl })) in
    go s.hand v.counts
  where
    go :
        (hand : Hand W)
        → Counts μ lib plugins hand s.collector (0 + of_moves μ lib ms)
        → of_collector μ s.collector
          ≡ of_moves μ lib ms + elim hand [
            | queued k ↦ elim (get k s.collector.pair_cache) [ none ↦ 0 | some e ↦ μ e.witness ]
            | _ ↦ 0
          ]
    go idle h = omega (arith, h)
    go (loaded k e) h = omega (arith, h.0)
    go (queued k) (e, h, there) = ground (arith, h, there)
