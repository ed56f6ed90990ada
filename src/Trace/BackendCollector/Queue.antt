-- ===== src/Trace/BackendCollector/Queue.antt =====
-- What queueUpload of trace/backend_collector.go changes, and the events that a collector sees.
use observability_cli.Prelude.{
  ℕ, ◌+◌, ◌≡◌, refl, ◌∙◌, Option, none, some, List, [], ◌∷◌, nat_eq, arith, sum_by, All,
  option_cases,
}
use observability_cli.Prelude.Int.{ℤ}
use observability_cli.Net.{Traffic, http_request, http_response}
use observability_cli.Trace.BackendCollector.{
  PartialWitness, WitnessLibrary, AkitaPlugin, WitnessWithInfo, Report, witness_report,
  BackendCollector, transform_all, add_report, queue_upload, process, periodic_flush, close,
  switch_learn_session,
}

pub data Event : Type 0 where
  processes : Traffic → Event
  ticks : ℕ → Event
  switches : ℕ → Event
  closes : ℕ → Event

module _ {W : Type 0} (lib : WitnessLibrary W) where
  -- `none` is a panic.
  unfoldable pub handle : BackendCollector W → Event → Option (BackendCollector W)
  handle c (processes t) = some (process lib c t)
  handle c (ticks now) = some (periodic_flush lib c now)
  handle c (switches session) = some (switch_learn_session c session)
  handle c (closes now) = close lib c now

  unfoldable pub run : BackendCollector W → List Event → Option (BackendCollector W)
  run c [] = some c
  run c (e ∷ es) = elim (handle c e) [ none ↦ none | some c' ↦ run c' es ]

  pub queue_upload-pair_cache :
      (c : BackendCollector W) (w : WitnessWithInfo W)
      → (queue_upload lib c w).pair_cache ≡ c.pair_cache
  unfolding queue_upload add_report
  queue_upload-pair_cache c w =
      option_cases (λ (r : BackendCollector W). r.pair_cache ≡ c.pair_cache)
        (transform_all c.plugins w.witness) (λ _. refl) λ _ _. refl

  pub queue_upload-plugins :
      (c : BackendCollector W) (w : WitnessWithInfo W) → (queue_upload lib c w).plugins ≡ c.plugins
  unfolding queue_upload add_report
  queue_upload-plugins c w =
      option_cases (λ (r : BackendCollector W). r.plugins ≡ c.plugins)
        (transform_all c.plugins w.witness) (λ _. refl) λ _ _. refl

  -- The half that a request or a response is parsed into.
  abbrev pub half_of : Traffic → Option (PartialWitness W)
  half_of t = elim t.content [
    | http_request _ ↦ lib.parse_http t.content
    | http_response _ ↦ lib.parse_http t.content
    | _ ↦ none
  ]

-- A quantity of a witness, in all the witnesses that a collector has given to the batcher, skipped
-- for a plugin's error, or has in its cache.
module _ {W : Type 0} (μ : W → ℕ) where
  abbrev pub of_entry : ℕ × WitnessWithInfo W → ℕ
  of_entry (k, w) = μ w.witness

  abbrev of_report : Report W → ℕ
  of_report (witness_report w) = μ w.witness
  of_report _ = 0

  abbrev pub of_added : List (Report W) → ℕ
  of_added [] = 0
  of_added (r ∷ rs) = of_report r + of_added rs

  abbrev pub of_skipped : List (WitnessWithInfo W) → ℕ
  of_skipped [] = 0
  of_skipped (w ∷ ws) = μ w.witness + of_skipped ws

  abbrev pub of_collector : BackendCollector W → ℕ
  of_collector c = of_added c.added + of_skipped c.skipped + sum_by of_entry c.pair_cache

  -- Nothing but merging changes the quantity, and merging adds.
  pub record IsAdditive (lib : WitnessLibrary W) (plugins : List (AkitaPlugin W)) : Type 0 where
    pub merging : (a b : W) → μ (lib.merge_witness a b) ≡ μ a + μ b
    pub timing : (a : W) (us : ℤ) → μ (lib.set_processing_latency a us) ≡ μ a
    pub obfuscating : (a : W) → μ (lib.obfuscate a) ≡ μ a
    pub transforming : All (λ (p : AkitaPlugin W). (a : W) → μ (p.transform a).0 ≡ μ a) plugins

  transform_all-additive :
      (ps : List (AkitaPlugin W))
      → All (λ (p : AkitaPlugin W). (a : W) → μ (p.transform a).0 ≡ μ a) ps
      → (w v : W) → transform_all ps w ≡ some v
      → μ v ≡ μ w
  unfolding transform_all
  transform_all-additive [] h w v = λ e. cc
  transform_all-additive (p ∷ ps) h w v =
      option_cases (λ (r : Option W). r ≡ some v → μ v ≡ μ w) (p.transform w).1
        (λ _ e. transform_all-additive ps h.1 (p.transform w).0 v e ∙ h.0 w) λ _ _ e. cc

  -- A witness that is queued is uploaded or skipped.
  pub queue_upload-of_collector :
      (lib : WitnessLibrary W) (c : BackendCollector W) (w : WitnessWithInfo W)
      → IsAdditive lib c.plugins
      → of_collector (queue_upload lib c w) ≡ of_collector c + μ w.witness
  unfolding queue_upload add_report
  queue_upload-of_collector lib c w h =
      option_cases (λ (r : BackendCollector W). of_collector r ≡ of_collector c + μ w.witness)
        (transform_all c.plugins w.witness) (λ _. omega arith)
        λ v e.
          omega
            (arith, h.obfuscating v, transform_all-additive c.plugins h.transforming w.witness v e)
