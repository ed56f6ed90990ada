-- ===== src/Trace/BackendCollector/Interleaving.antt =====
-- trace/backend_collector.go: the goroutine of periodicFlush between the calls of Process. Range
-- loads an entry, its function queues the entry if it is old, and deletes its key afterwards; calls of
-- the collector's owner come in between.
use observability_cli.Prelude.{
  ℕ, ◌≢◌, Option, none, some, List, [], ◌∷◌, ltb, if◌then◌else◌, nat_eq, get, delete,
}
use observability_cli.Trace.BackendCollector.{
  PartialWitness, WitnessLibrary, WitnessWithInfo, BackendCollector, queue_upload,
}
use observability_cli.Trace.BackendCollector.Queue.{
  Event, processes, ticks, switches, closes, handle, half_of,
}

-- What the goroutine has at hand.
pub data Hand (W : Type 0) : Type 0 where
  idle : Hand W
  loaded : ℕ → WitnessWithInfo W → Hand W
  queued : ℕ → Hand W

pub record Shared (W : Type 0) : Type 0 where
  pub collector : BackendCollector W
  pub hand : Hand W

-- A call of the owner, or a step of the goroutine.
pub data Move : Type 0 where
  does : Event → Move
  loads : ℕ → Move
  queues : ℕ → Move
  deletes : Move

module _ {W : Type 0} (lib : WitnessLibrary W) where
  -- Of an entry that is not older than the cutoff nothing is queued.
  unfoldable pub queue_loaded : Shared W → ℕ → Hand W → Shared W
  queue_loaded s cutoff (loaded k e) =
      let uploaded = queue_upload lib s.collector e in
      if ltb e.observation_time cutoff
      then record { collector = uploaded; hand = queued k }
      else record s { hand = idle }
  queue_loaded s cutoff _ = s

  unfoldable pub delete_queued : Shared W → Hand W → Shared W
  delete_queued s (queued k) = record {
    collector = record s.collector { pair_cache = delete k s.collector.pair_cache };
    hand = idle;
  }
  delete_queued s _ = s

  -- A load that comes too early is none.
  unfoldable pub load_entry : Shared W → ℕ → Hand W → Shared W
  load_entry s k idle = elim (get k s.collector.pair_cache) [
    | none ↦ s
    | some e ↦ record s { hand = loaded k e }
  ]
  load_entry s k _ = s

  -- `none` is a panic.
  unfoldable pub move : Shared W → Move → Option (Shared W)
  move s (does event) = elim (handle lib s.collector event) [
    | none ↦ none
    | some c ↦ some (record s { collector = c })
  ]
  move s (loads k) = some (load_entry s k s.hand)
  move s (queues cutoff) = some (queue_loaded s cutoff s.hand)
  move s deletes = some (delete_queued s s.hand)

  unfoldable pub run_moves : Shared W → List Move → Option (Shared W)
  run_moves s [] = some s
  run_moves s (m ∷ ms) = elim (move s m) [ none ↦ none | some s' ↦ run_moves s' ms ]

  -- The half that is parsed, if there is one, is not of the key.
  abbrev pub IsOther : ℕ → Option (PartialWitness W) → Type 0
  IsOther k none = Unit
  IsOther k (some p) = k ≢ p.pair_key

  -- What may come while the goroutine has the key at hand: no half of the key, no flush of all.
  abbrev pub Spares : ℕ → Event → Type 0
  Spares k (processes t) = IsOther k (half_of lib t)
  Spares k (ticks _) = ⊥
  Spares k (switches _) = Unit
  Spares k (closes _) = ⊥

  abbrev pub Fits : Hand W → Move → Type 0
  Fits (loaded k _) (does event) = Spares k event
  Fits (queued k) (does event) = Spares k event
  Fits _ _ = Unit

  unfoldable pub Undisturbed : Shared W → List Move → Type 0
  Undisturbed s [] = Unit
  Undisturbed s (m ∷ ms) =
      Fits s.hand m × elim (move s m) [ none ↦ Unit | some s' ↦ Undisturbed s' ms ]
