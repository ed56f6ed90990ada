-- ===== src/Trace/Stats/Totals.antt =====
-- What the counters of trace/stats.go add up to.
use observability_cli.Prelude.{
  ℕ, ◌+◌, ◌*◌, ◌≡◌, refl, Option, none, some, List, [], ◌∷◌, String, Eq, string_eq, nat_eq, arith,
  Map, get, put, Option-cases, inl, inr,
}
use observability_cli.Trace.Telemetry.{PacketCounts, Measure, tcp, measure, Telemetry, no_counts}
use observability_cli.Trace.Stats.{
  BoundedPacketCounter, add_or_insert, PacketCounter, new_packet_counter, update,
  new_bounded_packet_counter, new_port, new_interface,
}
use observability_cli.Trace.Stats.Bounds.{update_all}

sum_of : {K : Type 0} → Measure → Map K PacketCounts → ℕ
sum_of μ [] = 0
sum_of μ ((_, c) ∷ m) = measure μ c + sum_of μ m

-- All that a counter has counted, under a key or in the overflow.
pub tracked : {K : Type 0} → Measure → BoundedPacketCounter K → ℕ
unfolding sum_of
tracked μ bc = sum_of μ bc.m + measure μ bc.overflow

-- The measure of an entry that may be there.
abbrev held : Measure → Option PacketCounts → ℕ
held μ none = 0
held μ (some c) = measure μ c

sum_of-put :
    {K : Type 0} ⦃e : Eq K⦄ (μ : Measure) (k : K) (c : PacketCounts) (m : Map K PacketCounts)
    → sum_of μ (put k c m) + held μ (get k m) ≡ sum_of μ m + measure μ c
unfolding sum_of put get
sum_of-put μ k c [] = omega arith
sum_of-put μ k c ((j, d) ∷ m) = ground (arith, sum_of-put μ k c m)

pub measure-no_counts :
    (μ : Measure) (interface host : String) (port : ℕ)
    → measure μ (record no_counts { interface = interface; src_host = host; src_port = port }) ≡ 0
measure-no_counts tcp _ _ _ = refl
measure-no_counts _ _ _ _ = refl

-- The sum over the traffic.
abbrev pub sum_all : (PacketCounts → ℕ) → List PacketCounts → ℕ
sum_all f [] = 0
sum_all f (c ∷ cs) = f c + sum_all f cs

module _ (telemetry : Telemetry) (μ : Measure) where
  open telemetry use {add, measure-add}

  add_or_insert-tracked :
      {K : Type 0} ⦃e : Eq K⦄ (bc : BoundedPacketCounter K) (k : K) (c : PacketCounts)
      (make_new : PacketCounts → PacketCounts)
      → measure μ (make_new c) ≡ measure μ c
      → tracked μ (add_or_insert telemetry bc k c make_new) ≡ tracked μ bc + measure μ c
  unfolding add_or_insert tracked
  add_or_insert-tracked bc k c make_new h = elim (Option-cases (get k bc.m)) [
    | inl e ↦ ground (arith, sum_of-put μ k (make_new c) bc.m, measure-add μ bc.overflow c)
    | inr (prev, e) ↦ ground (arith, sum_of-put μ k (add prev c) bc.m, measure-add μ prev c)
  ]

  pub measure-new_port :
      (port : ℕ) (c : PacketCounts) → measure μ (new_port telemetry port c) ≡ measure μ c
  measure-new_port port c = omega (
    arith,
    measure-add μ (record no_counts { interface = "*"; src_port = port; dst_port = 0 }) c,
    measure-no_counts μ "*" "" port,
  )

  pub measure-new_interface :
      (c : PacketCounts) → measure μ (new_interface telemetry c) ≡ measure μ c
  measure-new_interface c = omega (
    arith,
    measure-add μ (record no_counts { interface = c.interface; src_port = 0; dst_port = 0 }) c,
    measure-no_counts μ c.interface "" 0,
  )

  update-tracked :
      (s : PacketCounter) (c : PacketCounts)
      → let s' = update telemetry s c in
        (tracked μ s'.by_port ≡ tracked μ s.by_port + 2 * measure μ c)
        × (tracked μ s'.by_interface ≡ tracked μ s.by_interface + measure μ c)
        × (measure μ s'.total ≡ measure μ s.total + measure μ c)
  unfolding update
  update-tracked s c =
      let port = add_or_insert telemetry s.by_port c.src_port c (new_port telemetry c.src_port) in
      (
        omega (
          arith,
          add_or_insert-tracked s.by_port c.src_port c (new_port telemetry c.src_port)
              (measure-new_port c.src_port c),
          add_or_insert-tracked port c.dst_port c (new_port telemetry c.dst_port)
              (measure-new_port c.dst_port c),
        ),
        add_or_insert-tracked s.by_interface c.interface c (new_interface telemetry)
            (measure-new_interface c),
        measure-add μ s.total c,
      )

  pub total-update :
      (s : PacketCounter) (c : PacketCounts)
      → measure μ (update telemetry s c).total ≡ measure μ s.total + measure μ c
  unfolding update
  total-update s c = measure-add μ s.total c

  update_all-tracked :
      (s : PacketCounter) (cs : List PacketCounts)
      → let s' = update_all telemetry s cs in
        (tracked μ s'.by_port ≡ tracked μ s.by_port + 2 * sum_all (measure μ) cs)
        × (tracked μ s'.by_interface ≡ tracked μ s.by_interface + sum_all (measure μ) cs)
        × (measure μ s'.total ≡ measure μ s.total + sum_all (measure μ) cs)
  unfolding update_all
  update_all-tracked s [] = omega arith
  update_all-tracked s (c ∷ cs) =
      omega (arith, update-tracked s c, update_all-tracked (update telemetry s c) cs)

  -- Nothing counted is lost, keys beyond the limit included: of each measure the total is the sum
  -- over the traffic, the interfaces and their overflow hold the same, and the ports and their
  -- overflow hold it twice, once for the source and once for the destination.
  pub update_all-new_packet_counter-tracked :
      (cs : List PacketCounts)
      → let s = update_all telemetry new_packet_counter cs in
        (measure μ s.total ≡ sum_all (measure μ) cs)
        × (tracked μ s.by_interface ≡ measure μ s.total)
        × (tracked μ s.by_port ≡ 2 * measure μ s.total)
  unfolding new_packet_counter tracked new_bounded_packet_counter
  update_all-new_packet_counter-tracked cs = omega (
    arith,
    update_all-tracked new_packet_counter cs,
    measure-no_counts μ "" "" 0,
    measure-no_counts μ "*" "" 0,
  )
