-- ===== src/Trace/Stats/Exact.antt =====
-- The counts by port of trace/stats.go against the traffic itself.
use mathlib.Core.Path.{subst}
use native.Mathlib.Nat.{add_assoc}
use observability_cli.Prelude.{
  ℕ, ◌+◌, ◌≤◌, ◌≡◌, refl, none, some, List, [], ◌∷◌, Eq, ◌==◌, nat_eq, arith, String, string_eq,
  length, get, get-put, length-put, if◌then◌else◌, Option-cases, ◌⊎◌, inl, inr,
}
use observability_cli.Trace.Telemetry.{PacketCounts, Measure, measure, Telemetry}
use observability_cli.Trace.Stats.{
  BoundedPacketCounter, add_or_insert, PacketCounter, new_packet_counter, update, new_port,
  new_interface, total_on_port, new_bounded_packet_counter,
}
use observability_cli.Trace.Stats.Bounds.{update_all}
use observability_cli.Trace.Stats.Totals.{
  sum_all, measure-no_counts, measure-new_port, measure-new_interface,
}

-- The key's entry holds `n`; without one, `n` is 0 or the map was full when the key came.
abbrev pub Holds : {K : Type 0} ⦃e : Eq K⦄ → Measure → K → ℕ → BoundedPacketCounter K → Type 0
Holds μ k n bc = elim (get k bc.m) [
  | some c ↦ measure μ c ≡ n
  | none ↦ (bc.limit ≤ length bc.m) ⊎ (n ≡ 0)
]

-- What one update adds to a port: its source and its destination each count.
abbrev pub port_share : Measure → ℕ → PacketCounts → ℕ
port_share μ port c =
    (if c.src_port == port then measure μ c else 0)
    + (if c.dst_port == port then measure μ c else 0)

-- What one update adds to an interface.
abbrev pub interface_share : Measure → String → PacketCounts → ℕ
interface_share μ name c = if c.interface == name then measure μ c else 0

module _ (telemetry : Telemetry) (μ : Measure) where
  open telemetry use {add, measure-add}

  add_or_insert-Holds :
      {K : Type 0} ⦃e : Eq K⦄ (bc : BoundedPacketCounter K) (k j : K) (c : PacketCounts)
      (make_new : PacketCounts → PacketCounts) (n : ℕ)
      → measure μ (make_new c) ≡ measure μ c
      → Holds μ j n bc
      → Holds μ j
          (n + (if k == j then measure μ c else 0))
          (add_or_insert telemetry bc k c make_new)
  unfolding add_or_insert
  add_or_insert-Holds ⦃e⦄ bc k j c make_new n h v = elim (Option-cases (get k bc.m)) [
    | inl q ↦
        ground (arith, e.beq_iff k j, get-put k j (make_new c) bc.m, length-put k (make_new c) bc.m)
    | inr (prev, q) ↦ ground (
      arith,
      e.beq_iff k j,
      get-put k j (add prev c) bc.m,
      length-put k (add prev c) bc.m,
      measure-add μ prev c,
    )
  ]

  update-Holds :
      (s : PacketCounter) (c : PacketCounts) (port n : ℕ)
      → Holds μ port n s.by_port
      → Holds μ port (n + port_share μ port c) (update telemetry s c).by_port
  unfolding update
  update-Holds s c port n h =
      let first = if c.src_port == port then measure μ c else 0 in
      let second = if c.dst_port == port then measure μ c else 0 in
      subst (λ t. Holds μ port t (update telemetry s c).by_port) (add_assoc n first second)
        (add_or_insert-Holds _ c.dst_port port c (new_port telemetry c.dst_port) (n + first)
          (measure-new_port telemetry μ c.dst_port c)
          (add_or_insert-Holds s.by_port c.src_port port c (new_port telemetry c.src_port) n
            (measure-new_port telemetry μ c.src_port c) h))

  update_all-Holds :
      (s : PacketCounter) (cs : List PacketCounts) (port n : ℕ)
      → Holds μ port n s.by_port
      → Holds μ port (n + sum_all (port_share μ port) cs) (update_all telemetry s cs).by_port
  unfolding update_all
  update_all-Holds s [] port n h = subst (λ t. Holds μ port t s.by_port) (omega arith) h
  update_all-Holds s (c ∷ cs) port n h =
      subst (λ t. Holds μ port t (update_all telemetry s (c ∷ cs)).by_port)
        (add_assoc n (port_share μ port c) (sum_all (port_share μ port) cs))
        (update_all-Holds (update telemetry s c) cs port (n + port_share μ port c)
          (update-Holds s c port n h))

  -- The same of the interfaces.
  update_all-interface-Holds :
      (s : PacketCounter) (cs : List PacketCounts) (name : String) (n : ℕ)
      → Holds μ name n s.by_interface
      → Holds μ name
          (n + sum_all (interface_share μ name) cs)
          (update_all telemetry s cs).by_interface
  unfolding update_all
  update_all-interface-Holds s [] name n h =
      subst (λ t. Holds μ name t s.by_interface) (omega arith) h
  update_all-interface-Holds s (c ∷ cs) name n h =
      subst (λ t. Holds μ name t (update_all telemetry s (c ∷ cs)).by_interface)
        (add_assoc n (interface_share μ name c) (sum_all (interface_share μ name) cs))
        (update_all-interface-Holds (update telemetry s c) cs name (n + interface_share μ name c) (
          unfold update in
          add_or_insert-Holds s.by_interface c.interface name c (new_interface telemetry) n
            (measure-new_interface telemetry μ c) h))

  pub ports-Holds :
      (cs : List PacketCounts) (port : ℕ)
      → Holds μ port
          (sum_all (port_share μ port) cs)
          (update_all telemetry new_packet_counter cs).by_port
  ports-Holds cs port =
      subst (λ t. Holds μ port t (update_all telemetry new_packet_counter cs).by_port) (omega arith)
        (update_all-Holds new_packet_counter cs port 0 none_Holds)
    where
      none_Holds : Holds μ port 0 new_packet_counter.by_port
      none_Holds = unfold new_packet_counter new_bounded_packet_counter get in inr refl

  pub interfaces-Holds :
      (cs : List PacketCounts) (name : String)
      → Holds μ name
          (sum_all (interface_share μ name) cs)
          (update_all telemetry new_packet_counter cs).by_interface
  interfaces-Holds cs name =
      subst (λ t. Holds μ name t (update_all telemetry new_packet_counter cs).by_interface)
        (omega arith) (update_all-interface-Holds new_packet_counter cs name 0 none_Holds)
    where
      none_Holds : Holds μ name 0 new_packet_counter.by_interface
      none_Holds = unfold new_packet_counter new_bounded_packet_counter get in inr refl

  -- `TotalOnPort` is exact: it is the sum over all the traffic from and to the port, unless the
  -- port is not tracked and the map of ports is full.
  pub total_on_port-exact :
      (cs : List PacketCounts) (port : ℕ)
      → let s = update_all telemetry new_packet_counter cs in
        (measure μ (total_on_port s port) ≡ sum_all (port_share μ port) cs)
        ⊎ (get port s.by_port.m ≡ none) × (s.by_port.limit ≤ length s.by_port.m)
  unfolding total_on_port
  total_on_port-exact cs port =
      let s = update_all telemetry new_packet_counter cs in
      ground (arith, ports-Holds cs port, measure-no_counts μ "*" "" port)
