-- ===== src/Trace/Stats/Keys.antt =====
-- The counters of trace/stats.go, entry by entry.
use observability_cli.Prelude.{
  ℕ, ◌<◌, ◌≡◌, none, some, List, [], ◌∷◌, String, nat_eq, string_eq, arith, ◌∙◌, length, get, All,
  All-put, All-get, Option-cases, ◌⊎◌, inl, inr, sym, if_cases, option_cases, Map,
}
use observability_cli.Trace.Telemetry.{PacketCounts, Measure, measure, Telemetry}
use observability_cli.Trace.Stats.{
  BoundedPacketCounter, add_or_insert, PacketCounter, new_packet_counter, update, new_port,
  new_bounded_packet_counter, max_keys, total_on_interface,
}
use observability_cli.Trace.Stats.Bounds.{update_all, update_all-new_packet_counter-Inv}
use observability_cli.Trace.Stats.Exact.{port_share, interface_share, ports-Holds, interfaces-Holds}
use observability_cli.Trace.Stats.Totals.{sum_all, measure-no_counts}

-- Each port's entry carries the port.
abbrev pub IsKeyed : Map ℕ PacketCounts → Type 0
IsKeyed m = All (λ kv. kv.1.src_port ≡ kv.0) m

module _ (telemetry : Telemetry) where
  open telemetry use {add, src_port-add}

  add_or_insert-IsKeyed :
      (bc : BoundedPacketCounter ℕ) (port : ℕ) (c : PacketCounts)
      → IsKeyed bc.m
      → IsKeyed (add_or_insert telemetry bc port c (new_port telemetry port)).m
  unfolding add_or_insert
  add_or_insert-IsKeyed bc port c h =
      option_cases (λ (b : BoundedPacketCounter ℕ). IsKeyed b.m) (get port bc.m)
        (λ e.
          if_cases (λ (b : BoundedPacketCounter ℕ). IsKeyed b.m) _ (λ _. h)
            (λ _.
              All-put (λ kv. kv.1.src_port ≡ kv.0) port (new_port telemetry port c) bc.m
                (src_port-add _ c) h))
        (λ prev e.
          All-put (λ kv. kv.1.src_port ≡ kv.0) port (add prev c) bc.m
            (src_port-add prev c ∙ All-get (λ kv. kv.1.src_port ≡ kv.0) port prev bc.m h e) h)

  update_all-IsKeyed :
      (s : PacketCounter) (cs : List PacketCounts)
      → IsKeyed s.by_port.m
      → IsKeyed (update_all telemetry s cs).by_port.m
  unfolding update_all
  update_all-IsKeyed s [] h = h
  update_all-IsKeyed s (c ∷ cs) h = update_all-IsKeyed (update telemetry s c) cs (
      unfold update in
      add_or_insert-IsKeyed _ c.dst_port c (add_or_insert-IsKeyed s.by_port c.src_port c h))

module _ (telemetry : Telemetry) (cs : List PacketCounts) where
  abbrev counter : PacketCounter
  counter = update_all telemetry new_packet_counter cs

  pub ports-IsKeyed : IsKeyed counter.by_port.m
  ports-IsKeyed =
      update_all-IsKeyed telemetry new_packet_counter cs
        (unfold new_packet_counter new_bounded_packet_counter in tt)

  pub port_counted :
      (μ : Measure) (port : ℕ) (c : PacketCounts)
      → get port counter.by_port.m ≡ some c
      → measure μ c ≡ sum_all (port_share μ port) cs
  port_counted μ port c h = ground (arith, ports-Holds telemetry μ cs port)

  pub port_missing :
      (μ : Measure) (port : ℕ)
      → get port counter.by_port.m ≡ none
      → length counter.by_port.m < max_keys
      → sum_all (port_share μ port) cs ≡ 0
  port_missing μ port h room = ground (
    arith,
    ports-Holds telemetry μ cs port,
    (update_all-new_packet_counter-Inv telemetry cs).port_limit,
  )

  interface_counted :
      (μ : Measure) (name : String) (c : PacketCounts)
      → get name counter.by_interface.m ≡ some c
      → measure μ c ≡ sum_all (interface_share μ name) cs
  interface_counted μ name c h = ground (arith, interfaces-Holds telemetry μ cs name)

  interface_missing :
      (μ : Measure) (name : String)
      → get name counter.by_interface.m ≡ none
      → length counter.by_interface.m < max_keys
      → sum_all (interface_share μ name) cs ≡ 0
  interface_missing μ name h room = ground (
    arith,
    interfaces-Holds telemetry μ cs name,
    (update_all-new_packet_counter-Inv telemetry cs).interface_limit,
  )

  -- The interface is not tracked since the map of interfaces is full.
  abbrev pub IsLeftOut : String → Type 0
  IsLeftOut name =
      (get name counter.by_interface.m ≡ none) × (length counter.by_interface.m ≡ max_keys)

  pub total_on_interface-exact :
      (name : String)
      → ((μ : Measure)
          → measure μ (total_on_interface counter name) ≡ sum_all (interface_share μ name) cs)
        ⊎ IsLeftOut name
  unfolding total_on_interface
  total_on_interface-exact name =
      let full_or_room : (length counter.by_interface.m ≡ max_keys)
          ⊎ (length counter.by_interface.m < max_keys) =
        omega (
          arith,
          (update_all-new_packet_counter-Inv telemetry cs).interfaces.within,
          (update_all-new_packet_counter-Inv telemetry cs).interface_limit,
        ) in
      elim (Option-cases (get name counter.by_interface.m)) [
        | inr (c, e) ↦ inl (λ μ. rw (e, total_on_interface) (interface_counted μ name c e))
        | inl e ↦ elim full_or_room [
          | inl full ↦ inr (e, full)
          | inr room ↦ inl (λ μ.
              rw (e, total_on_interface)
                (measure-no_counts μ name "" 0 ∙ sym (interface_missing μ name e room)))
        ]
      ]
