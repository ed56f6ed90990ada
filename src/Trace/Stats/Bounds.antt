-- ===== src/Trace/Stats/Bounds.antt =====
-- The limits of the counters of trace/stats.go.
use observability_cli.Prelude.{
  ℕ, ◌≤◌, ◌<◌, ◌≡◌, refl, List, [], ◌∷◌, String, Eq, ◌==◌, string_eq, nat_eq, arith, ◌∙◌, length,
  get, IsMap, put-IsMap, length-put, if_cases, option_cases,
}
use observability_cli.Trace.Telemetry.{PacketCounts, Measure, tcp, measure, Telemetry, no_counts}
use observability_cli.Trace.Stats.{
  BoundedPacketCounter, new_bounded_packet_counter, has_reached_limit, add_or_insert, PacketCounter,
  new_packet_counter, count_host, update, max_keys, new_host, new_port, new_interface,
}

-- No more keys than the limit, no key twice, and nothing in the overflow before the limit is met.
pub record IsBounded {K : Type 0} ⦃e : Eq K⦄ (bc : BoundedPacketCounter K) : Type 0 where
  pub keys : IsMap bc.m
  pub within : length bc.m ≤ bc.limit
  pub spare : (μ : Measure) → length bc.m < bc.limit → measure μ bc.overflow ≡ 0

module _ (telemetry : Telemetry) where
  add_or_insert-IsBounded :
      {K : Type 0} ⦃e : Eq K⦄ (bc : BoundedPacketCounter K) (k : K) (c : PacketCounts)
      (make_new : PacketCounts → PacketCounts)
      → IsBounded bc
      → IsBounded (add_or_insert telemetry bc k c make_new)
  unfolding add_or_insert
  add_or_insert-IsBounded bc k c make_new v =
      option_cases IsBounded (get k bc.m)
        (λ e.
          if_cases IsBounded (has_reached_limit bc)
            (λ full. record {
              keys = v.keys;
              within = v.within;
              spare = λ μ h. absurd (ground arith);
            })
            (λ room. record {
              keys = put-IsMap k (make_new c) bc.m v.keys;
              within = ground (arith, length-put k (make_new c) bc.m);
              spare = λ μ h. v.spare μ (ground arith);
            }))
        (λ prev e. record {
          keys = put-IsMap k (telemetry.add prev c) bc.m v.keys;
          within = ground (arith, length-put k (telemetry.add prev c) bc.m, v.within);
          spare = λ μ h. v.spare μ (ground (arith, length-put k (telemetry.add prev c) bc.m));
        })

  count_host-IsBounded :
      (bc : BoundedPacketCounter String) (host : String) (c : PacketCounts)
      → IsBounded bc
      → IsBounded (count_host telemetry bc host c)
  unfolding count_host
  count_host-IsBounded bc host c v =
      if_cases IsBounded (host == "") (λ _. v)
        (λ _. add_or_insert-IsBounded bc host c (new_host telemetry host) v)

  add_or_insert-limit :
      {K : Type 0} ⦃e : Eq K⦄ (bc : BoundedPacketCounter K) (k : K) (c : PacketCounts)
      (make_new : PacketCounts → PacketCounts)
      → (add_or_insert telemetry bc k c make_new).limit ≡ bc.limit
  unfolding add_or_insert
  add_or_insert-limit bc k c make_new = ground arith

  count_host-limit :
      (bc : BoundedPacketCounter String) (host : String) (c : PacketCounts)
      → (count_host telemetry bc host c).limit ≡ bc.limit
  unfolding count_host
  count_host-limit bc host c =
      if_cases (λ (b : BoundedPacketCounter String). b.limit ≡ bc.limit) (host == "") (λ _. refl)
        (λ _. add_or_insert-limit bc host c (new_host telemetry host))

-- Each of the three counters of a `PacketCounter` keeps to its limit of `max_keys`.
pub record Inv (s : PacketCounter) : Type 0 where
  pub ports : IsBounded s.by_port
  pub interfaces : IsBounded s.by_interface
  pub hosts : IsBounded s.by_host
  pub port_limit : s.by_port.limit ≡ max_keys
  pub interface_limit : s.by_interface.limit ≡ max_keys
  pub host_limit : s.by_host.limit ≡ max_keys

new_bounded_packet_counter-IsBounded :
    {K : Type 0} ⦃e : Eq K⦄ (limit : ℕ) → IsBounded (new_bounded_packet_counter {K = K} limit)
unfolding new_bounded_packet_counter
new_bounded_packet_counter-IsBounded limit = record {
  keys = tt;
  within = omega arith;
  spare = λ μ _. zero_overflow μ;
}
  where
    zero_overflow : (μ : Measure) → measure μ (record no_counts { interface = "*" }) ≡ 0
    zero_overflow tcp = refl
    zero_overflow _ = refl

new_packet_counter-Inv : Inv new_packet_counter
unfolding new_packet_counter
new_packet_counter-Inv = record {
  ports = new_bounded_packet_counter-IsBounded max_keys;
  interfaces = new_bounded_packet_counter-IsBounded max_keys;
  hosts = new_bounded_packet_counter-IsBounded max_keys;
  port_limit = refl;
  interface_limit = refl;
  host_limit = refl;
}

module _ (telemetry : Telemetry) where
  update-Inv : (s : PacketCounter) (c : PacketCounts) → Inv s → Inv (update telemetry s c)
  unfolding update
  update-Inv s c v =
      let port = add_or_insert telemetry s.by_port c.src_port c (new_port telemetry c.src_port) in
      let host = count_host telemetry s.by_host c.src_host c in
      record {
        ports =
            add_or_insert-IsBounded telemetry port c.dst_port c (new_port telemetry c.dst_port) (
              add_or_insert-IsBounded telemetry s.by_port c.src_port c
                (new_port telemetry c.src_port) v.ports);
        interfaces =
            add_or_insert-IsBounded telemetry s.by_interface c.interface c (new_interface telemetry)
              v.interfaces;
        hosts =
            count_host-IsBounded telemetry host c.dst_host c
              (count_host-IsBounded telemetry s.by_host c.src_host c v.hosts);
        port_limit =
            add_or_insert-limit telemetry port c.dst_port c (new_port telemetry c.dst_port)
            ∙ (add_or_insert-limit telemetry s.by_port c.src_port c (new_port telemetry c.src_port)
                ∙ v.port_limit);
        interface_limit =
            add_or_insert-limit telemetry s.by_interface c.interface c (new_interface telemetry)
            ∙ v.interface_limit;
        host_limit =
            count_host-limit telemetry host c.dst_host c
            ∙ (count_host-limit telemetry s.by_host c.src_host c ∙ v.host_limit);
      }

  -- The counter after a sequence of calls of `Update`.
  unfoldable pub update_all : PacketCounter → List PacketCounts → PacketCounter
  update_all s [] = s
  update_all s (c ∷ cs) = update_all (update telemetry s c) cs

  update_all-Inv : (s : PacketCounter) (cs : List PacketCounts) → Inv s → Inv (update_all s cs)
  unfolding update_all
  update_all-Inv s [] v = v
  update_all-Inv s (c ∷ cs) v = update_all-Inv (update telemetry s c) cs (update-Inv s c v)

  -- Whatever is counted, ports, interfaces and hosts are each tracked under at most 10,000 keys, no
  -- key twice, and nothing goes to an overflow while its map has room.
  pub update_all-new_packet_counter-Inv :
      (cs : List PacketCounts) → Inv (update_all new_packet_counter cs)
  update_all-new_packet_counter-Inv cs = update_all-Inv new_packet_counter cs new_packet_counter-Inv
