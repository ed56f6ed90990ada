-- ===== src/Trace/Stats.antt =====
-- trace/stats.go: packet counts by port, interface and host. The mutex is held throughout `Update`.
pub mod Bounds
pub mod Totals
pub mod Exact
pub mod Keys
pub mod Top
pub mod Summary
pub mod Examples
use observability_cli.Prelude.{
  ℕ, ◌≤◌, Bool, true, false, not, Option, none, some, List, [], ◌∷◌, String, Eq, ◌==◌, string_eq,
  nat_eq, leb, ltb, nat_beq, min, length, map, take, if◌then◌else◌, Map, get, put,
}
use observability_cli.Trace.Telemetry.{PacketCounts, no_counts, Telemetry}

pub record BoundedPacketCounter (K : Type 0) : Type 0 where
  pub limit : ℕ
  pub overflow : PacketCounts
  pub m : Map K PacketCounts

pub new_bounded_packet_counter : {K : Type 0} → ℕ → BoundedPacketCounter K
new_bounded_packet_counter limit = record {
  limit = limit;
  overflow = record no_counts { interface = "*" };
  m = [];
}

abbrev pub max_keys : ℕ
max_keys = 10_000

pub has_reached_limit : {K : Type 0} → BoundedPacketCounter K → Bool
has_reached_limit bc = leb bc.limit (length bc.m)

pub get_overflow : {K : Type 0} → BoundedPacketCounter K → Option PacketCounts
unfolding has_reached_limit
get_overflow bc = if has_reached_limit bc then some bc.overflow else none

module _ (telemetry : Telemetry) where
  open telemetry use {add}

  -- `make_new` is what a new key starts from.
  pub add_or_insert :
      {K : Type 0} ⦃e : Eq K⦄
      → BoundedPacketCounter K
      → K
      → PacketCounts
      → (PacketCounts → PacketCounts)
      → BoundedPacketCounter K
  unfolding has_reached_limit
  add_or_insert bc key c make_new = elim (get key bc.m) [
    | some prev ↦ record bc { m = put key (add prev c) bc.m }
    | none ↦
        if has_reached_limit bc
        then record bc { overflow = add bc.overflow c }
        else record bc { m = put key (make_new c) bc.m }
  ]

pub record PacketCounter : Type 0 where
  pub total : PacketCounts
  pub by_port : BoundedPacketCounter ℕ
  pub by_interface : BoundedPacketCounter String
  pub by_host : BoundedPacketCounter String

pub new_packet_counter : PacketCounter
unfolding new_bounded_packet_counter
new_packet_counter = record {
  total = no_counts;
  by_port = new_bounded_packet_counter max_keys;
  by_interface = new_bounded_packet_counter max_keys;
  by_host = new_bounded_packet_counter max_keys;
}

module _ (telemetry : Telemetry) where
  open telemetry use {add}

  -- The functions that `Update` passes to `AddOrInsert`.
  abbrev pub new_host : String → PacketCounts → PacketCounts
  new_host host c = add (record no_counts { interface = "*"; src_host = host }) c

  abbrev pub new_port : ℕ → PacketCounts → PacketCounts
  new_port port c = add (record no_counts { interface = "*"; src_port = port; dst_port = 0 }) c

  abbrev pub new_interface : PacketCounts → PacketCounts
  new_interface c = add (record no_counts { interface = c.interface; src_port = 0; dst_port = 0 }) c

  pub count_host : BoundedPacketCounter String → String → PacketCounts → BoundedPacketCounter String
  unfolding add_or_insert
  count_host bc host c =
      if host == "" then bc else add_or_insert telemetry bc host c (new_host host)

  pub update : PacketCounter → PacketCounts → PacketCounter
  unfolding count_host
  update s c = record {
    by_host = count_host (count_host s.by_host c.src_host c) c.dst_host c;
    by_port =
        add_or_insert telemetry
          (add_or_insert telemetry s.by_port c.src_port c (new_port c.src_port)) c.dst_port c
          (new_port c.dst_port);
    by_interface = add_or_insert telemetry s.by_interface c.interface c new_interface;
    total = add s.total c;
  }

pub total_on_interface : PacketCounter → String → PacketCounts
total_on_interface s name = elim (get name s.by_interface.m) [
  | some count ↦ count
  | none ↦ record no_counts { interface = name }
]

pub total_on_port : PacketCounter → ℕ → PacketCounts
total_on_port s port = elim (get port s.by_port.m) [
  | some count ↦ count
  | none ↦ record no_counts { interface = "*"; src_port = port }
]

pub total_on_host : PacketCounter → String → PacketCounts
total_on_host s host = elim (get host s.by_host.m) [
  | some count ↦ count
  | none ↦ record no_counts { interface = "*"; src_host = host }
]

-- The order is that of the map's list.
unfoldable pub all_ports : PacketCounter → List PacketCounts
all_ports s = map (λ kv. kv.1) s.by_port.m
