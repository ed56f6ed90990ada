-- ===== src/Apidump/Summary/Counted.antt =====
-- The tables of apidump/summary.go against the traffic that was counted.
use observability_cli.Prelude.{
  ℕ, ◌<◌, ◌≡◌, refl, sym, ◌∙◌, true, false, none, some, List, [], ◌∷◌, String, map, ap, length, Map,
  get, IsMap, All, arith, ◌⊎◌, inl, inr, Option-cases, nat_eq, string_eq, map_values,
  get-map_values, length-map_values, map_values-IsMap, IsMap-get, All-both,
}
use observability_cli.Trace.Telemetry.{
  PacketCounts, Telemetry, Measure, tcp, requests, responses, hellos, unparsed_packets, measure,
  no_counts,
}
use observability_cli.Trace.Stats.{PacketCounter, new_packet_counter, all_ports, max_keys}
use observability_cli.Trace.Stats.Bounds.{update_all, update_all-new_packet_counter-Inv}
use observability_cli.Trace.Stats.Exact.{port_share, interface_share}
use observability_cli.Trace.Stats.Totals.{sum_all, measure-no_counts}
use observability_cli.Trace.Stats.Keys.{
  IsKeyed, ports-IsKeyed, port_counted, port_missing, IsLeftOut, total_on_interface-exact,
}
use observability_cli.Apidump.Summary.Tables.{
  matched_filter, not_matched_filter, Row, row, TableLine, dump_packet_counters,
}
use observability_cli.Apidump.Summary.Reading.{
  read_ports, port_entry, read_ports-matched, read_ports-unmatched,
}
use observability_cli.Apidump.Summary.Columns.{
  read_interfaces, interface_entries, read_interfaces-dump, read_interfaces-dump_unmatched,
}

-- A row that has, of each column, the sum of what the traffic adds to it.
abbrev pub sums : (Measure → PacketCounts → ℕ) → List PacketCounts → Row
sums share cs = record {
  packets = sum_all (share tcp) cs;
  req = sum_all (share requests) cs;
  resp = sum_all (share responses) cs;
  hello = sum_all (share hellos) cs;
  unk = sum_all (share unparsed_packets) cs;
}

abbrev pub port_sums : ℕ → List PacketCounts → Row
port_sums port cs = sums (λ μ c. port_share μ port c) cs

abbrev pub interface_sums : String → List PacketCounts → Row
interface_sums name cs = sums (λ μ c. interface_share μ name c) cs

row-sums :
    (share : Measure → PacketCounts → ℕ) (cs : List PacketCounts) (c : PacketCounts)
    → ((μ : Measure) → measure μ c ≡ sum_all (share μ) cs)
    → row c ≡ sums share cs
row-sums share cs c h = rw (h tcp, h requests, h responses, h hellos, h unparsed_packets) refl

-- The row of a port, zeros if there is none.
abbrev pub cell : ℕ → Map ℕ Row → Row
cell port rows = elim (get port rows) [ none ↦ row no_counts | some r ↦ r ]

-- A table of ports: no port twice, in each row the sums over the traffic from and to its port, and
-- nothing left out unless it has 10,000 rows.
pub record IsPortTable (cs : List PacketCounts) (rows : Map ℕ Row) : Type 0 where
  pub keys : IsMap rows
  pub counted : All (λ kv. kv.1 ≡ port_sums kv.0 cs) rows
  pub complete : (length rows ≡ max_keys) ⊎ ((port : ℕ) → cell port rows ≡ port_sums port cs)

entries :
    (m : Map ℕ PacketCounts) → IsKeyed m → map port_entry (map (λ kv. kv.1) m) ≡ map_values row m
entries [] h = refl
entries ((k, c) ∷ m) h = rw (h.0, entries m h.1) refl

module _ (telemetry : Telemetry) (cs : List PacketCounts) where
  abbrev counter : PacketCounter
  counter = update_all telemetry new_packet_counter cs

  row-port :
      (port : ℕ) (c : PacketCounts)
      → get port counter.by_port.m ≡ some c
      → row c ≡ port_sums port cs
  row-port port c h =
      row-sums (λ μ. port_share μ port) cs c (λ μ. port_counted telemetry cs μ port c h)

  abbrev rows : Map ℕ Row
  rows = map_values row counter.by_port.m

  get-rows : (port : ℕ) (r : Row) → get port rows ≡ some r → r ≡ port_sums port cs
  get-rows port r h = elim (Option-cases (get port counter.by_port.m)) [
    | inl e ↦ ground (arith, get-map_values row port counter.by_port.m)
    | inr (c, e) ↦ ground (arith, get-map_values row port counter.by_port.m, row-port port c e)
  ]

  cell-rows : (port : ℕ) → length counter.by_port.m < max_keys → cell port rows ≡ port_sums port cs
  cell-rows port room = elim (Option-cases (get port rows)) [
    | inl e ↦ rw (e, cell) (row-sums (λ μ. port_share μ port) cs no_counts (missing e))
    | inr (r, e) ↦ rw (e, cell) (get-rows port r e)
  ]
    where
      missing :
          get port rows ≡ none
          → (μ : Measure) → measure μ no_counts ≡ sum_all (port_share μ port) cs
      missing e μ =
          measure-no_counts μ "" "" 0
          ∙ sym (
              port_missing telemetry cs μ port
                (ground (arith, get-map_values row port counter.by_port.m)) room)

  rows-IsPortTable : IsPortTable cs rows
  rows-IsPortTable =
      let full_or_room : (length rows ≡ max_keys) ⊎ (length counter.by_port.m < max_keys) = omega (
        arith,
        length-map_values row counter.by_port.m,
        (update_all-new_packet_counter-Inv telemetry cs).ports.within,
        (update_all-new_packet_counter-Inv telemetry cs).port_limit,
      ) in
      let v = (update_all-new_packet_counter-Inv telemetry cs) in
      let keys = map_values-IsMap row counter.by_port.m v.ports.keys in
      let found = IsMap-get rows keys in
      record {
        keys = keys;
        counted =
            All-both (λ kv. get kv.0 rows ≡ some kv.1) (λ kv. get kv.0 rows ≡ some kv.1)
              (λ kv. kv.1 ≡ port_sums kv.0 cs) (λ kv h _. get-rows kv.0 kv.1 h) rows found found;
        complete = elim full_or_room [
          | inl full ↦ inl full
          | inr room ↦ inr (λ port. cell-rows port room)
        ];
      }

  all_ports-IsPortTable : IsPortTable cs (map port_entry (all_ports counter))
  unfolding all_ports
  all_ports-IsPortTable =
      rw (entries counter.by_port.m (ports-IsKeyed telemetry cs)) rows-IsPortTable

module _ (telemetry : Telemetry) (cs : List PacketCounts) where
  -- A row of the table of interfaces: the sums over the traffic on the interface, unless it is left
  -- out for 10,000 others.
  abbrev pub IsInterfaceRow : String × Row → Type 0
  IsInterfaceRow (name, r) = (r ≡ interface_sums name cs) ⊎ IsLeftOut telemetry cs name

  interface_entries-IsInterfaceRow :
      (names : List String) → All IsInterfaceRow (interface_entries (counter telemetry cs) names)
  interface_entries-IsInterfaceRow [] = tt
  interface_entries-IsInterfaceRow (name ∷ names) = (
    elim (total_on_interface-exact telemetry cs name) [
      | inl exact ↦ inl (row-sums (λ μ. interface_share μ name) cs _ exact)
      | inr left_out ↦ inr left_out
    ],
    interface_entries-IsInterfaceRow names,
  )

-- What the tables have of one filter state: a table of ports, and a row of each interface.
pub record IsCounted (telemetry : Telemetry) (interfaces : List String) (cs : List PacketCounts)
    (ports : Map ℕ Row) (rows : Map String Row) : Type 0 where
  pub port_table : IsPortTable cs ports
  pub names : map (λ nr. nr.0) rows ≡ interfaces
  pub interface_rows : All (IsInterfaceRow telemetry cs) rows

module _ (telemetry : Telemetry) (interfaces : List String) (cs : List PacketCounts) where
  counter-IsCounted :
      IsCounted telemetry interfaces cs
        (map port_entry (all_ports (counter telemetry cs)))
        (interface_entries (counter telemetry cs) interfaces)
  counter-IsCounted = record {
    port_table = all_ports-IsPortTable telemetry cs;
    names = names_of interfaces;
    interface_rows = interface_entries-IsInterfaceRow telemetry cs interfaces;
  }
    where
      names_of :
          (names : List String)
          → map (λ nr. nr.0) (interface_entries (counter telemetry cs) names) ≡ names
      names_of [] = refl
      names_of (name ∷ names) = ap (◌∷◌ name) (names_of names)

  -- The tables that are printed of traffic that matches the filter, and of `ds` that does not.
  abbrev pub printed : List PacketCounts → List TableLine
  printed ds =
      dump_packet_counters interfaces (counter telemetry cs) (some (counter telemetry ds)) true

-- Of the traffic that matches the filter, and of the traffic that does not, the tables of
-- `DumpPacketCounters` have under the state's header no port twice, in each row of a port the sums
-- over the traffic from and to it, and every port with traffic unless there are 10,000 rows; and in
-- the state's rows of interfaces the given interfaces in their order, each with the sums over the
-- traffic on it, unless 10,000 others are tracked and it is not.
pub dump_packet_counters-IsCounted :
    (telemetry : Telemetry) (interfaces : List String) (cs ds : List PacketCounts)
    → let lines = printed telemetry interfaces cs ds in
      IsCounted telemetry interfaces cs
        (read_ports matched_filter false lines)
        (read_interfaces matched_filter lines)
      × IsCounted telemetry interfaces ds
          (read_ports not_matched_filter false lines)
          (read_interfaces not_matched_filter lines)
dump_packet_counters-IsCounted telemetry interfaces cs ds =
    let m = counter telemetry cs in
    let u = counter telemetry ds in
    (
      rw (read_ports-matched interfaces m true (some u), read_interfaces-dump interfaces m (some u))
          (counter-IsCounted telemetry interfaces cs),
      rw (read_ports-unmatched interfaces m true u, read_interfaces-dump_unmatched interfaces m u)
          (counter-IsCounted telemetry interfaces ds),
    )
