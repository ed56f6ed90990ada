-- ===== src/Apidump/Summary/Columns.antt =====
-- The table of interfaces of apidump/summary.go, read back from the lines.
use observability_cli.Prelude.{
  nat_beq, ◌≡◌, refl, Bool, true, false, none, some, Option, List, [], ◌∷◌, ◌++◌, String, map, ap,
  length, if◌then◌else◌, Map, append_assoc, ◌∙◌,
}
use observability_cli.Trace.Telemetry.{PacketCounts}
use observability_cli.Trace.Stats.{PacketCounter, total_on_interface, all_ports}
use observability_cli.Apidump.Summary.Tables.{
  FilterState, matched_filter, not_matched_filter, Row, row, TableLine, packets_per_port,
  no_packets_captured, interface_row, to_report, interface_lines, port_line, port_table,
  dump_packet_counters,
}
use observability_cli.Apidump.Summary.Reading.{same_state, ending, note}

-- The rows of interfaces of `state`.
abbrev pub read_interfaces : FilterState → List TableLine → Map String Row
read_interfaces state [] = []
read_interfaces state (interface_row name other r ∷ lines) =
    let rest = read_interfaces state lines in
    if same_state other state then (name, r) ∷ rest else rest
read_interfaces state (_ ∷ lines) = read_interfaces state lines

abbrev interface_entry : PacketCounter → String → String × Row
interface_entry s n = (n, row (total_on_interface s n))

abbrev pub interface_entries : PacketCounter → List String → Map String Row
interface_entries s [] = []
interface_entries s (n ∷ names) = interface_entry s n ∷ interface_entries s names

read_interfaces-port_line :
    (state : FilterState) (cs : List PacketCounts) (lines : List TableLine)
    → read_interfaces state (map port_line cs ++ lines) ≡ read_interfaces state lines
read_interfaces-port_line state [] lines = refl
read_interfaces-port_line state (c ∷ cs) lines = read_interfaces-port_line state cs lines

read_interfaces-note :
    (state : FilterState) (empty : Bool) (lines : List TableLine)
    → read_interfaces state ((if empty then no_packets_captured ∷ [] else []) ++ lines)
      ≡ read_interfaces state lines
read_interfaces-note state true lines = refl
read_interfaces-note state false lines = refl

read_interfaces-port_table :
    (state : FilterState) (reports : List (FilterState × PacketCounter))
    → read_interfaces state (port_table reports ++ ending) ≡ []
unfolding port_table
read_interfaces-port_table state [] = refl
read_interfaces-port_table state ((other, s) ∷ reports) =
    let lines = port_table reports ++ ending in
    simp append_assoc (
      read_interfaces-port_line state (all_ports s) (note (all_ports s) ++ lines)
      ∙ (read_interfaces-note state (nat_beq (length (all_ports s)) 0) lines
          ∙ read_interfaces-port_table state reports))

module _ (m : PacketCounter) (lines : List TableLine) where
  read_interfaces-matched :
      (u : Option PacketCounter) (names : List String)
      → read_interfaces matched_filter lines ≡ []
      → read_interfaces matched_filter (interface_lines (to_report m u) names ++ lines)
        ≡ interface_entries m names
  unfolding interface_lines
  read_interfaces-matched u [] h = h
  read_interfaces-matched none (n ∷ names) h =
      ap (◌∷◌ (interface_entry m n)) (read_interfaces-matched none names h)
  read_interfaces-matched (some u) (n ∷ names) h =
      ap (◌∷◌ (interface_entry m n)) (read_interfaces-matched (some u) names h)

  read_interfaces-unmatched :
      (u : PacketCounter) (names : List String)
      → read_interfaces not_matched_filter lines ≡ []
      → read_interfaces not_matched_filter (interface_lines (to_report m (some u)) names ++ lines)
        ≡ interface_entries u names
  unfolding interface_lines
  read_interfaces-unmatched u [] h = h
  read_interfaces-unmatched u (n ∷ names) h =
      ap (◌∷◌ (interface_entry u n)) (read_interfaces-unmatched u names h)

module _ (interfaces : List String) (m : PacketCounter) where
  pub read_interfaces-dump :
      (u : Option PacketCounter)
      → read_interfaces matched_filter (dump_packet_counters interfaces m u true)
        ≡ interface_entries m interfaces
  unfolding dump_packet_counters
  read_interfaces-dump u = simp append_assoc (
      read_interfaces-matched m (packets_per_port ∷ port_table (to_report m u) ++ ending) u
        interfaces (read_interfaces-port_table matched_filter (to_report m u)))

  pub read_interfaces-dump_unmatched :
      (u : PacketCounter)
      → read_interfaces not_matched_filter (dump_packet_counters interfaces m (some u) true)
        ≡ interface_entries u interfaces
  unfolding dump_packet_counters
  read_interfaces-dump_unmatched u = simp append_assoc (
      read_interfaces-unmatched m (packets_per_port ∷ port_table (to_report m (some u)) ++ ending) u
        interfaces (read_interfaces-port_table not_matched_filter (to_report m (some u))))
