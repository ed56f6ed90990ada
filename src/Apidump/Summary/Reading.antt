-- ===== src/Apidump/Summary/Reading.antt =====
-- The table of ports of apidump/summary.go, read back from the lines.
use observability_cli.Prelude.{
  ℕ, nat_beq, ◌≡◌, refl, Bool, true, false, none, some, Option, List, [], ◌∷◌, ◌++◌, String, map,
  ap, length, if◌then◌else◌, Map, append_assoc, append-nil, ◌∙◌,
}
use observability_cli.Trace.Telemetry.{PacketCounts}
use observability_cli.Trace.Stats.{PacketCounter, all_ports}
use observability_cli.Apidump.Summary.Tables.{
  FilterState, matched_filter, not_matched_filter, Row, row, TableLine, packets_per_port,
  no_packets_captured, end_of_table, filter_header, port_row, to_report, interface_lines, port_line,
  port_table, dump_packet_counters,
}

abbrev pub same_state : FilterState → FilterState → Bool
same_state matched_filter matched_filter = true
same_state not_matched_filter not_matched_filter = true
same_state _ _ = false

-- The rows of ports under the header of `state`; `here`: the last header was that one.
abbrev pub read_ports : FilterState → Bool → List TableLine → Map ℕ Row
read_ports state here [] = []
read_ports state here (filter_header other ∷ lines) =
    read_ports state (same_state other state) lines
read_ports state true (port_row port r ∷ lines) = (port, r) ∷ read_ports state true lines
read_ports state here (_ ∷ lines) = read_ports state here lines

abbrev pub port_entry : PacketCounts → ℕ × Row
port_entry c = (c.src_port, row c)

read_ports-port_line :
    (state : FilterState) (cs : List PacketCounts) (lines : List TableLine)
    → read_ports state true (map port_line cs ++ lines)
      ≡ map port_entry cs ++ read_ports state true lines
read_ports-port_line state [] lines = refl
read_ports-port_line state (c ∷ cs) lines =
    ap (◌∷◌ (port_entry c)) (read_ports-port_line state cs lines)

read_ports-others :
    (state : FilterState) (cs : List PacketCounts) (lines : List TableLine)
    → read_ports state false (map port_line cs ++ lines) ≡ read_ports state false lines
read_ports-others state [] lines = refl
read_ports-others state (c ∷ cs) lines = read_ports-others state cs lines

read_ports-interface_lines :
    (state : FilterState) (m : PacketCounter) (u : Option PacketCounter) (names : List String)
    (lines : List TableLine)
    → read_ports state false (interface_lines (to_report m u) names ++ lines)
      ≡ read_ports state false lines
unfolding interface_lines
read_ports-interface_lines state m u [] lines = refl
read_ports-interface_lines state m none (n ∷ names) lines =
    read_ports-interface_lines state m none names lines
read_ports-interface_lines state m (some u) (n ∷ names) lines =
    read_ports-interface_lines state m (some u) names lines

abbrev pub note : List PacketCounts → List TableLine
note cs = if nat_beq (length cs) 0 then no_packets_captured ∷ [] else []

-- The lines of one summary's ports, without the header.
abbrev section : List PacketCounts → List TableLine → List TableLine
section cs lines = map port_line cs ++ (note cs ++ lines)

read_ports-note :
    (state : FilterState) (here empty : Bool) (lines : List TableLine)
    → read_ports state here ((if empty then no_packets_captured ∷ [] else []) ++ lines)
      ≡ read_ports state here lines
read_ports-note state true true lines = refl
read_ports-note state true false lines = refl
read_ports-note state false true lines = refl
read_ports-note state false false lines = refl

read_ports-section :
    (state : FilterState) (cs : List PacketCounts) (lines : List TableLine)
    → read_ports state true (section cs lines) ≡ map port_entry cs ++ read_ports state true lines
read_ports-section state cs lines =
    read_ports-port_line state cs (note cs ++ lines)
    ∙ ap (◌++◌ (map port_entry cs)) (read_ports-note state true (nat_beq (length cs) 0) lines)

read_ports-other_section :
    (state : FilterState) (cs : List PacketCounts) (lines : List TableLine)
    → read_ports state false (section cs lines) ≡ read_ports state false lines
read_ports-other_section state cs lines =
    read_ports-others state cs (note cs ++ lines)
    ∙ read_ports-note state false (nat_beq (length cs) 0) lines

-- What is printed of the ports.
port_table-section :
    (state : FilterState) (s : PacketCounter) (reports : List (FilterState × PacketCounter))
    (lines : List TableLine)
    → port_table ((state, s) ∷ reports) ++ lines
      ≡ filter_header state ∷ section (all_ports s) (port_table reports ++ lines)
unfolding port_table
port_table-section state s reports lines = simp append_assoc refl

abbrev pub ending : List TableLine
ending = end_of_table ∷ []

read_ports-dump :
    (state : FilterState) (interfaces : List String) (m : PacketCounter) (u : Option PacketCounter)
    (show : Bool)
    → read_ports state false (dump_packet_counters interfaces m u show)
      ≡ read_ports state false (port_table (to_report m u) ++ ending)
unfolding dump_packet_counters
read_ports-dump state interfaces m u true = simp append_assoc (
    read_ports-interface_lines state m u interfaces
      (packets_per_port ∷ port_table (to_report m u) ++ ending))
read_ports-dump state interfaces m u false = refl

-- A summary whose filter state is the one that is read, and one whose is not.
read_ports-own_report :
    (own state : FilterState) (here : Bool) (s : PacketCounter)
    (reports : List (FilterState × PacketCounter)) (lines : List TableLine)
    → same_state own state ≡ true
    → read_ports state here (port_table ((own, s) ∷ reports) ++ lines)
      ≡ map port_entry (all_ports s) ++ read_ports state true (port_table reports ++ lines)
read_ports-own_report own state here s reports lines h =
    ap (read_ports state here) (port_table-section own s reports lines)
    ∙ (ap (λ b. read_ports state b (section (all_ports s) (port_table reports ++ lines))) h
        ∙ read_ports-section state (all_ports s) (port_table reports ++ lines))

read_ports-other_report :
    (other state : FilterState) (here : Bool) (s : PacketCounter)
    (reports : List (FilterState × PacketCounter)) (lines : List TableLine)
    → same_state other state ≡ false
    → read_ports state here (port_table ((other, s) ∷ reports) ++ lines)
      ≡ read_ports state false (port_table reports ++ lines)
read_ports-other_report other state here s reports lines h =
    ap (read_ports state here) (port_table-section other s reports lines)
    ∙ (ap (λ b. read_ports state b (section (all_ports s) (port_table reports ++ lines))) h
        ∙ read_ports-other_section state (all_ports s) (port_table reports ++ lines))

module _ (interfaces : List String) (m : PacketCounter) (show : Bool) where
  abbrev table : Option PacketCounter → List TableLine
  table u = dump_packet_counters interfaces m u show

  -- The rows of ports that match the filter are those of the first summary.
  pub read_ports-matched :
      (u : Option PacketCounter)
      → read_ports matched_filter false (table u) ≡ map port_entry (all_ports m)
  unfolding port_table
  read_ports-matched none =
      read_ports-dump matched_filter interfaces m none show
      ∙ (read_ports-own_report matched_filter matched_filter false m [] ending refl ∙ append-nil _)
  read_ports-matched (some u) =
      read_ports-dump matched_filter interfaces m (some u) show
      ∙ (read_ports-own_report matched_filter matched_filter false m ((not_matched_filter, u) ∷ [])
            ending refl
          ∙ (ap (◌++◌ (map port_entry (all_ports m)))
                (read_ports-other_report not_matched_filter matched_filter true u [] ending refl)
              ∙ append-nil _))

  pub read_ports-unmatched :
      (u : PacketCounter)
      → read_ports not_matched_filter false (table (some u)) ≡ map port_entry (all_ports u)
  unfolding port_table
  read_ports-unmatched u =
      read_ports-dump not_matched_filter interfaces m (some u) show
      ∙ (read_ports-other_report matched_filter not_matched_filter false m
            ((not_matched_filter, u) ∷ []) ending refl
          ∙ (read_ports-own_report not_matched_filter not_matched_filter false u [] ending refl
              ∙ append-nil _))
