-- ===== src/Apidump/Summary/Tables.antt =====
-- apidump/summary.go: the tables of packet counts that are printed in debug mode. A line is its kind
-- and what is printed in it; column titles, rules and padding are left out.
use observability_cli.Prelude.{
  ℕ, ltb, nat_beq, Bool, true, false, Option, none, some, List, [], ◌∷◌, ◌++◌, String, map, length,
  if◌then◌else◌,
}
use observability_cli.Trace.Telemetry.{PacketCounts}
use observability_cli.Trace.Stats.{PacketCounter, total_on_interface, all_ports}
use observability_cli.Trace.Stats.Top.{Ordered, SortFunc}
use observability_cli.Apidump.Summary.{Summary, Line, print_packet_count_highlights}

pub data FilterState : Type 0 where
  matched_filter not_matched_filter : FilterState

-- The columns of counts.
pub record Row : Type 0 where
  pub packets : ℕ
  pub req : ℕ
  pub resp : ℕ
  pub hello : ℕ
  pub unk : ℕ

abbrev pub row : PacketCounts → Row
row c = record {
  packets = c.tcp_packets;
  req = c.http_requests;
  resp = c.http_responses;
  hello = c.tls_hello;
  unk = c.unparsed;
}

pub data TableLine : Type 0 where
  packets_per_interface packets_per_port no_packets_captured end_of_table : TableLine
  interface_row : String → FilterState → Row → TableLine
  filter_header : FilterState → TableLine
  port_row : ℕ → Row → TableLine

-- The filter states with the summaries to report.
abbrev pub to_report : PacketCounter → Option PacketCounter → List (FilterState × PacketCounter)
to_report matched none = (matched_filter, matched) ∷ []
to_report matched (some unmatched) =
    (matched_filter, matched) ∷ (not_matched_filter, unmatched) ∷ []

unfoldable pub interface_lines : List (FilterState × PacketCounter) → List String → List TableLine
interface_lines reports [] = []
interface_lines reports (n ∷ names) =
    map (λ r. interface_row n r.0 (row (total_on_interface r.1 n))) reports
    ++ interface_lines reports names

abbrev pub port_line : PacketCounts → TableLine
port_line c = port_row c.src_port (row c)

unfoldable pub port_table : List (FilterState × PacketCounter) → List TableLine
port_table [] = []
port_table ((state, summary) ∷ reports) =
    let by_port = all_ports summary in
    (filter_header state ∷ map port_line by_port)
    ++ (if nat_beq (length by_port) 0 then no_packets_captured ∷ [] else [])
    ++ port_table reports

unfoldable pub dump_packet_counters :
    List String → PacketCounter → Option PacketCounter → Bool → List TableLine
dump_packet_counters interfaces matched unmatched show_interface =
    let reports = to_report matched unmatched in
    (if show_interface then packets_per_interface ∷ interface_lines reports interfaces else [])
    ++ (packets_per_port ∷ port_table reports)
    ++ end_of_table ∷ []

-- What is printed, at the level it is printed at.
pub data Output : Type 0 where
  highlight : Line → Output
  info debug : TableLine → Output
  counts_before_filters : Output

-- `debug_flag` is the setting "debug".
unfoldable pub print_tables : Bool → Summary → List Output
print_tables debug_flag s =
    let unmatched : Option PacketCounter = elim s.negation_filters [
      | [] ↦ none
      | _ ∷ _ ↦ some s.negation_summary
    ] in
    if debug_flag
    then map info (dump_packet_counters s.interfaces s.filter_summary unmatched true)
      ++ (if ltb 0 s.num_user_filters
          then counts_before_filters
            ∷ map debug (dump_packet_counters s.interfaces s.prefilter_summary none false)
          else [])
    else []

-- `none`: the highlights panic.
unfoldable pub print_packet_counts :
    Ordered ℕ
    → Ordered String
    → SortFunc (ℕ × PacketCounts)
    → SortFunc (String × PacketCounts)
    → Bool
    → Summary
    → Option (List Output)
print_packet_counts ports names sort_ports sort_names debug_flag s =
    elim (print_packet_count_highlights ports names sort_ports sort_names s) [
      | none ↦ none
      | some lines ↦ some (map highlight lines ++ print_tables debug_flag s)
    ]
