-- ===== src/Apidump/Summary.antt =====
-- apidump/summary.go: what is printed about the packets that were captured. A line is its kind and
-- the numbers in it; the padding of host names is left out.
pub mod Ports
pub mod Hosts
pub mod Warnings
pub mod Tables
pub mod Reading
pub mod Columns
pub mod Counted
pub mod Examples
use observability_cli.Prelude.{
  ℕ, suc, ◌+◌, ◌*◌, ◌/◌, min, Bool, true, false, not, ◌&&◌, ◌||◌, Option, none, some, List, [], ◌∷◌,
  ◌++◌, String, nat_beq, ltb, leb, take, if◌then◌else◌, Map,
}
use observability_cli.Trace.Telemetry.{PacketCounts}
use observability_cli.Trace.Stats.{PacketCounter, total_on_port, total_on_host}
use observability_cli.Trace.Stats.Top.{Ordered, SortFunc}
use observability_cli.Trace.Stats.Summary.{PacketCountSummary, summary}

pub record Summary : Type 0 where
  pub capturing_negation : Bool
  -- The names, in the order in which `range` goes through the map.
  pub interfaces : List String
  pub negation_filters : Map String String
  pub num_user_filters : ℕ
  pub filter_summary : PacketCounter
  pub prefilter_summary : PacketCounter
  pub negation_summary : PacketCounter

pub data Line : Type 0 where
  more_ports : ℕ → ℕ → Line
  top_ports : Line
  port_http : ℕ → PacketCounts → ℕ → Line
  port_mixed : ℕ → Line
  port_unusual : ℕ → Line
  port_has_http2 : ℕ → ℕ → Line
  port_filtered : ℕ → PacketCounts → ℕ → PacketCounts → Line
  port_encrypted : ℕ → PacketCounts → ℕ → Line
  port_only_http2 : ℕ → PacketCounts → ℕ → Line
  port_unparsable : ℕ → PacketCounts → ℕ → Line
  top_hosts : Line
  host_http : String → PacketCounts → Line
  host_mixed : String → Line
  host_filtered : String → ℕ → Line
  host_encrypted : String → ℕ → Line
  host_unparsable : String → Line
  assembly_problems : ℕ → ℕ → ℕ → Line
  no_packets : Line
  no_matching_packets : Line
  only_tls : ℕ → ℕ → Line
  only_unparsed : ℕ → ℕ → Line
  all_filtered : ℕ → Line
  try_native_agent : Line
  no_http_calls : Line
  no_requests : Line
  no_responses : Line

abbrev pub when : Bool → Line → List Line
when b l = if b then l ∷ [] else []

-- HTTPRequests + HTTPResponses > 0
abbrev pub has_http : PacketCounts → Bool
has_http c = ltb 0 (c.http_requests + c.http_responses)

-- The lines of a port of `c`, of which `pre` was counted before the user's filters.
unfoldable pub lines_of_port : ℕ → PacketCounts → ℕ → PacketCounts → List Line
lines_of_port p c pct pre =
    if has_http c
    then port_http p c pct
        ∷ (if ltb 0 c.tls_hello
            then port_mixed p ∷ []
            else when (ltb (c.tcp_packets * 3 / 10) c.unparsed) (port_unusual p))
      ++ when (ltb 0 c.http2_prefaces) (port_has_http2 p c.http2_prefaces)
    else if has_http pre
    then port_filtered p c pct pre ∷ []
    else if ltb 0 c.tls_hello
    then port_encrypted p c pct ∷ []
    else if ltb 0 c.http2_prefaces
    then port_only_http2 p c pct ∷ []
    else port_unparsable p c pct ∷ []

unfoldable pub lines_of_host : String → PacketCounts → PacketCounts → List Line
lines_of_host h c pre =
    if has_http c
    then host_http h c ∷ when (ltb 0 c.tls_hello) (host_mixed h)
    else if has_http pre
    then host_filtered h pre.http_requests ∷ []
    else if ltb 0 c.tls_hello
    then host_encrypted h c.tls_hello ∷ []
    else host_unparsable h ∷ []

-- Whether the loop over the ports stops at the port with index `i`, where `listed` packets are
-- listed with it.
unfoldable pub stops_at_port : ℕ → ℕ → ℕ → ℕ → Bool
stops_at_port total i listed packets =
    ltb total listed || (ltb (packets * 100 / total) 3 && leb 2 i)

-- The loop over the sorted ports, with `prefilter` for TotalOnPort.
unfoldable pub port_lines : (ℕ → PacketCounts) → ℕ → ℕ → ℕ → List (ℕ × PacketCounts) → List Line
port_lines prefilter total i listed [] = []
port_lines prefilter total i listed ((p, c) ∷ ports) =
    let listed' = listed + c.tcp_packets in
    let rest = port_lines prefilter total (suc i) listed' ports in
    if stops_at_port total i listed' c.tcp_packets
    then []
    else lines_of_port p c (c.tcp_packets * 100 / total) (prefilter p) ++ rest

-- The traffic of a host.
abbrev pub host_count : PacketCounts → ℕ
host_count c = c.http_requests + c.http_responses + c.tls_hello

abbrev pub total_count : List (String × PacketCounts) → ℕ
total_count [] = 0
total_count ((h, c) ∷ hosts) = host_count c + total_count hosts

unfoldable pub stops_at_host : ℕ → ℕ → ℕ → ℕ → Bool
stops_at_host total i so_far count =
    ltb 80 (so_far * 100 / total) || (ltb (count * 100 / total) 3 && leb 2 i)

-- The loop that finds how many of the sorted hosts to print, `up_to` so far.
unfoldable pub print_up_to : ℕ → ℕ → ℕ → ℕ → List (String × PacketCounts) → ℕ
print_up_to total i so_far up_to [] = up_to
print_up_to total i so_far up_to ((h, c) ∷ hosts) =
    let so_far' = so_far + host_count c in
    let rest = print_up_to total (suc i) so_far' (suc i) hosts in
    if stops_at_host total i so_far' (host_count c) then up_to else rest

unfoldable pub host_lines : (String → PacketCounts) → List (String × PacketCounts) → List Line
host_lines prefilter [] = []
host_lines prefilter ((h, c) ∷ hosts) =
    lines_of_host h c (prefilter h) ++ host_lines prefilter hosts

-- The tests that the ports and the hosts are sorted by.
unfoldable pub busier_port : ℕ × PacketCounts → ℕ × PacketCounts → Bool
busier_port a b = ltb b.1.tcp_packets a.1.tcp_packets

module _ (ports : Ordered ℕ) (names : Ordered String) (sort_ports : SortFunc (ℕ × PacketCounts))
    (sort_names : SortFunc (String × PacketCounts)) where
  unfoldable pub busier_host : String × PacketCounts → String × PacketCounts → Bool
  busier_host (h, left) (k, right) =
      let left_count = left.http_requests + left.tls_hello in
      let right_count = right.http_requests + right.tls_hello in
      if not (nat_beq left_count right_count)
      then ltb right_count left_count
      else if not (nat_beq left.http_requests right.http_requests)
      then ltb right.http_requests left.http_requests
      else if not (nat_beq left.tls_hello right.tls_hello)
      then ltb right.tls_hello left.tls_hello
      else names.less h k

  unfoldable pub print_port_highlights : Summary → PacketCountSummary → List Line
  print_port_highlights s top =
      port_lines (total_on_port s.prefilter_summary) top.total.tcp_packets 0 0
        (sort_ports.sort_func busier_port top.top_by_port)

  -- `none`: the division by a total of zero panics.
  unfoldable pub print_host_highlights : Summary → PacketCountSummary → Option (List Line)
  print_host_highlights s top =
      let hosts = sort_names.sort_func busier_host top.top_by_host in
      let total = total_count top.top_by_host in
      let lines =
        host_lines (total_on_host s.prefilter_summary)
          (take (print_up_to total 0 0 0 hosts) hosts) in
      elim hosts [ [] ↦ some [] | _ ∷ _ ↦ if nat_beq total 0 then none else some lines ]

  unfoldable pub print_packet_count_highlights : Summary → Option (List Line)
  print_packet_count_highlights s =
      let top = summary ports names sort_ports sort_names s.filter_summary 20 in
      let limit = top.by_port_overflow_limit in
      let overflow : List Line = elim top.by_port_overflow [
        | none ↦ []
        | some _ ↦ more_ports limit (min 20 limit) ∷ []
      ] in
      if nat_beq top.total.tcp_packets 0 then some [] else elim (print_host_highlights s top) [
        | none ↦ none
        | some hosts ↦
            some (overflow ++ (top_ports ∷ print_port_highlights s top) ++ (top_hosts ∷ hosts))
      ]

-- What PrintWarnings reads of package pcap and of the environment.
pub record Surroundings : Type 0 where
  pub count_nil_assembler_context : ℕ
  pub count_bad_assembler_context_type : ℕ
  pub count_nil_assembler_context_after_parse : ℕ
  pub in_docker : Bool
  pub has_docker_internal_host_address : Bool

-- The line that explains why there are no HTTP calls.
unfoldable pub explanation : Summary → List Line
explanation s =
    let total = s.filter_summary.total in
    if nat_beq total.tcp_packets 0
    then (if s.capturing_negation && nat_beq s.negation_summary.total.tcp_packets 0
        then no_packets ∷ []
        else no_matching_packets ∷ [])
    else if ltb 0 total.tls_hello
    then only_tls total.tls_hello total.tcp_packets ∷ []
    else if ltb 0 total.unparsed
    then only_unparsed total.tcp_packets total.unparsed ∷ []
    else when (ltb 0 s.num_user_filters && not (nat_beq s.prefilter_summary.total.http_requests 0))
        (all_filtered s.prefilter_summary.total.http_requests)

unfoldable pub is_empty : Summary → Bool
is_empty s =
    let total = s.filter_summary.total in
    nat_beq total.http_requests 0 && nat_beq total.http_responses 0

-- The report on the reassembly.
unfoldable pub problem_lines : Surroundings → List Line
problem_lines env =
    when
      (ltb 0 env.count_nil_assembler_context
        || (ltb 0 env.count_nil_assembler_context_after_parse
            || ltb 0 env.count_bad_assembler_context_type))
      (assembly_problems env.count_nil_assembler_context env.count_bad_assembler_context_type
        env.count_nil_assembler_context_after_parse)

-- The lines without any HTTP calls.
unfoldable pub lines_of_none : Surroundings → Summary → List Line
lines_of_none env s =
    explanation s
    ++ (when (env.in_docker && env.has_docker_internal_host_address) try_native_agent
        ++ no_http_calls ∷ [])

unfoldable pub print_warnings : Surroundings → Summary → List Line
print_warnings env s =
    let no_request = nat_beq s.filter_summary.total.http_requests 0 in
    let no_response = nat_beq s.filter_summary.total.http_responses 0 in
    problem_lines env
    ++ (if no_request && no_response
        then lines_of_none env s
        else when no_request no_requests ++ when no_response no_responses)
