-- ===== src/TcpTracker/Infer.antt =====
-- The two inferences of `augmentWith` of tcp_conn_tracker/tcp_conn_tracker.go.
use observability_cli.Prelude.{Bool, true, false, ◌&&◌, if◌then◌else◌}
use observability_cli.Net.{
  TcpPacket, Initiator, unknown_initiator, source_initiator, dest_initiator, EndState,
  connection_open, connection_closed, connection_reset,
}

abbrev pub is_unknown : Initiator → Bool
is_unknown unknown_initiator = true
is_unknown _ = false

abbrev pub is_open : EndState → Bool
is_open connection_open = true
is_open _ = false

-- `same_source`: the packet comes from the endpoint that the connection's first packet came from.
unfoldable pub infer_initiator : Initiator → Bool → TcpPacket → Initiator
infer_initiator initiator same_source metadata =
    if is_unknown initiator && metadata.syn
    then (if metadata.ack
        then (if same_source then dest_initiator else source_initiator)
        else (if same_source then source_initiator else dest_initiator))
    else initiator

unfoldable pub next_end_state : EndState → TcpPacket → EndState
next_end_state end_state metadata =
    let end_state' = if metadata.fin && is_open end_state then connection_closed else end_state in
    if metadata.rst then connection_reset else end_state'
