-- ===== src/Pcap/Connection/Initiator.antt =====
-- The direction that tcp_conn_tracker/tcp_conn_tracker.go reads off the metadata that pcap/stream.go
-- sends with each packet.
use observability_cli.Prelude.{ℕ, ◌≡◌, ◌≢◌, refl, true, nat_beq_iff, arith}
use observability_cli.Net.{source_initiator, dest_initiator}
use observability_cli.TcpTracker.Infer.{infer_initiator}
use observability_cli.TcpTracker.{new_connection, augment_with}
use observability_cli.Pcap.Connection.{Segment, TcpStream, packet_metadata, metadata}

-- The connection of a stream's first packet, after the reply SYN ACK from the other end: the tracker
-- has the source of the first packet as the initiator, as is right, if the two ports of the
-- connection differ, and its destination if they are the same.
pub augment_with-reply :
    {P : Type 0} (c : TcpStream P) (s0 s1 : Segment) (t0 t1 : ℕ)
    → s1.src_port ≡ s0.dst_port
    → s1.syn ≡ true
    → s1.ack ≡ true
    → let info =
        augment_with
          (new_connection (metadata c s0 t0) (packet_metadata c s0))
          (metadata c s1 t1)
          (packet_metadata c s1) in
      (s0.src_port ≢ s0.dst_port → info.tcp_metadata.initiator ≡ source_initiator)
      × (s0.src_port ≡ s0.dst_port → info.tcp_metadata.initiator ≡ dest_initiator)
unfolding augment_with new_connection metadata packet_metadata infer_initiator
augment_with-reply c s0 s1 t0 t1 reply syn ack =
    let at_home = (nat_beq_iff c.net_src c.net_src).1 refl in
    (
      λ differ.
          ground (arith, syn, ack, at_home, (nat_beq_iff s0.src_port s1.src_port).0, differ, reply),
      λ same.
          ground (arith, syn, ack, at_home, (nat_beq_iff s0.src_port s1.src_port).1, same, reply),
    )
