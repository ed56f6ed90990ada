-- ===== src/Pcap/Packets/Examples.antt =====
-- Packets of pcap/net_parse.go, with an assembler that counts segments.
use observability_cli.Prelude.{ℕ, suc, ◌≡◌, refl, true, false, none, some, List, [], ◌∷◌, filter_by}
use observability_cli.Pcap.Connection.{Segment}
use observability_cli.Pcap.Packets.{
  NetworkLayer, tcp_layer, udp_layer, Packet, Assembler, Input, packet_arrives, packets_end, ticks,
  Parser, sends, assembled, dropped, transport_to_traffic, packet_to_parsed_network_traffic,
  handle_input, run_parser,
}
use observability_cli.Pcap.Packets.Isolation.{feeds_assembler, run_parser-feeds_assembler}

abbrev counting : Assembler ℕ
counting = record {
  assemble_with_context = λ n _ _ _. (suc n, []);
  flush_with_options = λ n _ _. (n, []);
  flush_all = λ n. (n, []);
}

abbrev layer : NetworkLayer
layer = record { src_ip = 1; dst_ip = 2; layer_payload = 40 }

abbrev segment : Segment
segment = record {
  src_port = 5000;
  dst_port = 80;
  syn = false;
  ack = true;
  fin = false;
  rst = false;
  payload_length = 3;
}

abbrev tcp_packet : Packet
tcp_packet = record {
  network_layer = some layer;
  transport_layer = some (tcp_layer segment 1 1);
  timestamp = 9;
}

abbrev udp_packet : Packet
udp_packet = record tcp_packet { transport_layer = some (udp_layer 53 5300 12); timestamp = 0 }

abbrev captured : List Input
captured =
    packet_arrives udp_packet 8
    ∷ packet_arrives tcp_packet 9
    ∷ packet_arrives (record udp_packet { network_layer = none }) 10
    ∷ ticks 11
    ∷ packets_end
    ∷ []

abbrev start : Parser ℕ
start = record { assembler = 0; observed = []; out = []; closed = false }

run_parser-feeds_assembler_example :
    ((run_parser counting start captured).assembler
      ≡ (run_parser counting start (filter_by feeds_assembler captured)).assembler)
    × ((run_parser counting start captured).closed
        ≡ (run_parser counting start (filter_by feeds_assembler captured)).closed)
run_parser-feeds_assembler_example = run_parser-feeds_assembler counting start captured

captured_out : (run_parser counting start captured).out ≡ dropped layer 53 5300 12 8 ∷ []
unfolding run_parser handle_input packet_to_parsed_network_traffic transport_to_traffic sends
    assembled
captured_out = refl
