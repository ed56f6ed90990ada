-- ===== src/Pcap/Connection/Examples.antt =====
-- A connection of pcap/stream.go with messages of three bytes each way.
use observability_cli.Prelude.{ℕ, ◌+◌, ◌≡◌, ◌≢◌, refl, true, false, none, some, List, [], ◌∷◌, min}
use observability_cli.Net.{source_initiator, dest_initiator}
use observability_cli.Pcap.Stream.{
  with_seq, new_tcp_flow, reassembled, reassembled_with_ignore, step, choose_parser, choose, decide,
  accept_with, after_parse, after_content, parse_end, keep_from, clear_parser, count_context,
  handle_unparseable, emit, to_pnt,
}
use observability_cli.Pcap.Stream.Examples.{threes, size, threes-Accounts, ends-three}
use observability_cli.Pcap.Stream.Closing.{Delivery}
use observability_cli.Pcap.Connection.{
  client_to_server, server_to_client, Segment, Flows, TcpStream, new_tcp_stream, accept,
  stream_complete, packet_metadata, metadata, put_back, flow_of, set_flow, new_flows, reverse,
  reassembled_sg,
}
use observability_cli.Pcap.Connection.Bytes.{
  Event, accepts, delivers, delivered_in, handle, kept_of, run_stream, sent, kept_in, buffered_in,
  run_stream_complete,
}
use observability_cli.Pcap.Connection.Initiator.{augment_with-reply}
use observability_cli.TcpTracker.{new_connection, augment_with}

abbrev syn : Segment
syn = record {
  src_port = 5000;
  dst_port = 80;
  syn = true;
  ack = false;
  fin = false;
  rst = false;
  payload_length = 0;
}

abbrev syn_ack : Segment
syn_ack = record syn { src_port = 80; dst_port = 5000; ack = true }

-- One delivery of the bytes at time 30.
abbrev bytes : List ℕ → Delivery
bytes b = record {
  fresh = b;
  is_end = false;
  context_at = λ _. with_seq (record { seq = 1; ack = 1; timestamp = 20 });
  timestamp_at = λ _. 20;
  context = some 30;
  now = 30;
}

abbrev exchange : List Event
exchange =
    accepts syn_ack server_to_client 11
    ∷ delivers client_to_server (bytes (1 ∷ 2 ∷ 3 ∷ 4 ∷ []))
    ∷ delivers server_to_client (bytes (5 ∷ 6 ∷ []))
    ∷ []

abbrev opened : TcpStream ℕ
opened = accept (new_tcp_stream 7 1 2) syn client_to_server 10

abbrev ended : TcpStream ℕ
ended = elim (run_stream threes opened exchange) [ none ↦ opened | some c ↦ c ]

run_stream-ended : run_stream threes opened exchange ≡ some ended
unfolding run_stream handle kept_of accept put_back flow_of set_flow new_flows reverse
    new_tcp_stream reassembled_sg new_tcp_flow reassembled reassembled_with_ignore step
    choose_parser choose decide accept_with after_parse after_content parse_end keep_from
    clear_parser count_context handle_unparseable emit to_pnt
run_stream-ended = refl

-- One byte of the client is kept, and the two of the server are reported as dropped.
run_stream_complete_example :
    (fs : Flows ℕ) × (ended.flows ≡ some fs)
    × (sent threes size (λ p. min p 2) (stream_complete threes ended server_to_client 40).out_chan
          + kept_in threes size (λ p. min p 2) threes-Accounts (λ _. refl) fs
        ≡ delivered_in exchange
          + buffered_in threes size (λ p. min p 2) threes-Accounts (λ _. refl) fs)
run_stream_complete_example =
    run_stream_complete threes size (λ p. min p 2) threes-Accounts (λ _. refl) ends-three 40 7 1 2
      syn client_to_server 10 exchange server_to_client ended run_stream-ended

augment_with-reply_example :
    let info =
      augment_with
        (new_connection (metadata opened syn 10) (packet_metadata opened syn))
        (metadata opened syn_ack 11)
        (packet_metadata opened syn_ack) in
    (◌≢◌ {A = ℕ} 5000 80 → info.tcp_metadata.initiator ≡ source_initiator)
    × (◌≡◌ {A = ℕ} 5000 80 → info.tcp_metadata.initiator ≡ dest_initiator)
augment_with-reply_example = augment_with-reply opened syn syn_ack 10 11 refl refl refl
