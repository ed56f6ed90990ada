-- ===== src/Pcap/Packets/Isolation.antt =====
-- The reassembly of pcap/net_parse.go is not disturbed by what is not TCP.
use mathlib.Core.Path.{subst}
use observability_cli.Prelude.{
  ◌≡◌, refl, sym, ◌∙◌, Bool, true, false, Option, some, List, [], ◌∷◌, filter_by, if_cases, arith,
}
use observability_cli.Pcap.Packets.{
  NetworkLayer, TransportLayer, tcp_layer, Assembler, Input, packet_arrives, packets_end, ticks,
  Parser, sends, assembled, transport_to_traffic, packet_to_parsed_network_traffic, handle_input,
  run_parser,
}

-- Segments of TCP over a network layer.
abbrev is_tcp : Option NetworkLayer → Option TransportLayer → Bool
is_tcp (some l) (some (tcp_layer tcp seq ack)) = true
is_tcp _ _ = false

-- All but the packets that are not TCP.
abbrev pub feeds_assembler : Input → Bool
feeds_assembler (packet_arrives packet now) = is_tcp packet.network_layer packet.transport_layer
feeds_assembler packets_end = true
feeds_assembler (ticks now) = true

-- Two parsers with assemblers in one state.
abbrev Agree : {A : Type 0} → Parser A → Parser A → Type 0
Agree p q = (p.assembler ≡ q.assembler) × (p.closed ≡ q.closed)

module _ {A : Type 0} (lib : Assembler A) where
  skipped-Agree :
      (p q : Parser A) (i : Input)
      → feeds_assembler i ≡ false
      → Agree p q
      → Agree (handle_input lib p i) q
  unfolding handle_input packet_to_parsed_network_traffic transport_to_traffic sends
  skipped-Agree p q (packet_arrives packet now) skip h = ground (arith, skip, h.0, h.1)
  skipped-Agree p q packets_end skip h = absurd (cc)
  skipped-Agree p q (ticks now) skip h = absurd (cc)

  handle_input-Agree :
      (p q : Parser A) (i : Input) → Agree p q → Agree (handle_input lib p i) (handle_input lib q i)
  unfolding handle_input packet_to_parsed_network_traffic transport_to_traffic sends assembled
  handle_input-Agree p q (packet_arrives packet now) h = ground (arith, h.0, h.1)
  handle_input-Agree p q packets_end h = ground (arith, h.0, h.1)
  handle_input-Agree p q (ticks now) h = ground (arith, h.0, h.1)

  run_parser_closed : (p : Parser A) (is : List Input) → p.closed ≡ true → run_parser lib p is ≡ p
  unfolding run_parser
  run_parser_closed p [] e = refl
  run_parser_closed p (i ∷ is) e = ground (arith, e)

  open_step :
      (q : Parser A) (i : Input) (is : List Input)
      → q.closed ≡ false
      → run_parser lib q (i ∷ is) ≡ run_parser lib (handle_input lib q i) is
  unfolding run_parser
  open_step q i is e = ground (arith, e)

  run_parser-Agree :
      (p q : Parser A) (is : List Input)
      → Agree p q
      → Agree (run_parser lib p is) (run_parser lib q (filter_by feeds_assembler is))
  unfolding run_parser
  run_parser-Agree p q [] h = h
  run_parser-Agree p q (i ∷ is) h =
      if_cases (λ r. Agree r (run_parser lib q (filter_by feeds_assembler (i ∷ is)))) p.closed
        (λ e.
          subst (Agree p)
            (sym (run_parser_closed q (filter_by feeds_assembler (i ∷ is)) (sym (h.1) ∙ e))) h)
        λ opened.
          if_cases (λ js. Agree (run_parser lib (handle_input lib p i) is) (run_parser lib q js))
            (feeds_assembler i)
            (λ _.
              subst (Agree (run_parser lib (handle_input lib p i) is))
                (sym (open_step q i (filter_by feeds_assembler is) (sym (h.1) ∙ opened)))
                (run_parser-Agree (handle_input lib p i) (handle_input lib q i) is
                  (handle_input-Agree p q i h)))
            λ skip. run_parser-Agree (handle_input lib p i) q is (skipped-Agree p q i skip h)

  -- Whatever else is captured, the assembler ends in the state that it reaches on the TCP packets,
  -- the ticks and the end of the packets alone, and the goroutine ends at the same time.
  pub run_parser-feeds_assembler :
      (p : Parser A) (is : List Input)
      → ((run_parser lib p is).assembler
          ≡ (run_parser lib p (filter_by feeds_assembler is)).assembler)
        × ((run_parser lib p is).closed ≡ (run_parser lib p (filter_by feeds_assembler is)).closed)
  run_parser-feeds_assembler p is = run_parser-Agree p p is (refl, refl)
