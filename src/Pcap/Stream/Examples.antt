-- ===== src/Pcap/Stream/Examples.antt =====
-- A flow of pcap/stream.go with parsers of messages that have three bytes each.
use observability_cli.Prelude.{
  ℕ, suc, ◌+◌, ◌-◌, min, ◌≤◌, ◌≡◌, ◌≢◌, refl, ap, Bool, true, false, none, some, List, [], ◌∷◌, leb,
  nat_beq, arith, drop, length, length-drop, if◌then◌else◌,
}
use observability_cli.Net.{Content, dropped_bytes, http2_preface}
use observability_cli.Pcap.Stream.{
  Data, no_context, with_seq, Decision, need_more_data, reject, accept, Parsed, Parsers, TcpFlow,
  new_tcp_flow, to_pnt, emit, handle_unparseable, keep_from, clear_parser, count_context, parse_end,
  accept_with, decide, choose, choose_parser, after_content, after_parse, step,
  reassembled_with_ignore, reassembled, give_up, flush_buffer, reassembly_complete,
}
use observability_cli.Pcap.Stream.Fuel.{IsProgressing, reassembled-ends}
use observability_cli.Pcap.Stream.Bytes.{Accounts}
use observability_cli.Pcap.Stream.Closing.{Delivery, run}

-- A nine is not the start of a message.
abbrev pub select : Data → Bool → Decision (Unit {0}) × ℕ
select [] end = (need_more_data, 0)
select (b ∷ d) end = if nat_beq b 9 then (reject, suc (length d)) else (accept tt, 0)

-- A parser is the number of bytes that it holds, two at most.
abbrev pub parse_three : ℕ → Data → Bool → ℕ × Parsed
parse_three p d end =
    if leb 3 (min p 2 + length d)
    then (
      0,
      record {
        content = some http2_preface;
        unused = drop (3 - min p 2) d;
        num_bytes_consumed = length d;
        err = none;
      },
    )
    else (
      min p 2 + length d,
      record {
        content = none;
        unused = [];
        num_bytes_consumed = min p 2 + length d;
        err = if end then some "short" else none;
      },
    )

abbrev pub threes : Parsers (Unit {0}) ℕ
threes = record { select = select; create_parser = λ _ _ _ _. 0; parse = parse_three }

abbrev pub size : Content → ℕ
size http2_preface = 3
size (dropped_bytes n) = n
size _ = 0

leaves-three : (p : ℕ) (d : Data) (end : Bool) → length (parse_three p d end).1.unused ≤ length d
leaves-three p d end = ground (arith, length-drop (3 - min p 2) d)

threes-IsProgressing : IsProgressing threes
threes-IsProgressing = record {
  leaves = leaves-three;
  created = λ _ _ _ _ d end. ground (arith, length-drop 3 d);
}

select-rejects : (d : Data) (end : Bool) → (select d end).0 ≡ reject → (select d end).1 ≡ length d
select-rejects [] end e = ground (arith, e)
select-rejects (b ∷ d) end e = ground (arith, e)

select-discards : (d : Data) (end : Bool) → (select d end).1 ≤ length d
select-discards [] end = omega arith
select-discards (b ∷ d) end = ground arith

finishes-three :
    (p : ℕ) (d : Data) (end : Bool) (c : Content)
    → (parse_three p d end).1.err ≡ none
    → (parse_three p d end).1.content ≡ some c
    → size c + length (parse_three p d end).1.unused ≡ min p 2 + length d
finishes-three p d end c h k = ground (arith, h, k, ap size, length-drop (3 - min p 2) d)

pub ends-three :
    (p : ℕ) → (parse_three p [] true).1.err ≡ none → (parse_three p [] true).1.content ≢ none
ends-three p h = ground (arith, h)

pub threes-Accounts : Accounts threes size (λ p. min p 2)
threes-Accounts = record {
  dropped = λ _. refl;
  discards = select-discards;
  rejects = select-rejects;
  creates = λ _ _ _ _. refl;
  fails = λ p d end e h. ground (arith, h);
  finishes = finishes-three;
  goes_on = λ p d end h k. ground (arith, h, k);
  leaves = leaves-three;
}

abbrev arrives : Data → Bool → Delivery
arrives d end = record {
  fresh = d;
  is_end = end;
  context_at = λ o.
      if nat_beq o 4 then no_context else with_seq (record { seq = o; ack = 7; timestamp = 50 });
  timestamp_at = λ o. 60 + o;
  context = some 90;
  now = 99;
}

-- A message in two parts and the start of one, then one that is rejected, then one to its end.
abbrev deliveries : List Delivery
deliveries =
    arrives (1 ∷ 2 ∷ []) false
    ∷ arrives (3 ∷ 4 ∷ 5 ∷ []) false
    ∷ arrives (6 ∷ []) false
    ∷ arrives (9 ∷ 9 ∷ []) false
    ∷ arrives (1 ∷ 2 ∷ 3 ∷ 4 ∷ 5 ∷ []) true
    ∷ arrives (1 ∷ 2 ∷ 3 ∷ 4 ∷ []) false
    ∷ []

abbrev ended : TcpFlow ℕ
ended = elim (run threes (new_tcp_flow 1) deliveries) [ none ↦ new_tcp_flow 1 | some f ↦ f ]

run-ended : run threes (new_tcp_flow 1) deliveries ≡ some ended
unfolding new_tcp_flow run reassembled reassembled_with_ignore step choose_parser choose decide
    accept_with after_parse after_content parse_end give_up flush_buffer reassembly_complete
    keep_from clear_parser count_context handle_unparseable emit to_pnt
run-ended = refl

reassembled-ends_example :
    reassembled threes 99
      (new_tcp_flow 1)
      (record {
        data_bytes = 1 ∷ 2 ∷ 3 ∷ 4 ∷ 5 ∷ [];
        is_end = true;
        context_at = λ _. with_seq (record { seq = 1; ack = 7; timestamp = 50 });
        timestamp_at = λ _. 60;
      })
      none
    ≢ none
reassembled-ends_example =
    reassembled-ends threes 99 threes-IsProgressing (new_tcp_flow 1)
      (record {
        data_bytes = 1 ∷ 2 ∷ 3 ∷ 4 ∷ 5 ∷ [];
        is_end = true;
        context_at = λ _. with_seq (record { seq = 1; ack = 7; timestamp = 50 });
        timestamp_at = λ _. 60;
      })
      none
