-- ===== src/Pcap/Stream.antt =====
-- pcap/stream.go: how one direction of a TCP connection hands its bytes to parsers.
pub mod Fuel
pub mod Bytes
pub mod Closing
pub mod Examples
use observability_cli.Prelude.{
  ℕ, zero, suc, ◌+◌, ◌-◌, Bool, true, false, Option, none, some, List, [], ◌∷◌, ltb, nat_beq, drop,
  length, if◌then◌else◌,
}
use observability_cli.Net.{Content, dropped_bytes, Error}

abbrev pub Data : Type 0
Data = List ℕ

-- The two numbers of a packet and its time, of which assemblerCtxWithSeq consists.
pub record AssemblerCtxWithSeq : Type 0 where
  pub seq : ℕ
  pub ack : ℕ
  pub timestamp : ℕ

-- What `sg.AssemblerContext` returns at an offset.
pub data AssemblerContext : Type 0 where
  no_context : AssemblerContext
  other_context : AssemblerContext
  with_seq : AssemblerCtxWithSeq → AssemblerContext

-- reassembly.ScatterGather: the bytes that are available, those kept back before included.
pub record ScatterGather : Type 0 where
  pub data_bytes : Data
  pub is_end : Bool
  pub context_at : ℕ → AssemblerContext
  pub timestamp_at : ℕ → ℕ

-- akinet.AcceptDecision, with the factory that accepts.
pub data Decision (F : Type 0) : Type 0 where
  need_more_data : Decision F
  reject : Decision F
  accept : F → Decision F

-- What a parser's `Parse` returns: its content when it is done, the bytes that it did not use, the
-- number of bytes that it was given, and its error.
pub record Parsed : Type 0 where
  pub content : Option Content
  pub unused : Data
  pub num_bytes_consumed : ℕ
  pub err : Error

-- akinet.TCPParserFactorySelector, TCPParserFactory and TCPParser: a parser's state is passed on.
pub record Parsers (F P : Type 0) : Type 0 where
  pub select : Data → Bool → Decision F × ℕ
  pub create_parser : F → ℕ → ℕ → ℕ → P
  pub parse : P → Data → Bool → P × Parsed

pub record Sent : Type 0 where
  pub observation_time : ℕ
  pub final_packet_time : ℕ
  pub content : Content

-- `out_chan` has what was sent, the last first; the addresses that toPNT adds are constant. `kept`
-- is what `sg.KeepFrom` keeps for the next call. The last three are the package's counters.
pub record TcpFlow (P : Type 0) : Type 0 where
  pub bidi_id : ℕ
  pub current_parser : Option (P × AssemblerCtxWithSeq)
  pub unused_accept_buf : Data
  pub kept : Data
  pub out_chan : List Sent
  pub count_nil_assembler_context : ℕ
  pub count_nil_assembler_context_after_parse : ℕ
  pub count_bad_assembler_context_type : ℕ

unfoldable pub new_tcp_flow : {P : Type 0} → ℕ → TcpFlow P
new_tcp_flow bidi_id = record {
  bidi_id = bidi_id;
  current_parser = none;
  unused_accept_buf = [];
  kept = [];
  out_chan = [];
  count_nil_assembler_context = 0;
  count_nil_assembler_context_after_parse = 0;
  count_bad_assembler_context_type = 0;
}

-- A time of zero is not known; `now` is the clock's.
unfoldable pub to_pnt : ℕ → ℕ → ℕ → Content → Sent
to_pnt now first last content =
    let first' = if nat_beq first 0 then now else first in
    record {
      observation_time = first';
      final_packet_time = if nat_beq last 0 then first' else last;
      content = content;
    }

module _ {P : Type 0} (now : ℕ) where
  unfoldable pub emit : TcpFlow P → ℕ → ℕ → Content → TcpFlow P
  emit f first last content = record f { out_chan = to_pnt now first last content ∷ f.out_chan }

  unfoldable pub handle_unparseable : TcpFlow P → ℕ → ℕ → TcpFlow P
  handle_unparseable f t size = if ltb 0 size then emit f t t (dropped_bytes size) else f

unfoldable pub keep_from : {P : Type 0} → TcpFlow P → ScatterGather → ℕ → TcpFlow P
keep_from f sg n = record f { kept = drop n sg.data_bytes }

unfoldable pub clear_parser : {P : Type 0} → TcpFlow P → TcpFlow P
clear_parser f = record f { current_parser = none }

unfoldable pub count_context : {P : Type 0} → TcpFlow P → AssemblerContext → TcpFlow P
count_context f no_context = record f {
  count_nil_assembler_context = suc f.count_nil_assembler_context;
}
count_context f _ = record f {
  count_bad_assembler_context_type = suc f.count_bad_assembler_context_type;
}

-- The end of a parse: the time of the call's context `ac`, or, without one, that of the start.
unfoldable pub parse_end : {P : Type 0} → TcpFlow P → Option ℕ → ℕ → TcpFlow P × ℕ
parse_end f (some t) parse_start = (f, t)
parse_end f none parse_start = (
  record f {
    count_nil_assembler_context_after_parse = suc f.count_nil_assembler_context_after_parse;
  },
  parse_start,
)

-- What is left to do after the choice of a parser: nothing, or to give it the data.
pub data Chosen (P : Type 0) : Type 0 where
  returns : TcpFlow P → Chosen P
  gives : TcpFlow P → P → AssemblerCtxWithSeq → Data → Chosen P

-- What was left unused is looked at once more, or kept for the next call.
pub data Next (P : Type 0) : Type 0 where
  done : TcpFlow P → Next P
  again : TcpFlow P → ℕ → Next P

unfoldable pub after_content : {P : Type 0} → TcpFlow P → ScatterGather → Data → Next P
after_content f sg [] = done f
after_content f sg (b ∷ unused) =
    let from = length sg.data_bytes - length (b ∷ unused) in
    if sg.is_end then again f from else done (keep_from f sg from)

unfoldable pub after_parse :
    {P : Type 0}
    → ℕ
    → TcpFlow P
    → ScatterGather
    → Option ℕ
    → AssemblerCtxWithSeq
    → P
    → Parsed
    → Next P
after_parse now f sg ac ctx p parsed = elim parsed.err [
  | some _ ↦ done (clear_parser (handle_unparseable now f ctx.timestamp parsed.num_bytes_consumed))
  | none ↦ elim parsed.content [
    | none ↦ done (record f { current_parser = some (p, ctx) })
    | some pnc ↦
        let (f', end) = parse_end f ac ctx.timestamp in
        after_content (clear_parser (emit now f' ctx.timestamp end pnc)) sg parsed.unused
  ]
]

-- The end of a flow in the middle of a parse, and before a parser was selected.
unfoldable pub give_up : {P : Type 0} → ℕ → TcpFlow P → ℕ → Parsed → TcpFlow P
give_up now f t parsed = elim parsed.err [
  | some _ ↦ handle_unparseable now f t parsed.num_bytes_consumed
  | none ↦ elim parsed.content [
    | none ↦ f
    | some pnc ↦ handle_unparseable now (emit now f t t pnc) t (length parsed.unused)
  ]
]

unfoldable pub flush_buffer : {P : Type 0} → ℕ → TcpFlow P → TcpFlow P
flush_buffer now f =
    let size = length f.unused_accept_buf in
    if ltb 0 size then emit now f now now (dropped_bytes size) else f

module _ {F P : Type 0} (parsers : Parsers F P) (now : ℕ) where
  -- `case akinet.Accept`, with the context at the parser's first byte and the time of the data's.
  unfoldable pub accept_with : TcpFlow P → AssemblerContext → ℕ → F → Data → Chosen P
  accept_with f (with_seq ctx) t fact pkt_data =
      gives f (parsers.create_parser fact f.bidi_id ctx.seq ctx.ack) ctx pkt_data
  accept_with f c t fact pkt_data =
      returns (handle_unparseable now (count_context f c) t (length pkt_data))

  -- The cases of a decision, on the data that was not discarded, at the offset where it stands.
  unfoldable pub decide : TcpFlow P → ScatterGather → ℕ → ℕ → Data → Decision F → Chosen P
  decide f sg ignore_count offset pkt_data need_more_data =
      returns (record (keep_from f sg offset) { unused_accept_buf = pkt_data })
  decide f sg ignore_count offset pkt_data reject = returns (record f { unused_accept_buf = [] })
  decide f sg ignore_count offset pkt_data (accept fact) =
      accept_with (record f { unused_accept_buf = [] }) (sg.context_at offset)
        (sg.timestamp_at ignore_count) fact pkt_data

  -- A new parser for `pkt_data`, the data after the first `ignore_count` bytes.
  unfoldable pub choose : TcpFlow P → ScatterGather → ℕ → Data → Chosen P
  choose f sg ignore_count pkt_data =
      let (decision, discard_front) = parsers.select pkt_data sg.is_end in
      decide (handle_unparseable now f (sg.timestamp_at ignore_count) discard_front) sg ignore_count
        (ignore_count + discard_front) (drop discard_front pkt_data) decision

  unfoldable pub choose_parser : TcpFlow P → ScatterGather → ℕ → Data → Chosen P
  choose_parser f sg ignore_count pkt_data = elim f.current_parser [
    | some (p, ctx) ↦ gives f p ctx pkt_data
    | none ↦ choose f sg ignore_count pkt_data
  ]

  unfoldable pub step : TcpFlow P → ScatterGather → Option ℕ → ℕ → Next P
  step f sg ac ignore_count =
      elim (choose_parser f sg ignore_count (drop ignore_count sg.data_bytes)) [
        | returns f' ↦ done f'
        | gives f' p ctx pkt_data ↦
            let (p', parsed) = parsers.parse p pkt_data sg.is_end in
            after_parse now f' sg ac ctx p' parsed
      ]

  -- `none`: out of fuel.
  unfoldable pub reassembled_with_ignore :
      ℕ → TcpFlow P → ScatterGather → Option ℕ → ℕ → Option (TcpFlow P)
  reassembled_with_ignore zero f sg ac ignore_count = none
  reassembled_with_ignore (suc fuel) f sg ac ignore_count = elim (step f sg ac ignore_count) [
    | done f' ↦ some f'
    | again f' n ↦ reassembled_with_ignore fuel f' sg ac n
  ]

  unfoldable pub reassembled : TcpFlow P → ScatterGather → Option ℕ → Option (TcpFlow P)
  reassembled f sg ac =
      reassembled_with_ignore (2 + length sg.data_bytes) (record f { kept = [] }) sg ac 0

  unfoldable pub reassembly_complete : TcpFlow P → TcpFlow P
  reassembly_complete f = elim f.current_parser [
    | some (p, ctx) ↦ clear_parser (give_up now f ctx.timestamp (parsers.parse p [] true).1)
    | none ↦ flush_buffer now f
  ]
