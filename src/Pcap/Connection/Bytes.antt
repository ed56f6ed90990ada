-- ===== src/Pcap/Connection/Bytes.antt =====
-- The bytes of both directions of a TCP connection of pcap/stream.go.
use mathlib.Core.Path.{subst}
use observability_cli.Prelude.{
  ℕ, ◌+◌, ◌≡◌, ◌≢◌, refl, true, Option, none, some, List, [], ◌∷◌, ◌++◌, map, arith, length,
  option_cases,
}
use observability_cli.Net.{Content, Traffic, TcpPacket, tcp_packet}
use observability_cli.Pcap.Stream.{Data, Parsers, Sent, TcpFlow, new_tcp_flow, reassembly_complete}
use observability_cli.Pcap.Stream.Bytes.{Accounts, reported_in, reported, waiting}
use observability_cli.Pcap.Stream.Closing.{
  Delivery, gathered, TotalIf, reassembled-TotalIf, buffered, reassembly_complete-reported,
}
use observability_cli.Pcap.Connection.{
  Direction, client_to_server, server_to_client, reverse, Segment, Endpoints, as_traffic, Flows,
  flow_of, set_flow, TcpStream, new_tcp_stream, new_flows, metadata, accept, put_back,
  reassembled_sg, complete_flow, stream_complete,
}

-- The calls of the assembler, after the first packet.
pub data Event : Type 0 where
  accepts : Segment → Direction → ℕ → Event
  delivers : Direction → Delivery → Event

abbrev pub delivered_in : List Event → ℕ
delivered_in [] = 0
delivered_in (accepts tcp dir t ∷ es) = delivered_in es
delivered_in (delivers dir d ∷ es) = length d.fresh + delivered_in es

-- What is kept back in a direction.
unfoldable pub kept_of : {P : Type 0} → Option (Flows P) → Direction → Data
kept_of none dir = []
kept_of (some fs) dir = (flow_of fs dir).1.kept

module _ {F P : Type 0} (parsers : Parsers F P) where
  unfoldable pub handle : TcpStream P → Event → Option (TcpStream P)
  handle c (accepts tcp dir t) = some (accept c tcp dir t)
  handle c (delivers dir d) =
      reassembled_sg parsers c dir (gathered (kept_of c.flows dir) d) d.context d.now

  unfoldable pub run_stream : TcpStream P → List Event → Option (TcpStream P)
  run_stream c [] = some c
  run_stream c (e ∷ es) = elim (handle c e) [ none ↦ none | some c' ↦ run_stream c' es ]

  module _ (size : Content → ℕ) (held : P → ℕ) where
    abbrev pub sent : List Traffic → ℕ
    sent [] = 0
    sent (t ∷ ts) = size t.content + sent ts

    sent-as_traffic :
        (e : Endpoints) (ss : List Sent) (ts : List Traffic)
        → sent (map (as_traffic e) ss ++ ts) ≡ reported_in size held ss + sent ts
    unfolding as_traffic
    sent-as_traffic e [] ts = omega arith
    sent-as_traffic e (s ∷ ss) ts = omega (arith, sent-as_traffic e ss ts)

    -- What a flow accounts for, and both together.
    abbrev flow_total : TcpFlow P → ℕ
    flow_total f = reported size held f + waiting size held f + length f.kept

    abbrev flows_total : Flows P → ℕ
    flows_total fs = flow_total fs.from_client.1 + flow_total fs.from_server.1

    put_back-flows :
        (c : TcpStream P) (fs : Flows P) (dir : Direction) (e : Endpoints) (f : TcpFlow P)
        → (put_back c fs dir e f).flows ≡ some (set_flow fs dir (e, record f { out_chan = [] }))
    unfolding put_back
    put_back-flows c fs dir e f = refl

    put_back-total :
        (c : TcpStream P) (fs : Flows P) (dir : Direction) (f : TcpFlow P)
        → let e = (flow_of fs dir).0 in
          sent (put_back c fs dir e f).out_chan
            + flows_total (set_flow fs dir (e, record f { out_chan = [] }))
            + flow_total (flow_of fs dir).1
          ≡ sent c.out_chan + flows_total fs + flow_total f
    unfolding put_back set_flow flow_of
    put_back-total c fs client_to_server f =
        omega (arith, sent-as_traffic fs.from_client.0 f.out_chan c.out_chan)
    put_back-total c fs server_to_client f =
        omega (arith, sent-as_traffic fs.from_server.0 f.out_chan c.out_chan)

    -- The stream has its flows, and accounts for `n` bytes.
    abbrev StreamIf : ℕ → Option (TcpStream P) → Type 0
    StreamIf n none = Unit
    StreamIf n (some c) =
        (fs : Flows P) × (c.flows ≡ some fs) × (sent c.out_chan + flows_total fs ≡ n)

    module _ (accounts : Accounts parsers size held)
        (weightless : (p : TcpPacket) → size (tcp_packet p) ≡ 0) where
      accept-StreamIf :
          (c : TcpStream P) (fs : Flows P) (tcp : Segment) (dir : Direction) (t : ℕ)
          → c.flows ≡ some fs
          → StreamIf (sent c.out_chan + flows_total fs) (some (accept c tcp dir t))
      unfolding accept metadata
      accept-StreamIf c fs tcp dir t e = (fs, rw (e) refl, omega (arith, weightless _))

      -- A flow that accounts for `n` more bytes is put back.
      flow-StreamIf :
          (c : TcpStream P) (fs : Flows P) (dir : Direction) (o : Option (TcpFlow P)) (n : ℕ)
          → TotalIf parsers size held accounts (flow_total (flow_of fs dir).1 + n) o
          → StreamIf
              (sent c.out_chan + flows_total fs + n)
              (elim o [ none ↦ none | some f ↦ some (put_back c fs dir (flow_of fs dir).0 f) ])
      flow-StreamIf c fs dir none n h = tt
      flow-StreamIf c fs dir (some f) n h = (
        set_flow fs dir ((flow_of fs dir).0, record f { out_chan = [] }),
        put_back-flows c fs dir (flow_of fs dir).0 f,
        omega (arith, h, put_back-total c fs dir f),
      )

      delivers-StreamIf :
          (c : TcpStream P) (fs : Flows P) (dir : Direction) (d : Delivery)
          → c.flows ≡ some fs
          → StreamIf (sent c.out_chan + flows_total fs + length d.fresh) (handle c (delivers dir d))
      unfolding handle reassembled_sg kept_of
      delivers-StreamIf c fs dir d e = rw (e) (
          flow-StreamIf (record c { flows = some fs }) fs dir _ (length d.fresh)
            (reassembled-TotalIf parsers size held accounts (flow_of fs dir).1 d))

      run_stream-StreamIf :
          (c : TcpStream P) (fs : Flows P) (es : List Event)
          → c.flows ≡ some fs
          → StreamIf (sent c.out_chan + flows_total fs + delivered_in es) (run_stream c es)
      unfolding run_stream handle
      run_stream-StreamIf c fs [] e = (fs, e, omega arith)
      run_stream-StreamIf c fs (accepts tcp dir t ∷ es) e =
          let (fs', e', total) = accept-StreamIf c fs tcp dir t e in
          subst (λ m. StreamIf m (run_stream (accept c tcp dir t) es)) (omega (arith, total))
            (run_stream-StreamIf (accept c tcp dir t) fs' es e')
      run_stream-StreamIf c fs (delivers dir d ∷ es) e =
          option_cases
            (StreamIf (sent c.out_chan + flows_total fs + (length d.fresh + delivered_in es)))
            (handle c (delivers dir d)) (λ _. tt)
            λ c' q.
              let (fs', e', total) =
                subst (StreamIf (sent c.out_chan + flows_total fs + length d.fresh)) q
                  (delivers-StreamIf c fs dir d e) in
              subst (λ m. StreamIf m (run_stream c' es)) (omega (arith, total))
                (run_stream-StreamIf c' fs' es e')

      -- What is kept for a further call, and what stands in the buffers, in both directions.
      abbrev pub kept_in : Flows P → ℕ
      kept_in fs = length fs.from_client.1.kept + length fs.from_server.1.kept

      abbrev pub buffered_in : Flows P → ℕ
      buffered_in fs =
          buffered parsers size held accounts fs.from_client.1
          + buffered parsers size held accounts fs.from_server.1

      -- What the end of a flow adds.
      abbrev ending : TcpFlow P → ℕ
      ending f = reported size held f + waiting size held f + buffered parsers size held accounts f

      module _
          (ends : (p : P)
            → (parsers.parse p [] true).1.err ≡ none
            → (parsers.parse p [] true).1.content ≢ none)
          (now : ℕ) where
        put_back-sent :
            (c : TcpStream P) (fs : Flows P) (dir : Direction)
            → sent
                (put_back c fs dir
                  (flow_of fs dir).0
                  (reassembly_complete parsers now (flow_of fs dir).1)).out_chan
              ≡ sent c.out_chan + ending (flow_of fs dir).1
        unfolding put_back
        put_back-sent c fs dir =
            let (e, f) = flow_of fs dir in
            omega (
              arith,
              sent-as_traffic e (reassembly_complete parsers now f).out_chan c.out_chan,
              reassembly_complete-reported parsers size held accounts now f ends,
            )

        stream_complete-sent :
            (c : TcpStream P) (fs : Flows P) (first : Direction)
            → c.flows ≡ some fs
            → sent (stream_complete parsers c first now).out_chan
              ≡ sent c.out_chan + ending fs.from_client.1 + ending fs.from_server.1
        unfolding stream_complete complete_flow put_back set_flow flow_of reverse
        stream_complete-sent c fs client_to_server e = rw (e) (
            let c0 : TcpStream P = record c { flows = some fs } in
            let done = reassembly_complete parsers now fs.from_client.1 in
            let c1 = put_back c0 fs client_to_server fs.from_client.0 done in
            let fs1 =
              set_flow fs client_to_server (fs.from_client.0, record done { out_chan = [] }) in
            omega
              (arith, put_back-sent c0 fs client_to_server, put_back-sent c1 fs1 server_to_client))
        stream_complete-sent c fs server_to_client e = rw (e) (
            let c0 : TcpStream P = record c { flows = some fs } in
            let done = reassembly_complete parsers now fs.from_server.1 in
            let c1 = put_back c0 fs server_to_client fs.from_server.0 done in
            let fs1 =
              set_flow fs server_to_client (fs.from_server.0, record done { out_chan = [] }) in
            omega
              (arith, put_back-sent c0 fs server_to_client, put_back-sent c1 fs1 client_to_server))

        first-StreamIf :
            (bidi_id src dst : ℕ) (tcp : Segment) (dir : Direction) (t : ℕ)
            → StreamIf 0 (some (accept (new_tcp_stream bidi_id src dst) tcp dir t))
        unfolding accept metadata new_tcp_stream new_flows new_tcp_flow set_flow reverse
        first-StreamIf bidi_id src dst tcp client_to_server t =
            (_, refl, omega (arith, weightless _))
        first-StreamIf bidi_id src dst tcp server_to_client t =
            (_, refl, omega (arith, weightless _))

        -- Where the parsers account for their bytes, every one that is told of the end of the data
        -- fails or finishes, and the packets' metadata count for none: after the first packet and
        -- any packets and calls of the assembler that return, in any directions, and the end of the
        -- connection, all the bytes delivered are reported, but for those that were kept for a
        -- further call and do not stand in the buffer of a flow that waits for its parser to be
        -- selected.
        pub run_stream_complete :
            (bidi_id src dst : ℕ) (tcp : Segment) (dir : Direction) (t : ℕ) (es : List Event)
            (first : Direction) (c : TcpStream P)
            → run_stream (accept (new_tcp_stream bidi_id src dst) tcp dir t) es ≡ some c
            → (fs : Flows P) × (c.flows ≡ some fs)
              × (sent (stream_complete parsers c first now).out_chan + kept_in fs
                  ≡ delivered_in es + buffered_in fs)
        run_stream_complete bidi_id src dst tcp dir t es first c e =
            let c0 = accept (new_tcp_stream bidi_id src dst) tcp dir t in
            let (fs0, open0, total0) = first-StreamIf bidi_id src dst tcp dir t in
            let (fs, opened, total) =
              subst (StreamIf (sent c0.out_chan + flows_total fs0 + delivered_in es)) e
                (run_stream-StreamIf c0 fs0 es open0) in
            (fs, opened, omega (arith, total0, total, stream_complete-sent c fs first opened))
