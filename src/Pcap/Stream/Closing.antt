-- ===== src/Pcap/Stream/Closing.antt =====
-- A whole flow of pcap/stream.go: the calls of the assembler, and its end.
use mathlib.Core.Path.{subst}
use observability_cli.Prelude.{
  ℕ, ◌+◌, ◌≡◌, ◌≢◌, refl, Bool, true, Option, none, some, List, [], ◌∷◌, ◌++◌, arith, length,
  length-append, ltb, if_cases, option_cases,
}
use observability_cli.Net.{Content, dropped_bytes}
use observability_cli.Pcap.Stream.{
  Data, AssemblerContext, ScatterGather, Parsers, TcpFlow, new_tcp_flow, emit, clear_parser,
  reassembled, reassembly_complete, give_up, flush_buffer,
}
use observability_cli.Pcap.Stream.Bytes.{
  Accounts, HasIf, reported, waiting, emit-reported, handle_unparseable-reported,
  reassembled_with_ignore-HasIf,
}

-- One call of ReassembledSG: the bytes that are new, those kept back coming first.
pub record Delivery : Type 0 where
  pub fresh : Data
  pub is_end : Bool
  pub context_at : ℕ → AssemblerContext
  pub timestamp_at : ℕ → ℕ
  pub context : Option ℕ
  pub now : ℕ

abbrev pub gathered : Data → Delivery → ScatterGather
gathered kept d = record {
  data_bytes = kept ++ d.fresh;
  is_end = d.is_end;
  context_at = d.context_at;
  timestamp_at = d.timestamp_at;
}

abbrev pub delivered : List Delivery → ℕ
delivered [] = 0
delivered (d ∷ ds) = length d.fresh + delivered ds

module _ {F P : Type 0} (parsers : Parsers F P) where
  unfoldable pub run : TcpFlow P → List Delivery → Option (TcpFlow P)
  run f [] = some f
  run f (d ∷ ds) = elim (reassembled parsers d.now f (gathered f.kept d) d.context) [
    | none ↦ none
    | some f' ↦ run f' ds
  ]

  module _ (size : Content → ℕ) (held : P → ℕ) (accounts : Accounts parsers size held) where
    abbrev pub TotalIf : ℕ → Option (TcpFlow P) → Type 0
    TotalIf n none = Unit
    TotalIf n (some f) = reported size held f + waiting size held f + length f.kept ≡ n

    pub reassembled-TotalIf :
        (f : TcpFlow P) (d : Delivery)
        → TotalIf
            (reported size held f + waiting size held f + length f.kept + length d.fresh)
            (reassembled parsers d.now f (gathered f.kept d) d.context)
    unfolding reassembled
    reassembled-TotalIf f d =
        let n = reported size held f + waiting size held f + length f.kept + length d.fresh in
        to_total n _ (
          reassembled_with_ignore-HasIf parsers d.now size held accounts _ (record f { kept = [] })
            (gathered f.kept d) d.context 0 n refl (omega (arith, length-append f.kept d.fresh)))
      where
        to_total :
            (n : ℕ) (o : Option (TcpFlow P))
            → HasIf parsers d.now size held accounts n o
            → TotalIf n o
        to_total n none h = tt
        to_total n (some g) h = h

    run-TotalIf :
        (f : TcpFlow P) (ds : List Delivery)
        → TotalIf
            (reported size held f + waiting size held f + length f.kept + delivered ds)
            (run f ds)
    unfolding run
    run-TotalIf f [] = omega arith
    run-TotalIf f (d ∷ ds) =
        let n = reported size held f + waiting size held f + length f.kept + delivered (d ∷ ds) in
        option_cases (TotalIf n) (reassembled parsers d.now f (gathered f.kept d) d.context)
          (λ _. tt)
          λ g e.
            let total : TotalIf
                (reported size held f + waiting size held f + length f.kept + length d.fresh)
                (some g) =
              subst
                (TotalIf
                  (reported size held f + waiting size held f + length f.kept + length d.fresh))
                e (reassembled-TotalIf f d) in
            subst (λ m. TotalIf m (run g ds)) (omega (arith, total)) (run-TotalIf g ds)

    -- Where the parsers account for their bytes: after any calls of the assembler that return, what
    -- was reported, what a parser holds and what is kept for the next call are together as many
    -- bytes as were delivered.
    pub run-accounted :
        (bidi_id : ℕ) (ds : List Delivery) (f : TcpFlow P)
        → run (new_tcp_flow bidi_id) ds ≡ some f
        → reported size held f + waiting size held f + length f.kept ≡ delivered ds
    unfolding new_tcp_flow
    run-accounted bidi_id ds f e = subst (TotalIf (delivered ds)) e (
        subst (λ m. TotalIf m (run (new_tcp_flow bidi_id) ds)) (omega arith)
          (run-TotalIf (new_tcp_flow bidi_id) ds))

    -- What waits for a parser to be selected, of a flow that has none.
    abbrev pub buffered : TcpFlow P → ℕ
    buffered f = elim f.current_parser [ none ↦ length f.unused_accept_buf | some _ ↦ 0 ]

    give_up-reported :
        (now : ℕ) (f : TcpFlow P) (t : ℕ) (p : P)
        → let parsed = (parsers.parse p [] true).1 in
          (parsed.err ≡ none → parsed.content ≢ none)
          → reported size held (give_up now f t parsed) ≡ reported size held f + held p
    unfolding give_up
    give_up-reported now f t p ends =
        let parsed = (parsers.parse p [] true).1 in
        option_cases (λ (g : TcpFlow P). reported size held g ≡ reported size held f + held p)
          parsed.err
          (λ ok.
            option_cases (λ (g : TcpFlow P). reported size held g ≡ reported size held f + held p)
              parsed.content (λ none_left. absurd (ends ok none_left))
              λ pnc finished. omega (
                arith,
                emit-reported size held now f t t pnc,
                (handle_unparseable-reported size held accounts.dropped now (emit now f t t pnc) t
                    (length parsed.unused)).0,
                accounts.finishes p [] true pnc ok finished,
              ))
          λ e failed. omega (
            arith,
            (handle_unparseable-reported size held accounts.dropped now f t
                parsed.num_bytes_consumed).0,
            accounts.fails p [] true e failed,
          )

    flush_buffer-reported :
        (now : ℕ) (f : TcpFlow P)
        → reported size held (flush_buffer now f)
          ≡ reported size held f + length f.unused_accept_buf
    unfolding flush_buffer
    flush_buffer-reported now f =
        let n = length f.unused_accept_buf in
        if_cases (λ (g : TcpFlow P). reported size held g ≡ reported size held f + n) (ltb 0 n)
          (λ _.
            omega
              (arith, emit-reported size held now f now now (dropped_bytes n), accounts.dropped n))
          (λ empty. ground (arith, empty))

    pub reassembly_complete-reported :
        (now : ℕ) (f : TcpFlow P)
        → ((p : P)
            → (parsers.parse p [] true).1.err ≡ none
            → (parsers.parse p [] true).1.content ≢ none)
        → reported size held (reassembly_complete parsers now f)
          ≡ reported size held f + waiting size held f + buffered f
    unfolding reassembly_complete clear_parser
    reassembly_complete-reported now f ends =
        let all = reported size held f + waiting size held f + buffered f in
        option_cases (λ (g : TcpFlow P). reported size held g ≡ all) f.current_parser
          (λ e. ground (arith, e, flush_buffer-reported now f))
          λ (p, ctx) e. ground (arith, e, give_up-reported now f ctx.timestamp p (ends p))

    -- If also every parser that is told of the end of the data fails or finishes: after any calls
    -- of the assembler that return, and the end of the flow, all the bytes delivered are reported,
    -- but for those that were kept for a further call and do not stand in the buffer of a flow that
    -- waits for its parser to be selected.
    pub run_complete :
        (bidi_id now : ℕ) (ds : List Delivery) (f : TcpFlow P)
        → ((p : P)
            → (parsers.parse p [] true).1.err ≡ none
            → (parsers.parse p [] true).1.content ≢ none)
        → run (new_tcp_flow bidi_id) ds ≡ some f
        → reported size held (reassembly_complete parsers now f) + length f.kept
          ≡ delivered ds + buffered f
    run_complete bidi_id now ds f ends e =
        omega (arith, run-accounted bidi_id ds f e, reassembly_complete-reported now f ends)
