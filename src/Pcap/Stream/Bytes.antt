-- ===== src/Pcap/Stream/Bytes.antt =====
-- Where the bytes of pcap/stream.go end up.
use mathlib.Core.Path.{subst}
use observability_cli.Prelude.{
  ℕ, zero, suc, ◌+◌, ◌-◌, ◌≤◌, ◌≡◌, refl, ap, ◌∙◌, Bool, Option, none, some, List, [], ◌∷◌, arith,
  drop, length, length-drop, ltb, if_cases, option_cases,
}
use observability_cli.Net.{Content, dropped_bytes}
use observability_cli.Pcap.Stream.{
  Data, AssemblerCtxWithSeq, AssemblerContext, no_context, other_context, with_seq, ScatterGather,
  Decision, need_more_data, reject, accept, Parsers, Sent, TcpFlow, to_pnt, emit,
  handle_unparseable, keep_from, clear_parser, count_context, parse_end, Chosen, returns, gives,
  accept_with, decide, choose, choose_parser, Next, done, again, after_content, after_parse, step,
  reassembled_with_ignore,
}

-- How a library of parsers accounts for bytes: `size` is the number of bytes that a content stands
-- for, and `held` the number that a parser has taken in so far. A selector discards at most what it
-- has, and all of it when it rejects; a parser that fails tells all the bytes that it was given; one
-- that is done divides them between its content and what it leaves; and else it holds them.
pub record Accounts {F P : Type 0} (parsers : Parsers F P) (size : Content → ℕ) (held : P → ℕ)
    : Type 0 where
  pub dropped : (n : ℕ) → size (dropped_bytes n) ≡ n
  pub discards : (d : Data) (end : Bool) → (parsers.select d end).1 ≤ length d
  pub rejects :
      (d : Data) (end : Bool)
      → (parsers.select d end).0 ≡ reject
      → (parsers.select d end).1 ≡ length d
  pub creates : (fact : F) (b s a : ℕ) → held (parsers.create_parser fact b s a) ≡ 0
  pub fails :
      (p : P) (d : Data) (end : Bool) (e : _)
      → (parsers.parse p d end).1.err ≡ some e
      → (parsers.parse p d end).1.num_bytes_consumed ≡ held p + length d
  pub finishes :
      (p : P) (d : Data) (end : Bool) (c : Content)
      → (parsers.parse p d end).1.err ≡ none
      → (parsers.parse p d end).1.content ≡ some c
      → size c + length (parsers.parse p d end).1.unused ≡ held p + length d
  pub goes_on :
      (p : P) (d : Data) (end : Bool)
      → (parsers.parse p d end).1.err ≡ none
      → (parsers.parse p d end).1.content ≡ none
      → held (parsers.parse p d end).0 ≡ held p + length d
  pub leaves : (p : P) (d : Data) (end : Bool) → length (parsers.parse p d end).1.unused ≤ length d

module _ {P : Type 0} (size : Content → ℕ) (held : P → ℕ) where
  abbrev pub reported_in : List Sent → ℕ
  reported_in [] = 0
  reported_in (s ∷ rest) = size s.content + reported_in rest

  -- The bytes that the traffic sent so far stands for, and those that wait in a parser.
  abbrev pub reported : TcpFlow P → ℕ
  reported f = reported_in f.out_chan

  abbrev pub waiting : TcpFlow P → ℕ
  waiting f = elim f.current_parser [ none ↦ 0 | some (p, _) ↦ held p ]

  nothing_waits : (f : TcpFlow P) → f.current_parser ≡ none → waiting f ≡ 0
  nothing_waits f e = ground (arith, e)

  parser_waits :
      (f : TcpFlow P) (p : P) (ctx : AssemblerCtxWithSeq)
      → f.current_parser ≡ some (p, ctx)
      → waiting f ≡ held p
  parser_waits f p ctx e =
      ap
        (λ (o : Option (P × AssemblerCtxWithSeq)). elim o as (λ _. ℕ) [
          | none ↦ 0
          | some (q, _) ↦ held q
        ])
        e

  pub emit-reported :
      (now : ℕ) (f : TcpFlow P) (a b : ℕ) (c : Content)
      → reported (emit now f a b c) ≡ reported f + size c
  unfolding emit to_pnt
  emit-reported now f a b c = omega arith

  abbrev pub SameButSent : TcpFlow P → TcpFlow P → Type 0
  SameButSent f g =
      (g.current_parser ≡ f.current_parser)
      × (g.kept ≡ f.kept)
      × (g.unused_accept_buf ≡ f.unused_accept_buf)

  emit-kept : (now : ℕ) (f : TcpFlow P) (a b : ℕ) (c : Content) → (emit now f a b c).kept ≡ f.kept
  unfolding emit
  emit-kept now f a b c = refl

  pub handle_unparseable-reported :
      ((n : ℕ) → size (dropped_bytes n) ≡ n)
      → (now : ℕ) (f : TcpFlow P) (t n : ℕ)
      → let g = handle_unparseable now f t n in (reported g ≡ reported f + n) × SameButSent f g
  unfolding handle_unparseable emit
  handle_unparseable-reported dropped now f t n =
      if_cases (λ (g : TcpFlow P). (reported g ≡ reported f + n) × SameButSent f g) (ltb 0 n)
        (λ _. (
          emit-reported now f t t (dropped_bytes n) ∙ ap (λ m. reported f + m) (dropped n),
          (refl, refl, refl),
        ))
        (λ small. (ground (arith, small), (refl, refl, refl)))

  -- All the bytes of a state are `n`: those after the choice of a parser, which is given `m` at
  -- most, and those after a round.
  abbrev ChosenHas : ℕ → ℕ → Chosen P → Type 0
  ChosenHas m n (returns f) = (f.current_parser ≡ none) × (reported f + length f.kept ≡ n)
  ChosenHas m n (gives f p _ d) =
      (f.kept ≡ []) × (reported f + held p + length d ≡ n) × (length d ≤ m)

  abbrev NextHas : ScatterGather → ℕ → Next P → Type 0
  NextHas sg n (done f) = reported f + waiting f + length f.kept ≡ n
  NextHas sg n (again f i) =
      (f.current_parser ≡ none) × (f.kept ≡ []) × (reported f + length (drop i sg.data_bytes) ≡ n)

  after_content-NextHas :
      (f : TcpFlow P) (sg : ScatterGather) (unused : Data)
      → f.current_parser ≡ none
      → f.kept ≡ []
      → length unused ≤ length sg.data_bytes
      → NextHas sg (reported f + length unused) (after_content f sg unused)
  unfolding after_content keep_from
  after_content-NextHas f sg [] e k h = omega (arith, nothing_waits f e, ap length k)
  after_content-NextHas f sg (b ∷ unused) e k h =
      let from = length sg.data_bytes - length (b ∷ unused) in
      if_cases (NextHas sg (reported f + length (b ∷ unused))) sg.is_end
        (λ _. (e, k, omega (arith, h, length-drop from sg.data_bytes)))
        (λ _. omega (arith, h, nothing_waits f e, length-drop from sg.data_bytes))

  parse_end-frame :
      (f : TcpFlow P) (ac : Option ℕ) (t : ℕ)
      → ((parse_end f ac t).0.out_chan ≡ f.out_chan) × ((parse_end f ac t).0.kept ≡ f.kept)
  unfolding parse_end
  parse_end-frame f none t = (refl, refl)
  parse_end-frame f (some a) t = (refl, refl)

module _ {F P : Type 0} (parsers : Parsers F P) (now : ℕ) (size : Content → ℕ) (held : P → ℕ)
    (accounts : Accounts parsers size held) where
  accept_with-ChosenHas :
      (f : TcpFlow P) (c : AssemblerContext) (t : ℕ) (fact : F) (d : Data)
      → f.current_parser ≡ none
      → f.kept ≡ []
      → (m : ℕ) → length d ≤ m
      → ChosenHas size held m
          (reported size held f + length d)
          (accept_with parsers now f c t fact d)
  unfolding accept_with count_context
  accept_with-ChosenHas f (with_seq ctx) t fact d e k m h =
      (k, omega (arith, accounts.creates fact f.bidi_id ctx.seq ctx.ack), h)
  accept_with-ChosenHas f no_context t fact d e k m h =
      let (told, (same, still, _)) =
        handle_unparseable-reported size held accounts.dropped now (count_context f no_context) t
          (length d) in
      (same ∙ e, omega (arith, told, ap length still, ap length k))
  accept_with-ChosenHas f other_context t fact d e k m h =
      let (told, (same, still, _)) =
        handle_unparseable-reported size held accounts.dropped now (count_context f other_context) t
          (length d) in
      (same ∙ e, omega (arith, told, ap length still, ap length k))

  decide-ChosenHas :
      (f : TcpFlow P) (sg : ScatterGather) (i o : ℕ) (d : Data) (decision : Decision F)
      → f.current_parser ≡ none
      → f.kept ≡ []
      → length d ≡ length (drop o sg.data_bytes)
      → (decision ≡ reject → length d ≡ 0)
      → ChosenHas size held
          (length sg.data_bytes)
          (reported size held f + length d)
          (decide parsers now f sg i o d decision)
  unfolding decide keep_from
  decide-ChosenHas f sg i o d need_more_data e k h r = (e, omega (arith, h))
  decide-ChosenHas f sg i o d reject e k h r = (e, omega (arith, r refl, ap length k))
  decide-ChosenHas f sg i o d (accept fact) e k h r =
      accept_with-ChosenHas (record f { unused_accept_buf = [] }) (sg.context_at o)
        (sg.timestamp_at i) fact d e k (length sg.data_bytes)
        (omega (arith, h, length-drop o sg.data_bytes))

  choose-ChosenHas :
      (f : TcpFlow P) (sg : ScatterGather) (i : ℕ)
      → f.current_parser ≡ none
      → f.kept ≡ []
      → ChosenHas size held
          (length sg.data_bytes)
          (reported size held f + length (drop i sg.data_bytes))
          (choose parsers now f sg i (drop i sg.data_bytes))
  unfolding choose
  choose-ChosenHas f sg i e k =
      let d = drop i sg.data_bytes in
      let front = (parsers.select d sg.is_end).1 in
      let decision = (parsers.select d sg.is_end).0 in
      let (told, (same, still, _)) =
        handle_unparseable-reported size held accounts.dropped now f (sg.timestamp_at i) front in
      subst (λ n. ChosenHas size held (length sg.data_bytes) n (choose parsers now f sg i d))
        (omega (arith, told, accounts.discards d sg.is_end, length-drop front d))
        (decide-ChosenHas (handle_unparseable now f (sg.timestamp_at i) front) sg i (i + front)
          (drop front d) decision (same ∙ e) (still ∙ k)
          (omega (
            arith,
            length-drop front d,
            length-drop i sg.data_bytes,
            length-drop (i + front) sg.data_bytes,
          ))
          (λ q. omega (arith, length-drop front d, accounts.rejects d sg.is_end q)))

  after_parse-NextHas :
      (f : TcpFlow P) (sg : ScatterGather) (ac : Option ℕ) (ctx : AssemblerCtxWithSeq) (p : P)
      (d : Data)
      → f.kept ≡ []
      → length d ≤ length sg.data_bytes
      → let (p', parsed) = parsers.parse p d sg.is_end in
        NextHas size held sg
          (reported size held f + held p + length d)
          (after_parse now f sg ac ctx p' parsed)
  unfolding after_parse clear_parser
  after_parse-NextHas f sg ac ctx p d k h =
      let (p', parsed) = parsers.parse p d sg.is_end in
      let all = reported size held f + held p + length d in
      option_cases (NextHas size held sg all) parsed.err
        (λ ok.
          option_cases (NextHas size held sg all) parsed.content
            (λ more. omega (arith, accounts.goes_on p d sg.is_end ok more, ap length k))
            λ pnc finished.
              let (f', end) = parse_end f ac ctx.timestamp in
              let (out, kept) = parse_end-frame size held f ac ctx.timestamp in
              subst
                (λ n. NextHas size held sg n (
                  after_content (clear_parser (emit now f' ctx.timestamp end pnc)) sg
                    parsed.unused))
                (omega (
                  arith,
                  accounts.finishes p d sg.is_end pnc ok finished,
                  emit-reported size held now f' ctx.timestamp end pnc,
                  ap (reported_in size held) out,
                ))
                (after_content-NextHas size held (clear_parser (emit now f' ctx.timestamp end pnc))
                  sg parsed.unused refl
                  (emit-kept size held now f' ctx.timestamp end pnc ∙ kept ∙ k)
                  (omega (arith, h, accounts.leaves p d sg.is_end))))
        λ e failed.
          let (told, (_, kept, _)) =
            handle_unparseable-reported size held accounts.dropped now f ctx.timestamp
              parsed.num_bytes_consumed in
          omega (arith, told, ap length kept, ap length k, accounts.fails p d sg.is_end e failed)

  choose_parser-ChosenHas :
      (f : TcpFlow P) (sg : ScatterGather) (i : ℕ)
      → f.kept ≡ []
      → ChosenHas size held
          (length sg.data_bytes)
          (reported size held f + waiting size held f + length (drop i sg.data_bytes))
          (choose_parser parsers now f sg i (drop i sg.data_bytes))
  unfolding choose_parser
  choose_parser-ChosenHas f sg i k =
      let d = drop i sg.data_bytes in
      option_cases
        (ChosenHas size held (length sg.data_bytes)
          (reported size held f + waiting size held f + length d))
        f.current_parser
        (λ e.
          subst (λ n. ChosenHas size held (length sg.data_bytes) n (choose parsers now f sg i d))
            (omega (arith, nothing_waits size held f e)) (choose-ChosenHas f sg i e k))
        λ (p, ctx) e. (
          k,
          omega (arith, parser_waits size held f p ctx e),
          omega (arith, length-drop i sg.data_bytes),
        )

  step-NextHas :
      (f : TcpFlow P) (sg : ScatterGather) (ac : Option ℕ) (i : ℕ)
      → f.kept ≡ []
      → NextHas size held sg
          (reported size held f + waiting size held f + length (drop i sg.data_bytes))
          (step parsers now f sg ac i)
  unfolding step
  step-NextHas f sg ac i k =
      go (choose_parser parsers now f sg i (drop i sg.data_bytes))
        (choose_parser-ChosenHas f sg i k)
    where
      n : ℕ
      n = reported size held f + waiting size held f + length (drop i sg.data_bytes)

      go :
          (c : Chosen P)
          → ChosenHas size held (length sg.data_bytes) n c
          → NextHas size held sg n (elim c [
            | returns f' ↦ done f'
            | gives f' p ctx pkt_data ↦
                let (p', parsed) = parsers.parse p pkt_data sg.is_end in
                after_parse now f' sg ac ctx p' parsed
          ])
      go (returns f') (e, total) = omega (arith, total, nothing_waits size held f' e)
      go (gives f' p ctx d) (kept, total, h) =
          let (p', parsed) = parsers.parse p d sg.is_end in
          subst (λ t. NextHas size held sg t (after_parse now f' sg ac ctx p' parsed)) total
            (after_parse-NextHas f' sg ac ctx p d kept h)

  -- All that is reported, that a parser holds, and that is kept for the next call.
  abbrev pub accounted : TcpFlow P → ℕ
  accounted f = reported size held f + waiting size held f + length f.kept

  abbrev pub HasIf : ℕ → Option (TcpFlow P) → Type 0
  HasIf n none = Unit
  HasIf n (some f) = accounted f ≡ n

  pub reassembled_with_ignore-HasIf :
      (fuel : ℕ) (f : TcpFlow P) (sg : ScatterGather) (ac : Option ℕ) (i n : ℕ)
      → f.kept ≡ []
      → reported size held f + waiting size held f + length (drop i sg.data_bytes) ≡ n
      → HasIf n (reassembled_with_ignore parsers now fuel f sg ac i)
  unfolding reassembled_with_ignore
  reassembled_with_ignore-HasIf zero f sg ac i n k e = tt
  reassembled_with_ignore-HasIf (suc fuel) f sg ac i n k e =
      go (step parsers now f sg ac i)
        (subst (λ t. NextHas size held sg t (step parsers now f sg ac i)) e
          (step-NextHas f sg ac i k))
        (reassembled_with_ignore-HasIf fuel)
    where
      go :
          (x : Next P)
          → NextHas size held sg n x
          → ((f' : TcpFlow P) (sg' : ScatterGather) (ac' : Option ℕ) (j m : ℕ)
              → f'.kept ≡ []
              → reported size held f' + waiting size held f' + length (drop j sg'.data_bytes) ≡ m
              → HasIf m (reassembled_with_ignore parsers now fuel f' sg' ac' j))
          → HasIf n (elim x [
            | done f' ↦ some f'
            | again f' j ↦ reassembled_with_ignore parsers now fuel f' sg ac j
          ])
      go (done f') total rest = total
      go (again f' j) (none_left, kept, total) rest =
          rest f' sg ac j n kept (omega (arith, total, nothing_waits size held f' none_left))
