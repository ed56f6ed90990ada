-- ===== src/Pcap/Stream/Fuel.antt =====
-- How often pcap/stream.go goes through the data of one call.
use observability_cli.Prelude.{
  ℕ, zero, suc, ◌+◌, ◌-◌, ◌≤◌, ◌<◌, ◌≡◌, ◌≢◌, refl, Bool, Option, none, some, [], ◌∷◌, arith, drop,
  length, length-drop, if_cases, option_cases,
}
use observability_cli.Pcap.Stream.{
  Data, AssemblerCtxWithSeq, AssemblerContext, no_context, other_context, with_seq, ScatterGather,
  Decision, need_more_data, reject, accept, Parsed, Parsers, TcpFlow, clear_parser, Chosen, returns,
  gives, accept_with, decide, choose, choose_parser, Next, done, again, after_content, after_parse,
  step, reassembled_with_ignore, reassembled,
}

-- A parser that is done leaves no more than it was given, and a new one leaves less, if it leaves
-- anything.
pub record IsProgressing {F P : Type 0} (parsers : Parsers F P) : Type 0 where
  pub leaves :
      (p : P) (data_bytes : Data) (end : Bool)
      → length (parsers.parse p data_bytes end).1.unused ≤ length data_bytes
  pub created :
      (fact : F) (b s a : ℕ) (data_bytes : Data) (end : Bool)
      → let rest = (parsers.parse (parsers.create_parser fact b s a) data_bytes end).1.unused in
        length rest ≤ length data_bytes - 1

abbrev has_parser : {P : Type 0} → TcpFlow P → ℕ
has_parser f = elim f.current_parser [ none ↦ 0 | some _ ↦ 1 ]

no_parser : {P : Type 0} (f : TcpFlow P) → f.current_parser ≡ none → has_parser f ≡ 0
no_parser f e = ground (arith, e)

has_parser-le : {P : Type 0} (f : TcpFlow P) → has_parser f ≤ 1
has_parser-le f = ground arith

-- A further round starts without a parser, and has less to do than `n`.
abbrev IsLess : {P : Type 0} → ScatterGather → ℕ → Next P → Type 0
IsLess sg n (done _) = Unit
IsLess sg n (again f i) = (f.current_parser ≡ none) × (length (drop i sg.data_bytes) < n)

after_content-IsLess :
    {P : Type 0} (f : TcpFlow P) (sg : ScatterGather) (unused : Data) (n : ℕ)
    → f.current_parser ≡ none
    → length unused ≤ length sg.data_bytes
    → length unused ≤ n - 1
    → IsLess sg n (after_content f sg unused)
unfolding after_content
after_content-IsLess f sg [] n e h l = tt
after_content-IsLess f sg (b ∷ unused) n e h l =
    let from = length sg.data_bytes - length (b ∷ unused) in
    if_cases (IsLess sg n) sg.is_end (λ _. (e, omega (arith, h, l, length-drop from sg.data_bytes)))
      (λ _. tt)

after_parse-IsLess :
    {P : Type 0} (now : ℕ) (f : TcpFlow P) (sg : ScatterGather) (ac : Option ℕ)
    (ctx : AssemblerCtxWithSeq) (p : P) (parsed : Parsed) (n : ℕ)
    → length parsed.unused ≤ length sg.data_bytes
    → length parsed.unused ≤ n - 1
    → IsLess sg n (after_parse now f sg ac ctx p parsed)
unfolding after_parse clear_parser
after_parse-IsLess now f sg ac ctx p parsed n h l =
    option_cases (IsLess sg n) parsed.err
      (λ _.
        option_cases (IsLess sg n) parsed.content (λ _. tt)
          λ pnc _. after_content-IsLess _ sg parsed.unused n refl h l)
      (λ _ _. tt)

module _ {F P : Type 0} (parsers : Parsers F P) (now : ℕ) (progress : IsProgressing parsers) where
  -- Data for a parser, that leaves less than `n` of it.
  abbrev Leaves : ScatterGather → ℕ → Chosen P → Type 0
  Leaves sg n (returns _) = Unit
  Leaves sg n (gives f p ctx pkt_data) =
      (length (parsers.parse p pkt_data sg.is_end).1.unused ≤ n - 1)
      × (length pkt_data ≤ length sg.data_bytes)

  accept_with-Leaves :
      (f : TcpFlow P) (sg : ScatterGather) (c : AssemblerContext) (t : ℕ) (fact : F)
      (pkt_data : Data) (n : ℕ)
      → length pkt_data ≤ length sg.data_bytes
      → length pkt_data ≤ n
      → Leaves sg n (accept_with parsers now f c t fact pkt_data)
  unfolding accept_with
  accept_with-Leaves f sg (with_seq ctx) t fact pkt_data n h l =
      (omega (arith, progress.created fact f.bidi_id ctx.seq ctx.ack pkt_data sg.is_end), h)
  accept_with-Leaves f sg no_context t fact pkt_data n h l = tt
  accept_with-Leaves f sg other_context t fact pkt_data n h l = tt

  decide-Leaves :
      (f : TcpFlow P) (sg : ScatterGather) (i o : ℕ) (pkt_data : Data) (d : Decision F) (n : ℕ)
      → length pkt_data ≤ length sg.data_bytes
      → length pkt_data ≤ n
      → Leaves sg n (decide parsers now f sg i o pkt_data d)
  unfolding decide
  decide-Leaves f sg i o pkt_data need_more_data n h l = tt
  decide-Leaves f sg i o pkt_data reject n h l = tt
  decide-Leaves f sg i o pkt_data (accept fact) n h l =
      accept_with-Leaves _ sg (sg.context_at o) (sg.timestamp_at i) fact pkt_data n h l

  choose_parser-Leaves :
      (f : TcpFlow P) (sg : ScatterGather) (i : ℕ) (pkt_data : Data) (n : ℕ)
      → length pkt_data ≤ length sg.data_bytes
      → length pkt_data + has_parser f ≤ n
      → Leaves sg n (choose_parser parsers now f sg i pkt_data)
  unfolding choose_parser choose
  choose_parser-Leaves f sg i pkt_data n h l = go f.current_parser refl
    where
      go :
          (o : Option (P × AssemblerCtxWithSeq))
          → f.current_parser ≡ o
          → Leaves sg n (choose_parser parsers now (record f { current_parser = o }) sg i pkt_data)
      go none e =
          let discard_front = (parsers.select pkt_data sg.is_end).1 in
          decide-Leaves _ sg i (i + discard_front) (drop discard_front pkt_data) _ n
            (omega (arith, h, length-drop discard_front pkt_data))
            (omega (arith, l, length-drop discard_front pkt_data))
      go (some (p, ctx)) e = (ground (arith, e, l, progress.leaves p pkt_data sg.is_end), h)

  step-IsLess :
      (f : TcpFlow P) (sg : ScatterGather) (ac : Option ℕ) (i n : ℕ)
      → length (drop i sg.data_bytes) + has_parser f ≤ n
      → IsLess sg n (step parsers now f sg ac i)
  unfolding step
  step-IsLess f sg ac i n l = go (choose_parser parsers now f sg i (drop i sg.data_bytes)) (
      choose_parser-Leaves f sg i (drop i sg.data_bytes) n
        (omega (arith, length-drop i sg.data_bytes)) l)
    where
      go :
          (c : Chosen P)
          → Leaves sg n c
          → IsLess sg n (elim c [
            | returns f' ↦ done f'
            | gives f' p ctx pkt_data ↦
                let (p', parsed) = parsers.parse p pkt_data sg.is_end in
                after_parse now f' sg ac ctx p' parsed
          ])
      go (returns f') h = tt
      go (gives f' p ctx pkt_data) (less, h) =
          let (p', parsed) = parsers.parse p pkt_data sg.is_end in
          after_parse-IsLess now f' sg ac ctx p' parsed n
            (omega (arith, h, progress.leaves p pkt_data sg.is_end)) less

  -- With fuel above the number of bytes left, one more if a parser is under way, the loop ends.
  reassembled_with_ignore-ends :
      (fuel : ℕ) (f : TcpFlow P) (sg : ScatterGather) (ac : Option ℕ) (i : ℕ)
      → length (drop i sg.data_bytes) + has_parser f < fuel
      → reassembled_with_ignore parsers now fuel f sg ac i ≢ none
  unfolding reassembled_with_ignore
  reassembled_with_ignore-ends zero f sg ac i h = absurd (omega (arith, h))
  reassembled_with_ignore-ends (suc fuel) f sg ac i h =
      go (step parsers now f sg ac i)
        (step-IsLess f sg ac i (length (drop i sg.data_bytes) + has_parser f) (omega arith))
        (reassembled_with_ignore-ends fuel)
    where
      go :
          (x : Next P)
          → IsLess sg (length (drop i sg.data_bytes) + has_parser f) x
          → ((f' : TcpFlow P) (sg' : ScatterGather) (ac' : Option ℕ) (n : ℕ)
              → length (drop n sg'.data_bytes) + has_parser f' < fuel
              → reassembled_with_ignore parsers now fuel f' sg' ac' n ≢ none)
          → ◌≢◌ {A = Option (TcpFlow P)}
              (elim x [
                | done f' ↦ some f'
                | again f' n ↦ reassembled_with_ignore parsers now fuel f' sg ac n
              ])
              none
      go (done f') l rest = λ e. cc
      go (again f' n) (e, l) rest = rest f' sg ac n (omega (arith, h, l, no_parser f' e))

  -- If parsers that are done leave less than they were given, or no more if they had data before,
  -- every call of ReassembledSG returns: each further round for what was left has fewer bytes.
  pub reassembled-ends :
      (f : TcpFlow P) (sg : ScatterGather) (ac : Option ℕ) → reassembled parsers now f sg ac ≢ none
  unfolding reassembled
  reassembled-ends f sg ac =
      let bound = has_parser-le f in
      reassembled_with_ignore-ends (2 + length sg.data_bytes) (record f { kept = [] }) sg ac 0
        (omega (arith, bound))
