-- ===== src/Apidump/Summary/Ports.antt =====
-- Which ports apidump/summary.go prints lines of.
use mathlib.Core.Path.{subst}
use observability_cli.Prelude.{
  ℕ, suc, ◌+◌, ◌*◌, ◌/◌, ◌≤◌, ◌<◌, ◌≡◌, refl, ap, ◌∙◌, ◌⊎◌, inl, inr, true, false, List, [], ◌∷◌,
  ◌++◌, take, drop, length, arith, if◌then◌else◌,
}
use observability_cli.Trace.Telemetry.{PacketCounts}
use observability_cli.Apidump.Summary.{Line, lines_of_port, stops_at_port, port_lines}

abbrev pub packets_of : List (ℕ × PacketCounts) → ℕ
packets_of [] = 0
packets_of ((p, c) ∷ ports) = c.tcp_packets + packets_of ports

module _ (prefilter : ℕ → PacketCounts) (total : ℕ) where
  -- The lines of all these ports.
  abbrev pub lines_of_ports : List (ℕ × PacketCounts) → List Line
  lines_of_ports [] = []
  lines_of_ports ((p, c) ∷ ports) =
      lines_of_port p c (c.tcp_packets * 100 / total) (prefilter p) ++ lines_of_ports ports

module _ (total : ℕ) where
  -- The loop stops at the front of the ports: with the port more packets would be listed than there
  -- are, or the port is below 3% and two are listed already.
  abbrev pub StopsAt : ℕ → ℕ → List (ℕ × PacketCounts) → Type 0
  StopsAt i listed [] = Unit
  StopsAt i listed ((p, c) ∷ ports) =
      (total < listed + c.tcp_packets) ⊎ ((c.tcp_packets * 100 / total < 3) × (2 ≤ i))

  abbrev pub GoesOn : ℕ → ℕ → List (ℕ × PacketCounts) → Type 0
  GoesOn i listed [] = Unit
  GoesOn i listed ((p, c) ∷ ports) =
      (listed + c.tcp_packets ≤ total)
      × (i < 2 ⊎ 3 ≤ c.tcp_packets * 100 / total)
      × GoesOn (suc i) (listed + c.tcp_packets) ports

  abbrev pub IsCut : ℕ → ℕ → List (ℕ × PacketCounts) → ℕ → Type 0
  IsCut i listed ports n =
      (n ≤ length ports)
      × GoesOn i listed (take n ports)
      × StopsAt (i + n) (listed + packets_of (take n ports)) (drop n ports)

  stops_at_port-cases :
      (i listed packets : ℕ)
      → (stops_at_port total i listed packets ≡ true
          × ((total < listed) ⊎ ((packets * 100 / total < 3) × (2 ≤ i))))
        ⊎ (stops_at_port total i listed packets ≡ false
            × (listed ≤ total)
            × (i < 2 ⊎ 3 ≤ packets * 100 / total))
  unfolding stops_at_port
  stops_at_port-cases i listed packets = ground arith

  to_StopsAt :
      (rest : List (ℕ × PacketCounts)) (i j listed t : ℕ)
      → i ≡ j
      → listed ≡ t
      → StopsAt i listed rest
      → StopsAt j t rest
  to_StopsAt rest i j listed t e f h =
      subst (λ k. StopsAt k t rest) e (subst (λ s. StopsAt i s rest) f h)

  port_lines-IsCut_from :
      (prefilter : ℕ → PacketCounts) (i listed : ℕ) (ports : List (ℕ × PacketCounts))
      → (n : ℕ) × ((port_lines prefilter total i listed ports
            ≡ lines_of_ports prefilter total (take n ports))
          × IsCut i listed ports n)
  unfolding port_lines
  port_lines-IsCut_from prefilter i listed [] = (0, (refl, (omega arith, tt, tt)))
  port_lines-IsCut_from prefilter i listed ((p, c) ∷ ports) =
      let listed' = listed + c.tcp_packets in
      let lines = lines_of_port p c (c.tcp_packets * 100 / total) (prefilter p) in
      elim (stops_at_port-cases i listed' c.tcp_packets) [
        | inl (e, stop) ↦ (
          0,
          (
            ap (λ b. if b then [] else lines ++ port_lines prefilter total (suc i) listed' ports) e,
            (
              omega arith,
              tt,
              to_StopsAt ((p, c) ∷ ports) i (i + 0) listed (listed + 0) (omega arith) (omega arith)
                  stop,
            ),
          ),
        )
        | inr (e, fits, large) ↦
            let (n, (same, (le, on, stop))) =
              port_lines-IsCut_from prefilter (suc i) listed' ports in
            (
              suc n,
              (
                ap
                      (λ b.
                        if b then [] else lines ++ port_lines prefilter total (suc i) listed' ports)
                      e
                    ∙ ap (λ ls. lines ++ ls) same,
                (
                  omega (arith, le),
                  (fits, large, on),
                  to_StopsAt (drop n ports) (suc i + n) (i + suc n)
                      (listed' + packets_of (take n ports))
                      (listed + packets_of (take (suc n) ((p, c) ∷ ports))) (omega arith)
                      (omega arith) stop,
                ),
              ),
            )
      ]

  -- Of the sorted ports, the lines printed are those of a front, each port's in full: the one that
  -- ends before the first port with which more packets would be listed than there are in total, or
  -- that has less than 3% of them while two ports are listed already.
  pub port_lines-IsCut :
      (prefilter : ℕ → PacketCounts) (ports : List (ℕ × PacketCounts))
      → (n : ℕ) × ((port_lines prefilter total 0 0 ports
            ≡ lines_of_ports prefilter total (take n ports))
          × IsCut 0 0 ports n)
  port_lines-IsCut prefilter ports = port_lines-IsCut_from prefilter 0 0 ports
