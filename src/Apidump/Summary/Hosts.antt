-- ===== src/Apidump/Summary/Hosts.antt =====
-- Which hosts apidump/summary.go prints.
use mathlib.Core.Path.{subst}
use native.Mathlib.Nat.{div-lt_iff_lt-mul, le-div_iff_mul-le}
use observability_cli.Prelude.{
  ℕ, suc, ◌+◌, ◌*◌, ◌≤◌, ◌<◌, ◌≡◌, refl, ◌⊎◌, inl, inr, true, false, Bool-cases, List, [], ◌∷◌,
  String, take, drop, length, arith,
}
use observability_cli.Trace.Telemetry.{PacketCounts}
use observability_cli.Apidump.Summary.{host_count, total_count, stops_at_host, print_up_to}

module _ (total : ℕ) where
  -- The loop stops at the front of the hosts, if there are any: with the host the share would be
  -- 81% or more, or the host is below 3% and two are printed already.
  abbrev pub StopsAt : ℕ → ℕ → List (String × PacketCounts) → Type 0
  StopsAt i so_far [] = Unit
  StopsAt i so_far ((h, c) ∷ hosts) =
      (81 * total ≤ (so_far + host_count c) * 100) ⊎ ((host_count c * 100 < 3 * total) × (2 ≤ i))

  -- The loop goes on at each of these hosts.
  abbrev pub GoesOn : ℕ → ℕ → List (String × PacketCounts) → Type 0
  GoesOn i so_far [] = Unit
  GoesOn i so_far ((h, c) ∷ hosts) =
      ((so_far + host_count c) * 100 < 81 * total)
      × (i < 2 ⊎ 3 * total ≤ host_count c * 100)
      × GoesOn (suc i) (so_far + host_count c) hosts

  -- `n` more hosts are printed: the loop goes on at them, and stops behind.
  abbrev pub IsCut : ℕ → ℕ → List (String × PacketCounts) → ℕ → Type 0
  IsCut i so_far hosts n =
      (n ≤ length hosts)
      × GoesOn i so_far (take n hosts)
      × StopsAt (i + n) (so_far + total_count (take n hosts)) (drop n hosts)

  -- Percentages are rounded down.
  module _ (positive : 0 < total) where
    stops_at_host-true :
        (i so_far count : ℕ)
        → stops_at_host total i so_far count ≡ true
        → (81 * total ≤ so_far * 100) ⊎ ((count * 100 < 3 * total) × (2 ≤ i))
    unfolding stops_at_host
    stops_at_host-true i so_far count e = ground (
      arith,
      e,
      le-div_iff_mul-le {k = total} {x = 81} {y = so_far * 100} positive,
      div-lt_iff_lt-mul {k = total} {x = count * 100} {y = 3} positive,
    )

    stops_at_host-false :
        (i so_far count : ℕ)
        → stops_at_host total i so_far count ≡ false
        → (so_far * 100 < 81 * total) × (i < 2 ⊎ 3 * total ≤ count * 100)
    unfolding stops_at_host
    stops_at_host-false i so_far count e = ground (
      arith,
      e,
      div-lt_iff_lt-mul {k = total} {x = so_far * 100} {y = 81} positive,
      le-div_iff_mul-le {k = total} {x = 3} {y = count * 100} positive,
    )

  IsCut-suc :
      (i so_far : ℕ) (h : String) (c : PacketCounts) (hosts : List (String × PacketCounts)) (n : ℕ)
      → ((so_far + host_count c) * 100 < 81 * total)
      → (i < 2 ⊎ 3 * total ≤ host_count c * 100)
      → IsCut (suc i) (so_far + host_count c) hosts n
      → IsCut i so_far ((h, c) ∷ hosts) (suc n)
  IsCut-suc i so_far h c hosts n a b (le, on, stop) = (
    omega (arith, le),
    (a, b, on),
    subst (λ j. StopsAt j (so_far + total_count (take (suc n) ((h, c) ∷ hosts))) (drop n hosts))
        (omega arith) (subst (λ t. StopsAt (suc i + n) t (drop n hosts)) (omega arith) stop),
  )

  front :
      (i so_far : ℕ) (h : String) (c : PacketCounts) (hosts : List (String × PacketCounts))
      → (81 * total ≤ (so_far + host_count c) * 100) ⊎ ((host_count c * 100 < 3 * total) × (2 ≤ i))
      → StopsAt (i + 0) (so_far + 0) ((h, c) ∷ hosts)
  front i so_far h c hosts stop =
      subst (λ j. StopsAt j (so_far + 0) ((h, c) ∷ hosts)) (omega arith)
        (subst (λ t. StopsAt i t ((h, c) ∷ hosts)) (omega arith) stop)

  print_up_to-IsCut_from :
      0 < total
      → (i so_far up_to : ℕ) (hosts : List (String × PacketCounts)) → i ≡ up_to
      → (n : ℕ) × ((print_up_to total i so_far up_to hosts ≡ up_to + n) × IsCut i so_far hosts n)
  unfolding print_up_to
  print_up_to-IsCut_from positive i so_far up_to [] e = (0, (omega arith, (omega arith, tt, tt)))
  print_up_to-IsCut_from positive i so_far up_to ((h, c) ∷ hosts) e =
      let so_far' = so_far + host_count c in
      elim (Bool-cases (stops_at_host total i so_far' (host_count c))) [
        | inl stop ↦ (
          0,
          (
            ground (arith, stop),
            (
              omega arith,
              tt,
              front i so_far h c hosts (stops_at_host-true positive i so_far' (host_count c) stop),
            ),
          ),
        )
        | inr go ↦
            let (n, (q, cut)) =
              print_up_to-IsCut_from positive (suc i) so_far' (suc i) hosts refl in
            let (share, large) = stops_at_host-false positive i so_far' (host_count c) go in
            (suc n, (ground (arith, go, q, e), IsCut-suc i so_far h c hosts n share large cut))
      ]

  -- Of sorted hosts, with some traffic `total`, the ones printed are the front that ends before the
  -- first host with which all that is printed would have 81% of the traffic or more, or that has less
  -- than 3% while two are printed already. So the hosts printed have less than 81% of the traffic,
  -- and a first host with 81% or more is not printed.
  pub print_up_to-IsCut :
      (hosts : List (String × PacketCounts))
      → 0 < total
      → IsCut 0 0 hosts (print_up_to total 0 0 0 hosts)
  print_up_to-IsCut hosts positive =
      let (n, (q, cut)) = print_up_to-IsCut_from positive 0 0 0 hosts refl in
      subst (IsCut 0 0 hosts) (omega (arith, q)) cut
