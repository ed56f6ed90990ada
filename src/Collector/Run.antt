-- ===== src/Collector/Run.antt =====
-- Runs of a collector (trace/collector.go), and the collector that a test stands on: it remembers
-- what it was given.
use observability_cli.Prelude.{
  ◌≡◌, refl, none, List, [], ◌∷◌, ◌++◌, append_assoc, append-nil, sym, ◌∙◌,
}
use observability_cli.Net.{Traffic}
use observability_cli.Collector.{Collector}

module _ {S : Type 0} (c : Collector S) where
  -- The state after a sequence of calls of `Process`; the callers go on after an error.
  unfoldable pub process_all : S → List Traffic → S
  process_all s [] = s
  process_all s (t ∷ ts) = process_all (c.process s t).0 ts

  pub process_all-append :
      (s : S) (ts us : List Traffic) → process_all s (ts ++ us) ≡ process_all (process_all s ts) us
  unfolding process_all
  process_all-append s [] us = refl
  process_all-append s (t ∷ ts) us = process_all-append (c.process s t).0 ts us

-- The state is what came in, oldest first.
abbrev pub recorder : Collector (List Traffic)
recorder = record { process = λ s t. (s ++ t ∷ [], none); close = λ s. (s, none) }

pub process_all-recorder : (s ts : List Traffic) → process_all recorder s ts ≡ s ++ ts
unfolding process_all
process_all-recorder s [] = sym (append-nil s)
process_all-recorder s (t ∷ ts) = process_all-recorder (s ++ t ∷ []) ts ∙ append_assoc s (t ∷ []) ts
