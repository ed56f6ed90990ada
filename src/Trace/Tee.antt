-- ===== src/Trace/Tee.antt =====
-- trace/tee.go and trace/dummy_collector.go.
pub mod Runs
use observability_cli.Prelude.{none, some}
use observability_cli.Net.{Error}
use observability_cli.Collector.{Collector}

-- Both destinations are served, and the first one's error comes first.
pub first_error : Error → Error → Error
first_error none err2 = err2
first_error (some x) err2 = some x

module _ {S T : Type 0} (dst1 : Collector S) (dst2 : Collector T) where
  pub tee : Collector (S × T)
  unfolding first_error
  tee = record {
    process = λ s t.
        let (s1, err1) = dst1.process s.0 t in
        let (s2, err2) = dst2.process s.1 t in ((s1, s2), first_error err1 err2);
    close = λ s.
        let (s1, err1) = dst1.close s.0 in
        let (s2, err2) = dst2.close s.1 in ((s1, s2), first_error err1 err2);
  }

-- It does nothing.
pub dummy : Collector (Unit {0})
dummy = record { process = λ s _. (s, none); close = λ s. (s, none) }
