-- ===== src/Trace/Tee/Runs.antt =====
-- A tee of trace/tee.go over a whole run.
use observability_cli.Prelude.{◌≡◌, refl, ◌↔◌, none, some, List, [], ◌∷◌, arith}
use observability_cli.Net.{Traffic, Error}
use observability_cli.Collector.{Collector}
use observability_cli.Collector.Run.{process_all}
use observability_cli.Trace.Tee.{first_error, tee}

module _ {S T : Type 0} (dst1 : Collector S) (dst2 : Collector T) where
  -- Each destination of a tee ends in the state that it reaches alone on the same traffic, whatever
  -- errors the other one returns.
  pub process_all-tee :
      (s : S) (t : T) (ts : List Traffic)
      → process_all (tee dst1 dst2) (s, t) ts ≡ (process_all dst1 s ts, process_all dst2 t ts)
  unfolding process_all tee
  process_all-tee s t [] = refl
  process_all-tee s t (x ∷ ts) = process_all-tee (dst1.process s x).0 (dst2.process t x).0 ts

  first_error-none :
      (err1 err2 : Error) → (first_error err1 err2 ≡ none) ↔ ((err1 ≡ none) × (err2 ≡ none))
  unfolding first_error
  first_error-none none err2 = ((λ e. (refl, e)), λ h. h.1)
  first_error-none (some x) err2 = ((λ e. ground (arith, e)), λ h. h.0)

  -- `Process` and `Close` of a tee return no error exactly when both destinations return none.
  pub tee-none :
      (s : S × T) (x : Traffic)
      → ((((tee dst1 dst2).process s x).1 ≡ none)
          ↔ (((dst1.process s.0 x).1 ≡ none) × ((dst2.process s.1 x).1 ≡ none)))
        × ((((tee dst1 dst2).close s).1 ≡ none)
            ↔ (((dst1.close s.0).1 ≡ none) × ((dst2.close s.1).1 ≡ none)))
  unfolding tee
  tee-none s x = (
    first_error-none (dst1.process s.0 x).1 (dst2.process s.1 x).1,
    first_error-none (dst1.close s.0).1 (dst2.close s.1).1,
  )
