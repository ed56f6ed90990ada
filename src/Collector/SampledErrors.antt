-- ===== src/Collector/SampledErrors.antt =====
-- The library `sampled_err`, which the collectors only call: a bag of errors that counts them all
-- and keeps a few. Its operations and the documented behaviour of its count are a parameter.
use observability_cli.Prelude.{ℕ, suc, String, ◌≡◌, refl, ltb, none, some, if◌then◌else◌}
use observability_cli.Net.{Error}

pub record SampledErrors (E : Type 0) : Type 0 where
  -- Errors{SampleCount: n}
  pub empty : ℕ → E
  pub add : E → String → E
  pub total_count : E → ℕ
  pub message : E → String
  pub total_count-empty : (n : ℕ) → total_count (empty n) ≡ 0
  pub total_count-add : (e : E) (x : String) → total_count (add e x) ≡ suc (total_count e)

module _ {E : Type 0} (sampled : SampledErrors E) where
  -- `if err != nil { errs.Add(err) }`
  abbrev pub add_error : E → Error → E
  add_error errs none = errs
  add_error errs (some x) = sampled.add errs x

  -- `if errs.TotalCount > 0 { return errs }; return nil`
  abbrev pub as_error : E → Error
  as_error errs = if ltb 0 (sampled.total_count errs) then some (sampled.message errs) else none

-- Errors that are only counted.
abbrev pub counted_errors : SampledErrors ℕ
counted_errors = record {
  empty = λ _. 0;
  add = λ n _. suc n;
  total_count = λ n. n;
  message = λ _. "errors";
  total_count-empty = λ _. refl;
  total_count-add = λ _ _. refl;
}
