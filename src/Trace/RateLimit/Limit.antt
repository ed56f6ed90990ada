-- ===== src/Trace/RateLimit/Limit.antt =====
-- The witness budget of trace/rate_limit.go.
use observability_cli.Prelude.{
  ℕ, suc, ◌-◌, ◌<◌, ◌≡◌, refl, true, false, Option, none, some, List, [], ◌∷◌, arith, length, min,
  if◌then◌else◌, Option-cases, inl, inr,
}
use observability_cli.Trace.RateLimit.{
  Config, SharedRateLimit, new_rate_limit, start_interval, allow_http_request, start_new_epoch,
  on_collector_close,
}

-- The budget is at least one; while an interval runs it is not used up, and outside an interval
-- nothing is counted.
pub record Inv (r : SharedRateLimit) : Type 0 where
  pub budget : 0 < r.witnesses_per_epoch
  pub within : r.sample_interval_active ≡ true → r.sample_interval_count < r.witnesses_per_epoch
  pub idle : r.sample_interval_active ≡ false → r.sample_interval_count ≡ 0

new_rate_limit-Inv : (witness_limit now : ℕ) → Inv (new_rate_limit witness_limit now)
unfolding new_rate_limit
new_rate_limit-Inv witness_limit now = ground arith

start_interval-Inv : (r : SharedRateLimit) (start : ℕ) → Inv r → Inv (start_interval r start)
unfolding start_interval
start_interval-Inv r start v = ground arith

-- What may happen to the shared limit.
pub data Event : Type 0 where
  interval_timer_fires : ℕ → Event
  epoch_ticks : ℕ → ℕ → Event
  http_request_arrives : ℕ → Event
  collector_closes : ℕ → Event

module _ (config : Config) where
  allow_http_request-Inv :
      (r : SharedRateLimit) (now : ℕ) → Inv r → Inv (allow_http_request config r now).0
  unfolding allow_http_request
  allow_http_request-Inv r now v = ground arith

  start_new_epoch-Inv :
      (r q : SharedRateLimit) (epoch_start now : ℕ)
      → Inv r
      → start_new_epoch config r epoch_start now ≡ some q
      → Inv q
  unfolding start_new_epoch
  start_new_epoch-Inv r q epoch_start now v e = ground arith

  -- None is a panic, after which nothing runs.
  unfoldable pub step : SharedRateLimit → Event → Option SharedRateLimit
  step r (interval_timer_fires start) = some (start_interval r start)
  step r (epoch_ticks epoch_start now) = start_new_epoch config r epoch_start now
  step r (http_request_arrives now) = some (allow_http_request config r now).0
  step r (collector_closes id) = some (on_collector_close r id)

  step-Inv : (r q : SharedRateLimit) (e : Event) → Inv r → step r e ≡ some q → Inv q
  unfolding step on_collector_close
  step-Inv r q (interval_timer_fires start) v h = ground (arith, start_interval-Inv r start v)
  step-Inv r q (epoch_ticks epoch_start now) v h = start_new_epoch-Inv r q epoch_start now v h
  step-Inv r q (http_request_arrives now) v h = ground (arith, allow_http_request-Inv r now v)
  step-Inv r q (collector_closes id) v h = ground arith

  unfoldable pub run : SharedRateLimit → List Event → Option SharedRateLimit
  unfolding step
  run r [] = some r
  run r (e ∷ es) = elim (step r e) [ none ↦ none | some q ↦ run q es ]

  run-Inv : (r q : SharedRateLimit) (es : List Event) → Inv r → run r es ≡ some q → Inv q
  unfolding run
  run-Inv r q [] v h = ground arith
  run-Inv r q (e ∷ es) v h = elim (Option-cases (step r e)) [
    | inl panics ↦ ground arith
    | inr (p, e') ↦ run-Inv p q es (step-Inv r p e v e') (ground arith)
  ]

  -- Whatever events the limiter has lived through without a panic: its budget is positive, its
  -- count is below the budget while an interval runs, and the count is zero while none does.
  pub run-new_rate_limit-Inv :
      (witness_limit now : ℕ) (es : List Event) (q : SharedRateLimit)
      → run (new_rate_limit witness_limit now) es ≡ some q
      → Inv q
  run-new_rate_limit-Inv witness_limit now es q =
      run-Inv (new_rate_limit witness_limit now) q es (new_rate_limit-Inv witness_limit now)

  -- Calls of `AllowHTTPRequest` with no interval started in between: how many say yes.
  pub allow_all : SharedRateLimit → List ℕ → SharedRateLimit × ℕ
  allow_all r [] = (r, 0)
  allow_all r (now ∷ times) =
      let (r', ok) = allow_http_request config r now in
      let (q, n) = allow_all r' times in (q, if ok then suc n else n)

  allow_all-idle :
      (r : SharedRateLimit) (times : List ℕ)
      → r.sample_interval_active ≡ false
      → (allow_all r times).1 ≡ 0
  unfolding allow_all allow_http_request
  allow_all-idle r [] e = refl
  allow_all-idle r (now ∷ times) e = ground (arith, allow_all-idle r times)

  -- With the invariant, of any number of requests in a row a running interval lets through exactly
  -- as many as its budget has left, or all if they are fewer; when no interval runs, none.
  pub allow_all-count :
      (r : SharedRateLimit) (times : List ℕ)
      → Inv r
      → (allow_all r times).1 ≡ (
          if r.sample_interval_active
          then min (length times) (r.witnesses_per_epoch - r.sample_interval_count)
          else 0)
  unfolding allow_all allow_http_request
  allow_all-count r [] v = ground arith
  allow_all-count r (now ∷ times) v =
      let q = (allow_http_request config r now).0 in
      ground (
        arith,
        allow_http_request-Inv r now v,
        allow_all-count q times (allow_http_request-Inv r now v),
      )
