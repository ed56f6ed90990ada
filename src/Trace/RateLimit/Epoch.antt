-- ===== src/Trace/RateLimit/Epoch.antt =====
-- The start of an epoch in trace/rate_limit.go.
use observability_cli.Prelude.{
  ℕ, zero, suc, ◌+◌, ◌-◌, ◌≤◌, ◌<◌, ◌≡◌, ◌↔◌, ◌⊎◌, Option-cases, inl, inr, refl, ◌∙◌, ap, Bool,
  true, false, none, some, List, [], ◌∷◌, arith, if◌then◌else◌, ltb, ◌||◌, nat_beq, nat_eq,
  nat_beq_iff, Map, get, put, get-put,
}
use observability_cli.Prelude.Int.{ℤ, pos, negsuc, pos_part, neg_part, sub_ℕ, ◌-ℤ◌}
use observability_cli.Trace.RateLimit.{
  Config, SharedRateLimit, next_delay, random_offset, notify, start_new_epoch,
}

pos_part-sub_ℕ : (a b : ℕ) → pos_part (sub_ℕ a b) ≡ a - b
pos_part-sub_ℕ a b = ground arith

module _ (config : Config) where
  random_offset-if :
      (z : ℤ)
      → random_offset config z
        ≡ (if ltb 0 (pos_part z) then some (config.int63n (pos_part z)) else none)
  unfolding random_offset
  random_offset-if (pos zero) = refl
  random_offset-if (pos (suc n)) = ground arith
  random_offset-if (negsuc n) = refl

  next_delay-if :
      (r : SharedRateLimit)
      → let est = r.estimated_sample_interval in
        let bound = (config.epoch_time + neg_part est) - pos_part est in
        next_delay config r ≡ (
          if r.first_estimate
          then some 0
          else (if ltb 0 bound then some (config.int63n bound) else none))
  unfolding next_delay
  next_delay-if r =
      let est = r.estimated_sample_interval in
      ap (λ o. if r.first_estimate then some 0 else o)
        (random_offset-if (pos config.epoch_time -ℤ est)
          ∙ ap (λ n. if ltb 0 n then some (config.int63n n) else none)
              (pos_part-sub_ℕ (config.epoch_time + neg_part est) (0 + pos_part est) ∙ omega arith))

  -- A new epoch panics exactly if there is an estimate of the sample interval and it is not shorter
  -- than an epoch.
  pub start_new_epoch-none :
      (r : SharedRateLimit) (epoch_start now : ℕ)
      → (start_new_epoch config r epoch_start now ≡ none) ↔ (
          (r.first_estimate ≡ false)
          × (config.epoch_time + neg_part r.estimated_sample_interval
              ≤ pos_part r.estimated_sample_interval))
  unfolding start_new_epoch
  start_new_epoch-none r epoch_start now = ground (arith, next_delay-if r)

  -- If the random numbers stay below their bound, an epoch that starts puts the next sample interval
  -- at once where there is no estimate, and else so early that an interval of the estimated length
  -- ends within the epoch. Interval, budget, estimate and children are as before.
  pub start_new_epoch_fits :
      (r q : SharedRateLimit) (epoch_start now : ℕ)
      → ((n : ℕ) → 0 < n → config.int63n n < n)
      → start_new_epoch config r epoch_start now ≡ some q
      → ((r.first_estimate ≡ true) × (q.interval_timer ≡ 0)
          ⊎ (r.first_estimate ≡ false)
            × (q.interval_timer + pos_part r.estimated_sample_interval
                < config.epoch_time + neg_part r.estimated_sample_interval))
        × (record q {
          current_epoch_start = r.current_epoch_start;
          interval_timer = r.interval_timer;
          epoch_channels = r.epoch_channels;
        }
            ≡ r)
  unfolding start_new_epoch
  start_new_epoch_fits r q epoch_start now below e =
      let est = r.estimated_sample_interval in
      ground (arith, next_delay-if r, below ((config.epoch_time + neg_part est) - pos_part est))

abbrev pub has_child : ℕ → List ℕ → Bool
has_child k [] = false
has_child k (c ∷ cs) = nat_beq c k || has_child k cs

-- Each child is sent the threshold unless an older one still waits; no other channel changes.
pub get-notify :
    (threshold k : ℕ) (children : List ℕ) (channels : Map ℕ ℕ)
    → get k (notify threshold children channels) ≡ elim (get k channels) [
      | some waiting ↦ some waiting
      | none ↦ if has_child k children then some threshold else none
    ]
unfolding notify
get-notify threshold k [] channels = ground arith
get-notify threshold k (c ∷ cs) channels = elim (Option-cases (get c channels)) [
  | inl e ↦
      rw (e, notify)
        (ground (
          arith,
          nat_beq_iff c k,
          get-notify threshold k cs (put c threshold channels),
          get-put c k threshold channels,
        ))
  | inr (w, e) ↦
      rw (e, notify) (ground (arith, nat_beq_iff c k, get-notify threshold k cs channels))
]
