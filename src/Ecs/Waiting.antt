-- ===== src/Ecs/Waiting.antt =====
-- What waitForRestartState of cmd/internal/ecs/add.go reports of a deployment.
use mathlib.Core.Path.{subst}
use observability_cli.Prelude.{if_cases, ◌≡◌, refl, ℕ, zero, suc, ◌+◌, ◌<◌, Option, some, arith}
use observability_cli.Ecs.State.{
  completed, rollout_failed, no_rollout_state, next, stops, Outcome, Outside, AddWorkflow,
  RolloutState, in_progress, fails,
}
use observability_cli.Ecs.Run.{is_in_progress, conclude, polled, wait_loop, wait_for_restart_state}

-- The wait goes on to no step.
abbrev pub Stops : Outcome → Type 0
Stops (next s) = ⊥
Stops (stops err) = Unit

conclude-Stops : (s : RolloutState) → Stops (conclude s)
unfolding conclude
conclude-Stops in_progress = tt
conclude-Stops completed = tt
conclude-Stops rollout_failed = tt
conclude-Stops no_rollout_state = tt

pub wait_loop-Stops :
    (polls : ℕ → Option RolloutState) (n i : ℕ) (s : RolloutState) → Stops (wait_loop polls n i s)
unfolding wait_loop
wait_loop-Stops polls zero i s = if_cases Stops (is_in_progress s) (λ _. tt) (λ _. conclude-Stops s)
wait_loop-Stops polls (suc n) i s =
    if_cases Stops (is_in_progress s) (λ _. wait_loop-Stops polls n (suc i) (polled (polls i)))
      (λ _. conclude-Stops s)

-- One tick of a deployment in progress.
wait_loop_tick :
    (polls : ℕ → Option RolloutState) (n i : ℕ)
    → wait_loop polls (suc n) i in_progress ≡ wait_loop polls n (suc i) (polled (polls i))
unfolding wait_loop is_in_progress
wait_loop_tick polls n i = refl

-- What the ticks from `i` find.
abbrev InProgress : (ℕ → Option RolloutState) → ℕ → ℕ → Type 0
InProgress polls i k = (j : ℕ) → j < k → polls (i + j) ≡ some in_progress

InProgress-first :
    (polls : ℕ → Option RolloutState) (i k : ℕ)
    → InProgress polls i (suc k)
    → polls i ≡ some in_progress
InProgress-first polls i k h =
    subst (λ m. polls m ≡ some in_progress) (omega (arith)) (h 0 (omega (arith)))

InProgress-rest :
    (polls : ℕ → Option RolloutState) (i k : ℕ)
    → InProgress polls i (suc k)
    → InProgress polls (suc i) k
InProgress-rest polls i k h j lt =
    subst (λ m. polls m ≡ some in_progress) (omega (arith)) (h (suc j) (omega (arith, lt)))

wait_loop_expires :
    (polls : ℕ → Option RolloutState) (n i : ℕ)
    → InProgress polls i n
    → wait_loop polls n i in_progress
      ≡ fails "Cannot determine whether service was successfully upgraded"
unfolding wait_loop is_in_progress polled
wait_loop_expires polls zero i h = refl
wait_loop_expires polls (suc n) i h =
    let first = InProgress-first polls i n h in
    let later = wait_loop_expires polls n (suc i) (InProgress-rest polls i n h) in
    rw (wait_loop_tick, first) later

-- A deployment that is in progress at every tick in time is a failure of the wizard.
pub wait_for_restart_expires :
    (out : Outside) (wf : AddWorkflow)
    → out.deployment_matching_task ≡ some in_progress
    → InProgress out.polls 0 out.ticks_in_time
    → wait_for_restart_state out wf
      ≡ (wf, fails "Cannot determine whether service was successfully upgraded")
unfolding wait_for_restart_state
wait_for_restart_expires out wf found h =
    rw (found, wait_loop_expires out.polls out.ticks_in_time 0 h)
