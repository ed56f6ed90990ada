-- ===== src/Ecs/Unattended.antt =====
-- Without a terminal the wizard of cmd/internal/ecs/add.go has no loop.
use mathlib.Core.Path.{subst}
use observability_cli.Prelude.{
  ◌≡◌, refl, sym, false, Option, none, some, List, [], ◌∷◌, String, if_cases, option_cases,
}
use observability_cli.Ecs.State.{
  Answer, ok, unauthorized, failed, TaskDefinition, Flags, NameFlag, no_flag, arn_flag, name_flag,
  Outside, AddWorkflow, Step, init_state, get_profile, get_region, find_cluster_and_region,
  get_cluster, get_task, get_service, confirm, modify_task, update_service, wait_for_restart,
  Outcome, next, stops, awf_error, fails, WizardError, ConfigAnswer,
}
use observability_cli.Ecs.Steps.{create_config}
use observability_cli.Ecs.FromFlags.{
  flags_filled, fill_service, fill_task, fill_cluster, fill_from_flags, init_step,
}
use observability_cli.Ecs.Run.{
  Status, running, ended, panicked, returns, continue_with, advance, run_rounds, run_step,
  wait_for_restart_state, update_service_state, modify_task_state, register_next, registered,
  updated,
}
use observability_cli.Ecs.Waiting.{Stops, wait_loop-Stops}
use observability_cli.Ecs.Changes.{at_start, IsOrdered, WasRead, run_rounds-IsOrdered}

-- The only step that may follow is the change of the task definition.
abbrev OnlyModifies : AddWorkflow × Outcome → Type 0
OnlyModifies (wf, stops err) = Unit
OnlyModifies (wf, next modify_task) = Unit
OnlyModifies (wf, next _) = ⊥

module _ (flags : Flags) (out : Outside) where
  -- An error of a load ends it, and else the rest decides.
  unless_error :
      (e : Option WizardError) (wf : AddWorkflow) (rest : AddWorkflow × Outcome)
      → OnlyModifies rest
      → OnlyModifies (elim e [ some err ↦ (wf, awf_error (some err)) | none ↦ rest ])
  unless_error (some err) wf rest h = tt
  unless_error none wf rest h = h

  flags_filled_only : (wf : AddWorkflow) → OnlyModifies (flags_filled out flags wf)
  unfolding flags_filled
  flags_filled_only wf =
      option_cases OnlyModifies out.akita_secrets
        (λ _. if_cases OnlyModifies flags.dry_run_flag (λ _. tt) (λ _. tt)) λ e _. tt

  fill_service_only : (wf : AddWorkflow) (f : NameFlag) → OnlyModifies (fill_service out flags wf f)
  unfolding fill_service
  fill_service_only wf no_flag = tt
  fill_service_only wf (arn_flag a) = unless_error _ _ _ (flags_filled_only _)
  fill_service_only wf (name_flag n) = unless_error _ _ _ (flags_filled_only _)

  fill_task_only : (wf : AddWorkflow) (o : Option String) → OnlyModifies (fill_task out flags wf o)
  unfolding fill_task
  fill_task_only wf none = tt
  fill_task_only wf (some t) = unless_error _ _ _ (fill_service_only _ flags.ecs_service_flag)

  fill_cluster_only : (wf : AddWorkflow) (f : NameFlag) → OnlyModifies (fill_cluster out flags wf f)
  unfolding fill_cluster
  fill_cluster_only wf no_flag = tt
  fill_cluster_only wf (arn_flag a) =
      unless_error _ _ _ (fill_task_only _ flags.ecs_task_definition_flag)
  fill_cluster_only wf (name_flag n) =
      unless_error _ _ _ (fill_task_only _ flags.ecs_task_definition_flag)

  fill_from_flags_only : (wf : AddWorkflow) → OnlyModifies (fill_from_flags out flags wf)
  unfolding fill_from_flags
  fill_from_flags_only wf = go (create_config out wf)
    where
      go :
          (r : AddWorkflow × Option ConfigAnswer)
          → OnlyModifies (elim r.1 [
            | some _ ↦ (r.0, fails "Could not find AWS credentials")
            | none ↦ fill_cluster out flags r.0 flags.ecs_cluster_flag
          ])
      go (wf', none) = fill_cluster_only wf' flags.ecs_cluster_flag
      go (wf', some problem) = tt

  init_step_only :
      (wf : AddWorkflow) → flags.is_terminal ≡ false → OnlyModifies (init_step out flags wf)
  unfolding init_step
  init_step_only wf e =
      if_cases OnlyModifies flags.is_terminal (λ t. absurd (cc)) λ _. fill_from_flags_only wf

-- At the step, or at an end.
abbrev At : Step → Status → Type 0
At s (running t wf) = t ≡ s
At s (ended err wf) = Unit
At s panicked = Unit

-- At no step.
abbrev HasStopped : Status → Type 0
HasStopped (running s wf) = ⊥
HasStopped _ = Unit

unfoldable pub HasEnded : Status → Type 0
HasEnded (running s wf) = ⊥
HasEnded (ended err wf) = Unit
HasEnded panicked = ⊥

module _ (flags : Flags) (out : Outside) where
  only-At :
      (r : AddWorkflow × Outcome) → OnlyModifies r → At modify_task (continue_with (returns r))
  unfolding continue_with
  only-At (wf, stops err) h = tt
  only-At (wf, next modify_task) h = refl
  only-At (wf, next init_state) h = absurd h
  only-At (wf, next get_profile) h = absurd h
  only-At (wf, next get_region) h = absurd h
  only-At (wf, next find_cluster_and_region) h = absurd h
  only-At (wf, next get_cluster) h = absurd h
  only-At (wf, next get_task) h = absurd h
  only-At (wf, next get_service) h = absurd h
  only-At (wf, next confirm) h = absurd h
  only-At (wf, next update_service) h = absurd h
  only-At (wf, next wait_for_restart) h = absurd h

  modify_task_state-At :
      (wf : AddWorkflow) → At update_service (continue_with (modify_task_state out wf))
  unfolding modify_task_state register_next registered continue_with
  modify_task_state-At wf = go wf.ecs_task_definition out.register_task_definition
    where
      go :
          (o : Option TaskDefinition) (a : Answer (TaskDefinition × List String))
          → At update_service
              (continue_with (register_next (record out { register_task_definition = a }) wf o))
      go none a = tt
      go (some d) (ok r) = refl
      go (some d) unauthorized = tt
      go (some d) failed = tt

  update_service_state-At :
      (wf : AddWorkflow)
      → At wait_for_restart (continue_with (returns (update_service_state out wf)))
  unfolding update_service_state updated continue_with
  update_service_state-At wf = go _ out.update_service
    where
      go :
          (wf' : AddWorkflow) (a : Answer (Unit {0}))
          → At wait_for_restart (continue_with (returns (updated wf' a)))
      go wf' (ok u) = refl
      go wf' unauthorized = tt
      go wf' failed = tt

  Stops-HasStopped :
      (wf : AddWorkflow) (o : Outcome) → Stops o → HasStopped (continue_with (returns (wf, o)))
  unfolding continue_with
  Stops-HasStopped wf (next s) h = h
  Stops-HasStopped wf (stops err) h = tt

  wait_for_restart_state-HasStopped :
      (wf : AddWorkflow) → HasStopped (continue_with (returns (wait_for_restart_state out wf)))
  unfolding wait_for_restart_state
  wait_for_restart_state-HasStopped wf =
      option_cases (λ r. HasStopped (continue_with (returns r))) out.deployment_matching_task
        (λ _. Stops-HasStopped wf _ tt)
        λ s _. Stops-HasStopped wf _ (wait_loop-Stops out.polls out.ticks_in_time 0 s)

  -- A round from a known step.
  advance-At :
      (s s' : Step)
      → ((wf : AddWorkflow) → At s' (continue_with (run_step flags out s wf)))
      → (status : Status) → At s status
      → At s' (advance flags out status)
  unfolding advance
  advance-At s s' h (running t wf) e =
      subst (λ u. At s' (continue_with (run_step flags out u wf))) (sym e) (h wf)
  advance-At s s' h (ended err wf) e = tt
  advance-At s s' h panicked e = tt

  advance-HasStopped :
      (status : Status) → At wait_for_restart status → HasStopped (advance flags out status)
  unfolding advance run_step
  advance-HasStopped (running t wf) e =
      subst (λ u. HasStopped (continue_with (run_step flags out u wf))) (sym e)
        (wait_for_restart_state-HasStopped wf)
  advance-HasStopped (ended err wf) e = tt
  advance-HasStopped panicked e = tt

run_rounds-HasStopped :
    (flags : Flags) (status : Status) (outs : List Outside)
    → HasStopped status
    → HasStopped (run_rounds flags status outs)
unfolding run_rounds advance
run_rounds-HasStopped flags status [] h = h
run_rounds-HasStopped flags (running s wf) (o ∷ os) h = absurd h
run_rounds-HasStopped flags (ended err wf) (o ∷ os) h =
    run_rounds-HasStopped flags (ended err wf) os tt
run_rounds-HasStopped flags panicked (o ∷ os) h = run_rounds-HasStopped flags panicked os tt

-- Without a terminal the loop has ended after four rounds, without a panic, whatever AWS answers.
pub run_rounds-HasEnded :
    (flags : Flags) (o1 o2 o3 o4 : Outside) (outs : List Outside)
    → flags.is_terminal ≡ false
    → HasEnded (run_rounds flags at_start (o1 ∷ o2 ∷ o3 ∷ o4 ∷ outs))
unfolding run_rounds HasEnded IsOrdered run_step
run_rounds-HasEnded flags o1 o2 o3 o4 outs e =
    let s1 = advance flags o1 at_start in
    let s2 = advance flags o2 s1 in
    let s3 = advance flags o3 s2 in
    let a1 =
      advance-At flags o1 init_state modify_task
        (λ wf. only-At flags o1 _ (init_step_only flags o1 wf e)) at_start refl in
    let a2 = advance-At flags o2 modify_task update_service (modify_task_state-At flags o2) s1 a1 in
    let a3 =
      advance-At flags o3 update_service wait_for_restart (update_service_state-At flags o3) s2
        a2 in
    let stopped = run_rounds-HasStopped flags _ outs (advance-HasStopped flags o4 s3 a3) in
    go _ stopped (run_rounds-IsOrdered flags (o1 ∷ o2 ∷ o3 ∷ o4 ∷ outs))
  where
    go :
        (s : Status)
        → HasStopped s
        → IsOrdered flags (WasRead (o1 ∷ o2 ∷ o3 ∷ o4 ∷ outs)) s
        → HasEnded s
    go (running s wf) stopped ordered = stopped
    go (ended err wf) stopped ordered = tt
    go panicked stopped ordered = ordered
