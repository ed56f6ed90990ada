-- ===== src/Ecs/Safety.antt =====
-- Every step of the wizard of cmd/internal/ecs/add.go keeps its history of changes in order.
use observability_cli.Prelude.{refl, All, List, [], ◌∷◌, String}
use observability_cli.Ecs.State.{
  TaskDefinition, Flags, Outside, AddWorkflow, Step, init_state, get_profile, get_region,
  find_cluster_and_region, get_cluster, get_task, get_service, confirm, modify_task, update_service,
  wait_for_restart, new_add_workflow,
}
use observability_cli.Ecs.Run.{
  run_step, Status, running, ended, panicked, continue_with, advance, run_rounds,
}
use observability_cli.Ecs.Loads.{TaskRule}
use observability_cli.Ecs.Early.{
  get_profile_state-Ok, get_region_state-Ok, find_cluster_and_region_state-Ok, get_cluster_state-Ok,
  get_task_state-Ok, get_service_state-Ok, confirm_state-Ok,
}
use observability_cli.Ecs.Filling.{init_step-Ok}
use observability_cli.Ecs.History.{
  Holds, SafeAt, Safe, early-Safe, modify_task_state-Safe, show_planned_changes-Safe,
  update_service_state-Safe, wait_for_restart_state-Safe,
}

module _ (flags : Flags) (Q : TaskDefinition → List String → Type 0) where
  run_step-Safe :
      (out : Outside) (rule : TaskRule flags out (Holds Q)) (s : Step) (wf : AddWorkflow)
      → SafeAt flags Q s wf
      → Safe flags Q (continue_with (run_step flags out s wf))
  unfolding SafeAt run_step Holds
  run_step-Safe out rule init_state wf h =
      early-Safe flags Q wf _ (h.0) (init_step-Ok flags (Holds Q) out rule wf)
  run_step-Safe out rule get_profile wf h =
      early-Safe flags Q wf _ (h.0) (get_profile_state-Ok flags (Holds Q) out rule wf)
  run_step-Safe out rule get_region wf h =
      early-Safe flags Q wf _ (h.0) (get_region_state-Ok flags (Holds Q) out rule wf)
  run_step-Safe out rule find_cluster_and_region wf h =
      early-Safe flags Q wf _ (h.0) (find_cluster_and_region_state-Ok flags (Holds Q) out rule wf)
  run_step-Safe out rule get_cluster wf h =
      early-Safe flags Q wf _ (h.0) (get_cluster_state-Ok flags (Holds Q) out rule wf)
  run_step-Safe out rule get_task wf h =
      early-Safe flags Q wf _ (h.0) (get_task_state-Ok flags (Holds Q) out rule wf)
  run_step-Safe out rule get_service wf h =
      early-Safe flags Q wf _ (h.0) (get_service_state-Ok flags (Holds Q) out rule wf (h.1))
  run_step-Safe out rule confirm wf h =
      show_planned_changes-Safe flags Q wf.ecs_task_definition_tags wf.ecs_task_definition _ (h.1)
        (early-Safe flags Q wf _ (h.0) (confirm_state-Ok flags (Holds Q) out rule wf (h.1)))
  run_step-Safe out rule modify_task wf h =
      modify_task_state-Safe flags Q out wf (h.0) (h.1.0) (h.1.1)
  run_step-Safe out rule update_service wf h = update_service_state-Safe flags Q out wf h
  run_step-Safe out rule wait_for_restart wf h = wait_for_restart_state-Safe flags Q out wf h

  advance-Safe :
      (out : Outside) (rule : TaskRule flags out (Holds Q)) (status : Status)
      → Safe flags Q status
      → Safe flags Q (advance flags out status)
  unfolding Safe advance
  advance-Safe out rule (running s wf) h = run_step-Safe out rule s wf h
  advance-Safe out rule (ended err wf) h = h
  advance-Safe out rule panicked h = h

  rounds-Safe :
      (status : Status) (outs : List Outside)
      → All (λ out. TaskRule flags out (Holds Q)) outs
      → Safe flags Q status
      → Safe flags Q (run_rounds flags status outs)
  unfolding run_rounds
  rounds-Safe status [] rules h = h
  rounds-Safe status (out ∷ outs) (rule, rules) h =
      rounds-Safe (advance flags out status) outs rules (advance-Safe out rule status h)

  pub run-Safe :
      (outs : List Outside)
      → All (λ out. TaskRule flags out (Holds Q)) outs
      → Safe flags Q (run_rounds flags (running init_state new_add_workflow) outs)
  unfolding Safe SafeAt new_add_workflow
  run-Safe outs rules = rounds-Safe (running init_state new_add_workflow) outs rules (refl, tt)
