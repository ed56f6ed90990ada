-- ===== src/Ecs/Run.antt =====
-- cmd/internal/ecs/add.go: the steps that change something, and the wizard's loop.
use observability_cli.Prelude.{
  ℕ, zero, suc, Bool, true, false, Option, none, some, List, [], ◌∷◌, ◌++◌, String, if◌then◌else◌,
}
use observability_cli.Ecs.State.{
  WizardError, Answer, ok, Container, TaskDefinition, RegisterInput, Change, registers, updates,
  tags_service, Flags, RolloutState, in_progress, rollout_failed, no_rollout_state, Outside,
  AddWorkflow, Step, init_state, get_profile, get_region, find_cluster_and_region, get_cluster,
  get_task, get_service, confirm, modify_task, update_service, wait_for_restart, Outcome, next,
  stops, awf_done, fails, creation_tag, AgentSettings,
}
use observability_cli.Ecs.Agent.{make_agent_container_definition}
use observability_cli.Ecs.Steps.{
  get_profile_state, get_region_state, find_cluster_and_region_state, get_cluster_state,
  get_task_state, get_service_state, confirm_state,
}
use observability_cli.Ecs.FromFlags.{init_step}

-- The agent's container, with a memory reservation if the task has none.
unfoldable pub agent_container : AgentSettings → AddWorkflow → Option ℕ → Container
agent_container agent wf memory =
    let c =
      make_agent_container_definition agent (some wf.aws_region) (some wf.ecs_service)
        (some wf.ecs_task_definition_family) false in
    elim memory [ none ↦ record c { memory_reservation = some 300 } | some _ ↦ c ]

unfoldable pub register_input : AgentSettings → AddWorkflow → TaskDefinition → RegisterInput
register_input agent wf prev = record {
  family = prev.family;
  bridge_mode = prev.bridge_mode;
  memory = prev.memory;
  containers = prev.containers ++ agent_container agent wf prev.memory ∷ [];
  others = prev.others;
  tags = wf.ecs_task_definition_tags ++ creation_tag ∷ [];
}

-- A change that is asked for is noted whether or not it succeeds.
unfoldable pub note : AddWorkflow → Change → AddWorkflow
note wf c = record wf { changes = c ∷ wf.changes }

-- What is left of the workflow after the registration.
unfoldable pub registered :
    AddWorkflow → Answer (TaskDefinition × List String) → AddWorkflow × Outcome
registered wf (ok (output, tags)) = (
  record wf {
    ecs_task_definition = some output;
    ecs_task_definition_arn = output.task_definition_arn;
    ecs_task_definition_tags = tags;
  },
  next update_service,
)
registered wf _ = (wf, fails "Error registering task definition")

-- `panics` where confirmState or modifyTaskState uses a task definition that is nil; fillFromFlags
-- and the steps after the registration have set it.
pub data Result : Type 0 where
  returns : AddWorkflow × Outcome → Result
  panics : Result

-- modifyTaskState, for the task definition that the workflow has.
unfoldable pub register_next : Outside → AddWorkflow → Option TaskDefinition → Result
register_next out wf none = panics
register_next out wf (some prev) = returns (
    registered (note wf (registers (register_input out.agent_settings wf prev)))
      out.register_task_definition)

unfoldable pub modify_task_state : Outside → AddWorkflow → Result
modify_task_state out wf = register_next out wf wf.ecs_task_definition

unfoldable pub updated : AddWorkflow → Answer (Unit {0}) → AddWorkflow × Outcome
updated wf (ok _) = (note wf (tags_service wf.ecs_service_arn), next wait_for_restart)
updated wf _ = (wf, fails "Error updating ECS service")

-- The tag's failure is not fatal.
unfoldable pub update_service_state : Outside → AddWorkflow → AddWorkflow × Outcome
update_service_state out wf =
    updated (note wf (updates wf.ecs_cluster_arn wf.ecs_service_arn wf.ecs_task_definition_arn))
      out.update_service

unfoldable pub is_in_progress : RolloutState → Bool
is_in_progress in_progress = true
is_in_progress _ = false

-- After the loop.
unfoldable pub conclude : RolloutState → Outcome
conclude rollout_failed = fails "The modified task failed to deploy"
conclude _ = awf_done

-- An error replaces the deployment by an empty one.
unfoldable pub polled : Option RolloutState → RolloutState
polled none = no_rollout_state
polled (some s) = s

-- `n` more ticks come before the deadline; `i` have come.
unfoldable pub wait_loop : (ℕ → Option RolloutState) → ℕ → ℕ → RolloutState → Outcome
wait_loop polls zero i s =
    if is_in_progress s
    then fails "Cannot determine whether service was successfully upgraded"
    else conclude s
wait_loop polls (suc n) i s =
    let later = wait_loop polls n (suc i) (polled (polls i)) in
    if is_in_progress s then later else conclude s

-- The deadline is five minutes away, with a tick each fifteen seconds.
unfoldable pub wait_for_restart_state : Outside → AddWorkflow → AddWorkflow × Outcome
wait_for_restart_state out wf = elim out.deployment_matching_task [
  | none ↦ (wf, fails "Cannot determine whether service was successfully upgraded")
  | some s ↦ (wf, wait_loop out.polls out.ticks_in_time 0 s)
]

-- showPlannedChanges uses the task definition, before the rest of confirmState.
unfoldable pub show_planned_changes : Option TaskDefinition → AddWorkflow × Outcome → Result
show_planned_changes none rest = panics
show_planned_changes (some d) rest = returns rest

unfoldable pub run_step : Flags → Outside → Step → AddWorkflow → Result
run_step flags out init_state wf = returns (init_step out flags wf)
run_step flags out get_profile wf = returns (get_profile_state out flags wf)
run_step flags out get_region wf = returns (get_region_state out flags wf)
run_step flags out find_cluster_and_region wf = returns (find_cluster_and_region_state out wf)
run_step flags out get_cluster wf = returns (get_cluster_state out flags wf)
run_step flags out get_task wf = returns (get_task_state out flags wf)
run_step flags out get_service wf = returns (get_service_state out flags wf)
run_step flags out confirm wf =
    show_planned_changes wf.ecs_task_definition (confirm_state out flags wf)
run_step flags out modify_task wf = modify_task_state out wf
run_step flags out update_service wf = returns (update_service_state out wf)
run_step flags out wait_for_restart wf = returns (wait_for_restart_state out wf)

-- Where the loop of RunAddWorkflow is: before a step, or at its end.
pub data Status : Type 0 where
  running : Step → AddWorkflow → Status
  ended : Option WizardError → AddWorkflow → Status
  panicked : Status

unfoldable pub continue_with : Result → Status
continue_with (returns (wf, next s)) = running s wf
continue_with (returns (wf, stops err)) = ended err wf
continue_with panics = panicked

unfoldable pub advance : Flags → Outside → Status → Status
advance flags out (running s wf) = continue_with (run_step flags out s wf)
advance flags out status = status

-- The loop of RunAddWorkflow, with what each round has from outside.
unfoldable pub run_rounds : Flags → Status → List Outside → Status
run_rounds flags status [] = status
run_rounds flags status (out ∷ outs) = run_rounds flags (advance flags out status) outs
