-- ===== src/Ecs/History.antt =====
-- What a run of the wizard of cmd/internal/ecs/add.go may have changed, and in which order.
use mathlib.Core.Path.{subst}
use observability_cli.Prelude.{
  ◌≡◌, refl, ℕ, true, ◌++◌, sym, false, Option, none, some, List, [], ◌∷◌, String, option_cases,
}
use observability_cli.Ecs.State.{
  Answer, ok, unauthorized, failed, AgentSettings, RegisterInput, TaskDefinition, Change, registers,
  updates, tags_service, Flags, Outside, AddWorkflow, Step, init_state, get_profile, get_region,
  find_cluster_and_region, get_cluster, get_task, get_service, confirm, modify_task, update_service,
  wait_for_restart, Outcome, next, stops, Container, has_agent, matches_image,
}
use observability_cli.Ecs.Run.{
  register_input, agent_container, note, registered, returns, modify_task_state, register_next,
  updated, update_service_state, wait_for_restart_state, show_planned_changes, Status, running,
  ended, panicked, continue_with,
}
use observability_cli.Ecs.Agent.{make_agent_container_definition}
use observability_cli.Ecs.Waiting.{Stops, wait_loop-Stops}
use observability_cli.Ecs.Loads.{Before, Ok}

-- How far the changes went.
pub data Stage : Type 0 where
  untouched definition_registered service_updated service_tagged : Stage

-- What is registered: the definition with the tags `tags`, with the container of an agent, which the
-- wizard recognises as one, and the creation tag at the end.
pub record IsAddition (prev : TaskDefinition) (tags : List String) (input : RegisterInput)
    : Type 0 where
  pub container : Container
  pub is_agent : has_agent (container ∷ []) ≡ true
  pub containers : input.containers ≡ prev.containers ++ container ∷ []
  pub tagged : input.tags ≡ tags ++ "postman:created_by" ∷ []
  pub family : input.family ≡ prev.family
  pub bridge_mode : input.bridge_mode ≡ prev.bridge_mode
  pub memory : input.memory ≡ prev.memory
  pub others : input.others ≡ prev.others

-- The histories of changes: a registration of a definition of which `Q` holds, with what is
-- added, the update of the
-- service and its tag, in this order; none of them in a dry run.
pub data Story (flags : Flags) (Q : TaskDefinition → List String → Type 0)
    : Stage → List Change → Type 0 where
  untouched_story : Story flags Q untouched []
  registration :
      (prev : TaskDefinition) (tags : List String) (input : RegisterInput)
      → flags.dry_run_flag ≡ false
      → Q prev tags
      → IsAddition prev tags input
      → Story flags Q definition_registered (registers input ∷ [])
  update :
      (c : List Change) (cluster service task : String)
      → Story flags Q definition_registered c
      → Story flags Q service_updated (updates cluster service task ∷ c)
  tag :
      (c : List Change) (cluster service task : String)
      → Story flags Q service_updated (updates cluster service task ∷ c)
      → Story flags Q service_tagged (tags_service service ∷ updates cluster service task ∷ c)

agent_container-has_agent :
    (agent : AgentSettings) (wf : AddWorkflow) (memory : Option ℕ)
    → has_agent (agent_container agent wf memory ∷ []) ≡ true
unfolding agent_container make_agent_container_definition has_agent matches_image
agent_container-has_agent agent wf none = refl
agent_container-has_agent agent wf (some n) = refl

register_input-IsAddition :
    (agent : AgentSettings) (wf : AddWorkflow) (prev : TaskDefinition)
    → IsAddition prev wf.ecs_task_definition_tags (register_input agent wf prev)
unfolding register_input
register_input-IsAddition agent wf prev = record {
  container = agent_container agent wf prev.memory;
  is_agent = agent_container-has_agent agent wf prev.memory;
  containers = refl;
  tagged = refl;
  family = refl;
  bridge_mode = refl;
  memory = refl;
  others = refl;
}

-- `Q` holds of the task definition of the workflow, and there is one.
unfoldable pub HoldsOf :
    (TaskDefinition → List String → Type 0) → List String → Option TaskDefinition → Type 0
HoldsOf Q tags none = ⊥
HoldsOf Q tags (some d) = Q d tags

unfoldable pub Holds : (TaskDefinition → List String → Type 0) → AddWorkflow → Type 0
Holds Q wf = HoldsOf Q wf.ecs_task_definition_tags wf.ecs_task_definition

module _ (flags : Flags) (Q : TaskDefinition → List String → Type 0) where
  -- Before a step, what was changed so far.
  unfoldable pub SafeAt : Step → AddWorkflow → Type 0
  SafeAt update_service wf = Story flags Q definition_registered wf.changes
  SafeAt wait_for_restart wf = Story flags Q service_tagged wf.changes
  SafeAt s wf = (wf.changes ≡ []) × Before flags (Holds Q) s wf

  unfoldable pub Safe : Status → Type 0
  Safe (running s wf) = SafeAt s wf
  Safe (ended err wf) = (stage : Stage) × Story flags Q stage wf.changes
  Safe panicked = ⊥

  pub no_changes-Story : (wf : AddWorkflow) → wf.changes ≡ [] → Story flags Q untouched wf.changes
  no_changes-Story wf e = subst (Story flags Q untouched) (sym e) untouched_story

  Ok-Safe : (r : AddWorkflow × Outcome) → Ok flags (Holds Q) [] r → Safe (continue_with (returns r))
  unfolding Safe SafeAt continue_with
  Ok-Safe (wf, stops err) h = (untouched, no_changes-Story wf h)
  Ok-Safe (wf, next init_state) h = h
  Ok-Safe (wf, next get_profile) h = h
  Ok-Safe (wf, next get_region) h = h
  Ok-Safe (wf, next find_cluster_and_region) h = h
  Ok-Safe (wf, next get_cluster) h = h
  Ok-Safe (wf, next get_task) h = h
  Ok-Safe (wf, next get_service) h = h
  Ok-Safe (wf, next confirm) h = h
  Ok-Safe (wf, next modify_task) h = h
  Ok-Safe (wf, next update_service) h = absurd (h.1)
  Ok-Safe (wf, next wait_for_restart) h = absurd (h.1)

  -- A step that changes nothing, from no changes.
  pub early-Safe :
      (wf : AddWorkflow) (r : AddWorkflow × Outcome)
      → wf.changes ≡ []
      → Ok flags (Holds Q) wf.changes r
      → Safe (continue_with (returns r))
  early-Safe wf r e h = Ok-Safe r (subst (λ c. Ok flags (Holds Q) c r) e h)

  registered-Safe :
      (input : RegisterInput) (wf : AddWorkflow)
      → Story flags Q definition_registered (registers input ∷ wf.changes)
      → (a : Answer (TaskDefinition × List String))
      → Safe (continue_with (returns (registered (note wf (registers input)) a)))
  unfolding Safe SafeAt continue_with registered note
  registered-Safe input wf story (ok (d, new_tags)) = story
  registered-Safe input wf story unauthorized = (definition_registered, story)
  registered-Safe input wf story failed = (definition_registered, story)

  pub show_planned_changes-Safe :
      (tags : List String) (o : Option TaskDefinition) (r : AddWorkflow × Outcome)
      → HoldsOf Q tags o
      → Safe (continue_with (returns r))
      → Safe (continue_with (show_planned_changes o r))
  unfolding show_planned_changes HoldsOf
  show_planned_changes-Safe tags none r q h = absurd q
  show_planned_changes-Safe tags (some d) r q h = h

  register_next-Safe :
      (out : Outside) (wf : AddWorkflow)
      → wf.changes ≡ []
      → flags.dry_run_flag ≡ false
      → (o : Option TaskDefinition) → HoldsOf Q wf.ecs_task_definition_tags o
      → Safe (continue_with (register_next out wf o))
  unfolding register_next HoldsOf
  register_next-Safe out wf e wet none h = absurd h
  register_next-Safe out wf e wet (some prev) h =
      let input = register_input out.agent_settings wf prev in
      let story =
        subst (λ l. Story flags Q definition_registered (registers input ∷ l)) (sym e)
          (registration prev wf.ecs_task_definition_tags input wet h
            (register_input-IsAddition out.agent_settings wf prev)) in
      registered-Safe input wf story out.register_task_definition

  pub modify_task_state-Safe :
      (out : Outside) (wf : AddWorkflow)
      → wf.changes ≡ []
      → Holds Q wf
      → flags.dry_run_flag ≡ false
      → Safe (continue_with (modify_task_state out wf))
  unfolding modify_task_state Holds
  modify_task_state-Safe out wf e q wet = register_next-Safe out wf e wet wf.ecs_task_definition q

  pub update_service_state-Safe :
      (out : Outside) (wf : AddWorkflow)
      → Story flags Q definition_registered wf.changes
      → Safe (continue_with (returns (update_service_state out wf)))
  unfolding Safe SafeAt continue_with update_service_state updated note
  update_service_state-Safe out wf h =
      go out.update_service
        (update wf.changes wf.ecs_cluster_arn wf.ecs_service_arn wf.ecs_task_definition_arn h)
    where
      go :
          (a : Answer (Unit {0}))
          → Story flags Q service_updated (
              updates wf.ecs_cluster_arn wf.ecs_service_arn wf.ecs_task_definition_arn ∷ wf.changes)
          → Safe (
              continue_with (
                returns (
                  updated
                    (note wf
                      (updates wf.ecs_cluster_arn wf.ecs_service_arn wf.ecs_task_definition_arn))
                    a)))
      go (ok u) story =
          tag wf.changes wf.ecs_cluster_arn wf.ecs_service_arn wf.ecs_task_definition_arn story
      go unauthorized story = (service_updated, story)
      go failed story = (service_updated, story)

  Stops-Safe :
      (wf : AddWorkflow) (o : Outcome)
      → Stops o
      → Story flags Q service_tagged wf.changes
      → Safe (continue_with (returns (wf, o)))
  unfolding Safe continue_with
  Stops-Safe wf (next s) stop h = absurd stop
  Stops-Safe wf (stops err) stop h = (service_tagged, h)

  pub wait_for_restart_state-Safe :
      (out : Outside) (wf : AddWorkflow)
      → Story flags Q service_tagged wf.changes
      → Safe (continue_with (returns (wait_for_restart_state out wf)))
  unfolding wait_for_restart_state
  wait_for_restart_state-Safe out wf h =
      option_cases (λ r. Safe (continue_with (returns r))) out.deployment_matching_task
        (λ _. Stops-Safe wf _ tt h)
        λ s _. Stops-Safe wf _ (wait_loop-Stops out.polls out.ticks_in_time 0 s) h
