-- ===== src/Ecs/FromFlags.antt =====
-- cmd/internal/ecs/add.go: fillFromFlags, the run without a terminal, and the first step.
use observability_cli.Prelude.{Option, none, some, String, string_eq, if◌then◌else◌}
use observability_cli.Ecs.State.{
  WizardError, usage_error, NameFlag, no_flag, Flags, Outside, AddWorkflow, get_profile,
  modify_task, Outcome, next, stops, awf_done, awf_error, fails,
}
use observability_cli.Ecs.Loading.{
  load_cluster_from_flag, load_task_from_flag, load_service_from_flag,
}
use observability_cli.Ecs.Steps.{create_config}

-- What the error of a load is: the outcome of a load that goes on has none.
unfoldable pub error_of : Outcome → Option WizardError
error_of (next _) = none
error_of (stops err) = err

module _ (out : Outside) where
  -- The end of fillFromFlags.
  unfoldable pub flags_filled : Flags → AddWorkflow → AddWorkflow × Outcome
  flags_filled flags wf = elim out.akita_secrets [
    | some e ↦ (wf, awf_error (some e))
    | none ↦ if flags.dry_run_flag then (wf, awf_done) else (wf, next modify_task)
  ]

  unfoldable pub fill_service : Flags → AddWorkflow → NameFlag → AddWorkflow × Outcome
  fill_service flags wf no_flag = (wf, awf_error (some (usage_error "Must specify an ECS service")))
  fill_service flags wf flag =
      let (wf', outcome) = load_service_from_flag out wf flag in
      elim (error_of outcome) [ some e ↦ (wf', awf_error (some e)) | none ↦ flags_filled flags wf' ]

  unfoldable pub fill_task : Flags → AddWorkflow → Option String → AddWorkflow × Outcome
  fill_task flags wf none =
      (wf, awf_error (some (usage_error "Must specify an ECS task definition")))
  fill_task flags wf (some t) =
      let (wf', outcome) = load_task_from_flag out wf t in
      elim (error_of outcome) [
        | some e ↦ (wf', awf_error (some e))
        | none ↦ fill_service flags wf' flags.ecs_service_flag
      ]

  unfoldable pub fill_cluster : Flags → AddWorkflow → NameFlag → AddWorkflow × Outcome
  fill_cluster flags wf no_flag = (wf, awf_error (some (usage_error "Must specify an ECS cluster")))
  fill_cluster flags wf flag =
      let (wf', outcome) = load_cluster_from_flag out wf flag in
      elim (error_of outcome) [
        | some e ↦ (wf', awf_error (some e))
        | none ↦ fill_task flags wf' flags.ecs_task_definition_flag
      ]

  -- Only the outcome of a load that is an error is looked at.
  unfoldable pub fill_from_flags : Flags → AddWorkflow → AddWorkflow × Outcome
  fill_from_flags flags wf =
      let (wf', problem) = create_config out wf in
      elim problem [
        | some _ ↦ (wf', fails "Could not find AWS credentials")
        | none ↦ fill_cluster flags wf' flags.ecs_cluster_flag
      ]

  unfoldable pub init_step : Flags → AddWorkflow → AddWorkflow × Outcome
  init_step flags wf =
      let filled = fill_from_flags flags wf in
      if flags.is_terminal then (wf, next get_profile) else filled
