-- ===== src/Ecs/Filling.antt =====
-- The run without a terminal of cmd/internal/ecs/add.go fills in everything from the flags.
use mathlib.Core.Path.{subst}
use observability_cli.Prelude.{
  ◌≡◌, refl, Option, none, some, List, String, if_cases, option_cases, Map,
}
use observability_cli.Ecs.State.{
  ConfigAnswer, loaded, half_loaded, no_such_profile, config_error, Answer, ok, unauthorized,
  failed, TaskDefinition, Change, NameFlag, no_flag, arn_flag, name_flag, Flags, Outside,
  AddWorkflow, confirm, Outcome, next, stops, awf_error, fails,
}
use observability_cli.Ecs.Loading.{
  find_by_name, load_cluster_from_flag, load_task_answer, load_task_from_flag, load_service_by_name,
  load_service_from_flag,
}
use observability_cli.Ecs.Steps.{create_config}
use observability_cli.Ecs.FromFlags.{
  error_of, flags_filled, fill_service, fill_task, fill_cluster, fill_from_flags, init_step,
}
use observability_cli.Ecs.Loads.{
  take_task, TaskRule, Ok, load_cluster_from_flag-Ok, load_service_from_flag-Ok,
}

-- A load of a service leaves the task definition alone.
abbrev SameTask : AddWorkflow → AddWorkflow × Outcome → Type 0
SameTask wf (wf', o) =
    (wf'.ecs_task_definition ≡ wf.ecs_task_definition)
    × (wf'.ecs_task_definition_tags ≡ wf.ecs_task_definition_tags)

module _ (out : Outside) where
  load_service_by_name-SameTask :
      (wf : AddWorkflow) (n : String) (a : Answer (Map String String))
      → SameTask wf (load_service_by_name out wf n a)
  unfolding load_service_by_name
  load_service_by_name-SameTask wf n (ok m) =
      option_cases (SameTask wf) (find_by_name n m) (λ _. (refl, refl)) λ _ _. (refl, refl)
  load_service_by_name-SameTask wf n unauthorized = (refl, refl)
  load_service_by_name-SameTask wf n failed = (refl, refl)

  load_service_from_flag-SameTask :
      (wf : AddWorkflow) (f : NameFlag) → SameTask wf (load_service_from_flag out wf f)
  unfolding load_service_from_flag
  load_service_from_flag-SameTask wf no_flag = load_service_by_name-SameTask wf "" out.services
  load_service_from_flag-SameTask wf (name_flag n) = load_service_by_name-SameTask wf n out.services
  load_service_from_flag-SameTask wf (arn_flag a) = go (out.service_with_matching_task a)
    where
      go :
          (x : Answer String)
          → SameTask wf (elim x [
            | ok name ↦ (record wf { ecs_service = name; ecs_service_arn = a }, next confirm)
            | _ ↦ (wf, fails "Error accessing service")
          ])
      go (ok name) = (refl, refl)
      go unauthorized = (refl, refl)
      go failed = (refl, refl)

module _ (flags : Flags) (P : AddWorkflow → Type 0) (out : Outside)
    (rule : TaskRule flags out P) where
  abbrev Filled : List Change → AddWorkflow × Outcome → Type 0
  Filled = Ok flags P

  changes_of :
      (c : List Change) (wf : AddWorkflow) (o : Outcome) → Filled c (wf, o) → wf.changes ≡ c
  changes_of c wf (next s) h = h.0
  changes_of c wf (stops e) h = h

  -- An error of a load ends it, and else the rest decides.
  on_error :
      (c : List Change) (wf : AddWorkflow) (o : Outcome) (rest : AddWorkflow × Outcome)
      → wf.changes ≡ c
      → Filled c rest
      → Filled c (elim (error_of o) [ some e ↦ (wf, awf_error (some e)) | none ↦ rest ])
  unfolding error_of
  on_error c wf (next s) rest h r = r
  on_error c wf (stops none) rest h r = r
  on_error c wf (stops (some e)) rest h r = h

  flags_filled-Ok : (wf : AddWorkflow) → P wf → Filled wf.changes (flags_filled out flags wf)
  unfolding flags_filled
  flags_filled-Ok wf p =
      option_cases (Filled wf.changes) out.akita_secrets
        (λ _. if_cases (Filled wf.changes) flags.dry_run_flag (λ _. refl) (λ wet. (refl, (p, wet))))
        λ _ _. refl

  -- The rest of a load from a flag, once it kept what is to hold of the task definition.
  after_service :
      (c : List Change) (r : AddWorkflow × Outcome)
      → (r.0.changes ≡ c)
      → P r.0
      → Filled c (elim (error_of r.1) [
        | some e ↦ (r.0, awf_error (some e))
        | none ↦ flags_filled out flags r.0
      ])
  after_service c r e p =
      on_error c r.0 r.1 _ e
        (subst (λ d. Filled d (flags_filled out flags r.0)) e (flags_filled-Ok r.0 p))

  load_service-changes :
      (wf : AddWorkflow) (f : NameFlag)
      → P wf
      → (load_service_from_flag out wf f).0.changes ≡ wf.changes
  load_service-changes wf f p =
      let r = load_service_from_flag out wf f in
      changes_of wf.changes r.0 r.1 (load_service_from_flag-Ok flags P out rule wf f p)

  load_service-P : (wf : AddWorkflow) (f : NameFlag) → P wf → P (load_service_from_flag out wf f).0
  load_service-P wf f p =
      let same = load_service_from_flag-SameTask out wf f in rule.kept wf _ same.0 same.1 p

  fill_service-Ok :
      (wf : AddWorkflow) (f : NameFlag) → P wf → Filled wf.changes (fill_service out flags wf f)
  unfolding fill_service
  fill_service-Ok wf no_flag p = refl
  fill_service-Ok wf (arn_flag a) p =
      after_service wf.changes _ (load_service-changes wf (arn_flag a) p)
        (load_service-P wf (arn_flag a) p)
  fill_service-Ok wf (name_flag n) p =
      after_service wf.changes _ (load_service-changes wf (name_flag n) p)
        (load_service-P wf (name_flag n) p)

  fill_task-Ok :
      (wf : AddWorkflow) (o : Option String)
      → flags.ecs_task_definition_flag ≡ o
      → Filled wf.changes (fill_task out flags wf o)
  unfolding fill_task load_task_from_flag load_task_answer error_of
  fill_task-Ok wf none e = refl
  fill_task-Ok wf (some t) e = go (out.latest_task_definition t) refl
    where
      AfterTask : AddWorkflow × Outcome → Type 0
      AfterTask (wf', o) = Filled wf.changes (elim (error_of o) [
        | some e ↦ (wf', awf_error (some e))
        | none ↦ fill_service out flags wf' flags.ecs_service_flag
      ])

      go :
          (a : Answer (TaskDefinition × List String))
          → out.latest_task_definition t ≡ a
          → AfterTask (load_task_answer out wf a)
      go (ok (d, tags)) q =
          if_cases AfterTask d.bridge_mode (λ _. refl)
            (λ _.
              let taken = take_task (record wf { ecs_task_definition_family = d.family }) d tags in
              fill_service-Ok taken flags.ecs_service_flag
                (rule.named (record wf { ecs_task_definition_family = d.family }) d tags t e q))
      go unauthorized q = refl
      go failed q = refl

  after_cluster :
      (wf : AddWorkflow) (f : NameFlag)
      → let (wf', o) = load_cluster_from_flag out wf f in
        Filled wf.changes (elim (error_of o) [
          | some e ↦ (wf', awf_error (some e))
          | none ↦ fill_task out flags wf' flags.ecs_task_definition_flag
        ])
  after_cluster wf f =
      let r = load_cluster_from_flag out wf f in
      let e = changes_of wf.changes r.0 r.1 (load_cluster_from_flag-Ok flags P out rule wf f) in
      on_error wf.changes r.0 r.1 _ e (
        subst (λ d. Filled d (fill_task out flags r.0 flags.ecs_task_definition_flag)) e
          (fill_task-Ok r.0 flags.ecs_task_definition_flag refl))

  fill_cluster-Ok :
      (wf : AddWorkflow) (f : NameFlag) → Filled wf.changes (fill_cluster out flags wf f)
  unfolding fill_cluster
  fill_cluster-Ok wf no_flag = refl
  fill_cluster-Ok wf (arn_flag a) = after_cluster wf (arn_flag a)
  fill_cluster-Ok wf (name_flag n) = after_cluster wf (name_flag n)

  fill_from_flags-Ok : (wf : AddWorkflow) → Filled wf.changes (fill_from_flags out flags wf)
  unfolding fill_from_flags create_config
  fill_from_flags-Ok wf = go out.config
    where
      go :
          (c : ConfigAnswer)
          → let (wf', problem) : AddWorkflow × Option ConfigAnswer = elim c [
            | loaded region default_region ↦
                (record wf { aws_region = region; client_region = default_region }, none)
            | half_loaded region ↦ (record wf { aws_region = region }, some config_error)
            | no_such_profile ↦ (wf, some no_such_profile)
            | config_error ↦ (wf, some config_error)
          ] in
            Filled wf.changes (elim problem [
              | some _ ↦ (wf', fails "Could not find AWS credentials")
              | none ↦ fill_cluster out flags wf' flags.ecs_cluster_flag
            ])
      go (loaded region default_region) =
          fill_cluster-Ok (record wf { aws_region = region; client_region = default_region })
            flags.ecs_cluster_flag
      go (half_loaded region) = refl
      go no_such_profile = refl
      go config_error = refl

  pub init_step-Ok : (wf : AddWorkflow) → Filled wf.changes (init_step out flags wf)
  unfolding init_step
  init_step-Ok wf =
      if_cases (Filled wf.changes) flags.is_terminal (λ _. (refl, tt)) λ _. fill_from_flags-Ok wf
