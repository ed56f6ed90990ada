-- ===== src/Ecs/Loads.antt =====
-- What is to hold before a step of cmd/internal/ecs/add.go, and that the loads from flags keep it.
use observability_cli.Prelude.{
  ◌≡◌, refl, false, some, List, String, string_eq, if_cases, option_cases, Map,
}
use observability_cli.Ecs.State.{
  Answer, ok, unauthorized, failed, TaskDefinition, Change, NameFlag, no_flag, arn_flag, name_flag,
  Flags, Outside, AddWorkflow, Step, get_task, get_service, confirm, modify_task, update_service,
  wait_for_restart, Outcome, next, stops, has_agent, is_tagged, fails,
}
use observability_cli.Ecs.Loading.{
  find_by_name, load_cluster_by_name, load_cluster_from_flag, load_task_answer, load_task_from_flag,
  load_service_by_name, load_service_from_flag,
}

-- A task definition, with its tags, in the workflow.
abbrev pub take_task : AddWorkflow → TaskDefinition → List String → AddWorkflow
take_task wf d tags = record wf {
  ecs_task_definition = some d;
  ecs_task_definition_arn = d.task_definition_arn;
  ecs_task_definition_tags = tags;
}

-- What is to hold of the task definition once one is selected: it is kept while definition and tags
-- stay, and holds of a definition that AWS described and that passed the checks, or that the flag
-- named.
pub record TaskRule (flags : Flags) (out : Outside) (P : AddWorkflow → Type 0) : Type 0 where
  pub kept :
      (wf wf' : AddWorkflow)
      → wf'.ecs_task_definition ≡ wf.ecs_task_definition
      → wf'.ecs_task_definition_tags ≡ wf.ecs_task_definition_tags
      → P wf
      → P wf'
  pub checked :
      (wf : AddWorkflow) (family : String) (d : TaskDefinition) (tags : List String)
      → out.latest_task_definition family ≡ ok (d, tags)
      → has_agent d.containers ≡ false
      → is_tagged tags ≡ false
      → P (take_task wf d tags)
  pub named :
      (wf : AddWorkflow) (d : TaskDefinition) (tags : List String) (t : String)
      → flags.ecs_task_definition_flag ≡ some t
      → out.latest_task_definition t ≡ ok (d, tags)
      → P (take_task wf d tags)

module _ (flags : Flags) (P : AddWorkflow → Type 0) where
  -- What holds before a step, of the steps that change nothing and the first that does.
  abbrev pub Before : Step → AddWorkflow → Type 0
  Before get_service wf = P wf
  Before confirm wf = P wf
  Before modify_task wf = P wf × (flags.dry_run_flag ≡ false)
  Before update_service wf = ⊥
  Before wait_for_restart wf = ⊥
  Before _ wf = Unit

  -- The result of a step has the changes `c`, and what is to hold before the next one.
  abbrev pub Ok : List Change → AddWorkflow × Outcome → Type 0
  Ok c (wf, stops err) = wf.changes ≡ c
  Ok c (wf, next s) = (wf.changes ≡ c) × Before s wf

module _ (flags : Flags) (P : AddWorkflow → Type 0) (out : Outside)
    (rule : TaskRule flags out P) where
  abbrev pub Good : List Change → AddWorkflow × Outcome → Type 0
  Good = Ok flags P

  load_cluster_by_name-Ok :
      (wf : AddWorkflow) (n : String) (a : Answer (Map String String))
      → Good wf.changes (load_cluster_by_name out wf n a)
  unfolding load_cluster_by_name
  load_cluster_by_name-Ok wf n (ok m) =
      option_cases (Good wf.changes) (find_by_name n m) (λ _. refl) λ _ _. (refl, tt)
  load_cluster_by_name-Ok wf n unauthorized = refl
  load_cluster_by_name-Ok wf n failed = refl

  pub load_cluster_from_flag-Ok :
      (wf : AddWorkflow) (f : NameFlag) → Good wf.changes (load_cluster_from_flag out wf f)
  unfolding load_cluster_from_flag
  load_cluster_from_flag-Ok wf no_flag =
      load_cluster_by_name-Ok wf "" (out.clusters_in wf.client_region)
  load_cluster_from_flag-Ok wf (name_flag n) =
      load_cluster_by_name-Ok wf n (out.clusters_in wf.client_region)
  load_cluster_from_flag-Ok wf (arn_flag a) = go (out.cluster_name a)
    where
      go :
          (x : Answer String)
          → Good wf.changes (elim x [
            | ok name ↦ (record wf { ecs_cluster_arn = a; ecs_cluster = name }, next get_task)
            | _ ↦ (wf, fails "Error accessing cluster")
          ])
      go (ok name) = (refl, tt)
      go unauthorized = refl
      go failed = refl

  pub load_task_from_flag-Ok :
      (wf : AddWorkflow) (t : String)
      → flags.ecs_task_definition_flag ≡ some t
      → Good wf.changes (load_task_from_flag out wf t)
  unfolding load_task_from_flag load_task_answer
  load_task_from_flag-Ok wf t e = go (out.latest_task_definition t) refl
    where
      go :
          (a : Answer (TaskDefinition × List String))
          → out.latest_task_definition t ≡ a
          → Good wf.changes (load_task_answer out wf a)
      go (ok (d, tags)) q =
          if_cases (Good wf.changes) d.bridge_mode (λ _. refl)
            (λ _.
              (refl, rule.named (record wf { ecs_task_definition_family = d.family }) d tags t e q))
      go unauthorized q = refl
      go failed q = refl

  load_service_by_name-Ok :
      (wf : AddWorkflow) (n : String) (a : Answer (Map String String))
      → P wf
      → Good wf.changes (load_service_by_name out wf n a)
  unfolding load_service_by_name
  load_service_by_name-Ok wf n (ok m) p =
      option_cases (Good wf.changes) (find_by_name n m) (λ _. refl)
        λ arn _. (refl, rule.kept wf _ refl refl p)
  load_service_by_name-Ok wf n unauthorized p = refl
  load_service_by_name-Ok wf n failed p = refl

  pub load_service_from_flag-Ok :
      (wf : AddWorkflow) (f : NameFlag) → P wf → Good wf.changes (load_service_from_flag out wf f)
  unfolding load_service_from_flag
  load_service_from_flag-Ok wf no_flag p = load_service_by_name-Ok wf "" out.services p
  load_service_from_flag-Ok wf (name_flag n) p = load_service_by_name-Ok wf n out.services p
  load_service_from_flag-Ok wf (arn_flag a) p = go (out.service_with_matching_task a)
    where
      go :
          (x : Answer String)
          → Good wf.changes (elim x [
            | ok name ↦ (record wf { ecs_service = name; ecs_service_arn = a }, next confirm)
            | _ ↦ (wf, fails "Error accessing service")
          ])
      go (ok name) = (refl, rule.kept wf _ refl refl p)
      go unauthorized = refl
      go failed = refl
