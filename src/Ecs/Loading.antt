-- ===== src/Ecs/Loading.antt =====
-- cmd/internal/ecs/add.go: what the flags name is looked up.
use observability_cli.Prelude.{
  Option, none, some, List, [], ◌∷◌, String, string_eq, ◌==◌, if◌then◌else◌, Map,
}
use observability_cli.Ecs.State.{
  wrap, Answer, ok, TaskDefinition, NameFlag, no_flag, arn_flag, name_flag, Outside, AddWorkflow,
  get_task, get_service, confirm, Outcome, next, awf_error, fails,
}

-- The first ARN in the order of the map with this name.
unfoldable pub find_by_name : String → Map String String → Option String
find_by_name n [] = none
find_by_name n ((arn, name) ∷ m) =
    let rest = find_by_name n m in if name == n then some arn else rest

module _ (out : Outside) (wf : AddWorkflow) where
  -- A failed listing is wrapped as `err`, which is still nil there, in place of `listErr`.
  unfoldable pub load_cluster_by_name : String → Answer (Map String String) → AddWorkflow × Outcome
  load_cluster_by_name n (ok clusters) = elim (find_by_name n clusters) [
    | some arn ↦ (record wf { ecs_cluster_arn = arn; ecs_cluster = n }, next get_task)
    | none ↦ (wf, fails "No cluster found")
  ]
  load_cluster_by_name n _ = (wf, awf_error (wrap none "Error listing clusters"))

  unfoldable pub load_cluster_from_flag : NameFlag → AddWorkflow × Outcome
  load_cluster_from_flag (arn_flag arn) = elim (out.cluster_name arn) [
    | ok name ↦ (record wf { ecs_cluster_arn = arn; ecs_cluster = name }, next get_task)
    | _ ↦ (wf, fails "Error accessing cluster")
  ]
  load_cluster_from_flag (name_flag n) = load_cluster_by_name n (out.clusters_in wf.client_region)
  load_cluster_from_flag no_flag = load_cluster_by_name "" (out.clusters_in wf.client_region)

  unfoldable pub load_task_answer : Answer (TaskDefinition × List String) → AddWorkflow × Outcome
  load_task_answer (ok (output, tags)) =
      if output.bridge_mode then (wf, fails "bridge networking not supported") else (
        record wf {
          ecs_task_definition = some output;
          ecs_task_definition_family = output.family;
          ecs_task_definition_arn = output.task_definition_arn;
          ecs_task_definition_tags = tags;
        },
        next get_service,
      )
  load_task_answer _ = (wf, fails "Error loading task definition")

  unfoldable pub load_task_from_flag : String → AddWorkflow × Outcome
  load_task_from_flag flag = load_task_answer (out.latest_task_definition flag)

  -- Here too a failed listing is wrapped as an error that is nil.
  unfoldable pub load_service_by_name : String → Answer (Map String String) → AddWorkflow × Outcome
  load_service_by_name n (ok services) = elim (find_by_name n services) [
    | some arn ↦ (record wf { ecs_service_arn = arn; ecs_service = n }, next confirm)
    | none ↦ (wf, fails "No service found")
  ]
  load_service_by_name n _ = (wf, awf_error (wrap none "Error listing services"))

  unfoldable pub load_service_from_flag : NameFlag → AddWorkflow × Outcome
  load_service_from_flag (arn_flag arn) = elim (out.service_with_matching_task arn) [
    | ok name ↦ (record wf { ecs_service = name; ecs_service_arn = arn }, next confirm)
    | _ ↦ (wf, fails "Error accessing service")
  ]
  load_service_from_flag (name_flag n) = load_service_by_name n out.services
  load_service_from_flag no_flag = load_service_by_name "" out.services
