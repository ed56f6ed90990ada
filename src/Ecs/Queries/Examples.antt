-- ===== src/Ecs/Queries/Examples.antt =====
-- What the wizard of cmd/internal/ecs asks of AWS: runs of cmd/internal/ecs/aws_api.go.
use mathlib.Core.Path.{subst}
use observability_cli.Prelude.{
  ltb, length, inr, ◌≡◌, refl, true, some, [], ◌∷◌, String, string_eq, ◌==◌, map, All, get, put,
  if◌then◌else◌,
}
use observability_cli.Ecs.State.{
  ok, unauthorized, Outside, AddWorkflow, in_progress, next, confirm, new_add_workflow,
}
use observability_cli.Ecs.Steps.{get_service_state, choose_service, service_chosen, value_at}
use observability_cli.Ecs.Examples.{web, outside, attended}
use observability_cli.Ecs.Queries.{
  AwsError, got, refused, Service, Deployment, EcsClient, all_pages, batches, add_names,
  describe_batches, list_aws_objects_by_name, list_ecs_services, filter_services, task_in_family,
  get_service, get_deployment_by_id, first_service, deployment_with, is_unauthorized,
}
use observability_cli.Ecs.Queries.Batches.{IsBatch, concat, batches_cover}
use observability_cli.Ecs.Queries.Families.{in_family}
use observability_cli.Ecs.Queries.Choice.{Runs, IsOption, get_service_state-Runs}

abbrev denied : AwsError
denied = record { error_code = some "AccessDeniedException"; in_operation = true }

abbrev too_many : AwsError
too_many = record { error_code = some "InvalidParameterException"; in_operation = true }

-- The service of an ARN, and two task definitions, of which one cannot be described.
abbrev service : String → Service
service arn = record {
  service_arn = arn;
  service_name = "front";
  task_definition = if arn == "arn:service" then "arn:task:1" else "arn:task:9";
  deployments =
      record { id = "d1"; task_definition = "arn:task:1"; rollout_state = in_progress } ∷ [];
}

abbrev client : EcsClient
client = record {
  list_clusters = got [] ∷ [];
  describe_clusters = λ _. got [];
  list_task_definition_families = got ("web" ∷ []) ∷ refused denied ∷ [];
  describe_task_definition = λ t. if t == "arn:task:1" then got (web, []) else refused denied;
  list_services = λ _. got ("arn:other" ∷ []) ∷ got ("arn:service" ∷ []) ∷ [];
  describe_services =
      λ _ arns. if ltb 10 (length arns) then refused too_many else got (map service arns);
}

abbrev selected : AddWorkflow
selected = record new_add_workflow {
  ecs_cluster_arn = "arn:cluster";
  ecs_task_definition = some web;
  ecs_task_definition_arn = "arn:task:1";
  ecs_task_definition_family = "web";
}

batches_cover_example :
    All IsBatch (batches 2 ("arn:other" ∷ "arn:service" ∷ []))
    × (concat (batches 2 ("arn:other" ∷ "arn:service" ∷ [])) ≡ "arn:other" ∷ "arn:service" ∷ [])
batches_cover_example = batches_cover ("arn:other" ∷ "arn:service" ∷ [])

listed : list_ecs_services client selected ≡ ok (("arn:service", "front") ∷ [])
unfolding list_ecs_services list_aws_objects_by_name all_pages describe_batches batches
    filter_services task_in_family add_names get put new_add_workflow is_unauthorized
listed = refl

abbrev choosing : Outside
choosing = record outside {
  services = list_ecs_services client selected;
  user_answer = some "arn:service";
}

offered :
    (a : String) → choosing.user_answer ≡ some a → IsOption (list_ecs_services client selected) a
unfolding get
offered a e =
    let same : "arn:service" ≡ a = cc in
    rw listed (
      inr (
        "front",
        subst (λ k. get {V = String} k (("arn:service", "front") ∷ []) ≡ some "front") same refl,
      ))

goes_on :
    get_service_state choosing attended selected
    ≡ (record selected { ecs_service_arn = "arn:service"; ecs_service = "front" }, next confirm)
unfolding get_service_state choose_service service_chosen value_at get new_add_workflow
goes_on = rw listed refl

get_service_state-Runs_example : Runs client selected ("arn:service", "front")
unfolding new_add_workflow in_family get get_service_state choose_service service_chosen value_at
get_service_state-Runs_example =
    get_service_state-Runs client choosing attended selected
      (record selected { ecs_service_arn = "arn:service"; ecs_service = "front" }) refl refl offered
      refl goes_on

families_denied : all_pages client.list_task_definition_families ≡ unauthorized
unfolding all_pages is_unauthorized
families_denied = refl

deployment_found :
    (d : Deployment) × (get_deployment_by_id client selected "arn:service" "d1" ≡ ok d)
unfolding get_deployment_by_id get_service first_service deployment_with
deployment_found = (_, refl)
