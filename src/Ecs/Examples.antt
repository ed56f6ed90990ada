-- ===== src/Ecs/Examples.antt =====
-- Runs of the wizard of cmd/internal/ecs/add.go.
use observability_cli.Prelude.{
  ◌≡◌, refl, ℕ, zero, suc, true, false, Option, none, some, List, [], ◌∷◌, String,
}
use observability_cli.Ecs.Agent.{agent_entry_point, add_slice_flag}
use observability_cli.Ecs.State.{
  Container, AgentSettings, ok, TaskDefinition, no_flag, name_flag, Flags, loaded, RolloutState,
  in_progress, Outside, AddWorkflow, new_add_workflow,
}
use observability_cli.Ecs.Run.{run_rounds}
use observability_cli.Ecs.Changes.{
  at_start, changes_in, IsOrdered, IsFresh, WasRead, run_rounds-IsOrdered, run_rounds_dry,
  run_rounds-IsFresh,
}
use observability_cli.Ecs.Unattended.{HasEnded, run_rounds-HasEnded}

abbrev nginx : Container
nginx = record {
  name = "web";
  image_name = "nginx";
  entry_point = "nginx" ∷ [];
  environment = [];
  essential = true;
  memory_reservation = some 128;
}

abbrev settings : AgentSettings
settings = record {
  postman_api_key = "key";
  postman_environment = "";
  project_id = "svc_1";
  rate_limit_flag = none;
  filter_flag = "";
  host_allowlist_flag = "a.com" ∷ "b.com" ∷ [];
  host_exclusions_flag = [];
  interfaces_flag = [];
  path_allowlist_flag = [];
  path_exclusions_flag = [];
}

agent_entry_point_run :
    agent_entry_point settings
    ≡ "/postman-insights-agent" ∷ "apidump" ∷ "--project" ∷ "svc_1" ∷ "--host-allow" ∷ "a.com"
      ∷ "--host-allow" ∷ "b.com" ∷ []
unfolding agent_entry_point add_slice_flag
agent_entry_point_run = refl

abbrev pub web : TaskDefinition
web = record {
  family = "web";
  task_definition_arn = "arn:task:1";
  bridge_mode = false;
  memory = none;
  containers = nginx ∷ [];
  others = 7;
}

abbrev web_with_agent : TaskDefinition
web_with_agent = record web { task_definition_arn = "arn:task:2" }

-- The second poll fails.
abbrev polls : ℕ → Option RolloutState
polls zero = some in_progress
polls (suc n) = none

abbrev pub outside : Outside
outside = record {
  user_answer = some "default";
  user_confirms = true;
  config = loaded "us-east-1" "us-east-1";
  regions = "us-east-1" ∷ [];
  clusters_in = λ _. ok (("arn:cluster", "main") ∷ []);
  cluster_name = λ _. ok "main";
  families = ok ("web" ∷ []);
  latest_task_definition = λ _. ok (web, []);
  services = ok (("arn:service", "front") ∷ []);
  service_with_matching_task = λ _. ok "front";
  akita_secrets = none;
  agent_settings = settings;
  register_task_definition = ok (web_with_agent, []);
  update_service = ok tt;
  deployment_matching_task = some in_progress;
  polls = polls;
  ticks_in_time = 19;
}

abbrev answering : String → Outside
answering a = record outside { user_answer = some a }

abbrev unattended : Flags
unattended = record {
  is_terminal = false;
  aws_profile_flag = none;
  aws_region_flag = none;
  ecs_cluster_flag = name_flag "main";
  ecs_task_definition_flag = some "web";
  ecs_service_flag = name_flag "front";
  dry_run_flag = false;
}

abbrev pub attended : Flags
attended = record unattended {
  is_terminal = true;
  ecs_cluster_flag = no_flag;
  ecs_task_definition_flag = none;
  ecs_service_flag = no_flag;
}

abbrev dry : Flags
dry = record unattended { dry_run_flag = true }

-- At a terminal, each round with what the user answers.
abbrev session : List Outside
session =
    outside
    ∷ answering "default"
    ∷ answering "us-east-1"
    ∷ answering "arn:cluster"
    ∷ answering "web"
    ∷ answering "arn:service"
    ∷ outside
    ∷ outside
    ∷ outside
    ∷ []

run_rounds-IsOrdered_example :
    IsOrdered attended (WasRead session) (run_rounds attended at_start session)
run_rounds-IsOrdered_example = run_rounds-IsOrdered attended session

run_rounds-IsFresh_example : IsOrdered attended IsFresh (run_rounds attended at_start session)
run_rounds-IsFresh_example = run_rounds-IsFresh attended session refl

run_rounds_dry_example :
    changes_in (run_rounds dry at_start (outside ∷ outside ∷ outside ∷ [])) ≡ []
run_rounds_dry_example = run_rounds_dry dry (outside ∷ outside ∷ outside ∷ []) refl

run_rounds-HasEnded_example :
    HasEnded (run_rounds unattended at_start (outside ∷ outside ∷ outside ∷ outside ∷ []))
run_rounds-HasEnded_example = run_rounds-HasEnded unattended outside outside outside outside [] refl

abbrev selected : AddWorkflow
selected = record new_add_workflow {
  ecs_cluster_arn = "arn:cluster";
  ecs_task_definition = some web;
  ecs_service_arn = "arn:service";
}
