-- ===== src/Ecs/State.antt =====
-- cmd/internal/ecs/add.go: the state of the wizard, and what a step has from outside.
use observability_cli.Prelude.{
  ℕ, Bool, false, ◌||◌, Option, none, some, List, [], ◌∷◌, String, string_eq, ◌==◌, Map,
}

-- What ends the wizard early: a misuse of the flags, the user's interrupt, and all else.
pub data WizardError : Type 0 where
  usage_error : String → WizardError
  interrupt_err : WizardError
  other_error : String → WizardError

-- errors.Wrap: nil stays nil.
abbrev pub wrap : Option WizardError → String → Option WizardError
wrap none message = none
wrap (some e) message = some (other_error message)

-- The result of a call of AWS: UnauthorizedOperationError, and other errors.
pub data Answer (A : Type 0) : Type 0 where
  ok : A → Answer A
  unauthorized : Answer A
  failed : Answer A

-- types.ContainerDefinition; `image_name` is the image up to its first colon.
pub record Container : Type 0 where
  pub name : String
  pub image_name : String
  pub entry_point : List String
  pub environment : List (String × String)
  pub essential : Bool
  pub memory_reservation : Option ℕ

-- types.TaskDefinition; `others` stands for the fields that are only copied.
pub record TaskDefinition : Type 0 where
  pub family : String
  pub task_definition_arn : String
  pub bridge_mode : Bool
  pub memory : Option ℕ
  pub containers : List Container
  pub others : ℕ

-- ecs.RegisterTaskDefinitionInput
pub record RegisterInput : Type 0 where
  pub family : String
  pub bridge_mode : Bool
  pub memory : Option ℕ
  pub containers : List Container
  pub others : ℕ
  pub tags : List String

-- The calls that change something at AWS.
pub data Change : Type 0 where
  registers : RegisterInput → Change
  updates : String → String → String → Change
  tags_service : String → Change

-- A flag for a cluster or a service: empty, an ARN, or a name.
pub data NameFlag : Type 0 where
  no_flag : NameFlag
  arn_flag : String → NameFlag
  name_flag : String → NameFlag

-- The configured key, and the flags that are passed on to the agent; `rate_limit_flag` is a limit
-- other than the default one, as FormatFloat prints it.
pub record AgentSettings : Type 0 where
  pub postman_api_key : String
  pub postman_environment : String
  pub project_id : String
  pub rate_limit_flag : Option String
  pub filter_flag : String
  pub host_allowlist_flag : List String
  pub host_exclusions_flag : List String
  pub interfaces_flag : List String
  pub path_allowlist_flag : List String
  pub path_exclusions_flag : List String

-- The flags, and whether the input is a terminal.
pub record Flags : Type 0 where
  pub is_terminal : Bool
  pub aws_profile_flag : Option String
  pub aws_region_flag : Option String
  pub ecs_cluster_flag : NameFlag
  pub ecs_task_definition_flag : Option String
  pub ecs_service_flag : NameFlag
  pub dry_run_flag : Bool

-- What the profile loads: its region and that of the configuration, or an error of the second load.
pub data ConfigAnswer : Type 0 where
  loaded : String → String → ConfigAnswer
  half_loaded : String → ConfigAnswer
  no_such_profile : ConfigAnswer
  config_error : ConfigAnswer

pub data RolloutState : Type 0 where
  in_progress completed rollout_failed no_rollout_state : RolloutState

-- What one step has from outside: the user's answer (none: interrupted), and the answers of AWS to
-- the calls that the step may make. `polls` has the deployment's state at each tick.
pub record Outside : Type 0 where
  pub user_answer : Option String
  pub user_confirms : Bool
  pub config : ConfigAnswer
  pub regions : List String
  pub clusters_in : String → Answer (Map String String)
  pub cluster_name : String → Answer String
  pub families : Answer (List String)
  pub latest_task_definition : String → Answer (TaskDefinition × List String)
  pub services : Answer (Map String String)
  pub service_with_matching_task : String → Answer String
  pub akita_secrets : Option WizardError
  pub agent_settings : AgentSettings
  pub register_task_definition : Answer (TaskDefinition × List String)
  pub update_service : Answer (Unit {0})
  pub deployment_matching_task : Option RolloutState
  pub polls : ℕ → Option RolloutState
  pub ticks_in_time : ℕ

-- AddWorkflow. `changes` has the calls that changed something, the last one first; the
-- secrets, which are disabled, are left out. `client_region` is the region of the configuration that
-- clients are made from.
pub record AddWorkflow : Type 0 where
  pub aws_profile : String
  pub aws_region : String
  pub aws_regions : Option (List String)
  pub client_region : String
  pub ecs_cluster : String
  pub ecs_cluster_arn : String
  pub ecs_task_definition_family : String
  pub ecs_task_definition_tags : List String
  pub ecs_task_definition_arn : String
  pub ecs_task_definition : Option TaskDefinition
  pub ecs_service : String
  pub ecs_service_arn : String
  pub changes : List Change

pub data Step : Type 0 where
  init_state get_profile get_region find_cluster_and_region get_cluster get_task get_service confirm
        modify_task update_service wait_for_restart :
      Step

-- What a step returns: the next one, or none with an error or nil.
pub data Outcome : Type 0 where
  next : Step → Outcome
  stops : Option WizardError → Outcome

abbrev pub awf_done : Outcome
awf_done = stops none

abbrev pub awf_error : Option WizardError → Outcome
awf_error err = stops err

abbrev pub fails : String → Outcome
fails message = stops (some (other_error message))

unfoldable pub new_add_workflow : AddWorkflow
new_add_workflow = record {
  aws_profile = "default";
  aws_region = "";
  aws_regions = none;
  client_region = "";
  ecs_cluster = "";
  ecs_cluster_arn = "";
  ecs_task_definition_family = "";
  ecs_task_definition_tags = [];
  ecs_task_definition_arn = "";
  ecs_task_definition = none;
  ecs_service = "";
  ecs_service_arn = "";
  changes = [];
}

abbrev pub go_back_option : String
go_back_option = "Return to previous choice."

abbrev pub find_all_clusters_option : String
find_all_clusters_option = "Search all regions."

abbrev pub creation_tag : String
creation_tag = "postman:created_by"

abbrev pub modification_tag : String
modification_tag = "postman:modified_by"

abbrev pub postman_ecr_image : String
postman_ecr_image = "docker.postman.com/postman-insights-agent"

abbrev pub akita_ecr_image : String
akita_ecr_image = "public.ecr.aws/akitasoftware/akita-cli"

abbrev pub akita_docker_image : String
akita_docker_image = "akitasoftware/cli"

unfoldable pub matches_image : Container → String → Bool
matches_image c base_name = c.image_name == base_name

-- One of the containers is the agent or the old CLI.
unfoldable pub has_agent : List Container → Bool
has_agent [] = false
has_agent (c ∷ cs) =
    matches_image c postman_ecr_image
    || (matches_image c akita_ecr_image || (matches_image c akita_docker_image || has_agent cs))

unfoldable pub is_tagged : List String → Bool
is_tagged [] = false
is_tagged (t ∷ ts) = (t == creation_tag) || ((t == modification_tag) || is_tagged ts)
