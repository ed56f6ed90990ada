-- ===== src/Ecs/Agent.antt =====
-- cmd/internal/ecs/add.go: the container of the agent.
use observability_cli.Prelude.{
  Bool, Option, none, some, List, [], ◌∷◌, ◌++◌, String, string_eq, ◌==◌, if◌then◌else◌,
}
use observability_cli.Ecs.State.{Container, AgentSettings, postman_ecr_image}

-- addOptToEnv
unfoldable pub add_opt_to_env : String → Option String → List (String × String)
add_opt_to_env name none = []
add_opt_to_env name (some value) = (name, value) ∷ []

unfoldable pub agent_environment :
    AgentSettings → Option String → Option String → Option String → List (String × String)
agent_environment a aws_region ecs_service family =
    (if a.postman_environment == "" then [] else ("POSTMAN_ENV", a.postman_environment) ∷ [])
    ++ (("POSTMAN_API_KEY", a.postman_api_key)
        ∷ (add_opt_to_env "POSTMAN_AWS_REGION" aws_region
            ++ (add_opt_to_env "POSTMAN_ECS_SERVICE" ecs_service
                ++ add_opt_to_env "POSTMAN_ECS_TASK" family)))

-- A flag once for each value.
unfoldable pub add_slice_flag : String → List String → List String
add_slice_flag flag [] = []
add_slice_flag flag (v ∷ vs) = flag ∷ v ∷ add_slice_flag flag vs

unfoldable pub agent_entry_point : AgentSettings → List String
agent_entry_point a =
    let rate_limit : List String = elim a.rate_limit_flag [
      | none ↦ []
      | some limit ↦ "--rate-limit" ∷ limit ∷ []
    ] in
    let filter : List String =
      if a.filter_flag == "" then [] else "--filter" ∷ a.filter_flag ∷ [] in
    "/postman-insights-agent"
    ∷ "apidump"
    ∷ "--project"
    ∷ a.project_id
    ∷ (rate_limit
        ++ (filter
            ++ (add_slice_flag "--host-allow" a.host_allowlist_flag
                ++ (add_slice_flag "--host-exclusions" a.host_exclusions_flag
                    ++ (add_slice_flag "--interfaces" a.interfaces_flag
                        ++ (add_slice_flag "--path-allow" a.path_allowlist_flag
                            ++ add_slice_flag "--path-exclusions" a.path_exclusions_flag))))))

unfoldable pub make_agent_container_definition :
    AgentSettings → Option String → Option String → Option String → Bool → Container
make_agent_container_definition a aws_region ecs_service family essential = record {
  name = "postman-insights-agent";
  image_name = postman_ecr_image;
  entry_point = agent_entry_point a;
  environment = agent_environment a aws_region ecs_service family;
  essential = essential;
  memory_reservation = none;
}
