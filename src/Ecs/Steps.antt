-- ===== src/Ecs/Steps.antt =====
-- cmd/internal/ecs/add.go: the steps of the wizard.
use observability_cli.Prelude.{
  Option, none, some, List, [], ◌∷◌, String, string_eq, ◌==◌, get, put, if◌then◌else◌, Map,
}
use observability_cli.Ecs.State.{
  interrupt_err, Answer, ok, unauthorized, failed, TaskDefinition, no_flag, arn_flag, name_flag,
  Flags, ConfigAnswer, loaded, half_loaded, no_such_profile, config_error, Outside, AddWorkflow,
  get_profile, get_region, find_cluster_and_region, get_cluster, get_task, get_service, confirm,
  modify_task, Outcome, next, stops, awf_done, fails, go_back_option, find_all_clusters_option,
  has_agent, is_tagged,
}
use observability_cli.Ecs.Loading.{
  load_cluster_from_flag, load_task_from_flag, load_service_from_flag,
}

unfoldable pub value_at : String → Map String String → String
value_at k m = elim (get k m) [ none ↦ "" | some v ↦ v ]

unfoldable pub create_client : AddWorkflow → String → AddWorkflow
create_client wf region = record wf { client_region = region }

-- The listing needs a region, and so sets one where there is none.
unfoldable pub with_regions : List String → AddWorkflow → AddWorkflow
with_regions regions wf = record wf {
  aws_regions = some regions;
  client_region = if wf.client_region == "" then "us-east-1" else wf.client_region;
}

-- The client of the region searched last stays.
unfoldable pub last_client : List String → AddWorkflow → AddWorkflow
last_client [] wf = wf
last_client (r ∷ rs) wf = last_client rs (create_client wf r)

module _ (out : Outside) where
  -- createConfig: none where it succeeds.
  unfoldable pub create_config : AddWorkflow → AddWorkflow × Option ConfigAnswer
  create_config wf = elim out.config [
    | loaded region default_region ↦
        (record wf { aws_region = region; client_region = default_region }, none)
    | half_loaded region ↦ (record wf { aws_region = region }, some config_error)
    | no_such_profile ↦ (wf, some no_such_profile)
    | config_error ↦ (wf, some config_error)
  ]

  unfoldable pub profile_chosen : AddWorkflow → AddWorkflow × Outcome
  profile_chosen wf =
      let (wf', problem) = create_config wf in
      elim problem [
        | none ↦ (wf', next get_region)
        | some no_such_profile ↦ (record wf' { aws_profile = "default" }, next get_profile)
        | some _ ↦ (wf', fails "Error loading AWS credentials")
      ]

  unfoldable pub profile_from_flag : AddWorkflow → AddWorkflow × Outcome
  profile_from_flag wf =
      let (wf', problem) = create_config wf in
      elim problem [
        | none ↦ (wf', next get_region)
        | some _ ↦ (wf', fails "Error loading AWS credentials")
      ]

  unfoldable pub get_profile_state : Flags → AddWorkflow → AddWorkflow × Outcome
  get_profile_state flags wf = elim flags.aws_profile_flag [
    | some p ↦ profile_from_flag (record wf { aws_profile = p })
    | none ↦ elim out.user_answer [
      | none ↦ (wf, stops (some interrupt_err))
      | some p ↦ profile_chosen (record wf { aws_profile = p })
    ]
  ]

  unfoldable pub region_chosen : AddWorkflow → String → AddWorkflow × Outcome
  region_chosen wf region =
      let chosen : AddWorkflow = record wf { aws_region = region } in
      if region == find_all_clusters_option
      then (chosen, next find_cluster_and_region)
      else (create_client chosen region, next get_cluster)

  unfoldable pub get_region_state : Flags → AddWorkflow → AddWorkflow × Outcome
  get_region_state flags wf =
      let listed : AddWorkflow = elim wf.aws_regions [
        | none ↦ with_regions out.regions wf
        | some _ ↦ wf
      ] in
      elim flags.aws_region_flag [
        | some r ↦ (create_client (record wf { aws_region = r }) r, next get_cluster)
        | none ↦ elim out.user_answer [
          | none ↦ (listed, stops (some interrupt_err))
          | some r ↦ region_chosen listed r
        ]
      ]

  -- The clusters of a region are added, each with its name and its region.
  unfoldable pub add_clusters :
      String → Map String String → Map String (String × String) → Map String (String × String)
  add_clusters region [] found = found
  add_clusters region ((arn, name) ∷ m) found = add_clusters region m (put arn (name, region) found)

  unfoldable pub search_regions :
      List String → Map String (String × String) → Map String (String × String)
  search_regions [] found = found
  search_regions (r ∷ rs) found = elim (out.clusters_in r) [
    | ok m ↦ search_regions rs (add_clusters r m found)
    | _ ↦ search_regions rs found
  ]

  unfoldable pub regions_of : AddWorkflow → List String
  regions_of wf = elim wf.aws_regions [ none ↦ [] | some rs ↦ rs ]

  unfoldable pub cluster_found :
      AddWorkflow → Map String (String × String) → String → AddWorkflow × Outcome
  cluster_found wf found arn =
      let (name, region) : String × String = elim (get arn found) [
        | none ↦ ("", "")
        | some p ↦ p
      ] in
      (
        create_client (record wf { ecs_cluster_arn = arn; ecs_cluster = name; aws_region = region })
            region,
        next get_task,
      )

  unfoldable pub find_cluster_and_region_state : AddWorkflow → AddWorkflow × Outcome
  find_cluster_and_region_state wf =
      let found = search_regions (regions_of wf) [] in
      let searched = last_client (regions_of wf) wf in
      elim found [
        | [] ↦ (searched, next get_profile)
        | kv ∷ rest ↦ elim out.user_answer [
          | none ↦ (searched, stops (some interrupt_err))
          | some arn ↦ cluster_found searched (kv ∷ rest) arn
        ]
      ]

  -- A choice of an ARN from a list, or the way back.
  unfoldable pub cluster_chosen : AddWorkflow → Map String String → String → AddWorkflow × Outcome
  cluster_chosen wf clusters arn =
      if arn == go_back_option
      then (wf, next get_region)
      else (record wf { ecs_cluster_arn = arn; ecs_cluster = value_at arn clusters }, next get_task)

  unfoldable pub choose_cluster : AddWorkflow → Answer (Map String String) → AddWorkflow × Outcome
  choose_cluster wf (ok []) = (wf, next get_region)
  choose_cluster wf (ok (kv ∷ rest)) = elim out.user_answer [
    | none ↦ (wf, stops (some interrupt_err))
    | some arn ↦ cluster_chosen wf (kv ∷ rest) arn
  ]
  choose_cluster wf unauthorized = (wf, next get_profile)
  choose_cluster wf failed = (wf, fails "Error while listing ECS clusters")

  unfoldable pub get_cluster_state : Flags → AddWorkflow → AddWorkflow × Outcome
  get_cluster_state flags wf = elim flags.ecs_cluster_flag [
    | no_flag ↦ choose_cluster wf (out.clusters_in wf.client_region)
    | arn_flag a ↦ load_cluster_from_flag out wf (arn_flag a)
    | name_flag n ↦ load_cluster_from_flag out wf (name_flag n)
  ]

  -- The checks of a task definition that the user chose; the fields are set before the last two.
  unfoldable pub check_task :
      AddWorkflow → Answer (TaskDefinition × List String) → AddWorkflow × Outcome
  check_task wf (ok (output, tags)) =
      let taken : AddWorkflow = record wf {
        ecs_task_definition = some output;
        ecs_task_definition_arn = output.task_definition_arn;
        ecs_task_definition_tags = tags;
      } in
      if output.bridge_mode
      then (wf, next get_task)
      else if is_tagged tags
      then (taken, next get_task)
      else if has_agent output.containers
      then (taken, next get_task)
      else (taken, next get_service)
  check_task wf unauthorized = (wf, next get_task)
  check_task wf failed = (wf, fails "Error while loading ECS task definition")

  unfoldable pub task_chosen : AddWorkflow → String → AddWorkflow × Outcome
  task_chosen wf family =
      if family == go_back_option
      then (wf, next get_cluster)
      else check_task (record wf { ecs_task_definition_family = family })
          (out.latest_task_definition family)

  unfoldable pub choose_task : AddWorkflow → Answer (List String) → AddWorkflow × Outcome
  choose_task wf (ok []) = (wf, next get_cluster)
  choose_task wf (ok (f ∷ fs)) = elim out.user_answer [
    | none ↦ (wf, stops (some interrupt_err))
    | some family ↦ task_chosen wf family
  ]
  choose_task wf unauthorized = (wf, next get_profile)
  choose_task wf failed = (wf, fails "Error while listing ECS task definitions")

  unfoldable pub get_task_state : Flags → AddWorkflow → AddWorkflow × Outcome
  get_task_state flags wf = elim flags.ecs_task_definition_flag [
    | none ↦ choose_task wf out.families
    | some t ↦ load_task_from_flag out wf t
  ]

  unfoldable pub service_chosen : AddWorkflow → Map String String → String → AddWorkflow × Outcome
  service_chosen wf services arn =
      if arn == go_back_option
      then (wf, next get_task)
      else (record wf { ecs_service_arn = arn; ecs_service = value_at arn services }, next confirm)

  unfoldable pub choose_service : AddWorkflow → Answer (Map String String) → AddWorkflow × Outcome
  choose_service wf (ok []) = (wf, next get_task)
  choose_service wf (ok (kv ∷ rest)) = elim out.user_answer [
    | none ↦ (wf, stops (some interrupt_err))
    | some arn ↦ service_chosen wf (kv ∷ rest) arn
  ]
  choose_service wf unauthorized = (wf, next get_cluster)
  choose_service wf failed = (wf, fails "Error while listing ECS services")

  unfoldable pub get_service_state : Flags → AddWorkflow → AddWorkflow × Outcome
  get_service_state flags wf = elim flags.ecs_service_flag [
    | no_flag ↦ choose_service wf out.services
    | arn_flag a ↦ load_service_from_flag out wf (arn_flag a)
    | name_flag n ↦ load_service_from_flag out wf (name_flag n)
  ]

  -- The error of the question is not looked at: no answer is a no.
  unfoldable pub confirm_state : Flags → AddWorkflow → AddWorkflow × Outcome
  confirm_state flags wf =
      if flags.dry_run_flag
      then (wf, awf_done)
      else if out.user_confirms
      then (wf, next modify_task)
      else (wf, awf_done)
