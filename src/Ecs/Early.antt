-- ===== src/Ecs/Early.antt =====
-- The steps of cmd/internal/ecs/add.go before the first change: none of them changes anything.
use observability_cli.Prelude.{
  ◌≡◌, refl, Option, none, some, List, [], ◌∷◌, String, string_eq, ◌==◌, if_cases, option_cases,
  Map, arith,
}
use observability_cli.Ecs.State.{
  interrupt_err, Answer, ok, unauthorized, failed, TaskDefinition, Change, NameFlag, no_flag,
  arn_flag, name_flag, Flags, Outside, AddWorkflow, get_profile, Outcome, next, stops,
  go_back_option, find_all_clusters_option, has_agent, is_tagged,
}
use observability_cli.Ecs.Loading.{load_cluster_from_flag, load_service_from_flag}
use observability_cli.Ecs.Steps.{
  create_client, create_config, profile_chosen, profile_from_flag, get_profile_state, region_chosen,
  get_region_state, search_regions, regions_of, with_regions, last_client, cluster_found,
  find_cluster_and_region_state, cluster_chosen, choose_cluster, get_cluster_state, check_task,
  task_chosen, choose_task, get_task_state, service_chosen, choose_service, get_service_state,
  confirm_state,
}
use observability_cli.Ecs.Loads.{
  TaskRule, Ok, load_cluster_from_flag-Ok, load_task_from_flag-Ok, load_service_from_flag-Ok,
}

module _ (flags : Flags) (P : AddWorkflow → Type 0) (out : Outside)
    (rule : TaskRule flags out P) where
  abbrev Fine : List Change → AddWorkflow × Outcome → Type 0
  Fine = Ok flags P

  profile_from_flag-Ok : (wf : AddWorkflow) → Fine wf.changes (profile_from_flag out wf)
  unfolding profile_from_flag create_config
  profile_from_flag-Ok wf = ground arith

  profile_chosen-Ok : (wf : AddWorkflow) → Fine wf.changes (profile_chosen out wf)
  unfolding profile_chosen create_config
  profile_chosen-Ok wf = ground arith

  pub get_profile_state-Ok : (wf : AddWorkflow) → Fine wf.changes (get_profile_state out flags wf)
  unfolding get_profile_state
  get_profile_state-Ok wf =
      option_cases (Fine wf.changes) flags.aws_profile_flag
        (λ _.
          option_cases (Fine wf.changes) out.user_answer (λ _. refl)
            λ p _. profile_chosen-Ok (record wf { aws_profile = p }))
        λ p _. profile_from_flag-Ok (record wf { aws_profile = p })

  region_chosen-Ok : (wf : AddWorkflow) (r : String) → Fine wf.changes (region_chosen out wf r)
  unfolding region_chosen create_client
  region_chosen-Ok wf r =
      if_cases (Fine wf.changes) (r == find_all_clusters_option) (λ _. (refl, tt)) (λ _. (refl, tt))

  pub get_region_state-Ok : (wf : AddWorkflow) → Fine wf.changes (get_region_state out flags wf)
  unfolding get_region_state create_client with_regions
  get_region_state-Ok wf =
      option_cases (Fine wf.changes) flags.aws_region_flag (λ _. go wf.aws_regions)
        λ r _. (refl, tt)
    where
      go :
          (o : Option (List String))
          → let listed : AddWorkflow = elim o [
            | none ↦ with_regions out.regions wf
            | some _ ↦ wf
          ] in
            Fine wf.changes (elim out.user_answer [
              | none ↦ (listed, stops (some interrupt_err))
              | some r ↦ region_chosen out listed r
            ])
      go none =
          option_cases (Fine wf.changes) out.user_answer (λ _. refl)
            λ r _. region_chosen-Ok (with_regions out.regions wf) r
      go (some _) =
          option_cases (Fine wf.changes) out.user_answer (λ _. refl) λ r _. region_chosen-Ok wf r

  last_client-changes :
      (rs : List String) (wf : AddWorkflow) → (last_client rs wf).changes ≡ wf.changes
  unfolding last_client create_client
  last_client-changes [] wf = refl
  last_client-changes (r ∷ rs) wf = last_client-changes rs (create_client wf r)

  pub find_cluster_and_region_state-Ok :
      (wf : AddWorkflow) → Fine wf.changes (find_cluster_and_region_state out wf)
  unfolding find_cluster_and_region_state cluster_found create_client
  find_cluster_and_region_state-Ok wf =
      go (search_regions out (regions_of out wf) []) (last_client (regions_of out wf) wf)
        (last_client-changes (regions_of out wf) wf)
    where
      go :
          (found : Map String (String × String)) (searched : AddWorkflow)
          → searched.changes ≡ wf.changes
          → Fine wf.changes (elim found [
            | [] ↦ (searched, next get_profile)
            | kv ∷ rest ↦ elim out.user_answer [
              | none ↦ (searched, stops (some interrupt_err))
              | some arn ↦ cluster_found out searched (kv ∷ rest) arn
            ]
          ])
      go [] searched e = (e, tt)
      go (kv ∷ rest) searched e =
          option_cases (Fine wf.changes) out.user_answer (λ _. e) λ arn _. (e, tt)

  choose_cluster-Ok :
      (wf : AddWorkflow) (a : Answer (Map String String))
      → Fine wf.changes (choose_cluster out wf a)
  unfolding choose_cluster cluster_chosen
  choose_cluster-Ok wf (ok []) = (refl, tt)
  choose_cluster-Ok wf (ok (kv ∷ rest)) =
      option_cases (Fine wf.changes) out.user_answer (λ _. refl)
        λ arn _.
          if_cases (Fine wf.changes) (arn == go_back_option) (λ _. (refl, tt)) (λ _. (refl, tt))
  choose_cluster-Ok wf unauthorized = (refl, tt)
  choose_cluster-Ok wf failed = refl

  pub get_cluster_state-Ok : (wf : AddWorkflow) → Fine wf.changes (get_cluster_state out flags wf)
  unfolding get_cluster_state
  get_cluster_state-Ok wf = go flags.ecs_cluster_flag
    where
      go :
          (f : NameFlag)
          → Fine wf.changes (elim f [
            | no_flag ↦ choose_cluster out wf (out.clusters_in wf.client_region)
            | arn_flag a ↦ load_cluster_from_flag out wf (arn_flag a)
            | name_flag n ↦ load_cluster_from_flag out wf (name_flag n)
          ])
      go no_flag = choose_cluster-Ok wf (out.clusters_in wf.client_region)
      go (arn_flag a) = load_cluster_from_flag-Ok flags P out rule wf (arn_flag a)
      go (name_flag n) = load_cluster_from_flag-Ok flags P out rule wf (name_flag n)

  check_task-Ok :
      (wf : AddWorkflow) (family : String) (a : Answer (TaskDefinition × List String))
      → out.latest_task_definition family ≡ a
      → Fine wf.changes (check_task out wf a)
  unfolding check_task
  check_task-Ok wf family (ok (d, tags)) q =
      if_cases (Fine wf.changes) d.bridge_mode (λ _. (refl, tt))
        (λ _.
          if_cases (Fine wf.changes) (is_tagged tags) (λ _. (refl, tt))
            (λ untagged.
              if_cases (Fine wf.changes) (has_agent d.containers) (λ _. (refl, tt))
                (λ clean. (refl, rule.checked wf family d tags q clean untagged))))
  check_task-Ok wf family unauthorized q = (refl, tt)
  check_task-Ok wf family failed q = refl

  choose_task-Ok :
      (wf : AddWorkflow) (a : Answer (List String)) → Fine wf.changes (choose_task out wf a)
  unfolding choose_task task_chosen
  choose_task-Ok wf (ok []) = (refl, tt)
  choose_task-Ok wf (ok (f ∷ fs)) =
      option_cases (Fine wf.changes) out.user_answer (λ _. refl)
        λ family _.
          if_cases (Fine wf.changes) (family == go_back_option) (λ _. (refl, tt))
            (λ _.
              check_task-Ok (record wf { ecs_task_definition_family = family }) family
                (out.latest_task_definition family) refl)
  choose_task-Ok wf unauthorized = (refl, tt)
  choose_task-Ok wf failed = refl

  pub get_task_state-Ok : (wf : AddWorkflow) → Fine wf.changes (get_task_state out flags wf)
  unfolding get_task_state
  get_task_state-Ok wf =
      option_cases (Fine wf.changes) flags.ecs_task_definition_flag
        (λ _. choose_task-Ok wf out.families) λ t e. load_task_from_flag-Ok flags P out rule wf t e

  choose_service-Ok :
      (wf : AddWorkflow) (a : Answer (Map String String))
      → P wf
      → Fine wf.changes (choose_service out wf a)
  unfolding choose_service service_chosen
  choose_service-Ok wf (ok []) p = (refl, tt)
  choose_service-Ok wf (ok (kv ∷ rest)) p =
      option_cases (Fine wf.changes) out.user_answer (λ _. refl)
        λ arn _.
          if_cases (Fine wf.changes) (arn == go_back_option) (λ _. (refl, tt))
            (λ _. (refl, rule.kept wf _ refl refl p))
  choose_service-Ok wf unauthorized p = (refl, tt)
  choose_service-Ok wf failed p = refl

  pub get_service_state-Ok :
      (wf : AddWorkflow) → P wf → Fine wf.changes (get_service_state out flags wf)
  unfolding get_service_state
  get_service_state-Ok wf p = go flags.ecs_service_flag
    where
      go :
          (f : NameFlag)
          → Fine wf.changes (elim f [
            | no_flag ↦ choose_service out wf out.services
            | arn_flag a ↦ load_service_from_flag out wf (arn_flag a)
            | name_flag n ↦ load_service_from_flag out wf (name_flag n)
          ])
      go no_flag = choose_service-Ok wf out.services p
      go (arn_flag a) = load_service_from_flag-Ok flags P out rule wf (arn_flag a) p
      go (name_flag n) = load_service_from_flag-Ok flags P out rule wf (name_flag n) p

  pub confirm_state-Ok : (wf : AddWorkflow) → P wf → Fine wf.changes (confirm_state out flags wf)
  unfolding confirm_state
  confirm_state-Ok wf p =
      if_cases (Fine wf.changes) flags.dry_run_flag (λ _. refl)
        (λ wet. if_cases (Fine wf.changes) out.user_confirms (λ _. (refl, (p, wet))) (λ _. refl))
