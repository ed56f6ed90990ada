-- ===== src/Ecs/Queries/Families.antt =====
-- listECSServices of cmd/internal/ecs/aws_api.go: the cache of families does not show.
use observability_cli.Prelude.{
  length, ◌≡◌, refl, sym, ◌∙◌, Bool, true, false, some, List, [], ◌∷◌, String, map, string_eq, ◌==◌,
  get, put, get-put, beq_self, filter_by, option_cases, if◌then◌else◌, Map, Bool-cases, inl, inr,
}
use observability_cli.Ecs.State.{Answer, ok, TaskDefinition, AddWorkflow}
use observability_cli.Ecs.Queries.{
  Call, got, refused, Service, EcsClient, add_names, service_pair, task_in_family, filter_services,
  AwsError, batches, describe_batches,
}

module _ (client : EcsClient) (family : String) where
  -- Whether AWS has a task definition of the family under this ARN.
  unfoldable pub in_family : String → Bool
  in_family task = elim (client.describe_task_definition task) [
    | refused _ ↦ false
    | got (d, _) ↦ d.family == family
  ]

  -- What the cache says is what AWS says.
  pub IsTrue : Map String String → Type 0
  IsTrue cache = (t f : String) → get t cache ≡ some f → in_family t ≡ (f == family)

  put-IsTrue :
      (t f : String) (cache : Map String String)
      → in_family t ≡ (f == family)
      → IsTrue cache
      → IsTrue (put t f cache)
  unfolding IsTrue
  put-IsTrue t f cache e h t' f' found = elim (Bool-cases (t == t')) [
    | inl same ↦
        let t≡t' = (string_eq.beq_iff t t').0 same in
        let f≡f' : some f ≡ some f' = (rw (same) refl) ∙ (sym (get-put t t' f cache) ∙ found) in cc
    | inr other ↦
        let kept : get t' cache ≡ (if t == t' then some f else get t' cache) = rw (other) refl in
        h t' f' (kept ∙ (sym (get-put t t' f cache) ∙ found))
  ]

  pub task_in_family-IsTrue :
      (cache : Map String String) (task : String)
      → IsTrue cache
      → ((task_in_family client family cache task).1 ≡ in_family task)
        × IsTrue (task_in_family client family cache task).0
  unfolding task_in_family in_family IsTrue
  task_in_family-IsTrue cache task h =
      option_cases (λ (r : Map String String × Bool). (r.1 ≡ in_family task) × IsTrue r.0)
        (get task cache) (λ _. go (client.describe_task_definition task) refl)
        λ f found. (sym (h task f found), h)
    where
      go :
          (a : Call (TaskDefinition × List String))
          → client.describe_task_definition task ≡ a
          → let (cache', found) : Map String String × Bool = elim a [
            | refused _ ↦ (cache, false)
            | got (d, _) ↦ (put task d.family cache, d.family == family)
          ] in
            (found ≡ in_family task) × IsTrue cache'
      go (refused e) q = (rw (q, in_family) refl, h)
      go (got (d, tags)) q =
          (rw (q, in_family) refl, put-IsTrue task d.family cache (rw (q, in_family) refl) h)

  pub first-IsTrue : (task : String) → in_family task ≡ true → IsTrue ((task, family) ∷ [])
  unfolding IsTrue get put
  first-IsTrue task chosen =
      put-IsTrue task family [] (chosen ∙ sym (beq_self family)) λ t f found. absurd (cc)

module _ (client : EcsClient) (wf : AddWorkflow) (service : String → Service) (e : AwsError) where
  abbrev describe : List String → Call (List Service)
  describe = client.describe_services wf.ecs_cluster_arn

  abbrev extract : Map String String → List Service → Map String String × List Service
  extract = filter_services client wf.ecs_task_definition_family

  abbrev listing : List String → Answer (Map String String)
  listing arns =
      describe_batches describe extract service_pair (batches (length arns) arns)
        ((wf.ecs_task_definition_arn, wf.ecs_task_definition_family) ∷ []) []

  abbrev of_family : List String → Answer (Map String String)
  of_family arns = ok (
      add_names service_pair
        (filter_by (λ s. in_family client wf.ecs_task_definition_family s.task_definition)
          (map service arns))
        [])
