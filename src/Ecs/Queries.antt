-- ===== src/Ecs/Queries.antt =====
-- cmd/internal/ecs/aws_api.go and aws_api_names.go: what the wizard asks of AWS in one region.
pub mod Secrets
pub mod Batches
pub mod Families
pub mod Choice
pub mod Examples
use observability_cli.Prelude.{
  ℕ, zero, suc, Bool, true, false, ◌&&◌, ◌||◌, Option, none, some, List, [], ◌∷◌, ◌++◌, String,
  string_eq, ◌==◌, get, put, take, drop, length, if◌then◌else◌, Map,
}
use observability_cli.Ecs.State.{
  Answer, ok, unauthorized, failed, TaskDefinition, RolloutState, AddWorkflow,
}

-- An error of a call: the code, if it is an APIError, and whether it is an OperationError.
pub record AwsError : Type 0 where
  pub error_code : Option String
  pub in_operation : Bool

pub data Call (A : Type 0) : Type 0 where
  got : A → Call A
  refused : AwsError → Call A

-- types.Cluster, types.Deployment and types.Service: the fields that are read.
pub record Cluster : Type 0 where
  pub cluster_arn : String
  pub cluster_name : Option String

pub record Deployment : Type 0 where
  pub id : String
  pub task_definition : String
  pub rollout_state : RolloutState

pub record Service : Type 0 where
  pub service_arn : String
  pub service_name : String
  pub task_definition : String
  pub deployments : List Deployment

-- The client of a region; a paginator is the list of what its pages return.
pub record EcsClient : Type 0 where
  pub list_clusters : List (Call (List String))
  pub describe_clusters : List String → Call (List Cluster)
  pub list_task_definition_families : List (Call (List String))
  pub describe_task_definition : String → Call (TaskDefinition × List String)
  pub list_services : String → List (Call (List String))
  pub describe_services : String → List String → Call (List Service)

unfoldable pub is_unauthorized : AwsError → Bool
is_unauthorized e = elim e.error_code [
  | none ↦ false
  | some code ↦
      e.in_operation
      && ((code == "UnauthorizedOperation")
          || ((code == "AccessDeniedException") || (code == "UnrecognizedClientException")))
]

-- wrapUnauthorized, of a call's error.
abbrev pub wrap_unauthorized : {A : Type 0} → Call A → Answer A
wrap_unauthorized (got a) = ok a
wrap_unauthorized (refused e) = if is_unauthorized e then unauthorized else failed

infixl 5 ◌>>=◌
abbrev pub ◌>>=◌ : {A B : Type 0} → Answer A → (A → Answer B) → Answer B
ok a >>= f = f a
unauthorized >>= f = unauthorized
failed >>= f = failed

abbrev pub to_string : Option String → String
to_string none = ""
to_string (some s) = s

-- All the pages, up to the first error.
unfoldable pub all_pages : List (Call (List String)) → Answer (List String)
all_pages [] = ok []
all_pages (page ∷ pages) = do xs ← wrap_unauthorized page; rest ← all_pages pages; ok (xs ++ rest)

-- The slices of at most 100; as many rounds as there are elements are enough.
unfoldable pub batches : ℕ → List String → List (List String)
batches zero arns = []
batches (suc n) [] = []
batches (suc n) (arn ∷ arns) = take 100 (arn ∷ arns) ∷ batches n (drop 100 (arn ∷ arns))

-- The names that a description adds; an item without an ARN is left out.
unfoldable pub add_names :
    {Item : Type 0} → (Item → String × String) → List Item → Map String String → Map String String
add_names convert [] ret = ret
add_names convert (item ∷ items) ret =
    let (arn, name) = convert item in
    add_names convert items (if arn == "" then ret else put arn name ret)

-- ListAWSObjectsByName; `extract` may keep a state from one result to the next.
module _ {C Item : Type 0} (describe : List String → Call (List Item))
    (extract : C → List Item → C × List Item) (convert : Item → String × String) where
  unfoldable pub describe_batches :
      List (List String) → C → Map String String → Answer (Map String String)
  describe_batches [] c ret = ok ret
  describe_batches (batch ∷ rest) c ret = do
    output ← wrap_unauthorized (describe batch)
    let found = extract c output
    describe_batches rest found.0 (add_names convert found.1 ret)

  unfoldable pub list_aws_objects_by_name :
      List (Call (List String)) → C → Answer (Map String String)
  list_aws_objects_by_name pages c = do
    arns ← all_pages pages
    describe_batches (batches (length arns) arns) c []

abbrev pub cluster_pair : Cluster → String × String
cluster_pair t = (t.cluster_arn, to_string t.cluster_name)

abbrev pub service_pair : Service → String × String
service_pair t = (t.service_arn, t.service_name)

-- getClusterName: the first name that is there.
unfoldable pub first_name : List Cluster → String
first_name [] = ""
first_name (c ∷ cs) =
    let rest = first_name cs in elim c.cluster_name [ none ↦ rest | some name ↦ name ]

unfoldable pub name_of_clusters : List Cluster → Answer String
name_of_clusters [] = failed
name_of_clusters (c ∷ cs) = ok (first_name (c ∷ cs))

unfoldable pub first_service : List Service → Answer Service
first_service [] = failed
first_service (s ∷ ss) = ok s

unfoldable pub deployment_with : (Deployment → Bool) → List Deployment → Answer Deployment
deployment_with test [] = failed
deployment_with test (d ∷ ds) = let rest = deployment_with test ds in if test d then ok d else rest

module _ (client : EcsClient) where
  unfoldable pub list_ecs_clusters : Answer (Map String String)
  list_ecs_clusters =
      list_aws_objects_by_name {C = Unit {0}} client.describe_clusters (λ c output. (c, output))
        cluster_pair client.list_clusters tt

  unfoldable pub get_cluster_name : String → Answer String
  get_cluster_name cluster = do
    output ← wrap_unauthorized (client.describe_clusters (cluster ∷ []))
    name_of_clusters output

  unfoldable pub list_ecs_task_definition_families : Answer (List String)
  list_ecs_task_definition_families = all_pages client.list_task_definition_families

  unfoldable pub get_latest_ecs_task_definition : String → Answer (TaskDefinition × List String)
  get_latest_ecs_task_definition family = wrap_unauthorized (client.describe_task_definition family)

  -- taskInFamily, with the cache of families, for the family of the workflow.
  unfoldable pub task_in_family : String → Map String String → String → Map String String × Bool
  task_in_family family arn_to_family task = elim (get task arn_to_family) [
    | some f ↦ (arn_to_family, f == family)
    | none ↦ elim (client.describe_task_definition task) [
      | refused _ ↦ (arn_to_family, false)
      | got (d, _) ↦ (put task d.family arn_to_family, d.family == family)
    ]
  ]

  unfoldable pub filter_services :
      String → Map String String → List Service → Map String String × List Service
  filter_services family arn_to_family [] = (arn_to_family, [])
  filter_services family arn_to_family (s ∷ ss) =
      let (cache, found) = task_in_family family arn_to_family s.task_definition in
      let (cache', rest) = filter_services family cache ss in
      (cache', if found then s ∷ rest else rest)

  unfoldable pub list_ecs_services : AddWorkflow → Answer (Map String String)
  list_ecs_services wf =
      list_aws_objects_by_name (client.describe_services wf.ecs_cluster_arn)
        (filter_services wf.ecs_task_definition_family) service_pair
        (client.list_services wf.ecs_cluster_arn)
        ((wf.ecs_task_definition_arn, wf.ecs_task_definition_family) ∷ [])

  unfoldable pub get_service : AddWorkflow → String → Answer Service
  get_service wf service = do
    output ← wrap_unauthorized (client.describe_services wf.ecs_cluster_arn (service ∷ []))
    first_service output

  unfoldable pub get_service_with_matching_task : AddWorkflow → String → Answer Service
  get_service_with_matching_task wf service = do
    svc ← get_service wf service
    output ← wrap_unauthorized (client.describe_task_definition svc.task_definition)
    if output.0.family == wf.ecs_task_definition_family then ok svc else failed

  unfoldable pub get_deployment_matching_task : AddWorkflow → String → Answer Deployment
  get_deployment_matching_task wf service = do
    svc ← get_service wf service
    deployment_with (λ d. d.task_definition == wf.ecs_task_definition_arn) svc.deployments

  unfoldable pub get_deployment_by_id : AddWorkflow → String → String → Answer Deployment
  get_deployment_by_id wf service deployment = do
    svc ← get_service wf service
    deployment_with (λ d. d.id == deployment) svc.deployments

-- The regions to fall back to.
abbrev pub public_aws_regions : List String
public_aws_regions =
    "af-south-1" ∷ "ap-east-1" ∷ "ap-northeast-1" ∷ "ap-northeast-2" ∷ "ap-northeast-3"
    ∷ "ap-south-1" ∷ "ap-southeast-1" ∷ "ap-southeast-2" ∷ "ap-southeast-3" ∷ "ca-central-1"
    ∷ "eu-central-1" ∷ "eu-central-1" ∷ "eu-north-1" ∷ "eu-south-1" ∷ "eu-west-1" ∷ "eu-west-2"
    ∷ "eu-west-3" ∷ "me-central-1" ∷ "me-south-1" ∷ "sa-east-1" ∷ "us-east-1" ∷ "us-east-2"
    ∷ "us-west-1" ∷ "us-west-2" ∷ []

unfoldable pub region_names : List (Option String) → List String
region_names [] = []
region_names (none ∷ rs) = region_names rs
region_names (some r ∷ rs) = r ∷ region_names rs

-- listAWSRegions, of the answer of DescribeRegions, which lists the names; `sort` is sort.Strings.
unfoldable pub list_aws_regions :
    (List String → List String) → Call (List (Option String)) → List String
list_aws_regions sort (refused e) = sort public_aws_regions
list_aws_regions sort (got []) = sort public_aws_regions
list_aws_regions sort (got (r ∷ rs)) = sort (region_names (r ∷ rs))
