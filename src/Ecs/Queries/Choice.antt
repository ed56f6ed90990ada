-- ===== src/Ecs/Queries/Choice.antt =====
-- The service that the wizard of cmd/internal/ecs/add.go offers runs the chosen task definition.
use mathlib.Core.Path.{subst}
use observability_cli.Prelude.{
  ◌≡◌, ◌≢◌, refl, sym, ◌∙◌, true, false, some, List, [], ◌∷◌, String, string_eq, ◌==◌, get, All,
  IsIn, All-IsIn, All-put, All-get, All-both, Bool, if◌then◌else◌, if_cases, Map, arith, ◌⊎◌, inl,
  inr, ap, none, Option,
}
use observability_cli.Ecs.State.{
  Answer, ok, unauthorized, failed, no_flag, Flags, Outside, AddWorkflow, confirm, next,
  go_back_option, stops, Outcome, interrupt_err, get_task,
}
use observability_cli.Ecs.Steps.{get_service_state, choose_service, service_chosen, value_at}
use observability_cli.Ecs.Queries.{
  Call, got, refused, Service, EcsClient, ◌>>=◌, wrap_unauthorized, all_pages, add_names,
  describe_batches, list_aws_objects_by_name, service_pair, task_in_family, filter_services,
  list_ecs_services,
}
use observability_cli.Ecs.Queries.Families.{in_family, IsTrue, task_in_family-IsTrue, first-IsTrue}

-- What holds of a result, if there is one.
abbrev Ensures : {A : Type 0} → (A → Type 0) → Answer A → Type 0
Ensures P (ok a) = P a
Ensures P unauthorized = Unit
Ensures P failed = Unit

-- A rule for a chain.
>>=-Ensures :
    {A B : Type 0} (P : B → Type 0) (m : Answer A) (f : A → Answer B)
    → ((a : A) → m ≡ ok a → Ensures P (f a))
    → Ensures P (m >>= f)
>>=-Ensures P (ok a) f h = h a refl
>>=-Ensures P unauthorized f h = tt
>>=-Ensures P failed f h = tt

wrap_unauthorized-ok :
    {A : Type 0} (call : Call A) (a : A) → wrap_unauthorized call ≡ ok a → call ≡ got a
wrap_unauthorized-ok (got b) a e = cc
wrap_unauthorized-ok (refused r) a e = ground (arith, e)

add_names-All :
    {Item : Type 0} (convert : Item → String × String) (P : String × String → Type 0)
    (items : List Item) (m : Map String String)
    → All (λ i. P (convert i)) items
    → All P m
    → All P (add_names convert items m)
unfolding add_names
add_names-All convert P [] m h k = k
add_names-All convert P (i ∷ is) m (p, h) k = add_names-All convert P is _ h (
    if_cases (All P) ((convert i).0 == "") (λ _. k)
      λ _. All-put P (convert i).0 (convert i).1 m p k)

module _ {C Item : Type 0} (describe : List String → Call (List Item))
    (extract : C → List Item → C × List Item) (convert : Item → String × String) (Good : C → Type 0)
    (P : String × String → Type 0)
    (extracts : (c : C) (b : List String) (xs : List Item)
      → describe b ≡ got xs
      → Good c
      → All (λ i. P (convert i)) (extract c xs).1 × Good (extract c xs).0) where
  describe_batches-All :
      (bs : List (List String)) (c : C) (m : Map String String)
      → Good c
      → All P m
      → Ensures (All P) (describe_batches describe extract convert bs c m)
  unfolding describe_batches
  describe_batches-All [] c m good h = h
  describe_batches-All (b ∷ bs) c m good h =
      >>=-Ensures (All P) (wrap_unauthorized (describe b)) _ λ output q.
        let e = extracts c b output (wrap_unauthorized-ok (describe b) output q) good in
        describe_batches-All bs (extract c output).0 _ (e.1)
          (add_names-All convert P (extract c output).1 m (e.0) h)

  list-All :
      (pages : List (Call (List String))) (c : C)
      → Good c
      → Ensures (All P) (list_aws_objects_by_name describe extract convert pages c)
  unfolding list_aws_objects_by_name
  list-All pages c good =
      >>=-Ensures (All P) (all_pages pages) _ λ arns _. describe_batches-All _ c [] good tt

module _ (client : EcsClient) (wf : AddWorkflow) where
  -- The service is in an answer of AWS about the cluster.
  pub data WasDescribed (s : Service) : Type 0 where
    in_answer :
        (arns : List String) (answer : List Service)
        → client.describe_services wf.ecs_cluster_arn arns ≡ got answer
        → IsIn s answer
        → WasDescribed s

  -- AWS described a service under this ARN and name, and its task definition is of the family that
  -- was chosen.
  abbrev pub Runs : String × String → Type 0
  Runs (arn, name) =
      (s : Service) × WasDescribed s
      × (s.service_arn ≡ arn)
      × (s.service_name ≡ name)
      × (in_family client wf.ecs_task_definition_family s.task_definition ≡ true)

  filter_services-All :
      (cache : Map String String) (ss : List Service)
      → All WasDescribed ss
      → IsTrue client wf.ecs_task_definition_family cache
      → All
          (λ s. Runs (service_pair s))
          (filter_services client wf.ecs_task_definition_family cache ss).1
        × IsTrue client wf.ecs_task_definition_family
            (filter_services client wf.ecs_task_definition_family cache ss).0
  unfolding filter_services
  filter_services-All cache [] d h = (tt, h)
  filter_services-All cache (s ∷ ss) (was, d) h =
      let t =
        task_in_family-IsTrue client wf.ecs_task_definition_family cache s.task_definition h in
      let (rest, h') =
        filter_services-All
          (task_in_family client wf.ecs_task_definition_family cache s.task_definition).0 ss d
          (t.1) in
      (
        if_cases (All (λ s. Runs (service_pair s)))
            (task_in_family client wf.ecs_task_definition_family cache s.task_definition).1
            (λ found. ((s, was, refl, refl, sym (t.0) ∙ found), rest)) λ _. rest,
        h',
      )

  answer_filtered :
      (cache : Map String String) (arns : List String) (answer : List Service)
      → client.describe_services wf.ecs_cluster_arn arns ≡ got answer
      → IsTrue client wf.ecs_task_definition_family cache
      → All
          (λ s. Runs (service_pair s))
          (filter_services client wf.ecs_task_definition_family cache answer).1
        × IsTrue client wf.ecs_task_definition_family
            (filter_services client wf.ecs_task_definition_family cache answer).0
  answer_filtered cache arns answer q h =
      let inside = All-IsIn answer in
      filter_services-All cache answer
        (All-both (λ s. IsIn s answer) (λ s. IsIn s answer) WasDescribed
          (λ s i _. in_answer arns answer q i) answer inside inside)
        h

  list_ecs_services-All :
      in_family client wf.ecs_task_definition_family wf.ecs_task_definition_arn ≡ true
      → Ensures (All Runs) (list_ecs_services client wf)
  unfolding list_ecs_services
  list_ecs_services-All chosen =
      list-All (client.describe_services wf.ecs_cluster_arn)
        (filter_services client wf.ecs_task_definition_family) service_pair
        (IsTrue client wf.ecs_task_definition_family) Runs answer_filtered
        (client.list_services wf.ecs_cluster_arn) _
        (first-IsTrue client wf.ecs_task_definition_family wf.ecs_task_definition_arn chosen)

get-none : (k v : String) → get k [] ≢ some v
unfolding get
get-none k v e = cc

value_at-get : (k v : String) (m : Map String String) → get k m ≡ some v → value_at k m ≡ v
unfolding value_at
value_at-get k v m e = rw (e, value_at) refl

-- The question's answer is one of its options: a service that is listed, or the way back.
abbrev pub IsOption : Answer (Map String String) → String → Type 0
IsOption (ok m) a = (a ≡ go_back_option) ⊎ ((n : String) × (get a m ≡ some n))
IsOption unauthorized a = Unit
IsOption failed a = Unit

module _ (P : String × String → Type 0) (out : Outside) (wf wf' : AddWorkflow) where
  -- What goes on to the confirmation is the answer, which is not the way back.
  service_chosen-kept :
      (m : Map String String) (a : String)
      → All P m
      → IsOption (ok m) a
      → service_chosen out wf m a ≡ (wf', next confirm)
      → P (wf'.ecs_service_arn, wf'.ecs_service)
  unfolding service_chosen
  service_chosen-kept m a h offered = go (a == go_back_option) refl
    where
      chosen : (a == go_back_option) ≡ false → P (a, value_at a m)
      chosen other = elim offered [
        | inl back ↦ absurd (let same = (string_eq.beq_iff a go_back_option).1 back in cc)
        | inr (n, found) ↦
            subst (λ v. P (a, v)) (sym (value_at-get a n m found)) (All-get P a n m h found)
      ]

      go :
          (b : Bool)
          → (a == go_back_option) ≡ b
          → ◌≡◌ {A = AddWorkflow × Outcome}
              (if b
                then (wf, next get_task)
                else (record wf { ecs_service_arn = a; ecs_service = value_at a m }, next confirm))
              (wf', next confirm)
          → P (wf'.ecs_service_arn, wf'.ecs_service)
      go true q e = absurd (cc)
      go false q e =
          subst (λ (w : AddWorkflow). P (w.ecs_service_arn, w.ecs_service)) (ap (λ r. r.0) e)
            (chosen q)

  choose_service-kept :
      (services : Answer (Map String String))
      → Ensures (All P) services
      → ((a : String) → out.user_answer ≡ some a → IsOption services a)
      → choose_service out wf services ≡ (wf', next confirm)
      → P (wf'.ecs_service_arn, wf'.ecs_service)
  unfolding choose_service
  choose_service-kept (ok []) h offered e = absurd (cc)
  choose_service-kept (ok (kv ∷ rest)) h offered e = go out.user_answer refl e
    where
      go :
          (o : Option String)
          → out.user_answer ≡ o
          → ◌≡◌ {A = AddWorkflow × Outcome}
              (elim o [
                | none ↦ (wf, stops (some interrupt_err))
                | some arn ↦ service_chosen out wf (kv ∷ rest) arn
              ])
              (wf', next confirm)
          → P (wf'.ecs_service_arn, wf'.ecs_service)
      go none q e = absurd (cc)
      go (some a) q e = service_chosen-kept (kv ∷ rest) a h (offered a q) e
  choose_service-kept unauthorized h offered e = absurd (cc)
  choose_service-kept failed h offered e = absurd (cc)

-- At a terminal, without a flag for the service: whenever the wizard goes on to the confirmation,
-- then with a service that AWS has described under this ARN and name and whose task definition is of
-- the family that was chosen, if AWS has the chosen definition in its family, and the user's answer
-- is one of the options.
pub get_service_state-Runs :
    (client : EcsClient) (out : Outside) (flags : Flags) (wf wf' : AddWorkflow)
    → flags.ecs_service_flag ≡ no_flag
    → out.services ≡ list_ecs_services client wf
    → ((a : String) → out.user_answer ≡ some a → IsOption (list_ecs_services client wf) a)
    → in_family client wf.ecs_task_definition_family wf.ecs_task_definition_arn ≡ true
    → get_service_state out flags wf ≡ (wf', next confirm)
    → Runs client wf (wf'.ecs_service_arn, wf'.ecs_service)
unfolding get_service_state
get_service_state-Runs client out flags wf wf' flag same offered chosen confirms =
    let picked : get_service_state out flags wf
        ≡ choose_service out wf (list_ecs_services client wf) =
      rw (flag, same) refl in
    choose_service-kept (Runs client wf) out wf wf' (list_ecs_services client wf)
      (list_ecs_services-All client wf chosen) offered (sym picked ∙ confirms)
