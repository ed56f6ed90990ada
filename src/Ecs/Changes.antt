-- ===== src/Ecs/Changes.antt =====
-- What a whole run of the wizard of cmd/internal/ecs/add.go changes.
use mathlib.Core.Path.{subst}
use observability_cli.Prelude.{
  ◌≡◌, ◌∷◌, refl, All, All-both, IsIn, All-IsIn, sym, true, false, none, List, [], String,
}
use observability_cli.Ecs.State.{
  ok, TaskDefinition, Change, Flags, Outside, AddWorkflow, init_state, get_profile, get_region,
  find_cluster_and_region, get_cluster, get_task, get_service, confirm, modify_task, update_service,
  wait_for_restart, has_agent, is_tagged, new_add_workflow,
}
use observability_cli.Ecs.Run.{Status, running, ended, panicked, run_rounds}
use observability_cli.Ecs.Loads.{TaskRule}
use observability_cli.Ecs.History.{
  Stage, untouched, definition_registered, service_updated, service_tagged, Story, untouched_story,
  registration, update, tag, HoldsOf, Holds, SafeAt, Safe, no_changes-Story,
}
use observability_cli.Ecs.Safety.{run-Safe}

-- The state before the first round.
abbrev pub at_start : Status
at_start = running init_state new_add_workflow

unfoldable pub changes_in : Status → List Change
changes_in (running s wf) = wf.changes
changes_in (ended err wf) = wf.changes
changes_in panicked = []

-- There was no panic, and the changes are a history.
unfoldable pub IsOrdered : Flags → (TaskDefinition → List String → Type 0) → Status → Type 0
IsOrdered flags Q (running s wf) = (stage : Stage) × Story flags Q stage wf.changes
IsOrdered flags Q (ended err wf) = (stage : Stage) × Story flags Q stage wf.changes
IsOrdered flags Q panicked = ⊥

-- Neither the definition nor its tags show that the agent was added before.
unfoldable pub IsFresh : TaskDefinition → List String → Type 0
IsFresh d tags = (has_agent d.containers ≡ false) × (is_tagged tags ≡ false)

module _ (flags : Flags) (Q : TaskDefinition → List String → Type 0) where
  Safe-IsOrdered : (status : Status) → Safe flags Q status → IsOrdered flags Q status
  unfolding Safe SafeAt IsOrdered
  Safe-IsOrdered (ended err wf) h = h
  Safe-IsOrdered panicked h = h
  Safe-IsOrdered (running init_state wf) h = (untouched, no_changes-Story flags Q wf (h.0))
  Safe-IsOrdered (running get_profile wf) h = (untouched, no_changes-Story flags Q wf (h.0))
  Safe-IsOrdered (running get_region wf) h = (untouched, no_changes-Story flags Q wf (h.0))
  Safe-IsOrdered (running find_cluster_and_region wf) h =
      (untouched, no_changes-Story flags Q wf (h.0))
  Safe-IsOrdered (running get_cluster wf) h = (untouched, no_changes-Story flags Q wf (h.0))
  Safe-IsOrdered (running get_task wf) h = (untouched, no_changes-Story flags Q wf (h.0))
  Safe-IsOrdered (running get_service wf) h = (untouched, no_changes-Story flags Q wf (h.0))
  Safe-IsOrdered (running confirm wf) h = (untouched, no_changes-Story flags Q wf (h.0))
  Safe-IsOrdered (running modify_task wf) h = (untouched, no_changes-Story flags Q wf (h.0))
  Safe-IsOrdered (running update_service wf) h = (definition_registered, h)
  Safe-IsOrdered (running wait_for_restart wf) h = (service_tagged, h)

  Holds-kept :
      (wf wf' : AddWorkflow)
      → wf'.ecs_task_definition ≡ wf.ecs_task_definition
      → wf'.ecs_task_definition_tags ≡ wf.ecs_task_definition_tags
      → Holds Q wf
      → Holds Q wf'
  unfolding Holds
  Holds-kept wf wf' d tags h =
      subst (λ t. HoldsOf Q t wf'.ecs_task_definition) (sym tags)
        (subst (λ o. HoldsOf Q wf.ecs_task_definition_tags o) (sym d) h)

-- A dry run has no history with a change.
Wet : Flags → Stage → Type 0
Wet flags untouched = Unit
Wet flags _ = flags.dry_run_flag ≡ false

Story-Wet :
    (flags : Flags) (Q : TaskDefinition → List String → Type 0) (stage : Stage) (c : List Change)
    → Story flags Q stage c
    → Wet flags stage
unfolding Wet
Story-Wet flags Q _ _ untouched_story = tt
Story-Wet flags Q _ _ (registration prev tags input wet q added) = wet
Story-Wet flags Q _ _ (update c k v t s) = Story-Wet flags Q definition_registered c s
Story-Wet flags Q _ _ (tag c k v t s) = Story-Wet flags Q service_updated _ s

Story_dry :
    (flags : Flags) (Q : TaskDefinition → List String → Type 0) (stage : Stage) (c : List Change)
    → flags.dry_run_flag ≡ true
    → Story flags Q stage c
    → c ≡ []
unfolding Wet
Story_dry flags Q _ _ dry untouched_story = refl
Story_dry flags Q _ _ dry (registration prev tags input wet q added) = absurd (cc)
Story_dry flags Q _ _ dry (update c k v t s) =
    let wet = Story-Wet flags Q definition_registered c s in absurd (cc)
Story_dry flags Q _ _ dry (tag c k v t s) =
    let wet = Story-Wet flags Q service_updated _ s in absurd (cc)

-- AWS described the definition and its tags in one of the rounds.
pub data WasRead (outs : List Outside) (d : TaskDefinition) (tags : List String) : Type 0 where
  in_round :
      (out : Outside) (name : String)
      → IsIn out outs
      → out.latest_task_definition name ≡ ok (d, tags)
      → WasRead outs d tags

WasRead-rule :
    (flags : Flags) (outs : List Outside) (out : Outside)
    → IsIn out outs
    → TaskRule flags out (Holds (WasRead outs))
unfolding Holds HoldsOf
WasRead-rule flags outs out i = record {
  kept = Holds-kept flags (WasRead outs);
  checked = λ wf family d tags q _ _. in_round out family i q;
  named = λ wf d tags t _ q. in_round out t i q;
}

WasRead-rules :
    (flags : Flags) (outs : List Outside)
    → All (λ out. TaskRule flags out (Holds (WasRead outs))) outs
WasRead-rules flags outs =
    let inside = All-IsIn outs in
    All-both (λ out. IsIn out outs) (λ out. IsIn out outs)
      (λ out. TaskRule flags out (Holds (WasRead outs))) (λ out i _. WasRead-rule flags outs out i)
      outs inside inside

IsFresh-rules :
    (flags : Flags)
    → flags.ecs_task_definition_flag ≡ none
    → (outs : List Outside) → All (λ out. TaskRule flags out (Holds IsFresh)) outs
unfolding Holds HoldsOf IsFresh
IsFresh-rules flags e [] = tt
IsFresh-rules flags e (out ∷ outs) = (
  record {
    kept = Holds-kept flags IsFresh;
    checked = λ wf family d tags _ clean untagged. (clean, untagged);
    named = λ wf d tags t e' _. absurd (cc);
  },
  IsFresh-rules flags e outs,
)

-- Whatever the user and AWS answer, the wizard does not panic, and at any time it has changed
-- nothing, or asked to register one task definition, and then to update one service, and then to tag
-- this service. What it registers is a definition that AWS described in one of the rounds, with a
-- container added that the wizard recognises as the agent's, and the creation tag added to the tags.
pub run_rounds-IsOrdered :
    (flags : Flags) (outs : List Outside)
    → IsOrdered flags (WasRead outs) (run_rounds flags at_start outs)
run_rounds-IsOrdered flags outs =
    Safe-IsOrdered flags (WasRead outs) _
      (run-Safe flags (WasRead outs) outs (WasRead-rules flags outs))

-- With --dry-run the wizard asks for no change, at a terminal or not.
pub run_rounds_dry :
    (flags : Flags) (outs : List Outside)
    → flags.dry_run_flag ≡ true
    → changes_in (run_rounds flags at_start outs) ≡ []
unfolding changes_in IsOrdered
run_rounds_dry flags outs dry =
    go (run_rounds flags at_start outs) (run_rounds-IsOrdered flags outs)
  where
    go : (s : Status) → IsOrdered flags (WasRead outs) s → changes_in s ≡ []
    go (running s wf) (stage, h) = Story_dry flags (WasRead outs) stage wf.changes dry h
    go (ended err wf) (stage, h) = Story_dry flags (WasRead outs) stage wf.changes dry h
    go panicked h = refl

-- Without a flag for the task definition, a definition is only registered anew if it had no
-- container of the agent or of the old CLI and neither of the wizard's tags.
pub run_rounds-IsFresh :
    (flags : Flags) (outs : List Outside)
    → flags.ecs_task_definition_flag ≡ none
    → IsOrdered flags IsFresh (run_rounds flags at_start outs)
run_rounds-IsFresh flags outs e =
    Safe-IsOrdered flags IsFresh _ (run-Safe flags IsFresh outs (IsFresh-rules flags e outs))
