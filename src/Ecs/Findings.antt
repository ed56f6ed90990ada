-- ===== src/Ecs/Findings.antt =====
-- What a failed listing of services does to the wizard of cmd/internal/ecs/add.go.
use observability_cli.Prelude.{◌≡◌, refl, false, none, String}
use observability_cli.Ecs.State.{
  failed, Flags, name_flag, Outside, AddWorkflow, modify_task, next, awf_done,
}
use observability_cli.Ecs.Loading.{load_service_by_name, load_service_from_flag}
use observability_cli.Ecs.Steps.{get_service_state}
use observability_cli.Ecs.FromFlags.{error_of, flags_filled, fill_service}

-- If the listing of the services fails, a flag with a service's name ends the wizard as a success
-- at a terminal; without one the run goes on to change the task definition, with the service that
-- was there before, if the secrets are in order and this is no dry run.
pub failed_listing :
    (flags : Flags) (out : Outside) (wf : AddWorkflow) (n : String)
    → flags.ecs_service_flag ≡ name_flag n
    → out.services ≡ failed
    → out.akita_secrets ≡ none
    → flags.dry_run_flag ≡ false
    → (get_service_state out flags wf ≡ (wf, awf_done))
      × (fill_service out flags wf flags.ecs_service_flag ≡ (wf, next modify_task))
unfolding get_service_state load_service_from_flag load_service_by_name fill_service error_of
    flags_filled
failed_listing flags out wf n flag unlisted secrets wet =
    (rw (flag, unlisted) refl, rw (flag, unlisted, secrets, wet) refl)
