-- ===== src/CloudClient/Examples.antt =====
-- The main goroutine of daemon/internal/cloud_client over the life of one trace.
use observability_cli.Prelude.{
  ◌+◌, arith, ◌≡◌, ◌≤◌, refl, some, List, [], ◌∷◌, nat_eq, string_eq, get, put, delete,
}
use observability_cli.CloudClient.State.{
  LoggingOptions, ActiveTraceDiff, RegistrationRequest, Event, heartbeat_event,
  long_poll_service_event, change_active_traces_event, registration_request,
  unregister_client_from_trace, sends_diff, starts_collector, closes_collector, CloudClient,
  new_cloud_client, ensure_service_registered, put_trace, start_trace_event_collector,
  unregister_trace, emit, new_service_info, new_trace_info,
}
use observability_cli.CloudClient.Handlers.{
  handle_registration, handle_change, activate_all, deactivate_all, deactivate, answer_waiting,
  answer_all, register_waiting, register_waiting_all, schedule, handle_unregister, to_set,
  get_active_trace_diff, activated, deactivated, register_client, is_news,
}
use observability_cli.CloudClient.Events.{
  run, handle, handle_event, close_channels, closes_twice, answered_again,
}
use observability_cli.CloudClient.Needed.{Inv}
use observability_cli.CloudClient.Invariant.{run-new_cloud_client-Inv}
use observability_cli.CloudClient.Channels.{held, closed}
use observability_cli.CloudClient.ClosedOnce.{run-new_cloud_client-closed}
use observability_cli.CloudClient.Runs.{run-new_cloud_client-total}
use observability_cli.CloudClient.Answers.{answers, waits}
use observability_cli.CloudClient.Answered.{run-new_cloud_client-answers}

abbrev options : LoggingOptions
options = record { trace_id = 5; service_id = 1; trace_name = "trace" }

abbrev registration : RegistrationRequest
registration = record {
  client_name = "a";
  service_id = 1;
  active_traces = [];
  response_channel = 30;
}

abbrev activation : ActiveTraceDiff
activation = record { activated_traces = options ∷ []; deactivated_traces = [] }

abbrev deactivation : ActiveTraceDiff
deactivation = record { activated_traces = []; deactivated_traces = 5 ∷ [] }

-- The client waits, is told of the trace, the trace is deactivated, and the client leaves.
abbrev events : List Event
events =
    registration_request registration
    ∷ change_active_traces_event 1 activation
    ∷ change_active_traces_event 1 deactivation
    ∷ unregister_client_from_trace "a" 1 5
    ∷ []

abbrev afterwards : CloudClient
afterwards = record {
  service_info_by_id = (1, record { traces = []; response_channels = [] }) ∷ [];
  next_channel = 1;
  event_channel =
      heartbeat_event
      ∷ long_poll_service_event 1
      ∷ long_poll_service_event 1
      ∷ long_poll_service_event 1
      ∷ [];
  outputs = starts_collector 0 options ∷ sends_diff 30 activation ∷ closes_collector 0 ∷ [];
}

run_lem : run new_cloud_client events ≡ some afterwards
unfolding run new_cloud_client handle handle_event close_channels closes_twice answered_again
    handle_registration ensure_service_registered put_trace handle_change activate_all
    deactivate_all deactivate start_trace_event_collector unregister_trace answer_waiting answer_all
    register_waiting register_waiting_all schedule emit handle_unregister get put delete to_set
    get_active_trace_diff activated deactivated register_client is_news new_service_info
    new_trace_info
run_lem = refl

run-new_cloud_client-Inv_example : Inv afterwards
run-new_cloud_client-Inv_example = run-new_cloud_client-Inv events afterwards run_lem

run-new_cloud_client-answers_example : answers 30 afterwards + waits 30 afterwards ≡ 1
run-new_cloud_client-answers_example = run-new_cloud_client-answers 30 events afterwards run_lem

run-new_cloud_client-closed_example : held 0 afterwards + closed 0 afterwards ≤ 1
run-new_cloud_client-closed_example = run-new_cloud_client-closed 0 events afterwards run_lem

run-new_cloud_client-total_example :
    (c : CloudClient) × (run new_cloud_client (
        registration_request registration
        ∷ long_poll_service_event 1
        ∷ change_active_traces_event 1 activation
        ∷ [])
      ≡ some c)
run-new_cloud_client-total_example =
    run-new_cloud_client-total
      (registration_request registration
        ∷ long_poll_service_event 1
        ∷ change_active_traces_event 1 activation
        ∷ [])
      (tt, (refl, ((refl, tt), tt))) (λ ch. ground arith)
