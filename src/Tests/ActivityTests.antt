-- ===== src/Tests/ActivityTests.antt =====
-- activity_state_machine.rs on concrete activities.
use sdk_core.Prelude.{ℕ, false, none, some, List, [], ◌∷◌, ok, err, codes, ◌≡◌, refl}
use sdk_core.Fsm.{from_parts, on_event}
use sdk_core.Flags.{disabled, try_use}
use sdk_core.Proto.{
  Job, request_cancel_activity_task, ActivityCancellationType, ScheduleActivity, CommandType,
  EventType, HistEventData, Attributes, ActivityTaskCompletedEventAttributes,
  ActivityTaskFailedEventAttributes, ActivityTaskTimedOutEventAttributes, RetryState,
}
use sdk_core.Machines.{
  MachineResponse, issue_new_command, push_wf_job, fatal, handle_event, handle_command,
}
use sdk_core.Machines.Inputs.{Input, history, command, cancels, run_inputs, step}
use sdk_core.Machines.Activity.{
  create_cancelation_resolve, started_activity_cancel_command_created, ActivityFsm, ActivityMachine,
  SharedState, activity, started, transition, event_of_history, event_of_command, adapt_response,
  cancel_activity, initial_state,
}
use sdk_core.Machines.Activity.Resolution.{scheduled, IsTold, run_inputs-IsTold}
use sdk_core.Machines.Activity.Abandon.{
  abandoned, reporting, abandoned_outcomes, SecondCancel, cancel_activity_twice,
}

abbrev attrs : ScheduleActivity
attrs = record {
  seq = 1;
  activity_id = codes "a";
  activity_type = codes "t";
  cancellation_type = some ActivityCancellationType.try_cancel;
}

abbrev event : ℕ → EventType → Attributes → HistEventData
event id t a = record {
  event = record { event_id = id; event_type = t; event_time = none; attributes = some a };
  replaying = false;
  current_task_is_last_in_history = false;
}

abbrev scheduled_event : HistEventData
scheduled_event = event 5 EventType.activity_task_scheduled (
    Attributes.activity_task_scheduled
      (record { activity_id = codes "a"; activity_type = some (codes "t") }))

abbrev started_event : HistEventData
started_event = event 6 EventType.activity_task_started Attributes.other_attributes

abbrev inputs : List Input
inputs =
    command CommandType.schedule_activity_task
    ∷ history scheduled_event
    ∷ history started_event
    ∷ cancels []
    ∷ command CommandType.request_cancel_activity_task
    ∷ []

abbrev dat : SharedState
dat = record (initial_state attrs disabled) { scheduled_event_id = 5; started_event_id = 6 }

abbrev last : ActivityMachine
last = from_parts ActivityFsm started_activity_cancel_command_created dat

-- A `TryCancel` activity that is cancelled while it runs asks the server and tells lang at once.
abbrev said : List MachineResponse
said =
    issue_new_command (record {
      command_type = CommandType.request_cancel_activity_task;
      attributes = some (request_cancel_activity_task 5);
    })
    ∷ push_wf_job (Job.resolve_activity (create_cancelation_resolve dat none))
    ∷ []

cancelled_runs :
    run_inputs activity (λ _. cancel_activity) (scheduled attrs disabled) inputs ≡ ok (last, said)
unfolding run_inputs step handle_event handle_command event_of_history event_of_command on_event
    transition adapt_response cancel_activity try_use
cancelled_runs = refl

run_inputs-IsTold_example : IsTold said last
run_inputs-IsTold_example = run_inputs-IsTold attrs disabled inputs last said cancelled_runs

abbrev abandoning : SharedState
abandoning = record dat { cancellation_type = ActivityCancellationType.abandon }

abbrev completed_attributes : ActivityTaskCompletedEventAttributes
completed_attributes = record { result = none; scheduled_event_id = 5; started_event_id = 6 }

abbrev failed_attributes : ActivityTaskFailedEventAttributes
failed_attributes = record {
  failure = none;
  scheduled_event_id = 5;
  started_event_id = 6;
  identity = [];
  retry_state = RetryState.unspecified;
}

abbrev timed_out_attributes : ActivityTaskTimedOutEventAttributes
timed_out_attributes = record {
  failure = none;
  scheduled_event_id = 5;
  started_event_id = 6;
  retry_state = RetryState.timeout;
}

abandoned_outcomes_example :
    (handle_event activity (abandoned abandoning) (
        reporting started_event EventType.activity_task_completed
          (Attributes.activity_task_completed completed_attributes))
      ≡ (abandoned abandoning, ok []))
    × (handle_event activity (abandoned abandoning) (
          reporting started_event EventType.activity_task_failed
            (Attributes.activity_task_failed failed_attributes))
        ≡ (abandoned abandoning, err fatal))
    × (handle_event activity (abandoned abandoning) (
          reporting started_event EventType.activity_task_timed_out
            (Attributes.activity_task_timed_out timed_out_attributes))
        ≡ (abandoned abandoning, err fatal))
abandoned_outcomes_example =
    abandoned_outcomes abandoning started_event completed_attributes failed_attributes
      timed_out_attributes refl

cancel_activity_twice_example : SecondCancel (from_parts ActivityFsm started dat)
cancel_activity_twice_example =
    cancel_activity_twice (from_parts ActivityFsm started dat) said
      (unfold cancel_activity on_event transition in refl)
