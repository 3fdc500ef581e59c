-- ===== src/Tests/LocalActivityTests.antt =====
-- local_activity_state_machine.rs on concrete local activities.
use sdk_core.Prelude.{
  ℕ, true, false, none, some, List, [], ◌∷◌, ◌++◌, ok, Text, codes, text_eq, ◌≡◌, refl,
}
use sdk_core.Fsm.{on_event, from_parts}
use sdk_core.Flags.{disabled}
use sdk_core.Proto.{
  CommandType, failure, no_cause, EventType, HistoryEvent, Attributes, ValidScheduleLa,
  ActivityCancellationType, LocalActivityMarkerData, LocalActivityExecutionResult, MarkerResult,
}
use sdk_core.Machines.{MachineResponse, process_machine_commands, finish, handle_command}
use sdk_core.Machines.LocalActivity.{
  State, MarkerJson, ResolveDat, result_notified, marker_command_created, completed, transition,
  try_resolve_with_dat, encountered_non_replay_wft, SharedState, LocalActivityFsm,
  resolved_responses, adapt_response, try_resolve, event_of_command, local_activity_marker_name,
  build_local_activity_marker_details, empty_payload, into_local_activity_marker_details,
}
use sdk_core.Machines.LocalActivity.Creation.{new_local_activity}
use sdk_core.Machines.LocalActivity.Moves.{IsTold}
use sdk_core.Machines.LocalActivity.Resolution.{
  Run, new, next, step, executed, command, known, replay_ends, local_activity-IsTold,
}
use sdk_core.Machines.LocalActivity.Tells.{tally, is_job}
use sdk_core.Machines.LocalActivity.Start.{is_queued, is_fake, new_local_activity_asks}
use sdk_core.Machines.LocalActivity.Roundtrip.{marker-roundtrip}

abbrev attrs : ValidScheduleLa
attrs = record {
  seq = 3;
  activity_id = codes "a";
  activity_type = codes "t";
  attempt = 1;
  original_schedule_time = some 5;
  cancellation_type = ActivityCancellationType.abandon;
}

abbrev marker : LocalActivityMarkerData
marker = record {
  seq = 3;
  attempt = 1;
  activity_id = codes "a";
  activity_type = codes "t";
  complete_time = some 17;
  backoff = none;
  original_schedule_time = some 5;
}

-- A codec that knows one datum.
abbrev json : MarkerJson
json = record {
  print = λ _. some (codes "{}");
  parse = λ t. sdk_core.Prelude.if◌then◌else◌ (text_eq t (codes "{}")) (some marker) none;
}

abbrev shared : SharedState
shared = record {
  attrs = attrs;
  replaying_when_invoked = false;
  wf_time_when_started = some 10;
  internal_flags = disabled;
}

abbrev told_dat : ResolveDat
told_dat = record {
  result = LocalActivityExecutionResult.completed none;
  complete_time = some 17;
  attempt = 1;
  backoff = none;
  original_schedule_time = some 5;
}

executed_run :
    Run json attrs
      (from_parts LocalActivityFsm (result_notified completed) shared)
      0
      (MachineResponse.queue_local_activity attrs ∷ resolved_responses json shared told_dat)
unfolding step new_local_activity on_event transition adapt_response try_resolve
    process_machine_commands finish handle_command event_of_command resolved_responses
executed_run =
    next (command CommandType.record_marker)
      (next (executed (LocalActivityExecutionResult.completed none) 7 1 none (some 5))
        (new false none (some 10) disabled 0 refl) refl)
      refl

local_activity-IsTold_example :
    IsTold 3 0
      (MachineResponse.queue_local_activity attrs ∷ resolved_responses json shared told_dat)
      (from_parts LocalActivityFsm (result_notified completed) shared)
local_activity-IsTold_example = local_activity-IsTold json executed_run

abbrev replaying_shared : SharedState
replaying_shared = record shared { replaying_when_invoked = true }

-- A marker resolves the activity, and then the replay ends before its event came: the activity is
-- executed, and lang is told its result a second time.
repeated_run :
    Run json attrs (from_parts LocalActivityFsm (marker_command_created completed) shared) 1 (
      resolved_responses json replaying_shared told_dat
      ++ (MachineResponse.queue_local_activity attrs ∷ resolved_responses json shared told_dat))
unfolding step new_local_activity on_event transition adapt_response try_resolve
    try_resolve_with_dat encountered_non_replay_wft process_machine_commands resolved_responses
repeated_run =
    next (executed (LocalActivityExecutionResult.completed none) 7 1 none (some 5))
      (next replay_ends (next (known told_dat) (new true none (some 10) disabled 0 refl) refl) refl)
      refl

told_twice_test :
    tally is_job (
      resolved_responses json replaying_shared told_dat
      ++ (MachineResponse.queue_local_activity attrs ∷ resolved_responses json shared told_dat))
    ≡ 2
told_twice_test = (local_activity-IsTold json repeated_run).tells.jobs

abbrev failed_marker : HistoryEvent
failed_marker = record {
  event_id = 9;
  event_type = EventType.marker_recorded;
  event_time = none;
  attributes = some (
      Attributes.marker_recorded local_activity_marker_name
        (build_local_activity_marker_details json marker (some empty_payload))
        (some (failure (codes "oh no") no_cause none)));
}

marker-roundtrip_example :
    into_local_activity_marker_details json failed_marker
    ≡ some (record {
      marker_dat = marker;
      result = MarkerResult.failed (failure (codes "oh no") no_cause none);
    })
unfolding text_eq
marker-roundtrip_example =
    marker-roundtrip json marker (some empty_payload) (some (failure (codes "oh no") no_cause none))
      (codes "{}") failed_marker refl refl refl refl

pre_resolved :
    new_local_activity json attrs true (some told_dat) (some 10) disabled 0
    ≡ ok (
      from_parts LocalActivityFsm State.waiting_marker_event_pre_resolved replaying_shared,
      resolved_responses json replaying_shared told_dat,
    )
unfolding new_local_activity on_event transition adapt_response
pre_resolved = refl

new_local_activity_asks_example :
    let rs = resolved_responses json replaying_shared told_dat in
    (tally is_queued rs ≡ 0) × (tally is_fake rs ≡ 0)
new_local_activity_asks_example =
    new_local_activity_asks json attrs true (some told_dat) (some 10) disabled 0 _ _ pre_resolved
