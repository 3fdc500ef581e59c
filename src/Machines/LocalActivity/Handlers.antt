-- ===== src/Machines/LocalActivity/Handlers.antt =====
-- local_activity_state_machine.rs: the states, the events and the handlers of a local activity.
use sdk_core.Prelude.{
  ℕ, Bool, true, false, not, Option, none, some, [], ◌∷◌, ◌==◌, if◌then◌else◌, text_eq, Outcome, ok,
  err, panicked, ◌||◌,
}
use sdk_core.Fsm.{TransitionResult, default, commands}
use sdk_core.Flags.{InternalFlags, try_use, id_and_type_determinism_checks}
use sdk_core.Proto.{
  Failure, failure, Cause, no_cause, caused_by, FailureInfo, canceled_failure_info,
  ActivityCancellationType, ValidScheduleLa, MarkerResult, CompleteLocalActivityData,
  LocalActivityExecutionResult, empty_cancel,
}
use sdk_core.Machines.{WfMachinesError, nondeterminism}

pub record ResolveDat : Type 0 where
  pub result : LocalActivityExecutionResult
  pub complete_time : Option ℕ
  pub attempt : ℕ
  pub backoff : Option ℕ
  pub original_schedule_time : Option ℕ

pub data ResultType : Type 0 where
  completed cancelled failed : ResultType

pub data State : Type 0 where
  executing replaying request_sent marker_command_recorded waiting_marker_event_pre_resolved : State
  replaying_pre_resolved : (dat : ResolveDat) → State
  marker_command_created : (result_type : ResultType) → State
  result_notified : (result_type : ResultType) → State
  waiting_marker_event : (already_resolved : Bool) → State

pub data Event : Type 0 where
  schedule cancel command_record_marker started_non_replay_wft : Event
  handle_result : ResolveDat → Event
  handle_known_result : ResolveDat → Event
  no_wait_cancel : ActivityCancellationType → Event
  marker_recorded : CompleteLocalActivityData → Event

pub data LocalActivityCommand : Type 0 where
  request_activity_execution : ValidScheduleLa → LocalActivityCommand
  resolved : ResolveDat → LocalActivityCommand
  fake_marker request_cancel : LocalActivityCommand

pub record SharedState : Type 0 where
  pub attrs : ValidScheduleLa
  pub replaying_when_invoked : Bool
  pub wf_time_when_started : Option ℕ
  pub internal_flags : InternalFlags

abbrev pub Transition : Type 0
Transition = TransitionResult LocalActivityCommand State WfMachinesError

abbrev pub Handled : Type 0
Handled = SharedState × Transition

is_canceled_info : Option FailureInfo → Bool
is_canceled_info (some (canceled_failure_info _)) = true
is_canceled_info _ = false

cause_info : Cause → Option FailureInfo
cause_info no_cause = none
cause_info (caused_by (failure _ _ info)) = info

result_of_failure : Failure → LocalActivityExecutionResult
unfolding is_canceled_info cause_info
result_of_failure (failure message cause info) =
    if is_canceled_info info || is_canceled_info (cause_info cause)
    then LocalActivityExecutionResult.cancelled (some (failure message cause info))
    else LocalActivityExecutionResult.failed (some (failure message cause info))

result_of_marker : MarkerResult → LocalActivityExecutionResult
unfolding result_of_failure
result_of_marker (MarkerResult.succeeded res) = LocalActivityExecutionResult.completed (some res)
result_of_marker (MarkerResult.failed fail) = result_of_failure fail

-- `From<CompleteLocalActivityData> for ResolveDat`.
unfoldable pub resolve_dat : CompleteLocalActivityData → ResolveDat
unfolding result_of_marker
resolve_dat d = record {
  result = result_of_marker d.result;
  complete_time = d.marker_dat.complete_time;
  attempt = d.marker_dat.attempt;
  backoff = d.marker_dat.backoff;
  original_schedule_time = d.marker_dat.original_schedule_time;
}

unfoldable pub produce_no_wait_cancel_resolve_dat : SharedState → ResolveDat
unfolding empty_cancel
produce_no_wait_cancel_resolve_dat dat = record {
  result = empty_cancel;
  complete_time = none;
  attempt = dat.attrs.attempt;
  backoff = none;
  original_schedule_time = dat.attrs.original_schedule_time;
}

result_type_of : LocalActivityExecutionResult → ResultType
result_type_of (LocalActivityExecutionResult.completed _) = completed
result_type_of (LocalActivityExecutionResult.failed _) = failed
result_type_of (LocalActivityExecutionResult.timed_out _) = failed
result_type_of (LocalActivityExecutionResult.cancelled _) = cancelled

-- `RequestSent::on_handle_result`.
on_handle_result : ResolveDat → Transition
unfolding result_type_of
on_handle_result dat =
    commands (resolved dat ∷ []) (marker_command_created (result_type_of dat.result))

-- `RequestSent::on_no_wait_cancel`: only a try-cancel also requests the cancel.
sent_no_wait_cancel : SharedState → ActivityCancellationType → Transition
unfolding produce_no_wait_cancel_resolve_dat
sent_no_wait_cancel dat ActivityCancellationType.try_cancel =
    commands (request_cancel ∷ resolved (produce_no_wait_cancel_resolve_dat dat) ∷ [])
      (marker_command_created cancelled)
sent_no_wait_cancel dat _ =
    commands (resolved (produce_no_wait_cancel_resolve_dat dat) ∷ [])
      (marker_command_created cancelled)

-- `MarkerCommandRecorded::on_no_wait_cancel`.
recorded_no_wait_cancel : ActivityCancellationType → Transition
recorded_no_wait_cancel ActivityCancellationType.try_cancel =
    commands (request_cancel ∷ []) marker_command_recorded
recorded_no_wait_cancel _ = default marker_command_recorded

-- Whether id and type of the marker are those of the request, looked at only if `checks`.
same_id_and_type : Bool → ValidScheduleLa → CompleteLocalActivityData → Bool
same_id_and_type false attrs d = true
same_id_and_type true attrs d =
    if text_eq d.marker_dat.activity_id attrs.activity_id
    then text_eq d.marker_dat.activity_type attrs.activity_type
    else false

-- `verify_marker_data_matches`, with the shared state since it may note the use of a flag.
unfoldable pub verify_marker_data_matches :
    SharedState → CompleteLocalActivityData → SharedState × Outcome WfMachinesError (Unit {0})
unfolding same_id_and_type
verify_marker_data_matches dat d =
    if dat.attrs.seq == d.marker_dat.seq
    then (let used =
          try_use dat.internal_flags id_and_type_determinism_checks
            (not dat.replaying_when_invoked) in
        (
          record dat { internal_flags = used.0 },
          if same_id_and_type used.1 dat.attrs d then ok tt else err nondeterminism,
        ))
    else (dat, err nondeterminism)

-- `verify_marker_dat!`.
verified : SharedState × Outcome WfMachinesError (Unit {0}) → Transition → Handled
verified (dat, ok _) next = (dat, next)
verified (dat, err e) next = (dat, TransitionResult.err e)
verified (dat, panicked) next = (dat, TransitionResult.panics)

contradicts : ResultType → MarkerResult → Bool
contradicts completed (MarkerResult.failed _) = true
contradicts failed (MarkerResult.succeeded _) = true
contradicts _ _ = false

-- `ResultNotified::on_marker_recorded`.
notified_marker_recorded : ResultType → SharedState → CompleteLocalActivityData → Handled
unfolding verified contradicts verify_marker_data_matches
notified_marker_recorded t dat d =
    if contradicts t d.result
    then (dat, TransitionResult.err nondeterminism)
    else verified (verify_marker_data_matches dat d) (default marker_command_recorded)

-- `WaitingMarkerEvent::on_marker_recorded`.
waiting_marker_recorded : Bool → SharedState → CompleteLocalActivityData → Handled
unfolding verified verify_marker_data_matches
waiting_marker_recorded already_resolved dat d = verified (verify_marker_data_matches dat d) (
    commands (if already_resolved then [] else resolved (resolve_dat d) ∷ [])
      marker_command_recorded)

-- `WaitingMarkerEventPreResolved::on_marker_recorded`.
pre_resolved_marker_recorded : SharedState → CompleteLocalActivityData → Handled
unfolding verified verify_marker_data_matches
pre_resolved_marker_recorded dat d =
    verified (verify_marker_data_matches dat d) (default marker_command_recorded)

-- `WaitingMarkerEvent::on_started_non_replay_wft`.
on_started_non_replay_wft : SharedState → Handled
on_started_non_replay_wft dat = (
  record dat { replaying_when_invoked = false },
  commands (request_activity_execution dat.attrs ∷ []) request_sent,
)

-- The table of `fsm!`.
unfoldable pub transition : State → SharedState → Event → Option Handled
unfolding on_handle_result sent_no_wait_cancel recorded_no_wait_cancel notified_marker_recorded
    waiting_marker_recorded pre_resolved_marker_recorded on_started_non_replay_wft
transition executing dat schedule =
    some (dat, commands (request_activity_execution dat.attrs ∷ []) request_sent)
transition replaying dat schedule = some (dat, TransitionResult.ok [] (waiting_marker_event false))
transition (replaying_pre_resolved r) dat schedule =
    some (dat, commands (fake_marker ∷ resolved r ∷ []) waiting_marker_event_pre_resolved)
transition request_sent dat (handle_result r) = some (dat, on_handle_result r)
transition request_sent dat cancel = some (dat, commands (request_cancel ∷ []) request_sent)
transition request_sent dat (no_wait_cancel t) = some (dat, sent_no_wait_cancel dat t)
transition (marker_command_created t) dat command_record_marker =
    some (dat, default (result_notified t))
transition (marker_command_created t) dat (handle_result r) =
    some (dat, default (marker_command_created t))
transition (result_notified t) dat (marker_recorded d) = some (notified_marker_recorded t dat d)
transition (result_notified t) dat (handle_result r) = some (dat, default (result_notified t))
transition (waiting_marker_event done) dat (marker_recorded d) =
    some (waiting_marker_recorded done dat d)
transition (waiting_marker_event done) dat cancel =
    some (dat, commands (request_cancel ∷ []) (waiting_marker_event done))
transition (waiting_marker_event done) dat (no_wait_cancel t) =
    some (dat, commands (request_cancel ∷ []) (waiting_marker_event done))
transition (waiting_marker_event done) dat (handle_known_result r) =
    some (dat, commands (resolved r ∷ []) (waiting_marker_event true))
transition (waiting_marker_event done) dat started_non_replay_wft =
    some (on_started_non_replay_wft dat)
transition waiting_marker_event_pre_resolved dat (marker_recorded d) =
    some (pre_resolved_marker_recorded dat d)
transition waiting_marker_event_pre_resolved dat cancel =
    some (dat, default waiting_marker_event_pre_resolved)
transition waiting_marker_event_pre_resolved dat (no_wait_cancel t) =
    some (dat, default waiting_marker_event_pre_resolved)
transition marker_command_recorded dat cancel =
    some (dat, commands (request_cancel ∷ []) marker_command_recorded)
transition marker_command_recorded dat (no_wait_cancel t) = some (dat, recorded_no_wait_cancel t)
transition marker_command_recorded dat (handle_result r) =
    some (dat, default marker_command_recorded)
transition _ dat _ = none
