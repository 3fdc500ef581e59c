-- ===== src/Machines/LocalActivity/Resolving.antt =====
-- local_activity_state_machine.rs: what a resolved local activity has lang and the server told.
use sdk_core.Prelude.{
  ◌+◌, ◌%◌, ◌^◌, Bool, true, false, Option, none, some, List, [], ◌∷◌, ◌++◌, if◌then◌else◌, Text,
  codes,
}
use sdk_core.Proto.{
  Payload, Failure, failure, caused_by, FailureInfo, CommandAttributes, ActivityCancellationType,
  RetryState, ActivityStatus, Job, ValidScheduleLa, LocalActivityExecutionResult,
}
use sdk_core.Machines.{
  MachineResponse, push_wf_job, issue_new_command, update_wf_time, abandon_local_activity,
  proto_command,
}
use sdk_core.Machines.Activity.{activity_fail_info}
use sdk_core.Machines.LocalActivity.Handlers.{ResolveDat, SharedState}
use sdk_core.Machines.LocalActivity.Markers.{
  MarkerJson, local_activity_marker_name, build_local_activity_marker_details,
}

-- `maybe_ok_result` and `maybe_failure`.
ok_result : LocalActivityExecutionResult → Option Payload
ok_result (LocalActivityExecutionResult.completed r) = r
ok_result _ = none

failure_of : LocalActivityExecutionResult → Option Failure
failure_of (LocalActivityExecutionResult.completed r) = none
failure_of (LocalActivityExecutionResult.failed f) = f
failure_of (LocalActivityExecutionResult.timed_out f) = f
failure_of (LocalActivityExecutionResult.cancelled f) = f

will_not_run_again : LocalActivityExecutionResult → Bool
will_not_run_again (LocalActivityExecutionResult.timed_out _) = true
will_not_run_again (LocalActivityExecutionResult.cancelled _) = true
will_not_run_again _ = false

-- The failure that `wrap_fail!` puts around one of the kind that it looks for.
wrapped : ValidScheduleLa → Text → Failure → Failure
unfolding activity_fail_info
wrapped attrs message f = failure message (caused_by f) (
    some (
      activity_fail_info attrs.activity_type attrs.activity_id none RetryState.cancel_requested 0
        0))

wrap_timeout : ValidScheduleLa → Option Failure → Option Failure
unfolding wrapped
wrap_timeout attrs (some (failure m c (some (FailureInfo.timeout_failure_info t)))) = some (
    wrapped attrs (codes "Local Activity timed out")
      (failure m c (some (FailureInfo.timeout_failure_info t))))
wrap_timeout attrs f = f

wrap_cancel : ValidScheduleLa → Option Failure → Option Failure
unfolding wrapped
wrap_cancel attrs (some (failure m c (some (FailureInfo.canceled_failure_info d)))) = some (
    wrapped attrs (codes "Local Activity cancelled")
      (failure m c (some (FailureInfo.canceled_failure_info d))))
wrap_cancel attrs f = f

result_status : ValidScheduleLa → LocalActivityExecutionResult → ActivityStatus
unfolding wrap_timeout wrap_cancel
result_status attrs (LocalActivityExecutionResult.completed r) = ActivityStatus.completed r
result_status attrs (LocalActivityExecutionResult.failed f) = ActivityStatus.failed f
result_status attrs (LocalActivityExecutionResult.timed_out f) =
    ActivityStatus.failed (wrap_timeout attrs f)
result_status attrs (LocalActivityExecutionResult.cancelled f) =
    ActivityStatus.cancelled (wrap_cancel attrs f)

-- `resolution`. The attempt is a `u32`, which wraps in a release build.
unfoldable pub resolution : ValidScheduleLa → ResolveDat → ActivityStatus
unfolding result_status
resolution attrs dat = elim dat.backoff [
  | some b ↦ ActivityStatus.backoff ((dat.attempt + 1) % 2 ^ 32) (some b) dat.original_schedule_time
  | none ↦ result_status attrs dat.result
]

is_abandon : ActivityCancellationType → Bool
is_abandon ActivityCancellationType.abandon = true
is_abandon _ = false

-- `AbandonLocalActivity`, for a cancelled or timed out activity that lang has abandoned.
abandoned : ValidScheduleLa → LocalActivityExecutionResult → List MachineResponse
unfolding is_abandon will_not_run_again
abandoned attrs r =
    if will_not_run_again r
    then if is_abandon attrs.cancellation_type then abandon_local_activity attrs.seq ∷ [] else []
    else []

module _ (json : MarkerJson) where
  -- The command that records the marker.
  marker_command : ValidScheduleLa → ResolveDat → MachineResponse
  unfolding ok_result failure_of build_local_activity_marker_details
  marker_command attrs dat = issue_new_command (
      proto_command (
        CommandAttributes.record_marker local_activity_marker_name
          (build_local_activity_marker_details json
            (record {
              seq = attrs.seq;
              attempt = dat.attempt;
              activity_id = attrs.activity_id;
              activity_type = attrs.activity_type;
              complete_time = dat.complete_time;
              backoff = dat.backoff;
              original_schedule_time = dat.original_schedule_time;
            })
            (ok_result dat.result))
          (failure_of dat.result)))

  -- The arm of `Resolved`. A marker is recorded only if the machine was not replaying.
  unfoldable pub resolved_responses : SharedState → ResolveDat → List MachineResponse
  unfolding resolution abandoned marker_command
  resolved_responses shared dat =
      push_wf_job (
        Job.resolve_activity (record {
          seq = shared.attrs.seq;
          result = resolution shared.attrs dat;
          is_local = true;
        }))
      ∷ update_wf_time dat.complete_time
      ∷ (abandoned shared.attrs dat.result
          ++ (if shared.replaying_when_invoked then [] else marker_command shared.attrs dat ∷ []))
