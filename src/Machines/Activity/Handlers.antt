-- ===== src/Machines/Activity/Handlers.antt =====
-- activity_state_machine.rs: the states, events and handlers.
use sdk_core.Prelude.{
  ℕ, Bool, true, false, not, Option, none, some, [], ◌∷◌, if◌then◌else◌, ◌&&◌, Text, codes, text_eq,
}
use sdk_core.Fsm.{TransitionResult, default, commands}
use sdk_core.Flags.{InternalFlags, id_and_type_determinism_checks, try_use}
use sdk_core.Proto.{
  Failure, failure, no_cause, caused_by, boxed, FailureInfo, activity_failure_info,
  canceled_failure_info, Payloads, RetryState, ActivityCancellationType, ScheduleActivity,
  request_cancel_activity_task, CommandType, ActivityTaskCompletedEventAttributes,
  ActivityTaskFailedEventAttributes, ActivityTaskTimedOutEventAttributes,
  ActivityTaskCanceledEventAttributes,
}
use sdk_core.Machines.{WfMachinesError, nondeterminism, ProtoCommand}

pub data State : Type 0 where
  created schedule_command_created scheduled_event_recorded started
        scheduled_activity_cancel_command_created scheduled_activity_cancel_event_recorded
        started_activity_cancel_command_created started_activity_cancel_event_recorded completed
        failed timed_out canceled :
      State

pub record ActTaskScheduledData : Type 0 where
  pub event_id : ℕ
  pub act_type : Text
  pub act_id : Text
  pub last_task_in_history : Bool

pub data Event : Type 0 where
  schedule command_schedule_activity_task command_request_cancel_activity_task cancel abandon
        activity_task_cancel_requested :
      Event
  activity_task_scheduled : ActTaskScheduledData → Event
  activity_task_started : (event_id : ℕ) → Event
  activity_task_completed : ActivityTaskCompletedEventAttributes → Event
  activity_task_failed : ActivityTaskFailedEventAttributes → Event
  activity_task_timed_out : ActivityTaskTimedOutEventAttributes → Event
  activity_task_canceled : ActivityTaskCanceledEventAttributes → Event

pub data ActivityMachineCommand : Type 0 where
  complete : Option Payloads → ActivityMachineCommand
  fail : Failure → ActivityMachineCommand
  cancel_command : Option ActivityTaskCanceledEventAttributes → ActivityMachineCommand
  request_cancellation : ProtoCommand → ActivityMachineCommand

-- `internal_flags` is the content of the cell that the machines of a workflow share: its owner
-- writes it in before a call and reads it out after.
pub record SharedState : Type 0 where
  pub scheduled_event_id : ℕ
  pub started_event_id : ℕ
  pub attrs : ScheduleActivity
  pub cancellation_type : ActivityCancellationType
  pub cancelled_before_sent : Bool
  pub internal_flags : InternalFlags

abbrev pub Transition : Type 0
Transition = TransitionResult ActivityMachineCommand State WfMachinesError

abbrev pub Handled : Type 0
Handled = SharedState × Transition

unfoldable pub activity_fail_info : Text → Text → Option Text → RetryState → ℕ → ℕ → FailureInfo
activity_fail_info act_type act_id identity retry_state started_event_id scheduled_event_id =
    activity_failure_info (record {
      scheduled_event_id = scheduled_event_id;
      started_event_id = started_event_id;
      identity = elim identity [ none ↦ [] | some i ↦ i ];
      activity_type = some act_type;
      activity_id = act_id;
      retry_state = retry_state;
    })

unfoldable pub new_failure : SharedState → ActivityTaskFailedEventAttributes → Failure
unfolding activity_fail_info
new_failure dat attrs = failure (codes "Activity task failed") (boxed attrs.failure) (
    some (
      activity_fail_info dat.attrs.activity_type dat.attrs.activity_id (some attrs.identity)
        attrs.retry_state attrs.started_event_id attrs.scheduled_event_id))

unfoldable pub new_timeout_failure : SharedState → ActivityTaskTimedOutEventAttributes → Failure
unfolding activity_fail_info
new_timeout_failure dat attrs = failure (codes "Activity task timed out") (boxed attrs.failure) (
    some (
      activity_fail_info dat.attrs.activity_type dat.attrs.activity_id none attrs.retry_state
        attrs.started_event_id attrs.scheduled_event_id))

unfoldable pub new_cancel_failure : SharedState → ActivityTaskCanceledEventAttributes → Failure
unfolding activity_fail_info
new_cancel_failure dat attrs =
    failure (codes "Activity cancelled")
      (caused_by (failure [] no_cause (some (canceled_failure_info attrs.details))))
      (some (
        activity_fail_info dat.attrs.activity_type dat.attrs.activity_id (some attrs.identity)
          RetryState.cancel_requested attrs.started_event_id attrs.scheduled_event_id))

-- `create_request_cancel_activity_task_command`.
request_cancel : SharedState → State → Handled
request_cancel dat next = (
  dat,
  TransitionResult.ok
      (request_cancellation (record {
        command_type = CommandType.request_cancel_activity_task;
        attributes = some (request_cancel_activity_task dat.scheduled_event_id);
      })
        ∷ [])
      next,
)

notify_lang_activity_timed_out : SharedState → ActivityTaskTimedOutEventAttributes → Transition
notify_lang_activity_timed_out dat attrs =
    commands (fail (new_timeout_failure dat attrs) ∷ []) timed_out

notify_lang_activity_cancelled : Option ActivityTaskCanceledEventAttributes → Transition
notify_lang_activity_cancelled event = commands (cancel_command event ∷ []) canceled

-- The notifiers leave the shared state alone, so what one would return is passed instead of it.
notify_if_not_already_cancelled : SharedState → State → Transition → Handled
notify_if_not_already_cancelled dat next notified = (
  dat,
  elim dat.cancellation_type [
    | ActivityCancellationType.try_cancel ↦ default next
    | ActivityCancellationType.wait_cancellation_completed ↦ notified
    | ActivityCancellationType.abandon ↦ TransitionResult.panics
  ],
)

-- The two checks of `on_activity_task_scheduled`, made if the flag may be used.
mismatch : SharedState → ActTaskScheduledData → Bool
mismatch dat sched =
    if text_eq sched.act_id dat.attrs.activity_id
    then not (text_eq sched.act_type dat.attrs.activity_type)
    else true

on_activity_task_scheduled : SharedState → ActTaskScheduledData → Handled
unfolding mismatch
on_activity_task_scheduled dat sched =
    let (flags, checks) =
      try_use dat.internal_flags id_and_type_determinism_checks sched.last_task_in_history in
    let dat' = record dat { internal_flags = flags } in
    if checks && mismatch dat sched
    then (dat', TransitionResult.err nondeterminism)
    else (record dat' { scheduled_event_id = sched.event_id }, default scheduled_event_recorded)

-- `ScheduleCommandCreated::on_canceled`. `dbg_panic!` logs in a release build, which is modelled, and
-- unwinds in a debug build.
cancel_unsent : SharedState → Handled
cancel_unsent dat = (
  record dat { cancelled_before_sent = true },
  elim dat.cancellation_type [
    | ActivityCancellationType.abandon ↦ default canceled
    | _ ↦ notify_lang_activity_cancelled none
  ],
)

-- `ScheduleCommandCreated::on_abandoned`.
abandon_unsent : SharedState → Handled
abandon_unsent dat =
    (record dat { cancelled_before_sent = true }, notify_lang_activity_cancelled none)

-- `Canceled::on_activity_task_started` and `on_activity_task_completed`: only abandoned activities
-- may still start or complete.
late_event : SharedState → Handled
late_event dat = (
  dat,
  elim dat.cancellation_type [
    | ActivityCancellationType.abandon ↦ default canceled
    | _ ↦ TransitionResult.err nondeterminism
  ],
)

-- The table of `fsm!`.
unfoldable pub transition : State → SharedState → Event → Option Handled
unfolding on_activity_task_scheduled cancel_unsent abandon_unsent late_event request_cancel
    notify_if_not_already_cancelled notify_lang_activity_timed_out notify_lang_activity_cancelled
transition created dat schedule = some (dat, default schedule_command_created)
transition schedule_command_created dat command_schedule_activity_task =
    some (dat, default schedule_command_created)
transition schedule_command_created dat (activity_task_scheduled d) =
    some (on_activity_task_scheduled dat d)
transition schedule_command_created dat cancel = some (cancel_unsent dat)
transition schedule_command_created dat abandon = some (abandon_unsent dat)
transition scheduled_event_recorded dat (activity_task_started id) =
    some (record dat { started_event_id = id }, default started)
transition scheduled_event_recorded dat (activity_task_timed_out a) =
    some (dat, notify_lang_activity_timed_out dat a)
transition scheduled_event_recorded dat cancel =
    some (request_cancel dat scheduled_activity_cancel_command_created)
transition scheduled_event_recorded dat abandon = some (dat, notify_lang_activity_cancelled none)
transition started dat (activity_task_completed a) =
    some (dat, TransitionResult.ok (complete a.result ∷ []) completed)
transition started dat (activity_task_failed a) =
    some (dat, TransitionResult.ok (fail (new_failure dat a) ∷ []) failed)
transition started dat (activity_task_timed_out a) =
    some (dat, notify_lang_activity_timed_out dat a)
transition started dat cancel = some (request_cancel dat started_activity_cancel_command_created)
transition started dat abandon = some (dat, notify_lang_activity_cancelled none)
transition scheduled_activity_cancel_command_created dat command_request_cancel_activity_task =
    some (dat, default scheduled_activity_cancel_command_created)
transition scheduled_activity_cancel_command_created dat activity_task_cancel_requested =
    some (dat, default scheduled_activity_cancel_event_recorded)
transition scheduled_activity_cancel_event_recorded dat (activity_task_canceled a) =
    some (notify_if_not_already_cancelled dat canceled (notify_lang_activity_cancelled (some a)))
transition scheduled_activity_cancel_event_recorded dat (activity_task_started id) =
    some (dat, default started_activity_cancel_event_recorded)
transition scheduled_activity_cancel_event_recorded dat (activity_task_timed_out a) =
    some (notify_if_not_already_cancelled dat timed_out (notify_lang_activity_timed_out dat a))
transition started_activity_cancel_command_created dat command_request_cancel_activity_task =
    some (dat, default started_activity_cancel_command_created)
transition started_activity_cancel_command_created dat activity_task_cancel_requested =
    some (dat, default started_activity_cancel_event_recorded)
transition started_activity_cancel_event_recorded dat (activity_task_failed a) =
    some
      (notify_if_not_already_cancelled dat failed (commands (fail (new_failure dat a) ∷ []) failed))
transition started_activity_cancel_event_recorded dat (activity_task_completed a) =
    some
      (notify_if_not_already_cancelled dat completed (commands (complete a.result ∷ []) completed))
transition started_activity_cancel_event_recorded dat (activity_task_timed_out a) =
    some (notify_if_not_already_cancelled dat timed_out (notify_lang_activity_timed_out dat a))
transition started_activity_cancel_event_recorded dat (activity_task_canceled a) =
    some (notify_if_not_already_cancelled dat canceled (notify_lang_activity_cancelled (some a)))
transition canceled dat (activity_task_started id) = some (late_event dat)
transition canceled dat (activity_task_completed a) = some (late_event dat)
transition _ dat _ = none

-- The states that no transition leaves.
unfoldable pub is_final : State → Bool
is_final completed = true
is_final failed = true
is_final timed_out = true
is_final _ = false
