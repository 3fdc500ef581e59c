-- ===== src/Machines/ChildWorkflow/Handlers.antt =====
-- core/src/worker/workflow/machines/child_workflow_state_machine.rs: the states, events and handlers.
use sdk_core.Prelude.{
  ℕ, Bool, true, false, not, Option, none, some, [], ◌∷◌, ◌++◌, if◌then◌else◌, ◌&&◌, Text, codes,
  text_eq,
}
use sdk_core.Fsm.{TransitionResult, default, commands}
use sdk_core.Flags.{InternalFlags, id_and_type_determinism_checks, try_use}
use sdk_core.Proto.{
  Failure, failure, no_cause, caused_by, boxed, FailureInfo, canceled_failure_info,
  timeout_failure_info, terminated_failure_info, child_workflow_execution_failure_info, Payloads,
  RetryState, TimeoutType, WorkflowExecution, ChildWorkflowCancellationType,
  StartChildWorkflowExecutionFailedCause, ChildWorkflowExecutionFailedEventAttributes,
}
use sdk_core.Machines.{WfMachinesError, nondeterminism, fatal}

pub data State : Type 0 where
  created start_command_created start_event_recorded start_failed started completed failed timed_out
        terminated :
      State
  cancelled : (seen_cancelled_event : Bool) → State

pub record ChildWorkflowInitiatedData : Type 0 where
  pub event_id : ℕ
  pub wf_type : Text
  pub wf_id : Text
  pub last_task_in_history : Bool

pub record ChildWorkflowExecutionStartedEvent : Type 0 where
  pub workflow_execution : WorkflowExecution
  pub started_event_id : ℕ

pub data Event : Type 0 where
  schedule command_start_child_workflow_execution command_request_cancel_external_workflow_execution
        child_workflow_execution_cancelled child_workflow_execution_terminated :
      Event
  cancel : (reason : Text) → Event
  start_child_workflow_execution_initiated : ChildWorkflowInitiatedData → Event
  child_workflow_execution_started : ChildWorkflowExecutionStartedEvent → Event
  start_child_workflow_execution_failed : StartChildWorkflowExecutionFailedCause → Event
  child_workflow_execution_completed : Option Payloads → Event
  child_workflow_execution_failed : ChildWorkflowExecutionFailedEventAttributes → Event
  child_workflow_execution_timed_out : RetryState → Event

pub data ChildWorkflowCommand : Type 0 where
  start : WorkflowExecution → ChildWorkflowCommand
  complete : Option Payloads → ChildWorkflowCommand
  fail : Failure → ChildWorkflowCommand
  cancel_command : ChildWorkflowCommand
  start_fail : StartChildWorkflowExecutionFailedCause → ChildWorkflowCommand
  start_cancel : Failure → ChildWorkflowCommand
  issue_cancel_after_started : (reason : Text) → ChildWorkflowCommand

-- `internal_flags` is the content of the shared cell, as in the activity machine.
pub record SharedState : Type 0 where
  pub initiated_event_id : ℕ
  pub started_event_id : ℕ
  pub lang_sequence_number : ℕ
  pub namespace : Text
  pub workflow_id : Text
  pub run_id : Text
  pub workflow_type : Text
  pub cancelled_before_sent : Bool
  pub cancel_type : ChildWorkflowCancellationType
  pub internal_flags : InternalFlags

abbrev pub Transition : Type 0
Transition = TransitionResult ChildWorkflowCommand State WfMachinesError

abbrev pub Handled : Type 0
Handled = SharedState × Transition

unfoldable pub failure_info_from_state : SharedState → RetryState → Option FailureInfo
failure_info_from_state dat retry_state = some (
    child_workflow_execution_failure_info (record {
      namespace = dat.namespace;
      workflow_execution = some (record { workflow_id = dat.workflow_id; run_id = dat.run_id });
      workflow_type = some dat.workflow_type;
      initiated_event_id = dat.initiated_event_id;
      started_event_id = dat.started_event_id;
      retry_state = retry_state;
    }))

abbrev pub abandons : SharedState → Bool
abandons dat = elim dat.cancel_type [ ChildWorkflowCancellationType.abandon ↦ true | _ ↦ false ]

-- `Cancelled::on_child_workflow_execution_cancelled`.
cancelled_again : SharedState → Bool → Handled
cancelled_again dat seen =
    (dat, if seen then TransitionResult.err fatal else default (cancelled true))

-- The four handlers of `Cancelled` for an outcome.
late_outcome : SharedState → Bool → Handled
late_outcome dat seen =
    (dat, if abandons dat then default (cancelled seen) else TransitionResult.err nondeterminism)

-- The two checks made if the flag may be used.
mismatch : SharedState → ChildWorkflowInitiatedData → Bool
mismatch dat event_dat =
    if text_eq event_dat.wf_id dat.workflow_id
    then not (text_eq event_dat.wf_type dat.workflow_type)
    else true

on_start_child_workflow_execution_initiated : SharedState → ChildWorkflowInitiatedData → Handled
unfolding mismatch
on_start_child_workflow_execution_initiated dat event_dat =
    let (flags, checks) =
      try_use dat.internal_flags id_and_type_determinism_checks event_dat.last_task_in_history in
    let dat' = record dat { internal_flags = flags } in
    if checks && mismatch dat event_dat
    then (dat', TransitionResult.err nondeterminism)
    else (record dat' { initiated_event_id = event_dat.event_id }, default start_event_recorded)

-- `StartCommandCreated::on_cancelled`.
cancel_unsent : SharedState → Text → Handled
unfolding failure_info_from_state
cancel_unsent dat reason = (
  record dat { cancelled_before_sent = true },
  commands
      (start_cancel (
          failure (codes "Child Workflow Execution cancelled before scheduled: " ++ reason)
            (caused_by (failure [] no_cause (some (canceled_failure_info none))))
            (failure_info_from_state dat RetryState.non_retryable_failure))
        ∷ [])
      (cancelled false),
)

on_child_workflow_execution_started : SharedState → ChildWorkflowExecutionStartedEvent → Handled
on_child_workflow_execution_started dat event = (
  record dat {
    started_event_id = event.started_event_id;
    run_id = event.workflow_execution.run_id;
  },
  commands (start event.workflow_execution ∷ []) started,
)

on_child_workflow_execution_failed :
    SharedState → ChildWorkflowExecutionFailedEventAttributes → Transition
unfolding failure_info_from_state
on_child_workflow_execution_failed dat attrs =
    TransitionResult.ok
      (fail (
          failure (codes "Child Workflow execution failed") (boxed attrs.failure)
            (failure_info_from_state dat attrs.retry_state))
        ∷ [])
      failed

on_child_workflow_execution_timed_out : SharedState → RetryState → Transition
unfolding failure_info_from_state
on_child_workflow_execution_timed_out dat retry_state =
    TransitionResult.ok
      (fail (
          failure (codes "Child Workflow execution timed out")
            (caused_by (
              failure (codes "Timed out") no_cause
                (some (timeout_failure_info TimeoutType.start_to_close))))
            (failure_info_from_state dat retry_state))
        ∷ [])
      timed_out

on_child_workflow_execution_terminated : SharedState → Transition
unfolding failure_info_from_state
on_child_workflow_execution_terminated dat =
    TransitionResult.ok
      (fail (
          failure (codes "Child Workflow execution terminated")
            (caused_by (failure (codes "Terminated") no_cause (some terminated_failure_info)))
            (failure_info_from_state dat RetryState.non_retryable_failure))
        ∷ [])
      terminated

-- `StartedOrCancelled`, by the cancellation type.
cancel_dest : ChildWorkflowCancellationType → State
cancel_dest ChildWorkflowCancellationType.abandon = cancelled false
cancel_dest ChildWorkflowCancellationType.try_cancel = cancelled false
cancel_dest _ = started

-- `Started::on_cancelled`.
cancel_started : SharedState → Text → Transition
unfolding cancel_dest
cancel_started dat reason =
    TransitionResult.ok (issue_cancel_after_started reason ∷ []) (cancel_dest dat.cancel_type)

-- The table of `fsm!`. A transition without a handler passes the state's own data on.
unfoldable pub transition : State → SharedState → Event → Option Handled
unfolding cancelled_again late_outcome on_start_child_workflow_execution_initiated cancel_unsent
    on_child_workflow_execution_started on_child_workflow_execution_failed
    on_child_workflow_execution_timed_out on_child_workflow_execution_terminated cancel_started
transition created dat schedule = some (dat, default start_command_created)
transition start_command_created dat command_start_child_workflow_execution =
    some (dat, default start_command_created)
transition start_command_created dat (start_child_workflow_execution_initiated i) =
    some (on_start_child_workflow_execution_initiated dat i)
transition start_command_created dat (cancel reason) = some (cancel_unsent dat reason)
transition start_event_recorded dat (child_workflow_execution_started e) =
    some (on_child_workflow_execution_started dat e)
transition start_event_recorded dat (start_child_workflow_execution_failed cause) =
    some (dat, TransitionResult.ok (start_fail cause ∷ []) start_failed)
transition started dat (child_workflow_execution_completed result) =
    some (dat, TransitionResult.ok (complete result ∷ []) completed)
transition started dat (child_workflow_execution_failed attrs) =
    some (dat, on_child_workflow_execution_failed dat attrs)
transition started dat (child_workflow_execution_timed_out r) =
    some (dat, on_child_workflow_execution_timed_out dat r)
transition started dat child_workflow_execution_cancelled =
    some (dat, TransitionResult.ok (cancel_command ∷ []) (cancelled true))
transition started dat child_workflow_execution_terminated =
    some (dat, on_child_workflow_execution_terminated dat)
transition started dat (cancel reason) = some (dat, cancel_started dat reason)
transition started dat command_request_cancel_external_workflow_execution =
    some (dat, default started)
transition (cancelled seen) dat (cancel reason) = some (dat, default (cancelled seen))
transition (cancelled seen) dat child_workflow_execution_cancelled = some (cancelled_again dat seen)
transition (cancelled seen) dat (child_workflow_execution_completed _) =
    some (late_outcome dat seen)
transition (cancelled seen) dat (child_workflow_execution_failed _) = some (late_outcome dat seen)
transition (cancelled seen) dat (child_workflow_execution_timed_out _) =
    some (late_outcome dat seen)
transition (cancelled seen) dat child_workflow_execution_terminated = some (late_outcome dat seen)
transition failed dat (cancel reason) = some (dat, default failed)
transition start_failed dat (cancel reason) = some (dat, default start_failed)
transition timed_out dat (cancel reason) = some (dat, default timed_out)
transition completed dat (cancel reason) = some (dat, default completed)
transition _ dat _ = none

-- The only state that no transition leaves.
unfoldable pub is_final : State → Bool
is_final terminated = true
is_final _ = false
