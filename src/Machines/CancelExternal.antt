-- ===== src/Machines/CancelExternal.antt =====
-- core/src/worker/workflow/machines/cancel_external_state_machine.rs: asking for the cancellation of
-- another workflow.
pub mod Answers
use sdk_core.Prelude.{
  ℕ, Bool, true, false, Option, none, some, List, [], ◌∷◌, ◌++◌, Text, codes, Outcome, ok, err,
  panicked,
}
use sdk_core.Fsm.{StateMachine, Machine, TransitionResult, default, commands, from_parts, on_event}
use sdk_core.Proto.{
  Failure, failure, no_cause, application_failure_info, CommandType, CommandAttributes, EventType,
  HistEventData, Attributes, EventInfo, CancelExternalWorkflowExecutionFailedCause, Job,
}
use sdk_core.Machines.{
  WfMachinesError, nondeterminism, fatal, MachineResponse, push_wf_job, Responses, WfMachine,
}

pub data State : Type 0 where
  created request_cancel_external_command_created request_cancel_external_command_recorded
        cancel_requested request_cancel_failed :
      State

pub data Event : Type 0 where
  schedule command_request_cancel_external_workflow_execution
        request_cancel_external_workflow_execution_initiated
        external_workflow_execution_cancel_requested :
      Event
  request_cancel_external_workflow_execution_failed :
      CancelExternalWorkflowExecutionFailedCause → Event

pub data CancelExternalCommand : Type 0 where
  requested : CancelExternalCommand
  failed : CancelExternalWorkflowExecutionFailedCause → CancelExternalCommand

pub record SharedState : Type 0 where
  pub seq : ℕ

abbrev pub Arm : Type 0
Arm = Option (SharedState × TransitionResult CancelExternalCommand State WfMachinesError)

-- The table of `fsm!`.
unfoldable pub transition : State → SharedState → Event → Arm
transition created dat schedule = some (dat, default request_cancel_external_command_created)
transition request_cancel_external_command_created dat
      command_request_cancel_external_workflow_execution =
    some (dat, default request_cancel_external_command_created)
transition request_cancel_external_command_created dat
      request_cancel_external_workflow_execution_initiated =
    some (dat, default request_cancel_external_command_recorded)
transition request_cancel_external_command_recorded dat
      external_workflow_execution_cancel_requested =
    some (dat, commands (requested ∷ []) cancel_requested)
transition request_cancel_external_command_recorded dat
      (request_cancel_external_workflow_execution_failed cause) =
    some (dat, commands (failed cause ∷ []) request_cancel_failed)
transition _ dat _ = none

-- The two states that no transition leaves.
unfoldable pub is_final : State → Bool
is_final cancel_requested = true
is_final request_cancel_failed = true
is_final _ = false

abbrev pub CancelExternalFsm : StateMachine
CancelExternalFsm = record {
  State = State;
  SharedState = SharedState;
  Event = Event;
  Command = CancelExternalCommand;
  Error = WfMachinesError;
  transition = transition;
  is_final = is_final;
}

abbrev pub CancelExternalMachine : Type 0
CancelExternalMachine = Machine CancelExternalFsm

failed_event : Option Attributes → Outcome WfMachinesError Event
failed_event (some (Attributes.request_cancel_external_workflow_execution_failed cause)) =
    ok (request_cancel_external_workflow_execution_failed cause)
failed_event _ = err fatal

event_of_type : EventType → HistEventData → Outcome WfMachinesError Event
event_of_type EventType.external_workflow_execution_cancel_requested d =
    ok external_workflow_execution_cancel_requested
event_of_type EventType.request_cancel_external_workflow_execution_initiated d =
    ok request_cancel_external_workflow_execution_initiated
event_of_type EventType.request_cancel_external_workflow_execution_failed d =
    failed_event d.event.attributes
event_of_type _ d = err nondeterminism

-- `TryFrom<HistEventData> for CancelExternalMachineEvents`.
unfoldable pub event_of_history : HistEventData → Outcome WfMachinesError Event
unfolding event_of_type failed_event
event_of_history d = event_of_type d.event.event_type d

-- `TryFrom<CommandType> for CancelExternalMachineEvents`.
unfoldable pub event_of_command : CommandType → Option Event
event_of_command CommandType.request_cancel_external_workflow_execution =
    some command_request_cancel_external_workflow_execution
event_of_command _ = none

-- `reason` of the message, and the derived `to_string`.
failed_reason : CancelExternalWorkflowExecutionFailedCause → Text
failed_reason CancelExternalWorkflowExecutionFailedCause.unspecified = codes "unknown"
failed_reason CancelExternalWorkflowExecutionFailedCause.external_workflow_execution_not_found =
    codes "not found"
failed_reason CancelExternalWorkflowExecutionFailedCause.namespace_not_found = codes "not found"

cause_name : CancelExternalWorkflowExecutionFailedCause → Text
cause_name CancelExternalWorkflowExecutionFailedCause.unspecified = codes "Unspecified"
cause_name CancelExternalWorkflowExecutionFailedCause.external_workflow_execution_not_found =
    codes "ExternalWorkflowExecutionNotFound"
cause_name CancelExternalWorkflowExecutionFailedCause.namespace_not_found =
    codes "NamespaceNotFound"

resolve : SharedState → Option Failure → MachineResponse
resolve dat f = push_wf_job (Job.resolve_request_cancel_external_workflow dat.seq f)

unfoldable pub adapt_response :
    CancelExternalMachine → CancelExternalCommand → Option EventInfo → Responses
unfolding resolve failed_reason cause_name
adapt_response m requested info = ok (resolve m.shared_state none ∷ [])
adapt_response m (failed cause) info = ok (
    resolve m.shared_state (
      some (
        failure (codes "Unable to cancel external workflow because " ++ failed_reason cause)
          no_cause (some (application_failure_info (cause_name cause)))))
    ∷ [])

abbrev pub cancel_external : WfMachine
cancel_external = record {
  fsm = CancelExternalFsm;
  into_error = λ e. e;
  event_of_history = event_of_history;
  event_of_command = event_of_command;
  adapt_response = adapt_response;
}

-- `new_external_cancel`, for the workflow of the given namespace, id and run; `none` is the panic of
-- `expect`.
unfoldable pub new_external_cancel :
    ℕ
    → (namespace workflow_id run_id : Text) → Bool
    → Text
    → Option (CancelExternalMachine × CommandAttributes)
new_external_cancel seq namespace workflow_id run_id only_child reason =
    let (s, r) =
      on_event CancelExternalFsm (from_parts CancelExternalFsm created (record { seq = seq }))
        schedule in
    elim r [
      | ok _ ↦ some (
        s,
        CommandAttributes.request_cancel_external_workflow_execution (record {
          namespace = namespace;
          workflow_id = workflow_id;
          run_id = run_id;
          child_workflow_only = only_child;
          reason = reason;
        }),
      )
      | err _ ↦ none
      | panicked ↦ none
    ]
