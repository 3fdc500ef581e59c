-- ===== src/Machines/SignalExternal.antt =====
-- core/src/worker/workflow/machines/signal_external_state_machine.rs: signalling another workflow.
pub mod Answers
pub mod Creation
use sdk_core.Prelude.{
  ℕ, Bool, true, false, Option, none, some, List, [], ◌∷◌, ◌++◌, Text, codes, Outcome, ok, err,
  panicked, ◌>>=◌,
}
use sdk_core.Fsm.{
  StateMachine, Machine, MachineError, TransitionResult, default, commands, from_parts, on_event,
}
use sdk_core.Proto.{
  Payload, Payloads, Failure, failure, no_cause, FailureInfo, application_failure_info,
  canceled_failure_info, CommandType, CommandAttributes, EventType, HistEventData, Attributes,
  EventInfo, SignalExternalWorkflowExecutionFailedCause, Job,
}
use sdk_core.Machines.{
  WfMachinesError, nondeterminism, fatal, MachineResponse, push_wf_job, Responses, WfMachine,
}

pub data State : Type 0 where
  created signal_external_command_created signal_external_command_recorded cancelled signaled
        failed :
      State

pub data Event : Type 0 where
  schedule command_signal_external_workflow_execution cancel
        signal_external_workflow_execution_initiated external_workflow_execution_signaled :
      Event
  signal_external_workflow_execution_failed : SignalExternalWorkflowExecutionFailedCause → Event

pub data SignalExternalCommand : Type 0 where
  signaled_command cancelled_command : SignalExternalCommand
  failed_command : SignalExternalWorkflowExecutionFailedCause → SignalExternalCommand

pub record SharedState : Type 0 where
  pub seq : ℕ

abbrev pub Arm : Type 0
Arm = Option (SharedState × TransitionResult SignalExternalCommand State WfMachinesError)

-- The table of `fsm!`.
unfoldable pub transition : State → SharedState → Event → Arm
transition created dat schedule = some (dat, default signal_external_command_created)
transition signal_external_command_created dat command_signal_external_workflow_execution =
    some (dat, default signal_external_command_created)
transition signal_external_command_created dat cancel =
    some (dat, commands (cancelled_command ∷ []) cancelled)
transition signal_external_command_created dat signal_external_workflow_execution_initiated =
    some (dat, default signal_external_command_recorded)
transition signal_external_command_recorded dat cancel =
    some (dat, default signal_external_command_recorded)
transition signal_external_command_recorded dat external_workflow_execution_signaled =
    some (dat, commands (signaled_command ∷ []) signaled)
transition signal_external_command_recorded dat (signal_external_workflow_execution_failed cause) =
    some (dat, commands (failed_command cause ∷ []) failed)
transition cancelled dat cancel = some (dat, default cancelled)
transition signaled dat cancel = some (dat, default signaled)
transition _ dat _ = none

-- The only state that no transition leaves.
unfoldable pub is_final : State → Bool
is_final failed = true
is_final _ = false

abbrev pub SignalExternalFsm : StateMachine
SignalExternalFsm = record {
  State = State;
  SharedState = SharedState;
  Event = Event;
  Command = SignalExternalCommand;
  Error = WfMachinesError;
  transition = transition;
  is_final = is_final;
}

abbrev pub SignalExternalMachine : Type 0
SignalExternalMachine = Machine SignalExternalFsm

failed_event : Option Attributes → Outcome WfMachinesError Event
failed_event (some (Attributes.signal_external_workflow_execution_failed cause)) =
    ok (signal_external_workflow_execution_failed cause)
failed_event _ = err fatal

event_of_type : EventType → HistEventData → Outcome WfMachinesError Event
event_of_type EventType.external_workflow_execution_signaled d =
    ok external_workflow_execution_signaled
event_of_type EventType.signal_external_workflow_execution_initiated d =
    ok signal_external_workflow_execution_initiated
event_of_type EventType.signal_external_workflow_execution_failed d =
    failed_event d.event.attributes
event_of_type _ d = err nondeterminism

-- `TryFrom<HistEventData> for SignalExternalMachineEvents`.
unfoldable pub event_of_history : HistEventData → Outcome WfMachinesError Event
unfolding event_of_type failed_event
event_of_history d = event_of_type d.event.event_type d

-- `TryFrom<CommandType> for SignalExternalMachineEvents`.
unfoldable pub event_of_command : CommandType → Option Event
event_of_command CommandType.signal_external_workflow_execution =
    some command_signal_external_workflow_execution
event_of_command _ = none

-- `reason` of the message, and the derived `to_string`.
failed_reason : SignalExternalWorkflowExecutionFailedCause → Text
failed_reason SignalExternalWorkflowExecutionFailedCause.unspecified = codes "unknown"
failed_reason SignalExternalWorkflowExecutionFailedCause.external_workflow_execution_not_found =
    codes "it was not found"
failed_reason SignalExternalWorkflowExecutionFailedCause.namespace_not_found =
    codes "it was not found"
failed_reason SignalExternalWorkflowExecutionFailedCause.signal_count_limit_exceeded =
    codes "The per-workflow signal limit was exceeded"

cause_name : SignalExternalWorkflowExecutionFailedCause → Text
cause_name SignalExternalWorkflowExecutionFailedCause.unspecified = codes "Unspecified"
cause_name SignalExternalWorkflowExecutionFailedCause.external_workflow_execution_not_found =
    codes "ExternalWorkflowExecutionNotFound"
cause_name SignalExternalWorkflowExecutionFailedCause.namespace_not_found =
    codes "NamespaceNotFound"
cause_name SignalExternalWorkflowExecutionFailedCause.signal_count_limit_exceeded =
    codes "SignalCountLimitExceeded"

resolve : SharedState → Option Failure → MachineResponse
resolve dat f = push_wf_job (Job.resolve_signal_external_workflow dat.seq f)

unfoldable pub adapt_response :
    SignalExternalMachine → SignalExternalCommand → Option EventInfo → Responses
unfolding resolve failed_reason cause_name
adapt_response m signaled_command info = ok (resolve m.shared_state none ∷ [])
adapt_response m (failed_command cause) info = ok (
    resolve m.shared_state (
      some (
        failure (codes "Unable to signal external workflow because " ++ failed_reason cause)
          no_cause (some (application_failure_info (cause_name cause)))))
    ∷ [])
adapt_response m cancelled_command info = panicked

abbrev pub signal_external : WfMachine
signal_external = record {
  fsm = SignalExternalFsm;
  into_error = λ e. e;
  event_of_history = event_of_history;
  event_of_command = event_of_command;
  adapt_response = adapt_response;
}

-- The `match` of `cancel` on the first command. `panicked` is the `panic!` of its second arm.
cancel_responses :
    SharedState
    → List SignalExternalCommand
    → Outcome (MachineError WfMachinesError) (List MachineResponse)
unfolding resolve
cancel_responses dat [] = ok []
cancel_responses dat (cancelled_command ∷ _) = ok (
    resolve dat (
      some (
        failure (codes "Signal was cancelled before being sent") no_cause
          (some (canceled_failure_info none))))
    ∷ [])
cancel_responses dat (signaled_command ∷ _) = panicked
cancel_responses dat (failed_command _ ∷ _) = panicked

-- `SignalExternalMachine::cancel`.
unfoldable pub cancel_signal :
    SignalExternalMachine
    → SignalExternalMachine × Outcome (MachineError WfMachinesError) (List MachineResponse)
unfolding cancel_responses
cancel_signal m =
    let (m', r) = on_event SignalExternalFsm m cancel in
    (m', r >>= cancel_responses m'.shared_state)

-- It reads the state, which unwinds where there is none.
unfoldable pub was_cancelled_before_sent_to_server : SignalExternalMachine → Outcome ⊥ Bool
was_cancelled_before_sent_to_server m = elim m.state [
  | some cancelled ↦ ok true
  | some _ ↦ ok false
  | none ↦ panicked
]
