-- ===== src/Machines/ChildWorkflow.antt =====
-- child_workflow_state_machine.rs: the machine around the handlers: its responses, and
-- how lang creates and cancels it.
mod Events
mod Handlers
pub mod Answers
pub mod Cancel
unfoldable pub use Events.*
unfoldable pub use Handlers.*
use sdk_core.Prelude.{
  ℕ, Bool, true, false, Option, none, some, List, [], ◌∷◌, ◌++◌, Text, codes, Outcome, ok, err,
  panicked, ◌>>=◌, map_err,
}
use sdk_core.Fsm.{StateMachine, Machine, MachineError, underlying, from_parts, on_event}
use sdk_core.Flags.{InternalFlags}
use sdk_core.Proto.{
  Payload, Payloads, one_payload, failure, no_cause, caused_by, canceled_failure_info, RetryState,
  CommandType, CommandAttributes, EventType, HistEventData, HistoryEvent, Attributes, EventInfo,
  ChildWorkflowCancellationType, StartChildWorkflowExecution, start_child_workflow_cmd_to_api,
  start_child_failed_cause, StartChildWorkflowExecutionFailedCause, ChildStartStatus,
  ChildWorkflowStatus, Job,
}
use sdk_core.Machines.{
  WfMachinesError, nondeterminism, fatal, MachineResponse, push_wf_job, new_core_originated_command,
  Responses, WfMachine,
}

abbrev pub ChildWorkflowFsm : StateMachine
ChildWorkflowFsm = record {
  State = State;
  SharedState = SharedState;
  Event = Event;
  Command = ChildWorkflowCommand;
  Error = WfMachinesError;
  transition = transition;
  is_final = is_final;
}

abbrev pub ChildWorkflowMachine : Type 0
ChildWorkflowMachine = Machine ChildWorkflowFsm

-- `MachineResponse::from` of the two jobs of a child workflow.
start_job : SharedState → ChildStartStatus → MachineResponse
start_job dat status =
    push_wf_job (Job.resolve_child_workflow_execution_start dat.lang_sequence_number status)

end_job : SharedState → ChildWorkflowStatus → MachineResponse
end_job dat status =
    push_wf_job (Job.resolve_child_workflow_execution dat.lang_sequence_number status)

unfoldable pub resolve_cancelled_msg : SharedState → MachineResponse
unfolding end_job failure_info_from_state
resolve_cancelled_msg dat = end_job dat (
    ChildWorkflowStatus.cancelled (
      some (
        failure (codes "Child Workflow execution cancelled")
          (caused_by (failure [] no_cause (some (canceled_failure_info none))))
          (failure_info_from_state dat RetryState.non_retryable_failure))))

cancel_request : SharedState → Text → MachineResponse
cancel_request dat reason = new_core_originated_command (
    CommandAttributes.request_cancel_external_workflow_execution (record {
      namespace = dat.namespace;
      workflow_id = dat.workflow_id;
      run_id = dat.run_id;
      child_workflow_only = true;
      reason = reason;
    }))

-- The arm of `IssueCancelAfterStarted`: a command except if the child is abandoned, and the
-- resolution if lang is not to wait.
cancel_after_started : SharedState → Text → List MachineResponse
unfolding cancel_request resolve_cancelled_msg
cancel_after_started dat reason = elim dat.cancel_type [
  | ChildWorkflowCancellationType.abandon ↦ resolve_cancelled_msg dat ∷ []
  | ChildWorkflowCancellationType.try_cancel ↦
      cancel_request dat reason ∷ resolve_cancelled_msg dat ∷ []
  | _ ↦ cancel_request dat reason ∷ []
]

-- `convert_payloads`.
convert_payloads : Option Payloads → Outcome WfMachinesError (Option Payload)
convert_payloads result = map_err (λ _. fatal) (one_payload result)

unfoldable pub adapt_response :
    ChildWorkflowMachine → ChildWorkflowCommand → Option EventInfo → Responses
unfolding start_job end_job resolve_cancelled_msg cancel_after_started convert_payloads
adapt_response m (start we) info =
    ok (start_job m.shared_state (ChildStartStatus.succeeded we.run_id) ∷ [])
adapt_response m (start_fail cause) info = ok (
    start_job m.shared_state
      (ChildStartStatus.failed m.shared_state.workflow_id m.shared_state.workflow_type cause)
    ∷ [])
adapt_response m (start_cancel f) info =
    ok (start_job m.shared_state (ChildStartStatus.cancelled (some f)) ∷ [])
adapt_response m (complete result) info = do
  payload ← convert_payloads result
  ok (end_job m.shared_state (ChildWorkflowStatus.completed payload) ∷ [])
adapt_response m (fail f) info =
    ok (end_job m.shared_state (ChildWorkflowStatus.failed (some f)) ∷ [])
adapt_response m cancel_command info = ok (resolve_cancelled_msg m.shared_state ∷ [])
adapt_response m (issue_cancel_after_started reason) info =
    ok (cancel_after_started m.shared_state reason)

abbrev pub child_workflow : WfMachine
child_workflow = record {
  fsm = ChildWorkflowFsm;
  into_error = λ e. e;
  event_of_history = event_of_history;
  event_of_command = event_of_command;
  adapt_response = adapt_response;
}

abbrev pub initial_state : StartChildWorkflowExecution → InternalFlags → SharedState
initial_state attribs flags = record {
  initiated_event_id = 0;
  started_event_id = 0;
  lang_sequence_number = attribs.seq;
  namespace = attribs.namespace;
  workflow_id = attribs.workflow_id;
  run_id = [];
  workflow_type = attribs.workflow_type;
  cancelled_before_sent = false;
  cancel_type = attribs.cancellation_type;
  internal_flags = flags;
}

-- `ChildWorkflowMachine::new_scheduled`; `none` is the panic of `expect`.
unfoldable pub new_scheduled :
    StartChildWorkflowExecution
    → InternalFlags
    → Bool
    → Option (ChildWorkflowMachine × CommandAttributes)
new_scheduled attribs flags use_compatible_version =
    let (s, r) =
      on_event ChildWorkflowFsm (from_parts ChildWorkflowFsm created (initial_state attribs flags))
        schedule in
    elim r [
      | ok _ ↦ some (s, start_child_workflow_cmd_to_api attribs use_compatible_version)
      | err _ ↦ none
      | panicked ↦ none
    ]

-- The `map` of `cancel` over one command. `panicked` is the `panic!` of its last arm.
cancel_response :
    ChildWorkflowMachine
    → ChildWorkflowCommand
    → Outcome (MachineError WfMachinesError) (List MachineResponse)
unfolding adapt_response
cancel_response m (start_cancel f) = map_err underlying (adapt_response m (start_cancel f) none)
cancel_response m (issue_cancel_after_started reason) =
    map_err underlying (adapt_response m (issue_cancel_after_started reason) none)
cancel_response m _ = panicked

cancel_responses :
    ChildWorkflowMachine
    → List ChildWorkflowCommand
    → Outcome (MachineError WfMachinesError) (List MachineResponse)
unfolding cancel_response
cancel_responses m [] = ok []
cancel_responses m (c ∷ cs) = do
  first ← cancel_response m c
  rest ← cancel_responses m cs
  ok (first ++ rest)

-- `ChildWorkflowMachine::cancel`.
unfoldable pub cancel_child :
    Text
    → ChildWorkflowMachine
    → ChildWorkflowMachine × Outcome (MachineError WfMachinesError) (List MachineResponse)
unfolding cancel_responses
cancel_child reason m =
    let (m', r) = on_event ChildWorkflowFsm m (cancel reason) in (m', r >>= cancel_responses m')

unfoldable pub was_cancelled_before_sent_to_server : ChildWorkflowMachine → Bool
was_cancelled_before_sent_to_server m = m.shared_state.cancelled_before_sent
