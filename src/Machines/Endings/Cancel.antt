-- ===== src/Machines/Endings/Cancel.antt =====
-- core/src/worker/workflow/machines/cancel_workflow_state_machine.rs: the machine that cancels a workflow.
use sdk_core.Prelude.{Bool, true, false, Option, none, some, [], Outcome, ok, err, panicked}
use sdk_core.Fsm.{StateMachine, Machine, TransitionResult, default, from_parts, on_event}
use sdk_core.Proto.{CommandType, CommandAttributes, EventType, HistEventData, EventInfo}
use sdk_core.Machines.{WfMachinesError, nondeterminism, Responses, WfMachine}

pub data State : Type 0 where
  created cancel_workflow_command_created cancel_workflow_command_recorded : State

-- It has no variant.
pub data CancelWorkflowCommand : Type 0 where

pub data Event : Type 0 where
  schedule command_cancel_workflow_execution workflow_execution_canceled : Event

-- The table of `fsm!`.
table : State → Event → Option (TransitionResult CancelWorkflowCommand State WfMachinesError)
table created schedule = some (default cancel_workflow_command_created)
table cancel_workflow_command_created command_cancel_workflow_execution =
    some (default cancel_workflow_command_created)
table cancel_workflow_command_created workflow_execution_canceled =
    some (default cancel_workflow_command_recorded)
table _ _ = none

unfoldable pub transition :
    State
    → Unit {0}
    → Event
    → Option (Unit {0} × TransitionResult CancelWorkflowCommand State WfMachinesError)
unfolding table
transition s dat e = elim (table s e) [ none ↦ none | some r ↦ some (dat, r) ]

unfoldable pub is_final : State → Bool
is_final cancel_workflow_command_recorded = true
is_final _ = false

abbrev pub CancelWorkflowFsm : StateMachine
CancelWorkflowFsm = record {
  State = State;
  SharedState = Unit {0};
  Event = Event;
  Command = CancelWorkflowCommand;
  Error = WfMachinesError;
  transition = transition;
  is_final = is_final;
}

abbrev pub CancelWorkflowMachine : Type 0
CancelWorkflowMachine = Machine CancelWorkflowFsm

-- `TryFrom<HistEventData>`.
event_of_type : EventType → Outcome WfMachinesError Event
event_of_type EventType.workflow_execution_canceled = ok workflow_execution_canceled
event_of_type _ = err nondeterminism

unfoldable pub event_of_history : HistEventData → Outcome WfMachinesError Event
unfolding event_of_type
event_of_history d = event_of_type d.event.event_type

-- `TryFrom<CommandType>`.
unfoldable pub event_of_command : CommandType → Option Event
event_of_command CommandType.cancel_workflow_execution = some command_cancel_workflow_execution
event_of_command _ = none

unfoldable pub adapt_response :
    CancelWorkflowMachine → CancelWorkflowCommand → Option EventInfo → Responses
adapt_response m c info = ok []

abbrev pub cancel_workflow_machine : WfMachine
cancel_workflow_machine = record {
  fsm = CancelWorkflowFsm;
  into_error = λ e. e;
  event_of_history = event_of_history;
  event_of_command = event_of_command;
  adapt_response = adapt_response;
}

-- `cancel_workflow`: the command for the server and the machine; `none` is the panic of `expect`.
unfoldable pub cancel_workflow : Option (CommandAttributes × CancelWorkflowMachine)
cancel_workflow =
    let (m, r) = on_event CancelWorkflowFsm (from_parts CancelWorkflowFsm created tt) schedule in
    elim r [
      | ok _ ↦ some (CommandAttributes.cancel_workflow_execution, m)
      | err _ ↦ none
      | panicked ↦ none
    ]
