-- ===== src/Machines/Endings/ContinueAsNew.antt =====
-- core/src/worker/workflow/machines/continue_as_new_workflow_state_machine.rs: the machine that continues a
-- workflow as a new run.
use sdk_core.Prelude.{Bool, true, false, Option, none, some, [], Text, Outcome, ok, err, panicked}
use sdk_core.Fsm.{StateMachine, Machine, TransitionResult, default, from_parts, on_event}
use sdk_core.Proto.{CommandType, CommandAttributes, EventType, HistEventData, EventInfo}
use sdk_core.Machines.{WfMachinesError, nondeterminism, Responses, WfMachine}

pub data State : Type 0 where
  created continue_as_new_workflow_command_created continue_as_new_workflow_command_recorded : State

-- It has no variant.
pub data ContinueAsNewWorkflowCommand : Type 0 where

pub data Event : Type 0 where
  schedule command_continue_as_new_workflow_execution workflow_execution_continued_as_new : Event

-- The table of `fsm!`.
table : State → Event → Option (TransitionResult ContinueAsNewWorkflowCommand State WfMachinesError)
table created schedule = some (default continue_as_new_workflow_command_created)
table continue_as_new_workflow_command_created command_continue_as_new_workflow_execution =
    some (default continue_as_new_workflow_command_created)
table continue_as_new_workflow_command_created workflow_execution_continued_as_new =
    some (default continue_as_new_workflow_command_recorded)
table _ _ = none

unfoldable pub transition :
    State
    → Unit {0}
    → Event
    → Option (Unit {0} × TransitionResult ContinueAsNewWorkflowCommand State WfMachinesError)
unfolding table
transition s dat e = elim (table s e) [ none ↦ none | some r ↦ some (dat, r) ]

unfoldable pub is_final : State → Bool
is_final continue_as_new_workflow_command_recorded = true
is_final _ = false

abbrev pub ContinueAsNewWorkflowFsm : StateMachine
ContinueAsNewWorkflowFsm = record {
  State = State;
  SharedState = Unit {0};
  Event = Event;
  Command = ContinueAsNewWorkflowCommand;
  Error = WfMachinesError;
  transition = transition;
  is_final = is_final;
}

abbrev pub ContinueAsNewWorkflowMachine : Type 0
ContinueAsNewWorkflowMachine = Machine ContinueAsNewWorkflowFsm

-- `TryFrom<HistEventData>`.
event_of_type : EventType → Outcome WfMachinesError Event
event_of_type EventType.workflow_execution_continued_as_new = ok workflow_execution_continued_as_new
event_of_type _ = err nondeterminism

unfoldable pub event_of_history : HistEventData → Outcome WfMachinesError Event
unfolding event_of_type
event_of_history d = event_of_type d.event.event_type

-- `TryFrom<CommandType>`.
unfoldable pub event_of_command : CommandType → Option Event
event_of_command CommandType.continue_as_new_workflow_execution =
    some command_continue_as_new_workflow_execution
event_of_command _ = none

unfoldable pub adapt_response :
    ContinueAsNewWorkflowMachine → ContinueAsNewWorkflowCommand → Option EventInfo → Responses
adapt_response m c info = ok []

abbrev pub continue_as_new_machine : WfMachine
continue_as_new_machine = record {
  fsm = ContinueAsNewWorkflowFsm;
  into_error = λ e. e;
  event_of_history = event_of_history;
  event_of_command = event_of_command;
  adapt_response = adapt_response;
}

-- `continue_as_new`: the command for the server and the machine; `none` is the panic of `expect`.
unfoldable pub continue_as_new :
    (workflow_type : Text)
    → (use_compatible_version : Bool) → Option (CommandAttributes × ContinueAsNewWorkflowMachine)
continue_as_new workflow_type use_compatible_version =
    let (m, r) =
      on_event ContinueAsNewWorkflowFsm (from_parts ContinueAsNewWorkflowFsm created tt) schedule in
    elim r [
      | ok _ ↦ some (
        CommandAttributes.continue_as_new_workflow_execution (some workflow_type)
            use_compatible_version,
        m,
      )
      | err _ ↦ none
      | panicked ↦ none
    ]
