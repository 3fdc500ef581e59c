-- ===== src/Machines/Endings/Complete.antt =====
-- core/src/worker/workflow/machines/complete_workflow_state_machine.rs: the machine that completes a workflow.
use sdk_core.Prelude.{Bool, true, false, Option, none, some, List, [], ◌∷◌, Outcome, ok, err}
use sdk_core.Fsm.{StateMachine, Machine, TransitionResult, default, commands, from_parts, on_event}
use sdk_core.Proto.{Payloads, CommandType, CommandAttributes, EventType, HistEventData, EventInfo}
use sdk_core.Machines.{WfMachinesError, nondeterminism, Responses, WfMachine}

pub data State : Type 0 where
  created : (attribs : CommandAttributes) → State
  complete_workflow_command_created complete_workflow_command_recorded : State

pub data CompleteWfCommand : Type 0 where
  add_command : CommandAttributes → CompleteWfCommand

pub data Event : Type 0 where
  schedule command_complete_workflow_execution workflow_execution_completed : Event

-- The table of `fsm!`. The attributes of a created machine are held converted.
table : State → Event → Option (TransitionResult CompleteWfCommand State WfMachinesError)
table (created attribs) schedule =
    some (commands (add_command attribs ∷ []) complete_workflow_command_created)
table complete_workflow_command_created command_complete_workflow_execution =
    some (default complete_workflow_command_created)
table complete_workflow_command_created workflow_execution_completed =
    some (default complete_workflow_command_recorded)
table _ _ = none

unfoldable pub transition :
    State
    → Unit {0}
    → Event
    → Option (Unit {0} × TransitionResult CompleteWfCommand State WfMachinesError)
unfolding table
transition s dat e = elim (table s e) [ none ↦ none | some r ↦ some (dat, r) ]

unfoldable pub is_final : State → Bool
is_final complete_workflow_command_recorded = true
is_final _ = false

abbrev pub CompleteWorkflowFsm : StateMachine
CompleteWorkflowFsm = record {
  State = State;
  SharedState = Unit {0};
  Event = Event;
  Command = CompleteWfCommand;
  Error = WfMachinesError;
  transition = transition;
  is_final = is_final;
}

abbrev pub CompleteWorkflowMachine : Type 0
CompleteWorkflowMachine = Machine CompleteWorkflowFsm

-- `TryFrom<HistEventData>`.
event_of_type : EventType → Outcome WfMachinesError Event
event_of_type EventType.workflow_execution_completed = ok workflow_execution_completed
event_of_type _ = err nondeterminism

unfoldable pub event_of_history : HistEventData → Outcome WfMachinesError Event
unfolding event_of_type
event_of_history d = event_of_type d.event.event_type

-- `TryFrom<CommandType>`.
unfoldable pub event_of_command : CommandType → Option Event
event_of_command CommandType.complete_workflow_execution = some command_complete_workflow_execution
event_of_command _ = none

unfoldable pub adapt_response :
    CompleteWorkflowMachine → CompleteWfCommand → Option EventInfo → Responses
adapt_response m c info = ok []

abbrev pub complete_workflow_machine : WfMachine
complete_workflow_machine = record {
  fsm = CompleteWorkflowFsm;
  into_error = λ e. e;
  event_of_history = event_of_history;
  event_of_command = event_of_command;
  adapt_response = adapt_response;
}

-- The last command of the event, which must be the one to add; `none` is the panic otherwise.
added :
    CompleteWorkflowMachine
      × Outcome (sdk_core.Fsm.MachineError WfMachinesError) (List CompleteWfCommand)
    → Option (CommandAttributes × CompleteWorkflowMachine)
added (m, ok (add_command c ∷ [])) = some (c, m)
added (m, ok (_ ∷ c ∷ cs)) = added (m, ok (c ∷ cs))
added _ = none

-- `complete_workflow`: the command for the server and the machine. The argument is the one field of the source's.
unfoldable pub complete_workflow :
    Option Payloads → Option (CommandAttributes × CompleteWorkflowMachine)
unfolding added
complete_workflow attribs = added (
    on_event CompleteWorkflowFsm
      (from_parts CompleteWorkflowFsm
        (created (CommandAttributes.complete_workflow_execution attribs)) tt)
      schedule)
