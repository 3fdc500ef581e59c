-- ===== src/Machines/Endings/Fail.antt =====
-- core/src/worker/workflow/machines/fail_workflow_state_machine.rs: the machine that fails a workflow.
use sdk_core.Prelude.{Bool, true, false, Option, none, some, List, [], ◌∷◌, Outcome, ok, err}
use sdk_core.Fsm.{StateMachine, Machine, TransitionResult, default, commands, from_parts, on_event}
use sdk_core.Proto.{Failure, CommandType, CommandAttributes, EventType, HistEventData, EventInfo}
use sdk_core.Machines.{WfMachinesError, nondeterminism, Responses, WfMachine}

pub data State : Type 0 where
  created : (attribs : CommandAttributes) → State
  fail_workflow_command_created fail_workflow_command_recorded : State

pub data FailWfCommand : Type 0 where
  add_command : CommandAttributes → FailWfCommand

pub data Event : Type 0 where
  schedule command_fail_workflow_execution workflow_execution_failed : Event

-- The table of `fsm!`. The attributes of a created machine are held converted.
table : State → Event → Option (TransitionResult FailWfCommand State WfMachinesError)
table (created attribs) schedule =
    some (commands (add_command attribs ∷ []) fail_workflow_command_created)
table fail_workflow_command_created command_fail_workflow_execution =
    some (default fail_workflow_command_created)
table fail_workflow_command_created workflow_execution_failed =
    some (default fail_workflow_command_recorded)
table _ _ = none

unfoldable pub transition :
    State
    → Unit {0}
    → Event
    → Option (Unit {0} × TransitionResult FailWfCommand State WfMachinesError)
unfolding table
transition s dat e = elim (table s e) [ none ↦ none | some r ↦ some (dat, r) ]

unfoldable pub is_final : State → Bool
is_final fail_workflow_command_recorded = true
is_final _ = false

abbrev pub FailWorkflowFsm : StateMachine
FailWorkflowFsm = record {
  State = State;
  SharedState = Unit {0};
  Event = Event;
  Command = FailWfCommand;
  Error = WfMachinesError;
  transition = transition;
  is_final = is_final;
}

abbrev pub FailWorkflowMachine : Type 0
FailWorkflowMachine = Machine FailWorkflowFsm

-- `TryFrom<HistEventData>`.
event_of_type : EventType → Outcome WfMachinesError Event
event_of_type EventType.workflow_execution_failed = ok workflow_execution_failed
event_of_type _ = err nondeterminism

unfoldable pub event_of_history : HistEventData → Outcome WfMachinesError Event
unfolding event_of_type
event_of_history d = event_of_type d.event.event_type

-- `TryFrom<CommandType>`.
unfoldable pub event_of_command : CommandType → Option Event
event_of_command CommandType.fail_workflow_execution = some command_fail_workflow_execution
event_of_command _ = none

unfoldable pub adapt_response : FailWorkflowMachine → FailWfCommand → Option EventInfo → Responses
adapt_response m c info = ok []

abbrev pub fail_workflow_machine : WfMachine
fail_workflow_machine = record {
  fsm = FailWorkflowFsm;
  into_error = λ e. e;
  event_of_history = event_of_history;
  event_of_command = event_of_command;
  adapt_response = adapt_response;
}

-- The last command of the event, which must be the one to add; `none` is the panic otherwise.
added :
    FailWorkflowMachine × Outcome (sdk_core.Fsm.MachineError WfMachinesError) (List FailWfCommand)
    → Option (CommandAttributes × FailWorkflowMachine)
added (m, ok (add_command c ∷ [])) = some (c, m)
added (m, ok (_ ∷ c ∷ cs)) = added (m, ok (c ∷ cs))
added _ = none

-- `fail_workflow`: the command for the server and the machine. The argument is the one field of the source's.
unfoldable pub fail_workflow : Option Failure → Option (CommandAttributes × FailWorkflowMachine)
unfolding added
fail_workflow attribs = added (
    on_event FailWorkflowFsm
      (from_parts FailWorkflowFsm (created (CommandAttributes.fail_workflow_execution attribs)) tt)
      schedule)
