-- ===== src/Machines/ModifyProperties.antt =====
-- core/src/worker/workflow/machines/modify_workflow_properties_state_machine.rs: the machine that changes
-- the memo of a workflow.
use sdk_core.Prelude.{Bool, true, false, Option, none, some, List, Text, Outcome, ok, err}
use sdk_core.Fsm.{StateMachine, Machine, TransitionResult, default, from_parts}
use sdk_core.Proto.{Payload, CommandType, CommandAttributes, EventType, HistEventData, EventInfo}
use sdk_core.Machines.{WfMachinesError, nondeterminism, Responses, WfMachine}

pub data State : Type 0 where
  created command_issued done : State

-- It has no variant.
pub data ModifyWorkflowPropertiesMachineCommand : Type 0 where

pub data Event : Type 0 where
  command_scheduled command_recorded : Event

-- The table of `fsm!`.
table :
    State
    → Event
    → Option (TransitionResult ModifyWorkflowPropertiesMachineCommand State WfMachinesError)
table created command_scheduled = some (default command_issued)
table command_issued command_recorded = some (default done)
table _ _ = none

unfoldable pub transition :
    State
    → Unit {0}
    → Event
    → Option
        (Unit {0} × TransitionResult ModifyWorkflowPropertiesMachineCommand State WfMachinesError)
unfolding table
transition s dat e = elim (table s e) [ none ↦ none | some r ↦ some (dat, r) ]

unfoldable pub is_final : State → Bool
is_final done = true
is_final _ = false

abbrev pub ModifyWorkflowPropertiesFsm : StateMachine
ModifyWorkflowPropertiesFsm = record {
  State = State;
  SharedState = Unit {0};
  Event = Event;
  Command = ModifyWorkflowPropertiesMachineCommand;
  Error = WfMachinesError;
  transition = transition;
  is_final = is_final;
}

abbrev pub ModifyWorkflowPropertiesMachine : Type 0
ModifyWorkflowPropertiesMachine = Machine ModifyWorkflowPropertiesFsm

-- `TryFrom<HistEventData>`.
event_of_type : EventType → Outcome WfMachinesError Event
event_of_type EventType.workflow_properties_modified = ok command_recorded
event_of_type _ = err nondeterminism

unfoldable pub event_of_history : HistEventData → Outcome WfMachinesError Event
unfolding event_of_type
event_of_history d = event_of_type d.event.event_type

-- `TryFrom<CommandType>`.
unfoldable pub event_of_command : CommandType → Option Event
event_of_command CommandType.modify_workflow_properties = some command_scheduled
event_of_command _ = none

unfoldable pub adapt_response :
    ModifyWorkflowPropertiesMachine
    → ModifyWorkflowPropertiesMachineCommand
    → Option EventInfo
    → Responses
adapt_response m c info = err nondeterminism

abbrev pub modify_workflow_properties_machine : WfMachine
modify_workflow_properties_machine = record {
  fsm = ModifyWorkflowPropertiesFsm;
  into_error = λ e. e;
  event_of_history = event_of_history;
  event_of_command = event_of_command;
  adapt_response = adapt_response;
}

-- `modify_workflow_properties`: the command for the server and the machine.
unfoldable pub modify_workflow_properties :
    (upserted_memo : Option (List (Text × Payload)))
    → CommandAttributes × ModifyWorkflowPropertiesMachine
modify_workflow_properties upserted_memo = (
  CommandAttributes.modify_workflow_properties upserted_memo,
  from_parts ModifyWorkflowPropertiesFsm created tt,
)
