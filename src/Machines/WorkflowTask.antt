-- ===== src/Machines/WorkflowTask.antt =====
-- core/src/worker/workflow/machines/workflow_task_state_machine.rs: the machine that follows one
-- workflow task through the history and triggers the workflow. Every timestamp of the history is
-- taken to be one that `SystemTime` can hold.
pub mod Triggers
use sdk_core.Prelude.{
  ℕ, Bool, true, false, not, ◌&&◌, ltb, Option, none, some, List, [], ◌∷◌, if◌then◌else◌, Text,
  Outcome, ok, err,
}
use sdk_core.Fsm.{StateMachine, Machine, TransitionResult, default, commands, from_parts}
use sdk_core.Proto.{
  CommandType, EventType, HistEventData, HistoryEvent, Attributes,
  WorkflowTaskFailedEventAttributes, EventInfo,
}
use sdk_core.Machines.{
  WfMachinesError, nondeterminism, fatal, MachineResponse, trigger_wf_task_started,
  update_run_id_on_workflow_reset, Responses, WfMachine,
}

pub data State : Type 0 where
  created scheduled timed_out completed failed : State
  started : (current_time started_event_id : ℕ) → State

pub record WftStartedDat : Type 0 where
  pub current_time : ℕ
  pub started_event_id : ℕ

pub data Event : Type 0 where
  workflow_task_scheduled workflow_task_timed_out workflow_task_completed : Event
  workflow_task_started : WftStartedDat → Event
  workflow_task_failed : (new_run_id : Option Text) → Event

pub data WfTaskMachineCommand : Type 0 where
  wf_task_started_trigger : (task_started_event_id time : ℕ) → WfTaskMachineCommand
  run_id_on_workflow_reset_update : (run_id : Text) → WfTaskMachineCommand

pub record SharedState : Type 0 where
  pub wf_task_started_event_id : ℕ

abbrev pub Transition : Type 0
Transition = TransitionResult WfTaskMachineCommand State WfMachinesError

on_workflow_task_started : SharedState → WftStartedDat → Transition
on_workflow_task_started dat d =
    TransitionResult.ok (wf_task_started_trigger dat.wf_task_started_event_id d.current_time ∷ [])
      (started d.current_time d.started_event_id)

on_workflow_task_completed : ℕ → ℕ → Transition
on_workflow_task_completed time id = commands (wf_task_started_trigger id time ∷ []) completed

on_workflow_task_failed : Option Text → Transition
on_workflow_task_failed (some run_id) =
    TransitionResult.ok (run_id_on_workflow_reset_update run_id ∷ []) failed
on_workflow_task_failed none = TransitionResult.ok [] failed

-- The table of `fsm!`.
unfoldable pub transition : State → SharedState → Event → Option (SharedState × Transition)
unfolding on_workflow_task_started on_workflow_task_completed on_workflow_task_failed
transition created dat workflow_task_scheduled = some (dat, default scheduled)
transition scheduled dat (workflow_task_started d) = some (dat, on_workflow_task_started dat d)
transition scheduled dat workflow_task_timed_out = some (dat, default timed_out)
transition (started time id) dat workflow_task_completed =
    some (dat, on_workflow_task_completed time id)
transition (started time id) dat (workflow_task_failed r) = some (dat, on_workflow_task_failed r)
transition (started time id) dat workflow_task_timed_out = some (dat, default timed_out)
transition _ dat _ = none

-- The states that no transition leaves.
unfoldable pub is_final : State → Bool
is_final timed_out = true
is_final completed = true
is_final failed = true
is_final _ = false

abbrev pub WorkflowTaskFsm : StateMachine
WorkflowTaskFsm = record {
  State = State;
  SharedState = SharedState;
  Event = Event;
  Command = WfTaskMachineCommand;
  Error = WfMachinesError;
  transition = transition;
  is_final = is_final;
}

abbrev pub WorkflowTaskMachine : Type 0
WorkflowTaskMachine = Machine WorkflowTaskFsm

-- `WorkflowTaskMachine::new`.
abbrev pub new : ℕ → WorkflowTaskMachine
new id = from_parts WorkflowTaskFsm created (record { wf_task_started_event_id = id })

started_event : HistoryEvent → Option ℕ → Outcome WfMachinesError Event
started_event e (some time) =
    ok (workflow_task_started (record { current_time = time; started_event_id = e.event_id }))
started_event e none = err fatal

-- The new run, where the task failed to reset the workflow.
reset_run_id : WorkflowTaskFailedEventAttributes → Option Text
reset_run_id a = if a.reset_workflow then some a.new_run_id else none

failed_event : Option Attributes → Outcome WfMachinesError Event
unfolding reset_run_id
failed_event none = err fatal
failed_event (some (Attributes.workflow_task_failed a)) = ok (workflow_task_failed (reset_run_id a))
failed_event (some _) = ok (workflow_task_failed none)

event_of_type : EventType → HistoryEvent → Outcome WfMachinesError Event
event_of_type EventType.workflow_task_scheduled e = ok workflow_task_scheduled
event_of_type EventType.workflow_task_started e = started_event e e.event_time
event_of_type EventType.workflow_task_timed_out e = ok workflow_task_timed_out
event_of_type EventType.workflow_task_completed e = ok workflow_task_completed
event_of_type EventType.workflow_task_failed e = failed_event e.attributes
event_of_type _ e = err nondeterminism

-- `TryFrom<HistEventData> for WorkflowTaskMachineEvents`.
unfoldable pub event_of_history : HistEventData → Outcome WfMachinesError Event
unfolding event_of_type started_event failed_event
event_of_history d = event_of_type d.event.event_type d.event

-- `TryFrom<CommandType> for WorkflowTaskMachineEvents`: no command is the machine's.
unfoldable pub event_of_command : CommandType → Option Event
event_of_command c = none

abbrev is_started_type : EventType → Bool
is_started_type EventType.workflow_task_started = true
is_started_type _ = false

-- The arm of a trigger: a started event before the one that the workflow waits for triggers nothing.
started_trigger : ℕ → ℕ → Option EventInfo → Responses
started_trigger id time none = err fatal
started_trigger id time (some info) =
    if is_started_type info.event_type && ltb info.event_id id
    then ok []
    else ok (trigger_wf_task_started id time ∷ [])

unfoldable pub adapt_response :
    WorkflowTaskMachine → WfTaskMachineCommand → Option EventInfo → Responses
unfolding started_trigger
adapt_response m (wf_task_started_trigger id time) info = started_trigger id time info
adapt_response m (run_id_on_workflow_reset_update run_id) info =
    ok (update_run_id_on_workflow_reset run_id ∷ [])

abbrev pub workflow_task : WfMachine
workflow_task = record {
  fsm = WorkflowTaskFsm;
  into_error = λ e. e;
  event_of_history = event_of_history;
  event_of_command = event_of_command;
  adapt_response = adapt_response;
}
