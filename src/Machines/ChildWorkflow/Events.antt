-- ===== src/Machines/ChildWorkflow/Events.antt =====
-- child_workflow_state_machine.rs: what the machine makes of history events and of command types.
use sdk_core.Prelude.{ℕ, Option, none, some, [], Text, Outcome, ok, err}
use sdk_core.Proto.{
  CommandType, EventType, HistEventData, Attributes, start_child_failed_cause,
  StartChildWorkflowExecutionFailedCause,
}
use sdk_core.Machines.{WfMachinesError, nondeterminism, fatal}
use sdk_core.Machines.ChildWorkflow.Handlers.{
  Event, command_start_child_workflow_execution, command_request_cancel_external_workflow_execution,
  child_workflow_execution_cancelled, child_workflow_execution_terminated,
  start_child_workflow_execution_initiated, child_workflow_execution_started,
  start_child_workflow_execution_failed, child_workflow_execution_completed,
  child_workflow_execution_failed, child_workflow_execution_timed_out,
}

name_or_empty : Option Text → Text
name_or_empty none = []
name_or_empty (some n) = n

-- One `match` arm of the conversion each: the attributes must be those of the event's type.
initiated_event : HistEventData → Option Attributes → Outcome WfMachinesError Event
unfolding name_or_empty
initiated_event d (some (Attributes.start_child_workflow_execution_initiated a)) = ok (
    start_child_workflow_execution_initiated (record {
      event_id = d.event.event_id;
      wf_type = name_or_empty a.workflow_type;
      wf_id = a.workflow_id;
      last_task_in_history = d.current_task_is_last_in_history;
    }))
initiated_event d _ = err fatal

start_failed_cause : Option StartChildWorkflowExecutionFailedCause → Outcome WfMachinesError Event
start_failed_cause none = err fatal
start_failed_cause (some cause) = ok (start_child_workflow_execution_failed cause)

start_failed_event : Option Attributes → Outcome WfMachinesError Event
unfolding start_failed_cause
start_failed_event (some (Attributes.start_child_workflow_execution_failed cause)) =
    start_failed_cause (start_child_failed_cause cause)
start_failed_event _ = err fatal

started_event : ℕ → Option Attributes → Outcome WfMachinesError Event
started_event id (some (Attributes.child_workflow_execution_started (some we))) =
    ok
      (child_workflow_execution_started (record { workflow_execution = we; started_event_id = id }))
started_event id _ = err fatal

completed_event : Option Attributes → Outcome WfMachinesError Event
completed_event (some (Attributes.child_workflow_execution_completed result)) =
    ok (child_workflow_execution_completed result)
completed_event _ = err fatal

failed_event : Option Attributes → Outcome WfMachinesError Event
failed_event (some (Attributes.child_workflow_execution_failed a)) =
    ok (child_workflow_execution_failed a)
failed_event _ = err fatal

timed_out_event : Option Attributes → Outcome WfMachinesError Event
timed_out_event (some (Attributes.child_workflow_execution_timed_out r)) =
    ok (child_workflow_execution_timed_out r)
timed_out_event _ = err fatal

event_of_type : EventType → HistEventData → Outcome WfMachinesError Event
event_of_type EventType.start_child_workflow_execution_initiated d =
    initiated_event d d.event.attributes
event_of_type EventType.start_child_workflow_execution_failed d =
    start_failed_event d.event.attributes
event_of_type EventType.child_workflow_execution_started d =
    started_event d.event.event_id d.event.attributes
event_of_type EventType.child_workflow_execution_completed d = completed_event d.event.attributes
event_of_type EventType.child_workflow_execution_failed d = failed_event d.event.attributes
event_of_type EventType.child_workflow_execution_timed_out d = timed_out_event d.event.attributes
event_of_type EventType.child_workflow_execution_terminated d =
    ok child_workflow_execution_terminated
event_of_type EventType.child_workflow_execution_canceled d = ok child_workflow_execution_cancelled
event_of_type _ d = err nondeterminism

-- `TryFrom<HistEventData> for ChildWorkflowMachineEvents`.
unfoldable pub event_of_history : HistEventData → Outcome WfMachinesError Event
unfolding event_of_type initiated_event start_failed_event started_event completed_event
    failed_event timed_out_event
event_of_history d = event_of_type d.event.event_type d

-- `TryFrom<CommandType> for ChildWorkflowMachineEvents`.
unfoldable pub event_of_command : CommandType → Option Event
event_of_command CommandType.start_child_workflow_execution =
    some command_start_child_workflow_execution
event_of_command CommandType.request_cancel_external_workflow_execution =
    some command_request_cancel_external_workflow_execution
event_of_command _ = none
