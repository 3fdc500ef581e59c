-- ===== src/Tests/ChildWorkflowTests.antt =====
-- child_workflow_state_machine.rs on a child that is started, and cancelled in each of the ways.
use sdk_core.Prelude.{true, false, none, some, List, [], ◌∷◌, codes, ok, err, ◌≡◌, ◌⊎◌, refl}
use sdk_core.Flags.{disabled, try_use}
use sdk_core.Fsm.{from_parts, on_event}
use sdk_core.Proto.{
  Attributes, ChildWorkflowCancellationType, CommandType, EventType, HistEventData,
  StartChildWorkflowExecution, ChildStartStatus, Job, start_child_workflow_cmd_to_api,
}
use sdk_core.Machines.{MachineResponse, nondeterminism, push_wf_job, handle_event, handle_command}
use sdk_core.Machines.Inputs.{Input, history, command, run_inputs, step}
use sdk_core.Machines.ChildWorkflow.{
  SharedState, started, terminated, ChildWorkflowFsm, ChildWorkflowMachine, child_workflow,
  event_of_history, event_of_command, adapt_response, cancel_child, initial_state, transition,
  new_scheduled, child_workflow_execution_completed,
}
use sdk_core.Machines.ChildWorkflow.Answers.{scheduled, IsAnswered, run_inputs-IsAnswered}
use sdk_core.Machines.ChildWorkflow.Cancel.{
  is_refused, cancel_child-refused, cancelled_started, late_outcomes,
}

abbrev attribs : StartChildWorkflowExecution
attribs = record {
  seq = 3;
  namespace = codes "ns";
  workflow_id = codes "child";
  workflow_type = codes "type";
  cancellation_type = ChildWorkflowCancellationType.try_cancel;
}

abbrev event : EventType → Attributes → HistEventData
event t a = record {
  event = record { event_id = 6; event_type = t; event_time = none; attributes = some a };
  replaying = false;
  current_task_is_last_in_history = false;
}

abbrev inputs : List Input
inputs =
    command CommandType.start_child_workflow_execution
    ∷ history (
        event EventType.start_child_workflow_execution_initiated (
          Attributes.start_child_workflow_execution_initiated
            (record { workflow_id = codes "child"; workflow_type = some (codes "type") })))
    ∷ history (
        event EventType.child_workflow_execution_started (
          Attributes.child_workflow_execution_started
            (some (record { workflow_id = codes "child"; run_id = codes "run" }))))
    ∷ []

abbrev dat : SharedState
dat = record (initial_state attribs disabled) {
  initiated_event_id = 6;
  started_event_id = 6;
  run_id = codes "run";
}

abbrev running : ChildWorkflowMachine
running = from_parts ChildWorkflowFsm started dat

abbrev said : List MachineResponse
said =
    push_wf_job
      (Job.resolve_child_workflow_execution_start 3 (ChildStartStatus.succeeded (codes "run")))
    ∷ []

schedules :
    new_scheduled attribs disabled true
    ≡ some (scheduled attribs disabled, start_child_workflow_cmd_to_api attribs true)
unfolding new_scheduled on_event transition
schedules = refl

starts :
    run_inputs child_workflow cancel_child (scheduled attribs disabled) inputs ≡ ok (running, said)
unfolding run_inputs step handle_event handle_command event_of_history event_of_command on_event
    transition adapt_response try_use
starts = refl

run_inputs-IsAnswered_example : IsAnswered said running
run_inputs-IsAnswered_example = run_inputs-IsAnswered attribs disabled inputs running said starts

cancel_child-refused_example :
    is_refused (cancel_child [] (from_parts ChildWorkflowFsm terminated dat)).1 ≡ true
cancel_child-refused_example = cancel_child-refused [] (from_parts ChildWorkflowFsm terminated dat)

abbrev completes : HistEventData
completes =
    event EventType.child_workflow_execution_completed
      (Attributes.child_workflow_execution_completed none)

is_completed : event_of_history completes ≡ ok (child_workflow_execution_completed none)
unfolding event_of_history
is_completed = refl

late_outcomes_example :
    let m = cancelled_started [] dat in
    ((dat.cancel_type ≡ ChildWorkflowCancellationType.abandon)
      × (handle_event child_workflow m completes ≡ (m, ok [])))
    ⊎ (((dat.cancel_type ≡ ChildWorkflowCancellationType.try_cancel)
          × ((handle_event child_workflow m completes).1 ≡ err nondeterminism))
        ⊎ (((dat.cancel_type ≡ ChildWorkflowCancellationType.wait_cancellation_completed)
              ⊎ (dat.cancel_type ≡ ChildWorkflowCancellationType.wait_cancellation_requested))
            × (m ≡ from_parts ChildWorkflowFsm started dat)))
late_outcomes_example =
    late_outcomes [] dat completes (child_workflow_execution_completed none) is_completed refl
