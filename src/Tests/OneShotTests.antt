-- ===== src/Tests/OneShotTests.antt =====
-- A workflow that completes.
use sdk_core.Prelude.{false, none, some, List, [], ◌∷◌, ok, ◌≡◌, refl}
use sdk_core.Fsm.{Machine, from_parts, on_event}
use sdk_core.Proto.{CommandType, CommandAttributes, EventType}
use sdk_core.Machines.{
  MachineResponse, finish, process_machine_commands, handle_event, handle_command,
}
use sdk_core.Machines.Inputs.{Input, history, command, step, run_inputs}
use sdk_core.Machines.Endings.Complete
use sdk_core.Machines.OneShot.{no_cancel, CountIn, events}
use sdk_core.Machines.OneShot.Kinds.{complete, machine_of, recorded_once}

abbrev life : List Input
life =
    command CommandType.complete_workflow_execution
    ∷ history (record {
      event = record {
        event_id = 7;
        event_type = EventType.workflow_execution_completed;
        event_time = none;
        attributes = none;
      };
      replaying = false;
      current_task_is_last_in_history = false;
    })
    ∷ []

abbrev begun : Machine (machine_of complete).fsm
begun = from_parts Complete.CompleteWorkflowFsm Complete.complete_workflow_command_created tt

abbrev ended : Machine (machine_of complete).fsm
ended = from_parts Complete.CompleteWorkflowFsm Complete.complete_workflow_command_recorded tt

life_runs :
    run_inputs (machine_of complete) (no_cancel (machine_of complete)) begun life ≡ ok (ended, [])
unfolding run_inputs step handle_event handle_command finish process_machine_commands on_event
    Complete.transition Complete.event_of_history Complete.event_of_command
life_runs = refl

begins :
    Complete.complete_workflow none
    ≡ some (CommandAttributes.complete_workflow_execution none, begun)
unfolding Complete.complete_workflow Complete.transition on_event
begins = refl

recorded_once_example :
    (◌≡◌ {A = List MachineResponse} [] []) × CountIn (machine_of complete) (events life) ended.state
recorded_once_example =
    recorded_once complete begun ended life []
      (none, CommandAttributes.complete_workflow_execution none, begins) life_runs
