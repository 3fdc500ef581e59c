-- ===== src/Tests/WorkflowTaskTests.antt =====
-- workflow_task_state_machine.rs on the tasks of a workflow that waits for event 6.
use sdk_core.Prelude.{ℕ, true, false, none, [], ◌∷◌, ok, ◌≡◌}
use sdk_core.Proto.{EventType, HistEventData}
use sdk_core.Machines.{trigger_wf_task_started}
use sdk_core.Machines.WorkflowTask.{new}
use sdk_core.Machines.WorkflowTask.Triggers.{
  responses, scheduled_event, started_event, completed_event, task_triggers,
}

abbrev event : ℕ → HistEventData
event id = record {
  event = record {
    event_id = id;
    event_type = EventType.unspecified;
    event_time = none;
    attributes = none;
  };
  replaying = true;
  current_task_is_last_in_history = false;
}

task_triggers_example :
    responses
      (new 6)
      (scheduled_event (event 2) ∷ started_event (event 3) 50 ∷ completed_event (event 4) ∷ [])
    ≡ ok (trigger_wf_task_started 3 50 ∷ [])
task_triggers_example = task_triggers 6 50 (event 2) (event 3) (event 4)
