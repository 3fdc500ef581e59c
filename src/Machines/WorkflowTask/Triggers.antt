-- ===== src/Machines/WorkflowTask/Triggers.antt =====
-- When a workflow task triggers its workflow (workflow_task_state_machine.rs).
use sdk_core.Prelude.{
  Text, ℕ, Bool, leb, some, List, [], ◌∷◌, ◌++◌, if◌then◌else◌, ok, ◌≡◌, arith, ◌>>=◌,
}
use sdk_core.Fsm.{on_event}
use sdk_core.Proto.{EventType, HistEventData, Attributes}
use sdk_core.Machines.{
  trigger_wf_task_started, update_run_id_on_workflow_reset, handle_event, finish, Responses,
}
use sdk_core.Machines.WorkflowTask.{
  new, workflow_task, WorkflowTaskMachine, transition, event_of_history, adapt_response,
}

-- The events of one task: scheduled, started at a time, and completed.
abbrev pub scheduled_event : HistEventData → HistEventData
scheduled_event d = record d {
  event = record (d.event) { event_type = EventType.workflow_task_scheduled };
}

abbrev pub started_event : HistEventData → ℕ → HistEventData
started_event d time = record d {
  event = record (d.event) { event_type = EventType.workflow_task_started; event_time = some time };
}

abbrev pub completed_event : HistEventData → HistEventData
completed_event d = record d {
  event = record (d.event) { event_type = EventType.workflow_task_completed };
}

-- All responses of a machine to events in order, up to the first failure.
unfoldable pub responses : WorkflowTaskMachine → List HistEventData → Responses
responses m [] = ok []
responses m (d ∷ ds) = do
  let handled = handle_event workflow_task m d
  first ← handled.1
  rest ← responses handled.0 ds
  ok (first ++ rest)

-- A new task for a workflow that waits for the started event `id`, led through its scheduled, started
-- and completed events: the started event triggers the workflow, for `id`, exactly if it is not
-- before that event; the completed event triggers it once more, for the task's own started event; and
-- both carry the time at which the task started.
pub task_triggers :
    (id time : ℕ) (scheduled started completed : HistEventData)
    → responses
        (new id)
        (scheduled_event scheduled ∷ started_event started time ∷ completed_event completed ∷ [])
      ≡ ok (
          (if leb id started.event.event_id then trigger_wf_task_started id time ∷ [] else [])
          ++ (trigger_wf_task_started started.event.event_id time ∷ []))
unfolding responses handle_event finish event_of_history on_event transition adapt_response
task_triggers id time scheduled started completed = ground arith

abbrev pub failed_event : HistEventData → (resets : Bool) → Text → HistEventData
failed_event d resets run_id = record d {
  event = record (d.event) {
    event_type = EventType.workflow_task_failed;
    attributes =
        some (
          Attributes.workflow_task_failed
            (record { reset_workflow = resets; new_run_id = run_id }));
  };
}

-- The same task, if it fails after its start: the started event triggers the workflow under the same
-- condition, and the failed event triggers nothing, but it renames the run to the new one exactly if
-- the failure is a reset.
pub failed_task :
    (id time : ℕ) (resets : Bool) (run_id : Text) (scheduled started failed : HistEventData)
    → responses (new id) (
        scheduled_event scheduled
        ∷ started_event started time
        ∷ failed_event failed resets run_id
        ∷ [])
      ≡ ok (
          (if leb id started.event.event_id then trigger_wf_task_started id time ∷ [] else [])
          ++ (if resets then update_run_id_on_workflow_reset run_id ∷ [] else []))
unfolding responses handle_event finish event_of_history on_event transition adapt_response
failed_task id time resets run_id scheduled started failed = ground arith
