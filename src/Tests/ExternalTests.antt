-- ===== src/Tests/ExternalTests.antt =====
-- signal_external_state_machine.rs and cancel_external_state_machine.rs on a signal and on a request
-- that the server takes on.
use sdk_core.Prelude.{true, codes, false, none, some, List, [], ◌∷◌, ok, err, ◌≡◌, ◌≢◌, ◌⊎◌, refl}
use sdk_core.Fsm.{from_parts, on_event, invalid_transition}
use sdk_core.Proto.{CommandAttributes, Attributes, CommandType, EventType, HistEventData, Job}
use sdk_core.Machines.{fatal, MachineResponse, push_wf_job, handle_event, handle_command}
use sdk_core.Machines.CancelExternal
use sdk_core.Machines.CancelExternal.Answers.{no_cancel, cancel_external-IsAnswered}
use sdk_core.Machines.CancelExternal.Answers as CancelAnswers
use sdk_core.Machines.Inputs.{Input, history, command, cancels, run_inputs, step}
use sdk_core.Machines.SignalExternal
use sdk_core.Machines.SignalExternal.{
  signal_external, SignalExternalFsm, SignalExternalMachine, signaled, failed, cancel_signal,
}
use sdk_core.Machines.SignalExternal.Creation.{
  new_external_signal, SignalExternalWorkflowExecution, child_workflow_id,
}
use sdk_core.Machines.SignalExternal.Answers.{
  scheduled, IsAnswered, signal-IsAnswered, cancel_resolved,
}

abbrev event : EventType → HistEventData
event t = record {
  event = record {
    event_id = 6;
    event_type = t;
    event_time = none;
    attributes = some Attributes.other_attributes;
  };
  replaying = false;
  current_task_is_last_in_history = false;
}

abbrev signal_inputs : List Input
signal_inputs =
    command CommandType.signal_external_workflow_execution
    ∷ history (event EventType.signal_external_workflow_execution_initiated)
    ∷ cancels []
    ∷ history (event EventType.external_workflow_execution_signaled)
    ∷ []

abbrev signal_end : SignalExternalMachine
signal_end = from_parts SignalExternalFsm signaled (record { seq = 4 })

abbrev signal_said : List MachineResponse
signal_said = push_wf_job (Job.resolve_signal_external_workflow 4 none) ∷ []

signals :
    run_inputs signal_external (λ _. cancel_signal) (scheduled 4) signal_inputs
    ≡ ok (signal_end, signal_said)
unfolding run_inputs step handle_event handle_command on_event SignalExternal.event_of_history
    SignalExternal.event_of_command SignalExternal.transition SignalExternal.adapt_response
    cancel_signal
signals = refl

signal-IsAnswered_example : IsAnswered 4 signal_said signal_end
signal-IsAnswered_example = signal-IsAnswered 4 signal_inputs signal_end signal_said signals

cancel_resolved_example :
    let m = from_parts SignalExternalFsm failed (record { seq = 4 }) in
    ((failed ≢ failed) × (cancel_signal m ≡ (m, ok [])))
    ⊎ ((failed ≡ failed) × (cancel_signal m ≡ (m, err invalid_transition)))
cancel_resolved_example = cancel_resolved failed (record { seq = 4 }) refl

abbrev cancel_inputs : List Input
cancel_inputs =
    command CommandType.request_cancel_external_workflow_execution
    ∷ history (event EventType.request_cancel_external_workflow_execution_initiated)
    ∷ history (event EventType.external_workflow_execution_cancel_requested)
    ∷ []

abbrev cancel_end : CancelExternal.CancelExternalMachine
cancel_end =
    from_parts CancelExternal.CancelExternalFsm CancelExternal.cancel_requested (record { seq = 4 })

abbrev cancel_said : List MachineResponse
cancel_said = push_wf_job (Job.resolve_request_cancel_external_workflow 4 none) ∷ []

requests :
    run_inputs CancelExternal.cancel_external no_cancel (CancelAnswers.scheduled 4) cancel_inputs
    ≡ ok (cancel_end, cancel_said)
unfolding run_inputs step handle_event handle_command on_event CancelExternal.event_of_history
    CancelExternal.event_of_command CancelExternal.transition CancelExternal.adapt_response
requests = refl

cancel_external-IsAnswered_example : CancelAnswers.IsAnswered 4 cancel_said cancel_end
cancel_external-IsAnswered_example =
    cancel_external-IsAnswered 4 cancel_inputs cancel_end cancel_said requests

abbrev to_child : SignalExternalWorkflowExecution
to_child = record {
  seq = 4;
  target = some (child_workflow_id (codes "child"));
  signal_name = codes "go";
  args = [];
}

new_signal_test :
    (new_external_signal (record to_child { target = none }) [] ≡ err fatal)
    × (new_external_signal to_child (codes "ns")
        ≡ ok (
          scheduled 4,
          CommandAttributes.signal_external_workflow_execution (record {
            namespace = codes "ns";
            workflow_id = codes "child";
            run_id = [];
            signal_name = codes "go";
            input = none;
            child_workflow_only = true;
          }),
        ))
unfolding new_external_signal on_event SignalExternal.transition
new_signal_test = (refl, refl)
