-- ===== src/Machines/ChildWorkflow/Cancel.antt =====
-- Cancelling a child workflow, and what comes after (child_workflow_state_machine.rs).
use sdk_core.Prelude.{
  Bool, true, false, Option, none, some, List, [], Text, Outcome, ok, err, ◌≡◌, ◌⊎◌, refl, arith,
}
use sdk_core.Fsm.{invalid_transition, MachineError, from_parts, on_event}
use sdk_core.Proto.{ChildWorkflowCancellationType, HistEventData}
use sdk_core.Machines.{WfMachinesError, nondeterminism, handle_event, MachineResponse}
use sdk_core.Machines.ChildWorkflow.{
  State, created, start_event_recorded, started, terminated, Event,
  child_workflow_execution_completed, child_workflow_execution_failed,
  child_workflow_execution_timed_out, child_workflow_execution_terminated, SharedState, transition,
  ChildWorkflowFsm, ChildWorkflowMachine, child_workflow, event_of_history, cancel_child,
}

-- Whether a cancellation is an invalid transition, which its caller turns into a nondeterminism error.
abbrev pub is_refused : Outcome (MachineError WfMachinesError) (List MachineResponse) → Bool
is_refused (err invalid_transition) = true
is_refused _ = false

abbrev pub refuses : Option State → Bool
refuses none = true
refuses (some created) = true
refuses (some start_event_recorded) = true
refuses (some terminated) = true
refuses (some _) = false

refused_in :
    (reason : Text) (s : Option State) (dat : SharedState)
    → is_refused (cancel_child reason (record { state = s; shared_state = dat })).1 ≡ refuses s
unfolding cancel_child on_event transition
refused_in reason none dat = refl
refused_in reason (some created) dat = refl
refused_in reason (some s) dat = ground arith

-- Cancelling a child workflow is refused exactly where the machine has no state, has not been
-- scheduled, waits for the child's start after the server took the command, or saw the child
-- terminated. In the other states that end the child it is not refused.
pub cancel_child-refused :
    (reason : Text) (m : ChildWorkflowMachine)
    → is_refused (cancel_child reason m).1 ≡ refuses m.state
cancel_child-refused reason m = refused_in reason m.state m.shared_state

abbrev pub is_outcome : Event → Bool
is_outcome (child_workflow_execution_completed _) = true
is_outcome (child_workflow_execution_failed _) = true
is_outcome (child_workflow_execution_timed_out _) = true
is_outcome child_workflow_execution_terminated = true
is_outcome _ = false

pub cancelled_started : Text → SharedState → ChildWorkflowMachine
unfolding cancel_child on_event transition
cancelled_started reason dat = (cancel_child reason (from_parts ChildWorkflowFsm started dat)).0

-- A running child was cancelled, and then the history says that it completed, failed, timed out or
-- was terminated all the same. An abandoned child drops that; with try-cancel it is a nondeterminism
-- error; and with the two types that wait, the child still runs for the machine when it comes.
pub late_outcomes :
    (reason : Text) (dat : SharedState) (d : HistEventData) (e : Event)
    → event_of_history d ≡ ok e
    → is_outcome e ≡ true
    → let m = cancelled_started reason dat in
      ((dat.cancel_type ≡ ChildWorkflowCancellationType.abandon)
        × (handle_event child_workflow m d ≡ (m, ok [])))
      ⊎ (((dat.cancel_type ≡ ChildWorkflowCancellationType.try_cancel)
            × ((handle_event child_workflow m d).1 ≡ err nondeterminism))
          ⊎ (((dat.cancel_type ≡ ChildWorkflowCancellationType.wait_cancellation_completed)
                ⊎ (dat.cancel_type ≡ ChildWorkflowCancellationType.wait_cancellation_requested))
              × (m ≡ from_parts ChildWorkflowFsm started dat)))
unfolding cancelled_started handle_event on_event transition cancel_child
late_outcomes reason dat d e h is = ground arith
