-- ===== src/Machines/SignalExternal/Creation.antt =====
-- `new_external_signal` (signal_external_state_machine.rs). The headers of the signal are left out.
use sdk_core.Prelude.{
  ℕ, Bool, true, false, Option, none, some, List, [], ◌∷◌, Text, Outcome, ok, err, panicked,
}
use sdk_core.Fsm.{from_parts, on_event}
use sdk_core.Proto.{Payload, Payloads, CommandAttributes}
use sdk_core.Machines.{WfMachinesError, fatal}
use sdk_core.Machines.SignalExternal.{created, schedule, SignalExternalFsm, SignalExternalMachine}

pub record NamespacedWorkflowExecution : Type 0 where
  pub namespace : Text
  pub workflow_id : Text
  pub run_id : Text

-- `signal_external_workflow_execution::Target`.
pub data Target : Type 0 where
  child_workflow_id : Text → Target
  workflow_execution : NamespacedWorkflowExecution → Target

pub record SignalExternalWorkflowExecution : Type 0 where
  pub seq : ℕ
  pub target : Option Target
  pub signal_name : Text
  pub args : List Payload

-- `into_payloads`.
into_payloads : List Payload → Option Payloads
into_payloads [] = none
into_payloads (p ∷ ps) = some (p ∷ ps)

signal_attributes :
    SignalExternalWorkflowExecution → NamespacedWorkflowExecution → Bool → CommandAttributes
unfolding into_payloads
signal_attributes attrs we only_child =
    CommandAttributes.signal_external_workflow_execution (record {
      namespace = we.namespace;
      workflow_id = we.workflow_id;
      run_id = we.run_id;
      signal_name = attrs.signal_name;
      input = into_payloads attrs.args;
      child_workflow_only = only_child;
    })

-- The machine once it is scheduled; `panicked` is the panic of `expect`.
schedule_signal :
    ℕ → CommandAttributes → Outcome WfMachinesError (SignalExternalMachine × CommandAttributes)
schedule_signal seq cmd_attrs =
    let (s, r) =
      on_event SignalExternalFsm (from_parts SignalExternalFsm created (record { seq = seq }))
        schedule in
    elim r [ ok _ ↦ ok (s, cmd_attrs) | err _ ↦ panicked | panicked ↦ panicked ]

-- `new_external_signal`.
unfoldable pub new_external_signal :
    SignalExternalWorkflowExecution
    → Text
    → Outcome WfMachinesError (SignalExternalMachine × CommandAttributes)
unfolding schedule_signal signal_attributes
new_external_signal attrs this_namespace = elim attrs.target [
  | none ↦ err fatal
  | some (child_workflow_id wfid) ↦ schedule_signal attrs.seq (
      signal_attributes attrs
        (record { namespace = this_namespace; workflow_id = wfid; run_id = [] }) true)
  | some (workflow_execution we) ↦ schedule_signal attrs.seq (signal_attributes attrs we false)
]
