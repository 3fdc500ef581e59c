-- ===== src/Machines.antt =====
-- core/src/worker/workflow/machines/mod.rs: what every workflow state machine adds to a generated
-- one, and how commands and history events go through it. With `MachineResponse` of
-- machines/workflow_machines.rs and `WFMachinesError` of core/src/worker/workflow/mod.rs.
pub mod Activity
pub mod AnyMachine
pub mod ChildWorkflow
pub mod CancelExternal
pub mod Endings
pub mod Inputs
pub mod LocalActivity
pub mod Matching
pub mod ModifyProperties
pub mod OneShot
pub mod Patch
pub mod SignalExternal
pub mod Timer
pub mod Update
pub mod UpsertSearchAttributes
pub mod WorkflowTask
use sdk_core.Prelude.{
  ℕ, Bool, Option, none, some, List, [], ◌∷◌, ◌++◌, Text, Outcome, ok, err, panicked, ◌>>=◌,
}
use sdk_core.Fsm.{StateMachine, Machine, MachineError, invalid_transition, underlying, on_event}
use sdk_core.Proto.{
  CommandType, CommandAttributes, as_type, Job, HistEventData, EventInfo, ProtocolMessage,
  ValidScheduleLa,
}

-- The messages are left out.
pub data WfMachinesError : Type 0 where
  nondeterminism fatal : WfMachinesError

-- `impl From<MachineError<WFMachinesError>> for WFMachinesError`.
unfoldable pub wf_machines_error : MachineError WfMachinesError → WfMachinesError
wf_machines_error MachineError.invalid_transition = nondeterminism
wf_machines_error (underlying e) = e

-- The protobuf `Command`. User metadata is left out: no machine sets it.
pub record ProtoCommand : Type 0 where
  pub command_type : CommandType
  pub attributes : Option CommandAttributes

-- `impl From<command::Attributes> for Command`.
unfoldable pub proto_command : CommandAttributes → ProtoCommand
proto_command a = record { command_type = as_type a; attributes = some a }

pub data MachineResponse : Type 0 where
  push_wf_job : Job → MachineResponse
  issue_new_command : ProtoCommand → MachineResponse
  issue_new_message : ProtocolMessage → MachineResponse
  new_core_originated_command : CommandAttributes → MachineResponse
  issue_fake_local_activity_marker : (seq : ℕ) → MachineResponse
  trigger_wf_task_started : (task_started_event_id time : ℕ) → MachineResponse
  update_run_id_on_workflow_reset : (run_id : Text) → MachineResponse
  queue_local_activity : ValidScheduleLa → MachineResponse
  request_cancel_local_activity : (seq : ℕ) → MachineResponse
  abandon_local_activity : (seq : ℕ) → MachineResponse
  update_wf_time : (time : Option ℕ) → MachineResponse

-- `WFMachinesAdapter`, with the conversions that `TemporalStateMachine` asks for. A conversion of a
-- command type is only tested for `Ok`, so its error is left out.
pub record WfMachine : Type 1 where
  pub fsm : StateMachine
  pub into_error : fsm.Error → WfMachinesError
  pub event_of_history : HistEventData → Outcome WfMachinesError fsm.Event
  pub event_of_command : CommandType → Option fsm.Event
  pub adapt_response :
      Machine fsm → fsm.Command → Option EventInfo → Outcome WfMachinesError (List MachineResponse)

abbrev pub Responses : Type 0
Responses = Outcome WfMachinesError (List MachineResponse)

-- The error's message names the state, so it unwinds where the machine has none.
abbrev pub invalid_transition_error : {A : Type 0} → Option A → WfMachinesError → Responses
invalid_transition_error none e = panicked
invalid_transition_error (some _) e = err e

event_info : HistEventData → EventInfo
event_info d = record { event_id = d.event.event_id; event_type = d.event.event_type }

module _ (w : WfMachine) where
  unfoldable pub process_machine_commands :
      Machine w.fsm → List w.fsm.Command → Option EventInfo → Responses
  process_machine_commands m [] info = ok []
  process_machine_commands m (c ∷ cs) info = do
    first ← w.adapt_response m c info
    rest ← process_machine_commands m cs info
    ok (first ++ rest)

  -- The `match` on the result of `on_event_mut`, in both handlers.
  unfoldable pub finish :
      WfMachinesError
      → Option EventInfo
      → Machine w.fsm × Outcome (MachineError w.fsm.Error) (List w.fsm.Command)
      → Machine w.fsm × Responses
  unfolding process_machine_commands
  finish on_invalid info (m, ok cs) = (m, process_machine_commands m cs info)
  finish on_invalid info (m, err MachineError.invalid_transition) =
      (m, invalid_transition_error m.state on_invalid)
  finish on_invalid info (m, err (underlying e)) = (m, err (w.into_error e))
  finish on_invalid info (m, panicked) = (m, panicked)

  unfoldable pub handle_command : Machine w.fsm → CommandType → Machine w.fsm × Responses
  unfolding finish
  handle_command m c = elim (w.event_of_command c) [
    | some e ↦ finish nondeterminism none (on_event w.fsm m e)
    | none ↦ (m, err nondeterminism)
  ]

  unfoldable pub handle_event : Machine w.fsm → HistEventData → Machine w.fsm × Responses
  unfolding finish event_info
  handle_event m d = elim (w.event_of_history d) [
    | ok e ↦ finish fatal (some (event_info d)) (on_event w.fsm m e)
    | err x ↦ (m, err x)
    | panicked ↦ (m, panicked)
  ]
