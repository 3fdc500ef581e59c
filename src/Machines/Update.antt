-- ===== src/Machines/Update.antt =====
-- core/src/worker/workflow/machines/update_state_machine.rs: the state machine of an update.
pub mod Answers
pub mod Incoming
pub mod Init
pub mod Messages
pub mod Replay
pub mod Stages
use mathlib.Core.Option
use sdk_core.Prelude.{
  ℕ, Bool, true, false, not, Option, none, some, List, [], ◌∷◌, ◌++◌, Text, codes, Outcome, ok, err,
  panicked, ◌>>=◌,
}
use sdk_core.Fsm.{
  StateMachine, Machine, MachineError, underlying, TransitionResult, default, commands, from_parts,
  on_event,
}
use sdk_core.Proto.{
  Payload, Failure, CommandType, CommandAttributes, EventType, HistEventData, EventInfo, Job, Meta,
  Request, Acceptance, Rejection, OutcomeValue, Response, Any, ProtocolMessage, DoUpdate,
  UpdateResponse,
}
use sdk_core.Proto.Updates
use sdk_core.Machines.{
  WfMachinesError, nondeterminism, fatal, MachineResponse, push_wf_job, issue_new_command,
  issue_new_message, proto_command, Responses, WfMachine, process_machine_commands,
  invalid_transition_error,
}

pub data State : Type 0 where
  request_initiated : (original_request : Request) → State
  accepted accept_command_created accept_command_recorded completed completed_command_created
        completed_command_recorded rejected completed_immediately
        completed_immediately_accept_created completed_immediately_complete_created :
      State

pub data Event : Type 0 where
  accept command_protocol_message workflow_execution_update_accepted
        workflow_execution_update_completed :
      Event
  reject : Failure → Event
  complete : Payload → Event

pub data UpdateMachineCommand : Type 0 where
  accept_request : Request → UpdateMachineCommand
  reject_request : Request → Failure → UpdateMachineCommand
  complete_update : Payload → UpdateMachineCommand
  fail_update : Failure → UpdateMachineCommand

pub record SharedState : Type 0 where
  pub message_id : Text
  pub instance_id : Text
  pub event_seq_id : ℕ
  pub meta : Meta

-- `on_complete` and `on_fail` of three states.
completes : Payload → State → TransitionResult UpdateMachineCommand State WfMachinesError
completes p next = commands (complete_update p ∷ []) next

fails : Failure → State → TransitionResult UpdateMachineCommand State WfMachinesError
fails f next = commands (fail_update f ∷ []) next

-- The table of `fsm!`.
table : State → Event → Option (TransitionResult UpdateMachineCommand State WfMachinesError)
unfolding completes fails
table (request_initiated r) accept = some (commands (accept_request r ∷ []) accepted)
table (request_initiated r) (reject f) = some (commands (reject_request r f ∷ []) rejected)
table accepted (complete p) = some (completes p completed_immediately)
table accepted (reject f) = some (fails f completed_immediately)
table accepted command_protocol_message = some (default accept_command_created)
table accept_command_created workflow_execution_update_accepted =
    some (default accept_command_recorded)
table accept_command_created (complete p) = some (completes p completed_immediately_accept_created)
table accept_command_created (reject f) = some (fails f completed_immediately_accept_created)
table accept_command_recorded (complete p) = some (completes p completed)
table accept_command_recorded (reject f) = some (fails f completed)
table completed command_protocol_message = some (default completed_command_created)
table completed_command_created workflow_execution_update_completed =
    some (default completed_command_recorded)
table completed_immediately command_protocol_message =
    some (default completed_immediately_accept_created)
table completed_immediately_accept_created command_protocol_message =
    some (default completed_immediately_complete_created)
table completed_immediately_complete_created workflow_execution_update_accepted =
    some (default completed_command_created)
table _ _ = none

unfoldable pub transition :
    State
    → SharedState
    → Event
    → Option (SharedState × TransitionResult UpdateMachineCommand State WfMachinesError)
unfolding table
transition s dat e = Option.map (λ r. (dat, r)) (table s e)

unfoldable pub is_final : State → Bool
is_final completed_command_recorded = true
is_final rejected = true
is_final _ = false

abbrev pub UpdateFsm : StateMachine
UpdateFsm = record {
  State = State;
  SharedState = SharedState;
  Event = Event;
  Command = UpdateMachineCommand;
  Error = WfMachinesError;
  transition = transition;
  is_final = is_final;
}

abbrev pub UpdateMachine : Type 0
UpdateMachine = Machine UpdateFsm

pub data UpdateMsg : Type 0 where
  acceptance : Acceptance → UpdateMsg
  rejection : Rejection → UpdateMsg
  response : Response → UpdateMsg

type_url : UpdateMsg → Text
type_url (acceptance m) = codes "type.googleapis.com/temporal.api.update.v1.Acceptance"
type_url (rejection m) = codes "type.googleapis.com/temporal.api.update.v1.Rejection"
type_url (response m) = codes "type.googleapis.com/temporal.api.update.v1.Response"

-- `TryFrom<HistEventData> for UpdateMachineEvents`.
event_of_type : EventType → Outcome WfMachinesError Event
event_of_type EventType.workflow_execution_update_accepted = ok workflow_execution_update_accepted
event_of_type EventType.workflow_execution_update_completed = ok workflow_execution_update_completed
event_of_type _ = err nondeterminism

unfoldable pub event_of_history : HistEventData → Outcome WfMachinesError Event
unfolding event_of_type
event_of_history d = event_of_type d.event.event_type

-- `TryFrom<CommandType> for UpdateMachineEvents`.
unfoldable pub event_of_command : CommandType → Option Event
event_of_command CommandType.protocol_message = some command_protocol_message
event_of_command _ = none

-- `prost`'s encoding of a message; `none` is its `EncodeError`.
module _ (encode : UpdateMsg → Option Text) where
  -- `UpdateMsg::pack`, and the message around what it gives.
  unfoldable pub build_msg :
      SharedState → (outgoing_id : Text) → UpdateMsg → Outcome WfMachinesError MachineResponse
  unfolding type_url
  build_msg dat outgoing_id msg = elim (encode msg) [
    | none ↦ err fatal
    | some value ↦ ok (
        issue_new_message (record {
          id = outgoing_id;
          protocol_instance_id = dat.instance_id;
          body = some (record { type_url = type_url msg; value = value });
        }))
  ]

  unfoldable pub build_command_msg : SharedState → (outgoing_id : Text) → UpdateMsg → Responses
  unfolding build_msg
  build_command_msg dat outgoing_id msg = do
    m ← build_msg dat outgoing_id msg
    ok (m ∷ issue_new_command (proto_command (CommandAttributes.protocol_message outgoing_id)) ∷ [])

  -- The response that ends an update.
  outcome_msg : SharedState → OutcomeValue → UpdateMsg
  outcome_msg dat v = response (record { meta = some dat.meta; outcome = some v })

  unfoldable pub adapt_response :
      UpdateMachine → UpdateMachineCommand → Option EventInfo → Responses
  unfolding build_command_msg build_msg outcome_msg
  adapt_response m (accept_request orig) info =
      build_command_msg m.shared_state (m.shared_state.message_id ++ codes "/accept") (
        acceptance (record {
          accepted_request_message_id = m.shared_state.message_id;
          accepted_request_sequencing_event_id = m.shared_state.event_seq_id;
          accepted_request = some orig;
        }))
  adapt_response m (reject_request orig fail) info = do
    msg ← build_msg m.shared_state (m.shared_state.message_id ++ codes "/reject") (
        rejection (record {
          rejected_request_message_id = m.shared_state.message_id;
          rejected_request_sequencing_event_id = m.shared_state.event_seq_id;
          rejected_request = some orig;
          failure = some fail;
        }))
    ok (msg ∷ [])
  adapt_response m (complete_update p) info =
      build_command_msg m.shared_state (m.shared_state.message_id ++ codes "/complete")
        (outcome_msg m.shared_state (OutcomeValue.success (p ∷ [])))
  adapt_response m (fail_update f) info =
      build_command_msg m.shared_state (m.shared_state.message_id ++ codes "/complete")
        (outcome_msg m.shared_state (OutcomeValue.failure f))

  abbrev pub update : WfMachine
  update = record {
    fsm = UpdateFsm;
    into_error = λ e. e;
    event_of_history = event_of_history;
    event_of_command = event_of_command;
    adapt_response = adapt_response;
  }

  -- The event that an answer of lang is; none is an answer that is empty.
  event_of_response : Option UpdateResponse → Option Event
  event_of_response none = none
  event_of_response (some UpdateResponse.accepted) = some accept
  event_of_response (some (UpdateResponse.rejected f)) = some (reject f)
  event_of_response (some (UpdateResponse.completed p)) = some (complete p)

  answered :
      UpdateMachine × Outcome (MachineError WfMachinesError) (List UpdateMachineCommand)
      → UpdateMachine × Responses
  answered (m, ok cs) = (m, process_machine_commands update m cs none)
  answered (m, err MachineError.invalid_transition) =
      (m, invalid_transition_error m.state nondeterminism)
  answered (m, err (underlying e)) = (m, err e)
  answered (m, panicked) = (m, panicked)

  unfoldable pub handle_response : UpdateMachine → Option UpdateResponse → UpdateMachine × Responses
  unfolding event_of_response answered
  handle_response m resp = elim (event_of_response resp) [
    | none ↦ (m, err fatal)
    | some e ↦ answered (on_event UpdateFsm m e)
  ]
