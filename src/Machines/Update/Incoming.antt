-- ===== src/Machines/Update/Incoming.antt =====
-- How requests of updates come in: `IncomingProtocolMessage` of core/src/protosext/protocol_messages.rs,
-- and the part of `handle_protocol_message` in workflow_machines.rs that creates the machine.
use sdk_core.Prelude.{
  ℕ, Bool, Option, none, some, if◌then◌else◌, Text, ◌++◌, codes, text_eq, Outcome, ok, err,
  panicked, ◌>>=◌,
}
use sdk_core.Proto.{Request, Any, HistoryEvent, Attributes}
use sdk_core.Proto.Updates.{Message, SequencingId, event_id, command_index}
use sdk_core.Machines.{WfMachinesError, fatal, MachineResponse}
use sdk_core.Machines.Update.{UpdateMachine}
use sdk_core.Machines.Update.Init.{update_request, init}

-- The only body is an update's request.
pub record IncomingProtocolMessage : Type 0 where
  pub id : Text
  pub protocol_instance_id : Text
  pub sequencing_id : Option SequencingId
  pub update_request : Request

-- An error of this conversion has only a message, which is left out.
abbrev pub Converted : Type 0 → Type 0
Converted A = Outcome (Unit {0}) A

-- `ok_or_else`.
required : {A : Type 0} → Option A → Converted A
required none = err tt
required (some a) = ok a

-- `processable_after_event_id`.
unfoldable pub processable_after_event_id : IncomingProtocolMessage → Option ℕ
processable_after_event_id m = elim m.sequencing_id [
  | none ↦ some 0
  | some (event_id id) ↦ some id
  | some (command_index i) ↦ none
]

-- `TryFrom<Option<prost_types::Any>>`, with prost's decoding of a request.
body_of : (unpack : Text → Option Request) → Option Any → Converted Request
unfolding required update_request text_eq
body_of unpack body = do
  v ← required body
  r ←
      if text_eq v.type_url (codes "type.googleapis.com/temporal.api.update.v1.Request")
      then required (unpack v.value)
      else err tt
  update_request r

-- `TryFrom<Message>`.
unfoldable pub of_message :
    (unpack : Text → Option Request) → Message → Converted IncomingProtocolMessage
unfolding body_of
of_message unpack m = do
  body ← body_of unpack m.body
  ok (record {
    id = m.id;
    protocol_instance_id = m.protocol_instance_id;
    sequencing_id = m.sequencing_id;
    update_request = body;
  })

-- `TryFrom<&HistoryEvent>`, of the event's id and attributes.
of_attributes : ℕ → Option Attributes → Converted IncomingProtocolMessage
unfolding required update_request
of_attributes id (some (Attributes.workflow_execution_update_admitted admitted)) = do
  request ← required admitted
  meta ← required request.meta
  body ← update_request request
  ok (record {
    id = meta.update_id ++ codes "/request";
    protocol_instance_id = meta.update_id;
    sequencing_id = some (event_id id);
    update_request = body;
  })
of_attributes id (some (Attributes.workflow_execution_update_accepted atts)) = do
  request ← required atts.accepted_request
  body ← update_request request
  ok (record {
    id = atts.accepted_request_message_id;
    protocol_instance_id = atts.protocol_instance_id;
    sequencing_id = some (event_id atts.accepted_request_sequencing_event_id);
    update_request = body;
  })
of_attributes id _ = err tt

unfoldable pub of_event : HistoryEvent → Converted IncomingProtocolMessage
unfolding of_attributes
of_event e = of_attributes e.event_id e.attributes

-- The machine and response of `UpdateMachine::init`, where a panic is `panicked`.
begun :
    Option (UpdateMachine × MachineResponse)
    → Outcome WfMachinesError (UpdateMachine × MachineResponse)
begun none = panicked
begun (some r) = ok r

-- `handle_protocol_message` up to the new machine.
unfoldable pub new_update :
    (replaying : Bool)
    → IncomingProtocolMessage
    → Outcome WfMachinesError (UpdateMachine × MachineResponse)
unfolding init begun
new_update replaying m = elim m.sequencing_id [
  | some (event_id seq_id) ↦
      begun (init m.id m.protocol_instance_id seq_id m.update_request replaying)
  | some (command_index i) ↦ err fatal
  | none ↦ err fatal
]
