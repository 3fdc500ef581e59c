-- ===== src/Tests/IncomingTests.antt =====
-- An update that comes in as a message, is accepted, and is replayed. The encoding knows only messages
-- without content, apart from an id.
use sdk_core.Prelude.{
  ℕ, zero, true, false, Option, none, some, List, [], ◌∷◌, Text, codes, text_eq, ok, ◌≡◌, refl,
  arith,
}
use sdk_core.Fsm.{from_parts, on_event}
use sdk_core.Proto.{
  Request, Meta, Acceptance, Any, ProtocolMessage, HistoryEvent, Attributes, UpdateResponse,
  EventType, Payload, Payloads, Job, CommandAttributes,
}
use sdk_core.Proto.Updates
use sdk_core.Proto.Updates.{Message, event_id}
use sdk_core.Machines.{
  MachineResponse, issue_new_message, issue_new_command, proto_command, push_wf_job,
  process_machine_commands,
}
use sdk_core.Machines.Update.{
  UpdateMachine, UpdateFsm, UpdateMsg, acceptance, rejection, response, SharedState,
  request_initiated, transition, adapt_response, build_msg, build_command_msg, handle_response,
}
use sdk_core.Machines.Update
use sdk_core.Machines.Update.Init.{update_request, init}
use sdk_core.Machines.Update.Incoming.{IncomingProtocolMessage, of_message, of_event, new_update}
use sdk_core.Machines.Update.Replay.{recorded, accepted_replays}

abbrev empty_request : Request
empty_request = record {
  meta = some (record { update_id = []; identity = [] });
  input = some (record { header = none; name = []; args = none });
}

abbrev empty_acceptance : Text → Acceptance
empty_acceptance id = record {
  accepted_request_message_id = id;
  accepted_request_sequencing_event_id = 0;
  accepted_request = some empty_request;
}

abbrev encode_parts :
    Text
    → (update_id identity : Text) (header : Option (List (Text × Payload))) (name : Text)
      (args : Option Payloads)
    → Option Text
encode_parts id [] [] none [] none = some id
encode_parts id _ _ _ _ _ = none

abbrev encode_request : Text → Option Meta → Option Updates.Input → Option Text
encode_request id (some m) (some i) = encode_parts id m.update_id m.identity i.header i.name i.args
encode_request id _ _ = none

abbrev encode_acceptance : Text → ℕ → Option Request → Option Text
encode_acceptance id zero (some r) = encode_request id r.meta r.input
encode_acceptance id _ _ = none

abbrev encode : UpdateMsg → Option Text
encode (acceptance a) =
    encode_acceptance a.accepted_request_message_id a.accepted_request_sequencing_event_id
      a.accepted_request
encode _ = none

abbrev decode : Text → Option UpdateMsg
decode id = some (acceptance (empty_acceptance id))

decodes : (msg : UpdateMsg) (v : Text) → encode msg ≡ some v → decode v ≡ some msg
decodes (acceptance a) v h = ground arith
decodes (rejection r) v h = cc
decodes (response r) v h = cc

abbrev message : Message
message = record {
  id = codes "m/request";
  protocol_instance_id = codes "m";
  sequencing_id = some (event_id 0);
  body = some (record {
    type_url = codes "type.googleapis.com/temporal.api.update.v1.Request";
    value = [];
  });
}

abbrev incoming : IncomingProtocolMessage
incoming = record {
  id = codes "m/request";
  protocol_instance_id = codes "m";
  sequencing_id = some (event_id 0);
  update_request = empty_request;
}

comes_in : of_message (λ v. some empty_request) message ≡ ok incoming
unfolding of_message update_request text_eq
comes_in = refl

abbrev dat : SharedState
dat = record {
  message_id = codes "m/request";
  instance_id = codes "m";
  event_seq_id = 0;
  meta = record { update_id = []; identity = [] };
}

abbrev started : UpdateMachine
started = from_parts UpdateFsm (request_initiated empty_request) dat

abbrev job : MachineResponse
job = push_wf_job (
    Job.do_update (record {
      id = [];
      protocol_instance_id = codes "m";
      name = [];
      input = [];
      headers = [];
      meta = some (record { update_id = []; identity = [] });
      run_validator = true;
    }))

starts : new_update false incoming ≡ ok (started, job)
unfolding new_update init
starts = refl

abbrev body : Any
body = record {
  type_url = codes "type.googleapis.com/temporal.api.update.v1.Acceptance";
  value = codes "m/request";
}

abbrev sent : ProtocolMessage
sent = record { id = codes "m/request/accept"; protocol_instance_id = codes "m"; body = some body }

abbrev rest : List MachineResponse
rest =
    issue_new_command
      (proto_command (CommandAttributes.protocol_message (codes "m/request/accept")))
    ∷ []

answers :
    handle_response encode started (some UpdateResponse.accepted)
    ≡ (from_parts UpdateFsm Update.accepted dat, ok (issue_new_message sent ∷ rest))
unfolding handle_response on_event transition process_machine_commands adapt_response
    build_command_msg build_msg
answers = refl

abbrev event : HistoryEvent
event = record {
  event_id = 7;
  event_type = EventType.workflow_execution_update_accepted;
  event_time = none;
  attributes = some (
      Attributes.workflow_execution_update_accepted
        (recorded (codes "m") (empty_acceptance (codes "m/request"))));
}

accepted_replays_example : of_event event ≡ ok incoming
accepted_replays_example =
    accepted_replays encode decode decodes false incoming started
      (from_parts UpdateFsm Update.accepted dat) job sent rest body
      (empty_acceptance (codes "m/request")) event starts answers refl refl refl
