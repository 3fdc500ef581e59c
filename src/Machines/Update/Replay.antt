-- ===== src/Machines/Update/Replay.antt =====
-- The acceptance of an update brings its request back on replay.
use mathlib.Core.Option
use sdk_core.Prelude.{
  ℕ, Bool, Option, none, some, List, ◌∷◌, Text, ok, ◌≡◌, refl, sym, ap, ◌∙◌, subst, arith,
}
use sdk_core.Fsm.{from_parts, on_event}
use sdk_core.Proto.{
  Request, Meta, Acceptance, Any, ProtocolMessage, HistoryEvent, Attributes, UpdateResponse,
  WorkflowExecutionUpdateAcceptedEventAttributes,
}
use sdk_core.Proto.Updates
use sdk_core.Proto.Updates.{SequencingId, event_id, command_index}
use sdk_core.Machines.{MachineResponse, issue_new_message, process_machine_commands}
use sdk_core.Machines.Update.{
  UpdateMachine, UpdateFsm, UpdateMsg, acceptance, SharedState, request_initiated, transition,
  adapt_response, build_msg, build_command_msg, handle_response,
}
use sdk_core.Machines.Update.Init.{update_request, init}
use sdk_core.Machines.Update.Incoming.{IncomingProtocolMessage, of_event, new_update}

-- What the server puts on record for an acceptance, and the instance it was sent for.
abbrev pub recorded : Text → Acceptance → WorkflowExecutionUpdateAcceptedEventAttributes
recorded instance_id a = record {
  protocol_instance_id = instance_id;
  accepted_request_message_id = a.accepted_request_message_id;
  accepted_request_sequencing_event_id = a.accepted_request_sequencing_event_id;
  accepted_request = a.accepted_request;
}

-- The acceptance that a machine sends.
abbrev accepts : SharedState → Request → Acceptance
accepts dat request = record {
  accepted_request_message_id = dat.message_id;
  accepted_request_sequencing_event_id = dat.event_seq_id;
  accepted_request = some request;
}

-- A machine that is new from a message.
record IsNew (im : IncomingProtocolMessage) (m : UpdateMachine) : Type 0 where
  seq : ℕ
  meta : Meta
  input : Updates.Input
  sequenced : im.sequencing_id ≡ some (event_id seq)
  has_meta : im.update_request.meta ≡ some meta
  has_input : im.update_request.input ≡ some input
  is :
      m
      ≡ from_parts UpdateFsm (request_initiated im.update_request) (record {
        message_id = im.id;
        instance_id = im.protocol_instance_id;
        event_seq_id = seq;
        meta = meta;
      })

new_update-IsNew :
    (replaying : Bool) (im : IncomingProtocolMessage) (m : UpdateMachine) (job : MachineResponse)
    → new_update replaying im ≡ ok (m, job)
    → IsNew im m
unfolding new_update init
new_update-IsNew replaying im m job h =
    go im.sequencing_id refl im.update_request.meta refl im.update_request.input refl h
  where
    go :
        (s : Option SequencingId)
        → im.sequencing_id ≡ s
        → (t : Option Meta) → im.update_request.meta ≡ t
        → (i : Option Updates.Input) → im.update_request.input ≡ i
        → new_update replaying im ≡ ok (m, job)
        → IsNew im m
    go (some (event_id seq)) e (some meta) f (some input) g h' = record {
      seq = seq;
      meta = meta;
      input = input;
      sequenced = e;
      has_meta = f;
      has_input = g;
      is = ground (arith, e, f, g, h');
    }
    go (some (event_id seq)) e none f i g h' = ground (arith, e, f, h')
    go (some (event_id seq)) e (some meta) f none g h' = ground (arith, e, f, g, h')
    go (some (command_index n)) e t f i g h' = ground (arith, e, h')
    go none e t f i g h' = ground (arith, e, h')

-- What it sends when lang accepts.
accept-says :
    (encode : UpdateMsg → Option Text) (request : Request) (dat : SharedState) (n : UpdateMachine)
    (sent : ProtocolMessage) (rest : List MachineResponse)
    → handle_response encode
        (from_parts UpdateFsm (request_initiated request) dat)
        (some UpdateResponse.accepted)
      ≡ (n, ok (issue_new_message sent ∷ rest))
    → (v : Text) × (encode (acceptance (accepts dat request)) ≡ some v)
      × (sent.protocol_instance_id ≡ dat.instance_id)
      × (Option.map (λ b. b.value) sent.body ≡ some v)
unfolding handle_response on_event transition process_machine_commands adapt_response
    build_command_msg build_msg
accept-says encode request dat n sent rest h = go (encode (acceptance (accepts dat request))) refl h
  where
    go :
        (o : Option Text)
        → encode (acceptance (accepts dat request)) ≡ o
        → handle_response encode
            (from_parts UpdateFsm (request_initiated request) dat)
            (some UpdateResponse.accepted)
          ≡ (n, ok (issue_new_message sent ∷ rest))
        → (v : Text) × (encode (acceptance (accepts dat request)) ≡ some v)
          × (sent.protocol_instance_id ≡ dat.instance_id)
          × (Option.map (λ b. b.value) sent.body ≡ some v)
    go none e h' = ground (arith, e, h')
    go (some v) e h' = (v, e, ground (arith, e, h'), ground (arith, e, h'))

-- A request with both fields is an update's.
update_request_lem :
    (r : Request) (meta : Meta) (input : Updates.Input)
    → r.meta ≡ some meta
    → r.input ≡ some input
    → update_request r ≡ ok r
unfolding update_request
update_request_lem r meta input e f = ground (arith, e, f)

-- An event that holds that acceptance is read as the message.
event-read :
    (im : IncomingProtocolMessage) (m : UpdateMachine) (new : IsNew im m) (dat : SharedState)
    (e : HistoryEvent)
    → dat.message_id ≡ im.id
    → dat.event_seq_id ≡ new.seq
    → e.attributes
      ≡ some (
          Attributes.workflow_execution_update_accepted
            (recorded im.protocol_instance_id (accepts dat im.update_request)))
    → of_event e ≡ ok im
unfolding of_event
event-read im m new dat e p q t =
    let valid =
      update_request_lem im.update_request new.meta new.input new.has_meta new.has_input in
    rw (t, valid, p, q) (ap (λ s. ok (record im { sequencing_id = s })) (sym new.sequenced))

-- An update's request comes back on replay: where an incoming message starts an update and lang
-- accepts it, and the event on record holds what the acceptance says and the instance it was sent for,
-- then the event is read as the message that came in, with its id, its place in the history and its
-- request; provided that prost decodes what it encodes.
pub accepted_replays :
    (encode : UpdateMsg → Option Text) (decode : Text → Option UpdateMsg)
    → ((msg : UpdateMsg) (v : Text) → encode msg ≡ some v → decode v ≡ some msg)
    → (replaying : Bool) (im : IncomingProtocolMessage) (m n : UpdateMachine)
      (job : MachineResponse) (sent : ProtocolMessage) (rest : List MachineResponse) (body : Any)
      (a : Acceptance) (e : HistoryEvent)
    → new_update replaying im ≡ ok (m, job)
    → handle_response encode m (some UpdateResponse.accepted)
      ≡ (n, ok (issue_new_message sent ∷ rest))
    → sent.body ≡ some body
    → decode body.value ≡ some (acceptance a)
    → e.attributes
      ≡ some (Attributes.workflow_execution_update_accepted (recorded sent.protocol_instance_id a))
    → of_event e ≡ ok im
accepted_replays encode decode decodes replaying im m n job sent rest body a e h k b d t =
    let new = new_update-IsNew replaying im m job h in
    let dat : SharedState = record {
      message_id = im.id;
      instance_id = im.protocol_instance_id;
      event_seq_id = new.seq;
      meta = new.meta;
    } in
    let (v, encoded, instance, value) = accept-says encode im.update_request dat n sent rest (
      subst
        (λ u.
          handle_response encode u (some UpdateResponse.accepted)
          ≡ (n, ok (issue_new_message sent ∷ rest)))
        new.is k) in
    let same : body.value ≡ v =
      Option.some-injective _ _ (ap (Option.map (λ y. y.value)) (sym b) ∙ value) in
    let decoded : some (acceptance a) ≡ some (acceptance (accepts dat im.update_request)) =
      sym d ∙ ap decode same ∙ decodes _ v encoded in
    let said : a ≡ accepts dat im.update_request = cc in
    event-read im m new dat e refl refl (
      t
      ∙ ap (λ r. some (Attributes.workflow_execution_update_accepted r))
          (ap (λ r. recorded r a) instance ∙ ap (recorded im.protocol_instance_id) said))
