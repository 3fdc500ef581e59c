-- ===== src/Proto/Updates.antt =====
-- The messages of the update protocol (temporal/api/update/v1, temporal/api/protocol/v1), with the
-- answers of lang (coresdk workflow_commands.proto).
use sdk_core.Prelude.{ℕ, Bool, Option, List, Text}
use sdk_core.Proto.Failures.{Payload, Payloads, Failure}

pub record Meta : Type 0 where
  pub update_id : Text
  pub identity : Text

pub record Input : Type 0 where
  pub header : Option (List (Text × Payload))
  pub name : Text
  pub args : Option Payloads

pub record Request : Type 0 where
  pub meta : Option Meta
  pub input : Option Input

pub record Acceptance : Type 0 where
  pub accepted_request_message_id : Text
  pub accepted_request_sequencing_event_id : ℕ
  pub accepted_request : Option Request

pub record Rejection : Type 0 where
  pub rejected_request_message_id : Text
  pub rejected_request_sequencing_event_id : ℕ
  pub rejected_request : Option Request
  pub failure : Option Failure

-- `outcome::Value`.
pub data OutcomeValue : Type 0 where
  success : Payloads → OutcomeValue
  failure : Failure → OutcomeValue

pub record Response : Type 0 where
  pub meta : Option Meta
  pub outcome : Option OutcomeValue

-- `prost_types::Any`.
pub record Any : Type 0 where
  pub type_url : Text
  pub value : Text

-- `protocol::v1::Message`. `sequencing_id` is left out: no outgoing message sets it.
pub record ProtocolMessage : Type 0 where
  pub id : Text
  pub protocol_instance_id : Text
  pub body : Option Any

-- `message::SequencingId`.
pub data SequencingId : Type 0 where
  event_id : ℕ → SequencingId
  command_index : ℕ → SequencingId

-- A `Message` that comes in.
pub record Message : Type 0 where
  pub id : Text
  pub protocol_instance_id : Text
  pub sequencing_id : Option SequencingId
  pub body : Option Any

pub record DoUpdate : Type 0 where
  pub id : Text
  pub protocol_instance_id : Text
  pub name : Text
  pub input : List Payload
  pub headers : List (Text × Payload)
  pub meta : Option Meta
  pub run_validator : Bool

-- `update_response::Response`.
pub data UpdateResponse : Type 0 where
  accepted : UpdateResponse
  rejected : Failure → UpdateResponse
  completed : Payload → UpdateResponse
