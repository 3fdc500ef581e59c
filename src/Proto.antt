-- ===== src/Proto.antt =====
-- The generated and hand-written protobuf types (sdk-core-protos) that the state machines exchange
-- with lang and the server. A text is its bytes; an id, a sequence number or a count of nanoseconds
-- is a number.
mod Enums
mod Failures
mod LocalActivities
mod Markers
pub mod Updates
mod Events
mod Commands
mod Jobs
unfoldable pub use Enums.*
unfoldable pub use Failures.*
unfoldable pub use LocalActivities.*
unfoldable pub use Markers.*
pub use Updates.{
  Meta, Request, Acceptance, Rejection, OutcomeValue, Response, Any, ProtocolMessage, DoUpdate,
  UpdateResponse,
}
unfoldable pub use Events.*
unfoldable pub use Commands.*
unfoldable pub use Jobs.*
