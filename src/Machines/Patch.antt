-- ===== src/Machines/Patch.antt =====
-- core/src/worker/workflow/machines/patch_state_machine.rs: the machine of a patch. Its table is here,
-- its marker in Patch/Markers.antt and its creation in Patch/Creation.antt.
mod Markers
mod Table
mod Creation
pub mod Ids
pub mod Upserts
pub mod Replay
unfoldable pub use Table.*
unfoldable pub use Markers.*
unfoldable pub use Creation.*
