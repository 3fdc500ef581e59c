-- ===== src/Machines/Endings.antt =====
-- The machines that end a workflow (core/src/worker/workflow/machines/), one to a file.
pub mod Complete
pub mod Fail
pub mod Cancel
pub mod ContinueAsNew
