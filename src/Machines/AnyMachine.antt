-- ===== src/Machines/AnyMachine.antt =====
-- The enum `Machines` of core/src/worker/workflow/machines/mod.rs, without the machines of Nexus
-- operations.
use sdk_core.Prelude.{Bool, false, Option, none, some, Outcome, ok, err, panicked}
use sdk_core.Machines.{WfMachinesError}
use sdk_core.Machines.Activity
use sdk_core.Machines.CancelExternal
use sdk_core.Machines.ChildWorkflow
use sdk_core.Machines.Endings.Complete
use sdk_core.Machines.Endings.Fail
use sdk_core.Machines.Endings.Cancel
use sdk_core.Machines.Endings.ContinueAsNew
use sdk_core.Machines.LocalActivity
use sdk_core.Machines.ModifyProperties
use sdk_core.Machines.Patch
use sdk_core.Machines.SignalExternal
use sdk_core.Machines.Timer
use sdk_core.Machines.Update
use sdk_core.Machines.UpsertSearchAttributes
use sdk_core.Machines.WorkflowTask

pub data AnyMachine : Type 0 where
  activity : Activity.ActivityMachine → AnyMachine
  cancel_external : CancelExternal.CancelExternalMachine → AnyMachine
  cancel_workflow : Cancel.CancelWorkflowMachine → AnyMachine
  child_workflow : ChildWorkflow.ChildWorkflowMachine → AnyMachine
  complete_workflow : Complete.CompleteWorkflowMachine → AnyMachine
  continue_as_new : ContinueAsNew.ContinueAsNewWorkflowMachine → AnyMachine
  fail_workflow : Fail.FailWorkflowMachine → AnyMachine
  local_activity : LocalActivity.LocalActivityMachine → AnyMachine
  patch : Patch.PatchMachine → AnyMachine
  signal_external : SignalExternal.SignalExternalMachine → AnyMachine
  timer : Timer.TimerMachine → AnyMachine
  workflow_task : WorkflowTask.WorkflowTaskMachine → AnyMachine
  upsert_search_attributes : UpsertSearchAttributes.UpsertSearchAttributesMachine → AnyMachine
  modify_workflow_properties : ModifyProperties.ModifyWorkflowPropertiesMachine → AnyMachine
  update : Update.UpdateMachine → AnyMachine

-- `was_cancelled_before_sent_to_server`. The method of a local activity's machine is always false.
unfoldable pub was_cancelled_before_sent_to_server : AnyMachine → Outcome WfMachinesError Bool
was_cancelled_before_sent_to_server (activity m) =
    ok (Activity.was_cancelled_before_sent_to_server m)
was_cancelled_before_sent_to_server (child_workflow m) =
    ok (ChildWorkflow.was_cancelled_before_sent_to_server m)
was_cancelled_before_sent_to_server (signal_external m) =
    elim (SignalExternal.was_cancelled_before_sent_to_server m) [
      | ok b ↦ ok b
      | err x ↦ panicked
      | panicked ↦ panicked
    ]
was_cancelled_before_sent_to_server (timer m) = ok (Timer.was_cancelled_before_sent_to_server m)
was_cancelled_before_sent_to_server _ = ok false

-- The patch machine that a machine may be.
unfoldable pub as_patch : AnyMachine → Option Patch.PatchMachine
as_patch (patch m) = some m
as_patch _ = none
