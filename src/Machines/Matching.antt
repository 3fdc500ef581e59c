-- ===== src/Machines/Matching.antt =====
-- How the workflow machines find the command of a command event: `patch_marker_handling` and the loop
-- of `handle_command_event` in core/src/worker/workflow/machines/workflow_machines.rs.
pub mod First
use sdk_core.Prelude.{
  ℕ, Bool, true, false, not, ◌&&◌, if◌then◌else◌, Option, none, some, List, [], ◌∷◌, Text, Outcome,
  ok, err, panicked,
}
use sdk_core.Proto.{HistoryEvent, Attributes}
use sdk_core.Machines.{WfMachinesError, nondeterminism, ProtoCommand}
use sdk_core.Machines.UpsertSearchAttributes.{version_search_attr_key, contains_key}
use sdk_core.Machines.Patch.{PatchJson, PatchMachine, matches_patch, get_patch_marker_details}
use sdk_core.Machines.AnyMachine.{AnyMachine, as_patch, was_cancelled_before_sent_to_server}

pub data EventHandlingOutcome : Type 0 where
  skip_event : (skip_next_event : Bool) → EventHandlingOutcome
  skip_command normal : EventHandlingOutcome

pub data MachineAssociatedCommand : Type 0 where
  real : ProtoCommand → MachineAssociatedCommand
  fake_local_activity_marker : (seq : ℕ) → MachineAssociatedCommand

-- The key of a machine is a number.
pub record CommandAndMachine : Type 0 where
  pub command : MachineAssociatedCommand
  pub machine : ℕ

-- Whether an event upserts the search attribute that lists the patches.
unfoldable pub upserts_versions : Option HistoryEvent → Bool
unfolding contains_key
upserts_versions none = false
upserts_versions (some e) = elim e.attributes [
  | some (Attributes.upsert_workflow_search_attributes (some m)) ↦
      contains_key version_search_attr_key m
  | _ ↦ false
]

-- `patch_marker_handling`, of the details of the event's marker and of a patch machine.
unfoldable pub handling :
    Option (Text × Bool)
    → Option PatchMachine
    → (next_event : Option HistoryEvent) → Outcome WfMachinesError EventHandlingOutcome
unfolding matches_patch upserts_versions
handling (some (patch_name, deprecated)) (some pm) next_event =
    if not (matches_patch pm patch_name) && deprecated
    then ok (skip_event (upserts_versions next_event))
    else ok normal
handling (some (patch_name, true)) none next_event = ok (skip_event (upserts_versions next_event))
handling (some (patch_name, false)) none next_event = err nondeterminism
handling none (some pm) next_event = ok skip_command
handling none none next_event = ok normal

unfoldable pub patch_of : Option AnyMachine → Option PatchMachine
unfolding as_patch
patch_of none = none
patch_of (some m) = as_patch m

-- How the loop ends: the event is skipped, with the commands that are left; or a command is taken
-- from the queue, whose machine is fed the event.
pub data Matched : Type 0 where
  skips : (skip_next_event : Bool) (commands : List CommandAndMachine) → Matched
  feeds : (command : CommandAndMachine) (commands : List CommandAndMachine) → Matched

module _ (json : PatchJson) (event : HistoryEvent) (next_event : Option HistoryEvent) where
  unfoldable pub patch_marker_handling :
      Option AnyMachine → Outcome WfMachinesError EventHandlingOutcome
  unfolding handling patch_of
  patch_marker_handling mach =
      handling (get_patch_marker_details json event) (patch_of mach) next_event

  -- Where the queue is empty: `patch_marker_handling` skips no command without a machine.
  unfoldable pub on_empty :
      Outcome WfMachinesError EventHandlingOutcome → Outcome WfMachinesError Matched
  on_empty (ok (skip_event b)) = ok (skips b [])
  on_empty (ok _) = err nondeterminism
  on_empty (err e) = err e
  on_empty panicked = panicked

  -- The command at the front is taken unless it was cancelled.
  unfoldable pub on_normal :
      CommandAndMachine
      → List CommandAndMachine
      → Outcome WfMachinesError Matched
      → (cancelled : Outcome WfMachinesError Bool) → Outcome WfMachinesError Matched
  on_normal c cs rest (ok true) = rest
  on_normal c cs rest (ok false) = ok (feeds c cs)
  on_normal c cs rest (err e) = err e
  on_normal c cs rest panicked = panicked

  -- Where a command is at its front, given what comes of the queue without it.
  unfoldable pub on_front :
      CommandAndMachine
      → List CommandAndMachine
      → (cancelled : Outcome WfMachinesError Bool) → (rest : Outcome WfMachinesError Matched)
      → Outcome WfMachinesError EventHandlingOutcome
      → Outcome WfMachinesError Matched
  unfolding on_normal
  on_front c cs cancelled rest (ok skip_command) = rest
  on_front c cs cancelled rest (ok (skip_event b)) = ok (skips b (c ∷ cs))
  on_front c cs cancelled rest (ok normal) = on_normal c cs rest cancelled
  on_front c cs cancelled rest (err e) = err e
  on_front c cs cancelled rest panicked = panicked

  -- A key without a machine panics.
  unfoldable pub at_front :
      CommandAndMachine
      → List CommandAndMachine
      → (rest : Outcome WfMachinesError Matched) → Option AnyMachine
      → Outcome WfMachinesError Matched
  unfolding on_front patch_marker_handling
  at_front c cs rest none = panicked
  at_front c cs rest (some mach) =
      on_front c cs (was_cancelled_before_sent_to_server mach) rest
        (patch_marker_handling (some mach))

  -- The loop, over the queue of commands.
  unfoldable pub consume :
      (machine : ℕ → Option AnyMachine) → List CommandAndMachine → Outcome WfMachinesError Matched
  unfolding on_empty at_front patch_marker_handling
  consume machine [] = on_empty (patch_marker_handling none)
  consume machine (c ∷ cs) = let rest = consume machine cs in at_front c cs rest (machine c.machine)
