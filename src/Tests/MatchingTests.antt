-- ===== src/Tests/MatchingTests.antt =====
-- The queue of a workflow that called for a patch and two timers, and cancelled the first of these.
use sdk_core.Prelude.{
  ℕ, zero, suc, Bool, true, false, Option, none, some, List, [], ◌∷◌, codes, ok, ◌≡◌, refl, All,
}
use sdk_core.Fsm.{from_parts}
use sdk_core.Proto.{EventType, HistoryEvent, Attributes, json_payload}
use sdk_core.Machines.Timer
use sdk_core.Machines.Patch
use sdk_core.Machines.Patch.{
  PatchJson, PatchFsm, patch_marker_name, patched_marker_details_key, get_patch_marker_details,
  decode_change_marker_details, matches_patch,
}
use sdk_core.Machines.AnyMachine.{AnyMachine, was_cancelled_before_sent_to_server}
use sdk_core.Machines.Matching.{
  CommandAndMachine, fake_local_activity_marker, skips, feeds, consume, handling, upserts_versions,
}
use sdk_core.Machines.Matching.First.{Finds, Present, consume-Finds}

-- Any data is the marker of the patch `b`, deprecated.
abbrev json : PatchJson
json = record {
  print = λ id deprecated. some id;
  parse = λ s. some (codes "b", true);
  print_ids = λ ids. none;
}

abbrev timer_machine : ℕ → Bool → AnyMachine
timer_machine n cancelled = AnyMachine.timer (
    from_parts Timer.TimerFsm Timer.start_command_created (record {
      attrs = record { seq = n; start_to_fire_timeout = none };
      cancelled_before_sent = cancelled;
    }))

abbrev patch_machine : AnyMachine
patch_machine =
    AnyMachine.patch (from_parts PatchFsm Patch.notified (record { patch_id = codes "a" }))

abbrev machines : ℕ → Option AnyMachine
machines zero = some patch_machine
machines (suc zero) = some (timer_machine 1 true)
machines (suc (suc zero)) = some (timer_machine 2 false)
machines _ = none

-- What the commands say does not matter here.
abbrev of_machine : ℕ → CommandAndMachine
of_machine n = record { command = fake_local_activity_marker 0; machine = n }

abbrev queue : List CommandAndMachine
queue = of_machine 0 ∷ of_machine 1 ∷ of_machine 2 ∷ []

abbrev event_with : EventType → Option Attributes → HistoryEvent
event_with t a = record { event_id = 5; event_type = t; event_time = none; attributes = a }

abbrev timer_event : HistoryEvent
timer_event = event_with EventType.timer_started none

-- The patch and the cancelled timer are passed over.
timer_test : consume json timer_event none machines queue ≡ ok (feeds (of_machine 2) [])
unfolding consume get_patch_marker_details handling was_cancelled_before_sent_to_server
    Timer.was_cancelled_before_sent_to_server
timer_test = refl

abbrev marker_event : HistoryEvent
marker_event = event_with EventType.marker_recorded (
    some (
      Attributes.marker_recorded patch_marker_name
        ((patched_marker_details_key, json_payload [] ∷ []) ∷ []) none))

-- A deprecated marker of another patch is ignored.
marker_test : consume json marker_event none machines queue ≡ ok (skips false queue)
unfolding consume get_patch_marker_details handling decode_change_marker_details json_payload
    matches_patch upserts_versions
marker_test = refl

queue-Present : All (Present json timer_event none machines) queue
unfolding was_cancelled_before_sent_to_server Timer.was_cancelled_before_sent_to_server
queue-Present = (
  (patch_machine, refl, (false, refl)),
  ((timer_machine 1 true, refl, (true, refl)), ((timer_machine 2 false, refl, (false, refl)), tt)),
)

consume-Finds_example :
    Finds json timer_event none machines queue (consume json timer_event none machines queue)
consume-Finds_example = consume-Finds json timer_event none machines queue queue-Present
