-- ===== src/Tests/PatchTests.antt =====
-- patch_state_machine.rs on a patch of a workflow that has had another, with a JSON of one byte for
-- the flag and commas between ids.
use mathlib.Core.Option
use sdk_core.Prelude.{
  ℕ, Bool, true, false, Option, none, some, List, [], ◌∷◌, ◌++◌, Text, codes, text_eq, ok, err, ◌≡◌,
  refl, if◌then◌else◌, ◌==◌,
}
use sdk_core.Fsm.{from_parts, on_event}
use sdk_core.Flags.{InternalFlags, new, try_use, upsert_search_attribute_on_patch}
use sdk_core.Proto.{
  CommandType, CommandAttributes, EventType, HistEventData, Attributes, Details, json_payload,
}
use sdk_core.Machines.{MachineResponse, nondeterminism}
use sdk_core.Machines.Inputs.{command, history, run_inputs}
use sdk_core.Machines.OneShot.{no_cancel}
use sdk_core.Machines.Patch.{
  PatchJson, patch, PatchMachine, PatchFsm, patch_marker_name, patched_marker_details_key,
  build_has_change_marker_details, has_change, schedule_patch, with_details, marker_command_created,
  upsert_command, maybe_upsert_cmd, upsert_if_small, insert_id, id_set, transition,
  marker_command_recorded,
}
use sdk_core.Machines.Patch.Upserts.{has_change-Says, Says, skips}
use sdk_core.Machines.Patch.Replay.{ReadsBack, IsMarkerOf, patch_replays}

flag_of : Bool → ℕ
flag_of true = 1
flag_of false = 0

abbrev read_flag : Text → Option (Text × Bool)
read_flag [] = none
read_flag (b ∷ s) = some (s, b == 1)

abbrev print_flag : Text → Bool → Option Text
print_flag id true = some (1 ∷ id)
print_flag id false = some (0 ∷ id)

abbrev joined : List Text → Text
joined [] = []
joined (x ∷ xs) = x ++ (44 ∷ joined xs)

abbrev json : PatchJson
json = record { print = print_flag; parse = read_flag; print_ids = λ ids. some (joined ids) }

json-ReadsBack : ReadsBack json
json-ReadsBack id text true h = rw (← Option.some-injective _ _ h) refl
json-ReadsBack id text false h = rw (← Option.some-injective _ _ h) refl

abbrev details_of : Bool → Details
details_of true = (patched_marker_details_key, json_payload (1 ∷ codes "b") ∷ []) ∷ []
details_of false = (patched_marker_details_key, json_payload (0 ∷ codes "b") ∷ []) ∷ []

abbrev machine : PatchMachine
machine = from_parts PatchFsm marker_command_created (record { patch_id = codes "b" })

abbrev command_of : CommandAttributes
command_of = CommandAttributes.record_marker patch_marker_name (details_of false) none

abbrev responses : List MachineResponse
responses = upsert_command (codes "a,b,") ∷ []

abbrev fresh : InternalFlags
fresh = new true [] []

abbrev flagged : InternalFlags
flagged = (try_use fresh upsert_search_attribute_on_patch true).0

created :
    has_change json (codes "b") false false false (codes "a" ∷ codes "b" ∷ []) fresh
    ≡ (flagged, ok ((command_of, machine), responses))
unfolding has_change with_details schedule_patch maybe_upsert_cmd upsert_if_small insert_id id_set
    build_has_change_marker_details try_use new transition on_event
created = refl

has_change-Says_example :
    (details : Details) × (build_has_change_marker_details json (codes "b") false ≡ some details)
    × (command_of ≡ CommandAttributes.record_marker patch_marker_name details none)
    × (schedule_patch (codes "b") false ≡ ok machine)
    × Says json
        (codes "b")
        (codes "a" ∷ codes "b" ∷ [])
        (skips json (codes "b") (codes "a" ∷ codes "b" ∷ []) false false fresh)
        responses
has_change-Says_example =
    has_change-Says json (codes "b") (codes "a" ∷ codes "b" ∷ []) false false fresh false flagged
      command_of machine responses created

-- The marker of the patch, deprecated by now.
abbrev marker : HistEventData
marker = record {
  event = record {
    event_id = 5;
    event_type = EventType.marker_recorded;
    event_time = none;
    attributes = some (Attributes.marker_recorded patch_marker_name (details_of true) none);
  };
  replaying = true;
  current_task_is_last_in_history = false;
}

marker-IsMarkerOf : IsMarkerOf json (codes "b") true marker.event
unfolding build_has_change_marker_details
marker-IsMarkerOf = record {
  details = details_of true;
  failure = none;
  builds = refl;
  of_type = refl;
  holds = refl;
}

patch_replays_example :
    run_inputs
      (patch json)
      (no_cancel (patch json))
      machine
      (command CommandType.record_marker ∷ history marker ∷ [])
    ≡ (if text_eq (codes "b") (codes "b")
        then ok (from_parts PatchFsm marker_command_recorded (record { patch_id = codes "b" }), [])
        else err nondeterminism)
patch_replays_example =
    patch_replays json json-ReadsBack (codes "b") false false false (codes "a" ∷ codes "b" ∷ [])
      fresh flagged command_of machine responses created (codes "b") true marker marker-IsMarkerOf
