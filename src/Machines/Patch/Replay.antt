-- ===== src/Machines/Patch/Replay.antt =====
-- A patch's machine and the marker in the history: the one that it recorded itself, or another's.
use mathlib.Core.Option
use sdk_core.Prelude.{
  Bool, true, false, if◌then◌else◌, Option, none, some, List, [], ◌∷◌, ◌++◌, ◌>>=◌, Text, text_eq,
  Outcome, ok, err, ◌≡◌, refl, Bool-cases, inl, inr, ok-injective,
}
use sdk_core.Fsm.{from_parts, on_event}
use sdk_core.Flags.{InternalFlags}
use sdk_core.Proto.{
  Failure, CommandType, CommandAttributes, EventType, HistoryEvent, HistEventData, Attributes,
  Details, json_payload, is_json_payload, get,
}
use sdk_core.Machines.{
  WfMachinesError, nondeterminism, MachineResponse, finish, process_machine_commands,
  handle_command, handle_event,
}
use sdk_core.Machines.Inputs.{history, command, step, run_inputs}
use sdk_core.Machines.OneShot.{no_cancel}
use sdk_core.Machines.Patch.{
  PatchJson, patch_marker_name, patched_marker_details_key, build_has_change_marker_details,
  decode_change_marker_details, get_patch_marker_details, has_change, schedule_patch, PatchMachine,
  PatchFsm, patch, marker_recorded, notified, marker_command_recorded, transition, event_of_command,
  event_of_history,
}
use sdk_core.Machines.Patch.Upserts.{has_change-Says}

-- The marker of a patch in the history.
pub record IsMarkerOf (json : PatchJson) (id : Text) (deprecated : Bool) (e : HistoryEvent)
    : Type 0 where
  pub details : Details
  pub failure : Option Failure
  pub builds : build_has_change_marker_details json id deprecated ≡ some details
  pub of_type : e.event_type ≡ EventType.marker_recorded
  pub holds : e.attributes ≡ some (Attributes.marker_recorded patch_marker_name details failure)

-- The JSON of a marker reads back.
abbrev pub ReadsBack : PatchJson → Type 0
ReadsBack json =
    (id text : Text) (deprecated : Bool)
    → json.print id deprecated ≡ some text
    → json.parse text ≡ some (id, deprecated)

-- The details that are built read back, from an event that holds them.
details_read :
    (json : PatchJson) (id text : Text) (deprecated : Bool) (details : Details)
    (failure : Option Failure)
    → json.parse text ≡ some (id, deprecated)
    → some ((patched_marker_details_key, json_payload text ∷ []) ∷ []) ≡ some details
    → decode_change_marker_details json details ≡ some (id, deprecated)
unfolding decode_change_marker_details json_payload is_json_payload get text_eq
details_read json id text deprecated details failure r d =
    rw (← Option.some-injective _ _ d, r) refl

marker_read :
    (json : PatchJson)
    → ReadsBack json
    → (id : Text) (deprecated : Bool) (e : HistoryEvent) → IsMarkerOf json id deprecated e
    → get_patch_marker_details json e ≡ some (id, deprecated)
unfolding get_patch_marker_details build_has_change_marker_details text_eq
marker_read json reads id deprecated e k = go (json.print id deprecated) refl k.builds
  where
    go :
        (o : Option Text)
        → json.print id deprecated ≡ o
        → build_has_change_marker_details json id deprecated ≡ some k.details
        → get_patch_marker_details json e ≡ some (id, deprecated)
    go none p b = cc
    go (some text) p b =
        let d : some ((patched_marker_details_key, json_payload text ∷ []) ∷ []) ≡ some k.details =
          rw (p, build_has_change_marker_details) at b in
        rw (k.of_type, k.holds)
          (details_read json id text deprecated k.details k.failure (reads id text deprecated p) d)

abbrev recorded : Text → PatchMachine
recorded patch_id = from_parts PatchFsm marker_command_recorded (record { patch_id = patch_id })

abbrev notified_machine : Text → PatchMachine
notified_machine patch_id = from_parts PatchFsm notified (record { patch_id = patch_id })

-- The command goes out.
sent-notified :
    (json : PatchJson) (patch_id : Text) (replays : Bool) (m : PatchMachine)
    → schedule_patch patch_id replays ≡ ok m
    → step (patch json) (no_cancel (patch json)) m (command CommandType.record_marker)
      ≡ (notified_machine patch_id, ok [])
unfolding schedule_patch on_event transition step handle_command finish process_machine_commands
    event_of_command
sent-notified json patch_id true m scheduled = rw (← ok-injective scheduled) refl
sent-notified json patch_id false m scheduled = rw (← ok-injective scheduled) refl

-- The event of a marker comes.
marked :
    (json : PatchJson) (patch_id id : Text) (deprecated : Bool) (d : HistEventData)
    → get_patch_marker_details json d.event ≡ some (id, deprecated)
    → run_inputs (patch json) (no_cancel (patch json)) (notified_machine patch_id) (history d ∷ [])
      ≡ (if text_eq id patch_id then ok (recorded patch_id, []) else err nondeterminism)
unfolding on_event transition step run_inputs handle_event finish process_machine_commands
    event_of_history
marked json patch_id id deprecated d found =
    let read : event_of_history json d ≡ ok (marker_recorded id) =
      rw (found, event_of_history) refl in
    elim (Bool-cases (text_eq id patch_id)) [
      | inl same ↦ rw (read, handle_event, same) refl
      | inr other ↦ rw (read, handle_event, other) refl
    ]

-- Nothing more is said.
if_nothing :
    (b : Bool) (m : PatchMachine)
    → let r : Outcome WfMachinesError (PatchMachine × List MachineResponse) =
        if b then ok (m, []) else err nondeterminism in
      (r >>= (λ rest. ok (rest.0, [] ++ rest.1))) ≡ r
if_nothing true m = refl
if_nothing false m = refl

-- Once the command of a patch that was created without an error has gone out, the event of a marker
-- that holds the details of a patch puts the machine in its final state if the patch is the machine's
-- own, deprecated or not on either side, and is refused as nondeterminism if it is another; provided
-- that the JSON of a marker reads back.
pub patch_replays :
    (json : PatchJson)
    → ReadsBack json
    → (patch_id : Text) (replays deprecated seen : Bool) (existing : List Text)
      (flags flags' : InternalFlags) (c : CommandAttributes) (m : PatchMachine)
      (rs : List MachineResponse)
    → has_change json patch_id replays deprecated seen existing flags ≡ (flags', ok ((c, m), rs))
    → (id : Text) (deprecated' : Bool) (d : HistEventData) → IsMarkerOf json id deprecated' d.event
    → run_inputs
        (patch json)
        (no_cancel (patch json))
        m
        (command CommandType.record_marker ∷ history d ∷ [])
      ≡ (if text_eq id patch_id then ok (recorded patch_id, []) else err nondeterminism)
unfolding run_inputs
patch_replays json reads patch_id replays deprecated seen existing flags flags' c m rs h id
      deprecated' d k =
    let (_, _, _, scheduled, _) =
      has_change-Says json patch_id existing replays seen flags deprecated flags' c m rs h in
    rw (sent-notified json patch_id replays m scheduled) (
      rw (marked json patch_id id deprecated' d (marker_read json reads id deprecated' d.event k))
        (if_nothing (text_eq id patch_id) (recorded patch_id)))
