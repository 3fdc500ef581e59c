-- ===== src/Machines/Patch/Creation.antt =====
-- `has_change` of patch_state_machine.rs. A `BTreeSet` of ids is a list in ascending order.
use sdk_core.Prelude.{
  ℕ, Bool, true, false, not, ◌&&◌, ◌||◌, ◌==◌, ltb, leb, if◌then◌else◌, Option, none, some, List,
  [], ◌∷◌, length, Text, text_eq, Outcome, ok, err, panicked, ◌>>=◌,
}
use sdk_core.Fsm.{from_parts, on_event}
use sdk_core.Flags.{InternalFlags, try_use, upsert_search_attribute_on_patch}
use sdk_core.Proto.{CommandAttributes, Details, json_payload}
use sdk_core.Machines.{
  WfMachinesError, fatal, MachineResponse, new_core_originated_command, Responses,
}
use sdk_core.Machines.UpsertSearchAttributes.{version_search_attr_key}
use sdk_core.Machines.Patch.Markers.{PatchJson, patch_marker_name, build_has_change_marker_details}
use sdk_core.Machines.Patch.Table.{State, executing, replaying, schedule, PatchFsm, PatchMachine}

-- `Ord` for strings: that of their bytes.
unfoldable pub text_ltb : Text → Text → Bool
text_ltb [] [] = false
text_ltb [] (_ ∷ _) = true
text_ltb (_ ∷ _) [] = false
text_ltb (a ∷ s) (b ∷ t) = ltb a b || ((a == b) && text_ltb s t)

-- `BTreeSet::insert`.
unfoldable pub insert_id : Text → List Text → List Text
unfolding text_eq text_ltb
insert_id x [] = x ∷ []
insert_id x (y ∷ ys) =
    let rest = insert_id x ys in
    if text_eq x y then y ∷ ys else if text_ltb x y then x ∷ y ∷ ys else y ∷ rest

-- `BTreeSet::from_iter`.
unfoldable pub id_set : List Text → List Text
unfolding insert_id
id_set [] = []
id_set (x ∷ xs) = insert_id x (id_set xs)

-- `MAX_SEARCH_ATTR_PAYLOAD_SIZE`.
abbrev pub max_search_attr_payload_size : ℕ
max_search_attr_payload_size = 2048

abbrev pub upsert_command : Text → MachineResponse
upsert_command serialized = new_core_originated_command (
    CommandAttributes.upsert_workflow_search_attributes
      (some ((version_search_attr_key, json_payload serialized) ∷ [])))

-- What is done with the serialized ids.
unfoldable pub upsert_if_small : Option Text → Responses
unfolding json_payload
upsert_if_small none = err fatal
upsert_if_small (some serialized) =
    if leb max_search_attr_payload_size (length serialized)
    then ok []
    else ok (upsert_command serialized ∷ [])

abbrev pub initial_state : Bool → State
initial_state true = replaying
initial_state false = executing

-- The machine once it is scheduled; `panicked` is the panic of `expect`.
unfoldable pub schedule_patch : Text → Bool → Outcome WfMachinesError PatchMachine
unfolding on_event
schedule_patch patch_id replaying_when_invoked =
    let (m, r) =
      on_event PatchFsm
        (from_parts PatchFsm (initial_state replaying_when_invoked)
          (record { patch_id = patch_id }))
        schedule in
    elim r [ ok _ ↦ ok m | err _ ↦ panicked | panicked ↦ panicked ]

module _ (json : PatchJson) where
  -- `maybe_upsert_cmd`.
  unfoldable pub maybe_upsert_cmd : (skip : Bool) → Text → List Text → Responses
  unfolding upsert_if_small insert_id id_set
  maybe_upsert_cmd skip patch_id existing_patch_ids =
      if skip
      then ok []
      else upsert_if_small (json.print_ids (insert_id patch_id (id_set existing_patch_ids)))

  -- The part after the details are encoded, with the flags since it may note the use of one.
  unfoldable pub with_details :
      Text
      → (replaying_when_invoked seen_in_peekahead : Bool) → List Text
      → InternalFlags
      → Details
      → InternalFlags
        × Outcome WfMachinesError ((CommandAttributes × PatchMachine) × List MachineResponse)
  unfolding schedule_patch maybe_upsert_cmd try_use
  with_details patch_id replaying_when_invoked seen_in_peekahead existing flags details =
      let used = try_use flags upsert_search_attribute_on_patch (not replaying_when_invoked) in
      let skip = (replaying_when_invoked && not seen_in_peekahead) || not used.1 in
      (
        used.0,
        do
          m ← schedule_patch patch_id replaying_when_invoked
          rs ← maybe_upsert_cmd skip patch_id existing
          ok ((CommandAttributes.record_marker patch_marker_name details none, m), rs),
      )

  -- `has_change`.
  unfoldable pub has_change :
      (patch_id : Text) (replaying_when_invoked deprecated seen_in_peekahead : Bool)
      (existing_patch_ids : List Text)
      → InternalFlags
      → InternalFlags
        × Outcome WfMachinesError ((CommandAttributes × PatchMachine) × List MachineResponse)
  unfolding with_details
  has_change patch_id replaying_when_invoked deprecated seen_in_peekahead existing flags =
      elim (build_has_change_marker_details json patch_id deprecated) [
        | none ↦ (flags, err fatal)
        | some details ↦
            with_details patch_id replaying_when_invoked seen_in_peekahead existing flags details
      ]
