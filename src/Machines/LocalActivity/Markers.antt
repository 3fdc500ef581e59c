-- ===== src/Machines/LocalActivity/Markers.antt =====
-- The details of a local activity's marker: how they are built and read
-- (`build_local_activity_marker_details` and its inverse in sdk-core-protos/src/lib.rs,
-- `into_local_activity_marker_details` in core/src/protosext/mod.rs).
use sdk_core.Prelude.{Option, none, some, [], ◌∷◌, ◌++◌, if◌then◌else◌, Text, codes, text_eq}
use sdk_core.Proto.{
  Payload, Payloads, Failure, EventType, HistoryEvent, Attributes, LocalActivityMarkerData,
  MarkerResult, CompleteLocalActivityData, Details, get, first, and_then, json_payload,
}

-- `serde_json` on the data of a marker. A print that fails is `none`; so is the reading of a text
-- that is no UTF-8 or no such data.
pub record MarkerJson : Type 0 where
  pub print : LocalActivityMarkerData → Option Text
  pub parse : Text → Option LocalActivityMarkerData

abbrev pub local_activity_marker_name : Text
local_activity_marker_name = codes "core_local_activity"

-- `pop`.
unfoldable pub last : Payloads → Option Payload
last [] = none
last (p ∷ []) = some p
last (p ∷ q ∷ ps) = last (q ∷ ps)

unfoldable pub empty_payload : Payload
empty_payload = record { metadata = []; body = [] }

entry : Text → Option Payload → Details
entry key none = []
entry key (some p) = (key, p ∷ []) ∷ []

printed : Option Text → Option Payload
unfolding json_payload
printed none = none
printed (some s) = some (json_payload s)

-- `match (ok_res, failure)`.
marker_result : Option Payload → Option Failure → MarkerResult
unfolding empty_payload
marker_result (some r) none = MarkerResult.succeeded r
marker_result none none = MarkerResult.succeeded empty_payload
marker_result _ (some f) = MarkerResult.failed f

module _ (json : MarkerJson) where
  unfoldable pub build_local_activity_marker_details :
      LocalActivityMarkerData → Option Payload → Details
  unfolding entry printed
  build_local_activity_marker_details metadata result =
      entry (codes "data") (printed (json.print metadata)) ++ entry (codes "result") result

  unfoldable pub extract_local_activity_marker_data : Details → Option LocalActivityMarkerData
  unfolding and_then get first
  extract_local_activity_marker_data details =
      and_then (and_then (get (codes "data") details) first) (λ p. json.parse p.body)

  -- The map that is left is dropped by the only caller.
  unfoldable pub extract_local_activity_marker_details :
      Details → Option LocalActivityMarkerData × Option Payload
  unfolding extract_local_activity_marker_data and_then get last
  extract_local_activity_marker_details details =
      (extract_local_activity_marker_data details, and_then (get (codes "result") details) last)

  complete_data : Option LocalActivityMarkerData → MarkerResult → Option CompleteLocalActivityData
  complete_data none r = none
  complete_data (some d) r = some (record { marker_dat = d; result = r })

  marker_details : Option Attributes → Option CompleteLocalActivityData
  unfolding extract_local_activity_marker_details complete_data marker_result text_eq
  marker_details (some (Attributes.marker_recorded name details failure)) =
      if text_eq name local_activity_marker_name
      then (let read = extract_local_activity_marker_details details in
          complete_data read.0 (marker_result read.1 failure))
      else none
  marker_details _ = none

  of_marker_type : EventType → Option Attributes → Option CompleteLocalActivityData
  unfolding marker_details
  of_marker_type EventType.marker_recorded a = marker_details a
  of_marker_type _ a = none

  unfoldable pub into_local_activity_marker_details :
      HistoryEvent → Option CompleteLocalActivityData
  unfolding of_marker_type
  into_local_activity_marker_details e = of_marker_type e.event_type e.attributes
