-- ===== src/Machines/LocalActivity/Roundtrip.antt =====
-- What a local activity's marker keeps: building its details and reading them back.
use sdk_core.Prelude.{Option, none, some, Text, text_eq, ◌≡◌, arith}
use sdk_core.Proto.{
  Payload, Failure, EventType, HistoryEvent, Attributes, LocalActivityMarkerData, MarkerResult,
}
use sdk_core.Machines.LocalActivity.{
  MarkerJson, local_activity_marker_name, build_local_activity_marker_details, empty_payload,
  into_local_activity_marker_details,
}

-- What a marker's result and failure come back as: the failure if there is one, else the result, and
-- an empty payload where there is neither.
abbrev pub read_back : Option Payload → Option Failure → MarkerResult
read_back r (some f) = MarkerResult.failed f
read_back (some p) none = MarkerResult.succeeded p
read_back none none = MarkerResult.succeeded empty_payload

-- A marker that is recorded with the details built from data and a result reads back as the same
-- data, and as the failure if it has one, else the result, else an empty payload; provided that the
-- data prints, and that the print parses to it.
pub marker-roundtrip :
    (json : MarkerJson) (d : LocalActivityMarkerData) (r : Option Payload) (f : Option Failure)
    (text : Text) (e : HistoryEvent)
    → json.print d ≡ some text
    → json.parse text ≡ some d
    → e.event_type ≡ EventType.marker_recorded
    → e.attributes
      ≡ some (
          Attributes.marker_recorded local_activity_marker_name
            (build_local_activity_marker_details json d r)
            f)
    → into_local_activity_marker_details json e
      ≡ some (record { marker_dat = d; result = read_back r f })
unfolding into_local_activity_marker_details build_local_activity_marker_details text_eq
marker-roundtrip json d none none text e p q t a = rw (t, a, p) (ground arith)
marker-roundtrip json d none (some f) text e p q t a = rw (t, a, p) (ground arith)
marker-roundtrip json d (some r) none text e p q t a = rw (t, a, p) (ground arith)
marker-roundtrip json d (some r) (some f) text e p q t a = rw (t, a, p) (ground arith)
