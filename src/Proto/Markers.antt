-- ===== src/Proto/Markers.antt =====
-- The details of a marker, a map from keys to payloads, and JSON payloads (`AsJsonPayloadExt` and
-- `FromJsonPayloadExt` of sdk-core-protos/src/lib.rs).
use sdk_core.Prelude.{
  Bool, false, Option, none, some, List, [], ◌∷◌, if◌then◌else◌, Text, codes, text_eq,
}
use sdk_core.Proto.Failures.{Payload, Payloads}

abbrev pub Details : Type 0
Details = List (Text × Payloads)

-- The entry of a key in a map.
unfoldable pub get {ℓ} : {A : Type ℓ} → Text → List (Text × A) → Option A
get k [] = none
get k ((j, v) ∷ m) = if text_eq j k then some v else get k m

unfoldable pub first : Payloads → Option Payload
first [] = none
first (p ∷ ps) = some p

unfoldable pub and_then : {A B : Type 0} → Option A → (A → Option B) → Option B
and_then none f = none
and_then (some a) f = f a

abbrev pub encoding_payload_key : Text
encoding_payload_key = codes "encoding"

abbrev pub json_encoding_val : Text
json_encoding_val = codes "json/plain"

-- `as_json_payload`, of what `serde_json` prints.
unfoldable pub json_payload : Text → Payload
json_payload s = record { metadata = (encoding_payload_key, json_encoding_val) ∷ []; body = s }

unfoldable pub is_json_payload : Payload → Bool
unfolding get
is_json_payload p = elim (get encoding_payload_key p.metadata) [
  | none ↦ false
  | some v ↦ text_eq v json_encoding_val
]
