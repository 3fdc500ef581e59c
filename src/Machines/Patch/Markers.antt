-- ===== src/Machines/Patch/Markers.antt =====
-- The details of a patch's marker: `build_has_change_marker_details` and
-- `decode_change_marker_details` of sdk-core-protos/src/lib.rs, and `get_patch_marker_details` of
-- core/src/protosext/mod.rs.
use sdk_core.Prelude.{
  ℕ, zero, suc, Bool, true, false, not, ◌&&◌, ◌==◌, leb, if◌then◌else◌, Option, none, some, List,
  [], ◌∷◌, Text, codes, text_eq, ◌≡◌, refl,
}
use sdk_core.Proto.{
  Payload, EventType, HistoryEvent, Attributes, Details, get, first, and_then, json_payload,
  is_json_payload,
}

-- `serde_json` on `PatchedMarkerData` and on a set of patch ids. A print that fails is `none`; so is
-- the reading of a text that is no UTF-8 or no such data.
pub record PatchJson : Type 0 where
  pub print : (id : Text) (deprecated : Bool) → Option Text
  pub parse : Text → Option (Text × Bool)
  pub print_ids : List Text → Option Text

abbrev pub patch_marker_name : Text
patch_marker_name = codes "core_patch"

abbrev pub patched_marker_details_key : Text
patched_marker_details_key = codes "patch-data"

-- What may follow in a text in UTF-8: how many more bytes the character has, and the bounds of the
-- next of them.
abbrev Rest : Type 0
Rest = ℕ × ℕ × ℕ

between : ℕ → ℕ → ℕ → Bool
between low high b = leb low b && leb b high

-- After the first byte of a character.
after_lead : ℕ → Option Rest
unfolding between
after_lead b =
    if leb b 127
    then some (0, 0, 0)
    else if between 194 223 b
    then some (1, 128, 191)
    else if b == 224
    then some (2, 160, 191)
    else if b == 237
    then some (2, 128, 159)
    else if between 225 239 b
    then some (2, 128, 191)
    else if b == 240
    then some (3, 144, 191)
    else if between 241 243 b
    then some (3, 128, 191)
    else if b == 244
    then some (3, 128, 143)
    else none

after_byte : Rest → ℕ → Option Rest
unfolding after_lead between
after_byte (zero, low, high) b = after_lead b
after_byte (suc n, low, high) b = if between low high b then some (n, 128, 191) else none

utf8_from : Rest → Text → Bool
unfolding after_byte
utf8_from r [] = r.0 == 0
utf8_from r (b ∷ s) = elim (after_byte r b) [ none ↦ false | some r' ↦ utf8_from r' s ]

-- `std::str::from_utf8`.
from_utf8 : Text → Option Text
unfolding utf8_from
from_utf8 s = if utf8_from (0, 0, 0) s then some s else none

first_byte : Text → Option ℕ
first_byte [] = none
first_byte (b ∷ s) = some b

-- The two entries of an old marker.
decode_old : Details → Option (Text × Bool)
unfolding from_utf8 first_byte and_then get first
decode_old details = and_then (and_then (get (codes "patch_id") details) first) (λ id_entry.
    and_then (and_then (get (codes "deprecated") details) first) (λ deprecated_entry.
      and_then (from_utf8 id_entry.body)
        (λ name. and_then (first_byte deprecated_entry.body) (λ b. some (name, not (b == 0))))))

module _ (json : PatchJson) where
  unfoldable pub build_has_change_marker_details :
      (patch_id : Text) (deprecated : Bool) → Option Details
  unfolding json_payload
  build_has_change_marker_details patch_id deprecated = elim (json.print patch_id deprecated) [
    | none ↦ none
    | some s ↦ some ((patched_marker_details_key, json_payload s ∷ []) ∷ [])
  ]

  -- `from_json_payload` of a marker's data.
  from_payload : Payload → Option (Text × Bool)
  unfolding is_json_payload
  from_payload p = if is_json_payload p then json.parse p.body else none

  unfoldable pub decode_change_marker_details : Details → Option (Text × Bool)
  unfolding get first and_then from_payload decode_old
  decode_change_marker_details details = elim (get patched_marker_details_key details) [
    | some cd ↦ and_then (first cd) from_payload
    | none ↦ decode_old details
  ]

  patch_details : Option Attributes → Option (Text × Bool)
  unfolding decode_change_marker_details text_eq
  patch_details (some (Attributes.marker_recorded name details failure)) =
      if text_eq name patch_marker_name then decode_change_marker_details details else none
  patch_details _ = none

  of_marker_type : EventType → Option Attributes → Option (Text × Bool)
  unfolding patch_details
  of_marker_type EventType.marker_recorded a = patch_details a
  of_marker_type _ a = none

  unfoldable pub get_patch_marker_details : HistoryEvent → Option (Text × Bool)
  unfolding of_marker_type
  get_patch_marker_details e = of_marker_type e.event_type e.attributes

-- Bytes of each length of a character, with a surrogate and a text that is cut off.
utf8_test :
    (utf8_from (0, 0, 0) (36 ∷ 194 ∷ 162 ∷ 226 ∷ 130 ∷ 172 ∷ 240 ∷ 144 ∷ 141 ∷ 136 ∷ []) ≡ true)
    × (utf8_from (0, 0, 0) (237 ∷ 160 ∷ 128 ∷ []) ≡ false)
    × (utf8_from (0, 0, 0) (226 ∷ 130 ∷ []) ≡ false)
unfolding utf8_from
utf8_test = (refl, refl, refl)
