-- ===== src/Machines/Patch/Upserts.antt =====
-- What `has_change` asks for: the marker of the patch, and the search attribute that lists the
-- workflow's patches.
use sdk_core.Prelude.{
  Bool, true, false, not, ◌&&◌, ◌||◌, leb, if◌then◌else◌, Option, none, some, List, [], ◌∷◌, length,
  Text, text_eq, ok, >>=-eq-ok, ok-injective, ◌≡◌, refl, sym, ap, ◌∙◌, subst, arith,
}
use sdk_core.Flags.{InternalFlags, try_use, upsert_search_attribute_on_patch}
use sdk_core.Proto.{CommandAttributes, Details}
use sdk_core.Machines.{MachineResponse}
use sdk_core.Machines.Patch.{
  PatchJson, patch_marker_name, build_has_change_marker_details, insert_id, id_set, upsert_command,
  upsert_if_small, maybe_upsert_cmd, max_search_attr_payload_size, has_change, with_details,
  PatchMachine, schedule_patch,
}
use sdk_core.Machines.Patch.Ids.{has, Ascends, set-Ascends, has-set}

module _ (json : PatchJson) (patch_id : Text) (existing : List Text) where
  -- An upsert of a set of ids, which is left out if its print is too large.
  pub record IsUpsert (rs : List MachineResponse) : Type 0 where
    pub ids : List Text
    pub printed : Text
    pub prints : json.print_ids ids ≡ some printed
    pub ascends : Ascends ids
    pub members : (z : Text) → has z ids ≡ (text_eq z patch_id || has z existing)
    pub responses : rs ≡ (
        if leb max_search_attr_payload_size (length printed)
        then []
        else upsert_command printed ∷ [])

  abbrev pub Says : (skip : Bool) → List MachineResponse → Type 0
  Says true rs = rs ≡ []
  Says false rs = IsUpsert rs

  if_small-IsUpsert :
      (o : Option Text) (rs : List MachineResponse)
      → json.print_ids (insert_id patch_id (id_set existing)) ≡ o
      → upsert_if_small o ≡ ok rs
      → IsUpsert rs
  unfolding upsert_if_small
  if_small-IsUpsert none rs p h = cc
  if_small-IsUpsert (some printed) rs p h = record {
    ids = insert_id patch_id (id_set existing);
    printed = printed;
    prints = p;
    ascends = set-Ascends patch_id existing;
    members = has-set patch_id existing;
    responses = ground arith;
  }

  maybe-Says :
      (skip : Bool) (rs : List MachineResponse)
      → maybe_upsert_cmd json skip patch_id existing ≡ ok rs
      → Says skip rs
  unfolding maybe_upsert_cmd
  maybe-Says true rs h = sym (ok-injective h)
  maybe-Says false rs h = if_small-IsUpsert _ rs refl h

  module _ (replays seen : Bool) (flags : InternalFlags) where
    -- Whether the upsert is left out: on replay of a history without the patch, or without the flag.
    abbrev pub skips : Bool
    skips =
        (replays && not seen)
        || not (try_use flags upsert_search_attribute_on_patch (not replays)).1

    with-Says :
        (details : Details) (flags' : InternalFlags) (c : CommandAttributes) (m : PatchMachine)
        (rs : List MachineResponse)
        → with_details json patch_id replays seen existing flags details ≡ (flags', ok ((c, m), rs))
        → (c ≡ CommandAttributes.record_marker patch_marker_name details none)
          × (schedule_patch patch_id replays ≡ ok m)
          × Says skips rs
    unfolding with_details
    with-Says details flags' c m rs h =
        let (m', scheduled, h₁) = >>=-eq-ok (schedule_patch patch_id replays) _ (ap (λ p. p.1) h) in
        let (rs', upserted, h₂) = >>=-eq-ok (maybe_upsert_cmd json skips patch_id existing) _ h₁ in
        let e = ok-injective h₂ in
        (
          sym (ap (λ p. p.0.0) e),
          scheduled ∙ ap (λ p. ok p.0.1) e,
          subst (Says skips) (ap (λ p. p.1) e) (maybe-Says skips rs' upserted),
        )

    -- Wherever a patch is created without an error, its command records its marker, and its
    -- machine is scheduled; and unless the
    -- workflow replays a history without the patch, or may not use the flag for it, the patches that
    -- the workflow has had and this one, in ascending order and each once, are upserted as a search
    -- attribute if their print is shorter than the maximal size.
    pub has_change-Says :
        (deprecated : Bool) (flags' : InternalFlags) (c : CommandAttributes) (m : PatchMachine)
        (rs : List MachineResponse)
        → has_change json patch_id replays deprecated seen existing flags
          ≡ (flags', ok ((c, m), rs))
        → (details : Details) × (build_has_change_marker_details json patch_id deprecated
            ≡ some details)
          × (c ≡ CommandAttributes.record_marker patch_marker_name details none)
          × (schedule_patch patch_id replays ≡ ok m)
          × Says skips rs
    unfolding has_change
    has_change-Says deprecated flags' c m rs h =
        go (build_has_change_marker_details json patch_id deprecated) refl h
      where
        go :
            (o : Option Details)
            → build_has_change_marker_details json patch_id deprecated ≡ o
            → has_change json patch_id replays deprecated seen existing flags
              ≡ (flags', ok ((c, m), rs))
            → (details : Details) × (build_has_change_marker_details json patch_id deprecated
                ≡ some details)
              × (c ≡ CommandAttributes.record_marker patch_marker_name details none)
              × (schedule_patch patch_id replays ≡ ok m)
              × Says skips rs
        go none found h' = cc
        go (some details) found h' =
            let (marks, scheduled, says) =
              with-Says details flags' c m rs (rw (found, has_change) at h') in
            (details, found, marks, scheduled, says)
