-- ===== src/Tests/FlagTests.antt =====
-- core/src/internal_flags.rs on concrete flags; the first tests are those of the source.
use sdk_core.Prelude.{text_eq, true, false, some, [], ◌∷◌, codes, ◌≡◌, refl}
use sdk_core.Flags.{
  Enabled, InternalFlags, enabled, id_and_type_determinism_checks, new, add_from_complete,
  add_lang_used, try_use, gather_for_wft_complete,
}
use sdk_core.Flags.Laws.{recorded_flag_replays}

abbrev fresh : InternalFlags
fresh = add_lang_used (new true (codes "name") (codes "ver")) (1 ∷ [])

gather_test :
    let r = (gather_for_wft_complete (try_use fresh id_and_type_determinism_checks true).0).1 in
    (r.core_used_flags ≡ 1 ∷ []) × (r.lang_used_flags ≡ 1 ∷ []) × (r.sdk_name ≡ codes "name")
unfolding gather_for_wft_complete try_use add_lang_used new text_eq
gather_test = (refl, refl, refl)

disabled_test :
    (gather_for_wft_complete (add_lang_used (new false [] []) (1 ∷ []))).1.lang_used_flags ≡ []
unfolding gather_for_wft_complete add_lang_used new
disabled_test = refl

abbrev running : Enabled
running = record {
  core = 2 ∷ [];
  lang = [];
  core_since_last_complete = [];
  lang_since_last_complete = 5 ∷ [];
  last_sdk_name = [];
  last_sdk_version = [];
  sdk_name = codes "core";
  sdk_version = codes "1";
}

recorded_flag_replays_example :
    let reported =
      (gather_for_wft_complete
        (try_use (enabled running) id_and_type_determinism_checks true).0).1 in
    (try_use
      (add_from_complete (new true (codes "core") (codes "2")) (some reported))
      id_and_type_determinism_checks
      false).1
    ≡ true
recorded_flag_replays_example =
    recorded_flag_replays running id_and_type_determinism_checks (codes "core") (codes "2")
      (unfold sdk_core.Flags.contains sdk_core.Flags.to_u32 in refl)
