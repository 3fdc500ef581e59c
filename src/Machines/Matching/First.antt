-- ===== src/Machines/Matching/First.antt =====
-- What the loop of `handle_command_event` finds: the first command that is neither cancelled nor, for
-- an event that is no patch marker, a patch; and when it ignores a marker or refuses an event.
use sdk_core.Prelude.{
  ℕ, Bool, true, false, Option, none, some, List, [], ◌∷◌, ◌++◌, All, Text, Outcome, ok, err,
  panicked, ◌≡◌, refl, sym, subst, ap, ◌⊎◌, inl, inr, not, ◌&&◌, if◌then◌else◌,
}
use sdk_core.Proto.{HistoryEvent}
use sdk_core.Machines.{WfMachinesError, nondeterminism}
use sdk_core.Machines.Patch.{PatchJson, PatchMachine, matches_patch, get_patch_marker_details}
use sdk_core.Machines.AnyMachine.{AnyMachine, as_patch, was_cancelled_before_sent_to_server}
use sdk_core.Machines.Matching.{
  CommandAndMachine, skip_event, normal, Matched, skips, feeds, handling, on_normal, at_front,
  patch_of, upserts_versions, on_empty, on_front, patch_marker_handling, consume,
}

-- A command whose machine is as the event needs it: a patch's for a patch marker, of the same patch
-- unless the marker is not deprecated, and no patch's for another event.
abbrev pub Agrees : Option (Text × Bool) → Option PatchMachine → Type 0
Agrees none p = p ≡ none
Agrees (some _) none = ⊥
Agrees (some (name, deprecated)) (some pm) = (matches_patch pm name ≡ true) ⊎ (deprecated ≡ false)

abbrev pub Mismatch : Text → Option PatchMachine → Type 0
Mismatch name none = Unit {0}
Mismatch name (some pm) = matches_patch pm name ≡ false

module _ (json : PatchJson) (event : HistoryEvent) (next_event : Option HistoryEvent)
    (machine : ℕ → Option AnyMachine) where
  abbrev pub PassedOver : CommandAndMachine → Type 0
  PassedOver c =
      (mach : AnyMachine) × (machine c.machine ≡ some mach)
      × ((was_cancelled_before_sent_to_server mach ≡ ok true)
          ⊎ ((get_patch_marker_details json event ≡ none)
              × ((pm : PatchMachine) × (as_patch mach ≡ some pm))))

  -- The machine of a command is there, and has a state.
  abbrev pub Present : CommandAndMachine → Type 0
  Present c =
      (mach : AnyMachine) × (machine c.machine ≡ some mach)
      × ((b : Bool) × (was_cancelled_before_sent_to_server mach ≡ ok b))

  pub record Split (cs left : List CommandAndMachine) : Type 0 where
    pub skipped : List CommandAndMachine
    pub splits : cs ≡ skipped ++ left
    pub passed : All PassedOver skipped

  abbrev pub Front : (Option PatchMachine → Type 0) → List CommandAndMachine → Type 0
  Front P [] = Unit {0}
  Front P (c ∷ cs) = (mach : AnyMachine) × (machine c.machine ≡ some mach) × P (as_patch mach)

  abbrev pub Taken : CommandAndMachine → Type 0
  Taken c =
      (mach : AnyMachine) × (machine c.machine ≡ some mach)
      × (was_cancelled_before_sent_to_server mach ≡ ok false)
      × Agrees (get_patch_marker_details json event) (as_patch mach)

  abbrev pub Ignored : Bool → List CommandAndMachine → Type 0
  Ignored b left =
      (b ≡ upserts_versions next_event)
      × ((name : Text) × (get_patch_marker_details json event ≡ some (name, true))
          × Front (Mismatch name) left)

  -- Nothing is left, or a patch that is not deprecated meets something else.
  abbrev pub Refused : List CommandAndMachine → Type 0
  Refused left =
      (left ≡ [])
      ⊎ ((name : Text) × (get_patch_marker_details json event ≡ some (name, false))
          × Front (λ p. p ≡ none) left)

  abbrev pub Finds : List CommandAndMachine → Outcome WfMachinesError Matched → Type 0
  Finds cs (ok (feeds c rest)) = Split cs (c ∷ rest) × Taken c
  Finds cs (ok (skips b left)) = Split cs left × Ignored b left
  Finds cs (err e) =
      (e ≡ nondeterminism) × ((left : List CommandAndMachine) × Split cs left × Refused left)
  Finds cs panicked = ⊥

  here : (cs : List CommandAndMachine) → Split cs cs
  here cs = record { skipped = []; splits = refl; passed = tt }

  over :
      (c : CommandAndMachine) (cs left : List CommandAndMachine)
      → PassedOver c
      → Split cs left
      → Split (c ∷ cs) left
  over c cs left p s = record {
    skipped = c ∷ s.skipped;
    splits = ap (λ xs. c ∷ xs) s.splits;
    passed = (p, s.passed);
  }

  past :
      (c : CommandAndMachine) (cs : List CommandAndMachine) (r : Outcome WfMachinesError Matched)
      → PassedOver c
      → Finds cs r
      → Finds (c ∷ cs) r
  past c cs (ok (feeds d rest)) p (s, t) = (over c cs (d ∷ rest) p s, t)
  past c cs (ok (skips b left)) p (s, i) = (over c cs left p s, i)
  past c cs (err e) p (n, (left, s, t)) = (n, (left, over c cs left p s, t))
  past c cs panicked p f = f

  -- The turn of the loop for the command of a machine, of which it looks at the cancellation `w`, the
  -- details `d` of the event's marker and the patch machine `p`.
  module _ (c : CommandAndMachine) (cs : List CommandAndMachine) (mach : AnyMachine)
      (found : machine c.machine ≡ some mach) (rest : Outcome WfMachinesError Matched)
      (found_rest : Finds cs rest) where
    normal-Finds :
        (b : Bool)
        → was_cancelled_before_sent_to_server mach ≡ ok b
        → Agrees (get_patch_marker_details json event) (as_patch mach)
        → Finds (c ∷ cs) (on_normal json event next_event c cs rest (ok b))
    unfolding on_normal
    normal-Finds true w g = past c cs rest (mach, found, inl w) found_rest
    normal-Finds false w g = (here (c ∷ cs), (mach, found, w, g))

    -- A patch marker at a patch machine.
    both-Finds :
        (b : Bool)
        → was_cancelled_before_sent_to_server mach ≡ ok b
        → (name : Text) (deprecated : Bool) (pm : PatchMachine)
        → get_patch_marker_details json event ≡ some (name, deprecated)
        → as_patch mach ≡ some pm
        → (same : Bool) → matches_patch pm name ≡ same
        → Finds (c ∷ cs) (
            on_front json event next_event c cs (ok b) rest (
              if not same && deprecated
              then ok (skip_event (upserts_versions next_event))
              else ok normal))
    unfolding on_front
    both-Finds b w name deprecated pm e a true q = normal-Finds b w (rw (e, a) (inl q))
    both-Finds b w name true pm e a false q =
        (here (c ∷ cs), (refl, (name, e, (mach, found, rw a q))))
    both-Finds b w name false pm e a false q = normal-Finds b w (rw (e, a) (inr refl))

    front-Finds :
        (b : Bool)
        → was_cancelled_before_sent_to_server mach ≡ ok b
        → (d : Option (Text × Bool)) → get_patch_marker_details json event ≡ d
        → (p : Option PatchMachine) → as_patch mach ≡ p
        → Finds (c ∷ cs) (on_front json event next_event c cs (ok b) rest (handling d p next_event))
    unfolding on_front handling
    front-Finds b w none e (some pm) a = past c cs rest (mach, found, inr (e, (pm, a))) found_rest
    front-Finds b w none e none a = normal-Finds b w (rw (e, a) refl)
    front-Finds b w (some (name, true)) e none a =
        (here (c ∷ cs), (refl, (name, e, (mach, found, rw a tt))))
    front-Finds b w (some (name, false)) e none a =
        (refl, (c ∷ cs, here (c ∷ cs), inr (name, e, (mach, found, a))))
    front-Finds b w (some (name, deprecated)) e (some pm) a =
        both-Finds b w name deprecated pm e a (matches_patch pm name) refl

  empty-Finds :
      (d : Option (Text × Bool))
      → get_patch_marker_details json event ≡ d
      → Finds [] (on_empty json event next_event (handling d none next_event))
  unfolding on_empty handling
  empty-Finds none e = (refl, ([], here [], inl refl))
  empty-Finds (some (name, true)) e = (here [], (refl, (name, e, tt)))
  empty-Finds (some (name, false)) e = (refl, ([], here [], inl refl))

  -- Where every queued command has its machine, the loop ends without a panic, and passes over the
  -- commands whose machines were cancelled before they were sent and, if the event is no patch marker,
  -- over patches. Either it takes the next command, whose machine is a patch's exactly if the event
  -- is a patch marker, of the same patch unless the marker is not deprecated; or the event is a
  -- deprecated marker and is ignored, and the next event too if it upserts the patches; or it is
  -- refused as nondeterminism, which happens only if no command is left, or if a marker that is not
  -- deprecated meets a machine that is no patch's.
  pub consume-Finds :
      (cs : List CommandAndMachine)
      → All Present cs
      → Finds cs (consume json event next_event machine cs)
  unfolding consume at_front patch_marker_handling patch_of
  consume-Finds [] t = empty-Finds (get_patch_marker_details json event) refl
  consume-Finds (c ∷ cs) ((mach, found, (b, w)), t) =
      let rest = consume json event next_event machine cs in
      subst (λ o. Finds (c ∷ cs) (at_front json event next_event c cs rest o)) (sym found)
        (subst
          (λ r. Finds (c ∷ cs) (
            on_front json event next_event c cs r rest
              (patch_marker_handling json event next_event (some mach))))
          (sym w)
          (front-Finds c cs mach found rest (consume-Finds cs t) b w
            (get_patch_marker_details json event) refl (as_patch mach) refl))
