-- ===== src/History/Ends.antt =====
-- What `find_end_index_of_next_wft_seq` finds (history_update.rs).
use sdk_core.Prelude.{
  not, ◌&&◌, ℕ, suc, ◌+◌, ◌-◌, ◌<◌, Bool, true, false, Option, none, some, List, [], ◌∷◌, All,
  length, get_elem?, ltb, leb, if◌then◌else◌, ◌≡◌, refl, inl, inr, arith, Bool-cases, Option-cases,
  subst, ◌∙◌, leb_false→lt,
}
use sdk_core.Proto.{HistoryEvent, Attributes, is_final_wf_execution_event}
use sdk_core.History.{
  is_scheduled, is_abrupt, is_completed, NextWftSeqEndIndex, complete, incomplete, is_started,
  Verdict, stop, go_on, closest_before, update_end, visit, scan, after_started, fall_through,
  after_completed, push_started, saw_command, find_end_index_of_next_wft_seq,
}

abbrev pub ends : HistoryEvent → Bool
ends e = if is_final_wf_execution_event e then true else is_started e.event_type

abbrev Marked : (ℕ → Type 0) → List (ℕ × ℕ) → Type 0
Marked G = All (λ p. G p.1)

closest_before-Marked :
    (G : ℕ → Type 0) (id : ℕ) (started : List (ℕ × ℕ)) (ix : ℕ)
    → Marked G started
    → closest_before id started ≡ some ix
    → G ix
unfolding closest_before
closest_before-Marked G id [] ix h e = cc
closest_before-Marked G id ((eid, j) ∷ started) ix h e = elim (Bool-cases (ltb eid id)) [
  | inl earlier ↦ subst G (let e' : some j ≡ some ix = rw (earlier, closest_before) at e in cc) h.0
  | inr later ↦ closest_before-Marked G id started ix h.1 (rw (later, closest_before) at e)
]

update_end-Marked :
    (G : ℕ → Type 0) (a : Option Attributes) (ix : ℕ) (started : List (ℕ × ℕ))
    → G ix
    → Marked G started
    → G (update_end a ix started)
unfolding update_end
update_end-Marked G (some (Attributes.workflow_execution_update_accepted u)) ix started h g =
    let id = u.accepted_request_sequencing_event_id in
    elim (Option-cases (closest_before id started)) [
      | inl missing ↦ rw (missing, update_end) h
      | inr (j, found) ↦ rw (found, update_end) (closest_before-Marked G id started j g found)
    ]
update_end-Marked G none ix started h g = h
update_end-Marked G _ ix started h g = h

abbrev Stops : (ℕ → Type 0) → Verdict → Type 0
Stops G go_on = Unit
Stops G (stop (complete i)) = G i
Stops G (stop (incomplete i)) = ⊥

Stops-if :
    (G : ℕ → Type 0) (b : Bool) (v w : Verdict)
    → (b ≡ true → Stops G v)
    → (b ≡ false → Stops G w)
    → Stops G (if b then v else w)
Stops-if G true v w h k = h refl
Stops-if G false v w h k = k refl

module _ (G : ℕ → Type 0) (last : Bool) (ix : ℕ) (saw : Bool) (started : List (ℕ × ℕ)) (here : G ix)
    (noted : Marked G started) where
  fall_through-Stops : Stops G (fall_through last saw ix)
  unfolding fall_through
  fall_through-Stops = Stops-if G saw _ _ (λ _. here) (λ _. tt)

  after_completed-Stops :
      (es : List HistoryEvent) → Stops G (after_completed last es ix saw started)
  unfolding after_completed
  after_completed-Stops [] =
      Stops-if G (not last && not saw) _ _ (λ _. tt) (λ _. fall_through-Stops)
  after_completed-Stops (e ∷ es) =
      Stops-if G (is_scheduled e.event_type) _ _ (λ _. tt)
        (λ _. update_end-Marked G e.attributes ix started here noted)

  after_started-Stops : (es : List HistoryEvent) → Stops G (after_started last es ix saw started)
  unfolding after_started
  after_started-Stops [] = Stops-if G (not last && not saw) _ _ (λ _. tt) (λ _. fall_through-Stops)
  after_started-Stops (e ∷ es) =
      Stops-if G (is_abrupt e.event_type) _ _ (λ _. tt)
        (λ _.
          Stops-if G (is_completed e.event_type) _ _ (λ _. after_completed-Stops es)
            (λ _. fall_through-Stops))

-- The loop stops at this event or at one that it noted down.
visit-Stops :
    (G : ℕ → Type 0) (from : ℕ) (last : Bool) (e : HistoryEvent) (es : List HistoryEvent) (ix : ℕ)
    (saw : Bool) (started : List (ℕ × ℕ))
    → (ends e ≡ true → G ix)
    → Marked G started
    → Stops G (visit from last e es ix saw started)
unfolding visit
visit-Stops G from last e es ix saw started here noted =
    Stops-if G (is_final_wf_execution_event e) _ _ (λ f. here (rw f))
      (λ nf.
        Stops-if G (is_started e.event_type) _ _
          (λ s. after_started-Stops G last ix saw started (here (rw (nf, s))) noted es) (λ _. tt))

ends_if_started : (e : HistoryEvent) → is_started e.event_type ≡ true → ends e ≡ true
ends_if_started e s = elim (Bool-cases (is_final_wf_execution_event e)) [
  | inl f ↦ rw f refl
  | inr nf ↦ rw (nf, s) refl
]

push_started-Marked :
    (G : ℕ → Type 0) (e : HistoryEvent) (ix : ℕ) (started : List (ℕ × ℕ))
    → (ends e ≡ true → G ix)
    → Marked G started
    → Marked G (push_started e ix started)
unfolding push_started
push_started-Marked G e ix started here noted = elim (Bool-cases (is_started e.event_type)) [
  | inl s ↦ rw s (here (ends_if_started e s), noted)
  | inr ns ↦ rw ns noted
]

-- The index of the last event, those left starting at `ix` and the one before being `last`.
last_index : List HistoryEvent → ℕ → ℕ → ℕ
last_index [] ix last = last
last_index (e ∷ es) ix last = last_index es (suc ix) ix

last_index-length :
    (e : HistoryEvent) (es : List HistoryEvent) (ix last : ℕ)
    → suc (last_index (e ∷ es) ix last) ≡ ix + length (e ∷ es)
unfolding last_index
last_index-length e [] ix last = omega arith
last_index-length e (f ∷ es) ix last = omega (arith, last_index-length f es (suc ix) ix)

-- What the loop returns: a good index, or the last one.
abbrev Found : (ℕ → Type 0) → ℕ → NextWftSeqEndIndex → Type 0
Found G last (complete i) = G i
Found G last (incomplete i) = i ≡ last

Found-if :
    (G : ℕ → Type 0) (last : ℕ) (b : Bool) (v : Verdict) (skipped next : NextWftSeqEndIndex)
    → Found G last skipped
    → (b ≡ false → Stops G v × Found G last next)
    → Found G last (if b then skipped else elim v [ stop end ↦ end | go_on ↦ next ])
Found-if G last true v skipped next h k = h
Found-if G last false (stop (complete i)) skipped next h k = (k refl).0
Found-if G last false (stop (incomplete i)) skipped next h k = absurd (k refl).0
Found-if G last false go_on skipped next h k = (k refl).1

scan-Found :
    (G : ℕ → Type 0) (from : ℕ) (has_last : Bool) (es : List HistoryEvent) (ix last : ℕ)
    (saw : Bool) (started : List (ℕ × ℕ))
    → ((k : ℕ) (e : HistoryEvent)
        → get_elem? es k ≡ some e
        → from < e.event_id
        → ends e ≡ true
        → G (k + ix))
    → Marked G started
    → Found G (last_index es ix last) (scan from has_last es ix last saw started)
unfolding scan last_index
scan-Found G from has_last [] ix last saw started good noted = refl
scan-Found G from has_last (e ∷ es) ix last saw started good noted =
    let later =
      λ (k : ℕ) (f : HistoryEvent) (at : get_elem? es k ≡ some f) (new : from < f.event_id)
          (is : ends f ≡ true).
        subst G (let shifted : suc k + ix ≡ k + suc ix = omega arith in shifted)
          (good (suc k) f at new is) in
    let started' = push_started e ix started in
    Found-if G _ (leb e.event_id from) (visit from has_last e es ix (saw_command e saw) started') _
      _ (scan-Found G from has_last es (suc ix) ix saw started later noted)
      (λ new.
        let here = λ (is : ends e ≡ true).
          subst G (let unshifted : 0 + ix ≡ ix = omega arith in unshifted)
            (good 0 e refl (leb_false→lt _ _ new) is) in
        let noted' = push_started-Marked G e ix started here noted in
        (
          visit-Stops G from has_last e es ix _ started' here noted',
          scan-Found G from has_last es (suc ix) ix (saw_command e saw) started' later noted',
        ))

-- What an answer says of the events that were searched.
abbrev pub SeqEnd : List HistoryEvent → ℕ → NextWftSeqEndIndex → Type 0
SeqEnd events from (complete i) =
    (e : HistoryEvent) × (get_elem? events i ≡ some e) × (from < e.event_id) × (ends e ≡ true)
SeqEnd events from (incomplete i) = i ≡ length events - 1

abbrev EndAt : List HistoryEvent → ℕ → ℕ → Type 0
EndAt events from i =
    (e : HistoryEvent) × (get_elem? events i ≡ some e) × (from < e.event_id) × (ends e ≡ true)

SeqEnd-Found :
    (events : List HistoryEvent) (from last : ℕ) (answer : NextWftSeqEndIndex)
    → last ≡ length events - 1
    → Found (EndAt events from) last answer
    → SeqEnd events from answer
SeqEnd-Found events from last (complete i) l h = h
SeqEnd-Found events from last (incomplete i) l h = h ∙ l

last_index-pred : (events : List HistoryEvent) → last_index events 0 0 ≡ length events - 1
unfolding last_index
last_index-pred [] = refl
last_index-pred (e ∷ es) = omega (arith, last_index-length e es 0 0)

-- A complete sequence ends at an event of the slice that is newer than the given id and that either is
-- a WFT started or ends the workflow. An incomplete one goes to the last index of the slice (0 where
-- it is empty).
pub find_end-SeqEnd :
    (events : List HistoryEvent) (from : ℕ) (has_last_wft : Bool)
    → SeqEnd events from (find_end_index_of_next_wft_seq events from has_last_wft)
unfolding find_end_index_of_next_wft_seq
find_end-SeqEnd events from has_last_wft = SeqEnd-Found events from _ _ (last_index-pred events) (
    scan-Found (EndAt events from) from has_last_wft events 0 0 false []
      (λ k e at new is.
        subst (EndAt events from) (let unshifted : k ≡ k + 0 = omega arith in unshifted)
          (e, at, new, is))
      tt)
