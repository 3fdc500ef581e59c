-- ===== src/History/Drain.antt =====
-- `find_end_index_of_next_wft_seq` on a slice whose handled events were drained (history_update.rs).
use sdk_core.Prelude.{
  ℕ, zero, suc, ◌+◌, ◌≤◌, Bool, true, false, Option, none, some, List, [], ◌∷◌, drop, leb,
  if◌then◌else◌, ◌≡◌, refl, inl, inr, arith, Option-cases, sym, ap, ◌∙◌,
}
use sdk_core.Proto.{HistoryEvent, Attributes}
use sdk_core.History.{
  NextWftSeqEndIndex, complete, incomplete, add, Verdict, stop, go_on, closest_before, update_end,
  visit, scan, after_started, fall_through, after_completed, push_started, saw_command,
  find_end_index_of_next_wft_seq, relevant, starting_index_after_skipping,
}

-- The events noted down, with each index moved on.
abbrev shift : ℕ → List (ℕ × ℕ) → List (ℕ × ℕ)
shift d [] = []
shift d ((eid, ix) ∷ started) = (eid, ix + d) ∷ shift d started

abbrev add_verdict : Verdict → ℕ → Verdict
unfolding add
add_verdict go_on d = go_on
add_verdict (stop end) d = stop (add end d)

abbrev add_option : Option ℕ → ℕ → Option ℕ
add_option none d = none
add_option (some i) d = some (i + d)

closest_before-shift :
    (id d : ℕ) (started : List (ℕ × ℕ))
    → closest_before id (shift d started) ≡ add_option (closest_before id started) d
unfolding closest_before
closest_before-shift id d [] = refl
closest_before-shift id d ((eid, ix) ∷ started) = ground (arith, closest_before-shift id d started)

update_end-shift :
    (a : Option Attributes) (ix d : ℕ) (started : List (ℕ × ℕ))
    → update_end a (ix + d) (shift d started) ≡ update_end a ix started + d
unfolding update_end
update_end-shift (some (Attributes.workflow_execution_update_accepted a)) ix d started =
    ground (arith, closest_before-shift a.accepted_request_sequencing_event_id d started)
update_end-shift none ix d started = refl
update_end-shift _ ix d started = refl

after_completed-shift :
    (last : Bool) (es : List HistoryEvent) (ix d : ℕ) (saw : Bool) (started : List (ℕ × ℕ))
    → after_completed last es (ix + d) saw (shift d started)
      ≡ add_verdict (after_completed last es ix saw started) d
unfolding after_completed fall_through add
after_completed-shift last [] ix d saw started = ground arith
after_completed-shift last (e ∷ es) ix d saw started =
    ground (arith, update_end-shift e.attributes ix d started)

after_started-shift :
    (last : Bool) (es : List HistoryEvent) (ix d : ℕ) (saw : Bool) (started : List (ℕ × ℕ))
    → after_started last es (ix + d) saw (shift d started)
      ≡ add_verdict (after_started last es ix saw started) d
unfolding after_started fall_through add
after_started-shift last [] ix d saw started = ground arith
after_started-shift last (e ∷ es) ix d saw started =
    ground (arith, after_completed-shift last es ix d saw started)

visit-shift :
    (from : ℕ) (last : Bool) (e : HistoryEvent) (es : List HistoryEvent) (ix d : ℕ) (saw : Bool)
    (started : List (ℕ × ℕ))
    → visit from last e es (ix + d) saw (shift d started)
      ≡ add_verdict (visit from last e es ix saw started) d
unfolding visit add
visit-shift from last e es ix d saw started =
    ground (arith, after_started-shift last es ix d saw started)

push_started-shift :
    (e : HistoryEvent) (ix d : ℕ) (started : List (ℕ × ℕ))
    → push_started e (ix + d) (shift d started) ≡ shift d (push_started e ix started)
unfolding push_started
push_started-shift e ix d started = ground arith

resume : Verdict → NextWftSeqEndIndex → NextWftSeqEndIndex
resume v next = elim v [ stop end ↦ end | go_on ↦ next ]

resume-add :
    (v : Verdict) (next : NextWftSeqEndIndex) (d : ℕ)
    → resume (add_verdict v d) (add next d) ≡ add (resume v next) d
unfolding resume add add_verdict
resume-add go_on next d = refl
resume-add (stop end) next d = refl

add-if :
    (b : Bool) (x y : NextWftSeqEndIndex) (d : ℕ)
    → (if b then add x d else add y d) ≡ add (if b then x else y) d
add-if true x y d = refl
add-if false x y d = refl

scan-cons :
    (from : ℕ) (has_last : Bool) (e : HistoryEvent) (es : List HistoryEvent) (ix last : ℕ)
    (saw : Bool) (started : List (ℕ × ℕ))
    → scan from has_last (e ∷ es) ix last saw started ≡ (
        if leb e.event_id from
        then scan from has_last es (suc ix) ix saw started
        else resume
            (visit from has_last e es ix (saw_command e saw) (push_started e ix started))
            (scan from has_last es (suc ix) ix (saw_command e saw) (push_started e ix started)))
unfolding scan resume
scan-cons from has_last e es ix last saw started = refl

scan-shift_cons :
    (from : ℕ) (has_last : Bool) (e : HistoryEvent) (es : List HistoryEvent) (ix last d : ℕ)
    (saw : Bool) (started : List (ℕ × ℕ))
    → scan from has_last es (suc ix + d) (ix + d) saw (shift d started)
      ≡ add (scan from has_last es (suc ix) ix saw started) d
    → (let saw' = saw_command e saw in
        let started' = push_started e ix started in
        scan from has_last es (suc ix + d) (ix + d) saw' (shift d started')
        ≡ add (scan from has_last es (suc ix) ix saw' started') d)
    → scan from has_last (e ∷ es) (ix + d) (last + d) saw (shift d started)
      ≡ add (scan from has_last (e ∷ es) ix last saw started) d
scan-shift_cons from has_last e es ix last d saw started ih jh =
    let next : suc ix + d ≡ suc (ix + d) = omega arith in
    rw (scan-cons, ← next, push_started-shift, ih, jh, visit-shift, resume-add)
      (add-if _ _ _ d
        ∙ ap (λ (t : NextWftSeqEndIndex). add t d)
            (sym (scan-cons from has_last e es ix last saw started)))

scan-shift :
    (from : ℕ) (has_last : Bool) (es : List HistoryEvent) (ix last d : ℕ) (saw : Bool)
    (started : List (ℕ × ℕ))
    → scan from has_last es (ix + d) (last + d) saw (shift d started)
      ≡ add (scan from has_last es ix last saw started) d
unfolding scan add
scan-shift from has_last [] ix last d saw started = refl
scan-shift from has_last (e ∷ es) ix last d saw started =
    scan-shift_cons from has_last e es ix last d saw started
      (scan-shift from has_last es (suc ix) ix d saw started)
      (scan-shift from has_last es (suc ix) ix d (saw_command e saw) (push_started e ix started))

add-zero : (end : NextWftSeqEndIndex) → add end 0 ≡ end
unfolding add
add-zero (complete ix) = ground arith
add-zero (incomplete ix) = ground arith

add-add : (end : NextWftSeqEndIndex) (d : ℕ) → add (add end d) 1 ≡ add end (suc d)
unfolding add
add-add (complete ix) d = ground arith
add-add (incomplete ix) d = ground arith

-- Past a handled event that is not the last one, the search goes on as from the start.
scan-handled :
    (from : ℕ) (has_last : Bool) (e f : HistoryEvent) (es : List HistoryEvent)
    → e.event_id ≤ from
    → scan from has_last (e ∷ f ∷ es) 0 0 false []
      ≡ add (scan from has_last (f ∷ es) 0 0 false []) 1
unfolding scan
scan-handled from has_last e f es old =
    let handled : leb e.event_id from ≡ true = ground arith in
    scan-cons from has_last e (f ∷ es) 0 0 false []
    ∙ rw handled (scan-shift from has_last (f ∷ es) 0 0 1 false [])

abbrev skipped_lem : Option ℕ → ℕ
skipped_lem none = 0
skipped_lem (some i) = i

-- How many events `take_next_wft_sequence` drains before the search.
abbrev pub skipped : List HistoryEvent → ℕ → ℕ
skipped events from = skipped_lem (starting_index_after_skipping events from)

scan-drop :
    (from : ℕ) (has_last : Bool) (es : List HistoryEvent) (i : ℕ)
    → starting_index_after_skipping es from ≡ some i
    → scan from has_last es 0 0 false [] ≡ add (scan from has_last (drop i es) 0 0 false []) i
unfolding starting_index_after_skipping
scan-drop from has_last es zero h = sym (add-zero _)
scan-drop from has_last [] (suc i) h = cc
scan-drop from has_last (e ∷ []) (suc i) h = ground arith
scan-drop from has_last (e ∷ f ∷ es) (suc i) h =
    let old : e.event_id ≤ from = ground arith in
    let inner : starting_index_after_skipping (f ∷ es) from ≡ some i = ground arith in
    scan-handled from has_last e f es old
    ∙ ap (λ (t : NextWftSeqEndIndex). add t 1) (scan-drop from has_last (f ∷ es) i inner)
    ∙ add-add _ i

-- Draining the handled events before the search finds the same sequence: the answer for all events is
-- the answer for the relevant ones, moved on by the number of events that were drained.
pub find_end-relevant :
    (events : List HistoryEvent) (from : ℕ) (has_last : Bool)
    → find_end_index_of_next_wft_seq events from has_last
      ≡ add
          (find_end_index_of_next_wft_seq (relevant events from) from has_last)
          (skipped events from)
unfolding find_end_index_of_next_wft_seq relevant
find_end-relevant events from has_last =
    elim (Option-cases (starting_index_after_skipping events from)) [
      | inl none_left ↦ rw (none_left, relevant) (sym (add-zero _))
      | inr (i, found) ↦ rw (found, relevant) (scan-drop from has_last events i found)
    ]
