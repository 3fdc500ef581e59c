-- ===== src/History/Pages/Lookahead.antt =====
-- The looking ahead of `find_end_index_of_next_wft_seq` past a WFT started (history_update.rs).
use sdk_core.Prelude.{
  ℕ, suc, ◌+◌, ◌<◌, false, Option, none, some, List, [], ◌∷◌, ◌++◌, All, length, take, drop, ltb,
  ◌≡◌, ◌≢◌, refl, arith, ap, ◌∙◌,
}
use sdk_core.Proto.{
  WorkflowExecutionUpdateAcceptedEventAttributes, HistoryEvent, Attributes, EventType,
  is_command_event, is_final_wf_execution_event,
}
use sdk_core.History.{
  complete, incomplete, is_started, is_execution_started, is_scheduled, update_end, visit, scan,
  after_started, after_completed, push_started, saw_command, find_end_index_of_next_wft_seq, is_nil,
  can_take_next_wft_sequence,
}
use sdk_core.History.Pages.{update_of, from_events, count_wfts, split_at_end, split_counted}

-- An event that is new and that neither ends a sequence nor is a command's.
pub record IsQuiet (from : ℕ) (e : HistoryEvent) : Type 0 where
  pub is_new : from < e.event_id
  pub no_command : is_command_event e ≡ false
  pub no_start : is_execution_started e.event_type ≡ false
  pub not_final : is_final_wf_execution_event e ≡ false
  pub not_started : is_started e.event_type ≡ false

-- A new WFT started.
pub record IsWftStarted (from : ℕ) (e : HistoryEvent) : Type 0 where
  pub is_new : from < e.event_id
  pub is : e.event_type ≡ EventType.workflow_task_started

abbrev pub NoUpdate : HistoryEvent → Type 0
NoUpdate e =
    (u : WorkflowExecutionUpdateAcceptedEventAttributes)
    → e.attributes ≢ some (Attributes.workflow_execution_update_accepted u)

scan-quiet :
    (from : ℕ) (e : HistoryEvent) (es : List HistoryEvent) (ix last : ℕ)
    → IsQuiet from e
    → scan from false (e ∷ es) ix last false [] ≡ scan from false es (suc ix) ix false []
unfolding scan visit push_started saw_command
scan-quiet from e es ix last q = ground arith

scan-All :
    (from : ℕ) (quiet es : List HistoryEvent) (e : HistoryEvent) (ix last : ℕ)
    → All (IsQuiet from) quiet
    → scan from false (quiet ++ (e ∷ es)) ix last false []
      ≡ scan from false (e ∷ es) (length quiet + ix) last false []
unfolding scan
scan-All from [] es e ix last q =
    ap (λ (n : ℕ). scan from false (e ∷ es) n last false [])
      (let p : ix ≡ 0 + ix = omega arith in p)
scan-All from (f ∷ quiet) es e ix last q =
    scan-quiet from f (quiet ++ (e ∷ es)) ix last q.0
    ∙ scan-All from quiet es e (suc ix) ix q.1
    ∙ ap (λ (n : ℕ). scan from false (e ∷ es) n last false [])
        (let p : length quiet + suc ix ≡ suc (length quiet) + ix = omega arith in p)

scan-started_last :
    (from : ℕ) (s : HistoryEvent) (ix last : ℕ)
    → IsWftStarted from s
    → scan from false (s ∷ []) ix last false [] ≡ incomplete ix
unfolding scan visit push_started saw_command after_started is_command_event
    is_final_wf_execution_event
scan-started_last from s ix last h = ground arith

update_end-NoUpdate :
    (a : Option Attributes) (ix : ℕ) (started : List (ℕ × ℕ))
    → ((u : WorkflowExecutionUpdateAcceptedEventAttributes)
        → a ≢ some (Attributes.workflow_execution_update_accepted u))
    → update_end a ix started ≡ ix
unfolding update_end
update_end-NoUpdate (some (Attributes.workflow_execution_update_accepted u)) ix started h =
    absurd (h u refl)
update_end-NoUpdate none ix started h = refl
update_end-NoUpdate _ ix started h = refl

scan-started_seen :
    (from : ℕ) (s c x : HistoryEvent) (es : List HistoryEvent) (ix last : ℕ)
    → IsWftStarted from s
    → c.event_type ≡ EventType.workflow_task_completed
    → is_scheduled x.event_type ≡ false
    → NoUpdate x
    → scan from false (s ∷ c ∷ x ∷ es) ix last false [] ≡ complete ix
unfolding scan visit push_started saw_command after_started after_completed is_command_event
    is_final_wf_execution_event
scan-started_seen from s c x es ix last h completed more no_update =
    ground (arith, update_end-NoUpdate x.attributes ix ((s.event_id, ix) ∷ []) no_update)

-- Two events after a handled one that end no sequence.
scan-unfinished :
    (s c x : HistoryEvent)
    → c.event_type ≡ EventType.workflow_task_completed
    → is_final_wf_execution_event x ≡ false
    → is_started x.event_type ≡ false
    → scan s.event_id false (s ∷ c ∷ x ∷ []) 0 0 false [] ≡ incomplete 2
unfolding scan visit is_final_wf_execution_event
scan-unfinished s c x completed not_final not_started = ground arith

module _ (from : ℕ) (quiet : List HistoryEvent) (s : HistoryEvent) where
  find_seen :
      (c x : HistoryEvent)
      → All (IsQuiet from) quiet
      → IsWftStarted from s
      → c.event_type ≡ EventType.workflow_task_completed
      → is_scheduled x.event_type ≡ false
      → NoUpdate x
      → find_end_index_of_next_wft_seq (quiet ++ (s ∷ c ∷ x ∷ [])) from false
        ≡ complete (length quiet)
  unfolding find_end_index_of_next_wft_seq
  find_seen c x q ws completed more no_update =
      scan-All from quiet (c ∷ x ∷ []) s 0 0 q
      ∙ scan-started_seen from s c x [] (length quiet + 0) 0 ws completed more no_update
      ∙ ap complete (let e : length quiet + 0 ≡ length quiet = omega arith in e)

  find_last :
      All (IsQuiet from) quiet
      → IsWftStarted from s
      → find_end_index_of_next_wft_seq (quiet ++ (s ∷ [])) from false ≡ incomplete (length quiet)
  unfolding find_end_index_of_next_wft_seq
  find_last q ws =
      scan-All from quiet [] s 0 0 q
      ∙ scan-started_last from s (length quiet + 0) 0 ws
      ∙ ap incomplete (let e : length quiet + 0 ≡ length quiet = omega arith in e)

find_unfinished :
    (s c x : HistoryEvent)
    → c.event_type ≡ EventType.workflow_task_completed
    → is_final_wf_execution_event x ≡ false
    → is_started x.event_type ≡ false
    → find_end_index_of_next_wft_seq (s ∷ c ∷ x ∷ []) s.event_id false ≡ incomplete 2
unfolding find_end_index_of_next_wft_seq
find_unfinished = scan-unfinished

drop-length : (es : List HistoryEvent) (fs : List HistoryEvent) → drop (length es) (es ++ fs) ≡ fs
drop-length [] fs = refl
drop-length (e ∷ es) fs = drop-length es fs

drop-length-suc :
    (es fs : List HistoryEvent) (f : HistoryEvent) → drop (suc (length es)) (es ++ (f ∷ fs)) ≡ fs
drop-length-suc [] fs f = refl
drop-length-suc (e ∷ es) fs f = drop-length-suc es fs f

take-length-suc :
    (es fs : List HistoryEvent) (f : HistoryEvent)
    → take (suc (length es)) (es ++ (f ∷ fs)) ≡ es ++ (f ∷ [])
take-length-suc [] fs f = refl
take-length-suc (e ∷ es) fs f = ap (λ (l : List HistoryEvent). e ∷ l) (take-length-suc es fs f)

is_nil-append : (es fs : List HistoryEvent) (f : HistoryEvent) → is_nil (es ++ (f ∷ fs)) ≡ false
is_nil-append [] fs f = refl
is_nil-append (e ∷ es) fs f = refl

count_one :
    (fuel : ℕ) (s c x : HistoryEvent) (ix : ℕ)
    → find_end_index_of_next_wft_seq (s ∷ c ∷ x ∷ []) s.event_id false ≡ incomplete 2
    → count_wfts (suc fuel) (s ∷ c ∷ x ∷ []) ix false 0 ≡ some (ix, 1)
unfolding count_wfts
count_one fuel s c x ix h = rw (h, count_wfts) refl

split_in_range :
    (quiet : List HistoryEvent) (s c x : HistoryEvent)
    → ltb (length (quiet ++ (s ∷ c ∷ x ∷ []))) (suc (length quiet)) ≡ false
split_in_range [] s c x = refl
split_in_range (e ∷ quiet) s c x = ground (arith, split_in_range quiet s c x)

split_one :
    (quiet : List HistoryEvent) (s c x : HistoryEvent) (from started : ℕ)
    → split_at_end (quiet ++ (s ∷ c ∷ x ∷ [])) from started false (length quiet, 1)
      ≡ some (update_of (quiet ++ (s ∷ [])) from started false 1, c ∷ x ∷ [])
unfolding split_at_end
split_one quiet s c x from started =
    rw
      (
        is_nil-append quiet (c ∷ x ∷ []) s,
        split_in_range quiet s c x,
        take-length-suc quiet (c ∷ x ∷ []) s,
        drop-length-suc quiet (c ∷ x ∷ []) s,
      )
      refl

module _ (from started : ℕ) (quiet : List HistoryEvent) (s c x : HistoryEvent) where
  -- The page is cut past its WFT started, since the events that follow show that the sequence is
  -- complete. The update that is left does not hold those events, and the search no longer finds the
  -- sequence there: the update says that it cannot be taken.
  pub from_events-cannot_take :
      All (IsQuiet from) quiet
      → IsWftStarted from s
      → c.event_type ≡ EventType.workflow_task_completed
      → is_scheduled x.event_type ≡ false
      → NoUpdate x
      → is_final_wf_execution_event x ≡ false
      → is_started x.event_type ≡ false
      → let u = update_of (quiet ++ (s ∷ [])) from started false 1 in
        (from_events (quiet ++ (s ∷ c ∷ x ∷ [])) from started false ≡ some (u, c ∷ x ∷ []))
        × (can_take_next_wft_sequence u from ≡ false)
  unfolding from_events split_counted can_take_next_wft_sequence
  from_events-cannot_take q ws completed more no_update not_final not_started =
      let all = quiet ++ (s ∷ c ∷ x ∷ []) in
      let found = find_seen from quiet s c x q ws completed more no_update in
      let counted =
        count_one (length all) s c x (length quiet)
          (find_unfinished s c x completed not_final not_started) in
      (
        rw (found, from_events)
            (rw (drop-length quiet (s ∷ c ∷ x ∷ []), counted) (split_one quiet s c x from started)),
        rw (find_last from quiet s q ws, can_take_next_wft_sequence) refl,
      )
