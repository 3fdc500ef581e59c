-- ===== src/History.antt =====
-- core/src/worker/workflow/history_update.rs: history cut into the sequences of events that belong to
-- one workflow task (WFT). Fetching pages from the server is left out. `dummy`, which marks a moved
-- value by negative ids, is left out, so ids are numbers.
pub mod Ends
pub mod Drain
pub mod Take
pub mod Pages
pub mod Paginator
pub mod Handled
use mathlib.Core.Option
use sdk_core.Prelude.{
  ℕ, zero, suc, ◌+◌, ◌-◌, Bool, true, false, not, ◌&&◌, ◌||◌, Option, none, some, List, [], ◌∷◌,
  ◌++◌, length, take, drop, get_elem?, ltb, leb, ◌==◌, if◌then◌else◌, Outcome, ok, panicked,
}
use sdk_core.Proto.{
  EventType, Attributes, HistoryEvent, is_command_event, is_final_wf_execution_event,
}

pub data NextWftSeqEndIndex : Type 0 where
  complete : ℕ → NextWftSeqEndIndex
  incomplete : ℕ → NextWftSeqEndIndex

unfoldable pub index : NextWftSeqEndIndex → ℕ
index (complete ix) = ix
index (incomplete ix) = ix

unfoldable pub add : NextWftSeqEndIndex → ℕ → NextWftSeqEndIndex
add (complete ix) val = complete (ix + val)
add (incomplete ix) val = incomplete (ix + val)

abbrev pub is_started : EventType → Bool
is_started EventType.workflow_task_started = true
is_started _ = false

abbrev pub is_execution_started : EventType → Bool
is_execution_started EventType.workflow_execution_started = true
is_execution_started _ = false

abbrev pub is_completed : EventType → Bool
is_completed EventType.workflow_task_completed = true
is_completed _ = false

abbrev pub is_scheduled : EventType → Bool
is_scheduled EventType.workflow_task_scheduled = true
is_scheduled _ = false

-- The events that, right after a WFT started, show that it does not conclude a sequence.
abbrev pub is_abrupt : EventType → Bool
is_abrupt EventType.workflow_task_failed = true
is_abrupt EventType.workflow_task_timed_out = true
is_abrupt EventType.workflow_execution_timed_out = true
is_abrupt EventType.workflow_execution_terminated = true
is_abrupt EventType.workflow_execution_canceled = true
is_abrupt _ = false

-- What the body of the loop does with one event.
pub data Verdict : Type 0 where
  stop : NextWftSeqEndIndex → Verdict
  go_on : Verdict

-- `wft_started_event_id_to_index.iter().rev().find_map(..)`. The list is kept newest first.
closest_before : ℕ → List (ℕ × ℕ) → Option ℕ
closest_before sequencing_id [] = none
closest_before sequencing_id ((eid, ix) ∷ started) =
    if ltb eid sequencing_id then some ix else closest_before sequencing_id started

-- The index of the sequence where an accepted update was processed, or else this one.
update_end : Option Attributes → ℕ → List (ℕ × ℕ) → ℕ
unfolding closest_before
update_end (some (Attributes.workflow_execution_update_accepted a)) ix started =
    elim (closest_before a.accepted_request_sequencing_event_id started) [
      | some ret_ix ↦ ret_ix
      | none ↦ ix
    ]
update_end _ ix started = ix

module _ (has_last_wft : Bool) where
  -- `if saw_any_command_event { return Complete(ix) }`.
  fall_through : Bool → ℕ → Verdict
  fall_through saw ix = if saw then stop (complete ix) else go_on

  -- Past a WFT started and a WFT completed.
  after_completed : List HistoryEvent → ℕ → Bool → List (ℕ × ℕ) → Verdict
  unfolding update_end fall_through
  after_completed [] ix saw started =
      if not has_last_wft && not saw then go_on else fall_through saw ix
  after_completed (e ∷ _) ix saw started =
      if is_scheduled e.event_type
      then go_on
      else stop (complete (update_end e.attributes ix started))

  -- Past a WFT started.
  after_started : List HistoryEvent → ℕ → Bool → List (ℕ × ℕ) → Verdict
  unfolding after_completed fall_through
  after_started [] ix saw started =
      if not has_last_wft && not saw then go_on else fall_through saw ix
  after_started (e ∷ es) ix saw started =
      if is_abrupt e.event_type
      then go_on
      else if is_completed e.event_type
      then after_completed es ix saw started
      else fall_through saw ix

-- `saw_any_command_event` once the event was looked at.
saw_command : HistoryEvent → Bool → Bool
saw_command e saw = (is_command_event e || is_execution_started e.event_type) || saw

-- `wft_started_event_id_to_index` once the event was looked at.
push_started : HistoryEvent → ℕ → List (ℕ × ℕ) → List (ℕ × ℕ)
push_started e ix started = if is_started e.event_type then (e.event_id, ix) ∷ started else started

module _ (from_event_id : ℕ) (has_last_wft : Bool) where
  -- The body past the first `continue`, given what the loop has gathered with this event.
  visit : HistoryEvent → List HistoryEvent → ℕ → Bool → List (ℕ × ℕ) → Verdict
  unfolding after_started
  visit e es ix saw started =
      if is_final_wf_execution_event e
      then stop (complete ix)
      else if is_started e.event_type
      then after_started has_last_wft es ix saw started
      else go_on

  -- The loop, over the events that are left; `last` is `last_index`.
  scan : List HistoryEvent → ℕ → ℕ → Bool → List (ℕ × ℕ) → NextWftSeqEndIndex
  unfolding visit saw_command push_started
  scan [] ix last saw started = incomplete last
  scan (e ∷ es) ix last saw started =
      let skipped = scan es (suc ix) ix saw started in
      let visited : NextWftSeqEndIndex =
        let saw' = saw_command e saw in
        let started' = push_started e ix started in
        let next = scan es (suc ix) ix saw' started' in
        elim (visit e es ix saw' started') [ stop end ↦ end | go_on ↦ next ] in
      if leb e.event_id from_event_id then skipped else visited

-- An empty slice is `Incomplete(0)`, which is what the loop returns too.
unfoldable pub find_end_index_of_next_wft_seq : List HistoryEvent → ℕ → Bool → NextWftSeqEndIndex
unfolding scan
find_end_index_of_next_wft_seq events from_event_id has_last_wft =
    scan from_event_id has_last_wft events 0 0 false []

pub record HistoryUpdate : Type 0 where
  pub events : List HistoryEvent
  pub previous_wft_started_id : ℕ
  pub wft_started_id : ℕ
  pub has_last_wft : Bool
  pub wft_count : ℕ

pub data NextWft : Type 0 where
  replay_over : NextWft
  wft : List HistoryEvent → Bool → NextWft
  need_fetch : NextWft

unfoldable pub starting_index_after_skipping : List HistoryEvent → ℕ → Option ℕ
starting_index_after_skipping [] from = none
starting_index_after_skipping (e ∷ es) from =
    let rest = starting_index_after_skipping es from in
    if ltb from e.event_id then some 0 else elim rest [ some i ↦ some (suc i) | none ↦ none ]

-- The events once those before the first relevant one are drained, if there is one.
unfoldable pub relevant : List HistoryEvent → ℕ → List HistoryEvent
unfolding starting_index_after_skipping
relevant events from = elim (starting_index_after_skipping events from) [
  | some i ↦ drop i events
  | none ↦ events
]

abbrev pub is_nil {ℓ} : {A : Type ℓ} → List A → Bool
is_nil [] = true
is_nil (_ ∷ _) = false

abbrev pub Taken : Type 0
Taken = Outcome ⊥ (HistoryUpdate × NextWft)

-- `drain(0..=n)` unwinds out of range.
unfoldable pub build_next_wft : HistoryUpdate → ℕ → Taken
build_next_wft u n =
    let left = drop (suc n) u.events in
    if ltb n (length u.events)
    then ok
        (record u { events = left }, wft (take (suc n) u.events) (is_nil left && u.has_last_wft))
    else panicked

-- `match next_wft_ix`, on the update without the skipped events.
take_at : HistoryUpdate → NextWftSeqEndIndex → Taken
unfolding build_next_wft
take_at u (complete ix) = build_next_wft u ix
take_at u (incomplete siz) =
    if u.has_last_wft
    then if siz == 0 then ok (u, replay_over) else build_next_wft u siz
    else if siz == 0
    then ok (u, need_fetch)
    else panicked

unfoldable pub take_next_wft_sequence : HistoryUpdate → ℕ → Taken
unfolding take_at relevant
take_next_wft_sequence u from =
    let events = relevant u.events from in
    take_at (record u { events = events })
      (find_end_index_of_next_wft_seq events from u.has_last_wft)

unfoldable pub peek_next_wft_sequence : HistoryUpdate → ℕ → List HistoryEvent
unfolding relevant index
peek_next_wft_sequence u from =
    let events = relevant u.events from in
    if is_nil events
    then events
    else take (suc (index (find_end_index_of_next_wft_seq events from u.has_last_wft))) events

unfoldable pub can_take_next_wft_sequence : HistoryUpdate → ℕ → Bool
can_take_next_wft_sequence u from =
    elim (find_end_index_of_next_wft_seq u.events from u.has_last_wft) [
      | incomplete _ ↦ u.has_last_wft
      | complete _ ↦ true
    ]
