-- ===== src/History/Pages.antt =====
-- `HistoryUpdate::from_events` (history_update.rs): the update that a page of history gives, and the
-- events that are left for the next one.
pub mod Lookahead
pub mod Split
use sdk_core.Prelude.{
  ℕ, zero, suc, ◌+◌, Bool, true, false, ◌||◌, Option, none, some, List, [], ◌∷◌, length, take, drop,
  ltb, if◌then◌else◌,
}
use sdk_core.Proto.{HistoryEvent}
use sdk_core.History.{complete, incomplete, find_end_index_of_next_wft_seq, HistoryUpdate, is_nil}

-- `first().map(|e| e.event_id)`.
unfoldable pub first_id : List HistoryEvent → Option ℕ
first_id [] = none
first_id (e ∷ _) = some e.event_id

-- The `while let` of `from_events`: `rest` is the slice from the last end on, `ix` that end. `none`
-- is the panic of `all_events[next_end_ix]` where the slice is empty, or out of fuel.
count_wfts : ℕ → List HistoryEvent → ℕ → Bool → ℕ → Option (ℕ × ℕ)
count_wfts zero rest ix has_last count = none
count_wfts (suc fuel) [] ix has_last count = none
count_wfts (suc fuel) (e ∷ es) ix has_last count =
    elim (find_end_index_of_next_wft_seq (e ∷ es) e.event_id has_last) [
      | incomplete _ ↦ some (ix, suc count)
      | complete j ↦ count_wfts fuel (drop j (e ∷ es)) (j + ix) has_last (suc count)
    ]

abbrev pub update_of : List HistoryEvent → ℕ → ℕ → Bool → ℕ → HistoryUpdate
update_of events previous started has_last count = record {
  events = events;
  previous_wft_started_id = previous;
  wft_started_id = started;
  has_last_wft = has_last;
  wft_count = count;
}

abbrev pub Updated : Type 0
Updated = Option (HistoryUpdate × List HistoryEvent)

-- Past the loop: with the last WFT there are no remaining events. `none` is the panic of `split_off`
-- past the end of the events.
split_at_end : List HistoryEvent → ℕ → ℕ → Bool → ℕ × ℕ → Updated
split_at_end all previous started has_last (end, count) =
    if is_nil all || has_last
    then some (update_of all previous started has_last count, [])
    else if ltb (length all) (suc end)
    then none
    else some (update_of (take (suc end) all) previous started has_last count, drop (suc end) all)

split_counted : List HistoryEvent → ℕ → ℕ → Bool → Option (ℕ × ℕ) → Updated
unfolding split_at_end
split_counted all previous started has_last none = none
split_counted all previous started has_last (some counted) =
    split_at_end all previous started has_last counted

-- `HistoryUpdate::from_events`, `none` where it panics. The fuel is the number of events, and one.
unfoldable pub from_events : List HistoryEvent → ℕ → ℕ → Bool → Updated
unfolding count_wfts split_counted
from_events all previous started has_last =
    elim (find_end_index_of_next_wft_seq all previous has_last) [
      | incomplete _ ↦ some (
          if has_last
          then (update_of all previous started has_last 1, [])
          else (update_of [] previous started has_last 0, all))
      | complete ix ↦
          split_counted all previous started has_last
            (count_wfts (suc (length all)) (drop ix all) ix has_last 0)
    ]
