-- ===== src/Tests/HistoryTests.antt =====
-- core/src/worker/workflow/history_update.rs on concrete pages of history.
use sdk_core.Prelude.{
  ℕ, ◌-◌, ◌&&◌, panicked, ◌<◌, true, false, none, some, List, [], ◌∷◌, ◌++◌, length, ok, ◌≡◌, refl,
  ◌⊎◌, arith,
}
use sdk_core.Proto.{HistoryEvent, EventType, is_command_event, is_final_wf_execution_event}
use sdk_core.History.{
  HistoryUpdate, take_next_wft_sequence, peek_next_wft_sequence, relevant,
  can_take_next_wft_sequence, find_end_index_of_next_wft_seq, add, wft, is_nil,
  starting_index_after_skipping, build_next_wft,
}
use sdk_core.History.Pages.{update_of, from_events}
use sdk_core.History.Drain.{skipped, find_end-relevant}
use sdk_core.History.Ends.{SeqEnd, find_end-SeqEnd}
use sdk_core.History.Handled.{take_next-handled}
use sdk_core.History.Pages.Lookahead.{IsQuiet, IsWftStarted, NoUpdate, from_events-cannot_take}
use sdk_core.History.Pages.Split.{EndsAt, from_events-append}
use sdk_core.History.Take.{take_next-append, can_take-usable, usable}

abbrev event : ℕ → EventType → HistoryEvent
event id event_type = record {
  event_id = id;
  event_time = none;
  event_type = event_type;
  attributes = none;
}

-- The second workflow task of this workflow carried a signal, and had no command before it.
abbrev started : HistoryEvent
started = event 7 EventType.workflow_task_started

abbrev signaled : List HistoryEvent
signaled =
    event 4 EventType.workflow_task_completed
    ∷ event 5 EventType.workflow_execution_signaled
    ∷ event 6 EventType.workflow_task_scheduled
    ∷ []

abbrev first_task : List HistoryEvent
first_task =
    event 1 EventType.workflow_execution_started
    ∷ event 2 EventType.workflow_task_scheduled
    ∷ event 3 EventType.workflow_task_started
    ∷ []

abbrev completed : HistoryEvent
completed = event 8 EventType.workflow_task_completed

abbrev timer : HistoryEvent
timer = event 9 EventType.timer_started

abbrev page : List HistoryEvent
page = first_task ++ (signaled ++ (started ∷ completed ∷ timer ∷ []))

abbrev whole : HistoryUpdate
whole = update_of page 0 7 true 2

-- The page is cut at event 7; the first sequence can be taken, and then taking the second panics.
cut_test :
    let u = update_of (first_task ++ (signaled ++ (started ∷ []))) 0 7 false 2 in
    let left = update_of (signaled ++ (started ∷ [])) 0 7 false 2 in
    (from_events page 0 7 false ≡ some (u, completed ∷ timer ∷ []))
    × (take_next_wft_sequence u 0 ≡ ok (left, wft first_task false))
    × (take_next_wft_sequence left 3 ≡ panicked)
unfolding from_events take_next_wft_sequence find_end_index_of_next_wft_seq relevant
    starting_index_after_skipping build_next_wft is_final_wf_execution_event is_command_event
cut_test = (refl, refl, refl)

find_end-SeqEnd_example : SeqEnd page 0 (find_end_index_of_next_wft_seq page 0 false)
find_end-SeqEnd_example = find_end-SeqEnd page 0 false

find_end-relevant_example :
    find_end_index_of_next_wft_seq page 3 false
    ≡ add (find_end_index_of_next_wft_seq (relevant page 3) 3 false) (skipped page 3)
find_end-relevant_example = find_end-relevant page 3 false

can_take-usable_example :
    can_take_next_wft_sequence whole 3 ≡ usable (take_next_wft_sequence whole 3)
can_take-usable_example = can_take-usable whole 3

abbrev rest : HistoryUpdate
rest = update_of (signaled ++ (started ∷ completed ∷ timer ∷ [])) 0 7 true 2

takes : take_next_wft_sequence whole 0 ≡ ok (rest, wft first_task false)
unfolding take_next_wft_sequence find_end_index_of_next_wft_seq relevant
    starting_index_after_skipping build_next_wft is_final_wf_execution_event is_command_event
takes = refl

take_next-append_example :
    (first_task ++ rest.events ≡ relevant page 0)
    × (first_task ≡ peek_next_wft_sequence whole 0)
    × (0 < length first_task)
    × (false ≡ (is_nil rest.events && true))
take_next-append_example = take_next-append whole rest 0 first_task false takes

take_next-handled_example :
    take_next_wft_sequence whole 9 ≡ ok (record whole { events = [] }, wft page true)
take_next-handled_example = take_next-handled whole 9 (omega arith) refl (omega arith)

from_events-append_example :
    (u : HistoryUpdate) × (left : List HistoryEvent) × (from_events page 0 7 false ≡ some (u, left))
    × (u.events ++ left ≡ page)
    × (left ≡ [] ⊎ false ≡ false)
    × ((u.events ≡ []) ⊎ ((false ≡ true) ⊎ EndsAt page (length u.events - 1)))
from_events-append_example = from_events-append page 0 7 false

completed-IsQuiet : IsQuiet 3 (event 4 EventType.workflow_task_completed)
unfolding is_command_event is_final_wf_execution_event
completed-IsQuiet = record {
  is_new = omega arith;
  no_command = refl;
  no_start = refl;
  not_final = refl;
  not_started = refl;
}

signaled-IsQuiet : IsQuiet 3 (event 5 EventType.workflow_execution_signaled)
unfolding is_command_event is_final_wf_execution_event
signaled-IsQuiet = record {
  is_new = omega arith;
  no_command = refl;
  no_start = refl;
  not_final = refl;
  not_started = refl;
}

scheduled-IsQuiet : IsQuiet 3 (event 6 EventType.workflow_task_scheduled)
unfolding is_command_event is_final_wf_execution_event
scheduled-IsQuiet = record {
  is_new = omega arith;
  no_command = refl;
  no_start = refl;
  not_final = refl;
  not_started = refl;
}

started-IsWftStarted : IsWftStarted 3 started
started-IsWftStarted = record { is_new = omega arith; is = refl }

timer-NoUpdate : NoUpdate timer
timer-NoUpdate id h = cc

timer_not_final : is_final_wf_execution_event timer ≡ false
unfolding is_final_wf_execution_event
timer_not_final = refl

from_events-cannot_take_example :
    let u = update_of (signaled ++ (started ∷ [])) 3 7 false 1 in
    (from_events (signaled ++ (started ∷ completed ∷ timer ∷ [])) 3 7 false
      ≡ some (u, completed ∷ timer ∷ []))
    × (can_take_next_wft_sequence u 3 ≡ false)
from_events-cannot_take_example =
    from_events-cannot_take 3 7 signaled started completed timer
      (completed-IsQuiet, (signaled-IsQuiet, (scheduled-IsQuiet, tt))) started-IsWftStarted refl
      refl timer-NoUpdate timer_not_final refl
