-- ===== src/Tests/PaginatorTests.antt =====
-- The paginator of core/src/worker/workflow/history_update.rs on a history of two pages.
use sdk_core.Prelude.{arith, ℕ, true, none, some, List, [], ◌∷◌, ◌++◌, ok, ◌≡◌, refl}
use sdk_core.Proto.{HistoryEvent, EventType, is_command_event, is_final_wf_execution_event}
use sdk_core.History.{find_end_index_of_next_wft_seq}
use sdk_core.History.Pages.{update_of, from_events}
use sdk_core.History.Paginator.{
  HistoryPaginator, Answers, fetch_from_start, done, get_next_page, extract_next_update,
}
use sdk_core.History.Paginator.Extract.{extract_next_update-Extracts}
use sdk_core.History.Paginator.Keeps.{Extracts}
use sdk_core.History.Paginator.Fetched.{Pages, get_next_page-Pages}

abbrev event : ℕ → EventType → HistoryEvent
event id event_type = record {
  event_id = id;
  event_time = none;
  event_type = event_type;
  attributes = none;
}

abbrev first_task : List HistoryEvent
first_task =
    event 1 EventType.workflow_execution_started
    ∷ event 2 EventType.workflow_task_scheduled
    ∷ event 3 EventType.workflow_task_started
    ∷ []

abbrev signaled : List HistoryEvent
signaled =
    event 4 EventType.workflow_task_completed
    ∷ event 5 EventType.workflow_execution_signaled
    ∷ event 6 EventType.workflow_task_scheduled
    ∷ []

abbrev started : HistoryEvent
started = event 7 EventType.workflow_task_started

abbrev completed : HistoryEvent
completed = event 8 EventType.workflow_task_completed

-- A paginator at the start of history: the server answers with an empty page, and then with the last
-- one; event 7 was delivered with the task.
abbrev waiting : HistoryPaginator
waiting = record {
  previous_wft_started_id = 0;
  wft_started_event_id = 7;
  id_of_last_event_in_last_extracted_update = none;
  event_queue = first_task;
  next_page_token = fetch_from_start;
  final_events = started ∷ completed ∷ [];
}

abbrev answers : Answers
answers =
    some (record { history = none; next_page_token = 1 ∷ [] })
    ∷ some (record { history = some (first_task ++ signaled); next_page_token = [] })
    ∷ []

abbrev fetched : HistoryPaginator
fetched = record waiting {
  event_queue = first_task ++ (signaled ++ (started ∷ completed ∷ []));
  next_page_token = done;
  final_events = [];
}

fetches : get_next_page waiting answers ≡ ok (fetched, [])
unfolding get_next_page
fetches = refl

get_next_page-Pages_example : Pages waiting fetched answers []
get_next_page-Pages_example = get_next_page-Pages waiting fetched answers [] fetches

-- The whole history is one update, which has the last task.
extracts_test :
    extract_next_update waiting answers
    ≡ ok (
      update_of (first_task ++ (signaled ++ (started ∷ completed ∷ []))) 0 7 true 1,
      record fetched { event_queue = []; id_of_last_event_in_last_extracted_update = some 8 },
      [],
    )
unfolding extract_next_update get_next_page from_events find_end_index_of_next_wft_seq
    is_command_event is_final_wf_execution_event
extracts_test = refl

-- The same without the events that are queued already.
abbrev news : Answers
news = some (record { history = some signaled; next_page_token = [] }) ∷ []

extract_next_update-Extracts_example : Extracts first_task (extract_next_update waiting news)
extract_next_update-Extracts_example =
    extract_next_update-Extracts (event 1 EventType.workflow_execution_started) waiting news
      ((refl, omega arith), omega arith, omega arith)
