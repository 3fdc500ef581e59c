-- ===== src/History/Paginator.antt =====
-- `HistoryPaginator` (history_update.rs): the pages that it fetches and queues, and the updates that
-- it extracts from the queue. How it is created from a poll is left out. The server is the list of
-- its answers to the calls, in their order. Where a call fails, the paginator is dropped, so it is
-- not part of the result.
pub mod Extract
pub mod Fetched
pub mod Keeps
pub mod Queue
use sdk_core.Prelude.{
  ℕ, zero, suc, ◌+◌, Bool, true, false, not, ◌&&◌, ◌||◌, ltb, leb, ◌==◌, Option, none, some, List,
  [], ◌∷◌, ◌++◌, length, if◌then◌else◌, Text, Outcome, ok, err, panicked, ◌>>=◌,
}
use sdk_core.Proto.{HistoryEvent}
use sdk_core.History.{HistoryUpdate, is_nil}
use sdk_core.History.Pages.{Updated, from_events, first_id}

pub data NextPageToken : Type 0 where
  fetch_from_start done : NextPageToken
  next : Text → NextPageToken

-- `From<Vec<u8>> for NextPageToken`.
abbrev pub token_of : Text → NextPageToken
token_of [] = done
token_of (b ∷ bs) = next (b ∷ bs)

-- `GetWorkflowExecutionHistoryResponse`.
pub record Page : Type 0 where
  pub history : Option (List HistoryEvent)
  pub next_page_token : Text

-- `waits` is not an error of the source: the answers given are used up.
pub data Stop : Type 0 where
  waits status empty_fetch : Stop

pub record HistoryPaginator : Type 0 where
  pub previous_wft_started_id : ℕ
  pub wft_started_event_id : ℕ
  pub id_of_last_event_in_last_extracted_update : Option ℕ
  pub event_queue : List HistoryEvent
  pub next_page_token : NextPageToken
  pub final_events : List HistoryEvent

abbrev pub Answers : Type 0
Answers = List (Option Page)

abbrev pub events_of : Option (List HistoryEvent) → List HistoryEvent
events_of none = []
events_of (some es) = es

abbrev pub is_done : NextPageToken → Bool
is_done done = true
is_done _ = false

abbrev pub has_next : NextPageToken → Bool
has_next (next _) = true
has_next _ = false

-- The loop of `get_next_page`, an empty page with a token behind it being passed over.
fetch :
    NextPageToken → Answers → Outcome Stop (Option (List HistoryEvent) × NextPageToken × Answers)
fetch done rs = ok (none, done, rs)
fetch token [] = err waits
fetch token (none ∷ rs) = err status
fetch token (some p ∷ rs) =
    let again = fetch (token_of p.next_page_token) rs in
    if is_nil (events_of p.history) && has_next (token_of p.next_page_token)
    then again
    else ok (p.history, token_of p.next_page_token, rs)

abbrev pub last_id : List HistoryEvent → Option ℕ
last_id [] = none
last_id (e ∷ []) = some e.event_id
last_id (e ∷ f ∷ es) = last_id (f ∷ es)

abbrev pub or_zero : Option ℕ → ℕ
or_zero none = 0
or_zero (some n) = n

-- `skip_while(|e| e.event_id <= id)`.
abbrev pub skip_to : ℕ → List HistoryEvent → List HistoryEvent
skip_to id [] = []
skip_to id (e ∷ es) = let rest = skip_to id es in if leb e.event_id id then rest else e ∷ es

extend_queue : List HistoryEvent → Option (List HistoryEvent) → List HistoryEvent
extend_queue queue history = queue ++ skip_to (or_zero (last_id queue)) (events_of history)

-- What the end of the pages adds, and the final events that are left.
extend_final : List HistoryEvent → List HistoryEvent → List HistoryEvent × List HistoryEvent
extend_final queue final_events = elim (last_id queue) [
  | some id ↦ (queue ++ skip_to id final_events, [])
  | none ↦ (queue, final_events)
]

with_page : HistoryPaginator → Option (List HistoryEvent) → NextPageToken → HistoryPaginator
unfolding extend_queue extend_final
with_page p history token =
    let queue = extend_queue p.event_queue history in
    let extended = extend_final queue p.final_events in
    if is_done token
    then record p { event_queue = extended.0; final_events = extended.1; next_page_token = token }
    else record p { event_queue = queue; next_page_token = token }

unfoldable pub get_next_page :
    HistoryPaginator → Answers → Outcome Stop (HistoryPaginator × Answers)
unfolding fetch with_page
get_next_page p rs =
    fetch p.next_page_token rs >>= λ (history, token, left). ok (with_page p history token, left)

abbrev pub Extracted : Type 0
Extracted = Outcome Stop (HistoryUpdate × HistoryPaginator × Answers)

-- `map(|e| e.event_id == first_event_id).unwrap_or_default()`. The events given are not empty where it
-- is used, so they have a `first_event_id`.
same_id : Option ℕ → Option ℕ → Bool
same_id (some m) (some n) = m == n
same_id _ _ = false

-- Whether the events handed back start like the events that were given.
extra_is_same : List HistoryEvent → List HistoryEvent → Bool
unfolding same_id first_id
extra_is_same extra events = same_id (first_id extra) (first_id events)

-- The special case of an empty page at the end of history.
empty_update : HistoryPaginator → Answers → Updated → Extracted
empty_update p left none = panicked
empty_update p left (some (u, _)) = ok (u, p, left)

-- Past `from_events`. `p` is the paginator with its queue taken out; `again` is the loop's next turn,
-- on the queue it is given.
use_update :
    HistoryPaginator
    → List HistoryEvent
    → Answers
    → (no_next_page no_more : Bool) → (List HistoryEvent → Extracted)
    → Updated
    → Extracted
unfolding extra_is_same
use_update p events left no_next_page no_more again none = panicked
use_update p events left no_next_page no_more again (some (u, extra)) =
    if not no_next_page && ltb u.wft_count 2
    then again (u.events ++ extra)
    else if not no_more && extra_is_same extra events
    then again extra
    else ok (
      u,
      record p {
        event_queue = extra;
        id_of_last_event_in_last_extracted_update = last_id u.events;
      },
      left,
    )

-- The body of `extract_next_update` past the fetch.
extract_body :
    HistoryPaginator → List HistoryEvent → Answers → (List HistoryEvent → Extracted) → Extracted
unfolding empty_update use_update
extract_body p events left again =
    let no_next_page = is_done p.next_page_token in
    let seen_enough_events = leb p.wft_started_event_id (or_zero (last_id events)) in
    let already_sent =
      leb p.wft_started_event_id (or_zero p.id_of_last_event_in_last_extracted_update) in
    let no_more = no_next_page && seen_enough_events in
    if is_nil events && (no_next_page && already_sent)
    then empty_update p left (from_events [] p.previous_wft_started_id p.wft_started_event_id true)
    else if is_nil events || (no_next_page && not seen_enough_events)
    then err empty_fetch
    else use_update p events left no_next_page no_more again
        (from_events events p.previous_wft_started_id p.wft_started_event_id no_more)

-- The loop of `extract_next_update`. `panicked` is also the end of the fuel.
extract : ℕ → HistoryPaginator → Answers → Extracted
unfolding extract_body
extract zero p rs = panicked
extract (suc fuel) p rs = get_next_page p rs >>= λ (fetched, left).
    extract_body (record fetched { event_queue = [] }) fetched.event_queue left
      (λ queue. extract fuel (record fetched { event_queue = queue }) left)

-- Each turn but the last one uses up an answer.
unfoldable pub extract_next_update : HistoryPaginator → Answers → Extracted
unfolding extract
extract_next_update p rs = extract (suc (length rs)) p rs
