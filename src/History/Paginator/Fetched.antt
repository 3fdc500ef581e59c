-- ===== src/History/Paginator/Fetched.antt =====
-- Which answers of the server a call for the next page uses, and what they add to the queue
-- (`get_next_page` and `extend_queue` of history_update.rs).
use sdk_core.Prelude.{
  ℕ, true, false, ◌&&◌, ◌≤◌, Option, none, some, List, [], ◌∷◌, ◌++◌, Outcome, ok, leb, >>=-eq-ok,
  ok-injective, if◌then◌else◌, ◌≡◌, refl, subst, inl, inr, arith, tests, Bool-cases, Option-cases,
}
use sdk_core.Proto.{HistoryEvent}
use sdk_core.History.{is_nil}
use sdk_core.History.Paginator.{
  NextPageToken, HistoryPaginator, Page, Stop, Answers, events_of, is_done, has_next, last_id,
  or_zero, skip_to, extend_queue, extend_final, with_page, fetch, get_next_page, done,
  fetch_from_start, next, token_of,
}
use sdk_core.History.Paginator.Queue.{StartsAfter, skip_to-StartsAfter}

-- The events that a call gets, the token and the answers that are left: at the end of the history
-- there are none; otherwise they are those of the first page that has events or is the last one.
pub data Fetches
    : NextPageToken → Answers → List HistoryEvent → NextPageToken → Answers → Type 0 where
  at_end :
      {token : NextPageToken} {rs : Answers} → is_done token ≡ true → Fetches token rs [] done rs
  passes :
      {token token' : NextPageToken} {p : Page} {rs left : Answers} {es : List HistoryEvent}
      → is_done token ≡ false
      → events_of p.history ≡ []
      → has_next (token_of p.next_page_token) ≡ true
      → Fetches (token_of p.next_page_token) rs es token' left
      → Fetches token (some p ∷ rs) es token' left
  answers :
      {token : NextPageToken} {p : Page} {rs : Answers}
      → is_done token ≡ false
      → (is_nil (events_of p.history) && has_next (token_of p.next_page_token)) ≡ false
      → Fetches token (some p ∷ rs) (events_of p.history) (token_of p.next_page_token) rs

abbrev pub AllUpTo : ℕ → List HistoryEvent → Type 0
AllUpTo id [] = Unit
AllUpTo id (e ∷ es) = (e.event_id ≤ id) × AllUpTo id es

-- `queue'` is `queue` and behind it the events of `es`, but for those at their start that are not
-- newer than `id`.
pub record Adds (id : ℕ) (es queue queue' : List HistoryEvent) : Type 0 where
  pub old : List HistoryEvent
  pub new : List HistoryEvent
  pub parts : es ≡ old ++ new
  pub old_AllUpTo : AllUpTo id old
  pub new_StartsAfter : StartsAfter id new
  pub added : queue' ≡ queue ++ new

-- What the final events add to the queue once there are no more pages, and which are left.
pub data Closes (token : NextPageToken) (queue final_events : List HistoryEvent)
    : List HistoryEvent → List HistoryEvent → Type 0 where
  more : is_done token ≡ false → Closes token queue final_events queue final_events
  nothing :
      is_done token ≡ true
      → last_id queue ≡ none
      → Closes token queue final_events queue final_events
  closed :
      {queue' : List HistoryEvent} (id : ℕ)
      → is_done token ≡ true
      → last_id queue ≡ some id
      → Adds id final_events queue queue'
      → Closes token queue final_events queue' []

-- A call for the next page, from `p` to `p'`.
pub record Pages (p p' : HistoryPaginator) (rs left : Answers) : Type 0 where
  pub fetched : List HistoryEvent
  pub queue : List HistoryEvent
  pub used : Fetches p.next_page_token rs fetched p'.next_page_token left
  pub page_added : Adds (or_zero (last_id p.event_queue)) fetched p.event_queue queue
  pub final_added : Closes p'.next_page_token queue p.final_events p'.event_queue p'.final_events
  pub kept_previous : p'.previous_wft_started_id ≡ p.previous_wft_started_id
  pub kept_started : p'.wft_started_event_id ≡ p.wft_started_event_id
  pub kept_last :
      p'.id_of_last_event_in_last_extracted_update ≡ p.id_of_last_event_in_last_extracted_update

-- The events that `skip_to` passes over.
abbrev old_of : ℕ → List HistoryEvent → List HistoryEvent
old_of id [] = []
old_of id (e ∷ es) = if leb e.event_id id then e ∷ old_of id es else []

old_of-parts : (id : ℕ) (es : List HistoryEvent) → es ≡ old_of id es ++ skip_to id es
old_of-parts id [] = refl
old_of-parts id (e ∷ es) = ground (arith, old_of-parts id es)

old_of-AllUpTo : (id : ℕ) (es : List HistoryEvent) → AllUpTo id (old_of id es)
old_of-AllUpTo id [] = tt
old_of-AllUpTo id (e ∷ es) = elim (Bool-cases (leb e.event_id id)) [
  | inl old ↦ rw old (omega tests, old_of-AllUpTo id es)
  | inr new ↦ rw new tt
]

skip_to-Adds : (id : ℕ) (es queue : List HistoryEvent) → Adds id es queue (queue ++ skip_to id es)
skip_to-Adds id es queue = record {
  old = old_of id es;
  new = skip_to id es;
  parts = old_of-parts id es;
  old_AllUpTo = old_of-AllUpTo id es;
  new_StartsAfter = skip_to-StartsAfter id es;
  added = refl;
}

-- One page of the loop, where `again` is the rest of it.
page-Fetches :
    (token : NextPageToken) (p : Page) (rs : Answers) (history : Option (List HistoryEvent))
    (token' : NextPageToken) (left : Answers)
    (again : Outcome Stop (Option (List HistoryEvent) × NextPageToken × Answers))
    → is_done token ≡ false
    → (if is_nil (events_of p.history) && has_next (token_of p.next_page_token)
        then again
        else ok (p.history, token_of p.next_page_token, rs))
      ≡ ok (history, token', left)
    → (again ≡ ok (history, token', left)
        → Fetches (token_of p.next_page_token) rs (events_of history) token' left)
    → Fetches token (some p ∷ rs) (events_of history) token' left
page-Fetches token p rs history token' left again further h rest =
    elim (Bool-cases (is_nil (events_of p.history) && has_next (token_of p.next_page_token))) [
      | inl passed ↦ passes further (ground arith) (ground arith) (rest (ground arith))
      | inr kept ↦
          subst (λ r. Fetches token (some p ∷ rs) (events_of r.0) r.1 r.2)
            (ok-injective (
              subst
                (λ b.
                  (if b then again else ok (p.history, token_of p.next_page_token, rs))
                  ≡ ok (history, token', left))
                kept h))
            (answers further kept)
    ]

fetch-Fetches :
    (token : NextPageToken) (rs : Answers) (history : Option (List HistoryEvent))
    (token' : NextPageToken) (left : Answers)
    → fetch token rs ≡ ok (history, token', left)
    → Fetches token rs (events_of history) token' left
unfolding fetch
fetch-Fetches done rs history token' left h =
    subst (λ r. Fetches done rs (events_of r.0) r.1 r.2) (ok-injective h) (at_end refl)
fetch-Fetches fetch_from_start [] history token' left h = cc
fetch-Fetches (next t) [] history token' left h = cc
fetch-Fetches fetch_from_start (none ∷ rs) history token' left h = cc
fetch-Fetches (next t) (none ∷ rs) history token' left h = cc
fetch-Fetches fetch_from_start (some p ∷ rs) history token' left h =
    page-Fetches fetch_from_start p rs history token' left (fetch (token_of p.next_page_token) rs)
      refl h (fetch-Fetches (token_of p.next_page_token) rs history token' left)
fetch-Fetches (next t) (some p ∷ rs) history token' left h =
    page-Fetches (next t) p rs history token' left (fetch (token_of p.next_page_token) rs) refl h
      (fetch-Fetches (token_of p.next_page_token) rs history token' left)

extend_final-Closes :
    (token : NextPageToken) (queue final_events : List HistoryEvent)
    → is_done token ≡ true
    → Closes token queue final_events
        (extend_final queue final_events).0
        (extend_final queue final_events).1
unfolding extend_final
extend_final-Closes token queue final_events last = elim (Option-cases (last_id queue)) [
  | inl empty ↦ rw (empty, extend_final) (nothing last empty)
  | inr (id, found) ↦
      rw (found, extend_final) (closed id last found (skip_to-Adds id final_events queue))
]

with_page-Pages :
    (p : HistoryPaginator) (rs left : Answers) (history : Option (List HistoryEvent))
    (token : NextPageToken)
    → Fetches p.next_page_token rs (events_of history) token left
    → Pages p (with_page p history token) rs left
unfolding with_page extend_queue
with_page-Pages p rs left history token used =
    let id = or_zero (last_id p.event_queue) in
    let queue = extend_queue p.event_queue history in
    elim (Bool-cases (is_done token)) [
      | inl last ↦
          rw (last, with_page)
            (record {
              fetched = events_of history;
              queue = queue;
              used = used;
              page_added = skip_to-Adds id (events_of history) p.event_queue;
              final_added = extend_final-Closes token queue p.final_events last;
              kept_previous = refl;
              kept_started = refl;
              kept_last = refl;
            })
      | inr further ↦
          rw (further, with_page)
            (record {
              fetched = events_of history;
              queue = queue;
              used = used;
              page_added = skip_to-Adds id (events_of history) p.event_queue;
              final_added = more further;
              kept_previous = refl;
              kept_started = refl;
              kept_last = refl;
            })
    ]

-- A call for the next page that succeeds gets the events of the first page that has some or has no
-- page behind it, or none at the end of the history. It puts them behind the queue, but for those at
-- their start that are not newer than the last one queued. If no page is left and the queue has an
-- event, then the final events follow in the same way, and none of them are left. The rest of the
-- paginator is kept, but for the token, which is that of the page used.
pub get_next_page-Pages :
    (p p' : HistoryPaginator) (rs left : Answers)
    → get_next_page p rs ≡ ok (p', left)
    → Pages p p' rs left
unfolding get_next_page
get_next_page-Pages p p' rs left h =
    let (fetched, found, r) = >>=-eq-ok (fetch p.next_page_token rs) _ h in
    let (history, token, unused) = fetched in
    subst (λ q. Pages p q.0 rs q.1) (ok-injective r)
      (with_page-Pages p rs unused history token
        (fetch-Fetches p.next_page_token rs history token unused found))
