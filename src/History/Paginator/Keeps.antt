-- ===== src/History/Paginator/Keeps.antt =====
-- What it is for an extraction to keep the events of the queue (history_update.rs), and how that passes
-- from one turn of the loop to another.
use mathlib.Core.List.{append_assoc}
use sdk_core.Prelude.{
  ℕ, Bool, true, false, Option, none, some, List, [], ◌∷◌, ◌++◌, All, ok, err, panicked, leb,
  if◌then◌else◌, ◌≡◌, ◌≢◌, refl, ◌∙◌, ap, subst, Bool-cases, inl, inr, >>=-eq-ok, ok-injective,
  Outcome, ◌&&◌, Option-cases,
}
use sdk_core.Proto.{HistoryEvent}
use sdk_core.History.{is_nil}
use sdk_core.History.Paginator.{
  Stop, Extracted, Answers, HistoryPaginator, NextPageToken, events_of, skip_to, or_zero, last_id,
  extend_queue, extend_final, with_page, fetch, get_next_page, is_done, done, fetch_from_start,
  next, token_of, has_next,
}

-- Whether the events are those of the queue before, with others added.
abbrev pub Keeps : List HistoryEvent → List HistoryEvent → Type 0
Keeps queue events = (added : List HistoryEvent) × (events ≡ queue ++ added)

abbrev pub Extracts : List HistoryEvent → Extracted → Type 0
Extracts queue panicked = ⊥
Extracts queue (err e) = Unit
Extracts queue (ok (u, p, left)) = Keeps queue (u.events ++ p.event_queue)

pub Extracts-if :
    (queue : List HistoryEvent) (b : Bool) (x y : Extracted)
    → (b ≡ true → Extracts queue x)
    → (b ≡ false → Extracts queue y)
    → Extracts queue (if b then x else y)
Extracts-if queue true x y h k = h refl
Extracts-if queue false x y h k = k refl

-- A turn that starts with more events than the queue before.
pub Extracts-more :
    (queue added events : List HistoryEvent) (x : Extracted)
    → events ≡ queue ++ added
    → Extracts events x
    → Extracts queue x
Extracts-more queue added events panicked e h = h
Extracts-more queue added events (err s) e h = tt
Extracts-more queue added events (ok (u, p, left)) e (more, same) =
    (added ++ more, same ∙ ap (λ t. t ++ more) e ∙ append_assoc queue added more)

-- Another id than that of `e`.
abbrev pub IsOther : HistoryEvent → HistoryEvent → Type 0
IsOther e f = f.event_id ≢ e.event_id

-- The events start with `e`, and its id is not repeated.
abbrev pub Headed : HistoryEvent → List HistoryEvent → Type 0
Headed e [] = ⊥
Headed e (f ∷ fs) = (f ≡ e) × All (IsOther e) fs

-- No page and no final event has the id of `e`.
abbrev pub OtherPages : HistoryEvent → Answers → Type 0
OtherPages e [] = Unit
OtherPages e (none ∷ rs) = OtherPages e rs
OtherPages e (some p ∷ rs) = All (IsOther e) (events_of p.history) × OtherPages e rs

pub All-append :
    (e : HistoryEvent) (xs ys : List HistoryEvent)
    → All (IsOther e) xs
    → All (IsOther e) ys
    → All (IsOther e) (xs ++ ys)
All-append e [] ys h k = k
All-append e (x ∷ xs) ys h k = (h.0, All-append e xs ys h.1 k)

pub All-append_right :
    (e : HistoryEvent) (xs ys : List HistoryEvent) → All (IsOther e) (xs ++ ys) → All (IsOther e) ys
All-append_right e [] ys h = h
All-append_right e (x ∷ xs) ys h = All-append_right e xs ys h.1

Headed-append :
    (e : HistoryEvent) (xs ys : List HistoryEvent)
    → Headed e xs
    → All (IsOther e) ys
    → Headed e (xs ++ ys)
Headed-append e [] ys h k = absurd h
Headed-append e (x ∷ xs) ys h k = (h.0, All-append e xs ys h.1 k)

skip_to-All :
    (e : HistoryEvent) (id : ℕ) (es : List HistoryEvent)
    → All (IsOther e) es
    → All (IsOther e) (skip_to id es)
skip_to-All e id [] h = tt
skip_to-All e id (f ∷ fs) h = elim (Bool-cases (leb f.event_id id)) [
  | inl old ↦ rw old (skip_to-All e id fs h.1)
  | inr new ↦ rw new h
]

-- What a fetched page leaves of the three.
abbrev pub Others : HistoryEvent → HistoryPaginator → Answers → Type 0
Others e p rs = Headed e p.event_queue × All (IsOther e) p.final_events × OtherPages e rs

extend_final-Headed :
    (e : HistoryEvent) (queue final_events : List HistoryEvent)
    → Headed e queue
    → All (IsOther e) final_events
    → Headed e (extend_final queue final_events).0
      × All (IsOther e) (extend_final queue final_events).1
unfolding extend_final
extend_final-Headed e queue final_events h k = elim (Option-cases (last_id queue)) [
  | inl nil ↦ rw (nil, extend_final) (h, k)
  | inr (id, found) ↦
      rw (found, extend_final)
        (Headed-append e queue (skip_to id final_events) h (skip_to-All e id final_events k), tt)
]

with_page-Headed :
    (e : HistoryEvent) (p : HistoryPaginator) (history : Option (List HistoryEvent))
    (token : NextPageToken)
    → Headed e p.event_queue
    → All (IsOther e) p.final_events
    → All (IsOther e) (events_of history)
    → Headed e (with_page p history token).event_queue
      × All (IsOther e) (with_page p history token).final_events
unfolding with_page extend_queue
with_page-Headed e p history token h k page =
    let id = or_zero (last_id p.event_queue) in
    let queue =
      Headed-append e p.event_queue (skip_to id (events_of history)) h
        (skip_to-All e id (events_of history) page) in
    elim (Bool-cases (is_done token)) [
      | inl last ↦
          rw last
            (extend_final-Headed e (extend_queue p.event_queue history) p.final_events queue k)
      | inr more ↦ rw more (queue, k)
    ]

abbrev FetchedOthers :
    HistoryEvent → Outcome Stop (Option (List HistoryEvent) × NextPageToken × Answers) → Type 0
FetchedOthers e (ok (history, token, left)) =
    All (IsOther e) (events_of history) × OtherPages e left
FetchedOthers e _ = Unit

FetchedOthers-if :
    (e : HistoryEvent) (b : Bool)
    (x y : Outcome Stop (Option (List HistoryEvent) × NextPageToken × Answers))
    → FetchedOthers e x
    → FetchedOthers e y
    → FetchedOthers e (if b then x else y)
FetchedOthers-if e true x y h k = h
FetchedOthers-if e false x y h k = k

fetch-Others :
    (e : HistoryEvent) (token : NextPageToken) (rs : Answers)
    → OtherPages e rs
    → FetchedOthers e (fetch token rs)
unfolding fetch
fetch-Others e done rs h = (tt, h)
fetch-Others e fetch_from_start [] h = tt
fetch-Others e (next t) [] h = tt
fetch-Others e fetch_from_start (none ∷ rs) h = tt
fetch-Others e (next t) (none ∷ rs) h = tt
fetch-Others e fetch_from_start (some p ∷ rs) h =
    FetchedOthers-if e (is_nil (events_of p.history) && has_next (token_of p.next_page_token))
      (fetch (token_of p.next_page_token) rs) (ok (p.history, token_of p.next_page_token, rs))
      (fetch-Others e (token_of p.next_page_token) rs h.1) h
fetch-Others e (next t) (some p ∷ rs) h =
    FetchedOthers-if e (is_nil (events_of p.history) && has_next (token_of p.next_page_token))
      (fetch (token_of p.next_page_token) rs) (ok (p.history, token_of p.next_page_token, rs))
      (fetch-Others e (token_of p.next_page_token) rs h.1) h

pub get_next_page-Others :
    (e : HistoryEvent) (p p' : HistoryPaginator) (rs left : Answers)
    → Others e p rs
    → get_next_page p rs ≡ ok (p', left)
    → Others e p' left
unfolding get_next_page
get_next_page-Others e p p' rs left (h, k, others) got =
    let (fetched, found, r) = >>=-eq-ok (fetch p.next_page_token rs) _ got in
    let (history, token, unused) = fetched in
    let (page, rest) = subst (FetchedOthers e) found (fetch-Others e p.next_page_token rs others) in
    let (queue, final) = with_page-Headed e p history token h k page in
    subst (λ q. Others e (q.0) (q.1)) (ok-injective r) (queue, final, rest)
