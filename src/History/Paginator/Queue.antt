-- ===== src/History/Paginator/Queue.antt =====
-- What a fetched page does to the queue of the paginator (history_update.rs).
use mathlib.Core.List.{append-nil, append_assoc}
use sdk_core.Prelude.{
  panicked, ℕ, length, ◌<◌, true, Option, none, some, List, [], ◌∷◌, ◌++◌, ok, leb, >>=-eq-ok,
  ok-injective, ◌≡◌, ◌≢◌, refl, sym, ◌∙◌, ap, subst, ◌⊎◌, inl, inr, arith, Bool-cases, Option-cases,
  leb_false→lt,
}
use sdk_core.Proto.{HistoryEvent}
use sdk_core.History.Paginator.{
  NextPageToken, HistoryPaginator, Answers, events_of, is_done, last_id, or_zero, skip_to,
  extend_queue, extend_final, with_page, fetch, get_next_page, done, fetch_from_start, next,
  token_of,
}

-- The first event, if there is one, is newer than `id`.
abbrev pub StartsAfter : ℕ → List HistoryEvent → Type 0
StartsAfter id [] = Unit
StartsAfter id (e ∷ es) = id < e.event_id

pub skip_to-StartsAfter : (id : ℕ) (es : List HistoryEvent) → StartsAfter id (skip_to id es)
skip_to-StartsAfter id [] = tt
skip_to-StartsAfter id (e ∷ es) = elim (Bool-cases (leb e.event_id id)) [
  | inl old ↦ rw old (skip_to-StartsAfter id es)
  | inr new ↦ rw new (leb_false→lt e.event_id id new)
]

-- A queue and what was added to it.
abbrev pub Extends : List HistoryEvent → List HistoryEvent → Type 0
Extends queue queue' =
    (added : List HistoryEvent) × (queue' ≡ queue ++ added)
    × StartsAfter (or_zero (last_id queue)) added

append-StartsAfter :
    (queue xs ys : List HistoryEvent)
    → StartsAfter (or_zero (last_id queue)) xs
    → StartsAfter (or_zero (last_id (queue ++ xs))) ys
    → StartsAfter (or_zero (last_id queue)) (xs ++ ys)
append-StartsAfter queue [] ys h k =
    subst (λ q. StartsAfter (or_zero (last_id q)) ys) (append-nil queue) k
append-StartsAfter queue (x ∷ xs) ys h k = h

extend_final-Extends :
    (queue final_events : List HistoryEvent) → Extends queue (extend_final queue final_events).0
unfolding extend_final
extend_final-Extends queue final_events = elim (Option-cases (last_id queue)) [
  | inl nil ↦ rw (nil, extend_final) ([], sym (append-nil queue), tt)
  | inr (id, found) ↦
      rw (found, extend_final) (skip_to id final_events, refl, skip_to-StartsAfter id final_events)
]

Extends-trans : (q r s : List HistoryEvent) → Extends q r → Extends r s → Extends q s
Extends-trans q r s (a, e, h) (b, f, k) = (
  a ++ b,
  f ∙ ap (λ t. t ++ b) e ∙ append_assoc q a b,
  append-StartsAfter q a b h (subst (λ t. StartsAfter (or_zero (last_id t)) b) e k),
)

with_page-Extends :
    (p : HistoryPaginator) (history : Option (List HistoryEvent)) (token : NextPageToken)
    → Extends p.event_queue (with_page p history token).event_queue
unfolding with_page extend_queue
with_page-Extends p history token =
    let page : Extends p.event_queue (extend_queue p.event_queue history) = (
      skip_to (or_zero (last_id p.event_queue)) (events_of history),
      refl,
      skip_to-StartsAfter (or_zero (last_id p.event_queue)) (events_of history),
    ) in
    elim (Bool-cases (is_done token)) [
      | inl last ↦ rw last (
          Extends-trans p.event_queue _ _ page
            (extend_final-Extends (extend_queue p.event_queue history) p.final_events))
      | inr more ↦ rw more page
    ]

fetch-length :
    (token : NextPageToken) (rs : Answers) (history : Option (List HistoryEvent))
    (token' : NextPageToken) (left : Answers)
    → fetch token rs ≡ ok (history, token', left)
    → (is_done token ≡ true) ⊎ (length left < length rs)
unfolding fetch
fetch-length done rs history token' left h = inl refl
fetch-length fetch_from_start [] history token' left h = cc
fetch-length (next t) [] history token' left h = cc
fetch-length fetch_from_start (none ∷ rs) history token' left h = cc
fetch-length (next t) (none ∷ rs) history token' left h = cc
fetch-length fetch_from_start (some p ∷ rs) history token' left h =
    ground (arith, fetch-length (token_of p.next_page_token) rs history token' left)
fetch-length (next t) (some p ∷ rs) history token' left h =
    ground (arith, fetch-length (token_of p.next_page_token) rs history token' left)

-- A call for the next page that succeeds keeps the queue and adds to its end, and what it adds starts
-- with an event that is newer than the last one queued. It uses up an answer of the server, unless the
-- paginator was at the end of the history already.
pub get_next_page-Extends :
    (p p' : HistoryPaginator) (rs left : Answers)
    → get_next_page p rs ≡ ok (p', left)
    → Extends p.event_queue p'.event_queue
      × ((is_done p.next_page_token ≡ true) ⊎ (length left < length rs))
unfolding get_next_page
get_next_page-Extends p p' rs left h =
    let (fetched, found, r) = >>=-eq-ok (fetch p.next_page_token rs) _ h in
    let (history, token, unused) = fetched in
    let same = ok-injective r in
    (
      subst (λ q. Extends p.event_queue (q.0).event_queue) same (with_page-Extends p history token),
      subst (λ q. (is_done p.next_page_token ≡ true) ⊎ (length (q.1) < length rs)) same
          (fetch-length p.next_page_token rs history token unused found),
    )

fetch-done :
    (token : NextPageToken) (rs : Answers) (history : Option (List HistoryEvent))
    (token' : NextPageToken) (left : Answers)
    → fetch token rs ≡ ok (history, token', left)
    → is_done token ≡ true
    → is_done token' ≡ true
unfolding fetch
fetch-done done rs history token' left h d = ground arith
fetch-done fetch_from_start rs history token' left h d = cc
fetch-done (next t) rs history token' left h d = cc

with_page-token :
    (p : HistoryPaginator) (history : Option (List HistoryEvent)) (token : NextPageToken)
    → (with_page p history token).next_page_token ≡ token
unfolding with_page
with_page-token p history token = elim (Bool-cases (is_done token)) [
  | inl d ↦ rw d refl
  | inr m ↦ rw m refl
]

-- Past the end of the history, the paginator stays there.
pub get_next_page-done :
    (p p' : HistoryPaginator) (rs left : Answers)
    → get_next_page p rs ≡ ok (p', left)
    → is_done p.next_page_token ≡ true
    → is_done p'.next_page_token ≡ true
unfolding get_next_page
get_next_page-done p p' rs left h d =
    let (fetched, found, r) = >>=-eq-ok (fetch p.next_page_token rs) _ h in
    let (history, token, unused) = fetched in
    subst (λ q. is_done (q.0).next_page_token ≡ true) (ok-injective r)
      (rw with_page-token (fetch-done p.next_page_token rs history token unused found d))

fetch-returns : (token : NextPageToken) (rs : Answers) → fetch token rs ≢ panicked
unfolding fetch
fetch-returns done rs h = cc
fetch-returns fetch_from_start [] h = cc
fetch-returns (next t) [] h = cc
fetch-returns fetch_from_start (none ∷ rs) h = cc
fetch-returns (next t) (none ∷ rs) h = cc
fetch-returns fetch_from_start (some p ∷ rs) h =
    ground (arith, fetch-returns (token_of p.next_page_token) rs)
fetch-returns (next t) (some p ∷ rs) h =
    ground (arith, fetch-returns (token_of p.next_page_token) rs)

pub get_next_page-returns : (p : HistoryPaginator) (rs : Answers) → get_next_page p rs ≢ panicked
unfolding get_next_page
get_next_page-returns p rs h = ground (arith, fetch-returns p.next_page_token rs)
