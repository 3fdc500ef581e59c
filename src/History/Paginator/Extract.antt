-- ===== src/History/Paginator/Extract.antt =====
-- What `extract_next_update` does with the events of the queue and of the pages (history_update.rs).
use mathlib.Core.List.{append-nil}
use sdk_core.Prelude.{
  All, ap, ℕ, zero, suc, length, ◌<◌, Bool, true, false, not, ◌&&◌, ◌||◌, ltb, leb, some, List, [],
  ◌∷◌, ◌++◌, Outcome, ok, err, panicked, if◌then◌else◌, ◌>>=◌, ◌≡◌, ◌≢◌, refl, sym, ◌∙◌, subst, inl,
  inr, arith, ==→eq,
}
use sdk_core.Proto.{HistoryEvent}
use sdk_core.History.{HistoryUpdate, is_nil}
use sdk_core.History.Pages.{from_events, first_id}
use sdk_core.History.Pages.Split.{from_events-append}
use sdk_core.History.Paginator.{
  HistoryPaginator, Answers, Stop, is_done, Extracted, extra_is_same, same_id, empty_update,
  use_update, extract_body, extract, last_id, or_zero, extract_next_update, get_next_page,
  empty_fetch,
}
use sdk_core.History.Paginator.Queue.{
  get_next_page-Extends, get_next_page-done, get_next_page-returns,
}
use sdk_core.History.Paginator.Keeps.{
  Extracts, Extracts-if, Extracts-more, IsOther, Headed, Others, All-append_right,
  get_next_page-Others,
}

-- Events that are handed back and start like all of them are all of them.
extra-Extracts :
    (e : HistoryEvent) (events before extra : List HistoryEvent) (x : Extracted)
    → Headed e events
    → before ++ extra ≡ events
    → extra_is_same extra events ≡ true
    → (Headed e extra → Extracts extra x)
    → Extracts events x
unfolding extra_is_same same_id first_id
extra-Extracts e events [] extra x headed whole same h =
    subst (λ q. Extracts q x) whole (h (subst (Headed e) (sym whole) headed))
extra-Extracts e events (b ∷ bs) [] x headed whole same h = cc
extra-Extracts e [] (b ∷ bs) (f ∷ fs) x headed whole same h = absurd headed
extra-Extracts e (g ∷ gs) (b ∷ bs) (f ∷ fs) x headed whole same h =
    let tails : bs ++ (f ∷ fs) ≡ gs = cc in
    let others = All-append_right e bs (f ∷ fs) (subst (All (IsOther e)) (sym tails) headed.1) in
    let ids : f.event_id ≡ g.event_id = ==→eq f.event_id g.event_id same in
    absurd (others.0 (ids ∙ ap (λ (k : HistoryEvent). k.event_id) headed.0))

and-left : (a b : Bool) → (a && b) ≡ true → a ≡ true
and-left true b h = refl
and-left false b h = cc

and-right : (a b : Bool) → (a && b) ≡ true → b ≡ true
and-right true b h = h
and-right false b h = cc

and-not : (a b : Bool) → (not a && b) ≡ true → a ≡ false
and-not true b h = cc
and-not false b h = refl

not_true : (a b : Bool) → (a ≡ true → b ≡ true) → b ≡ false → a ≡ false
not_true true b h k = sym (h refl) ∙ k
not_true false b h k = refl

seen_more : (n d s : Bool) → (n || (d && not s)) ≡ false → d ≡ true → (d && s) ≡ true
seen_more n true true h e = refl
seen_more true true false h e = cc
seen_more false true false h e = cc
seen_more n false s h e = cc

is_nil-eq : (es : List HistoryEvent) → is_nil es ≡ true → [] ≡ es
is_nil-eq [] h = refl
is_nil-eq (e ∷ es) h = cc

module _ (p : HistoryPaginator) (events : List HistoryEvent) (left : Answers)
    (again : List HistoryEvent → Extracted) (e : HistoryEvent) (headed : Headed e events)
    (keep : is_done p.next_page_token ≡ false
      → (queue : List HistoryEvent) → Headed e queue
      → Extracts queue (again queue)) where
  empty_update-Extracts :
      Extracts []
        (empty_update p left (from_events [] p.previous_wft_started_id p.wft_started_event_id true))
  unfolding empty_update
  empty_update-Extracts =
      let (u, rest, returned, whole, _, _) =
        from_events-append [] p.previous_wft_started_id p.wft_started_event_id true in
      rw returned (u.events ++ p.event_queue, refl)

  some_update-Extracts :
      (no_more : Bool)
      → (is_done p.next_page_token ≡ true → no_more ≡ true)
      → (u : HistoryUpdate) (extra : List HistoryEvent) → u.events ++ extra ≡ events
      → Extracts events
          (use_update p events left (is_done p.next_page_token) no_more again (some (u, extra)))
  unfolding use_update
  some_update-Extracts no_more d u extra whole =
      let few = not (is_done p.next_page_token) && ltb u.wft_count 2 in
      let same = not no_more && extra_is_same extra events in
      let used : Extracted = ok (
        u,
        record p {
          event_queue = extra;
          id_of_last_event_in_last_extracted_update = last_id u.events;
        },
        left,
      ) in
      Extracts-if events few (again (u.events ++ extra)) (if same then again extra else used)
        (λ c.
          subst (λ q. Extracts q (again (u.events ++ extra))) whole
            (keep (and-not (is_done p.next_page_token) (ltb u.wft_count 2) c) (u.events ++ extra)
              (subst (Headed e) (sym whole) headed)))
        (λ _.
          Extracts-if events same (again extra) used
            (λ c.
              extra-Extracts e events u.events extra (again extra) headed whole
                (and-right (not no_more) (extra_is_same extra events) c)
                (keep (not_true _ _ d (and-not no_more (extra_is_same extra events) c)) extra))
            (λ _. ([], whole ∙ sym (append-nil events))))

  use_update-Extracts :
      (no_more : Bool)
      → (is_done p.next_page_token ≡ true → no_more ≡ true)
      → Extracts events (
          use_update p events left
            (is_done p.next_page_token)
            no_more
            again
            (from_events events p.previous_wft_started_id p.wft_started_event_id no_more))
  unfolding use_update
  use_update-Extracts no_more d =
      let (u, extra, returned, whole, _, _) =
        from_events-append events p.previous_wft_started_id p.wft_started_event_id no_more in
      rw returned (some_update-Extracts no_more d u extra whole)

  extract_body-Extracts : Extracts events (extract_body p events left again)
  unfolding extract_body
  extract_body-Extracts =
      let last = is_done p.next_page_token in
      let seen = leb p.wft_started_event_id (or_zero (last_id events)) in
      let sent = leb p.wft_started_event_id (or_zero p.id_of_last_event_in_last_extracted_update) in
      let empty =
        empty_update p left
          (from_events [] p.previous_wft_started_id p.wft_started_event_id true) in
      let used =
        use_update p events left last (last && seen) again
          (from_events events p.previous_wft_started_id p.wft_started_event_id (last && seen)) in
      let lacking = is_nil events || (last && not seen) in
      Extracts-if events (is_nil events && (last && sent)) empty
        (if lacking then err empty_fetch else used)
        (λ c.
          subst (λ q. Extracts q empty)
            (is_nil-eq events (and-left (is_nil events) (last && sent) c)) empty_update-Extracts)
        (λ _.
          Extracts-if events lacking (err empty_fetch) used (λ _. tt)
            (λ c. use_update-Extracts (last && seen) (seen_more (is_nil events) last seen c)))

Extracts-bind :
    (queue : List HistoryEvent) (o : Outcome Stop (HistoryPaginator × Answers))
    (k : HistoryPaginator × Answers → Extracted)
    → o ≢ panicked
    → ((p : HistoryPaginator) (left : Answers) → o ≡ ok (p, left) → Extracts queue (k (p, left)))
    → Extracts queue (o >>= k)
Extracts-bind queue panicked k r h = absurd (r refl)
Extracts-bind queue (err e) k r h = tt
Extracts-bind queue (ok (p, left)) k r h = h p left refl

extract-Extracts :
    (fuel : ℕ) (e : HistoryEvent) (p : HistoryPaginator) (rs : Answers)
    → Others e p rs
    → length rs < fuel
    → Extracts p.event_queue (extract fuel p rs)
unfolding extract
extract-Extracts zero e p rs others h = omega arith
extract-Extracts (suc fuel) e p rs others h =
    Extracts-bind p.event_queue (get_next_page p rs) _ (get_next_page-returns p rs) (λ q left got.
      let ((added, same, new), shorter) = get_next_page-Extends p q rs left got in
      let (headed, final, pages) = get_next_page-Others e p q rs left others got in
      Extracts-more p.event_queue added q.event_queue _ same (
        extract_body-Extracts (record q { event_queue = [] }) q.event_queue left _ e headed
          (λ more queue headed'.
            extract-Extracts fuel e (record q { event_queue = queue }) left (headed', final, pages)
              (elim shorter [
                | inl d ↦
                    let d' = get_next_page-done p q rs left got d in absurd (let no : ⊥ = cc in no)
                | inr less ↦ omega (arith, less, h)
              ]))))

-- If the queue is not empty, and the id of its first event is repeated neither in it nor in the final
-- events and the pages of the server, then extracting an update returns, with an update or with an
-- error: the loop ends, and nothing in it unwinds. An update, and then the queue that is left, hold
-- the events of the queue before, all of them and in their order, and then events that were added.
pub extract_next_update-Extracts :
    (e : HistoryEvent) (p : HistoryPaginator) (rs : Answers)
    → Others e p rs
    → Extracts p.event_queue (extract_next_update p rs)
unfolding extract_next_update
extract_next_update-Extracts e p rs others =
    extract-Extracts (suc (length rs)) e p rs others (omega arith)
