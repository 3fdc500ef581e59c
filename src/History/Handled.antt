-- ===== src/History/Handled.antt =====
-- `take_next_wft_sequence` where the update holds handled events only (history_update.rs).
use sdk_core.Prelude.{
  ℕ, zero, suc, ◌-◌, ◌<◌, ◌≤◌, true, none, some, List, [], ◌∷◌, All, length, take, drop, get_elem?,
  ok, ◌≡◌, refl, arith, subst, ap, lt→ltb,
}
use sdk_core.Proto.{HistoryEvent}
use sdk_core.History.{
  NextWftSeqEndIndex, complete, incomplete, HistoryUpdate, wft, relevant, build_next_wft, take_at,
  take_next_wft_sequence, starting_index_after_skipping,
}
use sdk_core.History.Ends.{SeqEnd, find_end-SeqEnd}

abbrev pub IsHandled : ℕ → HistoryEvent → Type 0
IsHandled from e = e.event_id ≤ from

starting_index-handled :
    (es : List HistoryEvent) (from : ℕ)
    → All (IsHandled from) es
    → starting_index_after_skipping es from ≡ none
unfolding starting_index_after_skipping
starting_index-handled [] from h = refl
starting_index-handled (e ∷ es) from h =
    let (old, olds) = h in ground (arith, starting_index-handled es from olds)

get_elem?-All :
    (es : List HistoryEvent) (from i : ℕ) {e : HistoryEvent}
    → All (IsHandled from) es
    → get_elem? es i ≡ some e
    → e.event_id ≤ from
get_elem?-All [] from i h at = cc
get_elem?-All (f ∷ es) from zero {e = e} h at =
    let (old, olds) = h in let same : f ≡ e = cc in subst (IsHandled from) same old
get_elem?-All (f ∷ es) from (suc i) h at = let (old, olds) = h in get_elem?-All es from i olds at

SeqEnd-handled :
    (es : List HistoryEvent) (from : ℕ) (answer : NextWftSeqEndIndex)
    → All (IsHandled from) es
    → SeqEnd es from answer
    → answer ≡ incomplete (length es - 1)
SeqEnd-handled es from (complete i) h (e, at, new, is) =
    let old = get_elem?-All es from i h at in absurd (let no : ⊥ = omega arith in no)
SeqEnd-handled es from (incomplete i) h s = ap incomplete s

take-all : (es : List HistoryEvent) (n : ℕ) → length es ≤ n → take n es ≡ es
take-all [] zero h = refl
take-all [] (suc n) h = refl
take-all (e ∷ es) zero h = ground arith
take-all (e ∷ es) (suc n) h =
    ap (λ (l : List HistoryEvent). e ∷ l) (take-all es n (omega (arith, h)))

drop-all : (es : List HistoryEvent) (n : ℕ) → length es ≤ n → drop n es ≡ []
drop-all [] zero h = refl
drop-all [] (suc n) h = refl
drop-all (e ∷ es) zero h = ground arith
drop-all (e ∷ es) (suc n) h = drop-all es n (omega (arith, h))

take_at-all :
    (u : HistoryUpdate) (n : ℕ)
    → u.has_last_wft ≡ true
    → 0 < n
    → suc n ≡ length u.events
    → take_at u (incomplete n) ≡ ok (record u { events = [] }, wft u.events true)
unfolding take_at build_next_wft
take_at-all u n last pos whole =
    ground (arith, take-all u.events (suc n), drop-all u.events (suc n), lt→ltb n (length u.events))

-- With the last WFT and at least two events, none of which is newer than the given id, a call yields
-- all of those events again, as the last sequence.
pub take_next-handled :
    (u : HistoryUpdate) (from : ℕ)
    → All (IsHandled from) u.events
    → u.has_last_wft ≡ true
    → 1 < length u.events
    → take_next_wft_sequence u from ≡ ok (record u { events = [] }, wft u.events true)
unfolding take_next_wft_sequence
take_next-handled u from h last two =
    let unmoved : relevant u.events from ≡ u.events =
      rw (starting_index-handled u.events from h, relevant) refl in
    let found = SeqEnd-handled u.events from _ h (find_end-SeqEnd u.events from u.has_last_wft) in
    rw (unmoved, found) (take_at-all u (length u.events - 1) last (omega arith) (omega arith))
