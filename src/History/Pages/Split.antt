-- ===== src/History/Pages/Split.antt =====
-- `HistoryUpdate::from_events` (history_update.rs): a page cut after its last complete sequence.
use sdk_core.Prelude.{
  ℕ, zero, suc, ◌+◌, ◌-◌, ◌<◌, Bool, true, false, Option, none, some, List, [], ◌∷◌, ◌++◌, length,
  take, drop, get_elem?, ltb, if◌then◌else◌, ◌≡◌, refl, ◌⊎◌, inl, inr, arith, subst, sym, ap, ◌∙◌,
}
use sdk_core.Proto.{HistoryEvent}
use sdk_core.History.{NextWftSeqEndIndex, complete, incomplete, HistoryUpdate}
use sdk_core.History.Pages.{count_wfts, split_at_end, split_counted, from_events, update_of}
use sdk_core.History.Ends.{SeqEnd, find_end-SeqEnd, ends}
use sdk_core.History.Take.{take-append-drop, get_elem?-some-lt}

get_elem?-drop : (es : List HistoryEvent) (i j : ℕ) → get_elem? (drop i es) j ≡ get_elem? es (j + i)
get_elem?-drop es zero j = ap (get_elem? es) (let e : j ≡ j + 0 = omega arith in e)
get_elem?-drop [] (suc i) j = refl
get_elem?-drop (e ∷ es) (suc i) j =
    get_elem?-drop es i j
    ∙ ap (get_elem? (e ∷ es)) (let e : suc (j + i) ≡ j + suc i = omega arith in e)

length-drop : (es : List HistoryEvent) (i : ℕ) → length (drop i es) ≡ length es - i
length-drop es zero = omega arith
length-drop [] (suc i) = omega arith
length-drop (e ∷ es) (suc i) = omega (arith, length-drop es i)

drop-drop : (es : List HistoryEvent) (i j : ℕ) → drop j (drop i es) ≡ drop (j + i) es
drop-drop es zero j = ap (λ (n : ℕ). drop n es) (let e : j ≡ j + 0 = omega arith in e)
drop-drop [] (suc i) zero = ap (λ (n : ℕ). drop n []) (let e : suc i ≡ 0 + suc i = omega arith in e)
drop-drop [] (suc i) (suc j) =
    sym (ap (λ (n : ℕ). drop n []) (let e : suc j + suc i ≡ suc (j + suc i) = omega arith in e))
drop-drop (e ∷ es) (suc i) j =
    drop-drop es i j
    ∙ ap (λ (n : ℕ). drop n (e ∷ es)) (let e : suc (j + i) ≡ j + suc i = omega arith in e)

-- The event at the end of a sequence.
abbrev pub EndsAt : List HistoryEvent → ℕ → Type 0
EndsAt all i = (e : HistoryEvent) × (get_elem? all i ≡ some e) × (ends e ≡ true)

-- A sequence that starts at the head of the slice does not end there.
complete-pos :
    (f : HistoryEvent) (rest : List HistoryEvent) (j : ℕ)
    → SeqEnd (f ∷ rest) f.event_id (complete j)
    → 0 < j
complete-pos f rest zero (e, at, new, is) =
    let same : f ≡ e = cc in let ids = ap (λ (x : HistoryEvent). x.event_id) same in omega arith
complete-pos f rest (suc j) h = omega arith

-- What the loop returns for the slice that starts at `ix`.
abbrev Counted : List HistoryEvent → Option (ℕ × ℕ) → Type 0
Counted all none = ⊥
Counted all (some (end, count)) = EndsAt all end × (0 < count)

Counted-elim :
    (all : List HistoryEvent) (f : HistoryEvent) (rest : List HistoryEvent) (ix count : ℕ)
    (answer : NextWftSeqEndIndex) (next : ℕ → Option (ℕ × ℕ))
    → drop ix all ≡ f ∷ rest
    → SeqEnd (f ∷ rest) f.event_id answer
    → EndsAt all ix
    → ((j : ℕ) → 0 < j → EndsAt all (j + ix) → Counted all (next j))
    → Counted all (elim answer [ incomplete _ ↦ some (ix, suc count) | complete j ↦ next j ])
Counted-elim all f rest ix count (incomplete i) next slice h at rec = (at, omega arith)
Counted-elim all f rest ix count (complete j) next slice h at rec =
    let pos = complete-pos f rest j h in
    let (e, found, new, is) = h in
    rec j pos (e, sym (get_elem?-drop all ix j) ∙ ap (λ es. get_elem? es j) slice ∙ found, is)

-- The slice `rest` starts at an index of the events, so it is not empty.
count_wfts-Counted :
    (all rest : List HistoryEvent) (fuel ix : ℕ) (has_last : Bool) (count : ℕ)
    → drop ix all ≡ rest
    → length rest < fuel
    → EndsAt all ix
    → Counted all (count_wfts fuel rest ix has_last count)
unfolding count_wfts
count_wfts-Counted all rest zero ix has_last count slice enough at = omega arith
count_wfts-Counted all [] (suc fuel) ix has_last count slice enough at =
    let (e, found, is) = at in
    let inside = get_elem?-some-lt all ix found in
    let empty : length (drop ix all) ≡ 0 = ap length slice in
    absurd (let bad : ⊥ = omega (arith, length-drop all ix, empty, inside) in bad)
count_wfts-Counted all (f ∷ rest) (suc fuel) ix has_last count slice enough at =
    Counted-elim all f rest ix count _
      (λ j. count_wfts fuel (drop j (f ∷ rest)) (j + ix) has_last (suc count)) slice
      (find_end-SeqEnd (f ∷ rest) f.event_id has_last) at
      (λ j pos end.
        count_wfts-Counted all (drop j (f ∷ rest)) fuel (j + ix) has_last (suc count)
          (sym (drop-drop all ix j) ∙ ap (λ es. drop j es) slice)
          (omega (arith, length-drop (f ∷ rest) j, enough)) end)

-- The update and the events handed back.
record Splits (all : List HistoryEvent) (has_last : Bool) (u : HistoryUpdate)
    (rest : List HistoryEvent) : Type 0 where
  whole : u.events ++ rest ≡ all
  kept : rest ≡ [] ⊎ has_last ≡ false
  ends_well : (u.events ≡ []) ⊎ ((has_last ≡ true) ⊎ EndsAt all (length u.events - 1))

abbrev Split : List HistoryEvent → Bool → Option (HistoryUpdate × List HistoryEvent) → Type 0
Split all has_last none = ⊥
Split all has_last (some (u, rest)) = Splits all has_last u rest

length-take-suc :
    (es : List HistoryEvent) (n : ℕ) → n < length es → length (take (suc n) es) ≡ suc n
length-take-suc [] n h = omega (arith, h)
length-take-suc (e ∷ es) zero h = omega arith
length-take-suc (e ∷ []) (suc n) h = omega (arith, h)
length-take-suc (e ∷ f ∷ es) (suc n) h = ap suc (length-take-suc (f ∷ es) n (omega (arith, h)))

append-empty : (es : List HistoryEvent) → es ++ [] ≡ es
append-empty [] = refl
append-empty (e ∷ es) = ap (λ (l : List HistoryEvent). e ∷ l) (append-empty es)

split_at_end-Splits :
    (all : List HistoryEvent) (previous started : ℕ) (has_last : Bool) (end count : ℕ)
    → EndsAt all end
    → Split all has_last (split_at_end all previous started has_last (end, count))
unfolding split_at_end
split_at_end-Splits [] previous started has_last end count (e, found, is) = cc
split_at_end-Splits (f ∷ all) previous started true end count at = record {
  whole = append-empty (f ∷ all);
  kept = inl refl;
  ends_well = inr (inl refl);
}
split_at_end-Splits (f ∷ all) previous started false end count at =
    let (e, found, is) = at in
    let inside = get_elem?-some-lt (f ∷ all) end found in
    let in_range : ltb (length (f ∷ all)) (suc end) ≡ false = ground arith in
    let n : end ≡ length (take (suc end) (f ∷ all)) - 1 =
      rw (length-take-suc (f ∷ all) end inside) (omega arith) in
    rw in_range (record {
      whole = take-append-drop (suc end) (f ∷ all);
      kept = inr refl;
      ends_well = inr (inr (subst (EndsAt (f ∷ all)) n at));
    })

Split-map :
    (all : List HistoryEvent) (previous started : ℕ) (has_last : Bool) (counted : Option (ℕ × ℕ))
    → Counted all counted
    → Split all has_last (split_counted all previous started has_last counted)
unfolding split_counted
Split-map all previous started has_last none h = h
Split-map all previous started has_last (some (end, count)) h =
    split_at_end-Splits all previous started has_last end count h.0

Split-elim :
    (all : List HistoryEvent) (previous started : ℕ) (has_last : Bool) (answer : NextWftSeqEndIndex)
    (next : ℕ → Option (ℕ × ℕ))
    → ((ix : ℕ) → answer ≡ complete ix → Counted all (next ix))
    → Split all has_last (elim answer [
      | incomplete _ ↦ some (
          if has_last
          then (update_of all previous started has_last 1, [])
          else (update_of [] previous started has_last 0, all))
      | complete ix ↦ split_counted all previous started has_last (next ix)
    ])
Split-elim all previous started true (incomplete i) next h = record {
  whole = append-empty all;
  kept = inl refl;
  ends_well = inr (inl refl);
}
Split-elim all previous started false (incomplete i) next h = record {
  whole = refl;
  kept = inr refl;
  ends_well = inl refl;
}
Split-elim all previous started has_last (complete ix) next h =
    Split-map all previous started has_last (next ix) (h ix refl)

from_events-Split :
    (all : List HistoryEvent) (previous started : ℕ) (has_last : Bool)
    → Split all has_last (from_events all previous started has_last)
unfolding from_events
from_events-Split all previous started has_last =
    Split-elim all previous started has_last _ _ (λ ix found.
      count_wfts-Counted all (drop ix all) (suc (length all)) ix has_last 0 refl
        (omega (arith, length-drop all ix))
        (let (e, at, new, is) =
            subst (SeqEnd all previous) found (find_end-SeqEnd all previous has_last) in
          (e, at, is)))

Split-some :
    (all : List HistoryEvent) (has_last : Bool)
    (result : Option (HistoryUpdate × List HistoryEvent))
    → Split all has_last result
    → (u : HistoryUpdate) × (rest : List HistoryEvent) × (result ≡ some (u, rest))
      × Splits all has_last u rest
Split-some all has_last none h = absurd h
Split-some all has_last (some (u, rest)) h = (u, rest, refl, h)

-- Building an update from any events returns: the loop ends, and neither the end of a sequence from
-- which it searches on nor the one past which it splits the events is out of their range. The events
-- of the update and then the events that are handed back are the given ones; events are handed back
-- only without the last WFT; and then the last event of the update, if it has any, is a WFT started or
-- ends the workflow.
pub from_events-append :
    (all : List HistoryEvent) (previous started : ℕ) (has_last : Bool)
    → (u : HistoryUpdate) × (rest : List HistoryEvent) × (from_events all previous started has_last
        ≡ some (u, rest))
      × (u.events ++ rest ≡ all)
      × (rest ≡ [] ⊎ has_last ≡ false)
      × ((u.events ≡ []) ⊎ ((has_last ≡ true) ⊎ EndsAt all (length u.events - 1)))
from_events-append all previous started has_last =
    let (u, rest, returned, s) =
      Split-some all has_last _ (from_events-Split all previous started has_last) in
    (u, rest, returned, s.whole, s.kept, s.ends_well)
