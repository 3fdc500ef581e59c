-- ===== src/History/Take.antt =====
-- `take_next_wft_sequence`, `peek_next_wft_sequence` and `build_next_wft` (history_update.rs).
use sdk_core.Prelude.{
  ℕ, zero, suc, ◌<◌, Bool, true, false, ◌&&◌, some, List, [], ◌∷◌, ◌++◌, length, take, drop,
  get_elem?, ltb, ◌==◌, if◌then◌else◌, ok, err, panicked, ◌≡◌, ◌≢◌, refl, ◌⊎◌, inl, inr, arith,
  Bool-cases, subst, sym, ap, ◌∙◌, ltb→lt, lt→ltb,
}
use sdk_core.Proto.{HistoryEvent}
use sdk_core.History.{
  NextWftSeqEndIndex, complete, incomplete, index, add, find_end_index_of_next_wft_seq,
  HistoryUpdate, wft, replay_over, need_fetch, relevant, is_nil, Taken, build_next_wft, take_at,
  take_next_wft_sequence, peek_next_wft_sequence, can_take_next_wft_sequence,
}
use sdk_core.History.Drain.{find_end-relevant, skipped}
use sdk_core.History.Ends.{SeqEnd, find_end-SeqEnd}

pub take-append-drop : (n : ℕ) (es : List HistoryEvent) → take n es ++ drop n es ≡ es
take-append-drop zero es = refl
take-append-drop (suc n) [] = refl
take-append-drop (suc n) (e ∷ es) = ap (λ (l : List HistoryEvent). e ∷ l) (take-append-drop n es)

pub get_elem?-some-lt :
    (es : List HistoryEvent) (n : ℕ) {e : HistoryEvent} → get_elem? es n ≡ some e → n < length es
get_elem?-some-lt [] n h = cc
get_elem?-some-lt (e ∷ es) zero h = omega arith
get_elem?-some-lt (e ∷ es) (suc n) h = omega (arith, get_elem?-some-lt es n h)

-- The answer is in the slice where it is complete, or is not 0.
index-lt-length :
    (es : List HistoryEvent) (from : ℕ) (answer : NextWftSeqEndIndex)
    → SeqEnd es from answer
    → index answer ≢ 0 ⊎ answer ≡ complete (index answer)
    → index answer < length es
unfolding index
index-lt-length es from (complete i) h k = let (e, at, new, is) = h in get_elem?-some-lt es i at
index-lt-length es from (incomplete i) h (inl k) = omega arith
index-lt-length es from (incomplete i) h (inr k) = cc

-- What a call that yields a sequence has done with the events that were left.
record Cut (events : List HistoryEvent) (has_last : Bool) (u' : HistoryUpdate)
    (seq : List HistoryEvent) (last : Bool) (n : ℕ) : Type 0 where
  n_lt : n < length events
  is_seq : seq ≡ take (suc n) events
  is_left : u'.events ≡ drop (suc n) events
  is_last : last ≡ (is_nil u'.events && has_last)
  same : u'.has_last_wft ≡ has_last

abbrev Cuts : List HistoryEvent → Bool → ℕ → Taken → Type 0
Cuts events has_last n (ok (u', wft seq last)) = Cut events has_last u' seq last n
Cuts events has_last n _ = Unit

build_next_wft-Cuts :
    (u : HistoryUpdate) (n : ℕ) → Cuts u.events u.has_last_wft n (build_next_wft u n)
unfolding build_next_wft
build_next_wft-Cuts u n = elim (Bool-cases (ltb n (length u.events))) [
  | inl fits ↦
      rw fits record {
        n_lt = ltb→lt _ _ fits;
        is_seq = refl;
        is_left = refl;
        is_last = refl;
        same = refl;
      }
  | inr short ↦ rw short tt
]

Cuts-if :
    (events : List HistoryEvent) (has_last : Bool) (n : ℕ) (b : Bool) (x y : Taken)
    → Cuts events has_last n x
    → Cuts events has_last n y
    → Cuts events has_last n (if b then x else y)
Cuts-if events has_last n true x y h k = h
Cuts-if events has_last n false x y h k = k

take_at-Cuts :
    (u : HistoryUpdate) (answer : NextWftSeqEndIndex)
    → Cuts u.events u.has_last_wft (index answer) (take_at u answer)
unfolding take_at index
take_at-Cuts u (complete i) = build_next_wft-Cuts u i
take_at-Cuts u (incomplete i) =
    Cuts-if _ u.has_last_wft i u.has_last_wft _ _
      (Cuts-if _ u.has_last_wft i (i == 0) _ _ tt (build_next_wft-Cuts u i))
      (Cuts-if _ u.has_last_wft i (i == 0) _ _ tt tt)

take_next-Cuts :
    (u : HistoryUpdate) (from : ℕ)
    → Cuts
        (relevant u.events from)
        u.has_last_wft
        (index (find_end_index_of_next_wft_seq (relevant u.events from) from u.has_last_wft))
        (take_next_wft_sequence u from)
unfolding take_next_wft_sequence
take_next-Cuts u from = take_at-Cuts (record u { events = relevant u.events from }) _

SeqEnd-of :
    (u : HistoryUpdate) (from : ℕ)
    → SeqEnd
        (relevant u.events from)
        from
        (find_end_index_of_next_wft_seq (relevant u.events from) from u.has_last_wft)
SeqEnd-of u from = find_end-SeqEnd (relevant u.events from) from u.has_last_wft

take_if_nil :
    (es : List HistoryEvent) (n : ℕ) → (if is_nil es then es else take (suc n) es) ≡ take (suc n) es
take_if_nil [] n = refl
take_if_nil (e ∷ es) n = refl

length-take_pos : (es : List HistoryEvent) (n : ℕ) → n < length es → 0 < length (take (suc n) es)
length-take_pos [] n h = omega (arith, h)
length-take_pos (e ∷ es) n h = omega arith

peek-take :
    (u : HistoryUpdate) (from : ℕ)
    → peek_next_wft_sequence u from
      ≡ take
          (suc
            (index (find_end_index_of_next_wft_seq (relevant u.events from) from u.has_last_wft)))
          (relevant u.events from)
unfolding peek_next_wft_sequence
peek-take u from = take_if_nil (relevant u.events from) _

-- Where a call yields a sequence, the relevant events are that sequence and then the events that the
-- update has left, the sequence is the one that a peek shows and is not empty, and the flag is set
-- exactly where no event is left and the update has the last WFT.
pub take_next-append :
    (u u' : HistoryUpdate) (from : ℕ) (seq : List HistoryEvent) (last : Bool)
    → take_next_wft_sequence u from ≡ ok (u', wft seq last)
    → (seq ++ u'.events ≡ relevant u.events from)
      × (seq ≡ peek_next_wft_sequence u from)
      × (0 < length seq)
      × (last ≡ (is_nil u'.events && u.has_last_wft))
take_next-append u u' from seq last h =
    let n = index (find_end_index_of_next_wft_seq (relevant u.events from) from u.has_last_wft) in
    let c : Cut (relevant u.events from) u.has_last_wft u' seq last n =
      subst (Cuts (relevant u.events from) u.has_last_wft _) h (take_next-Cuts u from) in
    (
      rw (c.is_seq, c.is_left) (take-append-drop (suc n) (relevant u.events from)),
      c.is_seq ∙ sym (peek-take u from),
      rw c.is_seq (length-take_pos _ _ c.n_lt),
      c.is_last,
    )

-- The call neither unwinds nor asks for another page.
abbrev pub usable : Taken → Bool
usable (ok (u, need_fetch)) = false
usable (ok (u, _)) = true
usable (err e) = false
usable panicked = false

usable-build :
    (u : HistoryUpdate) (n : ℕ) → n < length u.events → usable (build_next_wft u n) ≡ true
unfolding build_next_wft
usable-build u n h = rw (lt→ltb _ _ h) refl

abbrev is_taken : Bool → NextWftSeqEndIndex → Bool
is_taken has_last (complete i) = true
is_taken has_last (incomplete i) = has_last

usable-cases :
    (u : HistoryUpdate) (has_last is_zero : Bool) (built : Taken)
    → (is_zero ≡ false → usable built ≡ true)
    → usable (
        if has_last
        then if is_zero then ok (u, replay_over) else built
        else if is_zero
        then ok (u, need_fetch)
        else panicked)
      ≡ has_last
usable-cases u true true built h = refl
usable-cases u true false built h = h refl
usable-cases u false true built h = refl
usable-cases u false false built h = refl

usable-take_at :
    (u : HistoryUpdate) (from : ℕ) (answer : NextWftSeqEndIndex)
    → SeqEnd u.events from answer
    → usable (take_at u answer) ≡ is_taken u.has_last_wft answer
unfolding take_at
usable-take_at u from (complete i) h =
    let (e, at, new, is) = h in usable-build u i (get_elem?-some-lt u.events i at)
usable-take_at u from (incomplete i) h =
    usable-cases u u.has_last_wft (i == 0) _
      (λ nonzero. usable-build u i (let inside : i < length u.events = ground arith in inside))

is_taken-add :
    (has_last : Bool) (answer : NextWftSeqEndIndex) (d : ℕ)
    → is_taken has_last (add answer d) ≡ is_taken has_last answer
unfolding add
is_taken-add has_last (complete i) d = refl
is_taken-add has_last (incomplete i) d = refl

can_take-is_taken :
    (u : HistoryUpdate) (from : ℕ)
    → can_take_next_wft_sequence u from
      ≡ is_taken u.has_last_wft (find_end_index_of_next_wft_seq u.events from u.has_last_wft)
unfolding can_take_next_wft_sequence
can_take-is_taken u from = ground arith

-- `can_take_next_wft_sequence` is true exactly where taking the next sequence yields one or says that
-- the replay is over, and false exactly where taking it asks for another page or panics.
pub can_take-usable :
    (u : HistoryUpdate) (from : ℕ)
    → can_take_next_wft_sequence u from ≡ usable (take_next_wft_sequence u from)
unfolding take_next_wft_sequence
can_take-usable u from =
    can_take-is_taken u from
    ∙ rw find_end-relevant (is_taken-add u.has_last_wft _ (skipped u.events from))
    ∙ sym (usable-take_at (record u { events = relevant u.events from }) from _ (SeqEnd-of u from))
