-- ===== src/LocalActs/Outstanding.antt =====
-- Which local activities are outstanding, requested or running (local_acts.rs).
use sdk_core.Prelude.{
  ℕ, ◌+◌, Bool, true, false, not, ◌==◌, ◌&&◌, ◌||◌, List, [], ◌∷◌, ◌++◌, length, if◌then◌else◌,
  Text, ◌≡◌, refl, arith, Bool-cases, inl, inr, subst,
}
use sdk_core.Proto.{ValidScheduleLa}
use sdk_core.LocalActs.{
  ExecutingLaId, LocalActivityData, contains, insert, remove, retain_others, remove_first,
  insert_all, enqueue, enqueue_cancel, done_executing, take_all_reqs, outstanding_la_count,
  indicate_terminating, remove_from_queue, insert_peeked_marker, take_preresolution,
}

abbrev pub requested : ℕ → List ValidScheduleLa → Bool
requested n [] = false
requested n (r ∷ rs) = if r.seq == n then true else requested n rs

-- Whether the activity `n` is requested or runs.
abbrev pub is_outstanding : {D : Type 0} → LocalActivityData D → ℕ → Bool
is_outstanding d n = requested n d.new_requests || contains n d.executing

-- Each number in turn is new: no request repeats another one or one that runs.
abbrev pub Fresh : List ℕ → List ValidScheduleLa → Type 0
Fresh ms [] = Unit
Fresh ms (r ∷ rs) = (contains r.seq ms ≡ false) × Fresh (r.seq ∷ ms) rs

abbrev pub IsTracked : {D : Type 0} → LocalActivityData D → Type 0
IsTracked d = Fresh d.executing d.new_requests

insert-Fresh : (n : ℕ) (ms : List ℕ) → contains n ms ≡ false → insert n ms ≡ n ∷ ms
insert-Fresh n ms h = rw h refl

length-insert_all :
    (rs : List ValidScheduleLa) (ms : List ℕ)
    → Fresh ms rs
    → length (insert_all rs ms) ≡ length rs + length ms
length-insert_all [] ms h = omega arith
length-insert_all (r ∷ rs) ms h =
    let (new, rest) = h in
    rw (insert-Fresh r.seq ms new) (omega (arith, length-insert_all rs (r.seq ∷ ms) rest))

module _ {D : Type 0} where
  -- Taking all requests does not change how many activities are outstanding, as long as no request
  -- repeats the number of another one or of one that runs.
  pub outstanding-take_all :
      (d : LocalActivityData D) (wf_type wf_id run_id : Text) (now : ℕ → ℕ)
      → IsTracked d
      → outstanding_la_count (take_all_reqs d wf_type wf_id run_id now).0 ≡ outstanding_la_count d
  unfolding outstanding_la_count take_all_reqs
  outstanding-take_all d wf_type wf_id run_id now h =
      ground (arith, length-insert_all d.new_requests d.executing h)

requested-retain :
    (n seq : ℕ) (rs : List ValidScheduleLa)
    → requested n (retain_others seq rs) ≡ (requested n rs && not (n == seq))
requested-retain n seq [] = refl
requested-retain n seq (r ∷ rs) = ground (arith, requested-retain n seq rs)

contains-remove :
    (n seq : ℕ) (ms : List ℕ) → contains n (remove seq ms) ≡ (contains n ms && not (n == seq))
contains-remove n seq [] = refl
contains-remove n seq (m ∷ ms) = ground (arith, contains-remove n seq ms)

-- When an activity is done it is no longer outstanding, whether it was requested or ran, and the
-- others are as before.
pub done-outstanding :
    {D : Type 0} (d : LocalActivityData D) (seq n : ℕ)
    → is_outstanding (done_executing d seq) n ≡ (is_outstanding d n && not (n == seq))
unfolding done_executing
done-outstanding d seq n =
    ground (arith, requested-retain n seq d.new_requests, contains-remove n seq d.executing)

remove-same : (seq m : ℕ) (ms : List ℕ) → (m == seq) ≡ true → remove seq (m ∷ ms) ≡ remove seq ms
remove-same seq m ms h = ground arith

remove-other :
    (seq m : ℕ) (ms : List ℕ) → (m == seq) ≡ false → remove seq (m ∷ ms) ≡ m ∷ remove seq ms
remove-other seq m ms h = ground arith

Fresh-retain :
    (seq : ℕ) (ms : List ℕ) (rs : List ValidScheduleLa)
    → Fresh ms rs
    → Fresh (remove seq ms) (retain_others seq rs)
Fresh-retain seq ms [] h = tt
Fresh-retain seq ms (r ∷ rs) h =
    let (new, rest) = h in
    let ih = Fresh-retain seq (r.seq ∷ ms) rs rest in
    elim (Bool-cases (r.seq == seq)) [
      | inl same ↦
          rw same (subst (λ ns. Fresh ns (retain_others seq rs)) (remove-same seq r.seq ms same) ih)
      | inr other ↦ rw other (
        ground (arith, contains-remove r.seq seq ms),
        subst (λ ns. Fresh ns (retain_others seq rs)) (remove-other seq r.seq ms other) ih,
      )
    ]

Fresh-enqueue :
    (ms : List ℕ) (rs : List ValidScheduleLa) (r : ValidScheduleLa)
    → Fresh ms rs
    → contains r.seq ms ≡ false
    → requested r.seq rs ≡ false
    → Fresh ms (rs ++ (r ∷ []))
Fresh-enqueue ms [] r h new unasked = (new, tt)
Fresh-enqueue ms (s ∷ rs) r h new unasked =
    let (s_new, rest) = h in
    (s_new, Fresh-enqueue (s.seq ∷ ms) rs r rest (ground arith) (ground arith))

Fresh-fewer :
    (ms ns : List ℕ) (rs : List ValidScheduleLa)
    → ((k : ℕ) → contains k ms ≡ false → contains k ns ≡ false)
    → Fresh ms rs
    → Fresh ns rs
Fresh-fewer ms ns [] fewer h = tt
Fresh-fewer ms ns (r ∷ rs) fewer h =
    let (new, rest) = h in
    (
      fewer r.seq new,
      Fresh-fewer (r.seq ∷ ms) (r.seq ∷ ns) rs (λ k k_new. ground (arith, fewer k)) rest,
    )

Fresh-remove_first :
    (seq : ℕ) (ms : List ℕ) (rs : List ValidScheduleLa)
    → Fresh ms rs
    → Fresh ms (remove_first seq rs).1
Fresh-remove_first seq ms [] h = tt
Fresh-remove_first seq ms (r ∷ rs) h =
    let (new, rest) = h in
    elim (Bool-cases (r.seq == seq)) [
      | inl same ↦ rw same (Fresh-fewer (r.seq ∷ ms) ms rs (λ k k_new. ground arith) rest)
      | inr other ↦ rw other (new, Fresh-remove_first seq (r.seq ∷ ms) rs rest)
    ]

-- What happens to the data, each enqueued activity being one that is not outstanding.
pub data Happens {D : Type 0} (d : LocalActivityData D) : LocalActivityData D → Type 0 where
  requests : (act : ValidScheduleLa) → is_outstanding d act.seq ≡ false → Happens d (enqueue d act)
  cancels : (c : ExecutingLaId) → Happens d (enqueue_cancel d c)
  ends : (seq : ℕ) → Happens d (done_executing d seq)
  takes :
      (wf_type wf_id run_id : Text) (now : ℕ → ℕ)
      → Happens d (take_all_reqs d wf_type wf_id run_id now).0
  drops : (seq : ℕ) → Happens d (remove_from_queue d seq).0
  peeks : (seq : ℕ) (dat : D) → Happens d (insert_peeked_marker d seq dat)
  resolves : (seq : ℕ) → Happens d (take_preresolution d seq).0
  terminates : Happens d (indicate_terminating d)

-- The activities outstanding after a step: those before it and the one that is requested; or those
-- before it but the one that ended, or the one that was still in the queue and is dropped from it;
-- every other step leaves them as they are.
abbrev pub outstanding_after : {D : Type 0} {d e : LocalActivityData D} → Happens d e → ℕ → Bool
outstanding_after {d = d} (requests act _) n = act.seq == n || is_outstanding d n
outstanding_after {d = d} (ends seq) n = is_outstanding d n && not (n == seq)
outstanding_after {d = d} (drops seq) n =
    is_outstanding d n && not (requested seq d.new_requests && n == seq)
outstanding_after {d = d} (cancels c) n = is_outstanding d n
outstanding_after {d = d} (takes wf_type wf_id run_id now) n = is_outstanding d n
outstanding_after {d = d} (peeks seq dat) n = is_outstanding d n
outstanding_after {d = d} (resolves seq) n = is_outstanding d n
outstanding_after {d = d} terminates n = is_outstanding d n

step-Fresh : {D : Type 0} {d e : LocalActivityData D} → Happens d e → IsTracked d → IsTracked e
unfolding enqueue enqueue_cancel done_executing take_all_reqs indicate_terminating remove_from_queue
    insert_peeked_marker take_preresolution
step-Fresh {d = d} (requests act new) h =
    Fresh-enqueue d.executing d.new_requests act h (ground arith) (ground arith)
step-Fresh (cancels c) h = h
step-Fresh {d = d} (ends seq) h = Fresh-retain seq d.executing d.new_requests h
step-Fresh {d = d} (takes wf_type wf_id run_id now) h = elim (Bool-cases d.am_terminating) [
  | inl e ↦ rw e h
  | inr e ↦ rw e tt
]
step-Fresh {d = d} (drops seq) h = Fresh-remove_first seq d.executing d.new_requests h
step-Fresh (peeks seq dat) h = h
step-Fresh (resolves seq) h = h
step-Fresh terminates h = h

requested-append :
    (n : ℕ) (rs : List ValidScheduleLa) (r : ValidScheduleLa)
    → requested n (rs ++ (r ∷ [])) ≡ (r.seq == n || requested n rs)
requested-append n [] r = ground arith
requested-append n (s ∷ rs) r = ground (arith, requested-append n rs r)

contains-insert_all :
    (n : ℕ) (rs : List ValidScheduleLa) (ms : List ℕ)
    → contains n (insert_all rs ms) ≡ (requested n rs || contains n ms)
contains-insert_all n [] ms = refl
contains-insert_all n (r ∷ rs) ms = ground (arith, contains-insert_all n rs (insert r.seq ms))

outstanding-take :
    {D : Type 0} (d : LocalActivityData D) (wf_type wf_id run_id : Text) (now : ℕ → ℕ) (n : ℕ)
    → is_outstanding (take_all_reqs d wf_type wf_id run_id now).0 n ≡ is_outstanding d n
unfolding take_all_reqs
outstanding-take d wf_type wf_id run_id now n =
    ground (arith, contains-insert_all n d.new_requests d.executing)

-- A number that runs is not requested too.
Fresh-requested :
    (n : ℕ) (ms : List ℕ) (rs : List ValidScheduleLa)
    → Fresh ms rs
    → contains n ms ≡ true
    → requested n rs ≡ false
Fresh-requested n ms [] h k = refl
Fresh-requested n ms (r ∷ rs) h k =
    let (new, rest) = h in ground (arith, Fresh-requested n (r.seq ∷ ms) rs rest)

requested-remove_first :
    (n seq : ℕ) (ms : List ℕ) (rs : List ValidScheduleLa)
    → Fresh ms rs
    → requested n (remove_first seq rs).1 ≡ (requested n rs && not (n == seq))
requested-remove_first n seq ms [] h = refl
requested-remove_first n seq ms (r ∷ rs) h =
    let (new, rest) = h in
    ground (
      arith,
      requested-remove_first n seq (r.seq ∷ ms) rs rest,
      Fresh-requested r.seq (r.seq ∷ ms) rs rest,
    )

outstanding-drop :
    {D : Type 0} (d : LocalActivityData D) (seq n : ℕ)
    → IsTracked d
    → is_outstanding (remove_from_queue d seq).0 n
      ≡ (is_outstanding d n && not (requested seq d.new_requests && n == seq))
unfolding remove_from_queue
outstanding-drop d seq n h = ground (
  arith,
  requested-remove_first n seq d.executing d.new_requests h,
  Fresh-requested n d.executing d.new_requests h,
)

step-outstanding :
    {D : Type 0} {d e : LocalActivityData D} (h : Happens d e)
    → IsTracked d
    → (n : ℕ) → is_outstanding e n ≡ outstanding_after h n
unfolding enqueue enqueue_cancel indicate_terminating insert_peeked_marker take_preresolution
step-outstanding {d = d} (requests act new) h n =
    ground (arith, requested-append n d.new_requests act)
step-outstanding (cancels c) h n = refl
step-outstanding {d = d} (ends seq) h n = done-outstanding d seq n
step-outstanding {d = d} (takes wf_type wf_id run_id now) h n =
    outstanding-take d wf_type wf_id run_id now n
step-outstanding {d = d} (drops seq) h n = outstanding-drop d seq n h
step-outstanding (peeks seq dat) h n = refl
step-outstanding (resolves seq) h n = refl
step-outstanding terminates h n = refl

-- If no request repeats the number of another one or of one that runs, then a step keeps it so, where
-- a step enqueues an activity whose number is not outstanding, enqueues a cancellation, ends an
-- activity, takes all requests, drops one from the queue, stores or takes the resolution of a
-- marker, or starts to terminate. Afterwards the activity that is enqueued is outstanding, the one
-- that ended is not, nor is one that was dropped while it was in the queue; all others are outstanding
-- as before. So no activity is lost when the requests are taken.
pub Happens-IsTracked :
    {D : Type 0} {d e : LocalActivityData D} (h : Happens d e)
    → IsTracked d
    → IsTracked e × ((n : ℕ) → is_outstanding e n ≡ outstanding_after h n)
Happens-IsTracked h tracked = (step-Fresh h tracked, step-outstanding h tracked)
