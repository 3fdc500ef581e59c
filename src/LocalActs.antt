-- ===== src/LocalActs.antt =====
-- core/src/worker/workflow/machines/workflow_machines/local_acts.rs: the local activities that one
-- workflow has requested, and those that run.
pub mod Outstanding
use sdk_core.Prelude.{
  ℕ, zero, suc, ◌+◌, Bool, true, false, not, ◌==◌, Option, none, some, List, [], ◌∷◌, ◌++◌, map,
  length, if◌then◌else◌, Text,
}
use sdk_core.Proto.{ValidScheduleLa}

pub record ExecutingLaId : Type 0 where
  pub run_id : Text
  pub seq_num : ℕ

pub record NewLocalAct : Type 0 where
  pub schedule_cmd : ValidScheduleLa
  pub workflow_type : Text
  pub workflow_id : Text
  pub run_id : Text
  pub schedule_time : ℕ

pub data LocalActRequest : Type 0 where
  new_request : NewLocalAct → LocalActRequest
  cancel_request : ExecutingLaId → LocalActRequest
  cancel_all_in_run : (run_id : Text) → LocalActRequest

-- A set of numbers, as a list without repetitions.
abbrev pub contains : ℕ → List ℕ → Bool
contains n [] = false
contains n (m ∷ ms) = if n == m then true else contains n ms

abbrev pub insert : ℕ → List ℕ → List ℕ
insert n ms = if contains n ms then ms else n ∷ ms

abbrev pub remove : ℕ → List ℕ → List ℕ
remove n [] = []
remove n (m ∷ ms) = if n == m then remove n ms else m ∷ remove n ms

-- A map from numbers, the newest entry of a key first.
abbrev pub lookup : {D : Type 0} → ℕ → List (ℕ × D) → Option D
lookup n [] = none
lookup n ((m, d) ∷ es) = if n == m then some d else lookup n es

abbrev pub erase : {D : Type 0} → ℕ → List (ℕ × D) → List (ℕ × D)
erase n [] = []
erase n ((m, d) ∷ es) = if n == m then erase n es else (m, d) ∷ erase n es

-- `ResolveDat` is what a marker resolves an activity with.
pub record LocalActivityData (ResolveDat : Type 0) : Type 0 where
  pub new_requests : List ValidScheduleLa
  pub cancel_requests : List ExecutingLaId
  pub executing : List ℕ
  pub preresolutions : List (ℕ × ResolveDat)
  pub am_terminating : Bool

-- `retain(|req| req.seq != seq)`.
abbrev pub retain_others : ℕ → List ValidScheduleLa → List ValidScheduleLa
retain_others seq [] = []
retain_others seq (r ∷ rs) = if r.seq == seq then retain_others seq rs else r ∷ retain_others seq rs

-- The first request of the sequence number, and the queue without it.
abbrev pub remove_first : ℕ → List ValidScheduleLa → Option ValidScheduleLa × List ValidScheduleLa
remove_first seq [] = (none, [])
remove_first seq (r ∷ rs) =
    let rest = remove_first seq rs in if r.seq == seq then (some r, rs) else (rest.0, r ∷ rest.1)

abbrev pub insert_all : List ValidScheduleLa → List ℕ → List ℕ
insert_all [] ms = ms
insert_all (r ∷ rs) ms = insert_all rs (insert r.seq ms)

module _ {D : Type 0} where
  unfoldable pub enqueue : LocalActivityData D → ValidScheduleLa → LocalActivityData D
  enqueue d act = record d { new_requests = d.new_requests ++ (act ∷ []) }

  unfoldable pub enqueue_cancel : LocalActivityData D → ExecutingLaId → LocalActivityData D
  enqueue_cancel d cancel = record d { cancel_requests = d.cancel_requests ++ (cancel ∷ []) }

  unfoldable pub done_executing : LocalActivityData D → ℕ → LocalActivityData D
  done_executing d seq = record d {
    new_requests = retain_others seq d.new_requests;
    executing = remove seq d.executing;
  }

  -- `now seq` is the time read while the request `seq` is taken.
  unfoldable pub take_all_reqs :
      LocalActivityData D
      → (wf_type wf_id run_id : Text) → (now : ℕ → ℕ) → LocalActivityData D × List LocalActRequest
  take_all_reqs d wf_type wf_id run_id now =
      if d.am_terminating then (d, cancel_all_in_run run_id ∷ []) else (
        record d {
          new_requests = [];
          cancel_requests = [];
          executing = insert_all d.new_requests d.executing;
        },
        map cancel_request d.cancel_requests
            ++ map
                (λ sa. new_request (record {
                  schedule_cmd = sa;
                  workflow_type = wf_type;
                  workflow_id = wf_id;
                  run_id = run_id;
                  schedule_time = now (sa.seq);
                }))
                d.new_requests,
      )

  unfoldable pub outstanding_la_count : LocalActivityData D → ℕ
  outstanding_la_count d =
      if d.am_terminating then 0 else length d.executing + length d.new_requests

  unfoldable pub insert_peeked_marker : LocalActivityData D → ℕ → D → LocalActivityData D
  insert_peeked_marker d seq dat = record d {
    preresolutions = (seq, dat) ∷ erase seq d.preresolutions;
  }

  unfoldable pub take_preresolution : LocalActivityData D → ℕ → LocalActivityData D × Option D
  take_preresolution d seq =
      (record d { preresolutions = erase seq d.preresolutions }, lookup seq d.preresolutions)

  unfoldable pub remove_from_queue :
      LocalActivityData D → ℕ → LocalActivityData D × Option ValidScheduleLa
  remove_from_queue d seq =
      let removed = remove_first seq d.new_requests in
      (record d { new_requests = removed.1 }, removed.0)

  unfoldable pub indicate_terminating : LocalActivityData D → LocalActivityData D
  indicate_terminating d = record d { am_terminating = true }
