-- ===== src/Flags/Laws.antt =====
-- The bookkeeping of internal_flags.rs: reads after writes, and what a workflow task reports.
use sdk_core.Prelude.{
  ℕ, Bool, true, false, ◌||◌, some, List, [], ◌∷◌, ◌==◌, if◌then◌else◌, ◌≡◌, refl, ap, arith,
  ==_refl, ==→eq, Text,
}
use sdk_core.Flags.{
  as_flags, add_from_complete, gather_for_wft_complete, try_use, Enabled, InternalFlags, enabled,
  disabled, new, CoreInternalFlags, to_u32, from_u32, contains, insert, extend, difference,
}

pub contains-insert :
    (x y : ℕ) (ys : List ℕ) → contains x (insert y ys) ≡ ((y == x) || contains x ys)
unfolding insert contains
contains-insert x y ys = ground (arith, ==→eq y x)

pub contains-extend :
    (x : ℕ) (ys xs : List ℕ) → contains x (extend ys xs) ≡ (contains x xs || contains x ys)
unfolding extend contains
contains-extend x ys [] = refl
contains-extend x ys (y ∷ xs) =
    ground (arith, contains-extend x (insert y ys) xs, contains-insert x y ys)

pub contains-difference :
    (x : ℕ) (xs known : List ℕ)
    → contains x (difference xs known) ≡ (if contains x known then false else contains x xs)
unfolding difference contains
contains-difference x [] known = ground arith
contains-difference x (y ∷ xs) known = ground (arith, ==→eq y x, contains-difference x xs known)

pub from_u32-to_u32 : (f : CoreInternalFlags) → from_u32 (to_u32 f) ≡ f
unfolding from_u32 to_u32
from_u32-to_u32 CoreInternalFlags.id_and_type_determinism_checks = refl
from_u32-to_u32 _ = refl

∨-true : (b : Bool) → (b || true) ≡ true
∨-true true = refl
∨-true false = refl

difference-nil :
    (ys known : List ℕ)
    → ((x : ℕ) → contains x ys ≡ true → contains x known ≡ true)
    → difference ys known ≡ []
unfolding difference contains
difference-nil [] known h = refl
difference-nil (y ∷ ys) known h =
    let known_y : contains y known ≡ true = h y (rw (==_refl y)) in
    rw (known_y, difference) (difference-nil ys known (λ x e. h x (rw e (∨-true (y == x)))))

-- A set that was joined into another has nothing left over against it.
difference-extend : (xs known : List ℕ) → difference xs (extend known xs) ≡ []
difference-extend xs known =
    difference-nil xs (extend known xs) (λ x h. rw (contains-extend x known xs, h))

contains-as_flags :
    (flag : CoreInternalFlags) (xs : List ℕ)
    → contains (to_u32 flag) xs ≡ true
    → contains (to_u32 flag) (as_flags xs) ≡ true
unfolding contains as_flags
contains-as_flags flag [] h = cc
contains-as_flags flag (x ∷ xs) h = ground (
  arith,
  contains-as_flags flag xs,
  ==→eq x (to_u32 flag),
  from_u32-to_u32 flag,
  ==_refl (to_u32 flag),
  ap from_u32,
)

-- A flag that the machines used while executing, once it was gathered for the server and read back
-- by a fresh worker, may be used on replay.
pub recorded_flag_replays :
    (f : Enabled) (flag : CoreInternalFlags) (name version : Text)
    → contains (to_u32 flag) f.core ≡ false
    → let reported = (gather_for_wft_complete (try_use (enabled f) flag true).0).1 in
      (try_use (add_from_complete (new true name version) (some reported)) flag false).1 ≡ true
unfolding try_use gather_for_wft_complete add_from_complete new
recorded_flag_replays f flag name version unknown =
    let k = to_u32 flag in
    let since = insert k f.core_since_last_complete in
    let reported : contains k (difference since f.core) ≡ true =
      rw (contains-difference k since f.core, unknown, contains-insert k k, ==_refl k) in
    let read_back = contains-as_flags flag (difference since f.core) reported in
    rw (contains-extend k [] (as_flags (difference since f.core)), read_back)

-- What was gathered for one completed task is not reported again for the next.
pub gather_twice :
    (f : InternalFlags)
    → let again = (gather_for_wft_complete (gather_for_wft_complete f).0).1 in
      (again.core_used_flags ≡ []) × (again.lang_used_flags ≡ [])
unfolding gather_for_wft_complete
gather_twice disabled = (refl, refl)
gather_twice (enabled f) = (
  difference-extend f.core_since_last_complete f.core,
  difference-extend f.lang_since_last_complete f.lang,
)
