-- ===== src/Machines/Patch/Ids.antt =====
-- The set of patch ids that `has_change` keeps: ascending, and with the ids that went in.
use sdk_core.Prelude.{
  Bool, true, false, ◌||◌, List, [], ◌∷◌, Text, text_eq, text_eq→eq, ◌≡◌, refl, ap, ◌∙◌, inl, inr,
  Bool-cases, arith,
}
use sdk_core.Machines.Patch.Creation.{text_ltb, insert_id, id_set}

-- Whether an id is in a list of them.
abbrev pub has : Text → List Text → Bool
has z [] = false
has z (y ∷ ys) = text_eq z y || has z ys

abbrev pub Below : Text → List Text → Type 0
Below x [] = Unit {0}
Below x (y ∷ ys) = text_ltb x y ≡ true

-- Strictly, so without duplicates.
abbrev pub Ascends : List Text → Type 0
Ascends [] = Unit {0}
Ascends (x ∷ xs) = Below x xs × Ascends xs

-- The order is total.
text-compare : (s t : Text) → text_eq s t ≡ false → text_ltb s t ≡ false → text_ltb t s ≡ true
unfolding text_eq text_ltb
text-compare [] [] h k = cc
text-compare [] (b ∷ t) h k = cc
text-compare (a ∷ s) [] h k = refl
text-compare (a ∷ s) (b ∷ t) h k = ground (arith, text-compare s t)

insert-Below :
    (y x : Text) (ys : List Text) → text_ltb y x ≡ true → Below y ys → Below y (insert_id x ys)
unfolding insert_id
insert-Below y x [] l b = l
insert-Below y x (z ∷ zs) l b = ground arith

insert-Ascends : (x : Text) (ys : List Text) → Ascends ys → Ascends (insert_id x ys)
unfolding insert_id
insert-Ascends x [] a = (tt, tt)
insert-Ascends x (y ∷ ys) (b, a) = elim (Bool-cases (text_eq x y)) [
  | inl same ↦ rw same (b, a)
  | inr other ↦ elim (Bool-cases (text_ltb x y)) [
    | inl less ↦ rw (other, less) (less, (b, a))
    | inr more ↦
        rw (other, more)
          (insert-Below y x ys (text-compare x y other more) b, insert-Ascends x ys a)
  ]
]

has-insert : (z x : Text) (ys : List Text) → has z (insert_id x ys) ≡ (text_eq z x || has z ys)
unfolding insert_id
has-insert z x [] = refl
has-insert z x (y ∷ ys) = elim (Bool-cases (text_eq x y)) [
  | inl same ↦ let e : x ≡ y = text_eq→eq x y same in rw same (rw e (ground arith))
  | inr other ↦ elim (Bool-cases (text_ltb x y)) [
    | inl less ↦ rw (other, less) refl
    | inr more ↦ rw (other, more, has-insert z x ys) (ground arith)
  ]
]

id_set-Ascends : (xs : List Text) → Ascends (id_set xs)
unfolding id_set
id_set-Ascends [] = tt
id_set-Ascends (x ∷ xs) = insert-Ascends x (id_set xs) (id_set-Ascends xs)

has-id_set : (z : Text) (xs : List Text) → has z (id_set xs) ≡ has z xs
unfolding id_set
has-id_set z [] = refl
has-id_set z (x ∷ xs) = rw (has-insert z x (id_set xs), has-id_set z xs) refl

-- The ids with one more.
pub set-Ascends : (x : Text) (xs : List Text) → Ascends (insert_id x (id_set xs))
set-Ascends x xs = insert-Ascends x (id_set xs) (id_set-Ascends xs)

pub has-set :
    (x : Text) (xs : List Text) (z : Text)
    → has z (insert_id x (id_set xs)) ≡ (text_eq z x || has z xs)
has-set x xs z = has-insert z x (id_set xs) ∙ ap (λ b. text_eq z x || b) (has-id_set z xs)
