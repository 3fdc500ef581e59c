-- ===== src/Prelude/Results.antt =====
-- `Result<A, E>` of a call that may also unwind (`panic!`, `unreachable!`, a failed `unwrap`).
use mathlib.Core.Path.{◌≡◌, refl}

pub data Outcome {ℓ κ} (E : Type κ) (A : Type ℓ) : Type (ℓ ⊔ κ) where
  ok : A → Outcome E A
  err : E → Outcome E A
  panicked : Outcome E A

-- The `?` operator where the error type is converted.
abbrev pub map_err {ℓ κ ι} :
    {E : Type κ} {F : Type ι} {A : Type ℓ} → (E → F) → Outcome E A → Outcome F A
map_err f panicked = panicked
map_err f (err e) = err (f e)
map_err f (ok a) = ok a

module _ {ℓ κ ι} {E : Type ι} {A : Type ℓ} {B : Type κ} where
  infixl 5 ◌>>=◌
  -- The `?` operator where it is not: a failure, of either kind, skips what follows.
  abbrev pub ◌>>=◌ : Outcome E A → (A → Outcome E B) → Outcome E B
  panicked >>= next = panicked
  err x >>= next = err x
  ok value >>= next = next value

  -- A chain that succeeds succeeds at its first step.
  pub >>=-eq-ok :
      (first : Outcome E A) (next : A → Outcome E B) {end : B}
      → (first >>= next) ≡ ok end
      → (value : A) × (first ≡ ok value) × (next value ≡ ok end)
  >>=-eq-ok panicked next h = cc
  >>=-eq-ok (err x) next h = cc
  >>=-eq-ok (ok value) next h = (value, refl, h)

pub ok-injective {ℓ κ} :
    {E : Type κ} {A : Type ℓ} {a b : A} → ◌≡◌ {A = Outcome E A} (ok a) (ok b) → a ≡ b
ok-injective h = cc

pub map_err-eq-ok {ℓ κ ι} :
    {E : Type κ} {F : Type ι} {A : Type ℓ} (f : E → F) (o : Outcome E A) {a : A}
    → map_err f o ≡ ok a
    → o ≡ ok a
map_err-eq-ok f panicked h = cc
map_err-eq-ok f (err e) h = cc
map_err-eq-ok f (ok a) h = cc
