-- ===== src/Prelude/Results.antt =====
-- `Result`, with the errors that the program tells apart, and the `?` operator as bind.
use mathlib.Core.Path.{◌≡◌, refl}
use mathlib.Core.Bool.{Bool, true, false}
use mathlib.Core.Option.{Option, none, some}

pub data Result {ℓ κ} (A : Type ℓ) (E : Type κ) : Type (ℓ ⊔ κ) where
  ok : A → Result A E
  err : E → Result A E

-- `Option::ok_or`.
abbrev pub ok_or {ℓ μ} : {A : Type ℓ} {E : Type μ} → Option A → E → Result A E
ok_or none e = err e
ok_or (some a) e = ok a

-- `if !test { bail!(error); }`.
abbrev pub guard {μ} : {E : Type μ} → Bool → E → Result (Unit {0}) E
guard false error = err error
guard true error = ok tt

infixl 5 ◌>>=◌ ◌>>◌
abbrev pub ◌>>=◌ {ℓ κ μ} :
    {A : Type ℓ} {B : Type κ} {E : Type μ} → Result A E → (A → Result B E) → Result B E
err error >>= next = err error
ok value >>= next = next value

abbrev pub ◌>>◌ {ℓ μ} : {B : Type ℓ} {E : Type μ} → Result (Unit {0}) E → Result B E → Result B E
first >> next = first >>= λ _. next

-- A result of two steps is one of the first step, and of the second after it.
pub first_ok {ℓ κ μ} :
    {A : Type ℓ} {B : Type κ} {E : Type μ} (next : A → Result B E) (first : Result A E) (b : B)
    → (first >>= next) ≡ ok b
    → (a : A) × ((first ≡ ok a) × (next a ≡ ok b))
first_ok next (ok value) b e = (value, (refl, e))
first_ok next (err error) b e = cc

pub eq_of_ok {ℓ μ} :
    {A : Type ℓ} {E : Type μ} (a b : A) → ◌≡◌ {A = Result A E} (ok a) (ok b) → a ≡ b
eq_of_ok a b e = cc
