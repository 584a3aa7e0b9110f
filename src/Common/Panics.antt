-- ===== src/Common/Panics.antt =====
-- A Go computation that ends normally or panics. Panics are explicit calls of `panic` and
-- dereferences of a nil pointer.
use mathlib.Core.Path.{◌≡◌, refl}
use mathlib.Core.Logic.{◌⊎◌, inl, inr}
use mathlib.Core.Option.{Option, none, some}

pub data Go {ℓ} (A : Type ℓ) : Type ℓ where
  ok : A → Go A
  panic : Go A

infixl 5 ◌>>=◌ ◌>>◌
abbrev pub ◌>>=◌ {ℓ κ} : {A : Type ℓ} {B : Type κ} → Go A → (A → Go B) → Go B
ok a >>= f = f a
panic >>= f = panic

abbrev pub ◌>>◌ {ℓ} : {B : Type ℓ} → Go (Unit {0}) → Go B → Go B
m >> k = m >>= λ _. k

-- `*p`, which panics on nil
abbrev pub deref {ℓ} : {A : Type ℓ} → Option A → Go A
deref none = panic
deref (some a) = ok a

-- The computation ends normally, in a value that satisfies `P`.
abbrev pub Returns {ℓ κ} : {A : Type ℓ} → Go A → (A → Type κ) → Type (ℓ ⊔ κ)
Returns {A} m P = (a : A) × (m ≡ ok a) × P a

-- If the computation ends normally, then in a value that satisfies `P`.
abbrev pub OnOk {ℓ κ} : {A : Type ℓ} → (A → Type κ) → Go A → Type κ
OnOk P panic = Unit {_}
OnOk P (ok a) = P a

pub Go-cases {ℓ} : {A : Type ℓ} (m : Go A) → (m ≡ panic) ⊎ ((a : A) × (m ≡ ok a))
Go-cases panic = inl refl
Go-cases (ok a) = inr (a, refl)

-- The value, or another one after a panic.
abbrev pub value_or {ℓ} : {A : Type ℓ} → A → Go A → A
value_or a panic = a
value_or a (ok b) = b
