-- ===== src/Common/Results.antt =====
-- Chains of steps that may fail, for `do` blocks.
use mathlib.Core.Option.{Option, none, some}

infixl 5 ◌>>=◌
abbrev pub ◌>>=◌ {ℓ κ} : {A : Type ℓ} {B : Type κ} → Option A → (A → Option B) → Option B
none >>= f = none
some a >>= f = f a

-- What holds of a failure, and of every result of the second step.
pub bind-cases {ℓ κ μ} :
    {A : Type ℓ} {B : Type κ} (P : Option B → Type μ) (o : Option A) (f : A → Option B)
    → P none
    → ((a : A) → P (f a))
    → P (o >>= f)
bind-cases P none f n h = n
bind-cases P (some a) f n h = h a

-- What holds of a result, if there is one.
abbrev pub OnOption {ℓ κ} : {A : Type ℓ} → (A → Type κ) → Option A → Type κ
OnOption P none = Unit {κ}
OnOption P (some a) = P a
