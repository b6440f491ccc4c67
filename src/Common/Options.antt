-- ===== src/Common/Options.antt =====
-- Chains of steps that may fail, as `do` blocks over Option.
use mathlib.Core.Option.{Option, none, some}

infixl 5 ◌>>=◌
abbrev pub ◌>>=◌ {ℓ κ} : {A : Type ℓ} {B : Type κ} → Option A → (A → Option B) → Option B
none >>= f = none
some a >>= f = f a

abbrev pub mapped {ℓ κ} : {A : Type ℓ} {B : Type κ} → (A → B) → Option A → Option B
mapped f none = none
mapped f (some a) = some (f a)

-- There is a value.
pub data IsSome {A : Type 0} : Option A → Type 0 where
  is_some : {a : A} → IsSome (some a)
