-- ===== src/Prelude/Partial.antt =====
-- Chains of results that may be missing, for `do` blocks.
use mathlib.Core.Option.{Option, none, some}

module _ {ℓ} {A : Type ℓ} where
  infixl 5 ◌>>=◌
  abbrev pub ◌>>=◌ {κ} : {B : Type κ} → Option A → (A → Option B) → Option B
  none >>= f = none
  some a >>= f = f a
