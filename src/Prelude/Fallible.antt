-- ===== src/Prelude/Fallible.antt =====
-- Steps that may fail: `none` is a fault, such as a pointer followed that leads nowhere.
use mathlib.Core.Option.{Option, none, some}

infixl 5 ◌>>=◌
abbrev pub ◌>>=◌ {ℓ κ} : {A : Type ℓ} {B : Type κ} → Option A → (A → Option B) → Option B
none >>= f = none
some a >>= f = f a
