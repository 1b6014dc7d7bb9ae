-- ===== src/Prelude/Compare.antt =====
-- Callbacks that compare two values (`cmp_cb_t` of incl/comm.h), by the sign of their result.
use Prim.Native.Nat.{ℕ, ◌<◌, compare, Ordering}
use mathlib.Core.Path.{◌≡◌, refl}
use native.Mathlib.Omega.{arith}

-- What the containers rely on: the callback orders its values by some rank. (A machine has finitely
-- many values, so each consistent total preorder on them is of this form.)
pub record Ranked {ℓ} {A : Type ℓ} (cmp : A → A → Ordering) : Type ℓ where
  pub rank : A → ℕ
  pub agrees : (a b : A) → cmp a b ≡ compare (rank a) (rank b)

-- A call of such a callback, with what its result says of the ranks.
pub data Compared {ℓ} {A : Type ℓ} {cmp : A → A → Ordering} (o : Ranked cmp) (a b : A)
    : Type 0 where
  less : cmp a b ≡ Ordering.lt → o.rank a < o.rank b → Compared o a b
  same : cmp a b ≡ Ordering.eq → o.rank a ≡ o.rank b → Compared o a b
  more : cmp a b ≡ Ordering.gt → o.rank b < o.rank a → Compared o a b

pub compared {ℓ} : {A : Type ℓ} {cmp : A → A → Ordering} (o : Ranked cmp) (a b : A) → Compared o a b
compared {cmp} o a b = split (cmp a b) refl
  where
    split : (c : Ordering) → cmp a b ≡ c → Compared o a b
    split Ordering.lt e = less e (ground (arith, o.agrees a b))
    split Ordering.eq e = same e (ground (arith, o.agrees a b))
    split Ordering.gt e = more e (ground (arith, o.agrees a b))
