-- ===== src/Prelude/Arrays.antt =====
-- Arrays as maps from the index: writes, and how often an entry stands among the first ones.
use Prim.Native.Nat.{ℕ, zero, suc, ◌+◌, ◌-◌, ◌<◌, ◌≤◌}
use mathlib.Core.Path.{◌≡◌, refl}
use mathlib.Core.Logic.{◌≢◌}
use native.Mathlib.Decide.{ℕ_discrete}
use native.Mathlib.Omega.{arith}
use cctrl.Prelude.Tests.{◌==◌, if◌then◌else◌}

-- An array with the entry at `i` written.
abbrev pub put : (ℕ → ℕ) → ℕ → ℕ → ℕ → ℕ
put e i v j = if i == j then v else e j

abbrev pub one : ℕ → ℕ → ℕ
one x y = if x == y then 1 else 0

-- How often `x` stands in the first `n` entries.
abbrev pub count : ℕ → (ℕ → ℕ) → ℕ → ℕ
count zero e x = 0
count (suc n) e x = one (e n) x + count n e x

pub count-put_beyond : (n : ℕ) (e : ℕ → ℕ) (i v x : ℕ) → n ≤ i → count n (put e i v) x ≡ count n e x
count-put_beyond zero e i v x h = refl
count-put_beyond (suc n) e i v x h =
    ground (arith, count-put_beyond n e i v x (omega (arith, h)), h)

-- A write exchanges what stood at `i` for `v`.
pub count-put :
    (n : ℕ) (e : ℕ → ℕ) (i v x : ℕ)
    → i < n
    → count n (put e i v) x + one (e i) x ≡ count n e x + one v x
count-put zero e i v x h = absurd (omega arith)
count-put (suc n) e i v x h = elim (ℕ_discrete i n) [
  | yes p ↦ ground (arith, p, count-put_beyond n e i v x (omega (arith, p)))
  | no np ↦ ground (arith, np, count-put n e i v x (omega (arith, np, h)))
]

-- A task to go to `i` may go to `j` instead, when the entry at `j` goes to `i`.
pub count-move :
    (n : ℕ) (e : ℕ → ℕ) (i j v x : ℕ)
    → i < n
    → j < n
    → i ≢ j
    → count n (put (put e i (e j)) j v) x ≡ count n (put e i v) x
count-move n e i j v x p q ne =
    let a = count-put n (put e i (e j)) j v x q in
    let b = count-put n e i (e j) x p in
    let c = count-put n e i v x p in ground (arith, a, b, c, ne)

-- The last task fills the place at `i`, and the task that stood there leaves.
pub count-fill :
    (len : ℕ) (e : ℕ → ℕ) (i x : ℕ)
    → i < len
    → count (len - 1) (put e i (e (len - 1))) x + one (e i) x ≡ count len e x
count-fill zero e i x h = absurd (omega arith)
count-fill (suc n) e i x h = elim (ℕ_discrete i n) [
  | yes p ↦ ground (arith, p, count-put_beyond n e i (e n) x (omega (arith, p)))
  | no np ↦ ground (arith, count-put n e i (e n) x (omega (arith, np, h)))
]

-- What stands among the first entries is counted.
pub count-at : (n : ℕ) (e : ℕ → ℕ) (i : ℕ) → i < n → 0 < count n e (e i)
count-at zero e i h = absurd (omega arith)
count-at (suc n) e i h = elim (ℕ_discrete i n) [
  | yes p ↦ ground (arith, p)
  | no np ↦ let rest = count-at n e i (omega (arith, np, h)) in omega (arith, rest)
]
