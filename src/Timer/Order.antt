-- ===== src/Timer/Order.antt =====
-- The order of the heap of timer.c.
use cctrl.Prelude.{ℕ, zero, suc, ◌/◌, ◌<◌, ◌≤◌, arith}

-- No task of the first `n` entries is due before its parent.
abbrev pub IsHeap : (ℕ → ℕ) → ℕ → (ℕ → ℕ) → Type 0
IsHeap ttl n e = (j : ℕ) → 0 < j → j < n → ttl (e (j / 2)) ≤ ttl (e j)

root_below :
    (fuel : ℕ) (ttl : ℕ → ℕ) (n : ℕ) (e : ℕ → ℕ)
    → IsHeap ttl n e
    → (j : ℕ) → j < fuel
    → j < n
    → ttl (e 0) ≤ ttl (e j)
root_below zero ttl n e h j f l = absurd (omega arith)
root_below (suc fuel) ttl n e h zero f l = omega arith
root_below (suc fuel) ttl n e h (suc j) f l =
    let up = root_below fuel ttl n e h (suc j / 2) (omega arith) (omega arith) in
    let here = h (suc j) (omega arith) l in omega (arith, up, here)

-- The root is due first.
pub root_first :
    (ttl : ℕ → ℕ) (n : ℕ) (e : ℕ → ℕ) → IsHeap ttl n e → (j : ℕ) → j < n → ttl (e 0) ≤ ttl (e j)
root_first ttl n e h j l = root_below (suc j) ttl n e h j (omega arith) l
