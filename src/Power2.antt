-- ===== src/Power2.antt =====
-- lib/core/comm.c: `power2`, with the macro `ISPOWEROF2` of incl/comm.h.
pub mod Laws
mod Tests
use cctrl.Prelude.{ℕ, zero, suc, ◌+◌, ◌-◌, ◌^◌, Bool, ◌==◌, if◌then◌else◌, bit_and}

-- `0 == (((x) - 1) & (x))`. At 0 the C expression is `-1 & 0`, which is 0 as `0 & 0` is here.
pub is_power_of_2 : ℕ → Bool
is_power_of_2 x = bit_and (x - 1) x == 0

-- The loop over `i < 32`; the first argument is the number of rounds left.
highest_bit : ℕ → ℕ → ℕ → ℕ → ℕ
highest_bit zero v i idx = idx
highest_bit (suc rounds) v i idx =
    highest_bit rounds v (i + 1) (if bit_and v (2 ^ i) == 0 then idx else i)

-- The result is the mathematical one: it fits `int` for `v ≤ 2 ^ 30`.
pub power2 : ℕ → ℕ
power2 v = if is_power_of_2 v then v else 2 ^ (highest_bit 32 v 0 0 + 1)
