-- ===== src/Power2/Tests.antt =====
-- A run of `power2`, and its theorem at a number.
use cctrl.Prelude.{◌^◌, ◌≤◌, ◌<◌, ◌≡◌, refl, arith}
use cctrl.Power2.{power2, is_power_of_2, highest_bit}
use cctrl.Power2.Laws.{IsPow2, power2_lem}

rounded_up : power2 5 ≡ 8
unfolding power2 is_power_of_2 highest_bit
rounded_up = refl

power2_lem_example : IsPow2 (power2 5) × (5 ≤ power2 5) × (power2 5 < 10) × (power2 5 ≤ 2 ^ 30)
power2_lem_example = power2_lem 5 (omega arith) (omega arith)
