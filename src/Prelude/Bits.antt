-- ===== src/Prelude/Bits.antt =====
-- `&` at variables: the lowest digit, masks of low bits, and the test for a power of two.
use Prim.Native.Nat.{
  ℕ, zero, suc, ◌+◌, ◌-◌, ◌*◌, ◌/◌, ◌%◌, ◌^◌, ◌≤◌, ◌<◌, ◌∣◌, min, bit_and, digits, bit_and-bitwise,
}
use mathlib.Core.Path.{◌≡◌, refl, ap, ◌∙◌}
use mathlib.Core.WellFounded
use mathlib.Core.Logic.{◌≢◌}
use native.Mathlib.Decide.{dec_lt}
use native.Mathlib.Nat.{
  pow-suc, one-le-pow, add-zero, dvd_refl, le_of_dvd, dvd-mul_left_of_dvd, mod-mod_of_dvd,
  mod-add-mod, mod-lt, mod-eq_of_lt, mod-eq-sub-mod, div-add-mod, add-mul-mod_self_left,
}
use native.Mathlib.Omega.{arith}
use cctrl.Prelude.Order.{lt_wf}

abbrev both : ℕ → ℕ → ℕ → ℕ
both fuel a b = digits (λ _. zero) min fuel a b

-- Fuel beyond the number itself changes no digit.
both_fuel : (f g a b : ℕ) → a ≤ f → a ≤ g → both f a b ≡ both g a b
both_fuel zero zero a b p q = refl
both_fuel zero (suc g) zero b p q = refl
both_fuel zero (suc g) (suc a) b p q = absurd (omega arith)
both_fuel (suc f) zero zero b p q = refl
both_fuel (suc f) zero (suc a) b p q = absurd (omega arith)
both_fuel (suc f) (suc g) zero b p q = refl
both_fuel (suc f) (suc g) (suc a) b p q =
    let halves = both_fuel f g (suc a / 2) (b / 2) (omega arith) (omega arith) in
    omega (arith, halves)

none_and : (b : ℕ) → bit_and zero b ≡ zero
none_and b = bit_and-bitwise zero b

-- The lowest digit of `a & b`, and the rest.
pub bit_and-halves : (a b : ℕ) → bit_and a b ≡ 2 * bit_and (a / 2) (b / 2) + min (a % 2) (b % 2)
bit_and-halves zero b = omega (arith, none_and b, none_and (b / 2))
bit_and-halves (suc a) b =
    let h = both_fuel a (suc a / 2) (suc a / 2) (b / 2) (omega arith) (omega arith) in
    omega (arith, h, bit_and-bitwise (suc a) b, bit_and-bitwise (suc a / 2) (b / 2))

and_none : (a : ℕ) → bit_and a 0 ≡ 0
and_none a = WellFounded.induction lt_wf {C = λ k. bit_and k 0 ≡ 0} a step
  where
    step : (k : ℕ) → ((m : ℕ) → m < k → bit_and m 0 ≡ 0) → bit_and k 0 ≡ 0
    step zero ih = none_and 0
    step (suc k) ih = omega (arith, bit_and-halves (suc k) 0, ih (suc k / 2) (omega arith))

-- A number and itself.
pub bit_and_self : (a : ℕ) → bit_and a a ≡ a
bit_and_self a = WellFounded.induction lt_wf {C = λ k. bit_and k k ≡ k} a step
  where
    step : (k : ℕ) → ((m : ℕ) → m < k → bit_and m m ≡ m) → bit_and k k ≡ k
    step zero ih = none_and 0
    step (suc k) ih = omega (arith, bit_and-halves (suc k) (suc k), ih (suc k / 2) (omega arith))

-- `2 ^ (k + 1)` in the form that `omega` reads.
pub double-pow : (k : ℕ) → 2 ^ suc k ≡ 2 * 2 ^ k
double-pow k = omega (arith, pow-suc 2 k)

pub pow-pos : (k : ℕ) → 1 ≤ 2 ^ k
pow-pos k = one-le-pow k 2 (omega arith)

mask_split : (k q r : ℕ) → r < 2 ^ k → bit_and (q * 2 ^ k + r) (2 ^ k - 1) ≡ r
mask_split zero q r h = rw and_none (omega arith)
mask_split (suc k) q r h = ground (
  arith,
  bit_and-halves (q * 2 ^ suc k + r) (2 ^ suc k - 1),
  double-pow k,
  pow-pos k,
  ap (λ (t : ℕ). q * t) (double-pow k),
  mask_split k q (r / 2) (omega (arith, double-pow k)),
)

-- `& (2 ^ k - 1)` is the remainder by `2 ^ k`.
pub bit_and-mask : (k a : ℕ) → bit_and a (2 ^ k - 1) ≡ a % 2 ^ k
bit_and-mask k a = ground (arith, pow-pos k, mask_split k (a / 2 ^ k) (a % 2 ^ k))

bit_split : (i q r : ℕ) → r < 2 ^ i → bit_and (q * 2 ^ i + r) (2 ^ i) ≡ 2 ^ i * (q % 2)
bit_split zero q r h =
    ground (arith, bit_and-halves (q * 2 ^ 0 + r) (2 ^ 0), and_none ((q + r) / 2))
bit_split (suc i) q r h = ground (
  arith,
  bit_and-halves (q * 2 ^ suc i + r) (2 ^ suc i),
  double-pow i,
  ap (λ (t : ℕ). q * t) (double-pow i),
  ap (λ (t : ℕ). t * (q % 2)) (double-pow i),
  bit_split i q (r / 2) (omega (arith, double-pow i)),
)

-- `& (1 << i)` is the digit of weight `2 ^ i`.
pub bit_test : (i a : ℕ) → bit_and a (2 ^ i) ≡ 2 ^ i * (a / 2 ^ i % 2)
bit_test i a = ground (arith, pow-pos i, bit_split i (a / 2 ^ i) (a % 2 ^ i))

-- The lower powers of two divide the higher ones.
pub pow_dvd : (k d : ℕ) → 2 ^ k ∣ 2 ^ (k + d)
pow_dvd k zero = rw add-zero (dvd_refl (2 ^ k))
pow_dvd k (suc d) =
    let e : 2 ^ (k + suc d) ≡ 2 * 2 ^ (k + d) =
      ap (λ (t : ℕ). 2 ^ t) (omega arith) ∙ double-pow (k + d) in
    rw e (dvd-mul_left_of_dvd (2 ^ k) (pow_dvd k d) 2)

-- A remainder by a larger power of two, taken first, does not show.
pub mod_wrapped : (k a : ℕ) → k ≤ 32 → a % 2 ^ 32 % 2 ^ k ≡ a % 2 ^ k
mod_wrapped k a h = mod-mod_of_dvd (2 ^ k) a (rw whole at (pow_dvd k (32 - k)))
  where
    whole : 2 ^ (k + (32 - k)) ≡ 2 ^ 32
    whole = let e : k + (32 - k) ≡ 32 = omega arith in ap (λ (t : ℕ). 2 ^ t) e

-- Different numbers less than `m` apart have different remainders.
pub mod-ne : (m s d : ℕ) → 0 < d → d < m → (s + d) % m ≢ s % m
mod-ne m s d pos small e =
    absurd (omega (arith, mod-add-mod s m d, wrap (s % m) (mod-lt s {m = m} (omega arith))))
  where
    wrap : (r : ℕ) → r < m → (r + d) % m ≢ r
    wrap r h = elim (dec_lt (r + d) m) [
      | yes p ↦ omega (arith, mod-eq_of_lt p)
      | no p ↦ omega (
        arith,
        mod-eq-sub-mod {n = r + d} {m = m} (omega arith),
        mod-eq_of_lt {n = r + d - m} {m = m} (omega arith),
      )
    ]

-- One more digit.
pub mod_double : (p v : ℕ) → 0 < p → v % (2 * p) ≡ v % p + p * (v / p % 2)
mod_double p v pos =
    ap (λ (t : ℕ). t % (2 * p)) whole
    ∙ add-mul-mod_self_left (v % p + p * (v / p % 2)) (2 * p) (v / p / 2)
    ∙ mod-eq_of_lt (small (v / p % 2) (omega arith))
  where
    small : (b : ℕ) → b < 2 → v % p + p * b < 2 * p
    small zero h = omega (arith, mod-lt v {m = p} pos)
    small (suc zero) h = omega (arith, mod-lt v {m = p} pos)
    small (suc (suc b)) h = absurd (omega arith)

    halves : v / p ≡ v / p % 2 + 2 * (v / p / 2)
    halves = omega arith

    whole : v ≡ v % p + p * (v / p % 2) + 2 * p * (v / p / 2)
    whole = omega (arith, div-add-mod v p, ap (λ (t : ℕ). p * t) halves)

pub pow_mono : (k n : ℕ) → k ≤ n → 2 ^ k ≤ 2 ^ n
pow_mono k n h =
    let e : k + (n - k) ≡ n = omega arith in le_of_dvd (pow-pos n) (rw e at (pow_dvd k (n - k)))
