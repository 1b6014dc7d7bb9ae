-- ===== src/Power2/Laws.antt =====
-- `power2` gives the least power of two that is no smaller than its argument.
use mathlib.Core.WellFounded
use native.Mathlib.Nat.{mod-lt, div-eq_of_lt}
use native.Mathlib.Numerals.{add-one}
use cctrl.Prelude.{
  ℕ, zero, suc, ◌+◌, ◌-◌, ◌*◌, ◌/◌, ◌%◌, ◌^◌, ◌≤◌, ◌<◌, ◌≡◌, refl, ap, false, inl, inr, arith, ◌==◌,
  if◌then◌else◌, bit_and, Bool-cases, dec_lt, ◌⊎◌,
}
use cctrl.Prelude.Order.{lt_wf}
use cctrl.Prelude.Bits.{
  bit_and-halves, bit_and_self, bit_test, double-pow, pow-pos, mod_double, pow_mono,
}
use cctrl.Power2.{is_power_of_2, highest_bit, power2}

abbrev pub IsPow2 : ℕ → Type 0
IsPow2 v = (k : ℕ) × (v ≡ 2 ^ k)

abbrev Passes : ℕ → Type 0
Passes n = 0 < n → bit_and (n - 1) n ≡ 0 → IsPow2 n

Passes-step : (n : ℕ) → ((m : ℕ) → m < n → Passes m) → Passes n
Passes-step n ih pos zeroes = elim (dec_lt 0 (n % 2)) [
  | yes odd ↦ (
    0,
    omega (
      arith,
      bit_and-halves (n - 1) n,
      bit_and_self (n / 2),
      let e : (n - 1) / 2 ≡ n / 2 = omega arith in ap (λ (t : ℕ). bit_and t (n / 2)) e,
    ),
  )
  | no even ↦
      let e : (n - 1) / 2 ≡ n / 2 - 1 = omega arith in
      let half : bit_and (n / 2 - 1) (n / 2) ≡ 0 =
        omega (arith, bit_and-halves (n - 1) n, ap (λ (t : ℕ). bit_and t (n / 2)) e) in
      let (k, p) = ih (n / 2) (omega arith) (omega arith) half in
      (suc k, omega (arith, double-pow k))
]

-- A positive number that passes `ISPOWEROF2` is a power of two.
Passes-IsPow2 : (v : ℕ) → Passes v
Passes-IsPow2 v = WellFounded.induction lt_wf {C = Passes} v Passes-step

-- What the loop knows of the digits below `i`.
abbrev Seen : ℕ → ℕ → ℕ → Type 0
Seen v i idx = (v % 2 ^ i ≡ 0) ⊎ ((2 ^ idx ≤ v % 2 ^ i) × (v % 2 ^ i < 2 * 2 ^ idx))

Seen-next :
    (v i idx b : ℕ)
    → b < 2
    → bit_and v (2 ^ i) ≡ 2 ^ i * b
    → v % 2 ^ (i + 1) ≡ v % 2 ^ i + 2 ^ i * b
    → Seen v i idx
    → Seen v (i + 1) (if bit_and v (2 ^ i) == 0 then idx else i)
Seen-next v i idx zero h p q s = ground (arith, pow-pos i)
Seen-next v i idx (suc zero) h p q s = ground (arith, pow-pos i, mod-lt v (pow-pos i))
Seen-next v i idx (suc (suc b)) h p q s = absurd (omega arith)

highest_bit-Seen :
    (rounds v i idx : ℕ) → Seen v i idx → Seen v (i + rounds) (highest_bit rounds v i idx)
unfolding highest_bit
highest_bit-Seen zero v i idx s = let e : i + 0 ≡ i = omega arith in rw e s
highest_bit-Seen (suc rounds) v i idx s =
    let e : i + suc rounds ≡ i + 1 + rounds = omega arith in
    rw e (highest_bit-Seen rounds v (i + 1) _ next)
  where
    doubled : 2 ^ (i + 1) ≡ 2 * 2 ^ i
    doubled = rw add-one (double-pow i)

    next : Seen v (i + 1) (if bit_and v (2 ^ i) == 0 then idx else i)
    next =
        Seen-next v i idx (v / 2 ^ i % 2) (omega arith) (bit_test i v)
          (rw doubled (mod_double (2 ^ i) v (pow-pos i))) s

-- Conversely a power of two passes.
IsPow2-passes : (k : ℕ) → bit_and (2 ^ k - 1) (2 ^ k) ≡ 0
IsPow2-passes k =
    let digit : (2 ^ k - 1) / 2 ^ k ≡ 0 = div-eq_of_lt (omega (arith, pow-pos k)) in
    omega (arith, bit_test k (2 ^ k - 1), ap (λ (t : ℕ). 2 ^ k * (t % 2)) digit)

-- What the loop leaves in `idx`, for a number that is no power of two.
above_bit :
    (v idx : ℕ)
    → 0 < v
    → v ≤ 2 ^ 30
    → Seen v 32 idx
    → (bit_and (v - 1) v == 0) ≡ false
    → (2 ^ idx < v) × (v < 2 * 2 ^ idx) × (2 * 2 ^ idx ≤ 2 ^ 30)
above_bit v idx pos small s more = (strict, omega arith, bound)
  where
    strict : 2 ^ idx < v
    strict = elim (dec_lt (2 ^ idx) v) [
      | yes p ↦ p
      | no p ↦
          let e : v ≡ 2 ^ idx = omega arith in
          absurd (ground (arith, IsPow2-passes idx, ap (λ (t : ℕ). bit_and (t - 1) t) e))
    ]

    bound : 2 * 2 ^ idx ≤ 2 ^ 30
    bound = elim (dec_lt idx 30) [
      | yes p ↦ omega (arith, double-pow idx, pow_mono (suc idx) 30 p)
      | no p ↦ absurd (omega (arith, strict, pow_mono 30 idx (omega arith)))
    ]

-- For every `v` with `0 < v ≤ 2 ^ 30`, `power2 v` is a power of two, at least `v`, less than
-- `2 * v` (so the least such power), and at most `2 ^ 30` (so it fits `int`).
pub power2_lem :
    (v : ℕ)
    → 0 < v
    → v ≤ 2 ^ 30
    → IsPow2 (power2 v) × (v ≤ power2 v) × (power2 v < 2 * v) × (power2 v ≤ 2 ^ 30)
unfolding power2 is_power_of_2
power2_lem v pos small = elim (Bool-cases (bit_and (v - 1) v == 0)) [
  | inl done ↦ rw done (Passes-IsPow2 v pos (ground arith), omega arith, omega arith, small)
  | inr more ↦
      let idx = highest_bit 32 v 0 0 in
      let (strict, top, bound) =
        above_bit v idx pos small (highest_bit-Seen 32 v 0 0 (inl (omega arith))) more in
      let doubled : 2 ^ (idx + 1) ≡ 2 * 2 ^ idx = rw add-one (double-pow idx) in
      rw more ((idx + 1, refl), omega arith, omega arith, omega arith)
]
