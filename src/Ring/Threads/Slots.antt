-- ===== src/Ring/Threads/Slots.antt =====
-- The words and the slots that a thread of ring.c reads and writes.
use cctrl.Prelude.{
  ℕ, ◌+◌, ◌-◌, ◌<◌, ◌≤◌, ◌≡◌, ◌≢◌, ◌^◌, ◌%◌, sym, List, get_or, arith, ℕ_discrete, dec_lt,
}
use cctrl.Prelude.Arrays.{put}
use cctrl.Prelude.Bits.{mod-ne, pow_mono}
use cctrl.Ring.{u32, add32, sub32}
use cctrl.Ring.Refine.{slot_at}
use cctrl.Ring.Threads.{Shared, extend, slot}
use cctrl.Ring.Threads.Safety.{Holds, IsSafe}

-- Two counters in order and less than a turn apart are equal when their words are.
pub words_equal : (a h : ℕ) → h ≤ a → a < h + 2 ^ 32 → u32 a ≡ u32 h → a ≡ h
words_equal a h l f e = omega arith

pub room_left :
    (max c h : ℕ)
    → max ≤ 2 ^ 31
    → c ≤ h
    → h ≤ c + max
    → sub32 (add32 max (u32 c)) (u32 h) ≡ max + c - h
room_left max c h a b d = omega arith

pub data_left : (p h : ℕ) → h ≤ p → p < h + 2 ^ 32 → sub32 (u32 p) (u32 h) ≡ p - h
data_left p h a b = omega arith

module _ (f : ℕ → ℕ) (h : ℕ) (addrs : List ℕ) where
  pub extend_below : (j : ℕ) → j < h → extend f h addrs j ≡ f j
  extend_below j l = ground arith

  pub extend_above : (j : ℕ) → extend f h addrs (h + j) ≡ get_or addrs j 0
  extend_above j = let e : h + j - h ≡ j = omega arith in ground (arith, e)

module _ (m : Shared) (safe : IsSafe m) where
  pub slot_is : (h i : ℕ) → slot m h i ≡ (h + i) % m.max
  slot_is h i = rw (safe.mask_is, safe.max_is) (slot_at safe.k safe.k_small h i)

  pub max_small : m.max ≤ 2 ^ 31
  max_small = rw safe.max_is (pow_mono safe.k 31 safe.k_small)

  mod-window :
      (j x : ℕ)
      → m.cons_tail ≤ j
      → m.cons_tail ≤ x
      → j < m.prod_head
      → x < m.prod_head
      → j % m.max ≡ x % m.max
      → j ≡ x
  mod-window j x a b c d e = elim (ℕ_discrete j x) [
    | yes p ↦ p
    | no np ↦ elim (dec_lt j x) [
      | yes l ↦ absurd (apart j x l (omega (arith, a, d, safe.fits)) (sym e))
      | no nl ↦ absurd (apart x j (omega (arith, np, nl)) (omega (arith, b, c, safe.fits)) e)
    ]
  ]
    where
      apart : (u v : ℕ) → u < v → v < u + m.max → v % m.max ≢ u % m.max
      apart u v l k =
          let e : u + (v - u) ≡ v = omega arith in
          rw e at (mod-ne m.max u (v - u) (omega arith) (omega arith))

  module _ (h i a : ℕ) (claimed : m.pushed (h + i) ≡ a) where
    pub store-Holds :
        (j : ℕ)
        → m.cons_tail ≤ j
        → j < m.prod_head
        → m.cons_tail ≤ h + i
        → h + i < m.prod_head
        → Holds m j
        → Holds (record m { slots = put m.slots (slot m h i) a }) j
    store-Holds j b c d e w = elim (ℕ_discrete (j % m.max) ((h + i) % m.max)) [
      | yes p ↦
          let same = mod-window j (h + i) b d c e p in ground (arith, slot_is h i, same, claimed, p)
      | no np ↦ ground (arith, slot_is h i, np, w)
    ]

    pub store-Holds_new : Holds (record m { slots = put m.slots (slot m h i) a }) (h + i)
    store-Holds_new = ground (arith, slot_is h i, claimed)
