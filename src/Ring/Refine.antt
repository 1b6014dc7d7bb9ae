-- ===== src/Ring/Refine.antt =====
-- A ring that holds a queue: what the loops of ring.c write and read. The counters of the code wrap
-- at `2 ^ 32`; here they are the remainders of counters that never wrap.
use native.Mathlib.Nat.{mod-add-mod, mod-lt}
use mathlib.Core.Path.{ap₂}
use cctrl.Prelude.{
  ℕ, zero, suc, ◌+◌, ◌-◌, ◌%◌, ◌^◌, ◌≤◌, ◌<◌, ◌≡◌, ◌≢◌, refl, sym, ap, ◌∙◌, List, [], ◌∷◌, length,
  get_or, take, arith, bit_and, length-set, get_or-set_self, get_or-set_ne,
}
use cctrl.Prelude.Bits.{bit_and-mask, mod_wrapped, mod-ne, pow-pos}
use cctrl.Ring.{Ring, add32, store, load}

-- `r` holds the addresses `q`, oldest first; `c` counts the pops since the ring was new.
pub record Holds (r : Ring) (q : List ℕ) : Type 0 where
  pub k : ℕ
  pub c : ℕ
  pub k_small : k ≤ 31
  pub max_is : r.max ≡ 2 ^ k
  pub mask_is : r.mask ≡ 2 ^ k - 1
  pub size : length r.slots ≡ 2 ^ k
  pub fits : length q ≤ 2 ^ k
  pub num_is : r.num ≡ length q
  pub prod_head_is : r.prod_head ≡ (c + length q) % 2 ^ 32
  pub prod_tail_is : r.prod_tail ≡ (c + length q) % 2 ^ 32
  pub cons_head_is : r.cons_head ≡ c % 2 ^ 32
  pub cons_tail_is : r.cons_tail ≡ c % 2 ^ 32
  pub held : (i : ℕ) → i < length q → get_or r.slots ((c + i) % 2 ^ k) 0 ≡ get_or q i 0

module _ (k : ℕ) (k_small : k ≤ 31) where
  -- The slot of the item that the unwrapped counter `p + i` numbers.
  pub slot_at : (p i : ℕ) → bit_and (add32 (p % 2 ^ 32) i) (2 ^ k - 1) ≡ (p + i) % 2 ^ k
  slot_at p i =
      bit_and-mask k (add32 (p % 2 ^ 32) i)
      ∙ mod_wrapped k (p % 2 ^ 32 + i) (omega arith)
      ∙ sym (mod-add-mod (p % 2 ^ 32) (2 ^ k) i)
      ∙ ap (λ (t : ℕ). (t + i) % 2 ^ k) (mod_wrapped k p (omega arith))
      ∙ mod-add-mod p (2 ^ k) i

  pub length-store :
      (p i : ℕ) (addrs slots : List ℕ)
      → length (store (2 ^ k - 1) (p % 2 ^ 32) i addrs slots) ≡ length slots
  unfolding store
  length-store p i [] slots = refl
  length-store p i (a ∷ addrs) slots = length-store p (i + 1) addrs _ ∙ length-set slots _ a

  -- A slot that is not among those written keeps its address.
  pub store_kept :
      (p i t : ℕ) (addrs slots : List ℕ)
      → ((j : ℕ) → j < length addrs → (p + (i + j)) % 2 ^ k ≢ t)
      → get_or (store (2 ^ k - 1) (p % 2 ^ 32) i addrs slots) t 0 ≡ get_or slots t 0
  unfolding store
  store_kept p i t [] slots h = refl
  store_kept p i t (a ∷ addrs) slots h =
      store_kept p (i + 1) t addrs _ later ∙ get_or-set_ne slots _ t a 0 (rw (slot_at p i) here)
    where
      later : (j : ℕ) → j < length addrs → (p + (i + 1 + j)) % 2 ^ k ≢ t
      later j lt = let e : i + 1 + j ≡ i + suc j = omega arith in rw e (h (suc j) (omega arith))

      here : (p + i) % 2 ^ k ≢ t
      here = let e : i + 0 ≡ i = omega arith in rw e at (h 0 (omega arith))

  -- The slots written hold the addresses in order.
  pub store_new :
      (p i : ℕ) (addrs slots : List ℕ)
      → length slots ≡ 2 ^ k
      → length addrs ≤ 2 ^ k
      → (j : ℕ) → j < length addrs
      → get_or (store (2 ^ k - 1) (p % 2 ^ 32) i addrs slots) ((p + (i + j)) % 2 ^ k) 0
        ≡ get_or addrs j 0
  unfolding store
  store_new p i [] slots size few j h = elim h [ ]
  store_new p i (a ∷ addrs) slots size few zero h =
      let e : i + 0 ≡ i = omega arith in
      rw e (
        store_kept p (i + 1) ((p + i) % 2 ^ k) addrs _ apart
        ∙ rw (slot_at p i) (
            get_or-set_self slots ((p + i) % 2 ^ k) a 0
              (rw size (mod-lt (p + i) (omega (arith, pow-pos k))))))
    where
      apart : (j : ℕ) → j < length addrs → (p + (i + 1 + j)) % 2 ^ k ≢ (p + i) % 2 ^ k
      apart j lt =
          let e : p + (i + 1 + j) ≡ p + i + suc j = omega arith in
          rw e (mod-ne (2 ^ k) (p + i) (suc j) (omega arith) (omega arith))
  store_new p i (a ∷ addrs) slots size few (suc j) h =
      let e : i + suc j ≡ i + 1 + j = omega arith in
      rw e (store_new p (i + 1) addrs _ (length-set slots _ a ∙ size) (omega arith) j (omega arith))

  pub load_lem :
      (c i num : ℕ) (q slots : List ℕ)
      → num ≤ length q
      → ((j : ℕ) → j < length q → get_or slots ((c + (i + j)) % 2 ^ k) 0 ≡ get_or q j 0)
      → load (2 ^ k - 1) (c % 2 ^ 32) i num slots ≡ take num q
  unfolding load
  load_lem c i zero q slots few h = refl
  load_lem c i (suc num) [] slots few h = absurd (omega arith)
  load_lem c i (suc num) (x ∷ q) slots few h =
      let e : i + 0 ≡ i = omega arith in
      ap₂ ◌∷◌ (rw (slot_at c i) (rw e at (h 0 (omega arith))))
        (load_lem c (i + 1) num q slots (omega arith) later)
    where
      later : (j : ℕ) → j < length q → get_or slots ((c + (i + 1 + j)) % 2 ^ k) 0 ≡ get_or q j 0
      later j lt = let e : i + 1 + j ≡ i + suc j = omega arith in rw e (h (suc j) (omega arith))
