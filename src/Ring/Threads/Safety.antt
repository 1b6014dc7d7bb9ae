-- ===== src/Ring/Threads/Safety.antt =====
-- What holds of the ring of ring.c and of the threads that use it, at each step.
use cctrl.Prelude.{
  ℕ, zero, suc, ◌+◌, ◌-◌, ◌<◌, ◌≤◌, ◌≡◌, ◌≢◌, ◌^◌, ◌%◌, refl, ap, ◌∙◌, Option, none, some, List, [],
  ◌∷◌, ◌++◌, length, get_or, arith,
}
use cctrl.Ring.Threads.{
  Shared, Pc, System, push_start, push_head, push_tail, push_copy, pop_start, pop_head, pop_tail,
  pop_copy,
}

-- The slot of `j` holds the address that was claimed as the `j`-th.
abbrev pub Holds : Shared → ℕ → Type 0
Holds m j = m.slots (j % m.max) ≡ m.pushed j

-- `n` entries from `h` on.
abbrev pub slice : (ℕ → ℕ) → ℕ → ℕ → List ℕ
slice f h zero = []
slice f h (suc n) = f h ∷ slice f (h + 1) n

pub record IsSafe (m : Shared) : Type 0 where
  pub k : ℕ
  pub k_small : k ≤ 31
  pub max_is : m.max ≡ 2 ^ k
  pub mask_is : m.mask ≡ 2 ^ k - 1
  pub popping : m.cons_tail ≤ m.cons_head
  pub ready : m.cons_head ≤ m.prod_tail
  pub pushing : m.prod_tail ≤ m.prod_head
  pub fits : m.prod_head ≤ m.cons_tail + m.max
  pub stored : (j : ℕ) → m.cons_tail ≤ j → j < m.prod_tail → Holds m j

-- What a thread knows of the ring from where it stands.
abbrev pub Knows : Shared → Pc → Type 0
Knows m (push_start addrs) = 0 < length addrs
Knows m (push_head addrs h) = (0 < length addrs) × (h ≤ m.prod_head)
Knows m (push_tail addrs h c) =
    (0 < length addrs) × (h ≤ m.prod_head) × (c ≤ m.cons_tail) × (h ≤ c + m.max)
Knows m (push_copy addrs h i) =
    (0 < length addrs)
    × (m.prod_tail ≤ h)
    × (h + length addrs ≤ m.prod_head)
    × (i ≤ length addrs)
    × ((j : ℕ) → j < length addrs → m.pushed (h + j) ≡ get_or addrs j 0)
    × ((j : ℕ) → j < i → Holds m (h + j))
Knows m (pop_start n) = 0 < n
Knows m (pop_head n h) = (0 < n) × (h ≤ m.cons_head)
Knows m (pop_tail n h p) = (0 < n) × (h ≤ m.cons_head) × (p ≤ m.prod_tail) × (h ≤ p)
Knows m (pop_copy n h addrs) =
    (0 < n)
    × (m.cons_tail ≤ h)
    × (h + n ≤ m.cons_head)
    × (length addrs ≤ n)
    × (addrs ≡ slice m.pushed h (length addrs))
Knows m _ = Unit

-- The items that a thread has claimed and not yet given back: the first one and their number.
abbrev pub push_claim : Pc → Option (ℕ × ℕ)
push_claim (push_copy addrs h i) = some (h, length addrs)
push_claim _ = none

abbrev pub pop_claim : Pc → Option (ℕ × ℕ)
pop_claim (pop_copy n h addrs) = some (h, n)
pop_claim _ = none

-- A claim that starts no later than another one ends before it.
abbrev pub Before : Option (ℕ × ℕ) → Option (ℕ × ℕ) → Type 0
Before none _ = Unit
Before (some _) none = Unit
Before (some (h, n)) (some (h', n')) = h ≤ h' → h + n ≤ h'

abbrev pub Apart : Pc → Pc → Type 0
Apart p q = Before (push_claim p) (push_claim q) × Before (pop_claim p) (pop_claim q)

pub record Inv (s : System) : Type 0 where
  pub safe : IsSafe s.shared
  pub knows : (t : ℕ) → Knows s.shared (s.thread t)
  pub apart : (t u : ℕ) → t ≢ u → Apart (s.thread t) (s.thread u)

pub Before-none : (x : Option (ℕ × ℕ)) → Before x none
Before-none none = tt
Before-none (some _) = tt

pub Holds-cong :
    (m m' : Shared) (j : ℕ)
    → m'.max ≡ m.max
    → Holds m j
    → m'.slots (j % m.max) ≡ m.slots (j % m.max)
    → m'.pushed j ≡ m.pushed j
    → Holds m' j
Holds-cong m m' j a h b c = rw (a, b, h, c) refl

module _ (f : ℕ → ℕ) where
  pub length-slice : (h n : ℕ) → length (slice f h n) ≡ n
  length-slice h zero = refl
  length-slice h (suc n) = ap suc (length-slice (h + 1) n)

  pub slice_snoc : (h n : ℕ) → slice f h (suc n) ≡ slice f h n ++ f (h + n) ∷ []
  slice_snoc h zero = let e : h + 0 ≡ h = omega arith in rw e refl
  slice_snoc h (suc n) =
      let e : h + 1 + n ≡ h + suc n = omega arith in
      ap (λ (t : List ℕ). f h ∷ t) (slice_snoc (h + 1) n ∙ rw e refl)

  pub slice-cong :
      (g : ℕ → ℕ) (h n : ℕ) → ((j : ℕ) → h ≤ j → j < h + n → g j ≡ f j) → slice g h n ≡ slice f h n
  slice-cong g h zero e = refl
  slice-cong g h (suc n) e =
      let rest = slice-cong g (h + 1) n (λ j a b. e j (omega (arith, a)) (omega (arith, b))) in
      rw (e h (omega arith) (omega arith), rest) refl

  pub slice-append : (h a b : ℕ) → slice f h (a + b) ≡ slice f h a ++ slice f (h + a) b
  slice-append h zero b =
      let e : h + 0 ≡ h = omega arith in
      let none_left : 0 + b ≡ b = omega arith in rw (e, none_left) refl
  slice-append h (suc a) b =
      let e : h + 1 + a ≡ h + suc a = omega arith in
      let one_more : suc a + b ≡ suc (a + b) = omega arith in
      rw one_more (ap (λ (t : List ℕ). f h ∷ t) (slice-append (h + 1) a b ∙ rw e refl))

-- A list is the slice that reads its entries.
pub slice-entries :
    (f : ℕ → ℕ) (h : ℕ) (xs : List ℕ)
    → ((j : ℕ) → j < length xs → f (h + j) ≡ get_or xs j 0)
    → slice f h (length xs) ≡ xs
slice-entries f h [] e = refl
slice-entries f h (x ∷ xs) e =
    let stay : h + 0 ≡ h = omega arith in
    let first : f h ≡ x = rw stay at (e 0 (omega arith)) in
    let rest = slice-entries f (h + 1) xs (λ j l.
      let later : h + 1 + j ≡ h + suc j = omega arith in rw later (e (suc j) (omega (arith, l)))) in
    rw (first, rest) refl
