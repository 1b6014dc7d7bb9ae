-- ===== src/QuickSort.antt =====
-- lib/core/quick_sort.c: the sort of an array through a comparison and an exchange of two places.
pub mod Swaps
mod Once
mod Laws
mod Tests
use cctrl.Prelude.{ℕ, zero, suc, ◌+◌, ◌-◌, Bool, true, false, ◌==◌, ltb, if◌then◌else◌, Ordering}

-- Which of the two places holds the element that the others are compared with: `i` or `j`. It says
-- which of the two inner loops runs.
pub data Pivot : Type 0 where
  low high : Pivot

-- `ret > 0`
abbrev pub larger : Ordering → Bool
larger Ordering.gt = true
larger _ = false

-- `sort->swap`
abbrev pub swap {ℓ} : {A : Type ℓ} → (ℕ → A) → ℕ → ℕ → ℕ → A
swap e i j k = if k == i then e j else (if k == j then e i else e k)

module _ {ℓ} {A : Type ℓ} (cmp : A → A → Ordering) where
  -- The loops of `_quick_sort_once`; each round brings `i` and `j` nearer by one.
  pub rounds : ℕ → Pivot → ℕ → ℕ → (ℕ → A) → ℕ × (ℕ → A)
  rounds zero at i j e = (i, e)
  rounds (suc fuel) low i j e = elim (ltb i j) [
    | true ↦ elim (larger (cmp (e i) (e j))) [
      | true ↦ rounds fuel high (i + 1) j (swap e i j)
      | false ↦ rounds fuel low i (j - 1) e
    ]
    | false ↦ (i, e)
  ]
  rounds (suc fuel) high i j e = elim (ltb i j) [
    | true ↦ elim (larger (cmp (e i) (e j))) [
      | true ↦ rounds fuel low i (j - 1) (swap e i j)
      | false ↦ rounds fuel high (i + 1) j e
    ]
    | false ↦ (i, e)
  ]

  -- `_quick_sort_once`
  abbrev pub quick_sort_once : ℕ → ℕ → (ℕ → A) → ℕ × (ℕ → A)
  quick_sort_once from to e = rounds (to - from) low from to e

  -- `_quick_sort`; a part that ends before it starts is left alone, also when `m` is 0.
  pub sort_part : ℕ → ℕ → ℕ → (ℕ → A) → ℕ → A
  sort_part zero from to e = e
  sort_part (suc fuel) from to e = elim (ltb from to) [
    | true ↦
        let r = quick_sort_once from to e in
        sort_part fuel (r.0 + 1) to (sort_part fuel from (r.0 - 1) r.1)
    | false ↦ e
  ]

  -- `quick_sort`
  pub quick_sort : (ℕ → A) → ℕ → ℕ → A
  quick_sort e zero = e
  quick_sort e (suc n) = sort_part (suc n) 0 n e
