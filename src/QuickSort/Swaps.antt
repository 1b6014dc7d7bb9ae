-- ===== src/QuickSort/Swaps.antt =====
-- Arrays that arise from each other by exchanges of places in a range.
use cctrl.Prelude.{ℕ, ◌<◌, ◌≤◌, ◌≡◌, ◌≢◌, refl, ◌∙◌, arith, ℕ_discrete}
use cctrl.QuickSort.{swap}

-- `f` is `e` after exchanges of places from `from` to `to`.
pub data Swaps {ℓ} {A : Type ℓ} (from to : ℕ) (e : ℕ → A) : (ℕ → A) → Type ℓ where
  none : Swaps from to e e
  more :
      {f : ℕ → A} (i j : ℕ)
      → from ≤ i
      → i < j
      → j ≤ to
      → Swaps from to e f
      → Swaps from to e (swap f i j)

module _ {ℓ} {A : Type ℓ} where
  pub swap_first : (e : ℕ → A) (i j : ℕ) → swap e i j i ≡ e j
  swap_first e i j = ground arith

  pub swap_second : (e : ℕ → A) (i j : ℕ) → i < j → swap e i j j ≡ e i
  swap_second e i j l = ground (arith, l)

  pub swap_other : (e : ℕ → A) (i j k : ℕ) → k ≢ i → k ≢ j → swap e i j k ≡ e k
  swap_other e i j k a b = ground (arith, a, b)

  pub Swaps-trans :
      {from to : ℕ} {e f g : ℕ → A} → Swaps from to e f → Swaps from to f g → Swaps from to e g
  Swaps-trans s none = s
  Swaps-trans s (more i j a b c r) = more i j a b c (Swaps-trans s r)

  pub Swaps-wider :
      {from to from' to' : ℕ} {e f : ℕ → A}
      → from' ≤ from
      → to ≤ to'
      → Swaps from to e f
      → Swaps from' to' e f
  Swaps-wider l h none = none
  Swaps-wider l h (more i j a b c r) =
      more i j (omega (arith, l, a)) b (omega (arith, c, h)) (Swaps-wider l h r)

  pub Swaps-outside :
      {from to : ℕ} {e f : ℕ → A} → Swaps from to e f → (k : ℕ) → (from ≤ k → to < k) → f k ≡ e k
  Swaps-outside none k o = refl
  Swaps-outside {from} {to} (more {f} i j a b c r) k o =
      swap_other f i j k (λ q. absurd (omega (arith, o (omega (arith, q, a)), q, b, c)))
        (λ q. absurd (omega (arith, o (omega (arith, q, a, b)), q, c)))
      ∙ Swaps-outside r k o

  -- What holds of all elements of the range holds of them after exchanges.
  pub Swaps-all :
      {from to : ℕ} {e f : ℕ → A} (P : A → Type 0)
      → Swaps from to e f
      → ((k : ℕ) → from ≤ k → k ≤ to → P (e k))
      → (k : ℕ) → from ≤ k
      → k ≤ to
      → P (f k)
  Swaps-all P none h k l u = h k l u
  Swaps-all P (more {f} i j a b c r) h k l u = elim (ℕ_discrete k i) [
    | yes p ↦ rw (p, swap_first f i j) (Swaps-all P r h j (omega (arith, a, b)) c)
    | no n ↦ elim (ℕ_discrete k j) [
      | yes p ↦ rw (p, swap_second f i j b) (Swaps-all P r h i a (omega (arith, b, c)))
      | no n' ↦ rw (swap_other f i j k n n') (Swaps-all P r h k l u)
    ]
  ]

  -- A range of one place has nothing to exchange.
  pub Swaps-one : {from to : ℕ} {e f : ℕ → A} → to ≤ from → Swaps from to e f → (k : ℕ) → f k ≡ e k
  Swaps-one l none k = refl
  Swaps-one l (more i j a b c r) k = absurd (omega (arith, l, a, b, c))
