-- ===== src/QuickSort/Once.antt =====
-- One pass of quick_sort.c parts the array at an element.
use cctrl.Prelude.{
  ℕ, zero, suc, ◌+◌, ◌-◌, ◌<◌, ◌≤◌, ◌≡◌, arith, ℕ_discrete, dec_lt, ltb, true, false, Ordering, inl,
  inr, ◌⊎◌,
}
use cctrl.Prelude.Compare.{Ranked}
use cctrl.QuickSort.{Pivot, low, high, larger, swap, rounds, quick_sort_once}
use cctrl.QuickSort.Swaps.{Swaps, none, more, Swaps-trans, swap_first, swap_second, swap_other}

abbrev place : Pivot → ℕ → ℕ → ℕ
place low i j = i
place high i j = j

module _ {ℓ} {A : Type ℓ} {cmp : A → A → Ordering} (o : Ranked cmp) where
  larger_lem : (a b : A) → larger (cmp a b) ≡ ltb (o.rank b) (o.rank a)
  larger_lem a b = ground (arith, o.agrees a b)

  larger-cases :
      (a b : A)
      → ((larger (cmp a b) ≡ true) × (o.rank b < o.rank a))
        ⊎ ((larger (cmp a b) ≡ false) × (o.rank a ≤ o.rank b))
  larger-cases a b = elim (dec_lt (o.rank b) (o.rank a)) [
    | yes l ↦ inl (ground (arith, larger_lem a b, l), l)
    | no n ↦ inr (ground (arith, larger_lem a b, n), omega (arith, n))
  ]

  module _ (from to : ℕ) where
    record Parted (p : Pivot) (i j : ℕ) (e : ℕ → A) : Type 0 where
      above : from ≤ i
      ordered : i ≤ j
      below : j ≤ to
      left : (k : ℕ) → from ≤ k → k < i → o.rank (e k) ≤ o.rank (e (place p i j))
      right : (k : ℕ) → j < k → k ≤ to → o.rank (e (place p i j)) ≤ o.rank (e k)

    -- The elements before the place are at most, those behind it at least the one there.
    pub record Split (e : ℕ → A) (r : ℕ × (ℕ → A)) : Type ℓ where
      pub above : from ≤ r.0
      pub below : r.0 ≤ to
      pub swaps : Swaps from to e r.1
      pub left : (k : ℕ) → from ≤ k → k < r.0 → o.rank (r.1 k) ≤ o.rank (r.1 r.0)
      pub right : (k : ℕ) → r.0 < k → k ≤ to → o.rank (r.1 r.0) ≤ o.rank (r.1 k)

    met : (p : Pivot) (i j : ℕ) (e : ℕ → A) → i ≡ j → Parted p i j e → Split e (i, e)
    met low i j e q h = record {
      above = h.above;
      below = omega (arith, h.ordered, h.below);
      swaps = none;
      left = h.left;
      right = λ k l u. h.right k (omega (arith, l, q)) u;
    }
    met high i j e q h = record {
      above = h.above;
      below = omega (arith, h.ordered, h.below);
      swaps = none;
      left = λ k l u. rw q (h.left k l u);
      right = λ k l u. rw q (h.right k (omega (arith, l, q)) u);
    }

    swapped :
        (i j : ℕ) (e : ℕ → A) (r : ℕ × (ℕ → A))
        → from ≤ i
        → i < j
        → j ≤ to
        → Split (swap e i j) r
        → Split e r
    swapped i j e r a b c s = record {
      above = s.above;
      below = s.below;
      swaps = Swaps-trans (more i j a b c none) s.swaps;
      left = s.left;
      right = s.right;
    }

    swap_low :
        (i j : ℕ) (e : ℕ → A)
        → i < j
        → o.rank (e j) < o.rank (e i)
        → Parted low i j e
        → Parted high (i + 1) j (swap e i j)
    swap_low i j e l g h = record {
      above = omega (arith, h.above);
      ordered = omega (arith, l);
      below = h.below;
      left = λ k a b. rw (swap_second e i j l) (elim (ℕ_discrete k i) [
        | yes q ↦ rw (q, swap_first e i j) (omega (arith, g))
        | no n ↦
            rw (swap_other e i j k n (λ q. absurd (omega (arith, q, n, b, l))))
              (h.left k a (omega (arith, b, n)))
      ]);
      right = λ k a b.
          rw
            (
              swap_second e i j l,
              swap_other e i j k (λ q. absurd (omega (arith, q, a, l)))
                  (λ q. absurd (omega (arith, q, a))),
            )
            (h.right k a b);
    }

    swap_high :
        (i j : ℕ) (e : ℕ → A)
        → i < j
        → o.rank (e j) < o.rank (e i)
        → Parted high i j e
        → Parted low i (j - 1) (swap e i j)
    swap_high i j e l g h = record {
      above = h.above;
      ordered = omega (arith, l);
      below = omega (arith, h.below);
      left = λ k a b.
          rw
            (
              swap_first e i j,
              swap_other e i j k (λ q. absurd (omega (arith, q, b)))
                  (λ q. absurd (omega (arith, q, b, l))),
            )
            (h.left k a b);
      right = λ k a b. rw (swap_first e i j) (elim (ℕ_discrete k j) [
        | yes q ↦ rw (q, swap_second e i j l) (omega (arith, g))
        | no n ↦
            rw (swap_other e i j k (λ q. absurd (omega (arith, q, a, l, n))) n)
              (h.right k (omega (arith, a, n)) b)
      ]);
    }

    keep_low :
        (i j : ℕ) (e : ℕ → A)
        → i < j
        → o.rank (e i) ≤ o.rank (e j)
        → Parted low i j e
        → Parted low i (j - 1) e
    keep_low i j e l g h = record {
      above = h.above;
      ordered = omega (arith, l);
      below = omega (arith, h.below);
      left = h.left;
      right = λ k a b. elim (ℕ_discrete k j) [
        | yes q ↦ rw q g
        | no n ↦ h.right k (omega (arith, a, n)) b
      ];
    }

    keep_high :
        (i j : ℕ) (e : ℕ → A)
        → i < j
        → o.rank (e i) ≤ o.rank (e j)
        → Parted high i j e
        → Parted high (i + 1) j e
    keep_high i j e l g h = record {
      above = omega (arith, h.above);
      ordered = omega (arith, l);
      below = h.below;
      left = λ k a b. elim (ℕ_discrete k i) [
        | yes q ↦ rw q g
        | no n ↦ h.left k a (omega (arith, b, n))
      ];
      right = h.right;
    }

    rounds-Split :
        (fuel : ℕ) (p : Pivot) (i j : ℕ) (e : ℕ → A)
        → j ≤ i + fuel
        → Parted p i j e
        → Split e (rounds cmp fuel p i j e)
    unfolding rounds
    rounds-Split zero p i j e f h = met p i j e (omega (arith, f, h.ordered)) h
    rounds-Split (suc fuel) low i j e f h = elim (dec_lt i j) [
      | no n ↦
          let stop : ltb i j ≡ false = ground (arith, n) in
          rw (stop, rounds) (met low i j e (omega (arith, n, h.ordered)) h)
      | yes l ↦
          let go : ltb i j ≡ true = ground (arith, l) in
          elim (larger-cases (e i) (e j)) [
            | inl (y, g) ↦
                rw (go, y, rounds)
                  (swapped i j e _ h.above l h.below (
                    rounds-Split fuel high (i + 1) j (swap e i j) (omega (arith, f))
                      (swap_low i j e l g h)))
            | inr (y, g) ↦
                rw (go, y, rounds)
                  (rounds-Split fuel low i (j - 1) e (omega (arith, f)) (keep_low i j e l g h))
          ]
    ]
    rounds-Split (suc fuel) high i j e f h = elim (dec_lt i j) [
      | no n ↦
          let stop : ltb i j ≡ false = ground (arith, n) in
          rw (stop, rounds) (met high i j e (omega (arith, n, h.ordered)) h)
      | yes l ↦
          let go : ltb i j ≡ true = ground (arith, l) in
          elim (larger-cases (e i) (e j)) [
            | inl (y, g) ↦
                rw (go, y, rounds)
                  (swapped i j e _ h.above l h.below (
                    rounds-Split fuel low i (j - 1) (swap e i j) (omega (arith, f))
                      (swap_high i j e l g h)))
            | inr (y, g) ↦
                rw (go, y, rounds)
                  (rounds-Split fuel high (i + 1) j e (omega (arith, f)) (keep_high i j e l g h))
          ]
    ]

    pub once-Split : (e : ℕ → A) → from ≤ to → Split e (quick_sort_once cmp from to e)
    once-Split e l = rounds-Split (to - from) low from to e (omega (arith, l)) (record {
      above = omega arith;
      ordered = l;
      below = omega arith;
      left = λ k a b. absurd (omega (arith, a, b));
      right = λ k a b. absurd (omega (arith, a, b));
    })
