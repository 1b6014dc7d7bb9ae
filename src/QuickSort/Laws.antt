-- ===== src/QuickSort/Laws.antt =====
-- quick_sort.c sorts the array by exchanges of places inside it.
use cctrl.Prelude.{
  ℕ, zero, suc, ◌+◌, ◌-◌, ◌<◌, ◌≤◌, ◌≡◌, ◌∙◌, arith, ℕ_discrete, dec_lt, ltb, true, false, Ordering,
}
use cctrl.Prelude.Compare.{Ranked}
use cctrl.QuickSort.{quick_sort_once, sort_part, quick_sort}
use cctrl.QuickSort.Swaps.{
  Swaps, none, Swaps-trans, Swaps-wider, Swaps-outside, Swaps-all, Swaps-one,
}
use cctrl.QuickSort.Once.{Split, once-Split}

module _ {ℓ} {A : Type ℓ} {cmp : A → A → Ordering} (o : Ranked cmp) where
  abbrev pub IsAscending : ℕ → ℕ → (ℕ → A) → Type 0
  IsAscending from to e = (i j : ℕ) → from ≤ i → i ≤ j → j ≤ to → o.rank (e i) ≤ o.rank (e j)

  pub record Sorted (from to : ℕ) (e f : ℕ → A) : Type ℓ where
    pub swaps : Swaps from to e f
    pub ascending : IsAscending from to f

  -- Two parts that are in order around an element of their own.
  module _ (from to : ℕ) (e f g h : ℕ → A) (m : ℕ) (split : Split o from to e (m, f))
      (first : Sorted from (m - 1) f g) (last : Sorted (m + 1) to g h) where
    from_split : (k : ℕ) → m ≤ k → g k ≡ f k
    from_split k l = elim (dec_lt 0 m) [
      | yes p ↦ Swaps-outside first.swaps k (λ q. omega (arith, l, p))
      | no n ↦ Swaps-one (omega (arith, n)) first.swaps k
    ]

    before_last : (k : ℕ) → k ≤ m → h k ≡ g k
    before_last k l = Swaps-outside last.swaps k (λ q. absurd (omega (arith, q, l)))

    middle : h m ≡ f m
    middle = before_last m (omega arith) ∙ from_split m (omega arith)

    first_low : (k : ℕ) → from ≤ k → k < m → o.rank (h k) ≤ o.rank (h m)
    first_low k a b =
        rw (middle, before_last k (omega (arith, b)))
          (Swaps-all (λ x. o.rank x ≤ o.rank (f m)) first.swaps
            (λ i c d. split.left i c (omega (arith, d, b))) k a (omega (arith, b)))

    last_high : (k : ℕ) → m < k → k ≤ to → o.rank (h m) ≤ o.rank (h k)
    last_high k a b = rw middle (
        Swaps-all (λ x. o.rank (f m) ≤ o.rank x) last.swaps
          (λ i c d. rw (from_split i (omega (arith, c))) (split.right i (omega (arith, c)) d)) k
          (omega (arith, a)) b)

    joined : Sorted from to e h
    joined = record {
      swaps =
          let low_part : Swaps from to f g =
            Swaps-wider (omega arith) (omega (arith, split.below)) first.swaps in
          let high_part : Swaps from to g h =
            Swaps-wider (omega (arith, split.above)) (omega arith) last.swaps in
          Swaps-trans split.swaps (Swaps-trans low_part high_part);
      ascending = ascending;
    }
      where
        ascending : IsAscending from to h
        ascending i j a b c = elim (dec_lt j m) [
          | yes l ↦
              rw (before_last i (omega (arith, b, l)), before_last j (omega (arith, l)))
                (first.ascending i j a b (omega (arith, l)))
          | no nj ↦ elim (dec_lt m i) [
            | yes l ↦ last.ascending i j (omega (arith, l)) b c
            | no ni ↦ elim (ℕ_discrete i j) [
              | yes q ↦ rw q (omega arith)
              | no n ↦ elim (dec_lt i m) [
                | yes l ↦ elim (ℕ_discrete j m) [
                  | yes q ↦ rw q (first_low i a l)
                  | no u ↦
                      let x = first_low i a l in
                      let y = last_high j (omega (arith, nj, u)) c in omega (arith, x, y)
                ]
                | no u ↦
                    let at_m : i ≡ m = omega (arith, ni, u) in
                    rw at_m (last_high j (omega (arith, at_m, n, b)) c)
              ]
            ]
          ]
        ]

  sort_part-Sorted :
      (fuel from to : ℕ) (e : ℕ → A)
      → to < from + fuel
      → Sorted from to e (sort_part cmp fuel from to e)
  unfolding sort_part
  sort_part-Sorted zero from to e l = record {
    swaps = none;
    ascending = λ i j a b c. absurd (omega (arith, a, b, c, l));
  }
  sort_part-Sorted (suc fuel) from to e l = elim (dec_lt from to) [
    | yes y ↦
        let go : ltb from to ≡ true = ground (arith, y) in
        let split = once-Split o from to e (omega (arith, y)) in
        let r = quick_sort_once cmp from to e in
        let first = sort_part-Sorted fuel from (r.0 - 1) r.1 (omega (arith, l, split.below, y)) in
        let last =
          sort_part-Sorted fuel (r.0 + 1) to (sort_part cmp fuel from (r.0 - 1) r.1)
            (omega (arith, l, split.above)) in
        rw (go, sort_part) (joined from to e r.1 _ _ r.0 split first last)
    | no n ↦
        let stop : ltb from to ≡ false = ground (arith, n) in
        rw (stop, sort_part)
          (record {
            swaps = none;
            ascending =
                λ i j a b c. let same : i ≡ j = omega (arith, n, a, b, c) in rw same (omega arith);
          })
  ]

  -- `quick_sort` of a positive number of elements ends; they are then in ascending order, and arise
  -- from those before by exchanges of places below that number.
  pub quick_sort-Sorted :
      (e : ℕ → A) (len : ℕ) → 0 < len → Sorted 0 (len - 1) e (quick_sort cmp e len)
  unfolding quick_sort
  quick_sort-Sorted e zero pos = absurd (omega (arith, pos))
  quick_sort-Sorted e (suc n) pos =
      let last : suc n - 1 ≡ n = omega arith in
      rw last (sort_part-Sorted (suc n) 0 n e (omega arith))
