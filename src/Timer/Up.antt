-- ===== src/Timer/Up.antt =====
-- The loop of `timer_task_start` in the heap of timer.c.
use cctrl.Prelude.{
  ℕ, zero, suc, ◌/◌, ◌<◌, ◌≤◌, ◌≡◌, ◌≢◌, refl, sym, ◌∙◌, Option, some, ℕ_discrete, dec_lt, arith,
}
use cctrl.Timer.{sift_up}
use cctrl.Timer.Order.{IsHeap}
use cctrl.Prelude.Arrays.{put, count, count-move}

-- The array is a heap but for the entry at `idx`, where `task` may go.
pub record Rising (ttl : ℕ → ℕ) (n : ℕ) (e : ℕ → ℕ) (idx task : ℕ) : Type 0 where
  pub order : (j : ℕ) → 0 < j → j < n → j ≢ idx → j / 2 ≢ idx → ttl (e (j / 2)) ≤ ttl (e j)
  pub below : (j : ℕ) → 0 < j → j < n → j ≢ idx → j / 2 ≡ idx → ttl task ≤ ttl (e j)
  pub skip : (j : ℕ) → j < n → 0 < idx → j / 2 ≡ idx → ttl (e (idx / 2)) ≤ ttl (e j)

-- Where the loop puts the task: the array with it is a heap, of the same tasks.
pub record Placed (ttl : ℕ → ℕ) (n : ℕ) (e : ℕ → ℕ) (idx task : ℕ) (r : Option (ℕ × (ℕ → ℕ)))
    : Type 0 where
  pub at : ℕ
  pub array : ℕ → ℕ
  pub result : r ≡ some (at, array)
  pub in_range : idx < n → at < n
  pub is_heap : IsHeap ttl n (put array at task)
  pub same : (x : ℕ) → count n (put array at task) x ≡ count n e x

module _ {ttl : ℕ → ℕ} {n : ℕ} {e : ℕ → ℕ} {idx task : ℕ} (r : Rising ttl n e idx task)
    (in_range : idx < n) where
  Rising-up :
      idx / 2 ≢ idx
      → ttl task < ttl (e (idx / 2))
      → Rising ttl n (put e idx (e (idx / 2))) (idx / 2) task
  Rising-up ne later = record {
    order = λ j p l a b. elim (ℕ_discrete idx (j / 2)) [
      | yes q ↦ ground (arith, q, r.skip j l (omega (arith, ne)) (sym q))
      | no nq ↦ ground (arith, ne, nq, a, b, r.order j p l (λ k. b (rw k refl)) (λ k. nq (sym k)))
    ];
    below = λ j p l a b. elim (ℕ_discrete idx j) [
      | yes q ↦ ground (arith, q, later)
      | no nq ↦
          let o = r.order j p l (λ k. nq (sym k)) (λ k. ne (sym b ∙ k)) in
          let o' : ttl (e (idx / 2)) ≤ ttl (e j) = rw (← b) o in ground (arith, nq, o', later)
    ];
    skip = λ j l pos b.
        let o = r.order (idx / 2) pos (omega (arith, in_range)) ne (omega (arith, ne, pos)) in
        elim (ℕ_discrete idx j) [
          | yes q ↦ ground (arith, q, o, ne, pos)
          | no nq ↦
              let o1 =
                r.order j (omega (arith, b, pos)) l (λ k. nq (sym k)) (λ k. ne (sym b ∙ k)) in
              let o2 : ttl (e (idx / 2)) ≤ ttl (e j) = rw (← b) o1 in
              ground (arith, nq, o, o2, ne, pos)
        ];
  }

  Rising-IsHeap : (idx / 2 ≢ idx → ttl (e (idx / 2)) ≤ ttl task) → IsHeap ttl n (put e idx task)
  Rising-IsHeap top j p l = elim (ℕ_discrete j idx) [
    | yes q ↦
        let o = top (omega (arith, p, q)) in
        let o' : ttl (e (j / 2)) ≤ ttl task = rw q o in ground (arith, q, p, o')
    | no nq ↦ elim (ℕ_discrete (j / 2) idx) [
      | yes q ↦ ground (arith, nq, q, r.below j p l nq q)
      | no nr ↦ ground (arith, nq, nr, r.order j p l nq nr)
    ]
  ]

pub sift_up-Placed :
    (fuel : ℕ) {ttl : ℕ → ℕ} {n : ℕ} {e : ℕ → ℕ} {idx task : ℕ}
    → Rising ttl n e idx task
    → idx < n
    → idx < fuel
    → Placed ttl n (put e idx task) idx task (sift_up fuel ttl e idx task)
unfolding sift_up
sift_up-Placed zero r l f = absurd (omega arith)
sift_up-Placed (suc fuel) {ttl} {n} {e} {idx} {task} r l f = elim (ℕ_discrete (idx / 2) idx) [
  | yes q ↦ record {
    at = idx;
    array = e;
    result = ground (arith, q);
    in_range = λ i. i;
    is_heap = Rising-IsHeap r l (λ ne. absurd (ne q));
    same = λ x. refl;
  }
  | no nq ↦ elim (dec_lt (ttl task) (ttl (e (idx / 2)))) [
    | yes later ↦
        let p =
          sift_up-Placed fuel (Rising-up r l nq later) (omega (arith, l)) (omega (arith, f, nq)) in
        record {
          at = p.at;
          array = p.array;
          result = ground (arith, nq, later, p.result);
          in_range = λ i. p.in_range (omega (arith, l));
          is_heap = p.is_heap;
          same = λ x.
              p.same x ∙ count-move n e idx (idx / 2) task x l (omega (arith, l)) (λ k. nq (sym k));
        }
    | no early ↦ record {
      at = idx;
      array = e;
      result = ground (arith, early);
      in_range = λ i. i;
      is_heap = Rising-IsHeap r l (λ ne. omega (arith, early));
      same = λ x. refl;
    }
  ]
]
