-- ===== src/Timer/Down.antt =====
-- The loop of `timer_task_pop` in the heap of timer.c.
use cctrl.Prelude.{
  ℕ, zero, suc, ◌+◌, ◌*◌, ◌/◌, ◌<◌, ◌≤◌, ◌≡◌, ◌≢◌, refl, sym, ◌∙◌, ◌==◌, if◌then◌else◌, ℕ_discrete,
  dec_lt, arith,
}
use cctrl.Timer.{least, sift_down}
use cctrl.Timer.Order.{IsHeap}
use cctrl.Prelude.Arrays.{put, count-move}
use cctrl.Timer.Up.{Placed}

-- The array is a heap but for the entry at `idx`, where `task` may go: only the children of `idx`
-- may be due before it.
pub record Sinking (ttl : ℕ → ℕ) (n : ℕ) (e : ℕ → ℕ) (idx task : ℕ) : Type 0 where
  pub order : (j : ℕ) → 0 < j → j < n → j ≢ idx → j / 2 ≢ idx → ttl (e (j / 2)) ≤ ttl (e j)
  pub above : 0 < idx → ttl (e (idx / 2)) ≤ ttl task
  pub skip : (j : ℕ) → j < n → 0 < idx → j / 2 ≡ idx → ttl (e (idx / 2)) ≤ ttl (e j)

-- The children of `idx` that the loop looks at.
pub record Children (idx left right : ℕ) : Type 0 where
  pub left_is : left ≡ (if idx == 0 then 1 else 2 * idx)
  pub right_is : right ≡ left + 1

module _ {ttl : ℕ → ℕ} {n : ℕ} {e : ℕ → ℕ} {idx left right task : ℕ} (s : Sinking ttl n e idx task)
    (c : Children idx left right) where
  -- The loop least-Picks the child that is due first.
  pub record Picks (m : ℕ) : Type 0 where
    pub parent : m / 2 ≡ idx
    pub moved : m ≢ idx
    pub positive : 0 < m
    pub in_range : m < n
    pub first : (j : ℕ) → j < n → j ≢ idx → j / 2 ≡ idx → ttl (e m) ≤ ttl (e j)

  Picks-left : left < n → (right < n → ttl (e left) ≤ ttl (e right)) → Picks left
  Picks-left l le = record {
    parent = ground (arith, c.left_is);
    moved = λ k. ground (arith, c.left_is, k);
    positive = ground (arith, c.left_is);
    in_range = l;
    first = λ j b a q. elim (ℕ_discrete j left) [
      | yes y ↦ rw y (omega arith)
      | no ny ↦
          let other : j ≡ right = ground (arith, c.left_is, c.right_is, ny, q, a) in
          let later = le (omega (arith, other, b)) in ground (arith, other, later)
    ];
  }

  Picks-right : right < n → ttl (e right) < ttl (e left) → Picks right
  Picks-right l lt =
      let inner : 0 < idx = elim (ℕ_discrete idx 0) [
        | no nz ↦ omega (arith, nz)
        | yes z ↦
            let one_is : left ≡ 1 = ground (arith, c.left_is, z) in
            let two_is : right ≡ 2 = omega (arith, c.right_is, one_is) in
            let o : ttl (e 1) ≤ ttl (e 2) =
              s.order 2 (omega arith) (omega (arith, l, two_is)) (λ k. omega (arith, k, z))
                (λ k. omega (arith, k, z)) in
            ground (arith, one_is, two_is, o, lt)
      ] in
      let doubled : left ≡ 2 * idx = ground (arith, c.left_is, inner) in
      record {
        parent = omega (arith, doubled, c.right_is);
        moved = λ k. omega (arith, doubled, c.right_is, k);
        positive = omega (arith, c.right_is);
        in_range = l;
        first = λ j b a q. elim (ℕ_discrete j right) [
          | yes y ↦ rw y (omega arith)
          | no ny ↦
              let other : j ≡ left = omega (arith, doubled, c.right_is, ny, q) in
              ground (arith, other, lt)
        ];
      }

  least-Picks : left < n → Picks (least ttl n e left right)
  unfolding least
  least-Picks l = elim (dec_lt right n) [
    | no nr ↦
        let is : least ttl n e left right ≡ left = ground (arith, nr) in
        rw is (Picks-left l (λ r. absurd (nr r)))
    | yes r ↦ elim (dec_lt (ttl (e right)) (ttl (e left))) [
      | yes lt ↦
          let is : least ttl n e left right ≡ right = ground (arith, r, lt) in
          rw is (Picks-right r lt)
      | no nl ↦
          let is : least ttl n e left right ≡ left = ground (arith, r, nl) in
          rw is (Picks-left l (λ x. omega (arith, nl)))
    ]
  ]

  Sinking-down : (m : ℕ) → Picks m → ttl (e m) < ttl task → Sinking ttl n (put e idx (e m)) m task
  Sinking-down m k sooner = record {
    order = λ j p l a b. elim (ℕ_discrete idx j) [
      | yes q ↦
          let o = s.skip m k.in_range (omega (arith, p, q)) k.parent in ground (arith, q, p, o)
      | no nq ↦ elim (ℕ_discrete idx (j / 2)) [
        | yes q ↦ ground (arith, nq, q, k.first j l (λ z. nq (sym z)) (sym q))
        | no nr ↦ ground (arith, nq, nr, s.order j p l (λ z. nq (sym z)) (λ z. nr (sym z)))
      ]
    ];
    above = λ p. ground (arith, k.parent, sooner);
    skip = λ j l p b.
        let up : j ≢ idx = λ z. omega (arith, z, b, k.parent, p) in
        let o : ttl (e (j / 2)) ≤ ttl (e j) =
          s.order j (omega (arith, b, p)) l up (λ z. k.moved (sym b ∙ z)) in
        ground (arith, k.parent, b, up, o);
  }

  Sinking-IsHeap :
      ((j : ℕ) → j < n → j ≢ idx → j / 2 ≡ idx → ttl task ≤ ttl (e j))
      → IsHeap ttl n (put e idx task)
  Sinking-IsHeap low j p l = elim (ℕ_discrete idx j) [
    | yes q ↦
        let o : ttl (e (idx / 2)) ≤ ttl task = s.above (omega (arith, p, q)) in
        ground (arith, q, p, o)
    | no nq ↦ elim (ℕ_discrete idx (j / 2)) [
      | yes q ↦ ground (arith, nq, q, low j l (λ z. nq (sym z)) (sym q))
      | no nr ↦ ground (arith, nq, nr, s.order j p l (λ z. nq (sym z)) (λ z. nr (sym z)))
    ]
  ]

pub sift_down-Placed :
    (fuel : ℕ) {ttl : ℕ → ℕ} {n : ℕ} {e : ℕ → ℕ} {idx left right task : ℕ}
    → Sinking ttl n e idx task
    → Children idx left right
    → idx ≤ n
    → n < idx + fuel
    → Placed ttl n (put e idx task) idx task (sift_down fuel ttl n e idx left right task)
unfolding sift_down
sift_down-Placed zero s c b f = absurd (omega (arith, b, f))
sift_down-Placed (suc fuel) {ttl} {n} {e} {idx} {left} {right} {task} s c b f =
    elim (dec_lt left n) [
      | no leaf ↦ record {
        at = idx;
        array = e;
        result = ground (arith, leaf);
        in_range = λ i. i;
        is_heap = Sinking-IsHeap s c (λ j l a q. absurd (ground (arith, c.left_is, q, l, a, leaf)));
        same = λ x. refl;
      }
      | yes l ↦ elim (dec_lt (ttl (e (least ttl n e left right))) (ttl task)) [
        | no stays ↦ record {
          at = idx;
          array = e;
          result = ground (arith, l, stays);
          in_range = λ i. i;
          is_heap =
              Sinking-IsHeap s c
                (λ j i a q. let o = (least-Picks s c l).first j i a q in omega (arith, o, stays));
          same = λ x. refl;
        }
        | yes sooner ↦
            let m = least ttl n e left right in
            let k = least-Picks s c l in
            let deeper : idx < m = ground (arith, k.parent, k.moved, k.positive) in
            let p =
              sift_down-Placed fuel {left = 2 * m} {right = 2 * m + 1} (Sinking-down s c m k sooner)
                (record { left_is = ground (arith, k.positive); right_is = refl })
                (omega (arith, k.in_range)) (omega (arith, f, deeper)) in
            record {
              at = p.at;
              array = p.array;
              result = ground (arith, l, sooner, p.result);
              in_range = λ i. p.in_range k.in_range;
              is_heap = p.is_heap;
              same = λ x.
                  p.same x
                  ∙ count-move n e idx m task x (omega (arith, k.in_range, deeper)) k.in_range
                      (λ z. k.moved (sym z));
            }
      ]
    ]
