-- ===== src/Timer/Stop.antt =====
-- `timer_task_stop` on the heap of timer.c.
use mathlib.Core.Path.{subst}
use cctrl.Prelude.{
  ℕ, zero, suc, ◌+◌, ◌-◌, ◌*◌, ◌/◌, ◌<◌, ◌≤◌, ◌≡◌, ◌≢◌, refl, ap, ◌∙◌, Bool, true, false, ◌==◌,
  if◌then◌else◌, ◌⊎◌, inl, inr, Option, none, some, dec_lt, arith,
}
use cctrl.Timer.{least, Timer, start, stop, sift_down, sift_stop}
use cctrl.Timer.Order.{root_first}
use cctrl.Prelude.Arrays.{put, one, count-fill, count-at}
use cctrl.Timer.Down.{Sinking, sift_down-Placed}
use cctrl.Timer.Laws.{IsValid, held, start-Started}

-- The loops of `timer_task_pop` and `timer_task_stop` end with the same array.
abbrev Agrees : ℕ → Option (ℕ × (ℕ → ℕ)) → Option ((ℕ → ℕ) × (ℕ → ℕ)) → Type 0
Agrees item none s = Unit
Agrees item (some (i, e)) s = (place : ℕ → ℕ) × (s ≡ some (put e i item, place))

sift_stop-Agrees :
    (fuel : ℕ) (ttl : ℕ → ℕ) (len : ℕ) (e place : ℕ → ℕ) (idx left right task item : ℕ)
    → Agrees item
        (sift_down fuel ttl len e idx left right item)
        (sift_stop fuel ttl len e place idx left right task item)
unfolding sift_down sift_stop
sift_stop-Agrees zero ttl len e place idx left right task item = tt
sift_stop-Agrees (suc fuel) ttl len e place idx left right task item = elim (dec_lt left len) [
  | no leaf ↦
      let d : sift_down (suc fuel) ttl len e idx left right item ≡ some (idx, e) =
        ground (arith, leaf) in
      rw d (put place task idx, ground (arith, leaf))
  | yes l ↦
      let m = least ttl len e left right in
      elim (dec_lt (ttl (e m)) (ttl item)) [
        | no stays ↦
            let d : sift_down (suc fuel) ttl len e idx left right item ≡ some (idx, e) =
              ground (arith, l, stays) in
            rw d (put place item idx, ground (arith, l, stays))
        | yes sooner ↦
            let d : sift_down (suc fuel) ttl len e idx left right item
                ≡ sift_down fuel ttl len (put e idx (e m)) m (2 * m) (2 * m + 1) item =
              ground (arith, l, sooner) in
            let s : sift_stop (suc fuel) ttl len e place idx left right task item
                ≡ sift_stop fuel ttl len (put e idx (e m)) (put place (e m) idx) m (2 * m)
                    (2 * m + 1) task item =
              ground (arith, l, sooner) in
            rw (d, s)
              (sift_stop-Agrees fuel ttl len (put e idx (e m)) (put place (e m) idx) m (2 * m)
                (2 * m + 1) task item)
      ]
]

least-cases :
    (ttl : ℕ → ℕ) (len : ℕ) (e : ℕ → ℕ) (left right : ℕ)
    → (least ttl len e left right ≡ left) ⊎ ((least ttl len e left right ≡ right) × (right < len))
unfolding least
least-cases ttl len e left right = elim (dec_lt right len) [
  | no f ↦ inl (ground (arith, f))
  | yes p ↦ elim (dec_lt (ttl (e right)) (ttl (e left))) [
    | yes q ↦ inr (ground (arith, p, q), p)
    | no q ↦ inl (ground (arith, p, q))
  ]
]

-- The task is in the heap at the place it records.
pub record Recorded (t : Timer) (task : ℕ) : Type 0 where
  pub in_range : t.idx task < t.len
  pub here : t.e (t.idx task) ≡ task

module _ {t : Timer} (v : IsValid t) (task : ℕ) (r : Recorded t task) where
  -- `timer_task_stop` of a task at the place it records takes it out, if the last task is not due
  -- before the parent of that place.
  pub stop_correct :
      (0 < t.idx task → t.ttl (t.e (t.idx task / 2)) ≤ t.ttl (t.e (t.len - 1)))
      → (t' : Timer) × (stop t task ≡ some (true, t'))
        × IsValid t'
        × ((x : ℕ) → held t' x + one task x ≡ held t x)
  unfolding stop
  stop_correct top =
      let n = t.len - 1 in
      let i = t.idx task in
      let left = if i == 0 then 1 else 2 * i in
      let right = if i == 0 then 2 else 2 * i + 1 in
      let hole : Sinking t.ttl n t.e i (t.e n) = record {
        order = λ j p l a b. v.is_heap j p (omega (arith, l));
        above = top;
        skip = λ j l p b.
            let o = v.is_heap i p r.in_range in
            let o' : t.ttl (t.e i) ≤ t.ttl (t.e j) =
              rw (← b) (v.is_heap j (omega (arith, p, b)) (omega (arith, l))) in
            omega (arith, o, o');
      } in
      let p =
        sift_down-Placed (suc n) {left = left} {right = right} hole
          (record { left_is = refl; right_is = ground arith }) (omega (arith, r.in_range))
          (omega arith) in
      let (place, same_array) =
        subst
          (λ d. Agrees (t.e n) d (sift_stop (suc n) t.ttl n t.e t.idx i left right task (t.e n)))
          p.result (sift_stop-Agrees (suc n) t.ttl n t.e t.idx i left right task (t.e n)) in
      (
        record t { len = n; e = put p.array p.at (t.e n); idx = place },
        ground (arith, r.in_range, r.here, same_array),
        record { room = omega (arith, v.room); positive = v.positive; is_heap = p.is_heap },
        λ x. ground (arith, p.same x, count-fill t.len t.e i x r.in_range, r.here),
      )

  -- If the last task is due before the parent of the place, the heap is out of order afterwards.
  pub stop_breaks :
      0 < t.idx task
      → t.idx task < t.len - 1
      → t.ttl (t.e (t.len - 1)) < t.ttl (t.e (t.idx task / 2))
      → (t' : Timer) × (stop t task ≡ some (true, t')) × ¬ IsValid t'
  unfolding stop sift_stop
  stop_breaks pos inner early =
      let n = t.len - 1 in
      let i = t.idx task in
      let up = v.is_heap i pos r.in_range in
      elim (dec_lt (2 * i) n) [
        | no leaf ↦ (
          record t { len = n; e = put t.e i (t.e n); idx = put t.idx task i },
          ground (arith, pos, r.in_range, r.here, leaf),
          λ w. let o = w.is_heap i pos inner in ground (arith, o, pos, early),
        )
        | yes l ↦
            let stays : t.ttl (t.e n) ≤ t.ttl (t.e (least t.ttl n t.e (2 * i) (2 * i + 1))) =
              elim (least-cases t.ttl n t.e (2 * i) (2 * i + 1)) [
                | inl q ↦
                    let o = v.is_heap (2 * i) (omega (arith, pos)) (omega (arith, l)) in
                    let half : 2 * i / 2 ≡ i = omega arith in ground (arith, q, o, up, early, half)
                | inr q ↦
                    let o = v.is_heap (2 * i + 1) (omega arith) (omega (arith, q.1)) in
                    let half : (2 * i + 1) / 2 ≡ i = omega arith in
                    ground (arith, q.0, o, up, early, half)
              ] in
            (
              record t { len = n; e = put t.e i (t.e n); idx = put t.idx (t.e n) i },
              ground (arith, pos, r.in_range, r.here, l, stays),
              λ w. let o = w.is_heap i pos inner in ground (arith, o, pos, early),
            )
      ]

module _ {t : Timer} (v : IsValid t) where
  -- The root that `timer_task_start` moves down for a task due earlier keeps its recorded place 0,
  -- where `timer_task_stop` does not find it, though it is in the heap.
  pub stop_refuses_moved :
      (mem : Bool) (task : ℕ)
      → (t.cap ≤ t.len → mem ≡ true)
      → 0 < t.len
      → t.idx (t.e 0) ≡ 0
      → t.ttl task < t.ttl (t.e 0)
      → (t' : Timer) × (start t mem task ≡ some (true, t'))
        × (0 < held t' (t.e 0))
        × (stop t' (t.e 0) ≡ some (false, t'))
  unfolding stop
  stop_refuses_moved mem task ok pos recorded early =
      let s = start-Started v mem task ok in
      let a = t.e 0 in
      let ne : a ≢ task = λ q. omega (arith, early, ap t.ttl q) in
      let place : s.after.idx a ≡ 0 = s.others a ne ∙ recorded in
      let top =
        root_first s.after.ttl s.after.len s.after.e s.valid.is_heap (s.after.idx task)
          s.placed.0 in
      let root_task : t.ttl (s.after.e 0) ≤ t.ttl task =
        subst (λ w. w (s.after.e 0) ≤ w task) s.same_ttl
          (subst (λ k. s.after.ttl (s.after.e 0) ≤ s.after.ttl k) s.placed.1 top) in
      let moved : a ≢ s.after.e 0 = λ q. omega (arith, early, root_task, ap t.ttl q) in
      (
        s.after,
        s.result,
        (let some_held = count-at t.len t.e 0 pos in ground (arith, s.with_task a, some_held)),
        ground (arith, place, moved),
      )
