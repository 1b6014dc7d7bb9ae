-- ===== src/Timer/Laws.antt =====
-- `timer_task_start`, `timer_task_pop` and `timer_task_stop` on the heap of timer.c.
use cctrl.Prelude.{
  ℕ, suc, ◌+◌, ◌-◌, ◌*◌, ◌<◌, ◌≤◌, ◌≡◌, ◌≢◌, refl, Bool, true, leb, if◌then◌else◌, Option, some,
  ℕ_discrete, arith,
}
use cctrl.Timer.{Timer, start, pop}
use cctrl.Timer.Order.{IsHeap, root_first}
use cctrl.Prelude.Arrays.{put, one, count, count-put_beyond, count-fill}
use cctrl.Timer.Up.{Rising, sift_up-Placed}
use cctrl.Timer.Down.{Sinking, sift_down-Placed}

-- The array has room and is a heap.
pub record IsValid (t : Timer) : Type 0 where
  pub room : t.len ≤ t.cap
  pub positive : 0 < t.cap
  pub is_heap : IsHeap t.ttl t.len t.e

-- How often a task is in the heap.
abbrev pub held : Timer → ℕ → ℕ
held t x = count t.len t.e x

-- What `timer_task_start` leaves when it returns 0.
pub record Started (t : Timer) (task : ℕ) (r : Option (Bool × Timer)) : Type 0 where
  pub after : Timer
  pub result : r ≡ some (true, after)
  pub valid : IsValid after
  pub same_ttl : after.ttl ≡ t.ttl
  pub placed : (after.idx task < after.len) × (after.e (after.idx task) ≡ task)
  pub others : (x : ℕ) → x ≢ task → after.idx x ≡ t.idx x
  pub with_task : (x : ℕ) → held after x ≡ held t x + one task x

abbrev pub Popped : Timer → Option (ℕ × Timer) → Type 0
Popped t r =
    (task : ℕ) × (t' : Timer) × (r ≡ some (task, t'))
    × IsValid t'
    × ((j : ℕ) → j < t.len → t.ttl task ≤ t.ttl (t.e j))
    × ((x : ℕ) → held t' x + one task x ≡ held t x)

module _ {t : Timer} (v : IsValid t) where
  -- `timer_task_start` that gets memory when it needs some, or needs none, adds the task.
  pub start-Started :
      (mem : Bool) (task : ℕ) → (t.cap ≤ t.len → mem ≡ true) → Started t task (start t mem task)
  unfolding start
  start-Started mem task ok = elim (ℕ_discrete t.len 0) [
    | yes z ↦ record {
      after = record t {
        len = 1;
        cap = if leb t.cap t.len then 2 * t.cap else t.cap;
        e = put t.e 0 task;
        idx = put t.idx task 0;
      };
      result = ground (arith, z, v.positive);
      valid = record {
        room = ground (arith, v.positive);
        positive = ground (arith, v.positive);
        is_heap = λ j p l. omega (arith, p, l);
      };
      same_ttl = refl;
      placed = (ground arith, ground arith);
      others = λ x ne. ground (arith, ne);
      with_task = λ x. ground (arith, z);
    }
    | no nz ↦
        let p = sift_up-Placed (suc t.len) at_end (omega arith) (omega arith) in
        record {
          after = record t {
            len = suc t.len;
            cap = if leb t.cap t.len then 2 * t.cap else t.cap;
            e = put p.array p.at task;
            idx = put t.idx task p.at;
          };
          result = ground (arith, nz, ok, p.result);
          valid = record {
            room = ground (arith, v.positive, v.room);
            positive = ground (arith, v.positive);
            is_heap = p.is_heap;
          };
          same_ttl = refl;
          placed = (ground (arith, p.in_range (omega arith)), ground arith);
          others = λ x ne. ground (arith, ne);
          with_task = λ x.
              let out = count-put_beyond t.len t.e t.len task x (omega arith) in
              ground (arith, p.same x, out);
        }
  ]
    where
      at_end : Rising t.ttl (suc t.len) t.e t.len task
      at_end = record {
        order = λ j p l a b. v.is_heap j p (omega (arith, l, a));
        below = λ j p l a b. absurd (omega (arith, l, a, b));
        skip = λ j l p b. absurd (omega (arith, l, p, b));
      }

  -- `timer_task_pop` on a heap that is not empty takes a task that is due first.
  pub pop-Popped : 0 < t.len → Popped t (pop t)
  unfolding pop
  pop-Popped pos =
      let n = t.len - 1 in
      let task = t.e n in
      let hole : Sinking t.ttl n t.e 0 task = record {
        order = λ j p l a b. v.is_heap j p (omega (arith, l));
        above = λ p. absurd (omega (arith, p));
        skip = λ j l p b. absurd (omega (arith, p));
      } in
      let p =
        sift_down-Placed (suc n) {left = 1} {right = 2} hole
          (record { left_is = refl; right_is = refl }) (omega arith) (omega arith) in
      (
        t.e 0,
        record t { len = n; e = put p.array p.at task },
        ground (arith, pos, p.result),
        record { room = omega (arith, v.room); positive = v.positive; is_heap = p.is_heap },
        root_first t.ttl t.len t.e v.is_heap,
        λ x. ground (arith, p.same x, count-fill t.len t.e 0 x pos),
      )
