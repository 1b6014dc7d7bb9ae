-- ===== src/Timer.antt =====
-- lib/core/timer.c and incl/timer.h: the heap of timed tasks. A task is its address; its fields
-- `ttl` and `idx` stand in maps beside the array `e`. Entry 0 is the root and entry i / 2 the parent
-- of entry i, so entry 0 has the one child 1. The lock is held from the first to the last line of
-- each function, so a call is one step. `cmp` subtracts two times below 2 ^ 63, so that its sign is
-- their order.
pub mod Order
pub mod Up
pub mod Down
pub mod Laws
pub mod Stop
mod Tests
use cctrl.Prelude.{
  ℕ, zero, suc, ◌+◌, ◌-◌, ◌*◌, ◌/◌, ◌%◌, ◌^◌, Bool, true, false, not, ◌&&◌, ◌==◌, ltb, leb,
  if◌then◌else◌, Option, none, some, ◌>>=◌,
}
use cctrl.Prelude.Arrays.{put}

-- `timer_cntx_t`, with the fields of the tasks.
pub record Timer : Type 0 where
  pub len : ℕ
  pub cap : ℕ
  pub e : ℕ → ℕ
  pub ttl : ℕ → ℕ
  pub idx : ℕ → ℕ

-- `timer_cntx_init`, when both allocations succeed.
pub init : (ttl idx : ℕ → ℕ) → Timer
init ttl idx = record { len = 0; cap = 128; e = λ i. 0; ttl = ttl; idx = idx }

-- The loop of `timer_task_start`: where the task goes, and the array that makes room for it.
pub sift_up : ℕ → (ℕ → ℕ) → (ℕ → ℕ) → ℕ → ℕ → Option (ℕ × (ℕ → ℕ))
sift_up zero ttl e idx task = none
sift_up (suc fuel) ttl e idx task =
    let parent = idx / 2 in
    let rest = sift_up fuel ttl (put e idx (e parent)) parent task in
    if not (idx == parent) && ltb (ttl task) (ttl (e parent)) then rest else some (idx, e)

-- `timer_task_start`; the flag says whether `realloc` succeeds, and the result whether 0 is
-- returned.
pub start : Timer → Bool → ℕ → Option (Bool × Timer)
start t mem task =
    if leb t.cap t.len && not mem
    then some (false, t)
    else let cap = if leb t.cap t.len then 2 * t.cap else t.cap in
      if t.len == 0
      then some (true, record t { len = 1; cap = cap; e = put t.e 0 task; idx = put t.idx task 0 })
      else (sift_up (suc t.len) t.ttl t.e t.len task >>= λ r. some (
        true,
        record t { len = suc t.len; cap = cap; e = put r.1 r.0 task; idx = put t.idx task r.0 },
      ))

-- The child that `timer_task_pop` and `timer_task_stop` compare with.
pub least : (ℕ → ℕ) → ℕ → (ℕ → ℕ) → ℕ → ℕ → ℕ
least ttl len e left right =
    if ltb right len then (if leb (ttl (e left)) (ttl (e right)) then left else right) else left

-- The loop of `timer_task_pop`.
pub sift_down : ℕ → (ℕ → ℕ) → ℕ → (ℕ → ℕ) → ℕ → ℕ → ℕ → ℕ → Option (ℕ × (ℕ → ℕ))
sift_down zero ttl len e idx left right task = none
sift_down (suc fuel) ttl len e idx left right task =
    let m = least ttl len e left right in
    let rest = sift_down fuel ttl len (put e idx (e m)) m (2 * m) (2 * m + 1) task in
    if leb len left
    then some (idx, e)
    else if leb (ttl task) (ttl (e m))
    then some (idx, e)
    else rest

-- `timer_task_pop`: the task, or NULL.
pub pop : Timer → Option (ℕ × Timer)
pop t =
    if t.len == 0
    then some (0, t)
    else let len = t.len - 1 in
      let task = t.e len in
      (sift_down (suc len) t.ttl len t.e 0 1 2 task >>= λ r.
      some (t.e 0, record t { len = len; e = put r.1 r.0 task }))

-- The loop of `timer_task_stop`, which records the new place of the tasks it moves; at a leaf the
-- place goes to the task that is stopped.
pub sift_stop : ℕ → (ℕ → ℕ) → ℕ → (ℕ → ℕ) → (ℕ → ℕ) → ℕ → ℕ → ℕ → ℕ → ℕ → Option ((ℕ → ℕ) × (ℕ → ℕ))
sift_stop zero ttl len e place idx left right task item = none
sift_stop (suc fuel) ttl len e place idx left right task item =
    let m = least ttl len e left right in
    let rest =
      sift_stop fuel ttl len (put e idx (e m)) (put place (e m) idx) m (2 * m) (2 * m + 1) task
        item in
    if leb len left
    then some (put e idx item, put place task idx)
    else if leb (ttl item) (ttl (e m))
    then some (put e idx item, put place item idx)
    else rest

-- `timer_task_stop`; the flag is whether 0 is returned.
pub stop : Timer → ℕ → Option (Bool × Timer)
stop t task =
    let idx = t.idx task in
    let left = if idx == 0 then 1 else 2 * idx in
    let right = if idx == 0 then 2 else 2 * idx + 1 in
    let len = t.len - 1 in
    if leb t.len idx
    then some (false, t)
    else if not (task == t.e idx)
    then some (false, t)
    else (sift_stop (suc len) t.ttl len t.e t.idx idx left right task (t.e len) >>= λ r.
        some (true, record t { len = len; e = r.0; idx = r.1 }))

-- `timer_task_is_timeout` at the time `now`; the difference is cut to the 32 bits of an `int`, whose
-- upper half is negative.
pub is_timeout : Timer → ℕ → Bool
is_timeout t now =
    if t.len == 0
    then false
    else let root = t.ttl (t.e 0) in
      let timeout = if ltb now root then (root - now) % 2 ^ 32 else 0 in
      if ltb 0 timeout && ltb timeout (2 ^ 31) then false else true
