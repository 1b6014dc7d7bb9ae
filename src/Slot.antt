-- ===== src/Slot.antt =====
-- lib/core/slot.c and incl/slot.h: a pool of blocks of one size, whose free blocks wait in a ring.
-- The sizes are below 2 ^ 31, where `int` and `size_t` agree. One thread runs, as in Ring.
pub mod Laws
mod Tests
use cctrl.Prelude.{
  ℕ, zero, suc, ◌+◌, Bool, true, false, ◌==◌, ltb, if◌then◌else◌, Option, none, some,
}
use cctrl.Ring.{Ring, Outcome, waits, refused, returns, push, pop}
use cctrl.Ring

-- `slot_t`
pub record Slot : Type 0 where
  pub max : ℕ
  pub size : ℕ
  pub addr : ℕ
  pub ring : Ring

-- The loop of `slot_creat` that puts `num` blocks from `ptr` on into the ring.
pub fill : ℕ → Ring → ℕ → ℕ → Outcome Ring
fill zero rq ptr size = returns rq
fill (suc num) rq ptr size = elim (push rq ptr) [
  | returns rq' ↦ fill num rq' (ptr + size) size
  | refused ↦ refused
  | waits ↦ waits
]

filled : ℕ → ℕ → Outcome Ring → Outcome Slot
filled num size (returns rq) = returns (record { max = num; size = size; addr = 0; ring = rq })
filled num size refused = refused
filled num size waits = waits

with_ring : ℕ → ℕ → ℕ → Option Ring → Outcome Slot
with_ring num size area none = refused
with_ring num size area (some rq) =
    if area == 0 then refused else filled num size (fill num rq area size)

-- `slot_creat`: the flags say whether the allocations of the pool and of the ring's two parts
-- succeed, `area` is what the last `calloc` returns, and `refused` is NULL. The member `addr` keeps
-- the 0 of `calloc`.
pub creat : (slot_ok ring_ok data_ok : Bool) (area num size : ℕ) → Outcome Slot
creat slot_ok ring_ok data_ok area num size =
    if slot_ok then with_ring num size area (Ring.creat ring_ok data_ok num) else refused

-- `slot_alloc`: the block, or NULL.
pub alloc : Slot → ℕ → Outcome (ℕ × Slot)
alloc s size = if ltb s.size size then returns (0, s) else elim (pop s.ring) [
  | returns (p, rq) ↦ returns (p, record s { ring = rq })
  | refused ↦ refused
  | waits ↦ waits
]

-- `slot_dealloc`, which ignores what `ring_push` returns.
pub dealloc : Slot → ℕ → Outcome Slot
dealloc s p = elim (push s.ring p) [
  | returns rq ↦ returns (record s { ring = rq })
  | refused ↦ returns s
  | waits ↦ waits
]
