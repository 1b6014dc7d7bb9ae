-- ===== src/Ring/Tests.antt =====
-- Runs of the ring of ring.c, and its theorems at concrete rings.
use cctrl.Prelude.{ℕ, zero, suc, ◌+◌, ◌%◌, ◌^◌, ◌<◌, ◌≡◌, refl, List, [], ◌∷◌, arith, get_or}
use cctrl.Ring.{Ring, mpush, mpop, store, load}
use cctrl.Ring.Refine.{Holds}
use cctrl.Ring.Client.{
  Call, enqueue, dequeue, accepted, no_space, no_data, got, run, fifo, run_refines,
}

-- Four slots; the counters are about to wrap at `2 ^ 32`, and 7 and 8 are stored.
abbrev pub wrapping : Ring
wrapping = record {
  max = 4;
  mask = 3;
  num = 2;
  slots = 0 ∷ 0 ∷ 7 ∷ 8 ∷ [];
  prod_head = 0;
  prod_tail = 0;
  cons_head = 0xffff_fffe;
  cons_tail = 0xffff_fffe;
}

pub wrapping_held :
    (i : ℕ) → i < 2 → get_or wrapping.slots ((0xffff_fffe + i) % 2 ^ 2) 0 ≡ get_or (7 ∷ 8 ∷ []) i 0
wrapping_held zero h = refl
wrapping_held (suc zero) h = refl
wrapping_held (suc (suc i)) h = absurd (omega arith)

abbrev pub wrapping-Holds : Holds wrapping (7 ∷ 8 ∷ [])
wrapping-Holds = record {
  k = 2;
  c = 0xffff_fffe;
  k_small = omega arith;
  max_is = refl;
  mask_is = refl;
  size = refl;
  fits = omega arith;
  num_is = refl;
  prod_head_is = refl;
  prod_tail_is = refl;
  cons_head_is = refl;
  cons_tail_is = refl;
  held = wrapping_held;
}

abbrev script : List Call
script = enqueue (1 ∷ 2 ∷ []) ∷ enqueue (3 ∷ []) ∷ dequeue 3 ∷ dequeue 1 ∷ dequeue 1 ∷ []

replies :
    run wrapping script ≡ accepted ∷ no_space ∷ got (7 ∷ 8 ∷ 1 ∷ []) ∷ got (2 ∷ []) ∷ no_data ∷ []
unfolding run mpush mpop store load
replies = refl

run_refines_example : run wrapping script ≡ fifo 4 (7 ∷ 8 ∷ []) script
run_refines_example = run_refines script (7 ∷ 8 ∷ []) wrapping-Holds
