-- ===== src/Ring/Threads/Tests.antt =====
-- A run of two threads at the ring of ring.c, in which the words of the producers wrap.
use cctrl.Prelude.{ℕ, ◌≡◌, refl, List, [], ◌∷◌, arith, true, false, ◌==◌, ℕ_discrete}
use cctrl.Ring.Threads.{
  pop_copy, Shared, Pc, Fresh, System, step, Run, here, next, turn, AllRecent, extend, idle,
  push_start, push_head, push_tail, push_copy, pop_start, call_push, read_prod_head, read_cons_tail,
  claim_push, call_pop,
}
use cctrl.Ring.Threads.Safety.{Inv, push_claim, pop_claim}
use cctrl.Ring.Threads.Progress.{IsTiled, Covers, Advances, Run-Advances}
use cctrl.Ring.Threads.Runs.{Run-Inv}

abbrev empty : Shared
empty = record {
  max = 2;
  mask = 1;
  num = 0;
  slots = λ i. 0;
  prod_head = 0xffffffff;
  prod_tail = 0xffffffff;
  cons_head = 0xffffffff;
  cons_tail = 0xffffffff;
  pushed = λ j. 0;
}

abbrev idles : ℕ → Pc
idles t = idle

abbrev start : System
start = record { shared = empty; thread = idles }

start-Inv : Inv start
start-Inv = record {
  safe = record {
    k = 1;
    k_small = omega arith;
    max_is = refl;
    mask_is = refl;
    popping = omega arith;
    ready = omega arith;
    pushing = omega arith;
    fits = omega arith;
    stored = λ j a b. absurd (omega (arith, a, b));
  };
  knows = λ t. tt;
  apart = λ t u ne. (tt, tt);
}

Fresh-turn :
    (m : Shared) (f : ℕ → Pc) (t : ℕ) (p : Pc)
    → Fresh m p
    → ((u : ℕ) → Fresh m (f u))
    → (u : ℕ) → Fresh m (turn f t p u)
Fresh-turn m f t p a b u = elim (ℕ_discrete t u) [
  | yes e ↦ let y : (t == u) ≡ true = ground arith in rw y a
  | no ne ↦ let n : (t == u) ≡ false = ground arith in rw n (b u)
]

abbrev items : List ℕ
items = 7 ∷ 8 ∷ []

-- The threads, when the first one asks for an item and the second one pushes two.
abbrev asking : ℕ → Pc
asking = turn idles 0 (pop_start 1)

abbrev called : System
called = record { shared = empty; thread = asking }

abbrev starting : System
starting = record { shared = empty; thread = turn asking 1 (push_start items) }

abbrev claiming : System
claiming = record {
  shared = empty;
  thread =
      turn (turn starting.thread 1 (push_head items 0xffffffff)) 1
        (push_tail items 0xffffffff 0xffffffff);
}

abbrev claimed : System
claimed = record {
  shared = record empty { prod_head = 0x100000001; pushed = extend empty.pushed 0xffffffff items };
  thread = turn claiming.thread 1 (push_copy items 0xffffffff 0);
}

abbrev to_claimed : Run start claimed
to_claimed =
    next
      (next
        (next
          (next (next here (step 0 (call_pop (omega arith)))) (step 1 (call_push (omega arith))))
          (step 1 read_prod_head))
        (step 1 read_cons_tail))
      (step 1 (claim_push (omega arith) refl))

recent : AllRecent to_claimed
recent =
    let quiet : (u : ℕ) → Fresh empty (idles u) = λ u. tt in
    let asks = Fresh-turn empty idles 0 (pop_start 1) tt quiet in
    let starts = Fresh-turn empty asking 1 (push_start items) tt asks in
    let reads = Fresh-turn empty starting.thread 1 (push_head items 0xffffffff) tt starts in
    let claims =
      Fresh-turn empty (turn starting.thread 1 (push_head items 0xffffffff)) 1
        (push_tail items 0xffffffff 0xffffffff) (omega arith) reads in
    (((((tt, quiet), asks), starts), reads), claims)

Run-Inv_example : Inv claimed
Run-Inv_example = Run-Inv to_claimed recent start-Inv

start-IsTiled : IsTiled start
start-IsTiled = record {
  push = λ j a b. absurd (omega (arith, a, b));
  pop = λ j a b. absurd (omega (arith, a, b));
}

Run-Advances_example :
    ((t : ℕ) (addrs : List ℕ) (h i : ℕ)
      → claimed.thread t ≡ push_copy addrs h i
      → (u : ℕ) × Covers (push_claim (claimed.thread u)) 0xffffffff
        × Advances claimed.shared (claimed.thread u))
    × ((t n h : ℕ) (addrs : List ℕ)
        → claimed.thread t ≡ pop_copy n h addrs
        → (u : ℕ) × Covers (pop_claim (claimed.thread u)) 0xffffffff
          × Advances claimed.shared (claimed.thread u))
Run-Advances_example = Run-Advances to_claimed recent start-Inv start-IsTiled
