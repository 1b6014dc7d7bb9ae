-- ===== src/Ring/Client.antt =====
-- Sequences of calls on a ring of ring.c by one thread, against a bounded FIFO.
use cctrl.Prelude.{
  ℕ, ◌+◌, ◌≡◌, refl, List, [], ◌∷◌, ◌++◌, length, take, drop, arith, leb, if◌then◌else◌, dec_lt,
}
use cctrl.Ring.{Ring, waits, refused, returns, mpush, mpop}
use cctrl.Ring.Refine.{Holds}
use cctrl.Ring.Fifo.{mpush_full, mpop_empty, mpush-Holds, mpop-Holds}

-- What a client asks of a ring, and what it hears.
pub data Call : Type 0 where
  enqueue : List ℕ → Call
  dequeue : ℕ → Call

pub data Reply : Type 0 where
  accepted no_space no_data hangs : Reply
  got : List ℕ → Reply

-- The calls of one thread in order; nothing follows a call that never returns.
unfoldable pub run : Ring → List Call → List Reply
run rq [] = []
run rq (enqueue addrs ∷ calls) = elim (mpush rq addrs) [
  | returns rq' ↦ accepted ∷ run rq' calls
  | refused ↦ no_space ∷ run rq calls
  | waits ↦ hangs ∷ []
]
run rq (dequeue num ∷ calls) = elim (mpop rq num) [
  | returns (addrs, rq') ↦ got addrs ∷ run rq' calls
  | refused ↦ no_data ∷ run rq calls
  | waits ↦ hangs ∷ []
]

-- A bounded FIFO that takes or gives all the addresses of a call, or none.
pub fifo : ℕ → List ℕ → List Call → List Reply
fifo cap q [] = []
fifo cap q (enqueue addrs ∷ calls) =
    let more = fifo cap (q ++ addrs) calls in
    let same = fifo cap q calls in
    if leb (length q + length addrs) cap then accepted ∷ more else no_space ∷ same
fifo cap q (dequeue num ∷ calls) =
    let less = fifo cap (drop num q) calls in
    let same = fifo cap q calls in
    if leb num (length q) then got (take num q) ∷ less else no_data ∷ same

-- For a ring that holds a queue, every sequence of `ring_mpush` and `ring_mpop` calls by one thread
-- gets the replies of the bounded FIFO of that queue: no call hangs, and the counters may wrap.
pub run_refines :
    (calls : List Call) {rq : Ring} (q : List ℕ) → Holds rq q → run rq calls ≡ fifo rq.max q calls
unfolding run fifo
run_refines [] q h = refl
run_refines (enqueue addrs ∷ calls) {rq} q h = elim (dec_lt rq.max (length q + length addrs)) [
  | yes full ↦ ground (arith, mpush_full h addrs full, run_refines calls q h)
  | no room ↦
      let (e, h') = mpush-Holds h addrs (omega arith) in
      ground (arith, e, run_refines calls (q ++ addrs) h')
]
run_refines (dequeue num ∷ calls) {rq} q h = elim (dec_lt (length q) num) [
  | yes short ↦ ground (arith, mpop_empty h num short, run_refines calls q h)
  | no enough ↦
      let (e, h') = mpop-Holds h num (omega arith) in
      ground (arith, e, run_refines calls (drop num q) h')
]
