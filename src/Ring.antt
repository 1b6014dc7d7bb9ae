-- ===== src/Ring.antt =====
-- lib/core/ring.c and incl/ring.h: the lock-free ring of pointers, as one thread runs it.
pub mod Refine
pub mod Fifo
pub mod Client
pub mod Threads
pub mod Tests
use cctrl.Prelude.{
  ℕ, zero, suc, ◌+◌, ◌-◌, ◌%◌, ◌^◌, Bool, true, false, ◌==◌, ltb, if◌then◌else◌, Option, none, some,
  List, [], ◌∷◌, length, set, get_or, replicate, bit_and,
}
use cctrl.Power2.{power2}

-- `ring_t`. A slot holds an address, and 0 is NULL.
pub record Ring : Type 0 where
  pub max : ℕ
  pub mask : ℕ
  pub num : ℕ
  pub slots : List ℕ
  pub prod_head : ℕ
  pub prod_tail : ℕ
  pub cons_head : ℕ
  pub cons_tail : ℕ

-- `unsigned int` arithmetic.
abbrev pub u32 : ℕ → ℕ
u32 n = n % 2 ^ 32

abbrev pub add32 : ℕ → ℕ → ℕ
add32 a b = u32 (a + b)

abbrev pub sub32 : ℕ → ℕ → ℕ
sub32 a b = u32 (a + 2 ^ 32 - b)

-- `ring_creat`: the two flags say whether each `calloc` succeeds.
pub creat : Bool → Bool → ℕ → Option Ring
creat ring_ok slots_ok n =
    let max = power2 n in
    if ring_ok
    then (if slots_ok
        then some (record {
          max = max;
          mask = sub32 max 1;
          num = 0;
          slots = replicate max 0;
          prod_head = 0;
          prod_tail = 0;
          cons_head = 0;
          cons_tail = 0;
        })
        else none)
    else none

-- How a call ends: it waits for ever for another thread, it is refused, or it returns.
pub data Outcome {ℓ} (A : Type ℓ) : Type ℓ where
  waits refused : Outcome A
  returns : A → Outcome A

-- The loop that stores `addr[i]` in the slots from `head` on.
pub store : ℕ → ℕ → ℕ → List ℕ → List ℕ → List ℕ
store mask head i [] slots = slots
store mask head i (a ∷ addrs) slots =
    store mask head (i + 1) addrs (set slots (bit_and (add32 head i) mask) a)

-- The loop that copies `num` slots from `head` on to `addr`.
pub load : ℕ → ℕ → ℕ → ℕ → List ℕ → List ℕ
load mask head i zero slots = []
load mask head i (suc num) slots =
    get_or slots (bit_and (add32 head i) mask) 0 ∷ load mask head (i + 1) num slots

-- `ring_mpush` of an array of addresses. With one thread the compare-and-set succeeds at the first
-- attempt, and the wait for `prod.tail` ends at once or never.
pub mpush : Ring → List ℕ → Outcome Ring
mpush rq addrs =
    let num = length addrs in
    if ltb (sub32 (add32 rq.max rq.cons_tail) rq.prod_head) num
    then refused
    else let prod_next = add32 rq.prod_head num in
      if rq.prod_tail == rq.prod_head
      then returns (record rq {
        prod_head = prod_next;
        slots = store rq.mask rq.prod_head 0 addrs rq.slots;
        prod_tail = prod_next;
        num = add32 rq.num num;
      })
      else waits

-- `ring_mpop`; `refused` is the result 0.
pub mpop : Ring → ℕ → Outcome (List ℕ × Ring)
mpop rq num =
    if ltb (sub32 rq.prod_tail rq.cons_head) num
    then refused
    else let cons_next = add32 rq.cons_head num in
      if rq.cons_tail == rq.cons_head
      then returns (
        load rq.mask rq.cons_head 0 num rq.slots,
        record rq { cons_head = cons_next; cons_tail = cons_next; num = sub32 rq.num num },
      )
      else waits

-- `ring_push`
pub push : Ring → ℕ → Outcome Ring
push rq addr = mpush rq (addr ∷ [])

first : List ℕ → ℕ
first [] = 0
first (a ∷ _) = a

-- `ring_pop`: NULL on an empty ring.
pub pop : Ring → Outcome (ℕ × Ring)
pop rq = elim (mpop rq 1) [
  | returns (addrs, rq') ↦ returns (first addrs, rq')
  | refused ↦ returns (0, rq)
  | waits ↦ waits
]
