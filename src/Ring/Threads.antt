-- ===== src/Ring/Threads.antt =====
-- lib/core/ring.c, as several threads run it: `ring_mpush` and `ring_mpop`, an access to the shared
-- ring at a time. A counter and a local copy of one are kept as numbers that never wrap; the machine's
-- word is `u32` of it, and all tests of the code are on the words. `pushed` is no part of the
-- program: it lists the addresses in the order in which their places were claimed.
pub mod Safety
mod Others
mod Slots
mod Claims
mod Moves
pub mod Queue
mod Refine
pub mod Runs
pub mod Progress
mod Tests
use cctrl.Prelude.{
  ℕ, zero, suc, ◌+◌, ◌-◌, ◌<◌, ◌≤◌, ◌≡◌, ◌≢◌, ◌^◌, List, [], ◌∷◌, ◌++◌, length, bit_and, get_or,
  if◌then◌else◌, ltb, ◌==◌,
}
use cctrl.Prelude.Arrays.{put}
use cctrl.Ring.{u32, add32, sub32}

-- `ring_t`, shared by the threads.
pub record Shared : Type 0 where
  pub max : ℕ
  pub mask : ℕ
  pub num : ℕ
  pub slots : ℕ → ℕ
  pub prod_head : ℕ
  pub prod_tail : ℕ
  pub cons_head : ℕ
  pub cons_tail : ℕ
  pub pushed : ℕ → ℕ

-- Where a thread stands, with the local variables that are live there.
pub data Pc : Type 0 where
  idle : Pc
  push_start : (addrs : List ℕ) → Pc  -- the head of the loop
  push_head : (addrs : List ℕ) (prod_head : ℕ) → Pc  -- `prod.head` is read
  push_tail : (addrs : List ℕ) (prod_head cons_tail : ℕ) → Pc  -- `cons.tail` is read
  push_copy : (addrs : List ℕ) (prod_head i : ℕ) → Pc  -- `i` addresses are stored
  push_count : (addrs : List ℕ) → Pc  -- before the addition to `num`
  push_done push_refused : Pc
  pop_start : (num : ℕ) → Pc
  pop_head : (num cons_head : ℕ) → Pc
  pop_tail : (num cons_head prod_tail : ℕ) → Pc
  pop_copy : (num cons_head : ℕ) (addrs : List ℕ) → Pc  -- what is loaded so far
  pop_count : (addrs : List ℕ) → Pc
  pop_done : (addrs : List ℕ) → Pc
  pop_refused : Pc

-- The addresses claimed from `h` on.
abbrev pub extend : (ℕ → ℕ) → ℕ → List ℕ → ℕ → ℕ
extend f h addrs j = if ltb j h then f j else get_or addrs (j - h) 0

-- The slot of the item that a counter and an offset number.
abbrev pub slot : Shared → ℕ → ℕ → ℕ
slot m head i = bit_and (add32 (u32 head) i) m.mask

-- The test `num > (rq->max + cons_tail - prod_head)`, on words.
abbrev pub room : Shared → ℕ → ℕ → ℕ
room m head tail = sub32 (add32 m.max (u32 tail)) (u32 head)

-- One step of one thread. Calls with `num` 0 are left out.
pub data Move (m : Shared) : Pc → Shared → Pc → Type 0 where
  call_push : {addrs : List ℕ} → 0 < length addrs → Move m idle m (push_start addrs)
  read_prod_head : {addrs : List ℕ} → Move m (push_start addrs) m (push_head addrs m.prod_head)
  read_cons_tail :
      {addrs : List ℕ} {h : ℕ} → Move m (push_head addrs h) m (push_tail addrs h m.cons_tail)
  no_room :
      {addrs : List ℕ} {h c : ℕ}
      → room m h c < length addrs
      → Move m (push_tail addrs h c) m push_refused
  claim_push :
      {addrs : List ℕ} {h c : ℕ}
      → length addrs ≤ room m h c
      → u32 m.prod_head ≡ u32 h
      → Move m
          (push_tail addrs h c)
          (record m {
            prod_head = m.prod_head + length addrs;
            pushed = extend m.pushed m.prod_head addrs;
          })
          (push_copy addrs m.prod_head 0)
  lose_push :
      {addrs : List ℕ} {h c : ℕ}
      → length addrs ≤ room m h c
      → u32 m.prod_head ≢ u32 h
      → Move m (push_tail addrs h c) m (push_start addrs)
  store :
      {addrs : List ℕ} {h i : ℕ}
      → i < length addrs
      → Move m
          (push_copy addrs h i)
          (record m { slots = put m.slots (slot m h i) (get_or addrs i 0) })
          (push_copy addrs h (suc i))
  wait_push :
      {addrs : List ℕ} {h : ℕ}
      → u32 m.prod_tail ≢ u32 h
      → Move m (push_copy addrs h (length addrs)) m (push_copy addrs h (length addrs))
  publish :
      {addrs : List ℕ} {h : ℕ}
      → u32 m.prod_tail ≡ u32 h
      → Move m
          (push_copy addrs h (length addrs))
          (record m { prod_tail = h + length addrs })
          (push_count addrs)
  count_push :
      {addrs : List ℕ}
      → Move m (push_count addrs) (record m { num = add32 m.num (length addrs) }) push_done
  leave_push : Move m push_done m idle
  leave_refused_push : Move m push_refused m idle
  call_pop : {n : ℕ} → 0 < n → Move m idle m (pop_start n)
  read_cons_head : {n : ℕ} → Move m (pop_start n) m (pop_head n m.cons_head)
  read_prod_tail : {n h : ℕ} → Move m (pop_head n h) m (pop_tail n h m.prod_tail)
  no_data : {n h p : ℕ} → sub32 (u32 p) (u32 h) < n → Move m (pop_tail n h p) m pop_refused
  claim_pop :
      {n h p : ℕ}
      → n ≤ sub32 (u32 p) (u32 h)
      → u32 m.cons_head ≡ u32 h
      → Move m
          (pop_tail n h p)
          (record m { cons_head = m.cons_head + n })
          (pop_copy n m.cons_head [])
  lose_pop :
      {n h p : ℕ}
      → n ≤ sub32 (u32 p) (u32 h)
      → u32 m.cons_head ≢ u32 h
      → Move m (pop_tail n h p) m (pop_start n)
  load :
      {n h : ℕ} {addrs : List ℕ}
      → length addrs < n
      → Move m
          (pop_copy n h addrs)
          m
          (pop_copy n h (addrs ++ m.slots (slot m h (length addrs)) ∷ []))
  wait_pop :
      {n h : ℕ} {addrs : List ℕ}
      → n ≤ length addrs
      → u32 m.cons_tail ≢ u32 h
      → Move m (pop_copy n h addrs) m (pop_copy n h addrs)
  release :
      {n h : ℕ} {addrs : List ℕ}
      → n ≤ length addrs
      → u32 m.cons_tail ≡ u32 h
      → Move m (pop_copy n h addrs) (record m { cons_tail = h + n }) (pop_count addrs)
  count_pop :
      {addrs : List ℕ}
      → Move m (pop_count addrs) (record m { num = sub32 m.num (length addrs) }) (pop_done addrs)
  leave_pop : {addrs : List ℕ} → Move m (pop_done addrs) m idle
  leave_refused_pop : Move m pop_refused m idle

-- What a caller sees of a step: the arguments when it calls, and what it gets when the call returns.
pub data Act : Type 0 where
  silent returns_push returns_refused : Act
  calls_push returns_pop : List ℕ → Act
  calls_pop : ℕ → Act

abbrev pub act : {m m' : Shared} {p p' : Pc} → Move m p m' p' → Act
act (call_push {addrs} l) = calls_push addrs
act read_prod_head = silent
act read_cons_tail = silent
act (no_room l) = silent
act (claim_push l e) = silent
act (lose_push l e) = silent
act (store l) = silent
act (wait_push e) = silent
act (publish e) = silent
act count_push = silent
act leave_push = returns_push
act leave_refused_push = returns_refused
act (call_pop {n} l) = calls_pop n
act read_cons_head = silent
act read_prod_tail = silent
act (no_data l) = silent
act (claim_pop l e) = silent
act (lose_pop l e) = silent
act (load l) = silent
act (wait_pop l e) = silent
act (release l e) = silent
act count_pop = silent
act (leave_pop {addrs}) = returns_pop addrs
act leave_refused_pop = returns_refused

-- The ring and its threads, each with a number.
pub record System : Type 0 where
  pub shared : Shared
  pub thread : ℕ → Pc

abbrev pub turn : (ℕ → Pc) → ℕ → Pc → ℕ → Pc
turn f t p u = if t == u then p else f u

pub data Step (s : System) : System → Type 0 where
  step :
      (t : ℕ) {m : Shared} {p : Pc}
      → Move s.shared (s.thread t) m p
      → Step s (record { shared = m; thread = turn s.thread t p })

pub data Run (s : System) : System → Type 0 where
  here : Run s s
  next : {t u : System} → Run s t → Step t u → Run s u

-- The thread of a step with what its caller sees, and those of a run, the last one first.
abbrev pub event : {s t : System} → Step s t → ℕ × Act
event (step t move) = (t, act move)

abbrev pub history : {s t : System} → Run s t → List (ℕ × Act)
history here = []
history (next r st) = event st ∷ history r

-- A thread that is about to claim was not overtaken by `2 ^ 32` items since it read its head.
abbrev pub Fresh : Shared → Pc → Type 0
Fresh m (push_tail addrs h c) = m.prod_head < h + 2 ^ 32
Fresh m (pop_tail n h p) = m.cons_head < h + 2 ^ 32
Fresh m _ = Unit

abbrev pub IsRecent : System → Type 0
IsRecent s = (t : ℕ) → Fresh s.shared (s.thread t)

abbrev pub AllRecent : {s t : System} → Run s t → Type 0
AllRecent here = Unit
AllRecent (next {t} r st) = AllRecent r × IsRecent t
