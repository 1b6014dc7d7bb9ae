-- ===== src/Ring/Threads/Refine.antt =====
-- A step of a thread in ring.c is a step of one call at the queue.
use cctrl.Prelude.{ℕ, ◌+◌, ◌-◌, ◌≤◌, ◌≡◌, refl, sym, ap, ◌∙◌, List, ◌++◌, length, arith}
use cctrl.Ring.Threads.{
  Shared, Pc, Move, act, extend, idle, push_start, push_head, push_tail, push_copy, push_count,
  push_done, push_refused, pop_start, pop_head, pop_tail, pop_copy, pop_count, pop_done,
  pop_refused, call_push, read_prod_head, read_cons_tail, no_room, claim_push, lose_push, store,
  wait_push, publish, count_push, leave_push, leave_refused_push, call_pop, read_cons_head,
  read_prod_tail, no_data, claim_pop, lose_pop, load, wait_pop, release, count_pop, leave_pop,
  leave_refused_pop,
}
use cctrl.Ring.Threads.Safety.{
  IsSafe, Knows, slice, slice-cong, slice-append, slice-entries, length-slice,
}
use cctrl.Ring.Threads.Others.{Kept, slice_kept}
use cctrl.Ring.Threads.Slots.{extend_below, extend_above}
use cctrl.Ring.Threads.Queue.{
  Status, Serve, stay, begin_push, begin_pop, enqueue, dequeue, refuse_push, refuse_pop, end_push,
  end_refused, end_pop, items_of, status,
}

module _ (m : Shared) (safe : IsSafe m) where
  -- A claim for a push puts its addresses behind the items.
  items-claim_push :
      (addrs : List ℕ)
      → slice
          (extend m.pushed m.prod_head addrs)
          m.cons_head
          (m.prod_head + length addrs - m.cons_head)
        ≡ items_of m ++ addrs
  items-claim_push addrs =
      let after = extend m.pushed m.prod_head addrs in
      let used = m.prod_head - m.cons_head in
      let split : m.prod_head + length addrs - m.cons_head ≡ used + length addrs =
        omega (arith, safe.ready, safe.pushing) in
      let at_head : m.cons_head + used ≡ m.prod_head = omega (arith, safe.ready, safe.pushing) in
      let old =
        slice-cong m.pushed after m.cons_head used
          (λ j a b. extend_below m.pushed m.prod_head addrs j (omega (arith, b, at_head))) in
      let new =
        slice-entries after m.prod_head addrs (λ j l. extend_above m.pushed m.prod_head addrs j) in
      rw split (slice-append after m.cons_head used (length addrs) ∙ rw (at_head, old, new) refl)

  -- A claim for a pop takes its items from the front.
  items-claim_pop :
      (n : ℕ)
      → m.cons_head + n ≤ m.prod_head
      → items_of m
        ≡ slice m.pushed m.cons_head n
          ++ slice m.pushed (m.cons_head + n) (m.prod_head - (m.cons_head + n))
  items-claim_pop n l =
      let split : m.prod_head - m.cons_head ≡ n + (m.prod_head - (m.cons_head + n)) =
        omega (arith, l) in
      ap (slice m.pushed m.cons_head) split
      ∙ slice-append m.pushed m.cons_head n (m.prod_head - (m.cons_head + n))

  length-items : length (items_of m) ≤ m.max
  length-items =
      let e = length-slice m.pushed m.cons_head (m.prod_head - m.cons_head) in
      omega (arith, e, safe.fits, safe.popping)

-- What a thread is owed does not change when another thread moves.
pub status-Kept :
    {m m' : Shared} → IsSafe m → Kept m m' → (q : Pc) → Knows m q → status m' q ≡ status m q
status-Kept s k idle w = refl
status-Kept s k (push_start addrs) w = refl
status-Kept s k (push_head addrs h) w = refl
status-Kept s k (push_tail addrs h t) w = refl
status-Kept s k (push_copy addrs h i) w = refl
status-Kept s k (push_count addrs) w = refl
status-Kept s k push_done w = refl
status-Kept s k push_refused w = refl
status-Kept s k (pop_start n) w = refl
status-Kept s k (pop_head n h) w = refl
status-Kept s k (pop_tail n h p) w = refl
status-Kept s k (pop_copy n h addrs) w = ap Status.owed (slice_kept s k h n w.2)
status-Kept s k (pop_count addrs) w = refl
status-Kept s k (pop_done addrs) w = refl
status-Kept s k pop_refused w = refl

pub Move-Serve :
    {m m' : Shared} {p p' : Pc}
    → (move : Move m p m' p') → IsSafe m
    → Knows m p
    → IsSafe m'
    → Knows m' p'
    → Serve m.max (act move) (items_of m) (status m p) (items_of m') (status m' p')
Move-Serve (call_push l) s w s' w' = begin_push
Move-Serve read_prod_head s w s' w' = stay
Move-Serve read_cons_tail s w s' w' = stay
Move-Serve (no_room l) s w s' w' = refuse_push
Move-Serve {m} {m'} (claim_push {addrs} l e) s w s' w' =
    let e = items-claim_push m s addrs in
    let few = length-items m' s' in
    let few' : length (items_of m ++ addrs) ≤ m.max = rw e at few in rw e (enqueue few')
Move-Serve (lose_push l e) s w s' w' = stay
Move-Serve (store l) s w s' w' = stay
Move-Serve (wait_push e) s w s' w' = stay
Move-Serve (publish e) s w s' w' = stay
Move-Serve count_push s w s' w' = stay
Move-Serve leave_push s w s' w' = end_push
Move-Serve leave_refused_push s w s' w' = end_refused
Move-Serve (call_pop l) s w s' w' = begin_pop
Move-Serve read_cons_head s w s' w' = stay
Move-Serve read_prod_tail s w s' w' = stay
Move-Serve (no_data l) s w s' w' = refuse_pop
Move-Serve {m} (claim_pop {n} l e) s w s' w' =
    rw (items-claim_pop m s n (omega (arith, s'.ready, s'.pushing)))
      (dequeue (length-slice m.pushed m.cons_head n))
Move-Serve (lose_pop l e) s w s' w' = stay
Move-Serve (load l) s w s' w' = stay
Move-Serve (wait_pop l e) s w s' w' = stay
Move-Serve {m} (release {n} {h} {addrs} l e) s w s' w' =
    let all : length addrs ≡ n = omega (arith, l, w.3) in
    let owed_is : slice m.pushed h n ≡ addrs = sym (rw all at w.4) in rw owed_is stay
Move-Serve count_pop s w s' w' = stay
Move-Serve leave_pop s w s' w' = end_pop
Move-Serve leave_refused_pop s w s' w' = end_refused
