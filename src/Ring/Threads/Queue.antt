-- ===== src/Ring/Threads/Queue.antt =====
-- What the threads that use the ring of ring.c see: a queue of at most `max` addresses, of which each
-- claim takes what it asks for at once.
use cctrl.Prelude.{ℕ, ◌-◌, ◌≤◌, ◌≡◌, ◌≢◌, List, [], ◌∷◌, ◌++◌, length}
use cctrl.Ring.Threads.{
  Shared, Pc, System, Act, silent, calls_push, calls_pop, returns_push, returns_pop,
  returns_refused, idle, push_start, push_head, push_tail, push_copy, push_count, push_done,
  push_refused, pop_start, pop_head, pop_tail, pop_copy, pop_count, pop_done, pop_refused,
}
use cctrl.Ring.Threads.Safety.{slice}

-- Where the call of a thread stands.
pub data Status : Type 0 where
  quiet accepted refused : Status
  offers : List ℕ → Status
  asks : ℕ → Status
  owed : List ℕ → Status

-- A step of one call at a queue, with what its caller sees of it: what is passed and what is returned.
pub data Serve (max : ℕ) : Act → List ℕ → Status → List ℕ → Status → Type 0 where
  stay : {q : List ℕ} {s : Status} → Serve max silent q s q s
  begin_push : {q xs : List ℕ} → Serve max (calls_push xs) q quiet q (offers xs)
  begin_pop : {q : List ℕ} {n : ℕ} → Serve max (calls_pop n) q quiet q (asks n)
  enqueue :
      {q xs : List ℕ} → length (q ++ xs) ≤ max → Serve max silent q (offers xs) (q ++ xs) accepted
  dequeue :
      {q xs : List ℕ} {n : ℕ} → length xs ≡ n → Serve max silent (xs ++ q) (asks n) q (owed xs)
  refuse_push : {q xs : List ℕ} → Serve max silent q (offers xs) q refused
  refuse_pop : {q : List ℕ} {n : ℕ} → Serve max silent q (asks n) q refused
  end_push : {q : List ℕ} → Serve max returns_push q accepted q quiet
  end_refused : {q : List ℕ} → Serve max returns_refused q refused q quiet
  end_pop : {q xs : List ℕ} → Serve max (returns_pop xs) q (owed xs) q quiet

pub record Queue : Type 0 where
  pub items : List ℕ
  pub calls : ℕ → Status

-- The call of the thread `t` takes a step, and the others stay.
pub data QueueStep (max t : ℕ) (e : Act) (a b : Queue) : Type 0 where
  serve :
      Serve max e a.items (a.calls t) b.items (b.calls t)
      → ((u : ℕ) → t ≢ u → b.calls u ≡ a.calls u)
      → QueueStep max t e a b

-- A run with what the callers see of it, the last step first.
pub data QueueRun (max : ℕ) (a : Queue) : List (ℕ × Act) → Queue → Type 0 where
  here : QueueRun max a [] a
  next :
      {b c : Queue} {es : List (ℕ × Act)} {t : ℕ} {e : Act}
      → QueueRun max a es b
      → QueueStep max t e b c
      → QueueRun max a ((t, e) ∷ es) c

-- The items that are claimed for a push and not yet for a pop.
abbrev pub items_of : Shared → List ℕ
items_of m = slice m.pushed m.cons_head (m.prod_head - m.cons_head)

-- A pop that has claimed its items is owed them, whatever it has loaded so far; when it returns it
-- is owed what it returns.
abbrev pub status : Shared → Pc → Status
status m idle = quiet
status m (push_start addrs) = offers addrs
status m (push_head addrs h) = offers addrs
status m (push_tail addrs h c) = offers addrs
status m (push_copy addrs h i) = accepted
status m (push_count addrs) = accepted
status m push_done = accepted
status m push_refused = refused
status m (pop_start n) = asks n
status m (pop_head n h) = asks n
status m (pop_tail n h p) = asks n
status m (pop_copy n h addrs) = owed (slice m.pushed h n)
status m (pop_count addrs) = owed addrs
status m (pop_done addrs) = owed addrs
status m pop_refused = refused

abbrev pub queue : System → Queue
queue s = record { items = items_of s.shared; calls = λ t. status s.shared (s.thread t) }
