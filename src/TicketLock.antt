-- ===== src/TicketLock.antt =====
-- incl/ticket_lock.h, the lock with 16-bit tickets, as several threads run it: an atomic instruction on
-- the lock at a time, in any order.
mod Line
mod Keep
mod Steps
pub mod Laws
mod Tests
use cctrl.Prelude.{ℕ, ◌+◌, ◌%◌, ◌^◌, ◌<◌, ◌==◌, ◌≡◌, ◌≢◌, if◌then◌else◌, List, [], ◌∷◌, ◌++◌}

-- `ticketlock_t`
pub record TicketLock : Type 0 where
  pub ticket : ℕ
  pub owner : ℕ

abbrev pub u16 : ℕ → ℕ
u16 n = n % 2 ^ 16

abbrev pub ticket_lock_init : TicketLock
ticket_lock_init = record { ticket = 0; owner = 0 }

-- `lock xaddw` of `ticket_lock`; the old value of `ticket` is the one drawn.
abbrev pub draw : TicketLock → TicketLock
draw l = record l { ticket = u16 (l.ticket + 1) }

-- `lock incw` of `ticket_unlock`
abbrev pub ticket_unlock : TicketLock → TicketLock
ticket_unlock l = record l { owner = u16 (l.owner + 1) }

-- Where a thread stands: outside, in the loop of `ticket_lock` with its ticket, or between the two
-- calls.
pub data Pc : Type 0 where
  idle : Pc
  waits : (ticket : ℕ) → Pc
  holds : Pc

-- A lock and the threads.
pub record System : Type 0 where
  pub lock : TicketLock
  pub thread : ℕ → Pc

abbrev pub turn : (ℕ → Pc) → ℕ → Pc → ℕ → Pc
turn f i p j = if i == j then p else f j

-- What a thread does.
pub data Event : Type 0 where
  takes rechecks enters leaves : (thread : ℕ) → Event

-- A step of a thread with a number below `n`.
pub data Step (n : ℕ) (s : System) : Event → System → Type 0 where
  take :
      (i : ℕ)
      → i < n
      → s.thread i ≡ idle
      → Step n s
          (takes i)
          (record { lock = draw s.lock; thread = turn s.thread i (waits s.lock.ticket) })
  recheck :
      (i ticket : ℕ) → s.thread i ≡ waits ticket → ticket ≢ s.lock.owner → Step n s (rechecks i) s
  enter :
      (i ticket : ℕ)
      → s.thread i ≡ waits ticket
      → ticket ≡ s.lock.owner
      → Step n s (enters i) (record s { thread = turn s.thread i holds })
  leave :
      (i : ℕ)
      → s.thread i ≡ holds
      → Step n s (leaves i) (record { lock = ticket_unlock s.lock; thread = turn s.thread i idle })

abbrev pub initial : System
initial = record { lock = ticket_lock_init; thread = λ i. idle }

-- The steps of `n` threads on a new lock, the last one first.
pub data Run (n : ℕ) : List Event → System → Type 0 where
  start : Run n [] initial
  next :
      {es : List Event} {e : Event} {s s' : System} → Run n es s → Step n s e s' → Run n (e ∷ es) s'

-- The threads that took a ticket, and those that came through, in order.
abbrev pub arrivals : List Event → List ℕ
arrivals [] = []
arrivals (takes i ∷ es) = arrivals es ++ i ∷ []
arrivals (_ ∷ es) = arrivals es

abbrev pub entries : List Event → List ℕ
entries [] = []
entries (enters i ∷ es) = entries es ++ i ∷ []
entries (_ ∷ es) = entries es
