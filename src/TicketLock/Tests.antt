-- ===== src/TicketLock/Tests.antt =====
-- Runs of the ticket lock, and its theorems at them.
use cctrl.Prelude.{ℕ, ◌≡◌, ◌≢◌, refl, List, [], ◌∷◌, ◌⊎◌, arith}
use cctrl.TicketLock.{
  draw, ticket_unlock, idle, waits, holds, turn, System, Event, takes, enters, leaves, Step, take,
  enter, leave, initial, Run, start, next,
}
use cctrl.Prelude.Distinct.{Absent}
use cctrl.TicketLock.Laws.{Run-Exclusive, Run-Fifo, Run-Proceeds}

abbrev one_waits : System
one_waits = record { lock = draw initial.lock; thread = turn initial.thread 5 (waits 0) }

abbrev two_wait : System
two_wait = record { lock = draw one_waits.lock; thread = turn one_waits.thread 3 (waits 1) }

abbrev one_holds : System
one_holds = record two_wait { thread = turn two_wait.thread 5 holds }

abbrev none_holds : System
none_holds = record { lock = ticket_unlock one_holds.lock; thread = turn one_holds.thread 5 idle }

abbrev three_steps : List Event
three_steps = enters 5 ∷ takes 3 ∷ takes 5 ∷ []

short_run : Run 8 three_steps one_holds
short_run =
    next (next (next start (take 5 (omega arith) refl)) (take 3 (omega arith) refl))
      (enter 5 0 refl refl)

long_run : Run 8 (leaves 5 ∷ three_steps) none_holds
long_run = next short_run (leave 5 refl)

Run-Exclusive_example : ◌≡◌ {A = ℕ} 5 5
Run-Exclusive_example = Run-Exclusive 5 5 (omega arith) short_run refl refl

Run-Fifo_example :
    (waiting : List ℕ) × (5 ∷ 3 ∷ [] ≡ 5 ∷ waiting)
    × ((i : ℕ) → Absent i waiting ⊎ ((t : ℕ) × (one_holds.thread i ≡ waits t)))
    × ((i : ℕ) → Absent i waiting → (t : ℕ) → one_holds.thread i ≢ waits t)
Run-Fifo_example = Run-Fifo (omega arith) short_run

none_hold : (j : ℕ) → none_holds.thread j ≢ holds
none_hold j e = absurd (ground (arith, e))

Run-Proceeds_example :
    (first : ℕ) × (rest : List ℕ) × (5 ∷ 3 ∷ [] ≡ 5 ∷ first ∷ rest)
    × Step 8 none_holds
        (enters first)
        (record none_holds { thread = turn none_holds.thread first holds })
Run-Proceeds_example = Run-Proceeds 3 1 (omega arith) long_run none_hold refl
