-- ===== src/TicketLock/Laws.antt =====
-- What the ticket lock promises to the threads.
use cctrl.Prelude.{
  ℕ, ◌+◌, ◌≤◌, ◌≡◌, ◌≢◌, ◌^◌, refl, sym, ap, ◌∙◌, Option, none, some, List, [], ◌∷◌, ◌++◌, ◌⊎◌, inl,
  inr, ℕ_discrete,
}
use cctrl.TicketLock.{
  u16, Pc, idle, waits, holds, turn, System, Event, enters, Step, enter, Run, start, next, arrivals,
  entries,
}
use cctrl.Prelude.Distinct.{Absent}
use cctrl.TicketLock.Line.{Wait-place}
use cctrl.TicketLock.Keep.{line, Stand, Inv, idle_waits, holds_waits, holder_is}
use cctrl.TicketLock.Steps.{initial-Inv, Step-Inv}

Run-Inv : {n : ℕ} {es : List Event} {s : System} → n ≤ 2 ^ 16 → Run n es s → Inv n es s
Run-Inv {n} small start = initial-Inv n
Run-Inv small (next r st) = Step-Inv small (Run-Inv small r) st

from_some : ℕ → Option ℕ → ℕ
from_some d none = d
from_some d (some a) = a

-- After any steps of up to 65,536 threads on a new lock, at most one of them holds it.
pub Run-Exclusive :
    {n : ℕ} {es : List Event} {s : System} (i j : ℕ)
    → n ≤ 2 ^ 16
    → Run n es s
    → s.thread i ≡ holds
    → s.thread j ≡ holds
    → i ≡ j
unfolding from_some
Run-Exclusive {s} i j small r a b =
    let inv = Run-Inv small r in
    let first = holder_is s.thread inv.served i inv.holder inv.waiting inv.stand inv.outside a in
    let second = holder_is s.thread inv.served j inv.holder inv.waiting inv.stand inv.outside b in
    ap (from_some 0) (sym first ∙ second)

-- Those that are in line without the lock.
waits_in_line :
    (f : ℕ → Pc) (o : ℕ) (h : Option ℕ) (w : List ℕ) (i : ℕ)
    → Stand f o h w
    → Absent i w ⊎ ((t : ℕ) × (f i ≡ waits t))
waits_in_line f o none w i st = elim (Wait-place f o i w st) [
  | inl a ↦ inl a
  | inr (k, l, e) ↦ inr (u16 (o + k), e)
]
waits_in_line f o (some h) w i (x, st) = elim (Wait-place f (o + 1) i w st) [
  | inl a ↦ inl a
  | inr (k, l, e) ↦ inr (u16 (o + 1 + k), e)
]

not_in_line :
    (f : ℕ → Pc) (o : ℕ) (h : Option ℕ) (w : List ℕ) (i : ℕ)
    → Stand f o h w
    → ((j : ℕ) → Absent j (line h w) → f j ≡ idle)
    → Absent i w
    → (t : ℕ) → f i ≢ waits t
not_in_line f o none w i st out a t e = idle_waits t (sym (out i a) ∙ e)
not_in_line f o (some h) w i (x, st) out a t e = elim (ℕ_discrete i h) [
  | yes d ↦ holds_waits t (sym x ∙ ap f (sym d) ∙ e)
  | no ne ↦ idle_waits t (sym (out i (ne, a)) ∙ e)
]

-- After any steps of up to 65,536 threads on a new lock, they have come through in the order in which
-- they took their tickets; those that took one and are not through are the ones that wait.
pub Run-Fifo :
    {n : ℕ} {es : List Event} {s : System}
    → n ≤ 2 ^ 16
    → Run n es s
    → (waiting : List ℕ) × (arrivals es ≡ entries es ++ waiting)
      × ((i : ℕ) → Absent i waiting ⊎ ((t : ℕ) × (s.thread i ≡ waits t)))
      × ((i : ℕ) → Absent i waiting → (t : ℕ) → s.thread i ≢ waits t)
Run-Fifo {s} small r =
    let inv = Run-Inv small r in
    (
      inv.waiting,
      inv.fifo,
      (λ i. waits_in_line s.thread inv.served inv.holder inv.waiting i inv.stand),
      (λ i. not_in_line s.thread inv.served inv.holder inv.waiting i inv.stand inv.outside),
    )

next_in_line :
    (f : ℕ → Pc) (o : ℕ) (h : Option ℕ) (w : List ℕ) (i t : ℕ)
    → Stand f o h w
    → ((j : ℕ) → Absent j (line h w) → f j ≡ idle)
    → ((j : ℕ) → f j ≢ holds)
    → f i ≡ waits t
    → (first : ℕ) × (rest : List ℕ) × (w ≡ first ∷ rest) × (f first ≡ waits (u16 o))
next_in_line f o none [] i t st out free e = absurd (idle_waits t (sym (out i tt) ∙ e))
next_in_line f o none (j ∷ js) i t (x, st) out free e = (j, js, refl, x)
next_in_line f o (some h) w i t (x, st) out free e = absurd (free h x)

-- After any steps of up to 65,536 threads on a new lock, when a thread waits and none holds the lock,
-- the first one of those that are not through can take it.
pub Run-Proceeds :
    {n : ℕ} {es : List Event} {s : System} (i t : ℕ)
    → n ≤ 2 ^ 16
    → Run n es s
    → ((j : ℕ) → s.thread j ≢ holds)
    → s.thread i ≡ waits t
    → (first : ℕ) × (rest : List ℕ) × (arrivals es ≡ entries es ++ first ∷ rest)
      × Step n s (enters first) (record s { thread = turn s.thread first holds })
Run-Proceeds {es} {s} i t small r free e =
    let inv = Run-Inv small r in
    let (first, rest, split, ticket) =
      next_in_line s.thread inv.served inv.holder inv.waiting i t inv.stand inv.outside free e in
    (
      first,
      rest,
      inv.fifo ∙ ap (λ (w : List ℕ). entries es ++ w) split,
      enter first (u16 inv.served) ticket (sym inv.owner_is),
    )
