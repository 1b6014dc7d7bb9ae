-- ===== src/TicketLock/Steps.antt =====
-- The line at a ticket lock under the steps of the threads.
use cctrl.Prelude.{
  ℕ, ◌+◌, ◌<◌, ◌≤◌, ◌≡◌, ◌≢◌, ◌==◌, ◌^◌, false, refl, sym, ap, ◌∙◌, Option, none, some, List, [],
  ◌∷◌, ◌++◌, length, arith, ℕ_discrete, append_assoc, length-append,
}
use cctrl.TicketLock.{
  draw, ticket_unlock, u16, Pc, idle, waits, holds, turn, System, Event, takes, enters, leaves,
  Step, take, recheck, enter, leave, entries, initial,
}
use cctrl.Prelude.Distinct.{Absent, IsDistinct, Absent-init, IsDistinct-snoc}
use cctrl.TicketLock.Line.{AllBelow, Wait, length-IsDistinct, AllBelow-snoc, Wait-snoc, Wait-turn}
use cctrl.TicketLock.Keep.{line, Stand, Inv, idle-Absent, first_in_line, holder_is}

line-snoc : (h : Option ℕ) (w : List ℕ) (i : ℕ) → line h (w ++ i ∷ []) ≡ line h w ++ i ∷ []
line-snoc none w i = refl
line-snoc (some h) w i = refl

Stand-snoc :
    (f : ℕ → Pc) (o i : ℕ) (h : Option ℕ) (w : List ℕ)
    → Stand f o h w
    → f i ≡ waits (u16 (o + length (line h w)))
    → Stand f o h (w ++ i ∷ [])
Stand-snoc f o i none w st e = Wait-snoc f o i w st e
Stand-snoc f o i (some h) w (x, st) e =
    (x, Wait-snoc f (o + 1) i w st (e ∙ ap (λ (n : ℕ). waits (u16 n)) (omega arith)))

Stand-turn :
    (f : ℕ → Pc) (o i : ℕ) (p : Pc) (h : Option ℕ) (w : List ℕ)
    → Absent i (line h w)
    → Stand f o h w
    → Stand (turn f i p) o h w
Stand-turn f o i p none w a st = Wait-turn f o i p w a st
Stand-turn f o i p (some h) w (ne, a) (x, st) =
    let b : (i == h) ≡ false = ground (arith, ne) in (rw b x, Wait-turn f (o + 1) i p w a st)

turn_here : (f : ℕ → Pc) (i : ℕ) (p : Pc) → turn f i p i ≡ p
turn_here f i p = ground arith

turn_away : (f : ℕ → Pc) (i j : ℕ) (p : Pc) → j ≢ i → f j ≡ idle → turn f i p j ≡ idle
turn_away f i j p ne e = ground (arith, ne, e)

module _ {n : ℕ} {es : List Event} {s : System} (small : n ≤ 2 ^ 16) (inv : Inv n es s) where
  short : length (line inv.holder inv.waiting) ≤ 2 ^ 16
  short =
      omega (arith, small, length-IsDistinct n (line inv.holder inv.waiting) inv.distinct inv.below)

  take-Inv :
      (i : ℕ)
      → i < n
      → s.thread i ≡ idle
      → Inv n
          (takes i ∷ es)
          (record { lock = draw s.lock; thread = turn s.thread i (waits s.lock.ticket) })
  take-Inv i below e =
      let away = idle-Absent s.thread inv.served i inv.holder inv.waiting inv.stand e in
      let longer = line-snoc inv.holder inv.waiting i in
      let size = length-append (line inv.holder inv.waiting) (i ∷ []) in
      let ticket = turn_here s.thread i (waits s.lock.ticket) ∙ ap waits inv.ticket_is in
      let rest =
        Stand-turn s.thread inv.served i (waits s.lock.ticket) inv.holder inv.waiting away
          inv.stand in
      record {
        holder = inv.holder;
        waiting = inv.waiting ++ i ∷ [];
        served = inv.served;
        owner_is = inv.owner_is;
        ticket_is = rw longer (omega (arith, inv.ticket_is, size));
        stand =
            Stand-snoc (turn s.thread i (waits s.lock.ticket)) inv.served i inv.holder inv.waiting
              rest ticket;
        outside = λ j a.
            let r = Absent-init j i (line inv.holder inv.waiting) (rw longer at a) in
            turn_away s.thread i j (waits s.lock.ticket) r.1 (inv.outside j r.0);
        distinct = rw longer (IsDistinct-snoc i (line inv.holder inv.waiting) inv.distinct away);
        below = rw longer (AllBelow-snoc n i (line inv.holder inv.waiting) inv.below below);
        fifo =
            ap (λ (xs : List ℕ). xs ++ i ∷ []) inv.fifo
            ∙ append_assoc (entries es) inv.waiting (i ∷ []);
      }

  enter-Inv :
      (i t : ℕ)
      → s.thread i ≡ waits t
      → t ≡ s.lock.owner
      → Inv n (enters i ∷ es) (record s { thread = turn s.thread i holds })
  enter-Inv i t e due =
      let (nobody, (rest, first)) =
        first_in_line s.thread inv.served i t inv.holder inv.waiting inv.stand inv.outside short e
          (due ∙ inv.owner_is) in
      let size = rw (nobody, first) at inv.ticket_is in
      let stand : Wait s.thread inv.served (i ∷ rest) = rw (nobody, first) at inv.stand in
      let distinct : IsDistinct (i ∷ rest) = rw (nobody, first) at inv.distinct in
      record {
        holder = some i;
        waiting = rest;
        served = inv.served;
        owner_is = inv.owner_is;
        ticket_is = size;
        stand = (
          turn_here s.thread i holds,
          Wait-turn s.thread (inv.served + 1) i holds rest distinct.0 stand.1,
        );
        outside = λ j a. turn_away s.thread i j holds a.0 (inv.outside j (rw (nobody, first) a));
        distinct = distinct;
        below = rw (nobody, first) at inv.below;
        fifo = (rw first at inv.fifo) ∙ sym (append_assoc (entries es) (i ∷ []) rest);
      }

  leave-Inv :
      (i : ℕ)
      → s.thread i ≡ holds
      → Inv n
          (leaves i ∷ es)
          (record { lock = ticket_unlock s.lock; thread = turn s.thread i idle })
  leave-Inv i e =
      let front = holder_is s.thread inv.served i inv.holder inv.waiting inv.stand inv.outside e in
      let size = rw front at inv.ticket_is in
      let stand : (s.thread i ≡ holds) × Wait s.thread (inv.served + 1) inv.waiting =
        rw front at inv.stand in
      let distinct : IsDistinct (i ∷ inv.waiting) = rw front at inv.distinct in
      let below : AllBelow n (i ∷ inv.waiting) = rw front at inv.below in
      record {
        holder = none;
        waiting = inv.waiting;
        served = inv.served + 1;
        owner_is = omega (arith, inv.owner_is);
        ticket_is = size ∙ ap u16 (omega arith);
        stand = Wait-turn s.thread (inv.served + 1) i idle inv.waiting distinct.0 stand.1;
        outside = λ j a. elim (ℕ_discrete j i) [
          | yes d ↦ ap (turn s.thread i idle) d ∙ turn_here s.thread i idle
          | no ne ↦ turn_away s.thread i j idle ne (inv.outside j (rw front (ne, a)))
        ];
        distinct = distinct.1;
        below = below.1;
        fifo = inv.fifo;
      }

  pub Step-Inv : {e : Event} {s' : System} → Step n s e s' → Inv n (e ∷ es) s'
  Step-Inv (take i l e) = take-Inv i l e
  Step-Inv (recheck i t e ne) = record {
    holder = inv.holder;
    waiting = inv.waiting;
    served = inv.served;
    owner_is = inv.owner_is;
    ticket_is = inv.ticket_is;
    stand = inv.stand;
    outside = inv.outside;
    distinct = inv.distinct;
    below = inv.below;
    fifo = inv.fifo;
  }
  Step-Inv (enter i t e due) = enter-Inv i t e due
  Step-Inv (leave i e) = leave-Inv i e

pub initial-Inv : (n : ℕ) → Inv n [] initial
initial-Inv n = record {
  holder = none;
  waiting = [];
  served = 0;
  owner_is = refl;
  ticket_is = refl;
  stand = tt;
  outside = λ i a. refl;
  distinct = tt;
  below = tt;
  fifo = refl;
}
