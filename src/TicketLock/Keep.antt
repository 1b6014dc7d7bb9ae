-- ===== src/TicketLock/Keep.antt =====
-- The state of a ticket lock with a line of threads, and where in it a thread stands.
use cctrl.Prelude.{
  ℕ, ◌+◌, ◌<◌, ◌≤◌, ◌≡◌, ◌≢◌, ◌^◌, refl, sym, ap, ◌∙◌, Option, none, some, List, [], ◌∷◌, ◌++◌,
  length, inl, inr, arith, ℕ_discrete,
}
use cctrl.TicketLock.{u16, Pc, idle, waits, holds, System, Event, arrivals, entries}
use cctrl.Prelude.Distinct.{Absent, IsDistinct}
use cctrl.TicketLock.Line.{AllBelow, Wait, Wait-place}

abbrev pub line : Option ℕ → List ℕ → List ℕ
line none w = w
line (some h) w = h ∷ w

-- Who holds the lock has left the waiting ones behind.
abbrev pub Stand : (ℕ → Pc) → ℕ → Option ℕ → List ℕ → Type 0
Stand f o none w = Wait f o w
Stand f o (some h) w = (f h ≡ holds) × Wait f (o + 1) w

pub record Inv (n : ℕ) (es : List Event) (s : System) : Type 0 where
  pub holder : Option ℕ
  pub waiting : List ℕ
  pub served : ℕ
  pub owner_is : s.lock.owner ≡ u16 served
  pub ticket_is : s.lock.ticket ≡ u16 (served + length (line holder waiting))
  pub stand : Stand s.thread served holder waiting
  pub outside : (i : ℕ) → Absent i (line holder waiting) → s.thread i ≡ idle
  pub distinct : IsDistinct (line holder waiting)
  pub below : AllBelow n (line holder waiting)
  pub fifo : arrivals es ≡ entries es ++ waiting

drawn : Pc → ℕ
drawn (waits t) = t
drawn _ = 0

waits_inj : (a b : ℕ) → waits a ≡ waits b → a ≡ b
unfolding drawn
waits_inj a b e = ap drawn e

pub no_ticket :
    (f : ℕ → Pc) (o i : ℕ) (js : List ℕ) (p : Pc)
    → ((t : ℕ) → p ≢ waits t)
    → f i ≡ p
    → Wait f o js
    → Absent i js
no_ticket f o i js p not_waits e w = elim (Wait-place f o i js w) [
  | inl a ↦ a
  | inr (k, l, x) ↦ absurd (not_waits (u16 (o + k)) (sym e ∙ x))
]

-- Those behind the next ticket have another one.
not_due :
    (f : ℕ → Pc) (o i t : ℕ) (js : List ℕ)
    → f i ≡ waits t
    → t ≡ u16 o
    → length js < 2 ^ 16
    → Wait f (o + 1) js
    → Absent i js
not_due f o i t js e due short w = elim (Wait-place f (o + 1) i js w) [
  | inl a ↦ a
  | inr (k, l, x) ↦
      let same = waits_inj t (u16 (o + 1 + k)) (sym e ∙ x) in
      absurd (omega (arith, same, due, short, l))
]

pub idle_waits : (t : ℕ) → idle ≢ waits t
idle_waits t e = absurd (cc e)

pub holds_waits : (t : ℕ) → holds ≢ waits t
holds_waits t e = absurd (cc e)

pub idle-Absent :
    (f : ℕ → Pc) (o i : ℕ) (h : Option ℕ) (w : List ℕ)
    → Stand f o h w
    → f i ≡ idle
    → Absent i (line h w)
idle-Absent f o i none w st e = no_ticket f o i w idle idle_waits e st
idle-Absent f o i (some h) w (x, st) e =
    ((λ d. absurd (cc (sym e ∙ ap f d ∙ x))), no_ticket f (o + 1) i w idle idle_waits e st)

-- The thread that finds its ticket served is the first one, and nobody holds the lock.
pub first_in_line :
    (f : ℕ → Pc) (o i t : ℕ) (h : Option ℕ) (w : List ℕ)
    → Stand f o h w
    → ((j : ℕ) → Absent j (line h w) → f j ≡ idle)
    → length (line h w) ≤ 2 ^ 16
    → f i ≡ waits t
    → t ≡ u16 o
    → (h ≡ none) × ((rest : List ℕ) × (w ≡ i ∷ rest))
first_in_line f o i t none [] st out short e due = absurd (idle_waits t (sym (out i tt) ∙ e))
first_in_line f o i t none (j ∷ js) (x, st) out short e due = elim (ℕ_discrete i j) [
  | yes d ↦ (refl, (js, ap (λ (k : ℕ). k ∷ js) (sym d)))
  | no ne ↦
      absurd
        (idle_waits t (sym (out i (ne, not_due f o i t js e due (omega (arith, short)) st)) ∙ e))
]
first_in_line f o i t (some h) w (x, st) out short e due = elim (ℕ_discrete i h) [
  | yes d ↦ absurd (holds_waits t (sym x ∙ ap f (sym d) ∙ e))
  | no ne ↦
      absurd
        (idle_waits t (sym (out i (ne, not_due f o i t w e due (omega (arith, short)) st)) ∙ e))
]

-- A thread that holds the lock is the one in front of those that wait.
pub holder_is :
    (f : ℕ → Pc) (o i : ℕ) (h : Option ℕ) (w : List ℕ)
    → Stand f o h w
    → ((j : ℕ) → Absent j (line h w) → f j ≡ idle)
    → f i ≡ holds
    → h ≡ some i
holder_is f o i none w st out e =
    absurd (cc (sym (out i (no_ticket f o i w holds holds_waits e st)) ∙ e))
holder_is f o i (some h) w (x, st) out e = elim (ℕ_discrete i h) [
  | yes d ↦ ap some (sym d)
  | no ne ↦ absurd (cc (sym (out i (ne, no_ticket f (o + 1) i w holds holds_waits e st)) ∙ e))
]
