-- ===== src/Ring/Threads/Progress.antt =====
-- The threads of ring.c do not wait for each other for ever: the first claim can always go on.
use cctrl.Prelude.{
  ℕ, suc, ◌+◌, ◌-◌, ◌<◌, ◌≤◌, ◌≡◌, ◌^◌, ◌%◌, refl, sym, ap, List, [], ◌∷◌, length, arith,
  ℕ_discrete, dec_lt, length-append, Option, none, some, ◌⊎◌, inl, inr,
}
use cctrl.Ring.Threads.{
  Shared, Pc, Move, System, Step, step, Run, here, next, turn, AllRecent, slot, push_copy, pop_copy,
  claim_push, store, publish, claim_pop, load, release,
}
use cctrl.Ring.Threads.Safety.{IsSafe, Knows, Inv, push_claim, pop_claim}
use cctrl.Ring.Threads.Claims.{prod_tail_lem, cons_tail_lem}
use cctrl.Ring.Threads.Runs.{Run-Inv}

abbrev pub Covers : Option (ℕ × ℕ) → ℕ → Type 0
Covers none j = ⊥
Covers (some (h, n)) j = (h ≤ j) × (j < h + n)

-- Between its tail and its head, each counter is covered by claims.
pub record IsTiled (s : System) : Type 0 where
  pub push :
      (j : ℕ)
      → s.shared.prod_tail ≤ j
      → j < s.shared.prod_head
      → (t : ℕ) × Covers (push_claim (s.thread t)) j
  pub pop :
      (j : ℕ)
      → s.shared.cons_tail ≤ j
      → j < s.shared.cons_head
      → (t : ℕ) × Covers (pop_claim (s.thread t)) j

-- What a step covers: what was covered before, unless the thread itself covers it now.
abbrev Passed : Option (ℕ × ℕ) → Option (ℕ × ℕ) → ℕ → ℕ → ℕ → ℕ → Type 0
Passed x x' tail head tail' head' =
    (j : ℕ)
    → tail' ≤ j
    → j < head'
    → ((tail ≤ j) × (j < head) × (Covers x j → Covers x' j)) ⊎ Covers x' j

abbrev PassedBoth : Shared → Pc → Shared → Pc → Type 0
PassedBoth m p m' p' =
    Passed (push_claim p) (push_claim p') m.prod_tail m.prod_head m'.prod_tail m'.prod_head
    × Passed (pop_claim p) (pop_claim p') m.cons_tail m.cons_head m'.cons_tail m'.cons_head

same : (x : Option (ℕ × ℕ)) (t h : ℕ) → Passed x x t h t h
same x t h j a b = inl (a, b, λ c. c)

claims : (x : Option (ℕ × ℕ)) (t h n : ℕ) → x ≡ none → Passed x (some (h, n)) t h t (h + n)
claims x t h n e j a b = elim (dec_lt j h) [
  | yes y ↦ inl (a, y, rw e (λ c. absurd c))
  | no l ↦ inr (omega (arith, l), b)
]

returns : (t h n top : ℕ) → t ≡ h → Passed (some (h, n)) none t top (h + n) top
returns t h n top e j a b = inl (omega (arith, a, e), b, λ c. absurd (omega (arith, c.1, a)))

Move-Passed :
    {m m' : Shared} {p p' : Pc} → Move m p m' p' → IsSafe m → Knows m p → PassedBoth m p m' p'
Move-Passed {m} (claim_push {addrs} l e) s w =
    (claims none m.prod_tail m.prod_head (length addrs) refl, same none _ _)
Move-Passed {m} (publish {addrs} {h} e) s w = (
  returns m.prod_tail h (length addrs) m.prod_head
      (sym (prod_tail_lem m s addrs h (length addrs) w e)),
  same none _ _,
)
Move-Passed {m} (claim_pop {n} l e) s w =
    (same none _ _, claims none m.cons_tail m.cons_head n refl)
Move-Passed {m} (release {n} {h} {addrs} l e) s w =
    (same none _ _, returns m.cons_tail h n m.cons_head (sym (cons_tail_lem m s n h addrs w e)))
Move-Passed move s w = ((λ j a b. inl (a, b, λ c. c)), λ j a b. inl (a, b, λ c. c))

-- A claim stays with its thread, or the thread that moves has it.
stays :
    (f : ℕ → Pc) (claim : Pc → Option (ℕ × ℕ)) (t : ℕ) (p : Pc) (j : ℕ)
    → (Covers (claim (f t)) j → Covers (claim p) j)
    → (u : ℕ) × Covers (claim (f u)) j
    → (u : ℕ) × Covers (claim (turn f t p u)) j
stays f claim t p j keep (u, c) = elim (ℕ_discrete t u) [
  | yes e ↦ let at_u : turn f t p u ≡ p = ground arith in (u, rw at_u (keep (rw e c)))
  | no ne ↦ let at_u : turn f t p u ≡ f u = ground arith in (u, rw at_u c)
]

Step-IsTiled : {s s' : System} → Step s s' → Inv s → IsTiled s → IsTiled s'
Step-IsTiled {s} (step t {m} {p} move) inv tiled =
    let passed = Move-Passed move inv.safe (inv.knows t) in
    let mine : turn s.thread t p t ≡ p = ground arith in
    record {
      push = λ j a b. elim (passed.0 j a b) [
        | inl (c, d, keep) ↦ stays s.thread push_claim t p j keep (tiled.push j c d)
        | inr c ↦ (t, rw mine c)
      ];
      pop = λ j a b. elim (passed.1 j a b) [
        | inl (c, d, keep) ↦ stays s.thread pop_claim t p j keep (tiled.pop j c d)
        | inr c ↦ (t, rw mine c)
      ];
    }

Run-IsTiled : {s s' : System} → (r : Run s s') → AllRecent r → Inv s → IsTiled s → IsTiled s'
Run-IsTiled here recent inv tiled = tiled
Run-IsTiled (next r st) recent inv tiled =
    Step-IsTiled st (Run-Inv r recent.0 inv) (Run-IsTiled r recent.0 inv tiled)

-- What a thread has to do between its claim and the step that gives it back.
abbrev pub left_to_do : Pc → ℕ
left_to_do (push_copy addrs h i) = suc (length addrs - i)
left_to_do (pop_copy n h addrs) = suc (n - length addrs)
left_to_do _ = 0

-- A step of the thread that brings it nearer to that end.
abbrev pub Advances : Shared → Pc → Type 0
Advances m p = (m' : Shared) × (p' : Pc) × Move m p m' p' × (left_to_do p' < left_to_do p)

module _ (m : Shared) (safe : IsSafe m) where
  push-Advances : (p : Pc) → Knows m p → Covers (push_claim p) m.prod_tail → Advances m p
  push-Advances (push_copy addrs h i) w c = elim (dec_lt i (length addrs)) [
    | yes l ↦ (_, _, store l, omega (arith, l))
    | no n ↦
        let all : i ≡ length addrs = omega (arith, n, w.3) in
        let here : m.prod_tail ≡ h = omega (arith, w.1, c.0) in
        rw all (_, _, publish (ap (λ (u : ℕ). u % 2 ^ 32) here), omega arith)
  ]
  push-Advances _ w c = absurd c

  pop-Advances : (p : Pc) → Knows m p → Covers (pop_claim p) m.cons_tail → Advances m p
  pop-Advances (pop_copy n h addrs) w c = elim (dec_lt (length addrs) n) [
    | yes l ↦
        let more = length-append addrs (m.slots (slot m h (length addrs)) ∷ []) in
        (_, _, load l, omega (arith, l, more))
    | no nl ↦
        let here : m.cons_tail ≡ h = omega (arith, w.1, c.0) in
        (_, _, release (omega (arith, nl)) (ap (λ (u : ℕ). u % 2 ^ 32) here), omega arith)
  ]
  pop-Advances _ w c = absurd c

-- After a run from a state in which the invariant holds and claims cover what lies between the tails
-- and the heads, and in which no thread that is about to claim was overtaken by `2 ^ 32` items: when
-- a thread has claimed places to push, or items to pop, the thread whose claim starts at the tail can
-- take a step that brings it nearer to giving its claim back.
pub Run-Advances :
    {s s' : System}
    → (r : Run s s') → AllRecent r
    → Inv s
    → IsTiled s
    → ((t : ℕ) (addrs : List ℕ) (h i : ℕ)
        → s'.thread t ≡ push_copy addrs h i
        → (u : ℕ) × Covers (push_claim (s'.thread u)) s'.shared.prod_tail
          × Advances s'.shared (s'.thread u))
      × ((t n h : ℕ) (addrs : List ℕ)
          → s'.thread t ≡ pop_copy n h addrs
          → (u : ℕ) × Covers (pop_claim (s'.thread u)) s'.shared.cons_tail
            × Advances s'.shared (s'.thread u))
Run-Advances {s} {s'} r recent inv tiled =
    let after = Run-Inv r recent inv in
    let tiles = Run-IsTiled r recent inv tiled in
    (
      (λ t addrs h i e.
          let knows : Knows s'.shared (push_copy addrs h i) = rw e at (after.knows t) in
          let (u, c) = tiles.push s'.shared.prod_tail (omega arith) (omega (arith, knows)) in
          (u, c, push-Advances s'.shared after.safe (s'.thread u) (after.knows u) c)),
      λ t n h addrs e.
          let knows : Knows s'.shared (pop_copy n h addrs) = rw e at (after.knows t) in
          let (u, c) = tiles.pop s'.shared.cons_tail (omega arith) (omega (arith, knows)) in
          (u, c, pop-Advances s'.shared after.safe (s'.thread u) (after.knows u) c),
    )
