-- ===== src/TicketLock/Line.antt =====
-- The threads that stand in line at a ticket lock.
use mathlib.Core.Path.{subst}
use cctrl.Prelude.Distinct.{Absent, IsDistinct}
use cctrl.Prelude.{
  ℕ, zero, suc, ◌+◌, ◌<◌, ◌≤◌, ◌≡◌, ◌==◌, true, false, refl, ap, ◌∙◌, List, [], ◌∷◌, ◌++◌, length,
  ◌⊎◌, inl, inr, arith, ℕ_discrete, if◌then◌else◌,
}
use cctrl.TicketLock.{u16, Pc, waits, turn}

abbrev pub AllBelow : ℕ → List ℕ → Type 0
AllBelow n [] = Unit
AllBelow n (j ∷ js) = (j < n) × AllBelow n js

-- The threads wait with the tickets from `t` on.
abbrev pub Wait : (ℕ → Pc) → ℕ → List ℕ → Type 0
Wait f t [] = Unit
Wait f t (i ∷ is) = (f i ≡ waits (u16 t)) × Wait f (t + 1) is

-- All but one number.
without : ℕ → List ℕ → List ℕ
without n [] = []
without n (j ∷ js) = if j == n then without n js else j ∷ without n js

Absent-without : (n i : ℕ) (js : List ℕ) → Absent i js → Absent i (without n js)
unfolding without
Absent-without n i [] a = tt
Absent-without n i (j ∷ js) (ne, a) = elim (ℕ_discrete j n) [
  | yes e ↦ let b : (j == n) ≡ true = ground (arith, e) in rw b (Absent-without n i js a)
  | no d ↦ let b : (j == n) ≡ false = ground (arith, d) in rw b (ne, Absent-without n i js a)
]

IsDistinct-without : (n : ℕ) (js : List ℕ) → IsDistinct js → IsDistinct (without n js)
unfolding without
IsDistinct-without n [] d = tt
IsDistinct-without n (j ∷ js) (a, d) = elim (ℕ_discrete j n) [
  | yes e ↦ let b : (j == n) ≡ true = ground (arith, e) in rw b (IsDistinct-without n js d)
  | no ne ↦
      let b : (j == n) ≡ false = ground (arith, ne) in
      rw b (Absent-without n j js a, IsDistinct-without n js d)
]

AllBelow-without : (n : ℕ) (js : List ℕ) → AllBelow (suc n) js → AllBelow n (without n js)
unfolding without
AllBelow-without n [] l = tt
AllBelow-without n (j ∷ js) (l, ls) = elim (ℕ_discrete j n) [
  | yes e ↦ let b : (j == n) ≡ true = ground (arith, e) in rw b (AllBelow-without n js ls)
  | no ne ↦
      let b : (j == n) ≡ false = ground (arith, ne) in
      rw b (omega (arith, l, ne), AllBelow-without n js ls)
]

length-without-Absent : (n : ℕ) (js : List ℕ) → Absent n js → length (without n js) ≡ length js
unfolding without
length-without-Absent n [] a = refl
length-without-Absent n (j ∷ js) (ne, a) =
    let b : (j == n) ≡ false = ground (arith, ne) in rw b (ap suc (length-without-Absent n js a))

length-without : (n : ℕ) (js : List ℕ) → IsDistinct js → length js ≤ suc (length (without n js))
unfolding without
length-without n [] d = omega arith
length-without n (j ∷ js) (a, d) = elim (ℕ_discrete j n) [
  | yes e ↦
      let b : (j == n) ≡ true = ground (arith, e) in
      rw b (omega (arith, length-without-Absent n js (subst (λ k. Absent k js) e a)))
  | no ne ↦
      let b : (j == n) ≡ false = ground (arith, ne) in rw b (omega (arith, length-without n js d))
]

-- Of the numbers below `n` no more than `n` stand in a line.
pub length-IsDistinct : (n : ℕ) (js : List ℕ) → IsDistinct js → AllBelow n js → length js ≤ n
length-IsDistinct zero [] d l = omega arith
length-IsDistinct zero (j ∷ js) d (l, ls) = absurd (omega (arith, l))
length-IsDistinct (suc n) js d l =
    let shorter =
      length-IsDistinct n (without n js) (IsDistinct-without n js d) (AllBelow-without n js l) in
    omega (arith, shorter, length-without n js d)

pub AllBelow-snoc : (n j : ℕ) (js : List ℕ) → AllBelow n js → j < n → AllBelow n (js ++ j ∷ [])
AllBelow-snoc n j [] l b = (b, tt)
AllBelow-snoc n j (k ∷ js) (x, l) b = (x, AllBelow-snoc n j js l b)

pub Wait-snoc :
    (f : ℕ → Pc) (t j : ℕ) (js : List ℕ)
    → Wait f t js
    → f j ≡ waits (u16 (t + length js))
    → Wait f t (js ++ j ∷ [])
Wait-snoc f t j [] w e = (e ∙ ap (λ (n : ℕ). waits (u16 n)) (omega arith), tt)
Wait-snoc f t j (k ∷ js) (x, w) e =
    (x, Wait-snoc f (t + 1) j js w (e ∙ ap (λ (n : ℕ). waits (u16 n)) (omega arith)))

-- A step of a thread that is not in line leaves the line as it is.
pub Wait-turn :
    (f : ℕ → Pc) (t i : ℕ) (p : Pc) (js : List ℕ)
    → Absent i js
    → Wait f t js
    → Wait (turn f i p) t js
Wait-turn f t i p [] a w = tt
Wait-turn f t i p (j ∷ js) (ne, a) (x, w) =
    let b : (i == j) ≡ false = ground (arith, ne) in (rw b x, Wait-turn f (t + 1) i p js a w)

-- A thread is not in line, or waits with a ticket of its place.
pub Wait-place :
    (f : ℕ → Pc) (t i : ℕ) (js : List ℕ)
    → Wait f t js
    → Absent i js ⊎ ((k : ℕ) × (k < length js) × (f i ≡ waits (u16 (t + k))))
Wait-place f t i [] w = inl tt
Wait-place f t i (j ∷ js) (x, w) = elim (ℕ_discrete i j) [
  | yes e ↦ inr (0, omega arith, ap f e ∙ x ∙ ap (λ (n : ℕ). waits (u16 n)) (omega arith))
  | no ne ↦ elim (Wait-place f (t + 1) i js w) [
    | inl a ↦ inl (ne, a)
    | inr (k, l, e) ↦ inr (k + 1, omega (arith, l), e ∙ ap (λ (n : ℕ). waits (u16 n)) (omega arith))
  ]
]
