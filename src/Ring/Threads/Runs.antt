-- ===== src/Ring/Threads/Runs.antt =====
-- Every run of threads in ring.c keeps the invariant, and is a run of the queue.
use cctrl.Prelude.{ℕ, ◌≡◌, ◌≢◌, sym, ◌∙◌, arith, ℕ_discrete, ◌==◌, true, false}
use cctrl.Ring.Threads.{System, Step, step, Run, here, next, turn, IsRecent, AllRecent}
use cctrl.Ring.Threads.Safety.{Knows, Apart, Inv}
use cctrl.Ring.Threads.Others.{Good, Clear, Knows-kept}
use cctrl.Ring.Threads.Moves.{Move-Good}

Step-Inv : {s s' : System} → Step s s' → IsRecent s → Inv s → Inv s'
Step-Inv {s} (step t {m} {p} move) recent inv = record {
  safe = good.safe;
  knows = knows;
  apart = apart;
}
  where
    good : Good s.shared (s.thread t) m p
    good = Move-Good move inv.safe (inv.knows t) (recent t)

    other : (u : ℕ) → t ≢ u → Clear m (s.thread u) × Apart p (s.thread u) × Apart (s.thread u) p
    other u ne =
        good.others (s.thread u) (inv.knows u) (inv.apart t u ne) (inv.apart u t (λ e. ne (sym e)))

    knows : (u : ℕ) → Knows m (turn s.thread t p u)
    knows u = elim (ℕ_discrete t u) [
      | yes e ↦ let b : (t == u) ≡ true = ground arith in rw b good.knows
      | no ne ↦
          let b : (t == u) ≡ false = ground arith in
          rw b (Knows-kept inv.safe good.kept (s.thread u) (other u ne).0 (inv.knows u))
    ]

    apart : (u v : ℕ) → u ≢ v → Apart (turn s.thread t p u) (turn s.thread t p v)
    apart u v ne = elim (ℕ_discrete t u) [
      | yes e ↦
          let tv : t ≢ v = λ q. ne (sym e ∙ q) in
          let here_u : turn s.thread t p u ≡ p = ground arith in
          let there_v : turn s.thread t p v ≡ s.thread v = ground arith in
          rw (here_u, there_v) (other v tv).1
      | no tu ↦ elim (ℕ_discrete t v) [
        | yes e ↦
            let there_u : turn s.thread t p u ≡ s.thread u = ground arith in
            let here_v : turn s.thread t p v ≡ p = ground arith in
            rw (there_u, here_v) (other u tu).2
        | no tv ↦
            let there_u : turn s.thread t p u ≡ s.thread u = ground arith in
            let there_v : turn s.thread t p v ≡ s.thread v = ground arith in
            rw (there_u, there_v) (inv.apart u v ne)
      ]
    ]

-- From a state in which the invariant holds, it holds after every run in which no thread that is about
-- to claim was overtaken by `2 ^ 32` items: the counters stay in order and at most `max` apart, the
-- slots between the tails hold what was claimed for them, claims of different threads do not overlap,
-- and what a pop has loaded is the beginning of the items that it claimed.
pub Run-Inv : {s s' : System} → (r : Run s s') → AllRecent r → Inv s → Inv s'
Run-Inv here recent inv = inv
Run-Inv (next r st) recent inv = Step-Inv st recent.1 (Run-Inv r recent.0 inv)
