-- ===== src/Timer/Tests.antt =====
-- Runs of the heap of timer.c, and its theorems at concrete heaps.
use cctrl.Prelude.{
  ℕ, zero, suc, ◌+◌, ◌/◌, ◌<◌, ◌≤◌, ◌≡◌, refl, true, false, Option, none, some, List, [], ◌∷◌,
  arith, get_or,
}
use cctrl.Timer.{Timer, start, pop, stop, sift_down, least}
use cctrl.Prelude.Arrays.{one}
use cctrl.Timer.Laws.{IsValid, held, Popped, pop-Popped, start-Started, Started}
use cctrl.Timer.Stop.{stop_correct, stop_breaks, stop_refuses_moved}

-- Task k is due at the time that stands at place k.
abbrev due : ℕ → ℕ
due k = get_or (0 ∷ 10 ∷ 20 ∷ 50 ∷ 30 ∷ 60 ∷ 40 ∷ 70 ∷ 5 ∷ []) k 0

-- 1 at the root, then 3, whose child is 5.
abbrev small : Timer
small = record {
  len = 3;
  cap = 4;
  e = λ i. get_or (1 ∷ 3 ∷ 5 ∷ []) i 0;
  ttl = due;
  idx = λ k. get_or (0 ∷ 0 ∷ 0 ∷ 1 ∷ 0 ∷ 2 ∷ 0 ∷ []) k 0;
}

small-IsValid : IsValid small
small-IsValid = record { room = omega arith; positive = omega arith; is_heap = ordered }
  where
    ordered : (j : ℕ) → 0 < j → j < 3 → due (small.e (j / 2)) ≤ due (small.e j)
    ordered zero p l = absurd (omega arith)
    ordered (suc zero) p l = omega arith
    ordered (suc (suc zero)) p l = omega arith
    ordered (suc (suc (suc j))) p l = absurd (omega arith)

start-Started_example : Started small 2 (start small true 2)
start-Started_example = start-Started small-IsValid true 2 (λ h. refl)

pop-Popped_example : Popped small (pop small)
pop-Popped_example = pop-Popped small-IsValid (omega arith)

stop_correct_example :
    (t' : Timer) × (stop small 3 ≡ some (true, t'))
    × IsValid t'
    × ((x : ℕ) → held t' x + one 3 x ≡ held small x)
stop_correct_example =
    stop_correct small-IsValid 3 (record { in_range = omega arith; here = refl }) (λ p. omega arith)

-- The last task, 6, is due before 3, the parent of 5.
abbrev crossed : Timer
crossed = record {
  len = 7;
  cap = 8;
  e = λ i. get_or (1 ∷ 2 ∷ 3 ∷ 4 ∷ 5 ∷ 7 ∷ 6 ∷ []) i 0;
  ttl = due;
  idx = λ k. get_or (0 ∷ 0 ∷ 1 ∷ 2 ∷ 3 ∷ 4 ∷ 6 ∷ 5 ∷ []) k 0;
}

crossed-IsValid : IsValid crossed
crossed-IsValid = record { room = omega arith; positive = omega arith; is_heap = ordered }
  where
    ordered : (j : ℕ) → 0 < j → j < 7 → due (crossed.e (j / 2)) ≤ due (crossed.e j)
    ordered zero p l = absurd (omega arith)
    ordered (suc zero) p l = omega arith
    ordered (suc (suc zero)) p l = omega arith
    ordered (suc (suc (suc zero))) p l = omega arith
    ordered (suc (suc (suc (suc zero)))) p l = omega arith
    ordered (suc (suc (suc (suc (suc zero))))) p l = omega arith
    ordered (suc (suc (suc (suc (suc (suc zero)))))) p l = omega arith
    ordered (suc (suc (suc (suc (suc (suc (suc j))))))) p l = absurd (omega arith)

stop_breaks_example : (t' : Timer) × (stop crossed 5 ≡ some (true, t')) × ¬ IsValid t'
stop_breaks_example =
    stop_breaks crossed-IsValid 5 (record { in_range = omega arith; here = refl }) (omega arith)
      (omega arith) (omega arith)

stop_refuses_moved_example :
    (t' : Timer) × (start small true 8 ≡ some (true, t'))
    × (0 < held t' 1)
    × (stop t' 1 ≡ some (false, t'))
stop_refuses_moved_example =
    stop_refuses_moved small-IsValid true 8 (λ h. refl) (omega arith) refl (omega arith)

-- The tasks of `crossed` leave in the order in which they are due.
abbrev after_pop : (Timer → List ℕ) → Option (ℕ × Timer) → List ℕ
after_pop more none = []
after_pop more (some (k, t')) = k ∷ more t'

abbrev drain : ℕ → Timer → List ℕ
drain zero t = []
drain (suc n) t = after_pop (λ u. drain n u) (pop t)

drained : drain 7 crossed ≡ 1 ∷ 2 ∷ 4 ∷ 6 ∷ 3 ∷ 5 ∷ 7 ∷ []
unfolding pop sift_down least
drained = refl
