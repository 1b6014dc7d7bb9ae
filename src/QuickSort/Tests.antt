-- ===== src/QuickSort/Tests.antt =====
-- Runs of quick_sort.c on arrays of numbers.
use cctrl.Prelude.{ℕ, ◌≡◌, refl, List, [], ◌∷◌, arith, get_or, compare}
use cctrl.Prelude.Compare.{Ranked}
use cctrl.QuickSort.{rounds, sort_part, quick_sort}
use cctrl.QuickSort.Laws.{Sorted, quick_sort-Sorted}

abbrev numbers : Ranked {A = ℕ} compare
numbers = record { rank = λ n. n; agrees = λ a b. refl }

abbrev given : ℕ → ℕ
given i = get_or (4 ∷ 1 ∷ 5 ∷ 1 ∷ 3 ∷ []) i 0

abbrev entries : (ℕ → ℕ) → List ℕ
entries e = e 0 ∷ e 1 ∷ e 2 ∷ e 3 ∷ e 4 ∷ []

sorted : entries (quick_sort compare given 5) ≡ 1 ∷ 1 ∷ 3 ∷ 4 ∷ 5 ∷ []
unfolding quick_sort sort_part rounds
sorted = refl

quick_sort-Sorted_example : Sorted numbers 0 4 given (quick_sort compare given 5)
quick_sort-Sorted_example = quick_sort-Sorted numbers given 5 (omega arith)
