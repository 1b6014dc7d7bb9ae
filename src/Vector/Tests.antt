-- ===== src/Vector/Tests.antt =====
-- Runs of the growing array of vector.c, and its theorems at concrete arrays.
use cctrl.Prelude.{
  ℕ, ◌<◌, ◌≡◌, ◌≢◌, refl, Bool, true, false, ◌==◌, none, some, ◌⊎◌, [], ◌∷◌, arith, get_or,
}
use cctrl.Vector.{Vector, append, delete}
use cctrl.Vector.Laws.{IsValid, Appended, Removed, append_cases, delete-Removed}

abbrev three : Vector
three = record {
  incr = 4;
  cap = 4;
  len = 3;
  arr = 1000;
  bytes = 32;
  cells = λ i. get_or (11 ∷ 22 ∷ 33 ∷ []) i 0;
}

abbrev three-IsValid : IsValid three
three-IsValid = record { block = λ e. omega (arith, e); size = refl; room = omega arith }

abbrev full : Vector
full = record three { cap = 3; bytes = 24 }

abbrev full-IsValid : IsValid full
full-IsValid = record { block = λ e. omega (arith, e); size = refl; room = omega arith }

abbrev is_twenty_two : ℕ → Bool
is_twenty_two x = x == 22

append_cases_example :
    ((full.len < full.cap) × Appended full 44 (append full 5000 44))
    ⊎ ((full.len ≡ full.cap)
        × (((v' : Vector) × (append full 5000 44 ≡ some (false, v')) × (v'.len ≡ 3))
            ⊎ (append full 5000 44 ≡ none)))
append_cases_example = append_cases full-IsValid 5000 44 (omega arith)

delete-Removed_example :
    (((j : ℕ) → j < 3 → three.cells j ≢ 33) × (delete three 33 ≡ some (false, three)))
    ⊎ Removed three 33 true (delete three 33)
delete-Removed_example = delete-Removed three-IsValid 33
