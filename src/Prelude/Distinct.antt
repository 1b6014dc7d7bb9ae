-- ===== src/Prelude/Distinct.antt =====
-- Lists of different numbers.
use Prim.Native.Nat.{ℕ}
use mathlib.Core.Path.{sym}
use mathlib.Core.Logic.{◌≢◌}
use mathlib.Core.List.{List, [], ◌∷◌, ◌++◌}

abbrev pub Absent : ℕ → List ℕ → Type 0
Absent i [] = Unit
Absent i (j ∷ js) = (i ≢ j) × Absent i js

abbrev pub IsDistinct : List ℕ → Type 0
IsDistinct [] = Unit
IsDistinct (j ∷ js) = Absent j js × IsDistinct js

pub Absent-snoc : (i j : ℕ) (js : List ℕ) → Absent i js → i ≢ j → Absent i (js ++ j ∷ [])
Absent-snoc i j [] a ne = (ne, tt)
Absent-snoc i j (k ∷ js) (d, a) ne = (d, Absent-snoc i j js a ne)

pub Absent-init : (i j : ℕ) (js : List ℕ) → Absent i (js ++ j ∷ []) → Absent i js × (i ≢ j)
Absent-init i j [] (ne, _) = (tt, ne)
Absent-init i j (k ∷ js) (d, a) = let r = Absent-init i j js a in ((d, r.0), r.1)

pub IsDistinct-snoc :
    (j : ℕ) (js : List ℕ) → IsDistinct js → Absent j js → IsDistinct (js ++ j ∷ [])
IsDistinct-snoc j [] d a = (tt, tt)
IsDistinct-snoc j (k ∷ js) (x, d) (ne, a) =
    (Absent-snoc k j js x (λ e. ne (sym e)), IsDistinct-snoc j js d a)

pub IsDistinct-init :
    (j : ℕ) (js : List ℕ) → IsDistinct (js ++ j ∷ []) → IsDistinct js × Absent j js
IsDistinct-init j [] d = (tt, tt)
IsDistinct-init j (k ∷ js) (x, d) =
    let (y, ne) = Absent-init k j js x in
    let (z, w) = IsDistinct-init j js d in ((y, z), ((λ e. ne (sym e)), w))
