-- ===== src/Slot/Tests.antt =====
-- The theorems of the pool of slot.c at concrete pools.
use cctrl.Prelude.{◌≡◌, true, [], ◌∷◌, arith}
use cctrl.Ring.{returns}
use cctrl.Ring.Tests.{wrapping, wrapping-Holds}
use cctrl.Slot.{Slot, creat}
use cctrl.Slot.Laws.{IsPool, creat-IsPool}

creat-IsPool_example :
    (s : Slot) × (creat true true true 1000 3 64 ≡ returns s)
    × IsPool s (1000 ∷ 1064 ∷ 1128 ∷ []) []
    × (s.size ≡ 64)
    × (s.addr ≡ 0)
creat-IsPool_example = creat-IsPool 1000 3 64 (λ e. omega (arith, e)) (omega arith) (omega arith)

-- The blocks 7 and 8 are free, 5 and 6 in use.
abbrev two_free : Slot
two_free = record { max = 4; size = 64; addr = 0; ring = wrapping }

abbrev two_free-IsPool : IsPool two_free (7 ∷ 8 ∷ []) (5 ∷ 6 ∷ [])
two_free-IsPool = record { holds = wrapping-Holds; room = omega arith }
