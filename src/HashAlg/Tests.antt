-- ===== src/HashAlg/Tests.antt =====
-- Hashes of short strings by hash_alg.c.
use cctrl.Prelude.{◌%◌, ◌^◌, ◌≡◌, ◌*◌, ◌-◌, refl, none, some, [], ◌∷◌, arith}
use cctrl.HashAlg.{hash_time33, hash_time33_ex, scan, scan_ex}
use cctrl.HashAlg.Laws.{in_base_33, hash_time33_lem}

-- "ab"
ab : hash_time33 (97 ∷ 98 ∷ 0 ∷ []) ≡ some 5863208
unfolding hash_time33 scan
ab = refl

-- A byte above 127 counts as a negative number.
minus_one : hash_time33_ex (255 ∷ []) 1 ≡ some (5381 * 33 - 1)
unfolding hash_time33_ex scan_ex
minus_one = refl

-- Without a zero byte the loop leaves the memory.
endless : hash_time33 (97 ∷ []) ≡ none
unfolding hash_time33 scan
endless = refl

hash_time33_lem_example :
    (hash_time33 (97 ∷ 200 ∷ 0 ∷ 7 ∷ []) ≡ some (in_base_33 5381 (97 ∷ 200 ∷ []) % 2 ^ 63))
    × (hash_time33_ex (97 ∷ 200 ∷ 0 ∷ 7 ∷ []) 2 ≡ some (in_base_33 5381 (97 ∷ 200 ∷ []) % 2 ^ 63))
hash_time33_lem_example =
    hash_time33_lem (97 ∷ 200 ∷ []) (7 ∷ [])
      ((λ e. omega (arith, e)), ((λ e. omega (arith, e)), tt))
