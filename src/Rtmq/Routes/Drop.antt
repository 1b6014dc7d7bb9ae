-- ===== src/Rtmq/Routes/Drop.antt =====
-- What the loop of `rtmq_node_to_svr_map_del` leaves of an array.
use cctrl.Prelude.{
  ℕ, suc, ◌+◌, ◌-◌, ◌≤◌, ◌≡◌, refl, ◌==◌, if◌then◌else◌, List, [], ◌∷◌, length, arith, ap,
}
use cctrl.Rtmq.Routes.{last_of, but_last, filled, drop_id}

-- How often a number stands in a list.
abbrev pub occurs : ℕ → List ℕ → ℕ
occurs x [] = 0
occurs x (y ∷ ys) = (if y == x then 1 else 0) + occurs x ys

occurs-but_last :
    (x y : ℕ) (ys : List ℕ) → occurs x (last_of y ys ∷ but_last y ys) ≡ occurs x (y ∷ ys)
occurs-but_last x y [] = refl
occurs-but_last x y (z ∷ zs) = let rest = occurs-but_last x z zs in omega (arith, rest)

length-but_last : (y : ℕ) (ys : List ℕ) → length (but_last y ys) ≡ length ys
length-but_last y [] = refl
length-but_last y (z ∷ zs) = ap suc (length-but_last z zs)

occurs-filled : (x : ℕ) (ys : List ℕ) → occurs x (filled ys) ≡ occurs x ys
occurs-filled x [] = refl
occurs-filled x (y ∷ ys) = occurs-but_last x y ys

-- The array loses one of the number, if it has one.
pub occurs-drop_id :
    (id x : ℕ) (xs : List ℕ)
    → occurs x (drop_id id xs) ≡ (if x == id then occurs x xs - 1 else occurs x xs)
occurs-drop_id id x [] = ground arith
occurs-drop_id id x (y ∷ ys) = ground (arith, occurs-filled x ys, occurs-drop_id id x ys)

length-filled : (ys : List ℕ) → length (filled ys) ≡ length ys
length-filled [] = refl
length-filled (y ∷ ys) = ap suc (length-but_last y ys)

pub length-drop_id : (id : ℕ) (xs : List ℕ) → length (drop_id id xs) ≤ length xs
length-drop_id id [] = omega arith
length-drop_id id (y ∷ ys) = ground (arith, length-filled ys, length-drop_id id ys)
