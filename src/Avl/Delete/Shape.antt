-- ===== src/Avl/Delete/Shape.antt =====
-- What the balancing of a deletion makes of heights and data.
use cctrl.Prelude.{
  ℕ, suc, ◌+◌, ◌≡◌, refl, Bool, true, false, Option, some, arith, List, ◌∷◌, ◌++◌, append_assoc,
  max,
}
use cctrl.Avl.{Balance, lh, eh, rh, Tree, leaf, node}
use cctrl.Avl.Shape.{height, IsAvl, Fits, one_if, to_list}
use cctrl.Avl.Delete.{delete_left_balance, delete_right_balance, left_lowered, right_lowered}

module _ {ℓ} {A : Type ℓ} where
  -- The balancing ends in a balanced tree with the data `xs`, of height `h` less what `*lower` says.
  abbrev pub Lowered : ℕ → List A → Option (Bool × Tree A) → Type ℓ
  Lowered h xs o =
      (lower : Bool) × (t : Tree A) × (o ≡ some (lower, t))
      × IsAvl t
      × (h ≡ height t + one_if lower)
      × (to_list t ≡ xs)

  delete_left_balance-Lowered :
      (b : Balance) (l : Tree A) (x : A) (r : Tree A)
      → IsAvl l
      → IsAvl r
      → Fits b (suc (height l)) (height r)
      → Lowered
          (suc (max (suc (height l)) (height r)))
          (to_list l ++ x ∷ to_list r)
          (delete_left_balance (node b l x r))
  unfolding delete_left_balance
  delete_left_balance-Lowered lh l x r vl vr f = (_, _, refl, ground arith, omega arith, refl)
  delete_left_balance-Lowered eh l x r vl vr f = (_, _, refl, ground arith, omega arith, refl)
  delete_left_balance-Lowered rh l x leaf vl vr f = absurd (omega arith)
  delete_left_balance-Lowered rh l x (node eh m y r) vl vr f =
      (_, _, refl, ground arith, omega arith, simp append_assoc)
  delete_left_balance-Lowered rh l x (node rh m y r) vl vr f =
      (_, _, refl, ground arith, omega arith, simp append_assoc)
  delete_left_balance-Lowered rh l x (node lh leaf y r) vl vr f = absurd (omega arith)
  delete_left_balance-Lowered rh l x (node lh (node lh m z n) y r) vl vr f =
      (_, _, refl, ground arith, omega arith, simp append_assoc)
  delete_left_balance-Lowered rh l x (node lh (node eh m z n) y r) vl vr f =
      (_, _, refl, ground arith, omega arith, simp append_assoc)
  delete_left_balance-Lowered rh l x (node lh (node rh m z n) y r) vl vr f =
      (_, _, refl, ground arith, omega arith, simp append_assoc)

  delete_right_balance-Lowered :
      (b : Balance) (l : Tree A) (x : A) (r : Tree A)
      → IsAvl l
      → IsAvl r
      → Fits b (height l) (suc (height r))
      → Lowered
          (suc (max (height l) (suc (height r))))
          (to_list l ++ x ∷ to_list r)
          (delete_right_balance (node b l x r))
  unfolding delete_right_balance
  delete_right_balance-Lowered rh l x r vl vr f = (_, _, refl, ground arith, omega arith, refl)
  delete_right_balance-Lowered eh l x r vl vr f = (_, _, refl, ground arith, omega arith, refl)
  delete_right_balance-Lowered lh leaf x r vl vr f = absurd (omega arith)
  delete_right_balance-Lowered lh (node eh l y m) x r vl vr f =
      (_, _, refl, ground arith, omega arith, simp append_assoc)
  delete_right_balance-Lowered lh (node lh l y m) x r vl vr f =
      (_, _, refl, ground arith, omega arith, simp append_assoc)
  delete_right_balance-Lowered lh (node rh l y leaf) x r vl vr f = absurd (omega arith)
  delete_right_balance-Lowered lh (node rh l y (node lh m z n)) x r vl vr f =
      (_, _, refl, ground arith, omega arith, simp append_assoc)
  delete_right_balance-Lowered lh (node rh l y (node eh m z n)) x r vl vr f =
      (_, _, refl, ground arith, omega arith, simp append_assoc)
  delete_right_balance-Lowered lh (node rh l y (node rh m z n)) x r vl vr f =
      (_, _, refl, ground arith, omega arith, simp append_assoc)

  -- The balancing of a node whose left subtree had the height of `l`, lower by what the flag says.
  pub left_lowered-Lowered :
      (flag : Bool) (b : Balance) (h : ℕ) (l : Tree A) (x : A) (r : Tree A)
      → IsAvl l
      → IsAvl r
      → h ≡ height l + one_if flag
      → Fits b h (height r)
      → Lowered
          (suc (max h (height r)))
          (to_list l ++ x ∷ to_list r)
          (left_lowered flag (node b l x r))
  unfolding left_lowered
  left_lowered-Lowered true b h l x r vl vr e f =
      let e' : h ≡ suc (height l) = omega arith in
      rw e' (delete_left_balance-Lowered b l x r vl vr (rw e' at f))
  left_lowered-Lowered false b h l x r vl vr e f =
      let e' : h ≡ height l = omega arith in (_, _, refl, (rw e' at f, vl, vr), omega arith, refl)

  pub right_lowered-Lowered :
      (flag : Bool) (b : Balance) (h : ℕ) (l : Tree A) (x : A) (r : Tree A)
      → IsAvl l
      → IsAvl r
      → h ≡ height r + one_if flag
      → Fits b (height l) h
      → Lowered
          (suc (max (height l) h))
          (to_list l ++ x ∷ to_list r)
          (right_lowered flag (node b l x r))
  unfolding right_lowered
  right_lowered-Lowered true b h l x r vl vr e f =
      let e' : h ≡ suc (height r) = omega arith in
      rw e' (delete_right_balance-Lowered b l x r vl vr (rw e' at f))
  right_lowered-Lowered false b h l x r vl vr e f =
      let e' : h ≡ height r = omega arith in (_, _, refl, (rw e' at f, vl, vr), omega arith, refl)
