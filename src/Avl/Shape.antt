-- ===== src/Avl/Shape.antt =====
-- The height of a tree and the balance that its factors promise, and what the rotations of
-- avl_tree.c make of them.
use cctrl.Prelude.{
  ℕ, suc, ◌≡◌, refl, Bool, true, false, Option, some, arith, max, List, [], ◌∷◌, ◌++◌, append_assoc,
}
use cctrl.Avl.{
  Balance, lh, eh, rh, Tree, leaf, node, rr_balance, rl_balance, right_balance, ll_balance,
  lr_balance, left_balance,
}

-- What a balance factor says of the heights of the two children.
abbrev pub Fits : Balance → ℕ → ℕ → Type 0
Fits lh l r = l ≡ suc r
Fits eh l r = l ≡ r
Fits rh l r = r ≡ suc l

abbrev pub one_if : Bool → ℕ
one_if true = 1
one_if false = 0

module _ {ℓ} {A : Type ℓ} where
  abbrev pub height : Tree A → ℕ
  height leaf = 0
  height (node _ l _ r) = suc (max (height l) (height r))

  abbrev pub IsAvl : Tree A → Type 0
  IsAvl leaf = Unit
  IsAvl (node b l _ r) = Fits b (height l) (height r) × IsAvl l × IsAvl r

  -- A tree that has just grown leans to one side, unless it is a single node.
  abbrev pub IsTilted : Tree A → Type 0
  IsTilted leaf = ⊥
  IsTilted (node eh l _ _) = height l ≡ 0
  IsTilted _ = Unit

  -- The data in the order of `avl_trav`: left subtree, node, right subtree.
  abbrev pub to_list : Tree A → List A
  to_list leaf = []
  to_list (node _ l x r) = to_list l ++ x ∷ to_list r

  -- A rotation ends in a balanced tree of height `h` with the data `xs`.
  abbrev pub Turned : ℕ → List A → Option (Tree A) → Type ℓ
  Turned h xs o = (t : Tree A) × (o ≡ some t) × IsAvl t × (height t ≡ h) × (to_list t ≡ xs)

  -- The left child two levels higher than the right one, and leaning.
  pub left_balance-Turned :
      (b : Balance) (l : Tree A) (x : A) (r : Tree A)
      → IsAvl l
      → IsAvl r
      → IsTilted l
      → height l ≡ suc (suc (height r))
      → Turned (height l) (to_list l ++ x ∷ to_list r) (left_balance (node b l x r))
  unfolding left_balance ll_balance lr_balance
  left_balance-Turned b leaf x r vl vr t e = absurd (omega arith)
  left_balance-Turned b (node eh l y m) x r vl vr t e = absurd (omega arith)
  left_balance-Turned b (node lh l y m) x r vl vr t e =
      (_, refl, ground arith, omega arith, simp append_assoc)
  left_balance-Turned b (node rh l y leaf) x r vl vr t e = absurd (omega arith)
  left_balance-Turned b (node rh l y (node lh m z n)) x r vl vr t e =
      (_, refl, ground arith, omega arith, simp append_assoc)
  left_balance-Turned b (node rh l y (node eh m z n)) x r vl vr t e =
      (_, refl, ground arith, omega arith, simp append_assoc)
  left_balance-Turned b (node rh l y (node rh m z n)) x r vl vr t e =
      (_, refl, ground arith, omega arith, simp append_assoc)

  -- The mirror image.
  pub right_balance-Turned :
      (b : Balance) (l : Tree A) (x : A) (r : Tree A)
      → IsAvl l
      → IsAvl r
      → IsTilted r
      → height r ≡ suc (suc (height l))
      → Turned (height r) (to_list l ++ x ∷ to_list r) (right_balance (node b l x r))
  unfolding right_balance rr_balance rl_balance
  right_balance-Turned b l x leaf vl vr t e = absurd (omega arith)
  right_balance-Turned b l x (node eh m y r) vl vr t e = absurd (omega arith)
  right_balance-Turned b l x (node rh m y r) vl vr t e =
      (_, refl, ground arith, omega arith, simp append_assoc)
  right_balance-Turned b l x (node lh leaf y r) vl vr t e = absurd (omega arith)
  right_balance-Turned b l x (node lh (node lh m z n) y r) vl vr t e =
      (_, refl, ground arith, omega arith, simp append_assoc)
  right_balance-Turned b l x (node lh (node eh m z n) y r) vl vr t e =
      (_, refl, ground arith, omega arith, simp append_assoc)
  right_balance-Turned b l x (node lh (node rh m z n) y r) vl vr t e =
      (_, refl, ground arith, omega arith, simp append_assoc)
