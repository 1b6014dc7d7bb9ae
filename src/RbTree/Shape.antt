-- ===== src/RbTree/Shape.antt =====
-- What makes a tree of rb_tree.c a red-black tree, for a tree and for the way up from a position.
use cctrl.Prelude.{ℕ, zero, suc, ◌≡◌, refl, ap, List, [], ◌∷◌, ◌++◌, arith}
use cctrl.RbTree.{Color, red, black, Tree, leaf, node, Frame, on_left, on_right, color, zip}

module _ {ℓ} {A : Type ℓ} where
  -- Every way down passes `n` black nodes, and a red node has black children.
  abbrev pub Valid : ℕ → Tree A → Type 0
  Valid n leaf = n ≡ 0
  Valid n (node red l x r) = (color l ≡ black) × (color r ≡ black) × Valid n l × Valid n r
  Valid zero (node black l x r) = ⊥
  Valid (suc n) (node black l x r) = Valid n l × Valid n r

  abbrev pub TopBlack : List (Frame A) → Type 0
  TopBlack [] = ⊥
  TopBlack (on_left c _ _ ∷ _) = c ≡ black
  TopBlack (on_right c _ _ ∷ _) = c ≡ black

  -- The way up takes a tree with `n` black nodes on each way down.
  abbrev pub Fits : ℕ → List (Frame A) → Type 0
  Fits n [] = Unit
  Fits n (on_left red x u ∷ p) = (color u ≡ black) × Valid n u × TopBlack p × Fits n p
  Fits n (on_left black x u ∷ p) = Valid n u × Fits (suc n) p
  Fits n (on_right red u x ∷ p) = (color u ≡ black) × Valid n u × TopBlack p × Fits n p
  Fits n (on_right black u x ∷ p) = Valid n u × Fits (suc n) p

  -- A red tree stands below a black parent, and not at the root.
  abbrev pub Joins : Color → List (Frame A) → Type 0
  Joins red p = TopBlack p
  Joins black p = Unit

  -- A red-black tree: its root is black.
  pub record IsRb (t : Tree A) : Type 0 where
    pub root_black : color t ≡ black
    pub height : ℕ
    pub valid : Valid height t

  pub zip-IsRb :
      (n : ℕ) (t : Tree A) (p : List (Frame A))
      → Valid n t
      → Fits n p
      → Joins (color t) p
      → IsRb (zip p t)
  zip-IsRb n leaf [] v f j = record { root_black = refl; height = n; valid = v }
  zip-IsRb n (node black l x r) [] v f j = record { root_black = refl; height = n; valid = v }
  zip-IsRb n (node red l x r) [] v f j = absurd j
  zip-IsRb n t (on_left black x u ∷ p) v f j = zip-IsRb (suc n) (node black t x u) p (v, f.0) f.1 tt
  zip-IsRb n t (on_right black u x ∷ p) v f j =
      zip-IsRb (suc n) (node black u x t) p (f.0, v) f.1 tt
  zip-IsRb n leaf (on_left red x u ∷ p) v f j =
      zip-IsRb n (node red leaf x u) p (refl, f.0, v, f.1) f.3 f.2
  zip-IsRb n (node black l y r) (on_left red x u ∷ p) v f j =
      zip-IsRb n (node red (node black l y r) x u) p (refl, f.0, v, f.1) f.3 f.2
  zip-IsRb n leaf (on_right red u x ∷ p) v f j =
      zip-IsRb n (node red u x leaf) p (f.0, refl, f.1, v) f.3 f.2
  zip-IsRb n (node black l y r) (on_right red u x ∷ p) v f j =
      zip-IsRb n (node red u x (node black l y r)) p (f.0, refl, f.1, v) f.3 f.2
  zip-IsRb n (node red l y r) (on_left red x u ∷ p) v f j = absurd (ground (arith, j))
  zip-IsRb n (node red l y r) (on_right red u x ∷ p) v f j = absurd (ground (arith, j))

  -- The data in order.
  abbrev pub to_list : Tree A → List A
  to_list leaf = []
  to_list (node _ l x r) = to_list l ++ x ∷ to_list r

  -- Trees of the same data at a position make whole trees of the same data.
  pub zip-cong :
      (p : List (Frame A)) (t u : Tree A)
      → to_list t ≡ to_list u
      → to_list (zip p t) ≡ to_list (zip p u)
  zip-cong [] t u e = e
  zip-cong (on_left c x s ∷ p) t u e =
      zip-cong p (node c t x s) (node c u x s) (ap (λ z. z ++ x ∷ to_list s) e)
  zip-cong (on_right c s x ∷ p) t u e =
      zip-cong p (node c s x t) (node c s x u) (ap (λ z. to_list s ++ x ∷ z) e)
