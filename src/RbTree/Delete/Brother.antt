-- ===== src/RbTree/Delete/Brother.antt =====
-- The rounds of `rbt_delete_fixup` at a black brother.
use cctrl.Prelude.{ℕ, suc, ◌≡◌, refl, Option, some, List, append_assoc, arith}
use cctrl.RbTree.{
  Color, red, black, Tree, leaf, node, Frame, color, blacken, zip, left_rotate, right_rotate,
}
use cctrl.RbTree.Shape.{Valid, Fits, Joins, IsRb, zip-IsRb, to_list}
use cctrl.RbTree.Insert.{Fixed, same_data}
use cctrl.RbTree.Delete.{turn_left, turn_right, even_left, even_right}

-- The black nodes on a way through a node of the color, of a way of `n` below it.
abbrev pub through : Color → ℕ → ℕ
through red n = n
through black n = suc n

module _ {ℓ} {A : Type ℓ} where
  Valid-node :
      (c : Color) (n : ℕ) (l : Tree A) (x : A) (r : Tree A)
      → color l ≡ black
      → color r ≡ black
      → Valid n l
      → Valid n r
      → Valid (through c n) (node c l x r)
  Valid-node red n l x r a b v w = (a, b, v, w)
  Valid-node black n l x r a b v w = (v, w)

  Valid-blacken : (n : ℕ) (t : Tree A) → color t ≡ red → Valid n t → Valid (suc n) (blacken t)
  Valid-blacken n leaf e v = absurd (ground (arith, e))
  Valid-blacken n (node black l x r) e v = absurd (ground (arith, e))
  Valid-blacken n (node red l x r) e v = (v.2, v.3)

  color-blacken : (t : Tree A) → color (blacken t) ≡ black
  color-blacken leaf = refl
  color-blacken (node c l x r) = refl

  to_list-blacken : (t : Tree A) → to_list (blacken t) ≡ to_list t
  to_list-blacken leaf = refl
  to_list-blacken (node c l x r) = refl

  blacken-IsRb : (t : Tree A) → IsRb t → IsRb (blacken t)
  blacken-IsRb leaf v = v
  blacken-IsRb (node black l x r) v = v
  blacken-IsRb (node red l x r) v = absurd (ground (arith, v.root_black))

  -- The end of the loop at `node = root`.
  at_root :
      (c : Color) (n : ℕ) (l : Tree A) (x : A) (r : Tree A) (p : List (Frame A))
      → Valid (through c n) (node c l x r)
      → Fits (through c n) p
      → Joins c p
      → Fixed (zip p (node c l x r)) (some (blacken (zip p (node c l x r))))
  at_root c n l x r p v f j =
      let u = zip p (node c l x r) in
      (
        blacken u,
        refl,
        blacken-IsRb u (zip-IsRb (through c n) (node c l x r) p v f j),
        to_list-blacken u,
      )

  -- A red far child of the brother on the right.
  turn_left-Fixed :
      (c : Color) (n : ℕ) (t : Tree A) (x : A) (d : Color) (l : Tree A) (y : A) (r : Tree A)
      (p : List (Frame A))
      → Valid n t
      → Valid n l
      → Valid n r
      → color r ≡ red
      → Fits (through c (suc n)) p
      → Joins c p
      → Fixed (zip p (node c t x (node d l y r))) (turn_left c t x (node d l y r) p)
  unfolding turn_left left_rotate
  turn_left-Fixed c n t x d l y r p vt vl vr e f j =
      same_data p (node c (node black t x l) y (blacken r)) _
        (at_root c (suc n) (node black t x l) y (blacken r) p
          (Valid-node c (suc n) (node black t x l) y (blacken r) refl (color-blacken r) (vt, vl)
            (Valid-blacken n r e vr))
          f j)
        (rw (to_list-blacken r) (simp append_assoc))

  pub even_left-Fixed :
      (go : Tree A → List (Frame A) → Option (Tree A)) (k h c : Color) (n : ℕ) (t : Tree A) (x : A)
      (d : Color) (l : Tree A) (y : A) (r : Tree A) (p : List (Frame A))
      → color l ≡ k
      → color r ≡ h
      → Valid n t
      → Valid n l
      → Valid n r
      → Fits (through c (suc n)) p
      → Joins c p
      → (color l ≡ black
          → color r ≡ black
          → Fixed (zip p (node c t x (node red l y r))) (go (node c t x (node red l y r)) p))
      → Fixed (zip p (node c t x (node d l y r))) (even_left go k h c t x d l y r p)
  unfolding even_left right_rotate
  even_left-Fixed go black black c n t x d l y r p a b vt vl vr f j rest =
      same_data p _ _ (rest a b) refl
  even_left-Fixed go k red c n t x d l y r p a b vt vl vr f j rest =
      turn_left-Fixed c n t x d l y r p vt vl vr b f j
  even_left-Fixed go red black c n t x d leaf y r p a b vt vl vr f j rest =
      absurd (ground (arith, a))
  even_left-Fixed go red black c n t x d (node black i w m) y r p a b vt vl vr f j rest =
      absurd (ground (arith, a))
  even_left-Fixed go red black c n t x d (node red i w m) y r p a b vt vl vr f j rest =
      same_data p _ _
        (turn_left-Fixed c n t x black i w (node red m y r) p vt vl.2 (vl.1, b, vl.3, vr) refl f j)
        (simp append_assoc)

  -- A red far child of the brother on the left.
  turn_right-Fixed :
      (c : Color) (n : ℕ) (t : Tree A) (x : A) (d : Color) (l : Tree A) (y : A) (r : Tree A)
      (p : List (Frame A))
      → Valid n t
      → Valid n l
      → Valid n r
      → color l ≡ red
      → Fits (through c (suc n)) p
      → Joins c p
      → Fixed (zip p (node c (node d l y r) x t)) (turn_right c (node d l y r) x t p)
  unfolding turn_right right_rotate
  turn_right-Fixed c n t x d l y r p vt vl vr e f j =
      same_data p (node c (blacken l) y (node black r x t)) _
        (at_root c (suc n) (blacken l) y (node black r x t) p
          (Valid-node c (suc n) (blacken l) y (node black r x t) (color-blacken l) refl
            (Valid-blacken n l e vl) (vr, vt))
          f j)
        (rw (to_list-blacken l) (simp append_assoc))

  pub even_right-Fixed :
      (go : Tree A → List (Frame A) → Option (Tree A)) (k h c : Color) (n : ℕ) (t : Tree A) (x : A)
      (d : Color) (l : Tree A) (y : A) (r : Tree A) (p : List (Frame A))
      → color l ≡ k
      → color r ≡ h
      → Valid n t
      → Valid n l
      → Valid n r
      → Fits (through c (suc n)) p
      → Joins c p
      → (color l ≡ black
          → color r ≡ black
          → Fixed (zip p (node c (node red l y r) x t)) (go (node c (node red l y r) x t) p))
      → Fixed (zip p (node c (node d l y r) x t)) (even_right go k h c d l y r x t p)
  unfolding even_right left_rotate
  even_right-Fixed go black black c n t x d l y r p a b vt vl vr f j rest =
      same_data p _ _ (rest a b) refl
  even_right-Fixed go red h c n t x d l y r p a b vt vl vr f j rest =
      turn_right-Fixed c n t x d l y r p vt vl vr a f j
  even_right-Fixed go black red c n t x d l y leaf p a b vt vl vr f j rest =
      absurd (ground (arith, b))
  even_right-Fixed go black red c n t x d l y (node black i w m) p a b vt vl vr f j rest =
      absurd (ground (arith, b))
  even_right-Fixed go black red c n t x d l y (node red i w m) p a b vt vl vr f j rest =
      same_data p _ _
        (turn_right-Fixed c n t x black (node red l y i) w m p vt (a, vr.0, vl, vr.2) vr.3 refl f j)
        (simp append_assoc)
