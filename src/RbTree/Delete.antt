-- ===== src/RbTree/Delete.antt =====
-- lib/core/rb_tree.c: `rbt_delete` with `_rbt_delete` and `rbt_delete_fixup`.
mod Brother
pub mod Repair
pub mod Laws
mod Tests
use cctrl.Prelude.{
  ℕ, zero, suc, ◌+◌, Option, none, some, ◌>>=◌, Ordering, List, [], ◌∷◌, ◌++◌, length,
}
use cctrl.RbTree.{
  Color, red, black, Tree, leaf, node, Frame, on_left, on_right, color, blacken, plug, zip,
  left_rotate, right_rotate, other, Spot, here, missing, spot_data, descend, RbTree, down64,
}

-- The leftmost node below a node given, which has no left child, with the way down to it.
pub record Next {ℓ} (A : Type ℓ) : Type ℓ where
  pub hue : Color
  pub item : A
  pub right : Tree A
  pub way : List (Frame A)

module _ {ℓ} {A : Type ℓ} where
  -- Cases 4 and 8 of `rbt_delete_fixup`: the brother `b` has a red far child, and `node = root` ends
  -- the loop. `c` and `x` are the parent's.
  pub turn_left : Color → Tree A → A → Tree A → List (Frame A) → Option (Tree A)
  turn_left c t x leaf p = none
  turn_left c t x (node _ l y r) p =
      left_rotate (node black t x (node c l y (blacken r))) >>= λ u. some (blacken (zip p u))

  pub turn_right : Color → Tree A → A → Tree A → List (Frame A) → Option (Tree A)
  turn_right c leaf x t p = none
  turn_right c (node _ l y r) x t p =
      right_rotate (node black (node c (blacken l) y r) x t) >>= λ u. some (blacken (zip p u))

  -- Cases 2 to 4, and 6 to 8, for a brother with the children `l` and `r` of the colors given; `go`
  -- is for the rounds that follow.
  pub even_left :
      (Tree A → List (Frame A) → Option (Tree A))
      → Color
      → Color
      → Color
      → Tree A
      → A
      → Color
      → Tree A
      → A
      → Tree A
      → List (Frame A)
      → Option (Tree A)
  even_left go black black c t x d l y r p = go (node c t x (node red l y r)) p
  even_left go red black c t x d l y r p =
      right_rotate (node red (blacken l) y r) >>= λ b. turn_left c t x b p
  even_left go _ red c t x d l y r p = turn_left c t x (node d l y r) p

  pub even_right :
      (Tree A → List (Frame A) → Option (Tree A))
      → Color
      → Color
      → Color
      → Color
      → Tree A
      → A
      → Tree A
      → A
      → Tree A
      → List (Frame A)
      → Option (Tree A)
  even_right go black black c d l y r x t p = go (node c (node red l y r) x t) p
  even_right go black red c d l y r x t p =
      left_rotate (node red l y (blacken r)) >>= λ b. turn_right c b x t p
  even_right go red _ c d l y r x t p = turn_right c (node d l y r) x t p

  pub even_out :
      (Tree A → List (Frame A) → Option (Tree A))
      → Tree A
      → Frame A
      → List (Frame A)
      → Option (Tree A)
  even_out go t (on_left c x leaf) p = none
  even_out go t (on_left c x (node d l y r)) p = even_left go (color l) (color r) c t x d l y r p
  even_out go t (on_right c leaf x) p = none
  even_out go t (on_right c (node d l y r) x) p = even_right go (color l) (color r) c d l y r x t p

  -- Cases 1 and 5: a red brother is turned above the parent, which becomes red.
  pub with_brother :
      (Tree A → List (Frame A) → Option (Tree A))
      → Tree A
      → Frame A
      → List (Frame A)
      → Option (Tree A)
  with_brother go t (on_left _ x (node red l y r)) p =
      even_out go t (on_left red x l) (on_left black y r ∷ p)
  with_brother go t (on_right _ (node red l y r) x) p =
      even_out go t (on_right red r x) (on_right black l y ∷ p)
  with_brother go t f p = even_out go t f p

  -- `rbt_delete_fixup`; the whole tree is the result.
  pub delete_fixup : ℕ → Tree A → List (Frame A) → Option (Tree A)
  delete_fixup zero t p = none
  delete_fixup (suc fuel) t [] = some (blacken t)
  delete_fixup (suc fuel) t (f ∷ p) = elim (color t) [
    | red ↦ some (zip (f ∷ p) (blacken t))
    | black ↦ with_brother (delete_fixup fuel) t f p
  ]

  -- A node taken out leaves its one child `t`; a black one leaves a way too short.
  pub unhook : Color → Tree A → List (Frame A) → Option (Tree A)
  unhook red t p = some (zip p t)
  unhook black t p = delete_fixup (length p + 2) t p

  pub next : Color → Tree A → A → Tree A → List (Frame A) → Next A
  next c leaf x r p = record { hue = c; item = x; right = r; way = p }
  next c (node d l y s) x r p = next d l y s (on_left c x r ∷ p)

  -- `_rbt_delete`. With two children the data of the successor take the place of the node's.
  pub delete_here : Color → Tree A → A → Tree A → List (Frame A) → Option (Tree A)
  delete_here c leaf x r p = unhook c r p
  delete_here c (node d l y s) x leaf p = unhook c (node d l y s) p
  delete_here c (node d l y s) x (node e m z r) p =
      let n = next e m z r [] in
      unhook n.hue n.right (n.way ++ on_right c (node d l y s) n.item ∷ p)

  pub delete_at : RbTree A → Spot A → Option (Option A × RbTree A)
  delete_at t (here c l x r p) =
      delete_here c l x r p >>= λ u. some (some x, record { num = down64 t.num; root = u })
  delete_at t (missing p) = some (none, t)

-- `rbt_delete`, with `*data`, where `none` is NULL.
pub delete {ℓ} : {A : Type ℓ} → (A → A → Ordering) → A → RbTree A → Option (Option A × RbTree A)
delete cmp k t = delete_at t (descend cmp k t.root [])
