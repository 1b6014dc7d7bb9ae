-- ===== src/Avl/Delete.antt =====
-- lib/core/avl_tree.c: `avl_delete` and the functions below it.
pub mod Shape
pub mod Laws
use cctrl.Prelude.{◌>>=◌, ℕ, ◌-◌, ◌+◌, ◌%◌, ◌^◌, Bool, true, false, Ordering, Option, none, some}
use cctrl.Avl.{Balance, lh, eh, rh, Tree, leaf, node, AvlTree, low_left, low_right}

-- What a deletion below a node hands up: `*lower`, `*data` (`none` for NULL) and the subtree.
pub record Deleted {ℓ} (A : Type ℓ) : Type ℓ where
  pub lower : Bool
  pub found : Option A
  pub tree : Tree A

module _ {ℓ} {A : Type ℓ} where
  -- `avl_delete_left_balance`: the left subtree has become lower.
  pub delete_left_balance : Tree A → Option (Bool × Tree A)
  delete_left_balance (node lh l x r) = some (true, node eh l x r)
  delete_left_balance (node eh l x r) = some (false, node rh l x r)
  delete_left_balance (node rh l x (node eh m y r)) = some (false, node lh (node rh l x m) y r)
  delete_left_balance (node rh l x (node rh m y r)) = some (true, node eh (node eh l x m) y r)
  delete_left_balance (node rh l x (node lh (node b m z n) y r)) =
      some (true, node eh (node (low_left b) l x m) z (node (low_right b) n y r))
  delete_left_balance _ = none

  -- `avl_delete_right_balance`: the right subtree has become lower.
  pub delete_right_balance : Tree A → Option (Bool × Tree A)
  delete_right_balance (node lh (node eh l y m) x r) = some (false, node rh l y (node lh m x r))
  delete_right_balance (node lh (node lh l y m) x r) = some (true, node eh l y (node eh m x r))
  delete_right_balance (node lh (node rh l y (node b m z n)) x r) =
      some (true, node eh (node (low_left b) l y m) z (node (low_right b) n x r))
  delete_right_balance (node eh l x r) = some (false, node lh l x r)
  delete_right_balance (node rh l x r) = some (true, node eh l x r)
  delete_right_balance _ = none

  -- The balancing that follows a deletion on one side, if `*lower`.
  pub left_lowered : Bool → Tree A → Option (Bool × Tree A)
  left_lowered true t = delete_left_balance t
  left_lowered false t = some (false, t)

  pub right_lowered : Bool → Tree A → Option (Bool × Tree A)
  right_lowered true t = delete_right_balance t
  right_lowered false t = some (false, t)

  -- `avl_replace_and_delete`: takes out the last node of the subtree at `prev`, and gives `*lower`,
  -- the data that replaces that of `node`, and the subtree that is left.
  pub replace_and_delete : Tree A → Option (Bool × A × Tree A)
  replace_and_delete leaf = none
  replace_and_delete (node b l x leaf) = some (true, x, l)
  replace_and_delete (node b l x (node c m y r)) =
      replace_and_delete (node c m y r) >>= λ (lower, d, t).
      right_lowered lower (node b l x t) >>= λ (lower', u). some (lower', d, u)

  -- The cases of `_avl_delete` at the node that it has found.
  pub delete_here : Balance → Tree A → A → Tree A → Option (Deleted A)
  delete_here b l x leaf = some (record { lower = true; found = some x; tree = l })
  delete_here b leaf x (node c m y r) =
      some (record { lower = true; found = some x; tree = node c m y r })
  delete_here b (node a k w j) x (node c m y r) =
      replace_and_delete (node a k w j) >>= λ (lower, d, t).
      left_lowered lower (node b t d (node c m y r)) >>= λ (lower', u).
      some (record { lower = lower'; found = some x; tree = u })

module _ {ℓ} {A : Type ℓ} (cmp : A → A → Ordering) where
  -- `_avl_delete`. At a missing child the code sets `*data` to NULL and leaves `*lower` false.
  pub delete_below : A → Tree A → Option (Deleted A)
  delete_below k leaf = some (record { lower = false; found = none; tree = leaf })
  delete_below k (node b l x r) = elim (cmp k x) [
    | Ordering.lt ↦ delete_below k l >>= λ e.
        left_lowered e.lower (node b e.tree x r) >>= λ (lower, t).
        some (record { lower = lower; found = e.found; tree = t })
    | Ordering.gt ↦ delete_below k r >>= λ e.
        right_lowered e.lower (node b l x e.tree) >>= λ (lower, t).
        some (record { lower = lower; found = e.found; tree = t })
    | Ordering.eq ↦ delete_here b l x r
  ]

-- The count after a deletion, a `uint64_t` that may wrap.
uncounted {ℓ} : {A : Type ℓ} → Option A → ℕ → ℕ
uncounted none num = num
uncounted (some _) num = (num + 2 ^ 64 - 1) % 2 ^ 64

-- `avl_delete`, which always returns `AVL_OK`: `*data` and the tree.
pub delete {ℓ} : {A : Type ℓ} → (A → A → Ordering) → A → AvlTree A → Option (Option A × AvlTree A)
delete cmp k t = delete_below cmp k t.root >>= λ e.
    some (e.found, record { num = uncounted e.found t.num; root = e.tree })
