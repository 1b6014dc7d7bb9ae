-- ===== src/Avl.antt =====
-- lib/core/avl_tree.c and incl/avl_tree.h: the search tree that keeps itself balanced.
-- A node is its balance factor, its children and its data. Its parent pointer is where it stands in
-- the tree, and `avl_replace_child` is the subtree that a function returns. `none` is a NULL pointer
-- followed, which the theorems rule out.
pub mod Shape
pub mod Insert
pub mod Correct
pub mod Delete
pub mod Walk
mod Calls
mod Tests
use mathlib.Core.Option.{Option, none, some}
use cctrl.Prelude.{
  ◌>>=◌, ℕ, suc, ◌+◌, ◌-◌, ◌%◌, ◌^◌, Bool, true, false, if◌then◌else◌, Ordering, List, [], ◌∷◌,
  ◌++◌,
}

-- `AVL_LH`, `AVL_EH`, `AVL_RH`: the left side is higher, neither, the right side.
pub data Balance : Type 0 where
  lh eh rh : Balance

-- `avl_node_t`; a NULL pointer is a leaf.
pub data Tree {ℓ} (A : Type ℓ) : Type ℓ where
  leaf : Tree A
  node : Balance → Tree A → A → Tree A → Tree A

-- `avl_err_e`, as far as an insertion returns it.
pub data Status : Type 0 where
  ok err exist : Status

-- The factors that a double rotation leaves below the grandchild that rises, by its own.
abbrev pub low_left : Balance → Balance
low_left rh = lh
low_left _ = eh

abbrev pub low_right : Balance → Balance
low_right lh = rh
low_right _ = eh

-- What an insertion below a node hands up: the code, `*taller` and the subtree.
pub record Inserted {ℓ} (A : Type ℓ) : Type ℓ where
  pub ret : Status
  pub taller : Bool
  pub tree : Tree A

abbrev pub inserted {ℓ} : {A : Type ℓ} → Status → Bool → Tree A → Inserted A
inserted s t u = record { ret = s; taller = t; tree = u }

module _ {ℓ} {A : Type ℓ} where
  -- `avl_rr_balance`: turn left.
  pub rr_balance : Tree A → Option (Tree A)
  rr_balance (node _ l x (node _ m y r)) = some (node eh (node eh l x m) y r)
  rr_balance _ = none

  -- `avl_rl_balance`: turn the right child right, then the node left.
  pub rl_balance : Tree A → Option (Tree A)
  rl_balance (node _ l x (node _ (node b m z n) y r)) =
      some (node eh (node (low_left b) l x m) z (node (low_right b) n y r))
  rl_balance _ = none

  -- `avl_right_balance`; the caller ignores the error of a child in balance.
  pub right_balance : Tree A → Option (Tree A)
  right_balance (node b l x (node rh m y r)) = rr_balance (node b l x (node rh m y r))
  right_balance (node b l x (node lh m y r)) = rl_balance (node b l x (node lh m y r))
  right_balance (node b l x (node eh m y r)) = some (node b l x (node eh m y r))
  right_balance _ = none

  -- `avl_ll_balance`: turn right.
  pub ll_balance : Tree A → Option (Tree A)
  ll_balance (node _ (node _ l y m) x r) = some (node eh l y (node eh m x r))
  ll_balance _ = none

  -- `avl_lr_balance`: turn the left child left, then the node right.
  pub lr_balance : Tree A → Option (Tree A)
  lr_balance (node _ (node _ l y (node b m z n)) x r) =
      some (node eh (node (low_left b) l y m) z (node (low_right b) n x r))
  lr_balance _ = none

  -- `avl_left_balance`
  pub left_balance : Tree A → Option (Tree A)
  left_balance (node b (node lh l y m) x r) = ll_balance (node b (node lh l y m) x r)
  left_balance (node b (node rh l y m) x r) = lr_balance (node b (node rh l y m) x r)
  left_balance (node b (node eh l y m) x r) = some (node b (node eh l y m) x r)
  left_balance _ = none

  -- The end of `avl_insert_right`, from the check of `ret` on; the fields of `i` are the arguments.
  pub right_grown : Status → Bool → Balance → Tree A → A → Tree A → Option (Inserted A)
  right_grown ok false b l x r = some (inserted ok false (node b l x r))
  right_grown ok true lh l x r = some (inserted ok false (node eh l x r))
  right_grown ok true eh l x r = some (inserted ok true (node rh l x r))
  right_grown ok true rh l x r = right_balance (node rh l x r) >>= λ t. some (inserted ok false t)
  right_grown err t b l x r = some (inserted err t (node b l x r))
  right_grown exist t b l x r = some (inserted exist t (node b l x r))

  -- The end of `avl_insert_left`.
  pub left_grown : Status → Bool → Balance → Tree A → A → Tree A → Option (Inserted A)
  left_grown ok false b l x r = some (inserted ok false (node b l x r))
  left_grown ok true rh l x r = some (inserted ok false (node eh l x r))
  left_grown ok true eh l x r = some (inserted ok true (node lh l x r))
  left_grown ok true lh l x r = left_balance (node lh l x r) >>= λ t. some (inserted ok false t)
  left_grown err t b l x r = some (inserted err t (node b l x r))
  left_grown exist t b l x r = some (inserted exist t (node b l x r))

  -- The new node of `avl_insert_left`, `avl_insert_right` and `avl_insert`; the flag says whether the
  -- allocation succeeds.
  pub new_node : Bool → A → Inserted A
  new_node true d = inserted ok true (node eh leaf d leaf)
  new_node false d = inserted err false leaf

module _ {ℓ} {A : Type ℓ} (cmp : A → A → Ordering) where
  -- `_avl_insert` with `avl_insert_left` and `avl_insert_right`, which call it; `cmp` is the sign of
  -- what `cmp_cb` returns.
  pub insert_below : Bool → A → Tree A → Option (Inserted A)
  insert_below mem d leaf = some (new_node mem d)
  insert_below mem d (node b l x r) = elim (cmp d x) [
    | Ordering.eq ↦ some (inserted exist false (node b l x r))
    | Ordering.lt ↦ insert_below mem d l >>= λ i. left_grown i.ret i.taller b i.tree x r
    | Ordering.gt ↦ insert_below mem d r >>= λ i. right_grown i.ret i.taller b l x i.tree
  ]

  -- `avl_query`
  pub query : A → Tree A → Option A
  query k leaf = none
  query k (node _ l x r) = elim (cmp k x) [
    | Ordering.eq ↦ some x
    | Ordering.lt ↦ query k l
    | Ordering.gt ↦ query k r
  ]

-- `avl_tree_t`, less the callbacks.
pub record AvlTree {ℓ} (A : Type ℓ) : Type ℓ where
  pub num : ℕ
  pub root : Tree A

-- `avl_creat`, when its allocation succeeds.
pub creat {ℓ} : {A : Type ℓ} → AvlTree A
creat = record { num = 0; root = leaf }

-- The count after an insertion, a `uint64_t`.
counted : Status → ℕ → ℕ
counted ok num = (num + 1) % 2 ^ 64
counted _ num = num

module _ {ℓ} {A : Type ℓ} (cmp : A → A → Ordering) where
  insert_root : Bool → A → ℕ → Tree A → Option (Status × AvlTree A)
  insert_root true d num leaf = some (ok, record { num = 1; root = node eh leaf d leaf })
  insert_root false d num leaf = some (err, record { num = num; root = leaf })
  insert_root mem d num (node b l x r) = insert_below cmp mem d (node b l x r) >>= λ i.
      some (i.ret, record { num = counted i.ret num; root = i.tree })

  -- `avl_insert`. The count starts again at 1 in an empty tree.
  pub insert : Bool → A → AvlTree A → Option (Status × AvlTree A)
  insert mem d t = insert_root mem d t.num t.root
