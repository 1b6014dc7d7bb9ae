-- ===== src/RbTree.antt =====
-- lib/core/rb_tree.c and incl/rb_tree.h: the red-black tree. A node pointer is a position: the
-- subtree at the node, with the frames on the way up to the root, each a parent with its other
-- child. The sentinel is `leaf`, black, and stands above the root too. `none` is a fault: a member
-- of the sentinel is used that the code never sets, or a loop runs out of fuel.
pub mod Shape
pub mod Insert
pub mod Search
pub mod Correct
pub mod Delete
pub mod Tests
use cctrl.Prelude.{
  ℕ, zero, suc, ◌+◌, ◌-◌, ◌%◌, ◌^◌, Bool, true, false, Option, none, some, ◌>>=◌, Ordering, List,
  [], ◌∷◌, length,
}

-- `RBT_COLOR_RED` and `RBT_COLOR_BLACK`
pub data Color : Type 0 where
  red black : Color

-- `rbt_node_t`
pub data Tree {ℓ} (A : Type ℓ) : Type ℓ where
  leaf : Tree A
  node : Color → Tree A → A → Tree A → Tree A

-- A parent, by which of its children the position below it is, with the other child.
pub data Frame {ℓ} (A : Type ℓ) : Type ℓ where
  on_left : Color → A → Tree A → Frame A
  on_right : Color → Tree A → A → Frame A

-- `rbt_ret_e`, by the conditions under which the code returns each.
pub data Status : Type 0 where
  ok err exist : Status

-- `rbt_tree_t`, less the callbacks.
pub record RbTree {ℓ} (A : Type ℓ) : Type ℓ where
  pub num : ℕ
  pub root : Tree A

-- `rbt_creat`, when both allocations succeed.
pub creat {ℓ} : {A : Type ℓ} → RbTree A
creat = record { num = 0; root = leaf }

module _ {ℓ} {A : Type ℓ} where
  -- The color; the sentinel is black.
  abbrev pub color : Tree A → Color
  color leaf = black
  color (node c _ _ _) = c

  -- `rbt_set_black`
  abbrev pub blacken : Tree A → Tree A
  blacken leaf = leaf
  blacken (node _ l x r) = node black l x r

  abbrev pub plug : Frame A → Tree A → Tree A
  plug (on_left c x r) t = node c t x r
  plug (on_right c l x) t = node c l x t

  -- The whole tree around a position.
  abbrev pub zip : List (Frame A) → Tree A → Tree A
  zip [] t = t
  zip (f ∷ p) t = zip p (plug f t)

  -- `rbt_left_rotate` and `rbt_right_rotate`, on the subtree at the node.
  pub left_rotate : Tree A → Option (Tree A)
  left_rotate (node c l x (node d m y r)) = some (node d (node c l x m) y r)
  left_rotate _ = none

  pub right_rotate : Tree A → Option (Tree A)
  right_rotate (node c (node d l x m) y r) = some (node d l x (node c m y r))
  right_rotate _ = none

  abbrev red_below_root : Color → List (Frame A) → Color
  red_below_root c [] = c
  red_below_root c (_ ∷ _) = red

  -- `node = gparent` at the end of a round: the position above the one reached.
  abbrev go_up :
      (Tree A → List (Frame A) → Option (Tree A)) → Tree A → List (Frame A) → Option (Tree A)
  go_up go t [] = some t
  go_up go t (f ∷ p) = go (plug f t) p

  -- `node = parent` after a rotation at the parent: the child that the parent has become.
  abbrev to_left_child :
      (Tree A → List (Frame A) → Option (Tree A)) → Tree A → List (Frame A) → Option (Tree A)
  to_left_child go leaf p = none
  to_left_child go (node c l x r) p = go l (on_left c x r ∷ p)

  abbrev to_right_child :
      (Tree A → List (Frame A) → Option (Tree A)) → Tree A → List (Frame A) → Option (Tree A)
  to_right_child go leaf p = none
  to_right_child go (node c l x r) p = go r (on_right c l x ∷ p)

  -- A round of `rbt_insert_fixup`, with `go` for the rounds that follow: `n` is the node, red, and
  -- its parent (y, s) is red too, a left or right child of the grandparent (c, z) with the uncle `u`.
  -- `k` is the color of the uncle.
  pub round :
      (Tree A → List (Frame A) → Option (Tree A))
      → Color
      → Tree A
      → Frame A
      → Frame A
      → List (Frame A)
      → Option (Tree A)
  round go red n (on_left _ y s) (on_left c z u) p =
      go (node (red_below_root c p) (node black n y s) z (blacken u)) p
  round go red n (on_right _ s y) (on_left c z u) p =
      go (node (red_below_root c p) (node black s y n) z (blacken u)) p
  round go red n (on_left _ y s) (on_right c u z) p =
      go (node (red_below_root c p) (blacken u) z (node black n y s)) p
  round go red n (on_right _ s y) (on_right c u z) p =
      go (node (red_below_root c p) (blacken u) z (node black s y n)) p
  round go black n (on_left _ y s) (on_left c z u) p =
      right_rotate (node red (node black n y s) z u) >>= λ t. go_up go t p
  round go black n (on_right b s y) (on_left c z u) p =
      left_rotate (node b s y n) >>= λ t. to_left_child go t (on_left c z u ∷ p)
  round go black n (on_left b y s) (on_right c u z) p =
      right_rotate (node b n y s) >>= λ t. to_right_child go t (on_right c u z ∷ p)
  round go black n (on_right _ s y) (on_right c u z) p =
      left_rotate (node red u z (node black s y n)) >>= λ t. go_up go t p

  abbrev frame_color : Frame A → Color
  frame_color (on_left c _ _) = c
  frame_color (on_right c _ _) = c

  -- The other child of a parent: the uncle of its grandchild, the brother of its child.
  abbrev pub other : Frame A → Tree A
  other (on_left _ _ u) = u
  other (on_right _ u _) = u

  pub with_grandparent :
      (Tree A → List (Frame A) → Option (Tree A))
      → Tree A
      → Frame A
      → List (Frame A)
      → Option (Tree A)
  with_grandparent go n f [] = none
  with_grandparent go n f (g ∷ p) = round go (color (other g)) n f g p

  pub with_parent :
      (Tree A → List (Frame A) → Option (Tree A))
      → Color
      → Tree A
      → List (Frame A)
      → Option (Tree A)
  with_parent go black n p = some (zip p n)
  with_parent go red n [] = some n
  with_parent go red n (f ∷ p) = elim (frame_color f) [
    | black ↦ some (zip (f ∷ p) n)
    | red ↦ with_grandparent go n f p
  ]

  -- `rbt_insert_fixup`; the whole tree is the result.
  pub insert_fixup : ℕ → Tree A → List (Frame A) → Option (Tree A)
  insert_fixup zero n p = none
  insert_fixup (suc fuel) n p = with_parent (insert_fixup fuel) (color n) n p

-- Where the descent from the root ends: at a node, or at the sentinel.
pub data Spot {ℓ} (A : Type ℓ) : Type ℓ where
  here : Color → Tree A → A → Tree A → List (Frame A) → Spot A
  missing : List (Frame A) → Spot A

-- The data of a node that is found.
abbrev pub spot_data {ℓ} : {A : Type ℓ} → Spot A → Option A
spot_data (here _ _ x _ _) = some x
spot_data (missing _) = none

-- The count after an insertion or a deletion, a `uint64_t`.
abbrev pub up64 : ℕ → ℕ
up64 n = (n + 1) % 2 ^ 64

abbrev pub down64 : ℕ → ℕ
down64 n = (n + 2 ^ 64 - 1) % 2 ^ 64

module _ {ℓ} {A : Type ℓ} (cmp : A → A → Ordering) where
  -- The loop of `rbt_insert`, `rbt_delete` and `rbt_query`.
  pub descend : A → Tree A → List (Frame A) → Spot A
  descend k leaf p = missing p
  descend k (node c l x r) p = elim (cmp k x) [
    | Ordering.eq ↦ here c l x r p
    | Ordering.lt ↦ descend k l (on_left c x r ∷ p)
    | Ordering.gt ↦ descend k r (on_right c l x ∷ p)
  ]

  -- `rbt_query`
  pub query : A → RbTree A → Option A
  query k t = spot_data (descend k t.root [])

  -- `rbt_insert` below a root, at the spot reached: the new node is red, and `num` is raised before
  -- the tree is put right.
  pub insert_at : Bool → A → RbTree A → Spot A → Option (Status × RbTree A)
  insert_at mem d t (here _ _ _ _ _) = some (exist, t)
  insert_at false d t (missing p) = some (err, t)
  insert_at true d t (missing p) = insert_fixup (length p + 3) (node red leaf d leaf) p >>= λ u.
      some (ok, record { num = up64 t.num; root = u })

  -- `rbt_insert`; the flag says whether the allocation succeeds.
  pub insert : Bool → A → RbTree A → Option (Status × RbTree A)
  insert mem d t = elim t.root [
    | leaf ↦ elim mem [
      | true ↦ some (ok, record { num = up64 t.num; root = node black leaf d leaf })
      | false ↦ some (err, t)
    ]
    | node _ _ _ _ ↦ insert_at mem d t (descend d t.root [])
  ]
