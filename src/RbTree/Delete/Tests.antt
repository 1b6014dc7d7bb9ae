-- ===== src/RbTree/Delete/Tests.antt =====
-- Deletions of rb_tree.c, and its theorem at a concrete tree of numbers.
use cctrl.Prelude.{ℕ, ◌≡◌, refl, some, [], ◌∷◌, arith, compare}
use cctrl.OrderedSet.{lookup, remove}
use cctrl.RbTree.{red, black, leaf, node, RbTree, descend, left_rotate}
use cctrl.RbTree.Shape.{to_list}
use cctrl.RbTree.Correct.{IsValid}
use cctrl.RbTree.Delete.{
  delete, delete_at, delete_here, unhook, delete_fixup, with_brother, even_out, even_left,
  turn_left,
}
use cctrl.RbTree.Delete.Laws.{delete-remove}
use cctrl.RbTree.Tests.{numbers, five, five-IsValid}

-- The way to the left is one black node short: the tree is turned to the left.
deleted :
    delete compare 1 five
    ≡ some (
      some 1,
      record {
        num = 4;
        root = node black (node black leaf 2 (node red leaf 3 leaf)) 4 (node black leaf 5 leaf);
      },
    )
unfolding delete delete_at delete_here unhook delete_fixup with_brother even_out even_left turn_left
    descend left_rotate
deleted = refl

delete-remove_example :
    (t : RbTree ℕ) × (delete compare 2 five ≡ some (lookup compare 2 (1 ∷ 2 ∷ 3 ∷ 4 ∷ 5 ∷ []), t))
    × IsValid numbers t
    × (to_list t.root ≡ remove compare 2 (1 ∷ 2 ∷ 3 ∷ 4 ∷ 5 ∷ []))
delete-remove_example = delete-remove numbers 2 five five-IsValid (omega arith)
