-- ===== src/RbTree/Tests.antt =====
-- Runs of rb_tree.c, and its theorems at concrete trees of numbers.
use cctrl.Prelude.{ℕ, ◌≡◌, refl, true, Option, some, none, List, [], ◌∷◌, arith, compare}
use cctrl.Prelude.Compare.{Ranked}
use cctrl.RbTree.{
  red, black, leaf, node, RbTree, Status, creat, insert, insert_at, insert_fixup, with_parent,
  with_grandparent, round, left_rotate, right_rotate, descend,
}
use cctrl.RbTree.Correct.{IsValid, Added, insert-Added}

abbrev pub numbers : Ranked {A = ℕ} compare
numbers = record { rank = λ n. n; agrees = λ a b. refl }

abbrev inserted : Option (Status × RbTree ℕ) → RbTree ℕ
inserted none = creat
inserted (some (s, t)) = t

abbrev insert_all : List ℕ → RbTree ℕ → RbTree ℕ
insert_all [] t = t
insert_all (x ∷ xs) t = insert_all xs (inserted (insert compare true x t))

-- Ascending insertions turn and recolor the tree.
ascending : insert_all (1 ∷ 2 ∷ 3 ∷ 4 ∷ 5 ∷ []) creat ≡ record {
  num = 5;
  root =
      node black
        (node black leaf 1 leaf)
        2
        (node black (node red leaf 3 leaf) 4 (node red leaf 5 leaf));
}
unfolding insert insert_at insert_fixup with_parent with_grandparent round left_rotate right_rotate
    descend creat
ascending = refl

abbrev pub five : RbTree ℕ
five = record {
  num = 5;
  root =
      node black (node black leaf 1 leaf) 2
        (node black (node red leaf 3 leaf) 4 (node red leaf 5 leaf));
}

pub five-IsValid : IsValid numbers five
five-IsValid = record {
  rb = record {
    root_black = refl;
    height = 2;
    valid = ((refl, refl), ((refl, refl, refl, refl), (refl, refl, refl, refl)));
  };
  sorted = omega arith;
  counted = refl;
}

insert-Added_example :
    (s : Status) × (t : RbTree ℕ) × (insert compare true 6 five ≡ some (s, t))
    × Added numbers true 6 five s t
insert-Added_example = insert-Added numbers true 6 five five-IsValid (omega arith)
