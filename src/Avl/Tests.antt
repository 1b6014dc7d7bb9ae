-- ===== src/Avl/Tests.antt =====
-- Runs of avl_tree.c, and its theorems at concrete trees of numbers.
use cctrl.Prelude.{
  ℕ, ◌+◌, ◌/◌, ◌^◌, ◌≤◌, ◌≡◌, refl, true, false, some, List, [], ◌∷◌, arith, compare,
}
use cctrl.Prelude.Compare.{Ranked}
use cctrl.OrderedSet.{lookup, remove}
use cctrl.Avl.{
  eh, rh, leaf, node, Status, ok, AvlTree, creat, insert, insert_root, insert_below, counted, query,
  left_grown, right_grown, right_balance, rl_balance, new_node,
}
use cctrl.Avl.Shape.{to_list}
use cctrl.Avl.Correct.{IsValid, Added, insert_correct, query_correct}
use cctrl.Avl.Delete.{delete}
use cctrl.Avl.Delete.Laws.{delete_correct}
use cctrl.Avl.Calls.{Call, inserts, deletes, run, rounds, run-rounds}

abbrev numbers : Ranked {A = ℕ} compare
numbers = record { rank = λ n. n; agrees = λ a b. refl }

-- 10 with 30 on its right: 20 turns the tree twice.
abbrev bent : AvlTree ℕ
bent = record { num = 2; root = node rh leaf 10 (node eh leaf 30 leaf) }

abbrev three : AvlTree ℕ
three = record { num = 3; root = node eh (node eh leaf 10 leaf) 20 (node eh leaf 30 leaf) }

bent-IsValid : IsValid numbers bent
bent-IsValid = record { balanced = omega arith; sorted = omega arith; counted_right = refl }

three-IsValid : IsValid numbers three
three-IsValid = record { balanced = omega arith; sorted = omega arith; counted_right = refl }

turned_twice : insert compare true 20 bent ≡ some (ok, three)
unfolding insert insert_root insert_below counted left_grown right_grown right_balance rl_balance
    new_node
turned_twice = refl

insert_correct_example :
    (s : Status) × (t : AvlTree ℕ) × (insert compare true 20 bent ≡ some (s, t))
    × Added numbers true 20 bent s t
insert_correct_example = insert_correct numbers true 20 bent bent-IsValid (omega arith)

delete_correct_example :
    (t : AvlTree ℕ) × (delete compare 20 three ≡ some (lookup compare 20 (10 ∷ 20 ∷ 30 ∷ []), t))
    × IsValid numbers t
    × (to_list t.root ≡ remove compare 20 (10 ∷ 20 ∷ 30 ∷ []))
delete_correct_example = delete_correct numbers 20 three three-IsValid (omega arith)

query_correct_example : query compare 30 three.root ≡ lookup compare 30 (10 ∷ 20 ∷ 30 ∷ [])
query_correct_example = query_correct numbers 30 three.root three-IsValid.sorted

abbrev some_calls : List (Call ℕ)
some_calls =
    inserts true 10 ∷ inserts true 30 ∷ inserts true 20 ∷ inserts false 40 ∷ deletes 30 ∷ []

run-rounds_example :
    (t : AvlTree ℕ) × (run compare some_calls creat ≡ some t)
    × IsValid numbers t
    × ((k : ℕ) → 2 ^ (rounds compare k t.root / 2) ≤ t.num + 1)
run-rounds_example = run-rounds numbers some_calls (omega arith)
