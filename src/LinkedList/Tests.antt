-- ===== src/LinkedList/Tests.antt =====
-- Runs of the list of list.c, and its theorems at concrete lists.
use cctrl.Prelude.{
  compare, Ordering, ℕ, ◌≡◌, ◌≢◌, refl, Bool, true, ◌==◌, none, some, List, [], ◌∷◌, ◌++◌, arith,
}
use cctrl.LinkedList.{write, cell, LinkedList, rpush, find_and_del}
use cctrl.LinkedList.Segment.{Entry, Holds, Avoids}
use cctrl.LinkedList.Push.{rpush-Holds}
use cctrl.LinkedList.Find.{find_and_del_dangles}

abbrev nodes : List Entry
nodes = (1, 10) ∷ (2, 20) ∷ (3, 30) ∷ []

abbrev three : LinkedList
three = record {
  num = 3;
  head = 1;
  tail = 3;
  mem = write (write (write (λ a. none) 1 (cell 10 2)) 2 (cell 20 3)) 3 (cell 30 0);
}

abbrev three-Holds : Holds three nodes
three-Holds = record {
  chain = (
    refl,
    (λ e. omega (arith, e)),
    2,
    refl,
    (refl, (λ e. omega (arith, e)), 3, refl, (refl, (λ e. omega (arith, e)), 0, refl, refl)),
  );
  distinct = (
    ((λ e. omega (arith, e)), ((λ e. omega (arith, e)), tt)),
    (((λ e. omega (arith, e)), tt), (tt, tt)),
  );
  num_is = refl;
  tail_is = refl;
}

abbrev is_twenty : ℕ → Bool
is_twenty d = d == 20

abbrev is_thirty : ℕ → Bool
is_thirty d = d == 30

four_fresh : Avoids 4 nodes
four_fresh = ((λ e. omega (arith, e)), ((λ e. omega (arith, e)), ((λ e. omega (arith, e)), tt)))

rpush-Holds_example :
    (l' : LinkedList) × (rpush three 4 40 ≡ some (true, l')) × Holds l' (nodes ++ (4, 40) ∷ [])
rpush-Holds_example =
    rpush-Holds 4 40 (λ e. omega (arith, e)) nodes three-Holds four_fresh (omega arith)

find_and_del_dangles_example :
    (l' : LinkedList) × (find_and_del three is_thirty ≡ some (30, l'))
    × ((b c : ℕ) → b ≢ 0 → rpush l' b c ≡ none)
find_and_del_dangles_example =
    find_and_del_dangles is_thirty ((1, 10) ∷ (2, 20) ∷ []) 3 30 three-Holds
      (record { rejected = (refl, (refl, tt)); accepted = refl }) (λ e. omega (arith, e))

abbrev reversed : ℕ → ℕ → Ordering
reversed c d = compare d c
