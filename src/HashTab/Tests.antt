-- ===== src/HashTab/Tests.antt =====
-- Runs of hash_tab.c, and its theorems at a concrete table of two slots.
use cctrl.Prelude.{ℕ, ◌≡◌, ◌≢◌, refl, true, Option, some, none, List, [], ◌∷◌, ◌++◌, arith, compare}
use cctrl.OrderedSet.{lookup}
use cctrl.RbTree.{Status}
use cctrl.RbTree.Tests.{numbers, five, five-IsValid}
use cctrl.HashTab.{
  HashTab, insert, query, delete, unlock_key, LockCall, read, unlock, rdlock, wrlock,
}
use cctrl.HashTab.Slots.{IsValid, held}
use cctrl.HashTab.Laws.{Inserted, Taken, insert-Inserted, delete-Taken, query-held}

abbrev hash : ℕ → ℕ
hash n = n

abbrev table : HashTab ℕ
table = record { len = 2; total = 10; tree = λ i. five }

table-IsValid : IsValid numbers hash table
table-IsValid = record { slots = omega arith; trees = λ i. five-IsValid; total_is = refl }

insert-Inserted_example :
    (s : Status) × (calls : List LockCall) × (h' : HashTab ℕ) × (insert compare hash true 7 wrlock
        table
      ≡ some (s, calls, h'))
    × Inserted numbers hash true 7 table s h'
insert-Inserted_example =
    insert-Inserted numbers hash (λ a b e. e) true 7 wrlock table table-IsValid (omega arith)

delete-Taken_example :
    (calls : List LockCall) × (h' : HashTab ℕ) × (delete compare hash 3 wrlock table
      ≡ some (held numbers hash table 3, calls, h'))
    × Taken numbers hash 3 table h'
delete-Taken_example =
    delete-Taken numbers hash (λ a b e. e) 3 wrlock table table-IsValid (omega arith)

query-held_example :
    ((query compare hash 3 rdlock table).0 ≡ some 3)
    × ((◌≢◌ {A = Option ℕ} (some 3) none
          → (query compare hash 3 rdlock table).1 ++ unlock_key compare hash 3 rdlock table
            ≡ read 1 ∷ unlock 1 ∷ [])
        × (◌≡◌ {A = Option ℕ} (some 3) none
            → (query compare hash 3 rdlock table).1 ≡ read 1 ∷ unlock 1 ∷ []))
unfolding lookup
query-held_example = query-held numbers hash 3 rdlock table table-IsValid
