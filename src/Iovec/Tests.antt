-- ===== src/Iovec/Tests.antt =====
-- `wiov_item_adjust` at two entries, of which the first and a part of the second are written.
use cctrl.Prelude.{◌≤◌, ◌≡◌, refl, true, [], ◌∷◌, ◌++◌, drop}
use cctrl.Iovec.{Wiov, iov_cnt, isempty, addresses, adjust_from, item_adjust}
use cctrl.Iovec.Laws.{pending, HasBytes, item_adjust-pending}

abbrev two : Wiov
two = record {
  iov_max = 4;
  iov_idx = 1;
  items =
      record { addr = 5000; bytes = 1 ∷ 2 ∷ [] }
      ∷ record { addr = 6000; bytes = 3 ∷ 4 ∷ 5 ∷ [] }
      ∷ [];
}

adjusted : item_adjust two 3 ≡ (
  5000 ∷ [],
  record { iov_max = 4; iov_idx = 2; items = record { addr = 6000; bytes = 4 ∷ 5 ∷ [] } ∷ [] },
)
unfolding item_adjust adjust_from
adjusted = refl

item_adjust-pending_example :
    (pending (item_adjust two 3).1.items ≡ drop 3 (1 ∷ 2 ∷ 3 ∷ 4 ∷ 5 ∷ []))
    × ((item_adjust two 3).0 ++ addresses (item_adjust two 3).1.items ≡ 5000 ∷ 6000 ∷ [])
    × (iov_cnt (item_adjust two 3).1 ≤ 3)
    × ((item_adjust two 3).1.iov_max ≡ 4)
    × HasBytes (item_adjust two 3).1.items
    × ((item_adjust two 3).1.items ≡ [] → isempty (item_adjust two 3).1 ≡ true)
item_adjust-pending_example = item_adjust-pending two 3
