-- ===== src/Iovec.antt =====
-- lib/core/iovec.c and incl/iovec.h: buffers that wait to be written to a socket in one call. Of the
-- arrays `iov` and `orig` the entries from `iov_idx` on are kept; those before are reset and not read.
pub mod Laws
mod Tests
use cctrl.Prelude.{
  ℕ, zero, suc, ◌+◌, ◌-◌, Bool, ◌==◌, leb, if◌then◌else◌, Option, none, some, List, [], ◌∷◌, ◌++◌,
  length, drop, true, false,
}

-- An entry: the address that goes to the callbacks, and the bytes that are left to write.
pub record Item : Type 0 where
  pub addr : ℕ
  pub bytes : List ℕ

-- `wiov_t`
pub record Wiov : Type 0 where
  pub iov_max : ℕ
  pub iov_idx : ℕ
  pub items : List Item

abbrev pub iov_cnt : Wiov → ℕ
iov_cnt w = w.iov_idx + length w.items

-- `wiov_init`, when both allocations succeed; 1024 is `IOV_MAX`.
unfoldable pub init : ℕ → Wiov
init max = record { iov_max = if leb max 1024 then max else 1024; iov_idx = 0; items = [] }

-- `wiov_isempty` and `wiov_isfull`
abbrev pub isempty : Wiov → Bool
isempty w = 0 == iov_cnt w

abbrev pub isfull : Wiov → Bool
isfull w = w.iov_max == iov_cnt w

-- `wiov_item_add`
abbrev pub item_add : Wiov → Item → Wiov
item_add w x = record w { items = w.items ++ x ∷ [] }

-- The loop of `wiov_item_adjust`: the addresses given to `succ`, the index and the entries left.
pub adjust_from : ℕ → ℕ → ℕ → List Item → List ℕ × ℕ × List Item
adjust_from n len idx [] = ([], idx, [])
adjust_from n len idx (x ∷ xs) =
    let r = adjust_from n (len + length x.bytes) (idx + 1) xs in
    if leb (len + length x.bytes) n
    then (x.addr ∷ r.0, r.1, r.2)
    else ([], idx, record x { bytes = drop (n - len) x.bytes } ∷ xs)

-- `wiov_item_adjust` after `n` bytes were written.
pub item_adjust : Wiov → ℕ → List ℕ × Wiov
item_adjust w n =
    let (freed, idx, left) = adjust_from n 0 w.iov_idx w.items in
    (
      freed,
      (if idx == iov_cnt w
          then record w { iov_idx = 0; items = [] }
          else record w { iov_idx = idx; items = left }),
    )

abbrev pub addresses : List Item → List ℕ
addresses [] = []
addresses (x ∷ xs) = x.addr ∷ addresses xs

-- `wiov_clean`: the addresses given to `fail`.
pub clean : Wiov → List ℕ × Wiov
clean w = (addresses w.items, record w { iov_idx = 0; items = [] })
