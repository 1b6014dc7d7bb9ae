-- ===== src/Rtmq/Routes.antt =====
-- lib/rtmq/server/rtmq_comm.c: the map from the number of a node to the receiving threads that have a
-- connection to it. Each function holds the lock of the map for the whole of its work, so a call is
-- one step. Node numbers are not negative, so their difference is in the range of an `int`.

mod Drop
pub mod Laws
pub mod Removal
mod Tests
use cctrl.Prelude.{
  ℕ, ◌+◌, ◌%◌, Bool, true, false, ◌==◌, ltb, if◌then◌else◌, Option, none, some, ◌>>=◌, List, [],
  ◌∷◌, ◌++◌, length, compare, get_or,
}
use cctrl.Avl.{Status, ok, err, exist, AvlTree, creat, insert, query}
use cctrl.Avl.Delete.{delete}

-- `RTRD_NODE_TO_SVR_MAX_LEN`
abbrev pub max_len : ℕ
max_len = 32

-- The map: the tree holds an entry for each node number in it, and `rsvr_id` is the used part of that
-- entry's array, whose length is `num`.
pub record Routes : Type 0 where
  pub tree : AvlTree ℕ
  pub rsvr_id : ℕ → List ℕ

abbrev pub set_ids : (ℕ → List ℕ) → ℕ → List ℕ → ℕ → List ℕ
set_ids f nid ids n = if nid == n then ids else f n

-- `rtmq_node_to_svr_map_init`, when there is memory; the entries do not exist yet.
abbrev pub map_init : Routes
map_init = record { tree = creat; rsvr_id = λ n. [] }

-- The end of `rtmq_node_to_svr_map_add`, for an entry that is there.
abbrev pub put_id : ℕ → ℕ → Routes → Bool × Routes
put_id nid id r =
    if ltb (length (r.rsvr_id nid)) max_len
    then (true, record r { rsvr_id = set_ids r.rsvr_id nid (r.rsvr_id nid ++ id ∷ []) })
    else (false, r)

-- After `avl_insert` of a new entry.
abbrev pub inserted : ℕ → ℕ → Routes → Status × AvlTree ℕ → Bool × Routes
inserted nid id r (ok, t) = put_id nid id (record { tree = t; rsvr_id = set_ids r.rsvr_id nid [] })
inserted nid id r (_, t) = (false, record r { tree = t })

-- `rtmq_node_to_svr_map_add`: true is `RTMQ_OK`. The flags say whether there is memory for the entry
-- and for its node in the tree.
unfoldable pub map_add : Bool → Bool → ℕ → ℕ → Routes → Option (Bool × Routes)
map_add mem node_mem nid id r = elim (query compare nid r.tree.root) [
  | some k ↦ some (put_id nid id r)
  | none ↦
      if mem
      then (insert compare node_mem nid r.tree >>= λ q. some (inserted nid id r q))
      else some (false, r)
]

abbrev pub last_of : ℕ → List ℕ → ℕ
last_of x [] = x
last_of x (y ∷ ys) = last_of y ys

abbrev pub but_last : ℕ → List ℕ → List ℕ
but_last x [] = []
but_last x (y ∷ ys) = x ∷ but_last y ys

-- What is behind a freed place, with the last one in that place.
abbrev pub filled : List ℕ → List ℕ
filled [] = []
filled (y ∷ ys) = last_of y ys ∷ but_last y ys

-- The loop of `rtmq_node_to_svr_map_del`.
abbrev pub drop_id : ℕ → List ℕ → List ℕ
drop_id id [] = []
drop_id id (x ∷ xs) = if x == id then filled xs else x ∷ drop_id id xs

-- Whether the loop has dropped one, and none is left.
abbrev pub emptied : List ℕ → List ℕ → Bool
emptied [] ids = false
emptied (x ∷ xs) ids = length ids == 0

-- `rtmq_node_to_svr_map_del`
unfoldable pub map_del : ℕ → ℕ → Routes → Option (Bool × Routes)
map_del nid id r = elim (query compare nid r.tree.root) [
  | none ↦ some (false, r)
  | some k ↦
      let ids = drop_id id (r.rsvr_id nid) in
      let r' = record r { rsvr_id = set_ids r.rsvr_id nid ids } in
      if emptied (r.rsvr_id nid) ids
      then (delete compare nid r'.tree >>= λ q. some (true, record r' { tree = q.1 }))
      else some (true, r')
]

-- `rtmq_node_to_svr_map_rand`; `none` inside is -1, and outside the division by 0.
unfoldable pub map_rand : ℕ → ℕ → Routes → Option (Option ℕ)
map_rand random nid r = elim (query compare nid r.tree.root) [
  | none ↦ some none
  | some k ↦
      if length (r.rsvr_id nid) == 0
      then none
      else some (some (get_or (r.rsvr_id nid) (random % length (r.rsvr_id nid)) 0))
]
