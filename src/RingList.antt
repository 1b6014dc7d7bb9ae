-- ===== src/RingList.antt =====
-- lib/core/list2.c and incl/list2.h: the circular doubly linked list. The fields of the nodes are maps
-- from their addresses, 0 is NULL, and `alloc` gives an address, an argument of the operations. A node
-- that was given back keeps its fields, so a use of one is not told apart.
mod Path
pub mod Laws
pub mod Pops
pub mod Deque
mod Tests
use cctrl.Prelude.{ℕ, ◌+◌, ◌-◌, ◌%◌, ◌^◌, Bool, true, false, ◌==◌, if◌then◌else◌}
use cctrl.Prelude.Arrays.{put}

-- `list2_t` with its nodes, `list2_node_t`. `num` is an `int`, kept as the 32 bits of its word; the
-- functions never lower it when it is 0, since a list that counts its nodes is then empty.
pub record RingList : Type 0 where
  pub num : ℕ
  pub head : ℕ
  pub data_of : ℕ → ℕ
  pub prev : ℕ → ℕ
  pub next : ℕ → ℕ

-- `++list->num`
abbrev pub num_up : ℕ → ℕ
num_up n = (n + 1) % 2 ^ 32

-- The list of the first node.
abbrev pub alone : RingList → ℕ → ℕ → RingList
alone l node item = record {
  num = 1;
  head = node;
  data_of = put l.data_of node item;
  prev = put l.prev node node;
  next = put l.next node node;
}

-- `list2_lpush`
unfoldable pub lpush : RingList → ℕ → ℕ → Bool × RingList
lpush l node item =
    if node == 0
    then (false, l)
    else (if l.head == 0 then (true, alone l node item) else (
      true,
      record {
        num = num_up l.num;
        head = node;
        data_of = put l.data_of node item;
        prev = put (put l.prev l.head node) node (l.prev l.head);
        next = put (put l.next node l.head) (l.prev l.head) node;
      },
    ))

-- `list2_rpush`
unfoldable pub rpush : RingList → ℕ → ℕ → Bool × RingList
rpush l node item =
    if node == 0
    then (false, l)
    else (if l.head == 0 then (true, alone l node item) else (
      true,
      record {
        num = num_up l.num;
        head = l.head;
        data_of = put l.data_of node item;
        prev = put (put l.prev node (l.prev l.head)) l.head node;
        next = put (put l.next (l.prev l.head) node) node l.head;
      },
    ))

-- `list2_lpop`
unfoldable pub lpop : RingList → ℕ × RingList
lpop l =
    let tail = l.prev l.head in
    if l.head == 0
    then (0, l)
    else (if l.head == tail then (l.data_of tail, record l { num = 0; head = 0 }) else (
      l.data_of l.head,
      record l {
        num = l.num - 1;
        head = l.next l.head;
        prev = put l.prev (l.next l.head) tail;
        next = put l.next tail (l.next l.head);
      },
    ))

-- `list2_rpop`
unfoldable pub rpop : RingList → ℕ × RingList
rpop l =
    let tail = l.prev l.head in
    let prev = l.prev tail in
    if l.head == 0
    then (0, l)
    else (if l.head == tail then (l.data_of tail, record l { num = 0; head = 0 }) else (
      l.data_of tail,
      record l { num = l.num - 1; prev = put l.prev l.head prev; next = put l.next prev l.head },
    ))

-- `list2_roll`
unfoldable pub roll : RingList → ℕ × RingList
roll l = if l.head == 0 then (0, l) else (l.data_of l.head, record l { head = l.next l.head })
