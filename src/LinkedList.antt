-- ===== src/LinkedList.antt =====
-- lib/core/list.c and incl/list.h: the singly linked list, on an explicit memory of nodes.
-- An address is a number, and 0 is NULL. `none` is a fault: a pointer followed that leads to no
-- allocated node, or a loop that has gone through more nodes than `num`.
pub mod Segment
pub mod Push
pub mod Pop
pub mod Bypass
pub mod Find
pub mod Remove
pub mod Sorted
mod Tests
use cctrl.Prelude.{
  ℕ, zero, suc, ◌+◌, ◌-◌, ◌%◌, ◌^◌, Bool, true, false, ◌==◌, leb, if◌then◌else◌, Option, none, some,
  ◌>>=◌, Ordering,
}

-- `list_node_t`; a data pointer is a number too.
pub record Node : Type 0 where
  pub item : ℕ
  pub next : ℕ

abbrev pub Memory : Type 0
Memory = ℕ → Option Node

-- Memory with the node at `a` written, allocated, or (with `none`) released.
abbrev pub write : Memory → ℕ → Option Node → Memory
write m a v b = if a == b then v else m b

abbrev pub cell : ℕ → ℕ → Option Node
cell d n = some (record { item = d; next = n })

-- `list_t` and the memory its nodes stand in. `num` is an `int`, kept as the 32 bits of its word; the
-- functions never lower it when it is 0, since a list that counts its nodes is then empty.
pub record LinkedList : Type 0 where
  pub num : ℕ
  pub head : ℕ
  pub tail : ℕ
  pub mem : Memory

-- `++list->num`
abbrev pub num_up : ℕ → ℕ
num_up n = (n + 1) % 2 ^ 32

-- `list_creat`, when its allocation succeeds.
pub creat : Memory → LinkedList
creat m = record { num = 0; head = 0; tail = 0; mem = m }

-- `list_lpush`; `a` is what `alloc` returns, and the flag is whether 0 is returned.
pub lpush : LinkedList → ℕ → ℕ → Option (Bool × LinkedList)
lpush l a d =
    if a == 0
    then some (false, l)
    else if l.head == 0
    then some (true, record { num = 1; head = a; tail = a; mem = write l.mem a (cell d 0) })
    else some (true, record l { num = num_up l.num; head = a; mem = write l.mem a (cell d l.head) })

-- `list_rpush`
pub rpush : LinkedList → ℕ → ℕ → Option (Bool × LinkedList)
rpush l a d =
    if a == 0
    then some (false, l)
    else if l.tail == 0
    then some (true, record { num = 1; head = a; tail = a; mem = write l.mem a (cell d 0) })
    else (l.mem l.tail >>= λ t. some (
      true,
      record l {
        num = num_up l.num;
        tail = a;
        mem = write (write l.mem l.tail (cell t.item a)) a (cell d 0);
      },
    ))

-- `list_insert`
pub insert : LinkedList → ℕ → ℕ → ℕ → Option (Bool × LinkedList)
insert l prev a d =
    if prev == 0
    then lpush l a d
    else if l.tail == prev
    then rpush l a d
    else if a == 0
    then some (false, l)
    else (l.mem prev >>= λ p. some (
      true,
      record l {
        num = num_up l.num;
        mem = write (write l.mem a (cell d p.next)) prev (cell p.item a);
      },
    ))

-- `list_lpop`: the data of the first node, or NULL.
pub lpop : LinkedList → Option (ℕ × LinkedList)
lpop l =
    if l.head == 0
    then some (0, l)
    else (l.mem l.head >>= λ h.
        if l.head == l.tail
        then some (h.item, record { num = 0; head = 0; tail = 0; mem = write l.mem l.head none })
        else some
            (h.item, record l { num = l.num - 1; head = h.next; mem = write l.mem l.head none }))

-- The loop of `list_rpop`: the node whose successor is the tail.
pub before_tail : ℕ → Memory → ℕ → ℕ → Option ℕ
before_tail zero m tail prev = none
before_tail (suc fuel) m tail prev = m prev >>= λ p.
    let rest = before_tail fuel m tail p.next in if p.next == tail then some prev else rest

-- `list_rpop`: the data of the last node, or NULL.
pub rpop : LinkedList → Option (ℕ × LinkedList)
rpop l =
    if l.head == 0
    then some (0, l)
    else if l.head == l.tail
    then (l.mem l.tail >>= λ t.
        some (t.item, record { num = 0; head = 0; tail = 0; mem = write l.mem l.tail none }))
    else (before_tail (suc l.num) l.mem l.tail l.head >>= λ prev. l.mem prev >>= λ p.
        l.mem l.tail >>= λ t. some (
          t.item,
          record l {
            num = l.num - 1;
            tail = prev;
            mem = write (write l.mem prev (cell p.item 0)) l.tail none;
          },
        ))

-- The loop of `list_trav` and `list_find`: the data of the first node that the callback accepts.
pub find_from : ℕ → (ℕ → Bool) → Memory → ℕ → Option ℕ
find_from zero cb m node = none
find_from (suc fuel) cb m node =
    if node == 0
    then some 0
    else (m node >>= λ n.
        let rest = find_from fuel cb m n.next in if cb n.item then some n.item else rest)

-- `list_find`: NULL if no node is accepted.
pub find : LinkedList → (ℕ → Bool) → Option ℕ
find l cb = find_from (suc l.num) cb l.mem l.head

-- The removal of `node`, behind `prev`, in `list_find_and_del`.
pub unlink : LinkedList → ℕ → ℕ → Node → Option LinkedList
unlink l prev node n =
    if l.num - 1 == 0
    then some (record l { num = 0; head = 0; mem = write l.mem node none })
    else let head = if node == l.head then n.next else l.head in
      if prev == 0
      then some (record l { num = l.num - 1; head = head; mem = write l.mem node none })
      else (l.mem prev >>= λ p. some (record l {
        num = l.num - 1;
        head = head;
        mem = write (write l.mem prev (cell p.item n.next)) node none;
      }))

del_from : ℕ → (ℕ → Bool) → LinkedList → ℕ → ℕ → Option (ℕ × LinkedList)
del_from zero cb l prev node = none
del_from (suc fuel) cb l prev node =
    if node == 0
    then some (0, l)
    else (l.mem node >>= λ n.
        let rest = del_from fuel cb l node n.next in
        if cb n.item then (unlink l prev node n >>= λ l'. some (n.item, l')) else rest)

-- `list_find_and_del`: the data of the first node accepted, or NULL.
pub find_and_del : LinkedList → (ℕ → Bool) → Option (ℕ × LinkedList)
find_and_del l cb = del_from (suc l.num) cb l 0 l.head
