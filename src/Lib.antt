-- ===== src/Lib.antt =====
-- cctrl, a C library for servers: containers, queues between threads, memory, logging, sockets, an
-- XML parser and RTMQ, a message queue between processes that is built on them. This library models
-- containers of lib/core that the rest stands on and, of RTMQ, the messages of a connection, and
-- states what each part promises to its callers.
--
-- The parts, and the files that model them (paths from the root of the repository):
--
-- * src/lib/core/ring.c, src/incl/ring.h, the queue of pointers between threads: Ring is `ring_t`
--   with the functions of the same names (creat, mpush, mpop, push, pop; store and load are the
--   loops that copy). Counters are numbers with `% 2 ^ 32` written out. What one thread sees while
--   no other runs is modelled: the compare-and-swap then succeeds at once, and `waits` is the loop
--   that would wait for another thread. Ring/Refine says which queue a ring holds, Ring/Fifo treats
--   one call, Ring/Client sequences of calls. queue.c, thread pools and RTMQ go through this ring.
--   Ring/Threads has `ring_mpush` and `ring_mpop` again as a step relation: any number of threads, a
--   read or write of the shared ring at a time, in any order. Its counters never wrap and the code's
--   tests read their words; Threads/Queue is the queue that the threads see, and a run has a history
--   of what each caller passes and gets. It leaves out calls with `num` 0 and the order in which a
--   processor makes writes visible.
-- * src/lib/core/slot.c, src/incl/slot.h, a pool of blocks over a ring: Slot (fill, filled and
--   with_ring are steps of `slot_creat`), with the laws that Ring/Fifo gives it.
-- * `power2` and `ISPOWEROF2` of src/lib/core/comm.c and src/incl/comm.h, with which the ring
--   rounds its size: Power2.
-- * src/lib/core/avl_tree.c, src/incl/avl_tree.h, the balanced tree: Avl (rotations, insertion,
--   query), Avl/Delete (deletion), Avl/Walk (the walks) and Avl/Calls (sequences of calls). Nodes stand in an inductive tree with
--   their balance factor; a NULL child is `leaf`, and `none` is a NULL pointer followed. The functions
--   return what the C functions write through their pointers: the code, whether the tree grew or
--   shrank, and the new subtree. The comparison callback is a parameter with the laws of a linear
--   order (Prelude/Compare). OrderedSet is the set that the tree stands for.
-- * src/lib/core/rb_tree.c, src/incl/rb_tree.h, the red-black tree: RbTree (query, insertion with
--   `rbt_insert_fixup`) and RbTree/Delete (deletion with `rbt_delete_fixup`). A node pointer is a
--   position, a subtree with its parents up to the root, so `node = parent` is a step along it. The
--   rounds of the two repairs are bounded by the number of parents and a constant. RbTree/Shape says
--   what a red-black tree is, for a tree and for the way up from a position.
-- * src/lib/core/hash_tab.c, src/incl/hash_tab.h, src/incl/lock.h, the hash table: HashTab, an array
--   of the trees of RbTree. The hash is a parameter that gives a number that is not negative; the
--   calls of the locks of a slot are listed in the result. HashTab/Slots counts the nodes of all slots.
-- * src/lib/core/hash_alg.c, the hashes of strings that such a table takes: HashAlg.
-- * src/lib/core/quick_sort.c, the sort by callbacks: QuickSort, on a map from places; the one that exchanges
--   two places is the exchange in that map. The rounds of a pass are bounded by the distance of its
--   ends, and the depth of the calls by the number of elements.
-- * src/lib/core/list.c, src/incl/list.h, the singly linked list: LinkedList, on a memory of nodes
--   by address, where 0 is NULL and `none` is a fault; `num`, an `int`, is its word of 32 bits, and the
--   theorems on pushes take lists of fewer than 2^31 - 1 nodes. `alloc` gives an address, a parameter of the
--   operations. LinkedList/Segment has the chains of nodes,
--   Push, Pop, Find, Remove and Sorted the operations, Bypass what two removals share.
-- * src/lib/core/list2.c, src/incl/list2.h, the circular list that keeps connections and their
--   messages: RingList, its nodes as maps from their addresses, and `num` as in LinkedList. RingList/Path has the chains linked in
--   both directions, Laws and Pops the calls, Deque sequences of calls.
-- * src/lib/core/timer.c, src/incl/timer.h, the heap of timed tasks: Timer. The array and the fields
--   `ttl` and `idx` of the tasks are maps. The lock is held for the whole of each function, so a call
--   is one step. Timer/Up and Timer/Down treat the two loops, Timer/Laws and Timer/Stop the calls.
-- * src/lib/core/vector.c, src/incl/vector.h, the growing array: Vector, with the size of its block in
--   bytes, and `none` for an access outside of it. What `realloc` returns is a parameter.
-- * src/lib/core/iovec.c, src/incl/iovec.h, the buffers that wait to be written: Iovec, as the list of
--   the entries from `iov_idx` on; the reset entries before it are not read.
-- * src/lib/rtmq/server/rtmq_rsvr.c, src/incl/rtmq/rtmq_mesg.h and rtmq_comm.h, a connection of RTMQ:
--   Rtmq/Mesg has the header and its byte orders as bytes in memory, on a little-endian host. Rtmq/Recv is
--   `rtmq_rsvr_recv_proc` with `rtmq_rsvr_data_proc`; the bytes that a socket holds and what each
--   `read` does are arguments. `rtmq_rsvr_sys_mesg_proc` and its handlers are modelled with their tests
--   and what they write into the receive buffer, also behind what was received (`behind` gives the
--   bytes there); what they do elsewhere is a parameter, a record of operations. Rtmq/Recv/Handling says
--   what a handler leaves of the buffer, Loop, Cut and Stream treat the loop, Laws the whole call, Ends
--   its end on any bytes, Overrun a request that is too short. Rtmq/Send is `rtmq_rsvr_wiov_add` and
--   the round of `rtmq_rsvr_trav_send` for a connection. `int len` and `int left` are words of 32 bits. `data_proc` has as fuel two more than the
--   unread bytes: a round passes bytes, or leaves a header in the other byte order, which ends it.
-- * `rtmq_node_to_svr_map_*` of src/lib/rtmq/server/rtmq_comm.c: Rtmq/Routes, over the tree of Avl. An
--   entry is known by its node number: the tree holds the numbers, and the arrays of the entries are
--   a function of them. The random number is an argument.
-- * src/incl/ticket_lock.h, the fair lock: TicketLock, a step relation of threads on the two 16-bit
--   words, with `lock xaddw`, the comparison and `lock incw` as single steps. TicketLock/Line has the
--   line of the threads, Keep the state with it, Steps the steps, Laws the runs. A thread unlocks only what it has locked.
--
-- Prelude has what the modules share: Boolean tests, lists by index, chains of fallible calls, bits,
-- comparisons (Prelude/Compare), arrays as maps with the count of an entry (Prelude/Arrays) and lists
-- of different numbers (Prelude/Distinct).
--
-- Fuel: the loops of list.c run on one more than `num` rounds, as each passes a node, and the loops
-- of timer.c on one more than `len`, as each goes to a parent or to a child; running out is `none`.
-- `data_proc` has the fuel named above. All other loops are by structural recursion.
--
-- Not modelled: the release of whole objects, output and debugging functions of the files above; the
-- other containers (btree.c, trie.c, slab.c, mem_pool.c), the variants in shared memory,
-- and parsers (http.c, uri.c, XML); of RTMQ the rest of the handlers, the threads, its commands between them and the proxy;
-- sockets and logging, which are mostly system calls.
pub mod Prelude
pub mod Power2
pub mod Ring
pub mod OrderedSet
pub mod Avl
pub mod LinkedList
pub mod Timer
pub mod Vector
pub mod Slot
pub mod RbTree
pub mod HashTab
pub mod HashAlg
pub mod QuickSort
pub mod Iovec
pub mod Rtmq
pub mod TicketLock
pub mod RingList
