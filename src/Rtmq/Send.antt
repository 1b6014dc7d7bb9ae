-- ===== src/Rtmq/Send.antt =====
-- lib/rtmq/server/rtmq_rsvr.c: how a receiving thread writes the messages that wait for a connection.
pub mod Laws
use cctrl.Prelude.{
  ℕ, zero, suc, ◌+◌, ◌%◌, ◌^◌, min, Bool, true, false, ltb, if◌then◌else◌, Option, none, some,
  ◌>>=◌, List, [], ◌∷◌, ◌++◌, length, take,
}
use cctrl.Iovec.{Item, Wiov, isempty, isfull, item_add, item_adjust}
use cctrl.Iovec.Laws.{pending}
use cctrl.Rtmq.Mesg.{Mesg, head_size, chksum_isvalid, wire}

-- A message in the list of those to send: its address and what stands there.
pub record Outgoing : Type 0 where
  pub addr : ℕ
  pub mesg : Mesg

-- The fields of `rtmq_sck_t` that sending uses: `mesg_list` and `send`.
pub record Sender : Type 0 where
  pub mesg_list : List Outgoing
  pub send : Wiov

-- The word of `int len`, the length of a message with its header.
abbrev pub entry_len : Outgoing → ℕ
entry_len x = (head_size + x.mesg.head.len) % 2 ^ 32

-- The entry for a message, after the conversion of its header in place.
abbrev pub entry : Outgoing → Item
entry x = record { addr = x.addr; bytes = take (entry_len x) (wire x.mesg) }

-- `rtmq_rsvr_wiov_add`: what is left of the list, and the buffers. `none` is `assert(0)`, or a `len`
-- that is negative: as a `size_t` it is above 2^63, and `writev` fails whenever it is given the entry.
pub wiov_add : List Outgoing → Wiov → Option (List Outgoing × Wiov)
wiov_add [] w = some ([], w)
wiov_add (x ∷ xs) w =
    let rest = wiov_add xs (item_add w (entry x)) in
    if isfull w
    then some (x ∷ xs, w)
    else (if chksum_isvalid x.mesg.head
        then (if ltb (entry_len x) (2 ^ 31) then rest else none)
        else none)

-- What becomes of a socket that can be written to: the addresses handed to the callbacks and the bytes
-- written, or the end of the connection.
pub data Sent : Type 0 where
  sends : (freed bytes : List ℕ) → Sender → Sent
  drops : Sent

-- The body of the loop of `rtmq_rsvr_trav_send` for one socket. `writev` fails, or writes some of the
-- bytes that it is given.
pub send_proc : Option ℕ → Sender → Option Sent
send_proc write s =
    (if isfull s.send then some (s.mesg_list, s.send) else wiov_add s.mesg_list s.send) >>= λ r.
    if isempty r.1
    then some (sends [] [] (record { mesg_list = r.0; send = r.1 }))
    else elim write [
      | none ↦ some drops
      | some most ↦
          let n = min most (length (pending r.1.items)) in
          let adjusted = item_adjust r.1 n in
          some (
            sends adjusted.0 (take n (pending r.1.items))
              (record { mesg_list = r.0; send = adjusted.1 }))
    ]

-- Rounds of sending, with what `writev` does in each; the bytes written, and what is left.
pub send_all : List ℕ → Sender → Option (List ℕ × Sender)
send_all [] s = some ([], s)
send_all (most ∷ ws) s = elim (send_proc (some most) s) [
  | some (sends freed bytes t) ↦ send_all ws t >>= λ r. some (bytes ++ r.0, r.1)
  | some drops ↦ none
  | none ↦ none
]
