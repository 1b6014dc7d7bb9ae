-- ===== src/Rtmq/Recv.antt =====
-- lib/rtmq/server/rtmq_rsvr.c: how a receiving thread cuts what it reads from a socket into messages.
-- `rtmq_rsvr_sys_mesg_proc` is modelled with what its handlers write into the receive buffer; what they
-- do elsewhere is a parameter, the interface `Handler`. In a snapshot an address is an offset from
-- `base`.
mod Handling
pub mod Overrun
pub mod Loop
mod Cut
pub mod Stream
pub mod Laws
pub mod Ends
use cctrl.Prelude.{
  ℕ, zero, suc, ◌+◌, ◌-◌, ◌%◌, ◌^◌, min, Bool, true, false, ◌==◌, ltb, leb, if◌then◌else◌, Option,
  none, some, List, [], ◌∷◌, ◌++◌, length, take, drop,
}
use cctrl.Rtmq.Mesg.{
  Header, Mesg, head_size, chksum_isvalid, word_at, head_at, head_ntoh, swap_words,
}

-- `rtmq_snap_t`; `unread` is the memory from `optr` to `iptr`, and `end` is `size`.
pub record Snap : Type 0 where
  pub size : ℕ
  pub optr : ℕ
  pub unread : List ℕ

abbrev pub iptr : Snap → ℕ
iptr sn = sn.optr + length sn.unread

-- `rtmq_snap_setup`
abbrev pub setup : ℕ → Snap
setup size = record { size = size; optr = 0; unread = [] }

-- What the handlers do on the state `S`, besides what they write into the receive buffer. A flag says
-- that a handler fails. `behind` gives the bytes that stand in memory behind `iptr`. `link_auth` is what
-- `rtmq_rsvr_link_auth_req_hdl` does after the conversion of its request, and `sub_add` the same of
-- `rtmq_rsvr_sub_req_hdl`; they get the header and the bytes of the request. `keepalive_rsp` is
-- `rtmq_rsvr_keepalive_req_hdl` from the allocation on.
pub record Handler {ℓ} (S : Type ℓ) : Type ℓ where
  pub auth_succ : S → Bool
  pub behind : S → ℕ → ℕ
  pub link_auth : S → Header → List ℕ → Bool × S
  pub sub_add : S → Header → List ℕ → Bool × S
  pub keepalive_rsp : S → Bool × S
  pub exp_mesg_proc : S → Mesg → S
  pub count_error : S → S

-- How a call ends: `RTMQ_OK`, `RTMQ_ERR` or `assert(0)`.
pub data Outcome {ℓ} (S : Type ℓ) : Type ℓ where
  ok : Snap → S → Outcome S
  err : S → Outcome S
  aborts : Outcome S

-- `rtmq_rsvr_switch_recv_buff`; the flag says whether there is memory.
abbrev pub switch_recv_buff {ℓ} : {S : Type ℓ} → Bool → Snap → S → Outcome S
switch_recv_buff true sn s = ok (record sn { optr = 0 }) s
switch_recv_buff false sn s = err s

-- The branch for less than a message.
abbrev pub stall {ℓ} : {S : Type ℓ} → Bool → Snap → S → Outcome S
stall memory sn s =
    if iptr sn == sn.size
    then (if ltb sn.optr (sn.size - iptr sn) then err s else switch_recv_buff memory sn s)
    else ok sn s

-- The header of the next message in the host's byte order, and the length of the message in 32 bits.
abbrev pub next_head : Snap → Header
next_head sn = head_at (head_ntoh sn.unread)

abbrev pub one_mesg_len : Snap → ℕ
one_mesg_len sn = (head_size + (next_head sn).len) % 2 ^ 32

-- The memory behind the next header, up to `iptr`.
abbrev pub next_body : Snap → List ℕ
next_body sn = drop head_size (head_ntoh sn.unread)

-- `optr` moves on; `body` is what the handler has left behind the header.
abbrev pub pass_mesg : Snap → List ℕ → Snap
pass_mesg sn body = record sn {
  optr = sn.optr + one_mesg_len sn;
  unread = drop (one_mesg_len sn) (take head_size (head_ntoh sn.unread) ++ body);
}

-- `RTMQ_CMD_AUTH_REQ`, `RTMQ_CMD_KPALIVE_REQ` and `RTMQ_CMD_SUB_REQ`, and the sizes of
-- `rtmq_link_auth_req_t` and `rtmq_sub_req_t`.
abbrev pub auth_req : ℕ
auth_req = 1

abbrev pub kpalive_req : ℕ
kpalive_req = 3

abbrev pub sub_req : ℕ
sub_req = 5

abbrev pub auth_size : ℕ
auth_size = 52

abbrev pub sub_size : ℕ
sub_size = 4

-- The first bytes of a memory, of which those behind `iptr` are given by a function.
unfoldable pub window : ℕ → List ℕ → (ℕ → ℕ) → List ℕ
window zero m f = []
window (suc n) [] f = f 0 % 256 ∷ window n [] (λ i. f (suc i))
window (suc n) (b ∷ m) f = b ∷ window n m f

-- `RTMQ_AUTH_REQ_NTOH` and `RTMQ_SUB_REQ_NTOH`: the word behind the header is reversed in place, also
-- when `iptr` is before its end. What this leaves before `iptr`.
unfoldable pub swap_first : (ℕ → ℕ) → List ℕ → List ℕ
swap_first f [] = []
swap_first f (a ∷ []) = f 2 % 256 ∷ []
swap_first f (a ∷ b ∷ []) = f 1 % 256 ∷ f 0 % 256 ∷ []
swap_first f (a ∷ b ∷ c ∷ []) = f 0 % 256 ∷ c ∷ b ∷ []
swap_first f (a ∷ b ∷ c ∷ d ∷ m) = d ∷ c ∷ b ∷ a ∷ m

-- A message is handled, or the connection has failed.
pub data Served {ℓ} (S : Type ℓ) : Type ℓ where
  all_well failed : S → Served S

-- What a handler gives, with whether it fails.
abbrev pub served_by {ℓ} : {S : Type ℓ} → Bool × S × List ℕ → Served S × List ℕ
served_by r = elim (r.0) [ true ↦ (failed r.1, r.2) | false ↦ (all_well r.1, r.2) ]

-- What is found at `optr`.
pub data Found : Type 0 where
  invalid part whole : Found

abbrev pub find_mesg : Snap → Found
find_mesg sn =
    let len = length sn.unread % 2 ^ 32 in
    if ltb len head_size
    then part
    else (if chksum_isvalid (next_head sn)
        then (if ltb len (one_mesg_len sn) then part else whole)
        else invalid)

module _ {ℓ} {S : Type ℓ} (h : Handler S) where
  -- `rtmq_rsvr_link_auth_req_hdl` with the memory behind the header. The test of the group comes before
  -- its conversion.
  abbrev pub link_auth_req_hdl : S → Header → List ℕ → Bool × S × List ℕ
  link_auth_req_hdl s head body =
      let r = h.link_auth s head (swap_words 1 (window auth_size body (h.behind s))) in
      if word_at (window 4 body (h.behind s)) == 0
      then (true, s, body)
      else (r.0, r.1, swap_first (h.behind s) body)

  -- `rtmq_rsvr_sub_req_hdl`
  abbrev pub sub_req_hdl : S → Header → List ℕ → Bool × S × List ℕ
  sub_req_hdl s head body =
      let r = h.sub_add s head (swap_words 1 (window sub_size body (h.behind s))) in
      if h.auth_succ s then (r.0, r.1, swap_first (h.behind s) body) else (true, s, body)

  -- `rtmq_rsvr_keepalive_req_hdl`
  abbrev pub keepalive_req_hdl : S → List ℕ → Bool × S × List ℕ
  keepalive_req_hdl s body =
      let r = h.keepalive_rsp s in if h.auth_succ s then (r.0, r.1, body) else (true, s, body)

  -- `rtmq_rsvr_sys_mesg_proc`: whether it fails, the state, and the memory behind the header.
  abbrev pub sys_mesg_proc : S → Header → List ℕ → Bool × S × List ℕ
  sys_mesg_proc s head body =
      if head.kind == auth_req
      then link_auth_req_hdl s head body
      else (if head.kind == sub_req
          then sub_req_hdl s head body
          else (if head.kind == kpalive_req then keepalive_req_hdl s body else (true, s, body)))

  -- The calls of the handlers.
  unfoldable pub handle : S → Header → List ℕ → Bool × S × List ℕ
  handle s head body =
      if head.flag == 0
      then sys_mesg_proc s head body
      else (false, h.exp_mesg_proc s (record { head = head; body = take head.len body }), body)

  -- What becomes of a message, by its converted header and the memory behind it.
  unfoldable pub take_mesg : S → Header → List ℕ → Served S × List ℕ
  take_mesg s head body = elim (chksum_isvalid head) [
    | false ↦ (failed (h.count_error s), body)
    | true ↦ served_by (handle s head body)
  ]

  -- `rtmq_rsvr_data_proc`; `none` says that the fuel does not suffice.
  pub data_proc : ℕ → Bool → Snap → S → Option (Outcome S)
  data_proc zero memory sn s = none
  data_proc (suc fuel) memory sn s = elim (find_mesg sn) [
    | invalid ↦ some aborts
    | part ↦ some (stall memory sn s)
    | whole ↦
        let r = take_mesg s (next_head sn) (next_body sn) in
        elim (r.0) [
          | failed t ↦ some (err t)
          | all_well t ↦ data_proc fuel memory (pass_mesg sn r.1) t
        ]
  ]

-- What `read` does: it gives at most `most` bytes, is interrupted, has no data now, meets the end of
-- the connection, or fails. With `gives` comes whether there is memory for another buffer.
pub data Read : Type 0 where
  gives : (most : ℕ) (memory : Bool) → Read
  interrupted again closed broken : Read

-- How `rtmq_rsvr_recv_proc` ends.
pub data Ending {ℓ} (S : Type ℓ) : Type ℓ where
  waits : Snap → S → Ending S  -- `RTMQ_OK`
  fails : S → Ending S  -- `RTMQ_ERR`
  disconnected : S → Ending S  -- `RTMQ_SCK_DISCONN`
  crashes : Ending S

-- The word of `left = (int)(recv->end - recv->iptr)`.
abbrev pub left : Snap → ℕ
left sn = (sn.size - iptr sn) % 2 ^ 32

-- What a read gives: no more than was asked for and than the connection holds.
abbrev pub given : ℕ → Snap → List ℕ → ℕ
given most sn stream = min most (min (left sn) (length stream))

module _ {ℓ} {S : Type ℓ} (h : Handler S) where
  -- `rtmq_rsvr_recv_proc` at a socket that holds `stream`, with what is left of it. After the listed
  -- reads there are no more data. A read of nothing because no space is left gives 0, as at the end of
  -- the connection; a read of an empty stream has no data now. A `left` that is negative is a size above
  -- `SSIZE_MAX`, for which `read` fails.
  pub recv_proc : List Read → List ℕ → Snap → S → Option (Ending S × List ℕ)
  recv_proc [] stream sn s = some (waits sn s, stream)
  recv_proc (again ∷ rs) stream sn s = some (waits sn s, stream)
  recv_proc (interrupted ∷ rs) stream sn s = recv_proc rs stream sn s
  recv_proc (closed ∷ rs) stream sn s = some (disconnected s, stream)
  recv_proc (broken ∷ rs) stream sn s = some (fails s, stream)
  recv_proc (gives most memory ∷ rs) stream sn s =
      let n = given most sn stream in
      elim (leb (2 ^ 31) (left sn)) [
        | true ↦ some (fails s, stream)
        | false ↦ elim (n == 0) [
          | true ↦ if left sn == 0 then some (disconnected s, stream) else some (waits sn s, stream)
          | false ↦
              let sn' = record sn { unread = sn.unread ++ take n stream } in
              elim (data_proc h (length sn'.unread + 2) memory sn' s) [
                | none ↦ none
                | some (ok u t) ↦ recv_proc rs (drop n stream) u t
                | some (err t) ↦ some (fails t, drop n stream)
                | some aborts ↦ some (crashes, drop n stream)
              ]
        ]
      ]
