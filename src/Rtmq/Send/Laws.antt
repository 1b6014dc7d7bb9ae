-- ===== src/Rtmq/Send/Laws.antt =====
-- The bytes that rtmq_rsvr.c writes, against those of the messages.
use cctrl.Prelude.{
  ℕ, ◌+◌, ◌^◌, ltb, ◌<◌, ◌≤◌, ◌≡◌, ◌≢◌, refl, sym, ap, ◌∙◌, min, true, false, if◌then◌else◌, some,
  List, [], ◌∷◌, ◌++◌, length, take, drop, arith, length-append, append_assoc, append-nil,
  take-append-drop, length-take, ℕ_discrete,
}
use cctrl.Iovec.{Wiov, iov_cnt, isempty, isfull, item_add, item_adjust}
use cctrl.Iovec.Laws.{
  pending, pending-append, item_adjust-pending, IsReady, item_add-IsReady, item_adjust-IsReady,
  nothing_pending, no_items,
}
use cctrl.Rtmq.Mesg.{chksum_isvalid, wire}
use cctrl.Rtmq.Mesg.Laws.{IsMesg, length-wire}
use cctrl.Rtmq.Send.{Outgoing, Sender, entry_len, entry, wiov_add, sends, send_proc, send_all}

abbrev pub wire_list : List Outgoing → List ℕ
wire_list [] = []
wire_list (x ∷ xs) = wire x.mesg ++ wire_list xs

-- A message whose length with its header is an `int`.
pub record IsSendable (x : Outgoing) : Type 0 where
  pub is_mesg : IsMesg x.mesg
  pub is_int : 20 + length x.mesg.body < 2 ^ 31

abbrev pub AreMesgs : List Outgoing → Type 0
AreMesgs [] = Unit
AreMesgs (x ∷ xs) = IsSendable x × AreMesgs xs

-- What is still to be written for a connection.
abbrev pub unsent : Sender → List ℕ
unsent s = pending s.send.items ++ wire_list s.mesg_list

entry_bytes : (x : Outgoing) → IsSendable x → (entry x).bytes ≡ wire x.mesg
entry_bytes x h =
    let all : entry_len x ≡ length (wire x.mesg) =
      omega (arith, h.is_mesg.len_is, h.is_int, length-wire x.mesg) in
    ap (λ (k : ℕ). take k (wire x.mesg)) all ∙ take_all (wire x.mesg)
  where
    take_all : (xs : List ℕ) → take (length xs) xs ≡ xs
    take_all [] = refl
    take_all (y ∷ xs) = ap (λ (t : List ℕ). y ∷ t) (take_all xs)

-- The buffers are filled from the list, in order, as far as there is room.
pub record Filled (xs : List Outgoing) (w : Wiov) (ys : List Outgoing) (v : Wiov) : Type 0 where
  pub bytes : pending v.items ++ wire_list ys ≡ pending w.items ++ wire_list xs
  pub mesgs : AreMesgs ys
  pub ready : IsReady v
  pub same_max : v.iov_max ≡ w.iov_max
  pub no_more : iov_cnt v ≢ v.iov_max → ys ≡ []

wiov_add-Filled :
    (xs : List Outgoing) (w : Wiov)
    → AreMesgs xs
    → IsReady w
    → (ys : List Outgoing) × (v : Wiov) × (wiov_add xs w ≡ some (ys, v)) × Filled xs w ys v
unfolding wiov_add
wiov_add-Filled [] w h r = (
  [],
  w,
  refl,
  record { bytes = refl; mesgs = tt; ready = r; same_max = refl; no_more = λ e. refl },
)
wiov_add-Filled (x ∷ xs) w (h, hs) r = elim (ℕ_discrete w.iov_max (iov_cnt w)) [
  | yes y ↦
      let full : isfull w ≡ true = ground (arith, y) in
      (
        x ∷ xs,
        w,
        rw full refl,
        record {
          bytes = refl;
          mesgs = (h, hs);
          ready = r;
          same_max = refl;
          no_more = λ e. absurd (e (sym y));
        },
      )
  | no ny ↦
      let not_full : isfull w ≡ false = ground (arith, ny) in
      let valid : chksum_isvalid x.mesg.head ≡ true = ground (arith, h.is_mesg.chksum_is) in
      let an_int : ltb (entry_len x) (2 ^ 31) ≡ true = ground (arith, h.is_mesg.len_is, h.is_int) in
      let long = ap length (entry_bytes x h) in
      let ready =
        item_add-IsReady w (entry x) r (λ e. ny (sym e))
          (omega (arith, long, length-wire x.mesg)) in
      let (ys, v, e, f) = wiov_add-Filled xs (item_add w (entry x)) hs ready in
      let moved : pending (w.items ++ entry x ∷ []) ++ wire_list xs
          ≡ pending w.items ++ (wire x.mesg ++ wire_list xs) =
        ap (λ (t : List ℕ). t ++ wire_list xs)
          (pending-append w.items (entry x ∷ [])
            ∙ ap (λ (t : List ℕ). pending w.items ++ t)
                (append-nil (entry x).bytes ∙ entry_bytes x h))
        ∙ append_assoc (pending w.items) (wire x.mesg) (wire_list xs) in
      (
        ys,
        v,
        rw (not_full, valid, an_int) e,
        record {
          bytes = f.bytes ∙ moved;
          mesgs = f.mesgs;
          ready = f.ready;
          same_max = f.same_max;
          no_more = f.no_more;
        },
      )
]

pub record IsSender (s : Sender) : Type 0 where
  pub mesgs : AreMesgs s.mesg_list
  pub ready : IsReady s.send
  pub slots : 0 < s.send.iov_max

-- The buffers after the first part of a round.
fill :
    (s : Sender)
    → IsSender s
    → (ys : List Outgoing) × (v : Wiov) × ((if isfull s.send
          then some (s.mesg_list, s.send)
          else wiov_add s.mesg_list s.send)
        ≡ some (ys, v))
      × Filled s.mesg_list s.send ys v
fill s h = elim (ℕ_discrete s.send.iov_max (iov_cnt s.send)) [
  | yes y ↦
      let full : isfull s.send ≡ true = ground (arith, y) in
      (
        s.mesg_list,
        s.send,
        rw full refl,
        record {
          bytes = refl;
          mesgs = h.mesgs;
          ready = h.ready;
          same_max = refl;
          no_more = λ e. absurd (e (sym y));
        },
      )
  | no ny ↦
      let not_full : isfull s.send ≡ false = ground (arith, ny) in
      rw not_full (wiov_add-Filled s.mesg_list s.send h.mesgs h.ready)
]

-- A round writes the first of the bytes that are to be written, and none only if none are left.
pub record Round (most : ℕ) (s : Sender) (bytes : List ℕ) (t : Sender) : Type 0 where
  pub split : bytes ++ unsent t ≡ unsent s
  pub sender : IsSender t
  pub progress : 0 < most → length bytes ≡ 0 → unsent s ≡ []

pub send_proc-Round :
    (most : ℕ) (s : Sender)
    → IsSender s
    → (freed : List ℕ) × (bytes : List ℕ) × (t : Sender) × (send_proc (some most) s
        ≡ some (sends freed bytes t))
      × Round most s bytes t
unfolding send_proc
send_proc-Round most s h =
    let (ys, v, e, f) = fill s h in
    let waiting = pending v.items in
    let n = min most (length waiting) in
    elim (ℕ_discrete 0 (iov_cnt v)) [
      | yes y ↦
          let test : isempty v ≡ true = ground (arith, y) in
          let none_left = no_items v.items (omega (arith, y)) in
          let slots : 0 < v.iov_max = rw f.same_max h.slots in
          let no_list = f.no_more (λ q. omega (arith, q, y, slots)) in
          (
            [],
            [],
            record { mesg_list = ys; send = v },
            rw e (rw test refl),
            record {
              split = f.bytes;
              sender = record { mesgs = f.mesgs; ready = f.ready; slots = slots };
              progress = λ a b. sym f.bytes ∙ rw (none_left, no_list) refl;
            },
          )
      | no ny ↦
          let test : isempty v ≡ false = ground (arith, ny) in
          let (left, freed, fewer, same_max, has, none_left) = item_adjust-pending v n in
          (
            (item_adjust v n).0,
            take n waiting,
            record { mesg_list = ys; send = (item_adjust v n).1 },
            rw e (rw test refl),
            record {
              split =
                  ap (λ (t : List ℕ). take n waiting ++ (t ++ wire_list ys)) left
                  ∙ sym (append_assoc (take n waiting) (drop n waiting) (wire_list ys))
                  ∙ ap (λ (t : List ℕ). t ++ wire_list ys) (take-append-drop n waiting)
                  ∙ f.bytes;
              sender = record {
                mesgs = f.mesgs;
                ready = item_adjust-IsReady v n f.ready;
                slots = rw (same_max, f.same_max) h.slots;
              };
              progress = λ a b.
                  let none_waits : length waiting ≡ 0 =
                    omega (arith, a, b, length-take n waiting) in
                  let no_entry = nothing_pending v.items f.ready.hold none_waits in
                  absurd (ny (omega (arith, no_entry, f.ready.front no_entry)));
            },
          )
    ]

abbrev pub ArePositive : List ℕ → Type 0
ArePositive [] = Unit
ArePositive (w ∷ ws) = (0 < w) × ArePositive ws

no_bytes : (xs : List ℕ) → length xs ≡ 0 → xs ≡ []
no_bytes [] h = refl
no_bytes (x ∷ xs) h = absurd (omega (arith, h))

-- From a state in which the invariant of the sender holds, so that each message with its header is
-- shorter than 2 GB, no round aborts, and rounds of writing put
-- the messages into the socket, in order and each byte once; as many rounds as
-- there are bytes, in each of which the socket takes some, write them all.
pub send_all-unsent :
    (ws : List ℕ) (s : Sender)
    → IsSender s
    → (bytes : List ℕ) × (t : Sender) × (send_all ws s ≡ some (bytes, t))
      × (bytes ++ unsent t ≡ unsent s)
      × (ArePositive ws → length (unsent s) ≤ length ws → unsent t ≡ [])
unfolding send_all
send_all-unsent [] s h = ([], s, refl, refl, λ p l. no_bytes (unsent s) (omega (arith, l)))
send_all-unsent (w ∷ ws) s h =
    let (freed, bytes, t, e, r) = send_proc-Round w s h in
    let (more, u, e2, split, all) = send_all-unsent ws t r.sender in
    let sizes = ap length r.split in
    let both = length-append bytes (unsent t) in
    (
      bytes ++ more,
      u,
      rw (e, send_all) (rw e2 refl),
      append_assoc bytes more (unsent u) ∙ ap (λ (x : List ℕ). bytes ++ x) split ∙ r.split,
      λ p l. elim (ℕ_discrete (length bytes) 0) [
        | yes y ↦
            let nothing = ap length (r.progress p.0 y) in
            all p.1 (omega (arith, nothing, sizes, both))
        | no ny ↦ all p.1 (omega (arith, ny, l, sizes, both))
      ],
    )
