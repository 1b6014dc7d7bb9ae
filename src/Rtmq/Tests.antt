-- ===== src/Rtmq/Tests.antt =====
-- Runs of the sending and receiving code of lib/rtmq, and its theorems at concrete messages.
use cctrl.Prelude.{ℕ, ◌≤◌, ◌≡◌, refl, true, false, some, List, [], ◌∷◌, ◌++◌, length, arith, inr}
use cctrl.Iovec.{init}
use cctrl.Rtmq.Mesg.{Mesg, chksum_val, wire, wire_all, swap_words}
use cctrl.Rtmq.Mesg.Laws.{IsMesg}
use cctrl.Rtmq.Recv.Overrun.{reversed, take_mesg-overruns}
use cctrl.Rtmq.Recv.{
  all_well, next_head, next_body, pass_mesg, window, handle, take_mesg, Snap, setup, Handler,
  Outcome, aborts, data_proc, Read, gives, interrupted, closed, recv_proc,
}
use cctrl.Rtmq.Recv.Loop.{Fits}
use cctrl.Rtmq.Recv.Stream.{Holds}
use cctrl.Rtmq.Recv.Laws.{Received, recv_proc-Received}
use cctrl.Rtmq.Recv.Ends.{data_proc-ends, data_proc-aborts}
use cctrl.Rtmq.Send.{Outgoing, Sender, send_all}
use cctrl.Rtmq.Send.Laws.{unsent, IsSender, ArePositive, send_all-unsent}

-- Messages are collected, the last one first, with what their handlers read as bodies.
abbrev collect : Handler (List Mesg)
collect = record {
  auth_succ = λ s. true;
  behind = λ s i. 0;
  link_auth = λ s head auth. (false, record { head = head; body = auth } ∷ s);
  sub_add = λ s head req. (false, record { head = head; body = req } ∷ s);
  keepalive_rsp = λ s. (false, s);
  exp_mesg_proc = λ s m. m ∷ s;
  count_error = λ s. s;
}

abbrev hello : Mesg
hello = record {
  head = record { kind = 0x101; nid = 7; flag = 1; len = 3; chksum = chksum_val };
  body = 104 ∷ 105 ∷ 33 ∷ [];
}

-- A subscription to the messages of the kind 258.
abbrev wish : Mesg
wish = record {
  head = record { kind = 5; nid = 7; flag = 0; len = 4; chksum = chksum_val };
  body = 0 ∷ 0 ∷ 1 ∷ 2 ∷ [];
}

abbrev both : List Outgoing
both = record { addr = 5000; mesg = hello } ∷ record { addr = 6000; mesg = wish } ∷ []

hello-Fits : Fits 32 hello
hello-Fits = record {
  is_mesg = record {
    kind_small = omega arith;
    nid_small = omega arith;
    flag_small = omega arith;
    len_small = omega arith;
    chksum_is = refl;
    len_is = refl;
  };
  fits = omega arith;
  sound = record { auth = λ a b. omega (arith, a, b); sub = λ a b. omega (arith, a, b) };
}

wish-Fits : Fits 32 wish
wish-Fits = record {
  is_mesg = record {
    kind_small = omega arith;
    nid_small = omega arith;
    flag_small = omega arith;
    len_small = omega arith;
    chksum_is = refl;
    len_is = refl;
  };
  fits = omega arith;
  sound = record { auth = λ a b. omega (arith, a, b); sub = λ a b. omega (arith, a, b) };
}

-- The fields of a header go out with their highest byte first.
wire-wish :
    wire wish
    ≡ 0 ∷ 0 ∷ 0 ∷ 5 ∷ 0 ∷ 0 ∷ 0 ∷ 7 ∷ 0 ∷ 0 ∷ 0 ∷ 0 ∷ 0 ∷ 0 ∷ 0 ∷ 4 ∷ 0x1F ∷ 0xE2 ∷ 0x3D ∷ 0xC4 ∷ 0
      ∷ 0 ∷ 1 ∷ 2 ∷ []
unfolding swap_words
wire-wish = refl

-- A connection with empty buffers and these messages to send.
abbrev sender : ℕ → List Outgoing → Sender
sender max xs = record { mesg_list = xs; send = init max }

both-IsSender : IsSender (sender 8 both)
unfolding init
both-IsSender = record {
  mesgs = (
    record { is_mesg = hello-Fits.is_mesg; is_int = omega arith },
    (record { is_mesg = wish-Fits.is_mesg; is_int = omega arith }, tt),
  );
  ready = record { room = omega arith; hold = tt; front = λ e. refl };
  slots = omega arith;
}

send_all-unsent_example :
    (bytes : List ℕ) × (t : Sender) × (send_all (10 ∷ 20 ∷ []) (sender 8 both) ≡ some (bytes, t))
    × (bytes ++ unsent t ≡ unsent (sender 8 both))
    × (ArePositive (10 ∷ 20 ∷ []) → length (unsent (sender 8 both)) ≤ 2 → unsent t ≡ [])
send_all-unsent_example = send_all-unsent (10 ∷ 20 ∷ []) (sender 8 both) both-IsSender

start-Holds : Holds (setup 32) (wire_all (hello ∷ wish ∷ [])) (hello ∷ wish ∷ [])
unfolding swap_words
start-Holds = record {
  small = omega arith;
  room = omega arith;
  fit = (hello-Fits, (wish-Fits, tt));
  bytes = refl;
  short = omega arith;
}

abbrev few_reads : List Read
few_reads = gives 7 true ∷ interrupted ∷ gives 30 true ∷ closed ∷ []

recv_proc-Received_example :
    Received collect few_reads
      (wire_all (hello ∷ wish ∷ []))
      (hello ∷ wish ∷ [])
      []
      (recv_proc collect few_reads (wire_all (hello ∷ wish ∷ [])) (setup 32) [])
recv_proc-Received_example =
    recv_proc-Received collect few_reads (wire_all (hello ∷ wish ∷ [])) (setup 32) []
      (hello ∷ wish ∷ []) start-Holds

-- A header whose length is `2 ^ 32 - 20`.
abbrev endless : Snap
endless = record {
  size = 32;
  optr = 0;
  unread =
      0 ∷ 0 ∷ 1 ∷ 1 ∷ 0 ∷ 0 ∷ 0 ∷ 7 ∷ 0 ∷ 0 ∷ 0 ∷ 1 ∷ 0xFF ∷ 0xFF ∷ 0xFF ∷ 0xEC ∷ 0x1F ∷ 0xE2 ∷ 0x3D
      ∷ 0xC4 ∷ [];
}

data_proc-ends_example : (o : Outcome (List Mesg)) × (data_proc collect 22 true endless [] ≡ some o)
data_proc-ends_example = data_proc-ends collect true endless [] (omega arith) (omega arith)

data_proc-aborts_example : data_proc collect 22 true endless [] ≡ some aborts
unfolding swap_words
data_proc-aborts_example =
    data_proc-aborts collect true endless [] (omega arith) (omega arith) (omega arith)
      (inr (refl, omega arith, refl))

-- A request to join without a body, and a handler that accepts it.
abbrev bare_join : Mesg
bare_join = record {
  head = record { kind = 1; nid = 7; flag = 0; len = 0; chksum = chksum_val };
  body = [];
}

abbrev welcome : Handler (List Mesg)
welcome = record collect { link_auth = λ s head auth. (false, s) }

abbrev joining : Snap
joining = record { size = 64; optr = 0; unread = wire bare_join ++ (wire wish ++ []) }

bare_join-IsMesg : IsMesg bare_join
bare_join-IsMesg = record {
  kind_small = omega arith;
  nid_small = omega arith;
  flag_small = omega arith;
  len_small = omega arith;
  chksum_is = refl;
  len_is = refl;
}

accepted : (take_mesg welcome [] (next_head joining) (next_body joining)).0 ≡ all_well []
unfolding take_mesg handle window swap_words
accepted = refl

take_mesg-overruns_example :
    next_head (pass_mesg joining (take_mesg welcome [] (next_head joining) (next_body joining)).1)
    ≡ record wish.head { kind = reversed 5 }
take_mesg-overruns_example =
    take_mesg-overruns welcome [] [] joining bare_join wish [] bare_join-IsMesg refl refl refl
      wish-Fits.is_mesg refl accepted
