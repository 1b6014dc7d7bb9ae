-- ===== src/Rtmq/Recv/Laws.antt =====
-- What a receiving thread of rtmq_rsvr.c hands on, against what was sent.
use mathlib.Core.Path.{subst}
use cctrl.Prelude.{
  leb, ℕ, ◌^◌, ◌<◌, ◌≤◌, ◌≡◌, refl, sym, ap, ◌∙◌, ◌==◌, Option, some, List, [], ◌∷◌, ◌++◌, length,
  take, drop, arith, length-append, length-take, length-drop, take-append-drop, ℕ_discrete,
  append_assoc, true, false, Bool, ◌⊎◌, inl, inr,
}
use cctrl.Rtmq.Mesg.{Mesg, wire_all}
use cctrl.Rtmq.Recv.{
  Snap, iptr, Handler, Served, all_well, failed, Read, gives, interrupted, again, closed, broken,
  Ending, waits, fails, disconnected, left, given, recv_proc,
}
use cctrl.Rtmq.Recv.Loop.{serve, serve_more, serve-append}
use cctrl.Rtmq.Recv.Stream.{Holds, goes, no_memory, refused, data_proc-TakenIn}

-- Reads after which the connection is given up, whatever the messages are.
abbrev pub IsFaulty : List Read → Type 0
IsFaulty [] = ⊥
IsFaulty (closed ∷ rs) = Unit
IsFaulty (broken ∷ rs) = Unit
IsFaulty (gives most false ∷ rs) = Unit
IsFaulty (gives most true ∷ rs) = IsFaulty rs
IsFaulty (interrupted ∷ rs) = IsFaulty rs
IsFaulty (again ∷ rs) = ⊥

-- Reads that each give something while there is something.
abbrev pub IsPlain : List Read → Type 0
IsPlain [] = Unit
IsPlain (gives most true ∷ rs) = (0 < most) × IsPlain rs
IsPlain (_ ∷ rs) = ⊥

IsPlain-parts :
    (most : ℕ) (memory : Bool) (rs : List Read)
    → IsPlain (gives most memory ∷ rs)
    → (0 < most) × IsPlain rs
IsPlain-parts most true rs p = p
IsPlain-parts most false rs p = absurd p

IsFaulty-later :
    (most : ℕ) (memory : Bool) (rs : List Read) → IsFaulty rs → IsFaulty (gives most memory ∷ rs)
IsFaulty-later most true rs p = p
IsFaulty-later most false rs p = tt

IsFaulty-now :
    (most : ℕ) (memory : Bool) (rs : List Read) → memory ≡ false → IsFaulty (gives most memory ∷ rs)
IsFaulty-now most memory rs e = rw e tt

no_bytes : (xs : List ℕ) → length xs ≡ 0 → xs ≡ []
no_bytes [] h = refl
no_bytes (x ∷ xs) h = absurd (omega (arith, h))

module _ {ℓ} {S : Type ℓ} (h : Handler S) where
  -- The messages `done` are handled, in order; the rest stands in the buffer and in the stream.
  pub data Received (rs : List Read) (stream : List ℕ) (todo : List Mesg) (s : S)
      (o : Option (Ending S × List ℕ)) : Type ℓ where
    waiting :
        (done later : List Mesg) (sn : Snap) (t : S) (stream' : List ℕ)
        → todo ≡ done ++ later
        → serve h s done ≡ all_well t
        → Holds sn stream' later
        → (IsPlain rs → length stream ≤ length rs → stream' ≡ [])
        → o ≡ some (waits sn t, stream')
        → Received rs stream todo s o
    handler_fails :
        (done later : List Mesg) (t : S) (stream' : List ℕ)
        → todo ≡ done ++ later
        → serve h s done ≡ failed t
        → o ≡ some (fails t, stream')
        → Received rs stream todo s o
    gives_up :
        (done later : List Mesg) (t : S) (stream' : List ℕ)
        → IsFaulty rs
        → todo ≡ done ++ later
        → serve h s done ≡ all_well t
        → (o ≡ some (disconnected t, stream')) ⊎ (o ≡ some (fails t, stream'))
        → Received rs stream todo s o

  -- After more messages were handled.
  after :
      (rs rs' : List Read) (stream stream' : List ℕ) (done later : List Mesg) (s t : S)
      (o : Option (Ending S × List ℕ))
      → (IsFaulty rs' → IsFaulty rs)
      → (IsPlain rs → length stream ≤ length rs → IsPlain rs' × (length stream' ≤ length rs'))
      → serve h s done ≡ all_well t
      → Received rs' stream' later t o
      → Received rs stream (done ++ later) s o
  after rs rs' stream stream' done later s t o f g e (waiting d l sn u st p q r w v) =
      waiting (done ++ d) l sn u st
        (ap (λ (x : List Mesg). done ++ x) p ∙ sym (append_assoc done d l))
        (serve-append h s done d ∙ ap (λ (x : Served S). serve_more h x d) e ∙ q) r
        (λ a b. w (g a b).0 (g a b).1) v
  after rs rs' stream stream' done later s t o f g e (handler_fails d l u st p q v) =
      handler_fails (done ++ d) l u st
        (ap (λ (x : List Mesg). done ++ x) p ∙ sym (append_assoc done d l))
        (serve-append h s done d ∙ ap (λ (x : Served S). serve_more h x d) e ∙ q) v
  after rs rs' stream stream' done later s t o f g e (gives_up d l u st x p q v) =
      gives_up (done ++ d) l u st (f x)
        (ap (λ (x : List Mesg). done ++ x) p ∙ sym (append_assoc done d l))
        (serve-append h s done d ∙ ap (λ (x : Served S). serve_more h x d) e ∙ q) v

  -- The bytes in the buffer and in the stream are those of messages that each fit into the buffer, and
  -- are as long as their handlers expect if they are requests to join or to subscribe; the buffer is
  -- below 2 GB and has room left. However the reads cut the stream, the call ends, and nothing is lost,
  -- doubled or put in another order, though handlers write into the buffer: the messages from the front
  -- are handled one by one, each as if it stood alone, until one fails or the reads end.
  pub recv_proc-Received :
      (rs : List Read) (stream : List ℕ) (sn : Snap) (s : S) (todo : List Mesg)
      → Holds sn stream todo
      → Received rs stream todo s (recv_proc h rs stream sn s)
  unfolding recv_proc serve
  recv_proc-Received [] stream sn s todo w =
      waiting [] todo sn s stream refl refl w (λ a b. no_bytes stream (omega (arith, b))) refl
  recv_proc-Received (again ∷ rs) stream sn s todo w =
      waiting [] todo sn s stream refl refl w (λ a b. absurd a) refl
  recv_proc-Received (interrupted ∷ rs) stream sn s todo w =
      after (interrupted ∷ rs) rs stream stream [] todo s s _ (λ x. x) (λ a b. absurd a) refl
        (recv_proc-Received rs stream sn s todo w)
  recv_proc-Received (closed ∷ rs) stream sn s todo w =
      gives_up [] todo s stream tt refl refl (inl refl)
  recv_proc-Received (broken ∷ rs) stream sn s todo w =
      gives_up [] todo s stream tt refl refl (inr refl)
  recv_proc-Received (gives most memory ∷ rs) stream sn s todo w =
      let n = given most sn stream in
      let an_int : leb (2 ^ 31) (left sn) ≡ false = ground (arith, w.small) in
      elim (ℕ_discrete n 0) [
        | yes z ↦
            let nothing : (n == 0) ≡ true = ground (arith, z) in
            let room_left : (left sn == 0) ≡ false = ground (arith, w.room, w.small) in
            waiting [] todo sn s stream refl refl w
              (λ a b.
                no_bytes stream (
                  let c = IsPlain-parts most memory rs a in omega (arith, z, c.0, w.room, w.small)))
              (rw (an_int, recv_proc) (rw nothing (rw room_left refl)))
        | no p ↦
            let some_read : (n == 0) ≡ false = ground (arith, p) in
            let sn' = record sn { unread = sn.unread ++ take n stream } in
            let bytes : sn'.unread ++ drop n stream ≡ wire_all todo =
              append_assoc sn.unread (take n stream) (drop n stream)
              ∙ ap (λ (x : List ℕ). sn.unread ++ x) (take-append-drop n stream)
              ∙ w.bytes in
            let longer = length-append sn.unread (take n stream) in
            let taken = length-take n stream in
            let dropped = length-drop n stream in
            let full : iptr sn' ≤ sn.size = omega (arith, longer, taken, w.room) in
            let whole = gives most memory ∷ rs in
            elim (data_proc-TakenIn h memory sn' s (drop n stream) todo w.small
              (omega (arith, w.room)) full w.fit bytes) [
                | goes done later u t split served holds size e ↦
                    let ran : recv_proc h whole stream sn s ≡ recv_proc h rs (drop n stream) u t =
                      rw (an_int, recv_proc) (rw some_read (rw e refl)) in
                    subst (λ o. Received whole stream todo s o) (sym ran)
                      (rw split (
                        after whole rs stream (drop n stream) done later s t _
                          (IsFaulty-later most memory rs)
                          (λ a b.
                            let c = IsPlain-parts most memory rs a in
                            (c.1, omega (arith, dropped, b, p)))
                          served (recv_proc-Received rs (drop n stream) u t later holds)))
                | no_memory done later t none_left split served e ↦
                    let ran : recv_proc h whole stream sn s ≡ some (fails t, drop n stream) =
                      rw (an_int, recv_proc) (rw some_read (rw e refl)) in
                    gives_up done later t (drop n stream) (IsFaulty-now most memory rs none_left)
                      split served (inr ran)
                | refused done later t split served e ↦
                    let ran : recv_proc h whole stream sn s ≡ some (fails t, drop n stream) =
                      rw (an_int, recv_proc) (rw some_read (rw e refl)) in
                    handler_fails done later t (drop n stream) split served ran
              ]
      ]
