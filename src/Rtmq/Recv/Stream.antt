-- ===== src/Rtmq/Recv/Stream.antt =====
-- What `rtmq_rsvr_recv_proc` makes of a stream of messages, however the reads cut it.
use cctrl.Prelude.{
  ℕ, suc, ◌+◌, ◌-◌, ◌^◌, ◌<◌, ◌≤◌, ◌≡◌, refl, ap, ◌∙◌, Option, some, List, [], ◌∷◌, ◌++◌, length,
  arith, length-append, ℕ_discrete, true, false, Bool, ◌⊎◌, inl, inr,
}
use cctrl.Rtmq.Mesg.{Mesg, wire, wire_all}
use cctrl.Rtmq.Mesg.Laws.{length-wire}
use cctrl.Rtmq.Recv.{Snap, iptr, Handler, Outcome, ok, err, stall, all_well, failed, data_proc}
use cctrl.Rtmq.Recv.Loop.{AllFit, serve, Served-cases, goes_on, data_proc-serve}
use cctrl.Rtmq.Recv.Cut.{Short, cut_lem, find_mesg-part}

-- A snapshot and a stream that together hold the messages `todo`, with room for more bytes.
pub record Holds (sn : Snap) (stream : List ℕ) (todo : List Mesg) : Type 0 where
  pub small : sn.size < 2 ^ 31
  pub room : iptr sn < sn.size
  pub fit : AllFit sn.size todo
  pub bytes : sn.unread ++ stream ≡ wire_all todo
  pub short : Short todo sn.unread

AllFit-append :
    (size : ℕ) (ms ns : List Mesg) → AllFit size (ms ++ ns) → AllFit size ms × AllFit size ns
AllFit-append size [] ns f = (tt, f)
AllFit-append size (m ∷ ms) ns (f, fs) = let (a, b) = AllFit-append size ms ns fs in ((f, a), b)

length-wire_all : (ms : List Mesg) → length ms ≤ length (wire_all ms)
length-wire_all [] = omega arith
length-wire_all (m ∷ ms) =
    omega (arith, length-append (wire m) (wire_all ms), length-wire m, length-wire_all ms)

-- A part of a message leaves room in a buffer of its own.
part-room :
    (size : ℕ) (later : List Mesg) (rest stream : List ℕ)
    → 0 < size
    → AllFit size later
    → rest ++ stream ≡ wire_all later
    → Short later rest
    → length rest < size
part-room size [] rest stream pos fit e short =
    omega (arith, ap length e, length-append rest stream, pos)
part-room size (m ∷ ms) rest stream pos (fit, fits) e short =
    omega (arith, short, length-wire m, fit.fits)

-- A full buffer is exchanged for an empty one, if there is memory.
stall-cases {ℓ} :
    {S : Type ℓ} (memory : Bool) (sn : Snap) (t : S)
    → iptr sn ≤ sn.size
    → length sn.unread < sn.size
    → ((u : Snap) × (iptr u < u.size)
        × (u.unread ≡ sn.unread)
        × (u.size ≡ sn.size)
        × (stall memory sn t ≡ ok u t))
      ⊎ ((memory ≡ false) × (stall memory sn t ≡ err t))
stall-cases memory sn t full few = elim (ℕ_discrete (iptr sn) sn.size) [
  | no n ↦ inl (sn, omega (arith, n, full), refl, refl, ground (arith, n))
  | yes y ↦ exchange memory y
]
  where
    exchange :
        (memory : Bool)
        → iptr sn ≡ sn.size
        → ((u : Snap) × (iptr u < u.size)
            × (u.unread ≡ sn.unread)
            × (u.size ≡ sn.size)
            × (stall memory sn t ≡ ok u t))
          ⊎ ((memory ≡ false) × (stall memory sn t ≡ err t))
    exchange true y =
        inl (record sn { optr = 0 }, omega (arith, few), refl, refl, ground (arith, y))
    exchange false y = inr (refl, ground (arith, y))

module _ {ℓ} {S : Type ℓ} (h : Handler S) where
  -- How the bytes of one read are taken in.
  pub data TakenIn (sn : Snap) (stream : List ℕ) (todo : List Mesg) (memory : Bool) (s : S)
      (o : Option (Outcome S)) : Type ℓ where
    goes :
        (done later : List Mesg) (sn' : Snap) (t : S)
        → todo ≡ done ++ later
        → serve h s done ≡ all_well t
        → Holds sn' stream later
        → sn'.size ≡ sn.size
        → o ≡ some (ok sn' t)
        → TakenIn sn stream todo memory s o
    no_memory :
        (done later : List Mesg) (t : S)
        → memory ≡ false
        → todo ≡ done ++ later
        → serve h s done ≡ all_well t
        → o ≡ some (err t)
        → TakenIn sn stream todo memory s o
    refused :
        (done later : List Mesg) (t : S)
        → todo ≡ done ++ later
        → serve h s done ≡ failed t
        → o ≡ some (err t)
        → TakenIn sn stream todo memory s o

  module _ (memory : Bool) (sn : Snap) (s : S) (stream : List ℕ) (todo : List Mesg)
      (small : sn.size < 2 ^ 31) (pos : 0 < sn.size) (full : iptr sn ≤ sn.size)
      (fit : AllFit sn.size todo) (bytes : sn.unread ++ stream ≡ wire_all todo) where
    pub data_proc-TakenIn :
        TakenIn sn stream todo memory s (data_proc h (length sn.unread + 2) memory sn s)
    unfolding data_proc
    data_proc-TakenIn =
        let c = cut_lem sn.unread stream todo bytes in
        let fits = AllFit-append sn.size c.done c.later (rw c.split at fit) in
        let sizes = ap length c.read in
        let few = length-wire_all c.done in
        let both = length-append (wire_all c.done) c.rest in
        let fuel = length sn.unread + 1 - length c.done in
        let enough : length sn.unread + 2 ≡ suc fuel + length c.done =
          omega (arith, sizes, few, both) in
        let (sn', p, e) =
          data_proc-serve h c.done c.rest (suc fuel) memory sn s fits.0 (omega (arith, small))
            (omega (arith, full)) c.read in
        let run : data_proc h (length sn.unread + 2) memory sn s
            ≡ goes_on h (suc fuel) memory sn' (serve h s c.done) =
          ap (λ (k : ℕ). data_proc h k memory sn s) enough ∙ e in
        elim (Served-cases h (serve h s c.done)) [
          | inr (t, y) ↦
              refused c.done c.later t c.split y (run ∙ ap (goes_on h (suc fuel) memory sn') y)
          | inl (t, y) ↦
              let rest_bytes : sn'.unread ++ stream ≡ wire_all c.later = rw p.unread_is c.unread in
              let rest_short : Short c.later sn'.unread = rw p.unread_is c.short in
              let rest_fit : AllFit sn'.size c.later = rw p.same_size fits.1 in
              let inside : iptr sn' ≤ sn'.size = omega (arith, p.same_iptr, p.same_size, full) in
              let find =
                find_mesg-part sn' stream c.later rest_bytes rest_short rest_fit
                  (omega (arith, p.same_size, small)) (omega (arith, inside)) in
              let few =
                part-room sn'.size c.later sn'.unread stream (rw p.same_size pos) rest_fit
                  rest_bytes rest_short in
              let stalled : data_proc h (suc fuel) memory sn' t ≡ some (stall memory sn' t) =
                rw (find, data_proc) refl in
              let ran = run ∙ ap (goes_on h (suc fuel) memory sn') y ∙ stalled in
              elim (stall-cases memory sn' t inside few) [
                | inl (u, room, same_unread, same_size, q) ↦
                    goes c.done c.later u t c.split y
                      (record {
                        small = rw (same_size ∙ p.same_size) small;
                        room = room;
                        fit = rw same_size rest_fit;
                        bytes = rw same_unread rest_bytes;
                        short = rw same_unread rest_short;
                      })
                      (same_size ∙ p.same_size) (ran ∙ ap some q)
                | inr (none_left, q) ↦
                    no_memory c.done c.later t none_left c.split y (ran ∙ ap some q)
              ]
        ]
