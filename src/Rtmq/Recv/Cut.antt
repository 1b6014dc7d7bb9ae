-- ===== src/Rtmq/Recv/Cut.antt =====
-- Bytes read so far of a sequence of messages: whole messages, and a part of the next one.
use cctrl.Prelude.{
  ℕ, ◌^◌, ◌<◌, ◌≤◌, ◌≡◌, refl, sym, ap, ◌∙◌, List, [], ◌∷◌, ◌++◌, length, arith, length-append,
  dec_lt, append_assoc,
}
use cctrl.Rtmq.Mesg.{Header, Mesg, head_at, head_ntoh, wire, wire_all}
use cctrl.Rtmq.Mesg.Laws.{IsMesg, head_at-bytes, length-wire, wire-ntoh, head_at-append}
use cctrl.Rtmq.Recv.{Snap, next_head, part, find_mesg}
use cctrl.Rtmq.Recv.Loop.{AllFit}

-- Less than the next message.
abbrev pub Short : List Mesg → List ℕ → Type 0
Short [] u = Unit
Short (m ∷ ms) u = length u < length (wire m)

-- Two ways to cut one list.
pub append-split {ℓ} :
    {A : Type ℓ} (xs ys us vs : List A)
    → xs ++ ys ≡ us ++ vs
    → length us ≤ length xs
    → (c : List A) × (xs ≡ us ++ c) × (c ++ ys ≡ vs)
append-split xs ys [] vs e l = (xs, refl, e)
append-split [] ys (a ∷ us) vs e l = absurd (omega (arith, l))
append-split (x ∷ xs) ys (a ∷ us) vs e l =
    let tails : xs ++ ys ≡ us ++ vs = cc in
    let (c, p, q) = append-split xs ys us vs tails (omega (arith, l)) in
    let heads : x ≡ a = cc in (c, (λ i. heads i ∷ p i), q)

pub record Cut (u stream : List ℕ) (todo : List Mesg) : Type 0 where
  pub done : List Mesg
  pub rest : List ℕ
  pub later : List Mesg
  pub split : todo ≡ done ++ later
  pub read : u ≡ wire_all done ++ rest
  pub unread : rest ++ stream ≡ wire_all later
  pub short : Short later rest

pub cut_lem :
    (u stream : List ℕ) (todo : List Mesg) → u ++ stream ≡ wire_all todo → Cut u stream todo
cut_lem u stream [] e = record {
  done = [];
  rest = u;
  later = [];
  split = refl;
  read = refl;
  unread = e;
  short = tt;
}
cut_lem u stream (m ∷ ms) e = elim (dec_lt (length u) (length (wire m))) [
  | yes l ↦ record {
    done = [];
    rest = u;
    later = m ∷ ms;
    split = refl;
    read = refl;
    unread = e;
    short = l;
  }
  | no n ↦
      let (v, p, q) = append-split u stream (wire m) (wire_all ms) e (omega (arith, n)) in
      let c = cut_lem v stream ms q in
      record {
        done = m ∷ c.done;
        rest = c.rest;
        later = c.later;
        split = ap (λ (t : List Mesg). m ∷ t) c.split;
        read =
            p
            ∙ ap (λ (t : List ℕ). wire m ++ t) c.read
            ∙ sym (append_assoc (wire m) (wire_all c.done) c.rest);
        unread = c.unread;
        short = c.short;
      }
]

head_at-wire : (m : Mesg) (rest : List ℕ) → IsMesg m → head_at (head_ntoh (wire m ++ rest)) ≡ m.head
head_at-wire m rest h = rw (wire-ntoh m rest) (
    head_at-bytes m.head (m.body ++ rest) h.kind_small h.nid_small h.flag_small h.len_small
      (rw h.chksum_is (omega arith)))

-- A part of a message is found to be one.
pub find_mesg-part :
    (sn : Snap) (stream : List ℕ) (todo : List Mesg)
    → sn.unread ++ stream ≡ wire_all todo
    → Short todo sn.unread
    → AllFit sn.size todo
    → sn.size < 2 ^ 32
    → length sn.unread ≤ sn.size
    → find_mesg sn ≡ part
find_mesg-part sn stream [] e short fit small inside =
    let sizes = ap length e in
    let empty : length sn.unread ≡ 0 = omega (arith, sizes, length-append sn.unread stream) in
    ground (arith, empty)
find_mesg-part sn stream (m ∷ ms) e short (fit, fits) small inside =
    elim (dec_lt (length sn.unread) 20) [
      | yes l ↦ ground (arith, l)
      | no n ↦
          let found : next_head sn ≡ m.head =
            sym (head_at-append sn.unread stream (omega (arith, n)))
            ∙ ap (λ (u : List ℕ). head_at (head_ntoh u)) e
            ∙ head_at-wire m (wire_all ms) fit.is_mesg in
          let len_is = ap (λ (h : Header). h.len) found in
          let chksum_is = ap (λ (h : Header). h.chksum) found in
          ground (
            arith,
            len_is,
            chksum_is,
            fit.is_mesg.chksum_is,
            fit.is_mesg.len_is,
            short,
            length-wire m,
            small,
            inside,
            n,
            fit.fits,
          )
    ]
