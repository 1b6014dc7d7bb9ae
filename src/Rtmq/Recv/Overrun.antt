-- ===== src/Rtmq/Recv/Overrun.antt =====
-- What a request of rtmq_rsvr.c that is shorter than its structure does to the message behind it.
use cctrl.Prelude.{
  ℕ, ◌≡◌, refl, sym, ap, ◌∙◌, Bool-cases, inl, inr, true, false, ◌==◌, List, [], ◌++◌, drop, arith,
  Bool, length,
}
use cctrl.Rtmq.Mesg.{
  Header, Mesg, chksum_isvalid, word_bytes, word_at, head_bytes, head_at, head_ntoh, swap_words,
  wire,
}
use cctrl.Rtmq.Mesg.Laws.{IsMesg, word_lem, head_at-bytes, wire-ntoh}
use cctrl.Rtmq.Recv.{
  Snap, Handler, all_well, failed, served_by, link_auth_req_hdl, auth_req, next_head, one_mesg_len,
  next_body, pass_mesg, window, swap_first, handle, take_mesg,
}

-- A word with its bytes reversed.
abbrev pub reversed : ℕ → ℕ
reversed n = word_at (swap_words 1 (word_bytes n))

-- The conversion of a request where a message stands turns its type round.
swapped_head :
    (f : ℕ → ℕ) (m : Mesg) (rest : List ℕ)
    → IsMesg m
    → head_at (head_ntoh (swap_first f (wire m ++ rest)))
      ≡ record m.head { kind = reversed m.head.kind }
unfolding swap_first swap_words
swapped_head f m rest h =
    rw
      (
        word_lem m.head.nid h.nid_small,
        word_lem m.head.flag h.flag_small,
        word_lem m.head.len h.len_small,
        word_lem m.head.chksum (rw h.chksum_is (omega arith)),
      )
      refl

module _ {ℓ} {S : Type ℓ} where
  served_by-memory : (r : Bool × S × List ℕ) → (served_by r).1 ≡ r.2
  served_by-memory (true, s, body) = refl
  served_by-memory (false, s, body) = refl

  failed_not_well : (s t : S) → failed s ≡ all_well t → ⊥
  failed_not_well s t e = cc

module _ {ℓ} {S : Type ℓ} (h : Handler S) where
  -- A request to join that is accepted was converted.
  taken_memory :
      (s t : S) (head : Header) (body : List ℕ)
      → head.kind ≡ auth_req
      → head.flag ≡ 0
      → (take_mesg h s head body).0 ≡ all_well t
      → (take_mesg h s head body).1 ≡ swap_first (h.behind s) body
  unfolding take_mesg handle
  taken_memory s t head body kind sys goes =
      let b : (head.kind == auth_req) ≡ true = ground (arith, kind) in
      let c : (head.flag == 0) ≡ true = ground (arith, sys) in
      let joins : handle h s head body ≡ link_auth_req_hdl h s head body =
        rw (c, handle) (rw b refl) in
      elim (Bool-cases (chksum_isvalid head)) [
        | inr n ↦ absurd (failed_not_well (h.count_error s) t (rw (n, take_mesg) at goes))
        | inl y ↦
            let taken : take_mesg h s head body ≡ served_by (link_auth_req_hdl h s head body) =
              rw (y, take_mesg) (ap served_by joins) in
            elim (Bool-cases (word_at (window 4 body (h.behind s)) == 0)) [
              | inl z ↦
                  let refused : (take_mesg h s head body).0 ≡ failed s =
                    ap (λ r. r.0) taken ∙ (rw z refl) in
                  absurd (failed_not_well s t (sym refused ∙ goes))
              | inr z ↦
                  ap (λ r. r.1) taken
                  ∙ served_by-memory (link_auth_req_hdl h s head body)
                  ∙ (rw z refl)
            ]
      ]

  -- When a request to join with an empty body and another message stand unread, and the handler accepts
  -- the request, the header found next is that of the other message with the bytes of its type in the
  -- reverse order, its other fields as they were sent.
  pub take_mesg-overruns :
      (s t : S) (sn : Snap) (m m' : Mesg) (rest : List ℕ)
      → IsMesg m
      → m.head.kind ≡ auth_req
      → m.head.flag ≡ 0
      → m.body ≡ []
      → IsMesg m'
      → sn.unread ≡ wire m ++ (wire m' ++ rest)
      → (take_mesg h s (next_head sn) (next_body sn)).0 ≡ all_well t
      → next_head (pass_mesg sn (take_mesg h s (next_head sn) (next_body sn)).1)
        ≡ record m'.head { kind = reversed m'.head.kind }
  take_mesg-overruns s t sn m m' rest im kind sys none im' starts goes =
      let later = wire m' ++ rest in
      let ntoh_is : head_ntoh sn.unread ≡ head_bytes m.head ++ (m.body ++ later) =
        rw starts (wire-ntoh m later) in
      let head_is : next_head sn ≡ m.head = rw ntoh_is (
        head_at-bytes m.head (m.body ++ later) im.kind_small im.nid_small im.flag_small im.len_small
          (rw im.chksum_is (omega arith))) in
      let body_is : next_body sn ≡ later =
        ap (drop 20) ntoh_is ∙ ap (λ (x : List ℕ). x ++ later) none in
      let kind_is = ap (λ (x : Header). x.kind) head_is ∙ kind in
      let flag_is = ap (λ (x : Header). x.flag) head_is ∙ sys in
      let memory = taken_memory s t (next_head sn) (next_body sn) kind_is flag_is goes in
      let len_is : one_mesg_len sn ≡ 20 =
        omega (arith, ap (λ (x : Header). x.len) head_is, im.len_is, ap length none) in
      let passed : (pass_mesg sn (take_mesg h s (next_head sn) (next_body sn)).1).unread
          ≡ swap_first (h.behind s) later =
        rw (memory, body_is, len_is, ntoh_is) refl in
      ap (λ (x : List ℕ). head_at (head_ntoh x)) passed ∙ swapped_head (h.behind s) m' rest im'
