-- ===== src/Rtmq/Recv/Loop.antt =====
-- The loop of `rtmq_rsvr_data_proc` on the bytes of messages.
use cctrl.Prelude.{
  ℕ, suc, ◌+◌, ◌-◌, ◌^◌, ◌<◌, ◌≤◌, ◌≡◌, refl, sym, ap, ◌∙◌, Bool, Option, some, List, [], ◌∷◌, ◌++◌,
  length, drop, arith, length-append, inl, inr, ◌⊎◌, append_assoc,
}
use cctrl.Rtmq.Mesg.{Header, Mesg, head_size, head_ntoh, head_bytes, wire, wire_all}
use cctrl.Rtmq.Mesg.Laws.{
  IsMesg, head_at-bytes, drop-add, drop-append_length, length-wire, wire-ntoh,
}
use cctrl.Rtmq.Recv.Handling.{IsSound, take_mesg-Before, length-take_mesg}
use cctrl.Rtmq.Recv.{
  Snap, iptr, Handler, Outcome, err, next_head, one_mesg_len, next_body, pass_mesg, whole,
  find_mesg, take_mesg, Served, all_well, failed, data_proc,
}

-- A message that a buffer of the size can take, as long as its handler expects.
pub record Fits (size : ℕ) (m : Mesg) : Type 0 where
  pub is_mesg : IsMesg m
  pub fits : 20 + length m.body ≤ size
  pub sound : IsSound m

abbrev pub AllFit : ℕ → List Mesg → Type 0
AllFit size [] = Unit
AllFit size (m ∷ ms) = Fits size m × AllFit size ms

-- A snapshot that starts with a message.
module _ (sn : Snap) (m : Mesg) (rest : List ℕ) (starts : sn.unread ≡ wire m ++ rest)
    (fits : Fits sn.size m) (small : sn.size < 2 ^ 32) (inside : length sn.unread ≤ sn.size) where
  ntoh_is : head_ntoh sn.unread ≡ head_bytes m.head ++ (m.body ++ rest)
  ntoh_is = rw starts (wire-ntoh m rest)

  next_head_is : next_head sn ≡ m.head
  next_head_is = rw ntoh_is (
      head_at-bytes m.head (m.body ++ rest) fits.is_mesg.kind_small fits.is_mesg.nid_small
        fits.is_mesg.flag_small fits.is_mesg.len_small (rw fits.is_mesg.chksum_is (omega arith)))

  one_mesg_len_is : one_mesg_len sn ≡ 20 + length m.body
  one_mesg_len_is =
      let e = ap (λ (h : Header). h.len) next_head_is in
      omega (arith, e, fits.is_mesg.len_is, fits.fits, small)

  length_unread : length sn.unread ≡ 20 + length m.body + length rest
  length_unread =
      let e = ap length starts in omega (arith, e, length-append (wire m) rest, length-wire m)

  find_mesg_is : find_mesg sn ≡ whole
  find_mesg_is =
      let e = ap (λ (h : Header). h.chksum) next_head_is in
      ground (arith, e, fits.is_mesg.chksum_is, one_mesg_len_is, length_unread, small, inside)

  next_body_is : next_body sn ≡ m.body ++ rest
  next_body_is = ap (drop head_size) ntoh_is

  pass_mesg_is :
      (body : List ℕ) → length body ≡ length m.body → (pass_mesg sn (body ++ rest)).unread ≡ rest
  pass_mesg_is body same =
      rw
        (
          one_mesg_len_is,
          ntoh_is,
          sym same,
          drop-add 20 (length body) (head_bytes m.head ++ (body ++ rest)),
        )
        (drop-append_length body rest)

module _ {ℓ} {S : Type ℓ} (h : Handler S) where
  -- Messages are handled one by one until one of them fails.
  unfoldable pub serve : S → List Mesg → Served S
  serve s [] = all_well s
  serve s (m ∷ ms) = elim (take_mesg h s m.head m.body).0 [
    | failed t ↦ failed t
    | all_well t ↦ serve t ms
  ]

  pub Served-cases : (r : Served S) → ((t : S) × (r ≡ all_well t)) ⊎ ((t : S) × (r ≡ failed t))
  Served-cases (all_well t) = inl (t, refl)
  Served-cases (failed t) = inr (t, refl)

  abbrev pub serve_more : Served S → List Mesg → Served S
  serve_more (all_well t) ms = serve t ms
  serve_more (failed t) ms = failed t

  pub serve-append : (s : S) (ms ns : List Mesg) → serve s (ms ++ ns) ≡ serve_more (serve s ms) ns
  unfolding serve
  serve-append s [] ns = refl
  serve-append s (m ∷ ms) ns = elim (Served-cases (take_mesg h s m.head m.body).0) [
    | inl (t, y) ↦ rw (y, serve) (serve-append t ms ns)
    | inr (t, y) ↦ rw (y, serve) refl
  ]

  -- What the loop does after the messages.
  abbrev pub goes_on : ℕ → Bool → Snap → Served S → Option (Outcome S)
  goes_on fuel memory sn (all_well t) = data_proc h fuel memory sn t
  goes_on fuel memory sn (failed t) = some (err t)

  -- A snapshot that starts with the messages, in one that has passed them.
  pub record Passed (sn : Snap) (rest : List ℕ) (sn' : Snap) : Type 0 where
    pub same_size : sn'.size ≡ sn.size
    pub same_iptr : iptr sn' ≡ iptr sn
    pub unread_is : sn'.unread ≡ rest

  -- The loop on messages handles them in order, and goes on with what follows.
  pub data_proc-serve :
      (ms : List Mesg) (rest : List ℕ) (fuel : ℕ) (memory : Bool) (sn : Snap) (s : S)
      → AllFit sn.size ms
      → sn.size < 2 ^ 32
      → length sn.unread ≤ sn.size
      → sn.unread ≡ wire_all ms ++ rest
      → (sn' : Snap) × Passed sn rest sn'
        × (data_proc h (fuel + length ms) memory sn s ≡ goes_on fuel memory sn' (serve s ms))
  unfolding data_proc serve
  data_proc-serve [] rest fuel memory sn s fit small inside e =
      let none_left : fuel + 0 ≡ fuel = omega arith in
      (sn, record { same_size = refl; same_iptr = refl; unread_is = e }, rw none_left refl)
  data_proc-serve (m ∷ ms) rest fuel memory sn s (fit, fits) small inside e =
      let starts : sn.unread ≡ wire m ++ (wire_all ms ++ rest) =
        e ∙ append_assoc (wire m) (wire_all ms) rest in
      let taken = length_unread sn m (wire_all ms ++ rest) starts fit small inside in
      let more : fuel + suc (length ms) ≡ suc (fuel + length ms) = omega arith in
      let body = (take_mesg h s m.head m.body).1 in
      let next_len = one_mesg_len_is sn m (wire_all ms ++ rest) starts fit small inside in
      let find = find_mesg_is sn m (wire_all ms ++ rest) starts fit small inside in
      let head_is = next_head_is sn m (wire_all ms ++ rest) starts fit small inside in
      let body_is = next_body_is sn m (wire_all ms ++ rest) starts fit small inside in
      let mesg : take_mesg h s (next_head sn) (next_body sn)
          ≡ ((take_mesg h s m.head m.body).0, body ++ (wire_all ms ++ rest)) =
        ap (λ (x : Header). take_mesg h s x (next_body sn)) head_is
        ∙ ap (take_mesg h s m.head) body_is
        ∙ take_mesg-Before h s m (wire_all ms ++ rest) fit.sound fit.is_mesg.len_is in
      let sizes = length-append (wire_all ms) rest in
      let next = pass_mesg sn (take_mesg h s (next_head sn) (next_body sn)).1 in
      let next_unread : next.unread ≡ wire_all ms ++ rest =
        ap (λ (x : List ℕ). (pass_mesg sn x).unread) (ap (λ r. r.1) mesg)
        ∙ pass_mesg_is sn m (wire_all ms ++ rest) starts fit small inside body
            (length-take_mesg h s m.head m.body) in
      elim (Served-cases (take_mesg h s m.head m.body).0) [
        | inr (t, y) ↦
            let result = ap (λ r. r.0) mesg ∙ y in
            (
              record sn { optr = iptr sn - length rest; unread = rest },
              record {
                same_size = refl;
                same_iptr = omega (arith, taken, sizes);
                unread_is = refl;
              },
              rw (more, y, serve) (rw (find, data_proc) (rw result refl)),
            )
        | inl (t, y) ↦
            let result = ap (λ r. r.0) mesg ∙ y in
            let next_length = ap length next_unread in
            let (sn', p, q) =
              data_proc-serve ms rest fuel memory next t fits small
                (omega (arith, next_length, taken, inside)) next_unread in
            (
              sn',
              record {
                same_size = p.same_size;
                same_iptr = p.same_iptr ∙ omega (arith, next_len, next_length, taken);
                unread_is = p.unread_is;
              },
              rw (more, y, serve) (rw (find, data_proc) (rw result q)),
            )
      ]
