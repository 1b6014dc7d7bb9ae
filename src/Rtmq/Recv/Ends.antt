-- ===== src/Rtmq/Recv/Ends.antt =====
-- `rtmq_rsvr_data_proc` on any bytes: its rounds and its aborts.
use mathlib.Core.Path.{subst}
use cctrl.Prelude.{
  ℕ, zero, suc, ◌+◌, ◌-◌, ◌%◌, ◌^◌, ◌<◌, ◌≤◌, ◌≡◌, ◌≢◌, refl, sym, ap, ◌∙◌, some, List, [], ◌∷◌,
  ◌++◌, length, take, drop, arith, length-append, length-take, length-drop, take-append-drop,
  dec_lt, ℕ_discrete, Bool, true, false, ◌==◌, ◌⊎◌, inl, inr,
}
use cctrl.Rtmq.Mesg.{Header, chksum_val, chksum_isvalid, head_at, head_ntoh, swap_words}
use cctrl.Rtmq.Mesg.Laws.{four, swap_words_twice, length-swap_words, head_at-append}
use cctrl.Rtmq.Recv.{
  Snap, Handler, Outcome, err, aborts, stall, next_head, one_mesg_len, next_body, pass_mesg,
  invalid, part, whole, find_mesg, all_well, swap_first, handle, take_mesg, data_proc,
}
use cctrl.Rtmq.Recv.Handling.{take_mesg-kept, length-take_mesg}
use cctrl.Rtmq.Recv.Loop.{Served-cases}

abbrev pub AreBytes : List ℕ → Type 0
AreBytes [] = Unit
AreBytes (b ∷ bs) = (b < 256) × AreBytes bs

AreBytes-drop : (n : ℕ) (bs : List ℕ) → AreBytes bs → AreBytes (drop n bs)
AreBytes-drop zero bs h = h
AreBytes-drop (suc n) [] h = h
AreBytes-drop (suc n) (b ∷ bs) h = AreBytes-drop n bs h.1

AreBytes-swap_words : (n : ℕ) (bs : List ℕ) → AreBytes bs → AreBytes (swap_words n bs)
unfolding swap_words
AreBytes-swap_words zero bs h = h
AreBytes-swap_words (suc n) [] h = h
AreBytes-swap_words (suc n) (a ∷ []) h = h
AreBytes-swap_words (suc n) (a ∷ b ∷ []) h = h
AreBytes-swap_words (suc n) (a ∷ b ∷ c ∷ []) h = h
AreBytes-swap_words (suc n) (a ∷ b ∷ c ∷ d ∷ bs) (p, (q, (r, (s, t)))) =
    (s, (r, (q, (p, AreBytes-swap_words n bs t))))

AreBytes-take : (n : ℕ) (bs : List ℕ) → AreBytes bs → AreBytes (take n bs)
AreBytes-take zero bs h = tt
AreBytes-take (suc n) [] h = tt
AreBytes-take (suc n) (b ∷ bs) h = (h.0, AreBytes-take n bs h.1)

AreBytes-append : (xs ys : List ℕ) → AreBytes xs → AreBytes ys → AreBytes (xs ++ ys)
AreBytes-append [] ys h k = k
AreBytes-append (x ∷ xs) ys h k = (h.0, AreBytes-append xs ys h.1 k)

AreBytes-swap_first : (f : ℕ → ℕ) (bs : List ℕ) → AreBytes bs → AreBytes (swap_first f bs)
unfolding swap_first
AreBytes-swap_first f [] h = tt
AreBytes-swap_first f (a ∷ []) h = (omega arith, tt)
AreBytes-swap_first f (a ∷ b ∷ []) h = (omega arith, (omega arith, tt))
AreBytes-swap_first f (a ∷ b ∷ c ∷ []) (p, (q, (r, t))) = (omega arith, (r, (q, t)))
AreBytes-swap_first f (a ∷ b ∷ c ∷ d ∷ bs) (p, (q, (r, (s, t)))) = (s, (r, (q, (p, t))))

-- The checksum in one byte order is not the checksum in the other.
abbrev OneOrder : List ℕ → Type 0
OneOrder m =
    AreBytes m → (head_at (head_ntoh m)).chksum ≡ chksum_val → (head_at m).chksum ≢ chksum_val

OneOrder-words :
    (a b c d a1 b1 c1 d1 a2 b2 c2 d2 a3 b3 c3 d3 a4 b4 c4 d4 : ℕ) (r : List ℕ)
    → OneOrder (
        a ∷ b ∷ c ∷ d ∷ a1 ∷ b1 ∷ c1 ∷ d1 ∷ a2 ∷ b2 ∷ c2 ∷ d2 ∷ a3 ∷ b3 ∷ c3 ∷ d3 ∷ a4 ∷ b4 ∷ c4
        ∷ d4 ∷ r)
unfolding swap_words
OneOrder-words a b c d a1 b1 c1 d1 a2 b2 c2 d2 a3 b3 c3 d3 a4 b4 c4 d4 r bytes p q =
    let last : (a4 < 256) × (b4 < 256) × (c4 < 256) × (d4 < 256) =
      let whole =
        a ∷ b ∷ c ∷ d ∷ a1 ∷ b1 ∷ c1 ∷ d1 ∷ a2 ∷ b2 ∷ c2 ∷ d2 ∷ a3 ∷ b3 ∷ c3 ∷ d3 ∷ a4 ∷ b4 ∷ c4
        ∷ d4 ∷ r in
      let (x, (y, (z, (w, v)))) = AreBytes-drop 16 whole bytes in (x, y, z, w) in
    omega (arith, p, q, last)

one_order : (m : List ℕ) → 20 ≤ length m → OneOrder m
one_order m h =
    let (a, b, c, d, r, e, l) = four m (omega (arith, h)) in
    let (a1, b1, c1, d1, r1, e1, l1) = four r (omega (arith, h, l)) in
    let (a2, b2, c2, d2, r2, e2, l2) = four r1 (omega (arith, h, l, l1)) in
    let (a3, b3, c3, d3, r3, e3, l3) = four r2 (omega (arith, h, l, l1, l2)) in
    let (a4, b4, c4, d4, r4, e4, l4) = four r3 (omega (arith, h, l, l1, l2, l3)) in
    let e34 = e3 ∙ ap (λ (x : List ℕ). a3 ∷ b3 ∷ c3 ∷ d3 ∷ x) e4 in
    let e234 = e2 ∙ ap (λ (x : List ℕ). a2 ∷ b2 ∷ c2 ∷ d2 ∷ x) e34 in
    let e1234 = e1 ∙ ap (λ (x : List ℕ). a1 ∷ b1 ∷ c1 ∷ d1 ∷ x) e234 in
    let whole = e ∙ ap (λ (x : List ℕ). a ∷ b ∷ c ∷ d ∷ x) e1234 in
    subst OneOrder (sym whole)
      (OneOrder-words a b c d a1 b1 c1 d1 a2 b2 c2 d2 a3 b3 c3 d3 a4 b4 c4 d4 r4)

module _ {ℓ} {S : Type ℓ} (h : Handler S) where
  find_mesg-cases :
      (sn : Snap)
      → (find_mesg sn ≡ invalid)
        ⊎ ((find_mesg sn ≡ part)
            ⊎ ((find_mesg sn ≡ whole)
                × (20 ≤ length sn.unread % 2 ^ 32)
                × ((next_head sn).chksum ≡ chksum_val)
                × (one_mesg_len sn ≤ length sn.unread % 2 ^ 32)))
  find_mesg-cases sn = elim (dec_lt (length sn.unread % 2 ^ 32) 20) [
    | yes l ↦ inr (inl (ground (arith, l)))
    | no n ↦ elim (ℕ_discrete (next_head sn).chksum chksum_val) [
      | no bad ↦ inl (ground (arith, n, bad))
      | yes good ↦ elim (dec_lt (length sn.unread % 2 ^ 32) (one_mesg_len sn)) [
        | yes l ↦ inr (inl (ground (arith, n, good, l)))
        | no m ↦ inr (inr (ground (arith, n, good, m), omega (arith, n), good, omega (arith, m)))
      ]
    ]
  ]

  -- After a message whose length wraps to 0 the header, by now converted, is refused.
  stuck :
      (sn : Snap) (memory : Bool) (fuel : ℕ) (t : S) (body : List ℕ)
      → AreBytes sn.unread
      → length body ≡ length (next_body sn)
      → length sn.unread < 2 ^ 32
      → 20 ≤ length sn.unread
      → (next_head sn).chksum ≡ chksum_val
      → one_mesg_len sn ≡ 0
      → data_proc h (suc fuel) memory (pass_mesg sn body) t ≡ some aborts
  unfolding data_proc
  stuck sn memory fuel t body bytes same small long good zero_len =
      let X = head_ntoh sn.unread in
      let unmoved : (pass_mesg sn body).unread ≡ take 20 X ++ body = rw zero_len refl in
      let size = length-swap_words 5 sn.unread in
      let front = length-take 20 X in
      let twenty : 20 ≤ length (take 20 X) = omega (arith, front, size, long) in
      let back : next_head (pass_mesg sn body) ≡ head_at sn.unread =
        ap (λ (u : List ℕ). head_at (head_ntoh u)) unmoved
        ∙ head_at-append (take 20 X) body twenty
        ∙ sym (head_at-append (take 20 X) (drop 20 X) twenty)
        ∙ ap (λ (u : List ℕ). head_at (head_ntoh u)) (take-append-drop 20 X)
        ∙ ap head_at (swap_words_twice 5 sn.unread) in
      let other = one_order sn.unread long bytes good in
      let chksum = ap (λ (x : Header). x.chksum) back in
      let len : length (pass_mesg sn body).unread ≡ length sn.unread =
        ap length unmoved
        ∙ omega
            (arith, length-append (take 20 X) body, front, size, long, same, length-drop 20 X) in
      let refused : find_mesg (pass_mesg sn body) ≡ invalid =
        ground (arith, other, chksum, len, small, long) in
      rw (refused, data_proc) refl

  -- A handler leaves as many bytes behind the header as there were, and leaves bytes.
  length-passed :
      (sn : Snap) (s : S)
      → 20 ≤ length sn.unread
      → length (pass_mesg sn (take_mesg h s (next_head sn) (next_body sn)).1).unread
        ≡ length sn.unread - one_mesg_len sn
  length-passed sn s long =
      let X = head_ntoh sn.unread in
      let body = (take_mesg h s (next_head sn) (next_body sn)).1 in
      length-drop (one_mesg_len sn) (take 20 X ++ body)
      ∙ ap (λ (k : ℕ). k - one_mesg_len sn)
          (omega (
            arith,
            length-append (take 20 X) body,
            length-take 20 X,
            length-take_mesg h s (next_head sn) (next_body sn),
            length-drop 20 X,
            length-swap_words 5 sn.unread,
            long,
          ))

  AreBytes-taken :
      (sn : Snap) (s : S)
      → AreBytes sn.unread
      → AreBytes (take_mesg h s (next_head sn) (next_body sn)).1
  AreBytes-taken sn s bytes =
      let before = AreBytes-drop 20 (head_ntoh sn.unread) (AreBytes-swap_words 5 sn.unread bytes) in
      take_mesg-kept h AreBytes s (next_head sn) (next_body sn) before
        (AreBytes-swap_first (h.behind s) (next_body sn) before)

  ends :
      (fuel : ℕ) (memory : Bool) (sn : Snap) (s : S)
      → AreBytes sn.unread
      → length sn.unread < 2 ^ 32
      → length sn.unread + 2 ≤ fuel
      → (o : Outcome S) × (data_proc h fuel memory sn s ≡ some o)
  unfolding data_proc
  ends zero memory sn s bytes small f = absurd (omega (arith, f))
  ends (suc fuel) memory sn s bytes small f = elim (find_mesg-cases sn) [
    | inl e ↦ (aborts, rw (e, data_proc) refl)
    | inr (inl e) ↦ (stall memory sn s, rw (e, data_proc) refl)
    | inr (inr (e, long, good, inside)) ↦
        elim (Served-cases h (take_mesg h s (next_head sn) (next_body sn)).0) [
          | inr (t, y) ↦ (err t, rw (e, data_proc) (rw y refl))
          | inl (t, y) ↦ elim (ℕ_discrete (one_mesg_len sn) 0) [
            | yes z ↦
                let more : fuel ≡ suc (fuel - 1) = omega (arith, f) in
                let stops =
                  stuck sn memory (fuel - 1) t (take_mesg h s (next_head sn) (next_body sn)).1 bytes
                    (length-take_mesg h s (next_head sn) (next_body sn)) small (omega (arith, long))
                    good z in
                (
                  aborts,
                  rw (e, data_proc)
                      (rw y (
                        ap
                          (λ (k : ℕ).
                            data_proc h k memory
                              (pass_mesg sn (take_mesg h s (next_head sn) (next_body sn)).1) t)
                          more
                        ∙ stops)),
                )
            | no nz ↦
                let X = head_ntoh sn.unread in
                let body = (take_mesg h s (next_head sn) (next_body sn)).1 in
                let passed = length-passed sn s (omega (arith, long)) in
                let (o, r) =
                  ends fuel memory (pass_mesg sn body) t
                    (AreBytes-drop (one_mesg_len sn) (take 20 X ++ body) (
                      AreBytes-append (take 20 X) body
                        (AreBytes-take 20 X (AreBytes-swap_words 5 sn.unread bytes))
                        (AreBytes-taken sn s bytes)))
                    (omega (arith, passed, small))
                    (omega (arith, passed, f, nz, inside, small, long)) in
                (o, rw (e, data_proc) (rw y r))
          ]
        ]
  ]

  exp_taken :
      (s : S) (head : Header) (body : List ℕ)
      → head.chksum ≡ chksum_val
      → head.flag ≢ 0
      → (t : S) × ((take_mesg h s head body).0 ≡ all_well t)
  unfolding take_mesg handle
  exp_taken s head body good exp =
      let valid : chksum_isvalid head ≡ true = ground (arith, good) in
      let no_system : (head.flag == 0) ≡ false = ground (arith, exp) in
      (
        h.exp_mesg_proc s (record { head = head; body = take head.len body }),
        rw (valid, take_mesg) (rw (no_system, handle) refl),
      )

  -- On any bytes of a buffer with less than 4 GB unread, also those that are no messages, the loop ends:
  -- with `OK`, with an error or by an abort. It takes at most two rounds more than there are bytes.
  pub data_proc-ends :
      (memory : Bool) (sn : Snap) (s : S)
      → AreBytes sn.unread
      → length sn.unread < 2 ^ 32
      → (o : Outcome S) × (data_proc h (length sn.unread + 2) memory sn s ≡ some o)
  data_proc-ends memory sn s bytes small =
      ends (length sn.unread + 2) memory sn s bytes small (omega arith)

  -- A peer aborts the process, when at least a header and less than 4 GB are unread: by a header with a
  -- wrong checksum, or by a right one of a message that is no system message and whose length with its
  -- header wraps to 0.
  pub data_proc-aborts :
      (memory : Bool) (sn : Snap) (s : S)
      → AreBytes sn.unread
      → 20 ≤ length sn.unread
      → length sn.unread < 2 ^ 32
      → ((next_head sn).chksum ≢ chksum_val)
        ⊎ (((next_head sn).chksum ≡ chksum_val)
            × ((next_head sn).flag ≢ 0)
            × ((next_head sn).len ≡ 2 ^ 32 - 20))
      → data_proc h (length sn.unread + 2) memory sn s ≡ some aborts
  unfolding data_proc
  data_proc-aborts memory sn s bytes long small (inl bad) =
      let fuel : length sn.unread + 2 ≡ suc (length sn.unread + 1) = omega arith in
      let e : find_mesg sn ≡ invalid = ground (arith, long, small, bad) in
      rw (fuel, data_proc) (rw e refl)
  data_proc-aborts memory sn s bytes long small (inr (good, exp, len)) =
      let fuel : length sn.unread + 2 ≡ suc (suc (length sn.unread)) = omega arith in
      let zero_len : one_mesg_len sn ≡ 0 = omega (arith, len) in
      let e : find_mesg sn ≡ whole = ground (arith, long, small, good, zero_len) in
      let (t, taken) = exp_taken s (next_head sn) (next_body sn) good exp in
      let stops =
        stuck sn memory (length sn.unread) t (take_mesg h s (next_head sn) (next_body sn)).1 bytes
          (length-take_mesg h s (next_head sn) (next_body sn)) small long good zero_len in
      rw (fuel, data_proc) (rw e (rw taken stops))
