-- ===== src/Rtmq/Recv/Handling.antt =====
-- What the handlers of rtmq_rsvr.c make of a message that stands in the receive buffer before others.
use cctrl.Prelude.{
  ℕ, zero, suc, ◌≤◌, ◌≡◌, refl, sym, ap, ◌∙◌, Bool, true, false, ◌==◌, Bool-cases, inl, inr, List,
  [], ◌∷◌, ◌++◌, length, take, arith, ℕ_discrete, append-nil,
}
use cctrl.Rtmq.Mesg.{Header, Mesg, chksum_isvalid, word_at}
use cctrl.Rtmq.Mesg.Laws.{take-append_length}
use cctrl.Rtmq.Recv.{
  Handler, auth_req, sub_req, kpalive_req, auth_size, sub_size, window, swap_first,
  link_auth_req_hdl, sub_req_hdl, keepalive_req_hdl, sys_mesg_proc, handle, served_by, take_mesg,
}

-- A system message is as long as the structure that its handler reads.
pub record IsSound (m : Mesg) : Type 0 where
  pub auth : m.head.flag ≡ 0 → m.head.kind ≡ auth_req → auth_size ≤ length m.body
  pub sub : m.head.flag ≡ 0 → m.head.kind ≡ sub_req → sub_size ≤ length m.body

window-append :
    (n : ℕ) (xs ys : List ℕ) (f : ℕ → ℕ) → n ≤ length xs → window n (xs ++ ys) f ≡ window n xs f
unfolding window
window-append zero xs ys f h = refl
window-append (suc n) [] ys f h = absurd (omega (arith, h))
window-append (suc n) (x ∷ xs) ys f h =
    ap (λ (t : List ℕ). x ∷ t) (window-append n xs ys f (omega (arith, h)))

swap_first-append :
    (f : ℕ → ℕ) (xs ys : List ℕ) → 4 ≤ length xs → swap_first f (xs ++ ys) ≡ swap_first f xs ++ ys
unfolding swap_first
swap_first-append f [] ys h = absurd (omega (arith, h))
swap_first-append f (a ∷ []) ys h = absurd (omega (arith, h))
swap_first-append f (a ∷ b ∷ []) ys h = absurd (omega (arith, h))
swap_first-append f (a ∷ b ∷ c ∷ []) ys h = absurd (omega (arith, h))
swap_first-append f (a ∷ b ∷ c ∷ d ∷ xs) ys h = refl

pub length-swap_first : (f : ℕ → ℕ) (xs : List ℕ) → length (swap_first f xs) ≡ length xs
unfolding swap_first
length-swap_first f [] = refl
length-swap_first f (a ∷ []) = refl
length-swap_first f (a ∷ b ∷ []) = refl
length-swap_first f (a ∷ b ∷ c ∷ []) = refl
length-swap_first f (a ∷ b ∷ c ∷ d ∷ xs) = refl

module _ {ℓ} {S : Type ℓ} where
  served_by-Before :
      (fails : Bool) (s : S) (body rest : List ℕ)
      → served_by (fails, s, body ++ rest)
        ≡ ((served_by (fails, s, body)).0, (served_by (fails, s, body)).1 ++ rest)
  served_by-Before true s body rest = refl
  served_by-Before false s body rest = refl

  served_by-kept {κ} :
      (P : List ℕ → Type κ) (fails : Bool) (s : S) (body : List ℕ)
      → P body
      → P (served_by (fails, s, body)).1
  served_by-kept P true s body p = p
  served_by-kept P false s body p = p

module _ {ℓ} {S : Type ℓ} (h : Handler S) where
  -- What `body ++ rest` is turned into, against what `body` is.
  abbrev Before : Bool × S × List ℕ → Bool × S × List ℕ → List ℕ → Type ℓ
  Before r q rest = r ≡ (q.0, q.1, q.2 ++ rest)

  link_auth_req_hdl-Before :
      (s : S) (m : Mesg) (rest : List ℕ)
      → auth_size ≤ length m.body
      → Before
          (link_auth_req_hdl h s m.head (m.body ++ rest))
          (link_auth_req_hdl h s m.head m.body)
          rest
  link_auth_req_hdl-Before s m rest l =
      let f = h.behind s in
      let whole = window-append auth_size m.body rest f l in
      let first = window-append 4 m.body rest f (omega (arith, l)) in
      let swapped = swap_first-append f m.body rest (omega (arith, l)) in
      elim (Bool-cases (word_at (window 4 m.body f) == 0)) [
        | inl y ↦ rw (whole, first, swapped) (rw y refl)
        | inr n ↦ rw (whole, first, swapped) (rw n refl)
      ]

  sub_req_hdl-Before :
      (s : S) (m : Mesg) (rest : List ℕ)
      → sub_size ≤ length m.body
      → Before (sub_req_hdl h s m.head (m.body ++ rest)) (sub_req_hdl h s m.head m.body) rest
  sub_req_hdl-Before s m rest l =
      let f = h.behind s in
      let whole = window-append sub_size m.body rest f l in
      let swapped = swap_first-append f m.body rest l in
      elim (Bool-cases (h.auth_succ s)) [
        | inl y ↦ rw (whole, swapped) (rw y refl)
        | inr n ↦ rw (whole, swapped) (rw n refl)
      ]

  keepalive_req_hdl-Before :
      (s : S) (body rest : List ℕ)
      → Before (keepalive_req_hdl h s (body ++ rest)) (keepalive_req_hdl h s body) rest
  keepalive_req_hdl-Before s body rest = elim (Bool-cases (h.auth_succ s)) [
    | inl y ↦ rw y refl
    | inr n ↦ rw n refl
  ]

  sys_mesg_proc-Before :
      (s : S) (m : Mesg) (rest : List ℕ)
      → IsSound m
      → m.head.flag ≡ 0
      → Before (sys_mesg_proc h s m.head (m.body ++ rest)) (sys_mesg_proc h s m.head m.body) rest
  sys_mesg_proc-Before s m rest sound sys = elim (ℕ_discrete m.head.kind auth_req) [
    | yes y ↦
        let b : (m.head.kind == auth_req) ≡ true = ground (arith, y) in
        rw b (link_auth_req_hdl-Before s m rest (sound.auth sys y))
    | no n ↦
        let b : (m.head.kind == auth_req) ≡ false = ground (arith, n) in
        elim (ℕ_discrete m.head.kind sub_req) [
          | yes y ↦
              let c : (m.head.kind == sub_req) ≡ true = ground (arith, y) in
              rw (b, c) (sub_req_hdl-Before s m rest (sound.sub sys y))
          | no k ↦
              let c : (m.head.kind == sub_req) ≡ false = ground (arith, k) in
              elim (Bool-cases (m.head.kind == kpalive_req)) [
                | inl e ↦ rw (b, c, e) (keepalive_req_hdl-Before s m.body rest)
                | inr e ↦ rw (b, c, e) refl
              ]
        ]
  ]

  handle-Before :
      (s : S) (m : Mesg) (rest : List ℕ)
      → IsSound m
      → m.head.len ≡ length m.body
      → Before (handle h s m.head (m.body ++ rest)) (handle h s m.head m.body) rest
  unfolding handle
  handle-Before s m rest sound len = elim (ℕ_discrete m.head.flag 0) [
    | yes y ↦
        let b : (m.head.flag == 0) ≡ true = ground (arith, y) in
        rw b (sys_mesg_proc-Before s m rest sound y)
    | no n ↦
        let b : (m.head.flag == 0) ≡ false = ground (arith, n) in
        let here : take m.head.len (m.body ++ rest) ≡ take m.head.len m.body = rw len (
          take-append_length m.body rest
          ∙ sym (
              ap (take (length m.body)) (sym (append-nil m.body))
              ∙ take-append_length m.body [])) in
        rw (b, here) refl
  ]

  -- Whatever stands behind a message, its handler does the same and leaves that as it is.
  pub take_mesg-Before :
      (s : S) (m : Mesg) (rest : List ℕ)
      → IsSound m
      → m.head.len ≡ length m.body
      → take_mesg h s m.head (m.body ++ rest)
        ≡ ((take_mesg h s m.head m.body).0, (take_mesg h s m.head m.body).1 ++ rest)
  unfolding take_mesg
  take_mesg-Before s m rest sound len =
      let same = handle-Before s m rest sound len in
      elim (Bool-cases (chksum_isvalid m.head)) [
        | inr n ↦ rw (n, take_mesg) refl
        | inl y ↦
            rw (y, take_mesg)
              (ap served_by same
                ∙ served_by-Before (handle h s m.head m.body).0 (handle h s m.head m.body).1
                    (handle h s m.head m.body).2 rest)
      ]

  handle-kept {κ} :
      (P : List ℕ → Type κ) (s : S) (head : Header) (body : List ℕ)
      → P body
      → P (swap_first (h.behind s) body)
      → P (handle h s head body).2
  unfolding handle
  handle-kept P s head body p q = elim (Bool-cases (head.flag == 0)) [
    | inr n ↦ rw n p
    | inl y ↦ elim (Bool-cases (head.kind == auth_req)) [
      | inl a ↦ elim (Bool-cases (word_at (window 4 body (h.behind s)) == 0)) [
        | inl z ↦ rw (y, a) (rw z p)
        | inr z ↦ rw (y, a) (rw z q)
      ]
      | inr a ↦ elim (Bool-cases (head.kind == sub_req)) [
        | inl b ↦ elim (Bool-cases (h.auth_succ s)) [
          | inl z ↦ rw (y, a, b) (rw z q)
          | inr z ↦ rw (y, a, b) (rw z p)
        ]
        | inr b ↦ elim (Bool-cases (head.kind == kpalive_req)) [
          | inl c ↦ elim (Bool-cases (h.auth_succ s)) [
            | inl z ↦ rw (y, a, b, c) (rw z p)
            | inr z ↦ rw (y, a, b, c) (rw z p)
          ]
          | inr c ↦ rw (y, a, b, c) p
        ]
      ]
    ]
  ]

  -- What holds of the memory behind a header, and after the reversal of its first word, holds of what a
  -- handler leaves there.
  pub take_mesg-kept {κ} :
      (P : List ℕ → Type κ) (s : S) (head : Header) (body : List ℕ)
      → P body
      → P (swap_first (h.behind s) body)
      → P (take_mesg h s head body).1
  unfolding take_mesg
  take_mesg-kept P s head body p q = elim (Bool-cases (chksum_isvalid head)) [
    | inr n ↦ rw (n, take_mesg) p
    | inl y ↦
        let r = handle h s head body in
        rw (y, take_mesg) (served_by-kept P r.0 r.1 r.2 (handle-kept P s head body p q))
  ]

  pub length-take_mesg :
      (s : S) (head : Header) (body : List ℕ) → length (take_mesg h s head body).1 ≡ length body
  length-take_mesg s head body =
      take_mesg-kept (λ (xs : List ℕ). length xs ≡ length body) s head body refl
        (length-swap_first (h.behind s) body)
