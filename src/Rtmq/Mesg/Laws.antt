-- ===== src/Rtmq/Mesg/Laws.antt =====
-- What becomes of a header on its way through the byte orders of rtmq_mesg.h.
use cctrl.Prelude.{
  ℕ, zero, suc, ◌+◌, ◌*◌, ◌/◌, ◌%◌, ◌^◌, ◌<◌, ◌≤◌, ◌≡◌, refl, sym, ◌∙◌, List, [], ◌∷◌, ◌++◌, length,
  take, drop, arith,
}
use cctrl.Rtmq.Mesg.{Header, Mesg, chksum_val, head_bytes, head_at, swap_words, head_ntoh, wire}

-- A message as the code builds it: its fields are words, its length is that of its body.
pub record IsMesg (m : Mesg) : Type 0 where
  pub kind_small : m.head.kind < 2 ^ 32
  pub nid_small : m.head.nid < 2 ^ 32
  pub flag_small : m.head.flag < 2 ^ 32
  pub len_small : m.head.len < 2 ^ 32
  pub chksum_is : m.head.chksum ≡ chksum_val
  pub len_is : m.head.len ≡ length m.body

pub word_lem :
    (n : ℕ)
    → n < 2 ^ 32
    → n % 256
        + 256 * (n / 256 % 256 + 256 * (n / 256 / 256 % 256 + 256 * (n / 256 / 256 / 256 % 256)))
      ≡ n
word_lem n h = omega arith

-- The receiver's conversion gives back the memory of the sender.
pub swap_words_twice : (n : ℕ) (m : List ℕ) → swap_words n (swap_words n m) ≡ m
unfolding swap_words
swap_words_twice zero m = refl
swap_words_twice (suc n) [] = refl
swap_words_twice (suc n) (a ∷ []) = refl
swap_words_twice (suc n) (a ∷ b ∷ []) = refl
swap_words_twice (suc n) (a ∷ b ∷ c ∷ []) = refl
swap_words_twice (suc n) (a ∷ b ∷ c ∷ d ∷ m) = rw (swap_words_twice n m) refl

pub length-swap_words : (n : ℕ) (m : List ℕ) → length (swap_words n m) ≡ length m
unfolding swap_words
length-swap_words zero m = refl
length-swap_words (suc n) [] = refl
length-swap_words (suc n) (a ∷ []) = refl
length-swap_words (suc n) (a ∷ b ∷ []) = refl
length-swap_words (suc n) (a ∷ b ∷ c ∷ []) = refl
length-swap_words (suc n) (a ∷ b ∷ c ∷ d ∷ m) = rw (length-swap_words n m) refl

module _ (h : Header) (rest : List ℕ) where
  pub head_at-bytes :
      h.kind < 2 ^ 32
      → h.nid < 2 ^ 32
      → h.flag < 2 ^ 32
      → h.len < 2 ^ 32
      → h.chksum < 2 ^ 32
      → head_at (head_bytes h ++ rest) ≡ h
  head_at-bytes a b c d e =
      rw
        (
          word_lem h.kind a,
          word_lem h.nid b,
          word_lem h.flag c,
          word_lem h.len d,
          word_lem h.chksum e,
        )
        refl

module _ {ℓ} {A : Type ℓ} where
  drop-nil : (n : ℕ) → drop {A = A} n [] ≡ []
  drop-nil zero = refl
  drop-nil (suc n) = refl

  pub drop-add : (a b : ℕ) (xs : List A) → drop (a + b) xs ≡ drop b (drop a xs)
  drop-add zero b xs = let e : 0 + b ≡ b = omega arith in rw e refl
  drop-add (suc a) b [] = drop-nil (suc a + b) ∙ sym (drop-nil b)
  drop-add (suc a) b (x ∷ xs) =
      let e : suc a + b ≡ suc (a + b) = omega arith in rw e (drop-add a b xs)

  pub take-append_length : (xs ys : List A) → take (length xs) (xs ++ ys) ≡ xs
  take-append_length [] ys = refl
  take-append_length (x ∷ xs) ys = rw (take-append_length xs ys) refl

  pub drop-append_length : (xs ys : List A) → drop (length xs) (xs ++ ys) ≡ ys
  drop-append_length [] ys = refl
  drop-append_length (x ∷ xs) ys = drop-append_length xs ys

  -- A list of four and more elements.
  pub four :
      (xs : List A)
      → 4 ≤ length xs
      → (a b c d : A) × (r : List A) × (xs ≡ a ∷ b ∷ c ∷ d ∷ r) × (length r + 4 ≡ length xs)
  four [] h = absurd (omega (arith, h))
  four (a ∷ []) h = absurd (omega (arith, h))
  four (a ∷ b ∷ []) h = absurd (omega (arith, h))
  four (a ∷ b ∷ c ∷ []) h = absurd (omega (arith, h))
  four (a ∷ b ∷ c ∷ d ∷ r) h = (a, b, c, d, r, refl, omega arith)

pub length-wire : (m : Mesg) → length (wire m) ≡ 20 + length m.body
unfolding swap_words
length-wire m = omega arith

pub wire-ntoh :
    (m : Mesg) (rest : List ℕ) → head_ntoh (wire m ++ rest) ≡ head_bytes m.head ++ (m.body ++ rest)
unfolding swap_words
wire-ntoh m rest = refl

-- The header at the start of a memory stands in its first twenty bytes.
pub head_at-append :
    (xs ys : List ℕ) → 20 ≤ length xs → head_at (head_ntoh (xs ++ ys)) ≡ head_at (head_ntoh xs)
unfolding swap_words
head_at-append xs ys h =
    let (a, b, c, d, r, e, l) = four xs (omega (arith, h)) in
    let (a1, b1, c1, d1, r1, e1, l1) = four r (omega (arith, h, l)) in
    let (a2, b2, c2, d2, r2, e2, l2) = four r1 (omega (arith, h, l, l1)) in
    let (a3, b3, c3, d3, r3, e3, l3) = four r2 (omega (arith, h, l, l1, l2)) in
    let (a4, b4, c4, d4, r4, e4, l4) = four r3 (omega (arith, h, l, l1, l2, l3)) in
    rw (e, e1, e2, e3, e4) refl
