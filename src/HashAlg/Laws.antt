-- ===== src/HashAlg/Laws.antt =====
-- What the hash functions of hash_alg.c compute.
use cctrl.Prelude.{
  ℕ, ◌+◌, ◌*◌, ◌%◌, ◌^◌, ◌≡◌, ◌≢◌, refl, ◌∙◌, ◌==◌, false, some, List, [], ◌∷◌, ◌++◌, length,
  bit_and, arith,
}
use cctrl.Prelude.Bits.{bit_and-mask}
use cctrl.HashAlg.{extended, mix, scan, scan_ex, hash_time33, hash_time33_ex}

-- The number whose digits to the base 33 are the bytes, with `h` in front.
abbrev pub in_base_33 : ℕ → List ℕ → ℕ
in_base_33 h [] = h
in_base_33 h (b ∷ bs) = in_base_33 (33 * h + extended b) bs

abbrev pub NonZero : List ℕ → Type 0
NonZero [] = Unit
NonZero (b ∷ bs) = (b ≢ 0) × NonZero bs

mix_lem : (h b : ℕ) → mix (h % 2 ^ 64) b ≡ (33 * h + extended b) % 2 ^ 64
mix_lem h b = wrapped (extended b)
  where
    wrapped :
        (c : ℕ)
        → (h % 2 ^ 64 + (h % 2 ^ 64 * 32 % 2 ^ 64 + c) % 2 ^ 64) % 2 ^ 64 ≡ (33 * h + c) % 2 ^ 64
    wrapped c = omega arith

scan_lem :
    (h : ℕ) (s rest : List ℕ)
    → NonZero s
    → scan (h % 2 ^ 64) (s ++ 0 ∷ rest) ≡ some (in_base_33 h s % 2 ^ 64)
unfolding scan
scan_lem h [] rest n = refl
scan_lem h (b ∷ s) rest n =
    let not_end : (b == 0) ≡ false = ground (arith, n.0) in
    rw (not_end, mix_lem h b) (scan_lem (33 * h + extended b) s rest n.1)

scan_ex_lem :
    (h : ℕ) (s rest : List ℕ)
    → scan_ex (h % 2 ^ 64) (length s) (s ++ rest) ≡ some (in_base_33 h s % 2 ^ 64)
unfolding scan_ex
scan_ex_lem h [] rest = refl
scan_ex_lem h (b ∷ s) rest = rw (mix_lem h b) (scan_ex_lem (33 * h + extended b) s rest)

signless : (n : ℕ) → bit_and (n % 2 ^ 64) 0x7fffffffffffffff ≡ n % 2 ^ 63
signless n = bit_and-mask 63 (n % 2 ^ 64) ∙ omega arith

-- `hash_time33` of a string that ends with a zero byte, and `hash_time33_ex` of its bytes, end inside
-- the string with the same hash: the number with the digits 5381 and the bytes, to the base 33 and
-- modulo `2 ^ 63`, which is no negative `int64_t`.
pub hash_time33_lem :
    (s rest : List ℕ)
    → NonZero s
    → (hash_time33 (s ++ 0 ∷ rest) ≡ some (in_base_33 5381 s % 2 ^ 63))
      × (hash_time33_ex (s ++ 0 ∷ rest) (length s) ≡ some (in_base_33 5381 s % 2 ^ 63))
unfolding hash_time33 hash_time33_ex
hash_time33_lem s rest n = (
  rw (scan_lem 5381 s rest n, signless (in_base_33 5381 s)) refl,
  rw (scan_ex_lem 5381 s (0 ∷ rest), signless (in_base_33 5381 s)) refl,
)
