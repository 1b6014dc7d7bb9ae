-- ===== src/HashAlg.antt =====
-- lib/core/hash_alg.c: the hash of strings. Memory is the list of its bytes from the address on, and
-- `none` is a read behind its end. A byte is a signed `char`, and so is added with its sign.
pub mod Laws
mod Tests
use cctrl.Prelude.{
  ℕ, zero, suc, ◌+◌, ◌-◌, ◌*◌, ◌%◌, ◌^◌, ◌==◌, ltb, if◌then◌else◌, Option, none, some, ◌>>=◌, List,
  [], ◌∷◌, bit_and,
}

-- `*p` as a `uint64_t`.
abbrev pub extended : ℕ → ℕ
extended b = if ltb b 128 then b else 2 ^ 64 - 256 + b

-- `hash += (hash << 5) + (*p++)`
abbrev pub mix : ℕ → ℕ → ℕ
mix hash b = (hash + (hash * 32 % 2 ^ 64 + extended b) % 2 ^ 64) % 2 ^ 64

pub scan : ℕ → List ℕ → Option ℕ
scan hash [] = none
scan hash (b ∷ bs) = let rest = scan (mix hash b) bs in if b == 0 then some hash else rest

pub scan_ex : ℕ → ℕ → List ℕ → Option ℕ
scan_ex hash zero bs = some hash
scan_ex hash (suc len) [] = none
scan_ex hash (suc len) (b ∷ bs) = scan_ex (mix hash b) len bs

-- `hash_time33`
pub hash_time33 : List ℕ → Option ℕ
hash_time33 str = scan 5381 str >>= λ hash. some (bit_and hash 0x7fffffffffffffff)

-- `hash_time33_ex`
pub hash_time33_ex : List ℕ → ℕ → Option ℕ
hash_time33_ex addr len = scan_ex 5381 len addr >>= λ hash. some (bit_and hash 0x7fffffffffffffff)
