-- ===== src/Vector.antt =====
-- lib/core/vector.c and incl/vector.h: the growing array of pointers. The block of memory behind
-- `arr` is its address and its size in bytes, and `none` is a fault, an access outside of it. Sizes
-- and indices are below 2 ^ 31, and an `int` index is taken to be not negative.
pub mod Laws
mod Tests
use cctrl.Prelude.{
  ℕ, zero, suc, ◌+◌, ◌-◌, ◌*◌, Bool, true, false, not, ◌&&◌, ◌==◌, leb, if◌then◌else◌, Option, none,
  some, ◌>>=◌,
}
use cctrl.Prelude.Arrays.{put}

-- `vector_t` and its block.
pub record Vector : Type 0 where
  pub incr : ℕ
  pub cap : ℕ
  pub len : ℕ
  pub arr : ℕ
  pub bytes : ℕ
  pub cells : ℕ → ℕ

-- Entry `i` of 8 bytes lies in the block.
pub fits : Vector → ℕ → Bool
fits v i = not (v.arr == 0) && leb (8 * (i + 1)) v.bytes

pub load : Vector → ℕ → Option ℕ
load v i = if fits v i then some (v.cells i) else none

pub save : Vector → ℕ → ℕ → Option Vector
save v i x = if fits v i then some (record v { cells = put v.cells i x }) else none

-- `vector_creat`; `block` is what the second `calloc` returns.
pub creat : (cap incr block : ℕ) → Option Vector
creat cap incr block =
    if block == 0
    then none
    else some
        (record { incr = incr; cap = cap; len = 0; arr = block; bytes = 8 * cap; cells = λ i. 0 })

-- `vector_append`; `block` is what `realloc` returns, and the flag is whether 0 is returned.
pub append : Vector → ℕ → ℕ → Option (Bool × Vector)
append v block addr =
    let grown = record v { arr = block; bytes = v.cap + v.incr } in
    if v.len == v.cap
    then (if v.arr == block
        then some (false, grown)
        else (save (record grown { cap = v.cap + v.incr }) v.len addr >>= λ w.
            some (true, record w { len = suc v.len })))
    else (save v v.len addr >>= λ w. some (true, record w { len = suc v.len }))

-- `vector_get`: NULL behind the end.
pub get : Vector → ℕ → Option ℕ
get v idx = if leb v.len idx then some 0 else load v idx

-- The loop of the searches: the first index from `idx` on, below `idx + rest`, that passes.
pub scan : ℕ → Vector → (ℕ → Bool) → ℕ → Option (Option ℕ)
scan zero v cb idx = some none
scan (suc rest) v cb idx =
    let later = scan rest v cb (suc idx) in
    (load v idx >>= λ x. if cb x then some (some idx) else later)

entry_found : Vector → Option ℕ → Option ℕ
entry_found v none = some 0
entry_found v (some i) = load v i

-- `vector_find`: the entry, or NULL.
pub find : Vector → (ℕ → Bool) → Option ℕ
find v cb = scan v.len v cb 0 >>= entry_found v

-- `vector_index`; `none` inside is -1.
pub index : Vector → ℕ → Option (Option ℕ)
index v addr = scan v.len v (λ x. x == addr) 0

-- The removal in `vector_del_by_idx` and `vector_find_and_del`: the last entry fills the gap.
pub fill_gap : Vector → ℕ → Option (ℕ × Vector)
fill_gap v idx = load v idx >>= λ addr.
    (if idx == v.len - 1 then some v else (load v (v.len - 1) >>= λ last. save v idx last)) >>= λ w.
    save w (v.len - 1) 0 >>= λ u. some (addr, record u { len = v.len - 1 })

-- `vector_del_by_idx`: the entry, or NULL.
pub del_by_idx : Vector → ℕ → Option (ℕ × Vector)
del_by_idx v idx = if leb v.len idx then some (0, v) else fill_gap v idx

taken : Vector → Option ℕ → Option (ℕ × Vector)
taken v none = some (0, v)
taken v (some i) = fill_gap v i

-- `vector_find_and_del`: the entry, or NULL.
pub find_and_del : Vector → (ℕ → Bool) → Option (ℕ × Vector)
find_and_del v cb = scan v.len v cb 0 >>= taken v

deleted : Vector → Option ℕ → Option (Bool × Vector)
deleted v none = some (false, v)
deleted v (some i) = del_by_idx v i >>= λ r. some (true, r.1)

-- `vector_delete`; the flag is whether 0 is returned.
pub delete : Vector → ℕ → Option (Bool × Vector)
delete v addr = index v addr >>= deleted v
