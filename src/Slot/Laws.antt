-- ===== src/Slot/Laws.antt =====
-- The pool of blocks of slot.c: which blocks are free and which are in use.
use cctrl.Prelude.{
  ℕ, zero, suc, ◌+◌, ◌^◌, ◌<◌, ◌≤◌, ◌≡◌, ◌≢◌, refl, sym, ap, ◌∙◌, ◌⊎◌, inl, inr, dec_lt, true, List,
  [], ◌∷◌, ◌++◌, length, length-append, append-nil, append_assoc, arith,
}
use mathlib.Core.Path.{subst}
use cctrl.Ring.{Ring, returns}
use cctrl.Ring.Refine.{Holds}
use cctrl.Ring.Fifo.{push-Holds, pop-Holds, creat-Holds}
use cctrl.Slot.{Slot, fill, filled, with_ring, creat, alloc, dealloc}

-- `num` blocks of one size, one behind the other.
abbrev pub blocks : ℕ → ℕ → ℕ → List ℕ
blocks zero ptr size = []
blocks (suc num) ptr size = ptr ∷ blocks num (ptr + size) size

length-blocks : (num ptr size : ℕ) → length (blocks num ptr size) ≡ num
length-blocks zero ptr size = refl
length-blocks (suc num) ptr size = ap suc (length-blocks num (ptr + size) size)

-- The free blocks stand in the ring, which has room for those in use too.
pub record IsPool (s : Slot) (free used : List ℕ) : Type 0 where
  pub holds : Holds s.ring free
  pub room : length free + length used ≤ s.ring.max

fill-Holds :
    (num : ℕ) {rq : Ring} (q : List ℕ) (ptr size : ℕ)
    → Holds rq q
    → length q + num ≤ rq.max
    → (rq' : Ring) × (fill num rq ptr size ≡ returns rq')
      × Holds rq' (q ++ blocks num ptr size)
      × (rq'.max ≡ rq.max)
unfolding fill
fill-Holds zero {rq} q ptr size h l = (rq, refl, subst (Holds rq) (sym (append-nil q)) h, refl)
fill-Holds (suc num) q ptr size h l =
    let (rq1, e, h1, m) = push-Holds q ptr h (omega (arith, l)) in
    let (rq2, e2, h2, m2) =
      fill-Holds num (q ++ ptr ∷ []) (ptr + size) size h1
        (omega (arith, l, m, length-append q (ptr ∷ []))) in
    (
      rq2,
      rw (e, e2, fill),
      subst (Holds rq2) (append_assoc q (ptr ∷ []) (blocks num (ptr + size) size)) h2,
      m2 ∙ m,
    )

-- `slot_creat`, when the allocations succeed and for 1 to 2 ^ 30 blocks, gives a pool in which all
-- blocks of the area are free; the address of the area is not recorded.
pub creat-IsPool :
    (area num size : ℕ)
    → area ≢ 0
    → 0 < num
    → num ≤ 2 ^ 30
    → (s : Slot) × (creat true true true area num size ≡ returns s)
      × IsPool s (blocks num area size) []
      × (s.size ≡ size)
      × (s.addr ≡ 0)
unfolding creat with_ring filled
creat-IsPool area num size nz pos small =
    let (rq, e, h, lower, upper) = creat-Holds num pos small in
    let (rq', e', h', m) = fill-Holds num [] area size h (omega (arith, lower)) in
    (
      record { max = num; size = size; addr = 0; ring = rq' },
      rw e (ground (arith, nz, e')),
      record { holds = h'; room = omega (arith, lower, m, length-blocks num area size) },
      refl,
      refl,
    )

-- `slot_alloc` of at most the block size hands out the free block that waits longest; a pool with no
-- free block gives NULL, and so does a larger request.
alloc-IsPool :
    {s : Slot} (a : ℕ) (free used : List ℕ) (size : ℕ)
    → IsPool s (a ∷ free) used
    → ((size ≤ s.size)
        × ((s' : Slot) × (alloc s size ≡ returns (a, s')) × IsPool s' free (a ∷ used)))
      ⊎ ((s.size < size) × (alloc s size ≡ returns (0, s)))
unfolding alloc
alloc-IsPool {s} a free used size p = elim (dec_lt s.size size) [
  | yes l ↦ inr (l, ground (arith, l))
  | no nl ↦
      let (rq, e, h, m) = pop-Holds a free p.holds in
      inl (
        omega (arith, nl),
        (
          record s { ring = rq },
          ground (arith, nl, e),
          record { holds = h; room = omega (arith, p.room, m) },
        ),
      )
]

-- `slot_dealloc` of a block in use makes it the last of the free ones.
dealloc-IsPool :
    {s : Slot} (p : ℕ) (free us vs : List ℕ)
    → IsPool s free (us ++ p ∷ vs)
    → (s' : Slot) × (dealloc s p ≡ returns s') × IsPool s' (free ++ p ∷ []) (us ++ vs)
unfolding dealloc
dealloc-IsPool {s} p free us vs h =
    let (rq, e, h', m) =
      push-Holds free p h.holds (omega (arith, h.room, length-append us (p ∷ vs))) in
    (
      record s { ring = rq },
      rw (e, dealloc),
      record {
        holds = h';
        room = omega (
          arith,
          h.room,
          m,
          length-append us (p ∷ vs),
          length-append us vs,
          length-append free (p ∷ []),
        );
      },
    )
