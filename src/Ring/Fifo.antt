-- ===== src/Ring/Fifo.antt =====
-- The operations of ring.c on a ring that holds a queue: they are those of a bounded FIFO.
use cctrl.Prelude.{
  ℕ, ◌+◌, ◌-◌, ◌*◌, ◌%◌, ◌^◌, ◌≤◌, ◌<◌, ◌≡◌, ◌≢◌, ◌∙◌, refl, true, List, [], ◌∷◌, ◌++◌, some,
  length, get_or, take, drop, arith, length-append, length-drop, length-replicate,
  get_or-append_left, get_or-append_right, get_or-drop, dec_lt,
}
use cctrl.Prelude.Bits.{mod-ne, pow-pos, pow_mono}
use cctrl.Power2.{power2}
use cctrl.Power2.Laws.{power2_lem}
use cctrl.Ring.{
  Ring, add32, sub32, creat, refused, returns, store, load, mpush, push, mpop, pop, first,
}
use cctrl.Ring.Refine.{Holds, length-store, store_kept, store_new, load_lem}

-- The free slots and the stored items, as the code computes them from wrapped counters.
free_slots :
    (m c n : ℕ) → n ≤ m → m ≤ 2 ^ 31 → sub32 (add32 m (c % 2 ^ 32)) ((c + n) % 2 ^ 32) ≡ m - n
free_slots m c n h small = omega arith

stored : (c n : ℕ) → n ≤ 2 ^ 31 → sub32 ((c + n) % 2 ^ 32) (c % 2 ^ 32) ≡ n
stored c n h = omega arith

module _ {rq : Ring} {q : List ℕ} (h : Holds rq q) where
  abbrev cap_le : rq.max ≤ 2 ^ 31
  cap_le = omega (arith, pow_mono h.k 31 h.k_small, h.max_is)

  free_of : sub32 (add32 rq.max rq.cons_tail) rq.prod_head ≡ rq.max - length q
  free_of =
      rw (h.cons_tail_is, h.prod_head_is)
        (free_slots rq.max h.c (length q) (omega (arith, h.max_is, h.fits)) cap_le)

  stored_of : sub32 rq.prod_tail rq.cons_head ≡ length q
  stored_of =
      rw (h.prod_tail_is, h.cons_head_is)
        (stored h.c (length q) (omega (arith, h.max_is, h.fits, cap_le)))

  -- A push of more addresses than there are free slots is refused.
  pub mpush_full : (addrs : List ℕ) → rq.max < length q + length addrs → mpush rq addrs ≡ refused
  unfolding mpush
  mpush_full addrs more = ground (arith, free_of)

  -- A pop of more addresses than the ring holds is refused.
  pub mpop_empty : (num : ℕ) → length q < num → mpop rq num ≡ refused
  unfolding mpop
  mpop_empty num more = ground (arith, stored_of)

  module _ (addrs : List ℕ) (room : length q + length addrs ≤ rq.max) where
    abbrev pushed : Ring
    pushed = record rq {
      prod_head = add32 rq.prod_head (length addrs);
      slots = store rq.mask rq.prod_head 0 addrs rq.slots;
      prod_tail = add32 rq.prod_head (length addrs);
      num = add32 rq.num (length addrs);
    }

    pushed_held :
        (i : ℕ)
        → i < length (q ++ addrs)
        → get_or pushed.slots ((h.c + i) % 2 ^ h.k) 0 ≡ get_or (q ++ addrs) i 0
    pushed_held i lt = elim (dec_lt i (length q)) [
      | yes old ↦
          rw (h.mask_is, h.prod_head_is, get_or-append_left q addrs i 0 old)
            (store_kept h.k h.k_small (h.c + length q) 0 ((h.c + i) % 2 ^ h.k) addrs rq.slots
                (apart old)
              ∙ h.held i old)
      | no new ↦
          let j = i - length q in
          let e : i ≡ length q + j = omega arith in
          let inside : j < length addrs = omega (arith, length-append q addrs) in
          let at : h.c + (length q + j) ≡ h.c + length q + (0 + j) = omega arith in
          rw (h.mask_is, h.prod_head_is, e, get_or-append_right q addrs j 0, at)
            (store_new h.k h.k_small (h.c + length q) 0 addrs rq.slots h.size few j inside)
    ]
      where
        few : length addrs ≤ 2 ^ h.k
        few = omega (arith, h.max_is)

        apart :
            i < length q
            → (j : ℕ) → j < length addrs
            → (h.c + length q + (0 + j)) % 2 ^ h.k ≢ (h.c + i) % 2 ^ h.k
        apart old j inside =
            let e : h.c + length q + (0 + j) ≡ h.c + i + (length q + j - i) = omega arith in
            rw e (
              mod-ne (2 ^ h.k) (h.c + i) (length q + j - i) (omega arith) (omega (arith, h.max_is)))

    pub mpush-Holds : (mpush rq addrs ≡ returns pushed) × Holds pushed (q ++ addrs)
    unfolding mpush
    mpush-Holds = (
      ground (arith, free_of, h.prod_tail_is, h.prod_head_is),
      record {
        k = h.k;
        c = h.c;
        k_small = h.k_small;
        max_is = h.max_is;
        mask_is = h.mask_is;
        size =
            rw (h.mask_is, h.prod_head_is)
              (length-store h.k h.k_small (h.c + length q) 0 addrs rq.slots ∙ h.size);
        fits = omega (arith, h.max_is, length-append q addrs);
        num_is = omega (arith, h.num_is, length-append q addrs, cap_le);
        prod_head_is = omega (arith, h.prod_head_is, length-append q addrs);
        prod_tail_is = omega (arith, h.prod_head_is, length-append q addrs);
        cons_head_is = h.cons_head_is;
        cons_tail_is = h.cons_tail_is;
        held = pushed_held;
      },
    )

  module _ (num : ℕ) (enough : num ≤ length q) where
    abbrev popped : Ring
    popped = record rq {
      cons_head = add32 rq.cons_head num;
      cons_tail = add32 rq.cons_head num;
      num = sub32 rq.num num;
    }

    held_0 : (j : ℕ) → j < length q → get_or rq.slots ((h.c + (0 + j)) % 2 ^ h.k) 0 ≡ get_or q j 0
    held_0 j lt = let e : 0 + j ≡ j = omega arith in rw e (h.held j lt)

    pub mpop-Holds : (mpop rq num ≡ returns (take num q, popped)) × Holds popped (drop num q)
    unfolding mpop
    mpop-Holds = (
      ground (arith, stored_of, loaded, h.cons_tail_is, h.cons_head_is),
      record {
        k = h.k;
        c = h.c + num;
        k_small = h.k_small;
        max_is = h.max_is;
        mask_is = h.mask_is;
        size = h.size;
        fits = omega (arith, h.fits, length-drop num q);
        num_is = omega (arith, h.num_is, length-drop num q, h.max_is, h.fits, cap_le);
        prod_head_is = omega (arith, h.prod_head_is, length-drop num q);
        prod_tail_is = omega (arith, h.prod_tail_is, length-drop num q);
        cons_head_is = omega (arith, h.cons_head_is);
        cons_tail_is = omega (arith, h.cons_head_is);
        held = popped_held;
      },
    )
      where
        loaded : load rq.mask rq.cons_head 0 num rq.slots ≡ take num q
        loaded =
            rw (h.mask_is, h.cons_head_is)
              (load_lem h.k h.k_small h.c 0 num q rq.slots enough held_0)

        popped_held :
            (i : ℕ)
            → i < length (drop num q)
            → get_or rq.slots ((h.c + num + i) % 2 ^ h.k) 0 ≡ get_or (drop num q) i 0
        popped_held i lt =
            let e : h.c + num + i ≡ h.c + (num + i) = omega arith in
            rw (e, get_or-drop num q i 0) (h.held (num + i) (omega (arith, length-drop num q)))

-- `ring_creat`, when both allocations succeed, gives an empty ring of a power of two slots, no fewer
-- than were asked for (1 to `2 ^ 30`) and less than twice as many.
pub creat-Holds :
    (n : ℕ)
    → 0 < n
    → n ≤ 2 ^ 30
    → (rq : Ring) × (creat true true n ≡ some rq) × Holds rq [] × (n ≤ rq.max) × (rq.max < 2 * n)
unfolding creat
creat-Holds n pos small =
    let ((k, e), lower, upper, top) = power2_lem n pos small in
    (
      _,
      refl,
      record {
        k = k;
        c = 0;
        k_small = exponent k e top;
        max_is = e;
        mask_is = omega (arith, pow-pos k);
        size = length-replicate (power2 n) 0 ∙ e;
        fits = omega arith;
        num_is = refl;
        prod_head_is = refl;
        prod_tail_is = refl;
        cons_head_is = refl;
        cons_tail_is = refl;
        held = λ i lt. absurd (omega arith);
      },
      lower,
      upper,
    )
  where
    exponent : (k : ℕ) → power2 n ≡ 2 ^ k → power2 n ≤ 2 ^ 30 → k ≤ 31
    exponent k e top = elim (dec_lt k 32) [
      | yes p ↦ omega arith
      | no p ↦ absurd (omega (arith, pow_mono 32 k (omega arith)))
    ]

-- `ring_pop` on a ring that holds `q`: NULL and no change if `q` is empty, else its oldest address,
-- and the ring holds the rest.
pub pop-Holds :
    {rq : Ring} (a : ℕ) (q : List ℕ)
    → Holds rq (a ∷ q)
    → (rq' : Ring) × (pop rq ≡ returns (a, rq')) × Holds rq' q × (rq'.max ≡ rq.max)
unfolding pop first
pop-Holds {rq} a q h =
    let (e, held) = mpop-Holds h 1 (omega arith) in
    (popped h 1 (omega arith), rw (e, pop), held, refl)

pub pop-empty : {rq : Ring} → Holds rq [] → pop rq ≡ returns (0, rq)
unfolding pop
pop-empty {rq} h = rw (mpop_empty h 1 (omega arith), pop)

-- `ring_push` puts an address behind the others, when there is room.
pub push-Holds :
    {rq : Ring} (q : List ℕ) (p : ℕ)
    → Holds rq q
    → length q < rq.max
    → (rq' : Ring) × (push rq p ≡ returns rq') × Holds rq' (q ++ p ∷ []) × (rq'.max ≡ rq.max)
unfolding push
push-Holds {rq} q p h l =
    let (e, h') = mpush-Holds h (p ∷ []) (omega (arith, l)) in (_, e, h', refl)
