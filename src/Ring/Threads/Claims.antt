-- ===== src/Ring/Threads/Claims.antt =====
-- The steps in which a thread of ring.c gives a claim back, claims items to pop, or loads one.
use cctrl.Prelude.{
  ℕ, suc, ◌+◌, ◌-◌, ◌<◌, ◌≤◌, ◌≡◌, ◌^◌, refl, sym, ap, ◌∙◌, List, [], ◌∷◌, ◌++◌, length, arith,
  dec_lt, length-append,
}
use cctrl.Ring.{u32, sub32}
use cctrl.Ring.Threads.{Shared, slot, push_copy, push_count, pop_tail, pop_copy, pop_count}
use cctrl.Ring.Threads.Safety.{IsSafe, Knows, Before-none, slice_snoc, push_claim, pop_claim}
use cctrl.Ring.Threads.Others.{
  Good, After, Knows-Clear, Knows-Until, After-claim, Before-new, Apart-free,
}
use cctrl.Ring.Threads.Slots.{words_equal, data_left, slot_is, max_small}

module _ (m : Shared) (safe : IsSafe m) where
  -- A thread goes on when the tail has come to its claim.
  pub prod_tail_lem :
      (addrs : List ℕ) (h i : ℕ)
      → Knows m (push_copy addrs h i)
      → u32 m.prod_tail ≡ u32 h
      → h ≡ m.prod_tail
  prod_tail_lem addrs h i w e =
      let small = max_small m safe in
      words_equal h m.prod_tail w.1
        (omega (arith, w.0, w.2, small, safe.fits, safe.popping, safe.ready)) (sym e)

  pub cons_tail_lem :
      (n h : ℕ) (addrs : List ℕ)
      → Knows m (pop_copy n h addrs)
      → u32 m.cons_tail ≡ u32 h
      → h ≡ m.cons_tail
  cons_tail_lem n h addrs w e =
      let small = max_small m safe in
      words_equal h m.cons_tail w.1
        (omega (arith, w.0, w.2, small, safe.fits, safe.pushing, safe.ready)) (sym e)

  pub publish-Good :
      (addrs : List ℕ) (h : ℕ)
      → Knows m (push_copy addrs h (length addrs))
      → u32 m.prod_tail ≡ u32 h
      → Good m
          (push_copy addrs h (length addrs))
          (record m { prod_tail = h + length addrs })
          (push_count addrs)
  publish-Good addrs h (pos, a, b, c, d, e) w =
      let at_tail = prod_tail_lem addrs h (length addrs) (pos, a, b, c, d, e) w in
      record {
        safe = record {
          k = safe.k;
          k_small = safe.k_small;
          max_is = safe.max_is;
          mask_is = safe.mask_is;
          popping = safe.popping;
          ready = omega (arith, a, safe.ready);
          pushing = b;
          fits = safe.fits;
          stored = λ j u v. elim (dec_lt j m.prod_tail) [
            | yes y ↦ safe.stored j u y
            | no n ↦
                let split : h + (j - h) ≡ j = omega (arith, n, at_tail) in
                rw split at (e (j - h) (omega (arith, n, at_tail, v)))
          ];
        };
        kept = record {
          max_kept = refl;
          prod_head_up = omega arith;
          prod_tail_up = omega (arith, a);
          cons_head_up = omega arith;
          cons_tail_up = omega arith;
          pushed_kept = λ j l. refl;
          holds_kept = λ j x y z. z;
        };
        knows = tt;
        others = λ q k x y.
            let behind : After h (push_claim q) = rw at_tail (Knows-Clear m q k).0 in
            let free = Apart-free (push_count addrs) q refl refl in
            (
              (After-claim h (length addrs) (push_claim q) x.0 behind, (Knows-Clear m q k).1),
              free.0,
              free.1,
            );
      }

  pub claim_pop-Good :
      (n h p : ℕ)
      → Knows m (pop_tail n h p)
      → m.cons_head < h + 2 ^ 32
      → n ≤ sub32 (u32 p) (u32 h)
      → u32 m.cons_head ≡ u32 h
      → Good m
          (pop_tail n h p)
          (record m { cons_head = m.cons_head + n })
          (pop_copy n m.cons_head [])
  claim_pop-Good n h p (pos, seen, late, near) fresh fits e =
      let at_head = words_equal m.cons_head h seen fresh e in
      let small = max_small m safe in
      let left =
        data_left p h near
          (omega (arith, late, small, safe.pushing, safe.fits, safe.popping, at_head)) in
      record {
        safe = record {
          k = safe.k;
          k_small = safe.k_small;
          max_is = safe.max_is;
          mask_is = safe.mask_is;
          popping = omega (arith, safe.popping);
          ready = omega (arith, fits, left, late, at_head, near);
          pushing = safe.pushing;
          fits = safe.fits;
          stored = safe.stored;
        };
        kept = record {
          max_kept = refl;
          prod_head_up = omega arith;
          prod_tail_up = omega arith;
          cons_head_up = omega arith;
          cons_tail_up = omega arith;
          pushed_kept = λ j l. refl;
          holds_kept = λ j x y z. z;
        };
        knows = (pos, safe.popping, omega arith, omega arith, refl);
        others = λ q w x y.
            let new = Before-new m.cons_head n (pop_claim q) (Knows-Until m q w).1 in
            (Knows-Clear m q w, (tt, new.0), (Before-none (push_claim q), new.1));
      }

  pub load-Knows :
      (n h : ℕ) (addrs : List ℕ)
      → Knows m (pop_copy n h addrs)
      → length addrs < n
      → Knows m (pop_copy n h (addrs ++ m.slots (slot m h (length addrs)) ∷ []))
  load-Knows n h addrs (pos, a, b, c, d) l =
      let longer : length (addrs ++ m.slots (slot m h (length addrs)) ∷ []) ≡ suc (length addrs) =
        length-append addrs _ ∙ omega arith in
      let held =
        safe.stored (h + length addrs) (omega (arith, a)) (omega (arith, b, l, safe.ready)) in
      let loaded = ap m.slots (slot_is m safe h (length addrs)) ∙ held in
      (
        pos,
        a,
        b,
        rw longer (omega (arith, l)),
        rw longer (
            ap (λ (u : ℕ). addrs ++ u ∷ []) loaded
            ∙ ap (λ (u : List ℕ). u ++ m.pushed (h + length addrs) ∷ []) d
            ∙ sym (slice_snoc m.pushed h (length addrs))),
      )

  pub release-Good :
      (n h : ℕ) (addrs : List ℕ)
      → Knows m (pop_copy n h addrs)
      → u32 m.cons_tail ≡ u32 h
      → Good m (pop_copy n h addrs) (record m { cons_tail = h + n }) (pop_count addrs)
  release-Good n h addrs (pos, a, b, c, d) w =
      let at_tail = cons_tail_lem n h addrs (pos, a, b, c, d) w in
      record {
        safe = record {
          k = safe.k;
          k_small = safe.k_small;
          max_is = safe.max_is;
          mask_is = safe.mask_is;
          popping = b;
          ready = safe.ready;
          pushing = safe.pushing;
          fits = omega (arith, a, safe.fits);
          stored = λ j u v. safe.stored j (omega (arith, u, a)) v;
        };
        kept = record {
          max_kept = refl;
          prod_head_up = omega arith;
          prod_tail_up = omega arith;
          cons_head_up = omega arith;
          cons_tail_up = omega (arith, a);
          pushed_kept = λ j l. refl;
          holds_kept = λ j x y z. z;
        };
        knows = tt;
        others = λ q k x y.
            let behind : After h (pop_claim q) = rw at_tail (Knows-Clear m q k).1 in
            let free = Apart-free (pop_count addrs) q refl refl in
            (((Knows-Clear m q k).0, After-claim h n (pop_claim q) x.1 behind), free.0, free.1);
      }
