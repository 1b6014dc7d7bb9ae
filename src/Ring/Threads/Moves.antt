-- ===== src/Ring/Threads/Moves.antt =====
-- Each step of a thread in ring.c keeps the ring safe and what all threads know of it.
use cctrl.Prelude.{
  ℕ, suc, ◌+◌, ◌<◌, ◌≤◌, ◌≡◌, ◌^◌, refl, sym, ◌∙◌, List, length, get_or, arith, none, dec_lt,
}
use cctrl.Prelude.Arrays.{put}
use cctrl.Ring.{u32}
use cctrl.Ring.Threads.{
  Shared, Pc, Move, Fresh, extend, slot, room, push_tail, push_copy, call_push, read_prod_head,
  read_cons_tail, no_room, claim_push, lose_push, store, wait_push, publish, count_push, leave_push,
  leave_refused_push, call_pop, read_cons_head, read_prod_tail, no_data, claim_pop, lose_pop, load,
  wait_pop, release, count_pop, leave_pop, leave_refused_pop,
}
use cctrl.Ring.Threads.Safety.{Holds, IsSafe, Knows, Before-none, push_claim, pop_claim}
use cctrl.Ring.Threads.Others.{
  Kept, Kept-refl, Good, Clear, Knows-Clear, Knows-Until, Before-new, Apart-free,
}
use cctrl.Ring.Threads.Claims.{publish-Good, claim_pop-Good, load-Knows, release-Good}
use cctrl.Ring.Threads.Slots.{
  words_equal, room_left, extend_below, extend_above, max_small, store-Holds, store-Holds_new,
}

Clear-same :
    (m m' : Shared)
    → m'.prod_tail ≡ m.prod_tail
    → m'.cons_tail ≡ m.cons_tail
    → (q : Pc) → Knows m q
    → Clear m' q
Clear-same m m' a b q w = rw (a, b) (Knows-Clear m q w)

module _ {m m' : Shared} {p p' : Pc} (safe : IsSafe m') (kept : Kept m m') (knows : Knows m' p')
    (prod_same : m'.prod_tail ≡ m.prod_tail) (cons_same : m'.cons_tail ≡ m.cons_tail) where
  -- A step that leaves the thread without a claim, and the tails where they are.
  Good-free : push_claim p' ≡ none → pop_claim p' ≡ none → Good m p m' p'
  Good-free a b = record {
    safe = safe;
    kept = kept;
    knows = knows;
    others = λ q w x y.
        let z = Apart-free p' q a b in (Clear-same m m' prod_same cons_same q w, z.0, z.1);
  }

  -- A step that leaves the claim and the tails where they are.
  Good-same : push_claim p' ≡ push_claim p → pop_claim p' ≡ pop_claim p → Good m p m' p'
  Good-same a b = record {
    safe = safe;
    kept = kept;
    knows = knows;
    others = λ q w x y. (Clear-same m m' prod_same cons_same q w, rw (a, b) x, rw (a, b) y);
  }

module _ (m : Shared) (safe : IsSafe m) where
  -- The number of items takes no part.
  num-Good :
      (n : ℕ) (p p' : Pc)
      → push_claim p' ≡ none
      → pop_claim p' ≡ none
      → Knows (record m { num = n }) p'
      → Good m p (record m { num = n }) p'
  num-Good n p p' a b w' =
      Good-free
        (record {
          k = safe.k;
          k_small = safe.k_small;
          max_is = safe.max_is;
          mask_is = safe.mask_is;
          popping = safe.popping;
          ready = safe.ready;
          pushing = safe.pushing;
          fits = safe.fits;
          stored = safe.stored;
        })
        (record {
          max_kept = refl;
          prod_head_up = omega arith;
          prod_tail_up = omega arith;
          cons_head_up = omega arith;
          cons_tail_up = omega arith;
          pushed_kept = λ j h. refl;
          holds_kept = λ j a b c. c;
        })
        w' refl refl a b

  claim_push-Good :
      (addrs : List ℕ) (h c : ℕ)
      → Knows m (push_tail addrs h c)
      → m.prod_head < h + 2 ^ 32
      → length addrs ≤ room m h c
      → u32 m.prod_head ≡ u32 h
      → Good m
          (push_tail addrs h c)
          (record m {
            prod_head = m.prod_head + length addrs;
            pushed = extend m.pushed m.prod_head addrs;
          })
          (push_copy addrs m.prod_head 0)
  claim_push-Good addrs h c (pos, seen, late, near) fresh fits e =
      let at_head = words_equal m.prod_head h seen fresh e in
      let free =
        room_left m.max c h (max_small m safe)
          (omega (arith, late, safe.popping, safe.ready, safe.pushing, at_head)) near in
      record {
        safe = record {
          k = safe.k;
          k_small = safe.k_small;
          max_is = safe.max_is;
          mask_is = safe.mask_is;
          popping = safe.popping;
          ready = safe.ready;
          pushing = omega (arith, safe.pushing);
          fits = omega (arith, fits, free, late, at_head, safe.fits);
          stored = λ j a b.
              safe.stored j a b
              ∙ sym (extend_below m.pushed m.prod_head addrs j (omega (arith, b, safe.pushing)));
        };
        kept = record {
          max_kept = refl;
          prod_head_up = omega arith;
          prod_tail_up = omega arith;
          cons_head_up = omega arith;
          cons_tail_up = omega arith;
          pushed_kept = extend_below m.pushed m.prod_head addrs;
          holds_kept = λ j a b w. w ∙ sym (extend_below m.pushed m.prod_head addrs j b);
        };
        knows = (
          pos,
          safe.pushing,
          omega arith,
          omega arith,
          (λ j l. extend_above m.pushed m.prod_head addrs j),
          λ j l. absurd (omega (arith, l)),
        );
        others = λ q w x y.
            let new = Before-new m.prod_head (length addrs) (push_claim q) (Knows-Until m q w).0 in
            (Knows-Clear m q w, (new.0, tt), (new.1, Before-none (pop_claim q)));
      }

  store-Good :
      (addrs : List ℕ) (h i : ℕ)
      → Knows m (push_copy addrs h i)
      → i < length addrs
      → Good m
          (push_copy addrs h i)
          (record m { slots = put m.slots (slot m h i) (get_or addrs i 0) })
          (push_copy addrs h (suc i))
  store-Good addrs h i (pos, a, b, c, d, e) l =
      let low : m.cons_tail ≤ h + i = omega (arith, a, safe.popping, safe.ready) in
      let high : h + i < m.prod_head = omega (arith, b, l) in
      let keep = λ (j : ℕ) (u : m.cons_tail ≤ j) (v : j < m.prod_head) (w : Holds m j).
        store-Holds m safe h i (get_or addrs i 0) (d i l) j u v low high w in
      Good-same
        (record {
          k = safe.k;
          k_small = safe.k_small;
          max_is = safe.max_is;
          mask_is = safe.mask_is;
          popping = safe.popping;
          ready = safe.ready;
          pushing = safe.pushing;
          fits = safe.fits;
          stored = λ j u v. keep j u (omega (arith, v, safe.pushing)) (safe.stored j u v);
        })
        (record {
          max_kept = refl;
          prod_head_up = omega arith;
          prod_tail_up = omega arith;
          cons_head_up = omega arith;
          cons_tail_up = omega arith;
          pushed_kept = λ j h. refl;
          holds_kept = keep;
        })
        (
          pos,
          a,
          b,
          omega (arith, l),
          d,
          λ j v. elim (dec_lt j i) [
            | yes y ↦
                keep (h + j) (omega (arith, a, safe.popping, safe.ready)) (omega (arith, b, v, l))
                  (e j y)
            | no n ↦
                let last : j ≡ i = omega (arith, v, n) in
                rw last (store-Holds_new m safe h i (get_or addrs i 0) (d i l))
          ],
        )
        refl refl refl refl

  -- A step that changes nothing shared, after which the thread has no claim.
  free-Good : (p p' : Pc) → Knows m p' → push_claim p' ≡ none → pop_claim p' ≡ none → Good m p m p'
  free-Good p p' w a b = Good-free safe (Kept-refl m) w refl refl a b

pub Move-Good :
    {m m' : Shared} {p p' : Pc} → Move m p m' p' → IsSafe m → Knows m p → Fresh m p → Good m p m' p'
Move-Good {m} (call_push l) s w f = free-Good m s _ _ l refl refl
Move-Good {m} read_prod_head s w f = free-Good m s _ _ (w, omega arith) refl refl
Move-Good {m} read_cons_tail s w f =
    free-Good m s _ _ (w.0, w.1, omega arith, omega (arith, w.1, s.fits)) refl refl
Move-Good {m} (no_room l) s w f = free-Good m s _ _ tt refl refl
Move-Good {m} (claim_push {addrs} {h} {c} l e) s w f = claim_push-Good m s addrs h c w f l e
Move-Good {m} (lose_push l e) s w f = free-Good m s _ _ w.0 refl refl
Move-Good {m} (store {addrs} {h} {i} l) s w f = store-Good m s addrs h i w l
Move-Good {m} (wait_push e) s w f = Good-same s (Kept-refl m) w refl refl refl refl
Move-Good {m} (publish {addrs} {h} e) s w f = publish-Good m s addrs h w e
Move-Good {m} count_push s w f = num-Good m s _ _ _ refl refl tt
Move-Good {m} leave_push s w f = free-Good m s _ _ tt refl refl
Move-Good {m} leave_refused_push s w f = free-Good m s _ _ tt refl refl
Move-Good {m} (call_pop l) s w f = free-Good m s _ _ l refl refl
Move-Good {m} read_cons_head s w f = free-Good m s _ _ (w, omega arith) refl refl
Move-Good {m} read_prod_tail s w f =
    free-Good m s _ _ (w.0, w.1, omega arith, omega (arith, w.1, s.ready)) refl refl
Move-Good {m} (no_data l) s w f = free-Good m s _ _ tt refl refl
Move-Good {m} (claim_pop {n} {h} {p} l e) s w f = claim_pop-Good m s n h p w f l e
Move-Good {m} (lose_pop l e) s w f = free-Good m s _ _ w.0 refl refl
Move-Good {m} (load {n} {h} {addrs} l) s w f =
    Good-same s (Kept-refl m) (load-Knows m s n h addrs w l) refl refl refl refl
Move-Good {m} (wait_pop l e) s w f = Good-same s (Kept-refl m) w refl refl refl refl
Move-Good {m} (release {n} {h} {addrs} l e) s w f = release-Good m s n h addrs w e
Move-Good {m} count_pop s w f = num-Good m s _ _ _ refl refl tt
Move-Good {m} leave_pop s w f = free-Good m s _ _ tt refl refl
Move-Good {m} leave_refused_pop s w f = free-Good m s _ _ tt refl refl
