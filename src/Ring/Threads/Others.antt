-- ===== src/Ring/Threads/Others.antt =====
-- What one thread of ring.c does leaves what the other threads know of the ring.
use cctrl.Prelude.{ℕ, ◌+◌, ◌<◌, ◌≤◌, ◌≡◌, refl, sym, ◌∙◌, length, arith, Option, none, some}
use cctrl.Ring.Threads.{
  Shared, Pc, idle, push_start, push_head, push_tail, push_copy, push_count, push_done,
  push_refused, pop_start, pop_head, pop_tail, pop_copy, pop_count, pop_done, pop_refused,
}
use cctrl.Ring.Threads.Safety.{
  Holds, IsSafe, Knows, Apart, Before, slice, slice-cong, Before-none, push_claim, pop_claim,
}

pub record Kept (m m' : Shared) : Type 0 where
  pub max_kept : m'.max ≡ m.max
  pub prod_head_up : m.prod_head ≤ m'.prod_head
  pub prod_tail_up : m.prod_tail ≤ m'.prod_tail
  pub cons_head_up : m.cons_head ≤ m'.cons_head
  pub cons_tail_up : m.cons_tail ≤ m'.cons_tail
  pub pushed_kept : (j : ℕ) → j < m.prod_head → m'.pushed j ≡ m.pushed j
  pub holds_kept : (j : ℕ) → m.cons_tail ≤ j → j < m.prod_head → Holds m j → Holds m' j

abbrev pub After : ℕ → Option (ℕ × ℕ) → Type 0
After t none = Unit
After t (some (h, n)) = t ≤ h

-- The ring has not moved past a claim.
abbrev pub Clear : Shared → Pc → Type 0
Clear m q = After m.prod_tail (push_claim q) × After m.cons_tail (pop_claim q)

pub Kept-refl : (m : Shared) → Kept m m
Kept-refl m = record {
  max_kept = refl;
  prod_head_up = omega arith;
  prod_tail_up = omega arith;
  cons_head_up = omega arith;
  cons_tail_up = omega arith;
  pushed_kept = λ j h. refl;
  holds_kept = λ j a b c. c;
}

module _ {m m' : Shared} (safe : IsSafe m) (kept : Kept m m') where
  -- What was claimed and not given back is as it was.
  pub slice_kept : (h n : ℕ) → h + n ≤ m.cons_head → slice m'.pushed h n ≡ slice m.pushed h n
  slice_kept h n l =
      slice-cong m.pushed m'.pushed h n
        (λ j a b. kept.pushed_kept j (omega (arith, b, l, safe.ready, safe.pushing)))

  pub Knows-kept : (q : Pc) → Clear m' q → Knows m q → Knows m' q
  Knows-kept idle c w = w
  Knows-kept (push_start addrs) c w = w
  Knows-kept (push_head addrs h) c w = (w.0, omega (arith, w.1, kept.prod_head_up))
  Knows-kept (push_tail addrs h t) c (a, b, d, e) =
      let same = kept.max_kept in
      (
        a,
        omega (arith, b, kept.prod_head_up),
        omega (arith, d, kept.cons_tail_up),
        omega (arith, e, same),
      )
  Knows-kept (push_copy addrs h i) c (a, b, d, e, f, g) = (
    a,
    c.0,
    omega (arith, d, kept.prod_head_up),
    e,
    (λ j l. kept.pushed_kept (h + j) (omega (arith, l, d)) ∙ f j l),
    λ j l.
        kept.holds_kept (h + j) (omega (arith, b, safe.popping, safe.ready))
          (omega (arith, l, e, d)) (g j l),
  )
  Knows-kept (push_count addrs) c w = w
  Knows-kept push_done c w = w
  Knows-kept push_refused c w = w
  Knows-kept (pop_start n) c w = w
  Knows-kept (pop_head n h) c w = (w.0, omega (arith, w.1, kept.cons_head_up))
  Knows-kept (pop_tail n h p) c (a, b, d, e) =
      (a, omega (arith, b, kept.cons_head_up), omega (arith, d, kept.prod_tail_up), e)
  Knows-kept (pop_copy n h addrs) c (a, b, d, e, f) = (
    a,
    c.1,
    omega (arith, d, kept.cons_head_up),
    e,
    f ∙ sym (slice_kept h (length addrs) (omega (arith, d, e))),
  )
  Knows-kept (pop_count addrs) c w = w
  Knows-kept (pop_done addrs) c w = w
  Knows-kept pop_refused c w = w

-- What a step gives.
pub record Good (m : Shared) (p : Pc) (m' : Shared) (p' : Pc) : Type 0 where
  pub safe : IsSafe m'
  pub kept : Kept m m'
  pub knows : Knows m' p'
  pub others : (q : Pc) → Knows m q → Apart p q → Apart q p → Clear m' q × Apart p' q × Apart q p'

pub Knows-Clear : (m : Shared) (q : Pc) → Knows m q → Clear m q
Knows-Clear m idle w = (tt, tt)
Knows-Clear m (push_start addrs) w = (tt, tt)
Knows-Clear m (push_head addrs h) w = (tt, tt)
Knows-Clear m (push_tail addrs h t) w = (tt, tt)
Knows-Clear m (push_copy addrs h i) w = (w.1, tt)
Knows-Clear m (push_count addrs) w = (tt, tt)
Knows-Clear m push_done w = (tt, tt)
Knows-Clear m push_refused w = (tt, tt)
Knows-Clear m (pop_start n) w = (tt, tt)
Knows-Clear m (pop_head n h) w = (tt, tt)
Knows-Clear m (pop_tail n h p) w = (tt, tt)
Knows-Clear m (pop_copy n h addrs) w = (tt, w.1)
Knows-Clear m (pop_count addrs) w = (tt, tt)
Knows-Clear m (pop_done addrs) w = (tt, tt)
Knows-Clear m pop_refused w = (tt, tt)

-- The claims end where the ring's heads stand.
abbrev pub Until : ℕ → Option (ℕ × ℕ) → Type 0
Until t none = Unit
Until t (some (h, n)) = (0 < n) × (h + n ≤ t)

pub Knows-Until :
    (m : Shared) (q : Pc)
    → Knows m q
    → Until m.prod_head (push_claim q) × Until m.cons_head (pop_claim q)
Knows-Until m idle w = (tt, tt)
Knows-Until m (push_start addrs) w = (tt, tt)
Knows-Until m (push_head addrs h) w = (tt, tt)
Knows-Until m (push_tail addrs h t) w = (tt, tt)
Knows-Until m (push_copy addrs h i) w = ((w.0, w.2), tt)
Knows-Until m (push_count addrs) w = (tt, tt)
Knows-Until m push_done w = (tt, tt)
Knows-Until m push_refused w = (tt, tt)
Knows-Until m (pop_start n) w = (tt, tt)
Knows-Until m (pop_head n h) w = (tt, tt)
Knows-Until m (pop_tail n h p) w = (tt, tt)
Knows-Until m (pop_copy n h addrs) w = (tt, (w.0, w.2))
Knows-Until m (pop_count addrs) w = (tt, tt)
Knows-Until m (pop_done addrs) w = (tt, tt)
Knows-Until m pop_refused w = (tt, tt)

-- The ring moves to the end of a claim, and the claims after it are still ahead.
pub After-claim :
    (h n : ℕ) (x : Option (ℕ × ℕ)) → Before (some (h, n)) x → After h x → After (h + n) x
After-claim h n none b a = tt
After-claim h n (some (h', n')) b a = b a

-- A claim from the head on is apart from the claims before it.
pub Before-new :
    (t n : ℕ) (x : Option (ℕ × ℕ)) → Until t x → Before (some (t, n)) x × Before x (some (t, n))
Before-new t n none u = (tt, tt)
Before-new t n (some (h, k)) u = ((λ l. absurd (omega (arith, u.0, u.1, l))), λ l. u.1)

-- A thread without a claim is apart from all others.
pub Apart-free : (p q : Pc) → push_claim p ≡ none → pop_claim p ≡ none → Apart p q × Apart q p
Apart-free p q a b = rw (a, b) ((tt, tt), (Before-none (push_claim q), Before-none (pop_claim q)))
