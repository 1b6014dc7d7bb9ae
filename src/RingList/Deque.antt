-- ===== src/RingList/Deque.antt =====
-- The circular list against a sequence with two ends.
use mathlib.Core.Path.{subst}
use cctrl.Prelude.{
  ℕ, ◌-◌, ◌^◌, ◌<◌, ◌≡◌, ◌≢◌, refl, sym, ap, ◌∙◌, Bool, if◌then◌else◌, List, [], ◌∷◌, ◌++◌, length,
  arith,
}
use cctrl.Prelude.Arrays.{put}
use cctrl.RingList.{RingList, lpush, rpush, lpop, rpop, roll}
use cctrl.Prelude.Distinct.{Absent}
use cctrl.RingList.Laws.{Holds, put_here, put_other, lpush-Holds, rpush-Holds, roll-Holds}
use cctrl.RingList.Pops.{lpop-Holds, rpop-Holds, lpop-empty, rpop-empty, roll-empty}

-- A node and its item.
abbrev pub Entry : Type 0
Entry = ℕ × ℕ

-- A call; a push comes with the node that `alloc` gives.
pub data Call : Type 0 where
  push_front push_back : (node item : ℕ) → Call
  pop_front pop_back roll_front : Call

abbrev pub code : Bool → ℕ
code done = if done then 0 else 1

-- What a call returns and leaves; 0 is the code of success, and NULL.
abbrev pub call : Call → RingList → ℕ × RingList
call (push_front node item) l = (code (lpush l node item).0, (lpush l node item).1)
call (push_back node item) l = (code (rpush l node item).0, (rpush l node item).1)
call pop_front l = lpop l
call pop_back l = rpop l
call roll_front l = roll l

abbrev pub last_entry : Entry → List Entry → Entry
last_entry x [] = x
last_entry x (y ∷ ys) = last_entry y ys

abbrev pub but_last : Entry → List Entry → List Entry
but_last x [] = []
but_last x (y ∷ ys) = x ∷ but_last y ys

-- What a sequence does.
abbrev pub promised : Call → List Entry → ℕ × List Entry
promised (push_front node item) xs = (0, (node, item) ∷ xs)
promised (push_back node item) xs = (0, xs ++ (node, item) ∷ [])
promised pop_front [] = (0, [])
promised pop_front (x ∷ xs) = (x.1, xs)
promised pop_back [] = (0, [])
promised pop_back (x ∷ xs) = ((last_entry x xs).1, but_last x xs)
promised roll_front [] = (0, [])
promised roll_front (x ∷ xs) = (x.1, xs ++ x ∷ [])

abbrev pub nodes : List Entry → List ℕ
nodes [] = []
nodes (x ∷ xs) = x.0 ∷ nodes xs

abbrev pub Items : (ℕ → ℕ) → List Entry → Type 0
Items f [] = Unit
Items f (x ∷ xs) = (f x.0 ≡ x.1) × Items f xs

-- The list stands for the sequence.
pub record Stands (l : RingList) (xs : List Entry) : Type 0 where
  pub holds : Holds l (nodes xs)
  pub items : Items l.data_of xs

-- A push comes with a node that is not in use, and the count of the nodes stays an `int`.
abbrev pub IsLegal : Call → List Entry → Type 0
IsLegal (push_front node item) xs = (node ≢ 0) × Absent node (nodes xs) × (length xs < 2 ^ 31 - 1)
IsLegal (push_back node item) xs = (node ≢ 0) × Absent node (nodes xs) × (length xs < 2 ^ 31 - 1)
IsLegal _ xs = Unit

length-nodes : (xs : List Entry) → length (nodes xs) ≡ length xs
length-nodes [] = refl
length-nodes (x ∷ xs) = omega (arith, length-nodes xs)

nodes-snoc : (xs : List Entry) (x : Entry) → nodes (xs ++ x ∷ []) ≡ nodes xs ++ x.0 ∷ []
nodes-snoc [] x = refl
nodes-snoc (y ∷ ys) x = ap (λ (t : List ℕ). y.0 ∷ t) (nodes-snoc ys x)

Items-put :
    (f : ℕ → ℕ) (n i : ℕ) (xs : List Entry)
    → Absent n (nodes xs)
    → Items f xs
    → Items (put f n i) xs
Items-put f n i [] a w = tt
Items-put f n i (x ∷ xs) (ne, a) (e, w) =
    (put_other f n i x.0 (λ k. ne (sym k)) ∙ e, Items-put f n i xs a w)

Items-snoc :
    (f : ℕ → ℕ) (x : Entry) (xs : List Entry) → Items f xs → f x.0 ≡ x.1 → Items f (xs ++ x ∷ [])
Items-snoc f x [] w e = (e, tt)
Items-snoc f x (y ∷ ys) (d, w) e = (d, Items-snoc f x ys w e)

Items-last :
    (f : ℕ → ℕ) (x : Entry) (xs : List Entry)
    → Items f (x ∷ xs)
    → Items f (but_last x xs) × (f (last_entry x xs).0 ≡ (last_entry x xs).1)
Items-last f x [] (e, w) = (tt, e)
Items-last f x (y ∷ ys) (e, w) = let r = Items-last f y ys w in ((e, r.0), r.1)

nodes-last :
    (x : Entry) (xs : List Entry)
    → nodes (x ∷ xs) ≡ nodes (but_last x xs) ++ (last_entry x xs).0 ∷ []
nodes-last x [] = refl
nodes-last x (y ∷ ys) = ap (λ (t : List ℕ). x.0 ∷ t) (nodes-last y ys)

empty : (l : RingList) (r : ℕ × RingList) → Stands l [] → r ≡ (0, l) → (r.0 ≡ 0) × Stands r.1 []
empty l r s e = rw e (refl, s)

-- Each call on a list that stands for a sequence gives what the sequence gives, and leaves a list that
-- stands for what is left of it. A push needs a node that is not in use.
call-promised :
    (c : Call) (l : RingList) (xs : List Entry)
    → Stands l xs
    → IsLegal c xs
    → ((call c l).0 ≡ (promised c xs).0) × Stands (call c l).1 (promised c xs).1
call-promised (push_front n i) l xs s (nz, fresh, few) =
    let (done, h, data_is) =
      lpush-Holds l n i (nodes xs) s.holds nz fresh (omega (arith, few, length-nodes xs)) in
    (
      ap code done,
      record {
        holds = h;
        items =
            subst (λ f. Items f ((n, i) ∷ xs)) (sym data_is)
              (put_here l.data_of n i, Items-put l.data_of n i xs fresh s.items);
      },
    )
call-promised (push_back n i) l xs s (nz, fresh, few) =
    let (done, h, data_is) =
      rpush-Holds l n i (nodes xs) s.holds nz fresh (omega (arith, few, length-nodes xs)) in
    (
      ap code done,
      record {
        holds = subst (Holds (rpush l n i).1) (sym (nodes-snoc xs (n, i))) h;
        items =
            subst (λ f. Items f (xs ++ (n, i) ∷ [])) (sym data_is)
              (Items-snoc (put l.data_of n i) (n, i) xs (Items-put l.data_of n i xs fresh s.items)
                (put_here l.data_of n i));
      },
    )
call-promised pop_front l [] s fresh = empty l (lpop l) s (lpop-empty l s.holds.circle)
call-promised pop_front l (x ∷ xs) s fresh =
    let (e, h, data_is) = lpop-Holds l x.0 (nodes xs) s.holds in
    (e ∙ s.items.0, record { holds = h; items = subst (λ f. Items f xs) (sym data_is) s.items.1 })
call-promised pop_back l [] s fresh = empty l (rpop l) s (rpop-empty l s.holds.circle)
call-promised pop_back l (x ∷ xs) s fresh =
    let (kept, e) = Items-last l.data_of x xs s.items in
    let whole = subst (Holds l) (nodes-last x xs) s.holds in
    let (d, h, data_is) = rpop-Holds l (last_entry x xs).0 (nodes (but_last x xs)) whole in
    (d ∙ e, record { holds = h; items = subst (λ f. Items f (but_last x xs)) (sym data_is) kept })
call-promised roll_front l [] s fresh = empty l (roll l) s (roll-empty l s.holds.circle)
call-promised roll_front l (x ∷ xs) s fresh =
    let (e, h, data_is) = roll-Holds l x.0 (nodes xs) s.holds in
    (
      e ∙ s.items.0,
      record {
        holds = subst (Holds (roll l).1) (sym (nodes-snoc xs x)) h;
        items =
            subst (λ f. Items f (xs ++ x ∷ [])) (sym data_is)
              (Items-snoc l.data_of x xs s.items.1 s.items.0);
      },
    )

-- Calls one after the other: what they return, and the list after them.
unfoldable pub run : List Call → RingList → List ℕ × RingList
run [] l = ([], l)
run (c ∷ cs) l = let r = run cs (call c l).1 in ((call c l).0 ∷ r.0, r.1)

unfoldable pub run_promised : List Call → List Entry → List ℕ × List Entry
run_promised [] xs = ([], xs)
run_promised (c ∷ cs) xs =
    let r = run_promised cs (promised c xs).1 in ((promised c xs).0 ∷ r.0, r.1)

abbrev pub AllLegal : List Call → List Entry → Type 0
AllLegal [] xs = Unit
AllLegal (c ∷ cs) xs = IsLegal c xs × AllLegal cs (promised c xs).1

-- Any calls of the pushes, the pops and `list2_roll`, on a list that stands for a sequence, return what
-- the sequence gives, and leave a list that stands for what is left of it. The node of a push is one
-- that is not in use, and fewer than `2 ^ 31 - 1` nodes are in the list before it.
pub run-run_promised :
    (cs : List Call) (l : RingList) (xs : List Entry)
    → Stands l xs
    → AllLegal cs xs
    → ((run cs l).0 ≡ (run_promised cs xs).0) × Stands (run cs l).1 (run_promised cs xs).1
unfolding run run_promised
run-run_promised [] l xs s fresh = (refl, s)
run-run_promised (c ∷ cs) l xs s (f, fs) =
    let (e, t) = call-promised c l xs s f in
    let (es, u) = run-run_promised cs (call c l).1 (promised c xs).1 t fs in
    (
      ap (λ (x : ℕ). x ∷ (run cs (call c l).1).0) e
          ∙ ap (λ (ys : List ℕ). (promised c xs).0 ∷ ys) es,
      u,
    )
