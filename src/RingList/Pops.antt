-- ===== src/RingList/Pops.antt =====
-- What is taken from the circular list.
use cctrl.Prelude.{
  ℕ, ◌≡◌, refl, sym, ap, ◌∙◌, true, false, ◌==◌, List, [], ◌∷◌, ◌++◌, arith, length-append,
}
use cctrl.Prelude.Arrays.{put}
use cctrl.RingList.{RingList, lpop, rpop, roll}
use cctrl.Prelude.Distinct.{Absent-init, IsDistinct-init}
use cctrl.RingList.Path.{last_apart, Linked-kept, Linked-init}
use cctrl.RingList.Laws.{Holds, put_here, put_other}

-- `list2_lpop` gives the datum of the first node and takes that node out.
pub lpop-Holds :
    (l : RingList) (a : ℕ) (bs : List ℕ)
    → Holds l (a ∷ bs)
    → ((lpop l).0 ≡ l.data_of a) × Holds (lpop l).1 bs × ((lpop l).1.data_of ≡ l.data_of)
unfolding lpop
lpop-Holds l a [] h =
    let (at_head, e, w, p, q) = h.circle in
    let some_head : (l.head == 0) ≡ false = ground (arith, at_head, h.not_null) in
    let tail : l.prev l.head ≡ a = ap l.prev at_head ∙ q ∙ sym w in
    let only : (l.head == l.prev l.head) ≡ true = ground (arith, tail, at_head) in
    rw (some_head) (
      rw only (
        ap l.data_of tail,
        record { circle = refl; distinct = tt; not_null = tt; num_is = refl },
        refl,
      ))
lpop-Holds l a (b ∷ bs) h =
    let (at_head, e, (x, y, w), p, q) = h.circle in
    let some_head : (l.head == 0) ≡ false = ground (arith, at_head, h.not_null) in
    let tail : l.prev l.head ≡ e = ap l.prev at_head ∙ q in
    let apart = last_apart l.next l.prev a b e bs h.distinct.0 w in
    let more : (l.head == l.prev l.head) ≡ false = ground (arith, tail, at_head, apart) in
    let second : l.next l.head ≡ b = ap l.next at_head ∙ x in
    rw (some_head) (
      rw more (
        ap l.data_of at_head,
        record {
          circle = (
            second,
            e,
            rw (second, tail)
                (Linked-kept l.next l.prev (put l.next e b) (put l.prev b e) b 0 b e bs
                  (λ j ne _. put_other l.next e b j ne) (λ j ne _. put_other l.prev b e j ne)
                  h.distinct.1.0 h.not_null.1 h.distinct.1 w),
            rw (second, tail) (put_here l.next e b),
            rw (second, tail) (put_here l.prev b e),
          );
          distinct = h.distinct.1;
          not_null = h.not_null.1;
          num_is = omega (arith, h.num_is);
        },
        refl,
      ))

-- `list2_rpop` gives the datum of the last node and takes that node out.
pub rpop-Holds :
    (l : RingList) (n : ℕ) (bs : List ℕ)
    → Holds l (bs ++ n ∷ [])
    → ((rpop l).0 ≡ l.data_of n) × Holds (rpop l).1 bs × ((rpop l).1.data_of ≡ l.data_of)
unfolding rpop
rpop-Holds l n [] h =
    let (at_head, e, w, p, q) = h.circle in
    let some_head : (l.head == 0) ≡ false = ground (arith, at_head, h.not_null) in
    let tail : l.prev l.head ≡ n = ap l.prev at_head ∙ q ∙ sym w in
    let only : (l.head == l.prev l.head) ≡ true = ground (arith, tail, at_head) in
    rw some_head (
      rw only (
        ap l.data_of tail,
        record { circle = refl; distinct = tt; not_null = tt; num_is = refl },
        refl,
      ))
rpop-Holds l n (a ∷ bs) h =
    let (at_head, e, whole, p, q) = h.circle in
    let (before, w, x, y, t) = Linked-init l.next l.prev a n e bs whole in
    let (distinct, fresh) = IsDistinct-init n (a ∷ bs) h.distinct in
    let (not_null, _) = Absent-init 0 n (a ∷ bs) h.not_null in
    let some_head : (l.head == 0) ≡ false = ground (arith, at_head, not_null) in
    let tail : l.prev l.head ≡ n = ap l.prev at_head ∙ q ∙ sym t in
    let more : (l.head == l.prev l.head) ≡ false = ground (arith, tail, at_head, fresh) in
    let back : put l.prev l.head (l.prev (l.prev l.head)) a ≡ before =
      rw at_head (put_here l.prev a (l.prev (l.prev a)) ∙ ap l.prev (q ∙ sym t) ∙ y) in
    let size = length-append bs (n ∷ []) in
    rw some_head (
      rw more (
        ap l.data_of tail,
        record {
          circle = (
            at_head,
            before,
            rw (tail, y, at_head)
                (Linked-kept l.next l.prev (put l.next before a) (put l.prev a before) a 0 a before
                  bs (λ j ne _. put_other l.next before a j ne)
                  (λ j ne _. put_other l.prev a before j ne) distinct.0 not_null distinct w),
            rw (tail, y, at_head) (put_here l.next before a),
            back,
          );
          distinct = distinct;
          not_null = not_null;
          num_is = omega (arith, h.num_is, size);
        },
        refl,
      ))

-- The calls on an empty list.
pub lpop-empty : (l : RingList) → l.head ≡ 0 → lpop l ≡ (0, l)
unfolding lpop
lpop-empty l e = let b : (l.head == 0) ≡ true = ground (arith, e) in rw b refl

pub rpop-empty : (l : RingList) → l.head ≡ 0 → rpop l ≡ (0, l)
unfolding rpop
rpop-empty l e = let b : (l.head == 0) ≡ true = ground (arith, e) in rw b refl

pub roll-empty : (l : RingList) → l.head ≡ 0 → roll l ≡ (0, l)
unfolding roll
roll-empty l e = let b : (l.head == 0) ≡ true = ground (arith, e) in rw b refl
