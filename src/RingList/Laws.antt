-- ===== src/RingList/Laws.antt =====
-- The circular list as a sequence; what is put into it.
use mathlib.Core.Path.{subst}
use cctrl.Prelude.{
  ℕ, ◌-◌, ◌^◌, ◌<◌, ◌≡◌, ◌≢◌, refl, sym, ap, ◌∙◌, true, false, ◌==◌, List, [], ◌∷◌, ◌++◌, length,
  arith, length-append,
}
use cctrl.Prelude.Arrays.{put}
use cctrl.RingList.{RingList, num_up, lpush, rpush, roll}
use cctrl.Prelude.Distinct.{Absent, IsDistinct, Absent-snoc, IsDistinct-snoc}
use cctrl.RingList.Path.{Linked, not_last, Linked-kept, Linked-snoc}

-- The nodes form a circle.
abbrev pub Circle : RingList → List ℕ → Type 0
Circle l [] = l.head ≡ 0
Circle l (a ∷ bs) =
    (l.head ≡ a) × (e : ℕ) × Linked l.next l.prev a bs e × (l.next e ≡ a) × (l.prev a ≡ e)

pub record Holds (l : RingList) (nodes : List ℕ) : Type 0 where
  pub circle : Circle l nodes
  pub distinct : IsDistinct nodes
  pub not_null : Absent 0 nodes
  pub num_is : l.num ≡ length nodes

pub put_here : (f : ℕ → ℕ) (i v : ℕ) → put f i v i ≡ v
put_here f i v = ground arith

pub put_other : (f : ℕ → ℕ) (i v j : ℕ) → j ≢ i → put f i v j ≡ f j
put_other f i v j ne = ground (arith, ne)

-- `list2_roll` gives the datum of the first node and makes it the last one.
pub roll-Holds :
    (l : RingList) (a : ℕ) (bs : List ℕ)
    → Holds l (a ∷ bs)
    → ((roll l).0 ≡ l.data_of a)
      × Holds (roll l).1 (bs ++ a ∷ [])
      × ((roll l).1.data_of ≡ l.data_of)
unfolding roll
roll-Holds l a [] h =
    let (at_head, e, w, p, q) = h.circle in
    let some_head : (l.head == 0) ≡ false = ground (arith, at_head, h.not_null) in
    let back : l.next l.head ≡ a = ap l.next (at_head ∙ w) ∙ p in
    rw some_head (
      ap l.data_of at_head,
      record {
        circle = (back, e, w, p, q);
        distinct = h.distinct;
        not_null = h.not_null;
        num_is = h.num_is;
      },
      refl,
    )
roll-Holds l a (b ∷ bs) h =
    let (at_head, e, (x, y, w), p, q) = h.circle in
    let some_head : (l.head == 0) ≡ false = ground (arith, at_head, h.not_null) in
    let size = length-append bs (a ∷ []) in
    rw some_head (
      ap l.data_of at_head,
      record {
        circle = (ap l.next at_head ∙ x, a, Linked-snoc l.next l.prev b e a bs w p q, x, y);
        distinct = IsDistinct-snoc a (b ∷ bs) h.distinct.1 h.distinct.0;
        not_null = Absent-snoc 0 a (b ∷ bs) h.not_null.1 h.not_null.0;
        num_is = omega (arith, h.num_is, size);
      },
      refl,
    )

-- `list2_rpush` with a fresh node, when fewer than `2 ^ 31 - 1` are there, puts it behind the other ones.
pub rpush-Holds :
    (l : RingList) (n item : ℕ) (bs : List ℕ)
    → Holds l bs
    → n ≢ 0
    → Absent n bs
    → length bs < 2 ^ 31 - 1
    → ((rpush l n item).0 ≡ true)
      × Holds (rpush l n item).1 (bs ++ n ∷ [])
      × ((rpush l n item).1.data_of ≡ put l.data_of n item)
unfolding rpush
rpush-Holds l n item [] h nz fresh few =
    let given : (n == 0) ≡ false = ground (arith, nz) in
    let none_yet : (l.head == 0) ≡ true = ground (arith, h.circle) in
    rw given (
      rw none_yet (
        refl,
        record {
          circle = (refl, n, refl, put_here l.next n n, put_here l.prev n n);
          distinct = (tt, tt);
          not_null = ((λ e. nz (sym e)), tt);
          num_is = refl;
        },
        refl,
      ))
rpush-Holds l n item (a ∷ bs) h nz fresh few =
    let (at_head, e, w, p, q) = h.circle in
    let given : (n == 0) ≡ false = ground (arith, nz) in
    let some_head : (l.head == 0) ≡ false = ground (arith, at_head, h.not_null) in
    let tail : l.prev a ≡ e = q in
    let size = length-append bs (n ∷ []) in
    let nx = put (put l.next e n) n a in
    let pv = put (put l.prev n e) a n in
    let apart : e ≢ n = λ k. not_last l.next l.prev n a e bs fresh w (sym k) in
    let old : Linked nx pv a bs e =
      Linked-kept l.next l.prev nx pv a n a e bs
        (λ j ne nn. put_other (put l.next e n) n a j nn ∙ put_other l.next e n j ne)
        (λ j ne nn. put_other (put l.prev n e) a n j ne ∙ put_other l.prev n e j nn) h.distinct.0
        fresh h.distinct w in
    let item_is : (rpush l n item).1.data_of ≡ put l.data_of n item =
      rw given (rw some_head refl) in
    (
      rw given (rw some_head refl),
      rw given (
          rw some_head (record {
            circle = (
              at_head,
              n,
              rw (at_head, tail)
                  (Linked-snoc nx pv a e n bs old
                    (put_other (put l.next e n) n a e apart ∙ put_here l.next e n)
                    (put_other (put l.prev n e) a n n fresh.0 ∙ put_here l.prev n e)),
              rw (at_head, tail) (put_here (put l.next e n) n a),
              rw at_head (put_here (put l.prev n (l.prev a)) a n),
            );
            distinct = IsDistinct-snoc n (a ∷ bs) h.distinct fresh;
            not_null = Absent-snoc 0 n (a ∷ bs) h.not_null (λ k. nz (sym k));
            num_is = omega (arith, h.num_is, size, few);
          })),
      item_is,
    )

-- `list2_lpush` with a fresh node, when fewer than `2 ^ 31 - 1` are there, puts it in front of the other ones.
pub lpush-Holds :
    (l : RingList) (n item : ℕ) (bs : List ℕ)
    → Holds l bs
    → n ≢ 0
    → Absent n bs
    → length bs < 2 ^ 31 - 1
    → ((lpush l n item).0 ≡ true)
      × Holds (lpush l n item).1 (n ∷ bs)
      × ((lpush l n item).1.data_of ≡ put l.data_of n item)
unfolding lpush
lpush-Holds l n item [] h nz fresh few =
    let given : (n == 0) ≡ false = ground (arith, nz) in
    let none_yet : (l.head == 0) ≡ true = ground (arith, h.circle) in
    rw given (
      rw none_yet (
        refl,
        record {
          circle = (refl, n, refl, put_here l.next n n, put_here l.prev n n);
          distinct = (tt, tt);
          not_null = ((λ e. nz (sym e)), tt);
          num_is = refl;
        },
        refl,
      ))
lpush-Holds l n item (a ∷ bs) h nz fresh few =
    let (at_head, e, w, p, q) = h.circle in
    let given : (n == 0) ≡ false = ground (arith, nz) in
    let some_head : (l.head == 0) ≡ false = ground (arith, at_head, h.not_null) in
    let nx = put (put l.next n a) e n in
    let pv = put (put l.prev a n) n e in
    let apart : n ≢ e = not_last l.next l.prev n a e bs fresh w in
    let old : Linked nx pv a bs e =
      Linked-kept l.next l.prev nx pv a n a e bs
        (λ j ne nn. put_other (put l.next n a) e n j ne ∙ put_other l.next n a j nn)
        (λ j ne nn. put_other (put l.prev a n) n e j nn ∙ put_other l.prev a n j ne) h.distinct.0
        fresh h.distinct w in
    let l' : RingList = record {
      num = num_up l.num;
      head = n;
      data_of = put l.data_of n item;
      prev = pv;
      next = nx;
    } in
    let ran : lpush l n item ≡ (true, l') = rw given (rw some_head (rw (at_head, q) refl)) in
    subst (λ r. (r.0 ≡ true) × Holds r.1 (n ∷ a ∷ bs) × (r.1.data_of ≡ put l.data_of n item))
      (sym ran)
      (
        refl,
        record {
          circle = (
            refl,
            e,
            (
              put_other (put l.next n a) e n n apart ∙ put_here l.next n a,
              put_other (put l.prev a n) n e a (λ k. fresh.0 (sym k)) ∙ put_here l.prev a n,
              old,
            ),
            put_here (put l.next n a) e n,
            put_here (put l.prev a n) n e,
          );
          distinct = (fresh, h.distinct);
          not_null = ((λ k. nz (sym k)), h.not_null);
          num_is = omega (arith, h.num_is, few);
        },
        refl,
      )
