-- ===== src/LinkedList/Bypass.antt =====
-- A node of the list of list.c, behind another one, is bypassed and released.
use mathlib.Core.Path.{subst}
use cctrl.Prelude.{
  ℕ, suc, ◌<◌, ◌≡◌, ◌≢◌, refl, ap, none, List, [], ◌∷◌, ◌++◌, length, arith, length-append,
  append_assoc,
}
use cctrl.LinkedList.{write, cell, LinkedList}
use cctrl.LinkedList.Segment.{
  Entry, Seg, Avoids-append, IsDistinct, Holds, Seg-write, Seg-append, IsDistinct-Apart,
  Seg-Through, Through-Seg, Seg-start,
}

-- The node (a, d) behind (e, f) in `l`, and what is left when its cell leads past it.
pub record Bypass (l : LinkedList) (zs : List Entry) (e f a d : ℕ) (ys : List Entry) : Type 0 where
  pub next : ℕ
  pub at : l.mem a ≡ cell d next
  pub before_at : l.mem e ≡ cell f a
  pub nonzero : a ≢ 0
  pub before_nonzero : e ≢ 0
  pub not_head : l.head ≢ a
  pub chain : Seg (write (write l.mem e (cell f next)) a none) l.head ((zs ++ (e, f) ∷ []) ++ ys) 0
  pub distinct : IsDistinct ((zs ++ (e, f) ∷ []) ++ ys)
  pub num_is : l.num ≡ suc (length ((zs ++ (e, f) ∷ []) ++ ys))
  pub more : 1 < l.num

pub bypass :
    {l : LinkedList} (zs : List Entry) (e f a d : ℕ) (ys : List Entry)
    → Holds l ((zs ++ (e, f) ∷ []) ++ (a, d) ∷ ys)
    → Bypass l zs e f a d ys
bypass {l} zs e f a d ys h =
    let xs = zs ++ (e, f) ∷ [] in
    let t = Seg-Through l.mem l.head xs a d ys 0 h.chain in
    let u = Seg-Through l.mem l.head zs e f [] a t.before in
    let dis = IsDistinct-Apart xs a d ys h.distinct in
    let inner = IsDistinct-Apart zs e f [] dis.front in
    let (va, vb) = Avoids-append a zs ((e, f) ∷ []) dis.front_avoids in
    let whole =
      IsDistinct-Apart zs e f ((a, d) ∷ ys)
        (subst IsDistinct (append_assoc zs ((e, f) ∷ []) ((a, d) ∷ ys)) h.distinct) in
    let start = Seg-start l.mem l.head zs e f [] a t.before in
    let w = write (write l.mem e (cell f t.next)) a none in
    record {
      next = t.next;
      at = t.at;
      before_at = rw u.at (ap (cell f) u.after);
      nonzero = t.nonzero;
      before_nonzero = u.nonzero;
      not_head = start.1 a dis.front_avoids;
      chain =
          Seg-append w l.head xs ys t.next 0
            (Through-Seg (record {
              before =
                  Seg-write _ l.head zs e a none va
                    (Seg-write l.mem l.head zs e e (cell f t.next) inner.front_avoids u.before);
              nonzero = u.nonzero;
              next = t.next;
              at = ground (arith, vb.0);
              after = refl;
            }))
            (Seg-write _ t.next ys 0 a none dis.rest_avoids
              (Seg-write l.mem t.next ys 0 e (cell f t.next) whole.rest_avoids.1 t.after));
      distinct = dis.joined;
      num_is = omega (arith, h.num_is, length-append xs ((a, d) ∷ ys), length-append xs ys);
      more =
          omega (arith, h.num_is, length-append xs ((a, d) ∷ ys), length-append zs ((e, f) ∷ []));
    }
