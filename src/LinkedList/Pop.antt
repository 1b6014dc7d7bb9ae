-- ===== src/LinkedList/Pop.antt =====
-- `list_lpop` and `list_rpop` on a list object that holds a sequence.
use mathlib.Core.Path.{subst}
use cctrl.Prelude.{
  ℕ, zero, suc, ◌-◌, ◌<◌, ◌≡◌, ◌≢◌, refl, sym, ◌∙◌, Option, none, some, List, [], ◌∷◌, ◌++◌, length,
  arith, length-append,
}
use cctrl.LinkedList.{Memory, write, cell, LinkedList, lpop, rpop, before_tail}
use cctrl.LinkedList.Segment.{
  Entry, Seg, Avoids, Avoids-append, last, Holds, Seg-write, IsDistinct-Apart, last-snoc,
  last-Avoids, Ends, empty, snoc, ends, Seg-Through, Through-Seg, Seg-start,
}

-- What the removal of a node with the data `d` leaves.
abbrev pub Removes : Option (ℕ × LinkedList) → ℕ → List Entry → Type 0
Removes r d xs = (l' : LinkedList) × (r ≡ some (d, l')) × Holds l' xs

-- The loop of `list_rpop` ends at the last node but one.
before_tail_lem :
    (fuel : ℕ) (m : Memory) (p : ℕ) (zs : List Entry) (b c tail : ℕ)
    → length zs < fuel
    → Seg m p (zs ++ (b, c) ∷ []) tail
    → Avoids tail (zs ++ (b, c) ∷ [])
    → before_tail fuel m tail p ≡ some b
unfolding before_tail
before_tail_lem zero m p zs b c tail f s v = absurd (omega arith)
before_tail_lem (suc fuel) m p [] b c tail f (e, nz, next, g, z) v =
    let at : m p ≡ cell c next = rw e g in ground (arith, at, z, e)
before_tail_lem (suc fuel) m p ((x, y) ∷ zs) b c tail f (e, nz, next, g, s) v =
    let at : m p ≡ cell y next = rw e g in
    let rest = before_tail_lem fuel m next zs b c tail (omega arith) s v.1 in
    ground (arith, at, rest, not_yet zs s v.1)
  where
    not_yet :
        (us : List Entry)
        → Seg m next (us ++ (b, c) ∷ []) tail
        → Avoids tail (us ++ (b, c) ∷ [])
        → next ≢ tail
    not_yet [] k w = λ q. w.0 (sym q ∙ k.0)
    not_yet ((i, j) ∷ us) k w = λ q. w.0 (sym q ∙ k.0)

module _ {l : LinkedList} where
  -- `list_lpop` and `list_rpop` on an empty list give NULL and change nothing.
  pub pop-empty : Holds l [] → (lpop l ≡ some (0, l)) × (rpop l ≡ some (0, l))
  unfolding lpop rpop
  pop-empty h = (ground (arith, h.chain), ground (arith, h.chain))

  -- `list_lpop` takes the first node.
  lpop-Holds : (a d : ℕ) (xs : List Entry) → Holds l ((a, d) ∷ xs) → Removes (lpop l) d xs
  unfolding lpop
  lpop-Holds a d [] h =
      let (e, nz, next, c, z) = h.chain in
      let at : l.mem l.head ≡ cell d next = rw e c in
      (
        record { num = 0; head = 0; tail = 0; mem = write l.mem l.head none },
        ground (arith, e, nz, at, h.tail_is),
        record { chain = refl; distinct = tt; num_is = refl; tail_is = refl },
      )
  lpop-Holds a d ((b, c) ∷ xs) h =
      let (e, nz, next, g, s) = h.chain in
      let at : l.mem l.head ≡ cell d next = rw e g in
      let inner : a ≢ last b xs = last-Avoids a b xs h.distinct.0.0 h.distinct.0.1 in
      let apart = subst (λ u. Avoids u ((b, c) ∷ xs)) (sym e) h.distinct.0 in
      (
        record l { num = l.num - 1; head = next; mem = write l.mem l.head none },
        ground (arith, e, nz, at, h.tail_is, inner),
        record {
          chain = Seg-write l.mem next ((b, c) ∷ xs) 0 l.head none apart s;
          distinct = h.distinct.1;
          num_is = omega (arith, h.num_is);
          tail_is = h.tail_is;
        },
      )

  rpop_one : (a d : ℕ) → Holds l ((a, d) ∷ []) → Removes (rpop l) d []
  unfolding rpop
  rpop_one a d h =
      let (e, nz, next, c, z) = h.chain in
      let at : l.mem l.tail ≡ cell d next = rw h.tail_is c in
      (
        record { num = 0; head = 0; tail = 0; mem = write l.mem l.tail none },
        ground (arith, e, nz, at, h.tail_is),
        record { chain = refl; distinct = tt; num_is = refl; tail_is = refl },
      )

  rpop_more :
      (zs : List Entry) (b c a d : ℕ)
      → Holds l ((zs ++ (b, c) ∷ []) ++ (a, d) ∷ [])
      → Removes (rpop l) d (zs ++ (b, c) ∷ [])
  unfolding rpop
  rpop_more zs b c a d h =
      let t = Seg-Through l.mem l.head (zs ++ (b, c) ∷ []) a d [] 0 h.chain in
      let u = Seg-Through l.mem l.head zs b c [] a t.before in
      let dis = IsDistinct-Apart (zs ++ (b, c) ∷ []) a d [] h.distinct in
      let inner = IsDistinct-Apart zs b c [] dis.front in
      let (va, vb) = Avoids-append a zs ((b, c) ∷ []) dis.front_avoids in
      let tail : l.tail ≡ a = h.tail_is ∙ last-snoc 0 (zs ++ (b, c) ∷ []) a d in
      let at : l.mem l.tail ≡ cell d t.next = rw tail t.at in
      let walk : before_tail (suc l.num) l.mem l.tail l.head ≡ some b = rw tail (
        before_tail_lem (suc l.num) l.mem l.head zs b c a
          (omega (
            arith,
            h.num_is,
            length-append (zs ++ (b, c) ∷ []) ((a, d) ∷ []),
            length-append zs ((b, c) ∷ []),
          ))
          t.before dis.front_avoids) in
      let start = Seg-start l.mem l.head zs b c [] a t.before in
      let w = write (write l.mem b (cell c 0)) l.tail none in
      (
        record l { num = l.num - 1; tail = b; mem = w },
        ground (
          arith,
          start.0,
          start.1 l.tail (subst (λ x. Avoids x (zs ++ (b, c) ∷ [])) (sym tail) dis.front_avoids),
          walk,
          u.at,
          at,
        ),
        record {
          chain = Through-Seg (record {
            before =
                Seg-write _ l.head zs b l.tail none (subst (λ x. Avoids x zs) (sym tail) va)
                  (Seg-write l.mem l.head zs b b (cell c 0) inner.front_avoids u.before);
            nonzero = u.nonzero;
            next = 0;
            at = ground (arith, tail, vb.0);
            after = refl;
          });
          distinct = dis.front;
          num_is = omega (arith, h.num_is, length-append (zs ++ (b, c) ∷ []) ((a, d) ∷ []));
          tail_is = sym (last-snoc 0 zs b c);
        },
      )

  -- `list_rpop` takes the last node.
  rpop-Holds : (xs : List Entry) (a d : ℕ) → Holds l (xs ++ (a, d) ∷ []) → Removes (rpop l) d xs
  rpop-Holds xs a d h = by_end (ends xs) h
    where
      by_end : {ys : List Entry} → Ends ys → Holds l (ys ++ (a, d) ∷ []) → Removes (rpop l) d ys
      by_end empty k = rpop_one a d k
      by_end (snoc zs b c) k = rpop_more zs b c a d k
