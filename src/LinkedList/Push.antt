-- ===== src/LinkedList/Push.antt =====
-- `list_lpush`, `list_rpush` and `list_insert` on a list object that holds a sequence.
use cctrl.Prelude.{
  ℕ, ◌-◌, ◌^◌, ◌<◌, ◌≡◌, ◌≢◌, refl, sym, ◌∙◌, Bool, true, Option, some, List, [], ◌∷◌, ◌++◌, length,
  arith, length-append, append_assoc,
}
use cctrl.LinkedList.{num_up, write, cell, LinkedList, lpush, rpush, insert}
use cctrl.LinkedList.Segment.{
  Entry, Seg, Avoids, Avoids-append, last, Holds, Seg-write, Seg-append, IsDistinct-Apart,
  IsDistinct-snoc, IsDistinct-insert, last-snoc, last-append, last-Avoids, Ends, empty, snoc, ends,
  Seg-Through, Through-Seg,
}

-- What an insertion of the node (a, d) leaves.
abbrev pub Inserts : Option (Bool × LinkedList) → List Entry → Type 0
Inserts r xs = (l' : LinkedList) × (r ≡ some (true, l')) × Holds l' xs

module _ {l : LinkedList} (a d : ℕ) (fresh : a ≢ 0) where
  -- `list_lpush` of a new node puts it in front.
  pub lpush-Holds :
      (xs : List Entry)
      → Holds l xs
      → Avoids a xs
      → length xs < 2 ^ 31 - 1
      → Inserts (lpush l a d) ((a, d) ∷ xs)
  unfolding lpush
  lpush-Holds [] h v few = (
    record { num = 1; head = a; tail = a; mem = write l.mem a (cell d 0) },
    ground (arith, h.chain),
    record {
      chain = (refl, fresh, 0, ground arith, refl);
      distinct = (tt, tt);
      num_is = refl;
      tail_is = refl;
    },
  )
  lpush-Holds ((b, c) ∷ xs) h v few = (
    record l { num = num_up l.num; head = a; mem = write l.mem a (cell d l.head) },
    ground (arith, h.chain.0, h.chain.1),
    record {
      chain =
          (refl, fresh, l.head, ground arith, Seg-write l.mem l.head ((b, c) ∷ xs) 0 a _ v h.chain);
      distinct = (v, h.distinct);
      num_is = omega (arith, h.num_is, few);
      tail_is = h.tail_is;
    },
  )

  rpush_empty : Holds l [] → Inserts (rpush l a d) ((a, d) ∷ [])
  unfolding rpush
  rpush_empty h = (
    record { num = 1; head = a; tail = a; mem = write l.mem a (cell d 0) },
    ground (arith, h.tail_is),
    record {
      chain = (refl, fresh, 0, ground arith, refl);
      distinct = (tt, tt);
      num_is = refl;
      tail_is = refl;
    },
  )

  rpush_snoc :
      (zs : List Entry) (b c : ℕ)
      → Holds l (zs ++ (b, c) ∷ [])
      → Avoids a (zs ++ (b, c) ∷ [])
      → length (zs ++ (b, c) ∷ []) < 2 ^ 31 - 1
      → Inserts (rpush l a d) ((zs ++ (b, c) ∷ []) ++ (a, d) ∷ [])
  unfolding rpush
  rpush_snoc zs b c h v few =
      let t = Seg-Through l.mem l.head zs b c [] 0 h.chain in
      let tail : l.tail ≡ b = h.tail_is ∙ last-snoc 0 zs b c in
      let ap = IsDistinct-Apart zs b c [] h.distinct in
      let (va, vb) = Avoids-append a zs ((b, c) ∷ []) v in
      let at : l.mem l.tail ≡ cell c t.next = rw tail t.at in
      let w = write (write l.mem l.tail (cell c a)) a (cell d 0) in
      let link : w b ≡ cell c a = ground (arith, tail, vb.0) in
      let apart : Avoids l.tail zs = rw tail ap.front_avoids in
      let front =
        Seg-write _ l.head zs b a (cell d 0) va
          (Seg-write l.mem l.head zs b l.tail (cell c a) apart t.before) in
      (
        record l { num = num_up l.num; tail = a; mem = w },
        ground (arith, at, tail, t.nonzero),
        record {
          chain =
              Seg-append w l.head (zs ++ (b, c) ∷ []) ((a, d) ∷ []) a 0
                (Through-Seg (record {
                  before = front;
                  nonzero = t.nonzero;
                  next = a;
                  at = link;
                  after = refl;
                }))
                (refl, fresh, 0, ground arith, refl);
          distinct = IsDistinct-snoc _ a d h.distinct v;
          num_is = omega (arith, h.num_is, few, length-append (zs ++ (b, c) ∷ []) ((a, d) ∷ []));
          tail_is = sym (last-snoc 0 (zs ++ (b, c) ∷ []) a d);
        },
      )

  -- `list_rpush` of a new node, when fewer than `2 ^ 31 - 1` nodes are in the list, puts it at the end.
  pub rpush-Holds :
      (xs : List Entry)
      → Holds l xs
      → Avoids a xs
      → length xs < 2 ^ 31 - 1
      → Inserts (rpush l a d) (xs ++ (a, d) ∷ [])
  rpush-Holds xs h v few = by_end (ends xs) h v few
    where
      by_end :
          {ys : List Entry}
          → Ends ys
          → Holds l ys
          → Avoids a ys
          → length ys < 2 ^ 31 - 1
          → Inserts (rpush l a d) (ys ++ (a, d) ∷ [])
      by_end empty h v few = rpush_empty h
      by_end (snoc zs b c) h v few = rpush_snoc zs b c h v few

  -- `list_insert` behind the node `b` puts the new node there, at the end too.
  pub insert-Holds :
      (xs : List Entry) (b c : ℕ) (ys : List Entry)
      → Holds l (xs ++ (b, c) ∷ ys)
      → Avoids a (xs ++ (b, c) ∷ ys)
      → length (xs ++ (b, c) ∷ ys) < 2 ^ 31 - 1
      → Inserts (insert l b a d) (xs ++ (b, c) ∷ (a, d) ∷ ys)
  unfolding insert
  insert-Holds xs b c [] h v few =
      let t = Seg-Through l.mem l.head xs b c [] 0 h.chain in
      let tail : l.tail ≡ b = h.tail_is ∙ last-snoc 0 xs b c in
      let at_end : insert l b a d ≡ rpush l a d = ground (arith, tail, t.nonzero) in
      rw at_end (rw (append_assoc xs ((b, c) ∷ []) ((a, d) ∷ [])) at (rpush_snoc xs b c h v few))
  insert-Holds xs b c ((e, f) ∷ ys) h v few =
      let zs = (e, f) ∷ ys in
      let t = Seg-Through l.mem l.head xs b c zs 0 h.chain in
      let ap = IsDistinct-Apart xs b c zs h.distinct in
      let (va, vb) = Avoids-append a xs ((b, c) ∷ zs) v in
      let inner : b ≢ last e ys = last-Avoids b e ys ap.rest_avoids.0 ap.rest_avoids.1 in
      let tail : l.tail ≡ last e ys = h.tail_is ∙ last-append 0 xs b c zs in
      let w = write (write l.mem a (cell d t.next)) b (cell c a) in
      let kept =
        λ (p : ℕ) (us : List Entry) (q : ℕ) (va : Avoids a us) (vb : Avoids b us)
            (s : Seg l.mem p us q).
          Seg-write _ p us q b (cell c a) vb (Seg-write l.mem p us q a (cell d t.next) va s) in
      (
        record l { num = num_up l.num; mem = w },
        ground (arith, tail, inner, t.at, t.nonzero),
        record {
          chain = Through-Seg (record {
            before = kept l.head xs b va ap.front_avoids t.before;
            nonzero = t.nonzero;
            next = a;
            at = ground arith;
            after = (
              refl,
              fresh,
              t.next,
              ground (arith, vb.0),
              kept t.next zs 0 vb.1 ap.rest_avoids t.after,
            );
          });
          distinct = rw (append_assoc xs ((b, c) ∷ []) ((a, d) ∷ zs)) at (
              IsDistinct-insert (xs ++ (b, c) ∷ []) a d zs
                (rw (append_assoc xs ((b, c) ∷ []) zs) h.distinct)
                (rw (append_assoc xs ((b, c) ∷ []) zs) v));
          num_is = omega (
            arith,
            h.num_is,
            few,
            length-append xs ((b, c) ∷ zs),
            length-append xs ((b, c) ∷ (a, d) ∷ zs),
          );
          tail_is = h.tail_is ∙ last-append 0 xs b c zs ∙ sym (last-append 0 xs b c ((a, d) ∷ zs));
        },
      )
