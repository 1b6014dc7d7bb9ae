-- ===== src/LinkedList/Remove.antt =====
-- `list_remove` of list.c: the first node with given data is unlinked and released.
use cctrl.Prelude.{
  ℕ, zero, suc, ◌-◌, ◌<◌, ◌≡◌, ◌≢◌, refl, sym, ap, ◌∙◌, Bool, true, false, ◌==◌, if◌then◌else◌,
  Option, none, some, List, [], ◌∷◌, ◌++◌, length, arith, length-append, append-nil, ◌>>=◌,
}
use cctrl.LinkedList.{Node, write, cell, LinkedList}
use cctrl.LinkedList.Segment.{
  Entry, Seg, last, Holds, Seg-write, last-snoc, last-append, last-Avoids, Ends, empty, snoc, ends,
  Seg-Through, IsDistinct-Apart,
}
use cctrl.LinkedList.Bypass.{bypass}
use cctrl.LinkedList.Find.{Rejects}

-- The removal of `curr`, behind `prev`.
pub detach : LinkedList → ℕ → ℕ → Node → Option LinkedList
detach l prev curr n =
    if l.head == curr
    then (if l.head == l.tail
        then some (record { num = 0; head = 0; tail = 0; mem = write l.mem curr none })
        else some (record l { num = l.num - 1; head = n.next; mem = write l.mem curr none }))
    else if curr == l.tail
    then (l.mem prev >>= λ p. some (record l {
      num = l.num - 1;
      tail = prev;
      mem = write (write l.mem prev (cell p.item n.next)) curr none;
    }))
    else (l.mem prev >>= λ p. some (record l {
      num = l.num - 1;
      mem = write (write l.mem prev (cell p.item n.next)) curr none;
    }))

pub remove_from : ℕ → LinkedList → ℕ → ℕ → ℕ → Option (Bool × LinkedList)
remove_from zero l d prev curr = none
remove_from (suc fuel) l d prev curr =
    if curr == 0
    then some (false, l)
    else (l.mem curr >>= λ n.
        let rest = remove_from fuel l d curr n.next in
        if n.item == d then (detach l prev curr n >>= λ l'. some (true, l')) else rest)

-- `list_remove`; the flag is whether 0 is returned.
pub remove : LinkedList → ℕ → Option (Bool × LinkedList)
remove l d = remove_from (suc l.num) l d l.head l.head

abbrev pub is_data : ℕ → ℕ → Bool
is_data d x = x == d

remove_from_walk :
    (fuel : ℕ) (l : LinkedList) (prev p : ℕ) (xs : List Entry) (a d : ℕ) (next : ℕ)
    → length xs < fuel
    → Seg l.mem p xs a
    → Rejects (is_data d) xs
    → a ≢ 0
    → l.mem a ≡ cell d next
    → remove_from fuel l d prev p
      ≡ (detach l (last prev xs) a (record { item = d; next = next }) >>= λ l'. some (true, l'))
unfolding remove_from
remove_from_walk zero l prev p xs a d next f s r nz at = absurd (omega arith)
remove_from_walk (suc fuel) l prev p [] a d next f s r nz at =
    let at' : l.mem p ≡ cell d next = rw s at in ground (arith, s, nz, at')
remove_from_walk (suc fuel) l prev p ((b, c) ∷ xs) a d next f (e, bz, n, g, s) r nz at =
    let at' : l.mem p ≡ cell c n = rw e g in
    let rest = remove_from_walk fuel l p n xs a d next (omega arith) s r.1 nz at in
    let other = r.0 in ground (arith, at', bz, e, other, rest, ap (λ (u : ℕ). last u xs) e)

-- What the removal of a node leaves.
abbrev pub Detached : Option (Bool × LinkedList) → List Entry → Type 0
Detached r xs = (l' : LinkedList) × (r ≡ some (true, l')) × Holds l' xs

module _ {l : LinkedList} (a d : ℕ) where
  reached :
      (xs : List Entry) (next : ℕ) (ys : List Entry)
      → Holds l (xs ++ (a, d) ∷ ys)
      → l.mem a ≡ cell d next
      → Rejects (is_data d) xs
      → remove l d
        ≡ (detach l (last l.head xs) a (record { item = d; next = next }) >>= λ l'. some (true, l'))
  unfolding remove
  reached xs next ys h at r =
      let t = Seg-Through l.mem l.head xs a d ys 0 h.chain in
      remove_from_walk (suc l.num) l l.head l.head xs a d next
        (omega (arith, h.num_is, length-append xs ((a, d) ∷ ys))) t.before r t.nonzero at

  remove_last :
      (zs : List Entry) (e f : ℕ)
      → Holds l ((zs ++ (e, f) ∷ []) ++ (a, d) ∷ [])
      → Rejects (is_data d) (zs ++ (e, f) ∷ [])
      → Detached (remove l d) ((zs ++ (e, f) ∷ []) ++ [])
  unfolding detach
  remove_last zs e f h r =
      let xs = zs ++ (e, f) ∷ [] in
      let y = bypass zs e f a d [] h in
      let tail : l.tail ≡ a = h.tail_is ∙ last-snoc 0 xs a d in
      (
        record l { num = l.num - 1; tail = e; mem = write (write l.mem e (cell f y.next)) a none },
        reached xs y.next [] h y.at r
            ∙ ground (arith, last-snoc l.head zs e f, y.before_at, y.not_head, tail),
        record {
          chain = y.chain;
          distinct = y.distinct;
          num_is = omega (arith, y.num_is);
          tail_is = sym (ap (last 0) (append-nil xs) ∙ last-snoc 0 zs e f);
        },
      )

  remove_inner :
      (zs : List Entry) (e f b c : ℕ) (ys : List Entry)
      → Holds l ((zs ++ (e, f) ∷ []) ++ (a, d) ∷ (b, c) ∷ ys)
      → Rejects (is_data d) (zs ++ (e, f) ∷ [])
      → Detached (remove l d) ((zs ++ (e, f) ∷ []) ++ (b, c) ∷ ys)
  unfolding detach
  remove_inner zs e f b c ys h r =
      let xs = zs ++ (e, f) ∷ [] in
      let y = bypass zs e f a d ((b, c) ∷ ys) h in
      let dis = IsDistinct-Apart xs a d ((b, c) ∷ ys) h.distinct in
      let tail : l.tail ≡ last b ys = h.tail_is ∙ last-append 0 xs a d ((b, c) ∷ ys) in
      let ne : a ≢ last b ys = last-Avoids a b ys dis.rest_avoids.0 dis.rest_avoids.1 in
      (
        record l { num = l.num - 1; mem = write (write l.mem e (cell f y.next)) a none },
        reached xs y.next ((b, c) ∷ ys) h y.at r
            ∙ ground (arith, last-snoc l.head zs e f, y.before_at, y.not_head, tail, ne),
        record {
          chain = y.chain;
          distinct = y.distinct;
          num_is = omega (arith, y.num_is);
          tail_is = tail ∙ sym (last-append 0 xs b c ys);
        },
      )

  remove_first : (ys : List Entry) → Holds l ((a, d) ∷ ys) → Detached (remove l d) ys
  unfolding detach
  remove_first [] h =
      let (e, nz, next, g, z) = h.chain in
      (
        record { num = 0; head = 0; tail = 0; mem = write l.mem a none },
        reached [] next [] h g tt ∙ ground (arith, e, h.tail_is),
        record { chain = refl; distinct = tt; num_is = refl; tail_is = refl },
      )
  remove_first ((b, c) ∷ ys) h =
      let (e, nz, next, g, s) = h.chain in
      let ne : a ≢ last b ys = last-Avoids a b ys h.distinct.0.0 h.distinct.0.1 in
      (
        record l { num = l.num - 1; head = next; mem = write l.mem a none },
        reached [] next ((b, c) ∷ ys) h g tt ∙ ground (arith, e, h.tail_is, ne),
        record {
          chain = Seg-write l.mem next ((b, c) ∷ ys) 0 a none h.distinct.0 s;
          distinct = h.distinct.1;
          num_is = omega (arith, h.num_is);
          tail_is = h.tail_is;
        },
      )

  -- `list_remove` takes out the first node with the data, wherever it stands.
  remove-Holds :
      (xs ys : List Entry)
      → Holds l (xs ++ (a, d) ∷ ys)
      → Rejects (is_data d) xs
      → Detached (remove l d) (xs ++ ys)
  remove-Holds xs ys h r = by_end (ends xs) ys h r
    where
      by_end :
          {us : List Entry}
          → Ends us
          → (vs : List Entry) → Holds l (us ++ (a, d) ∷ vs)
          → Rejects (is_data d) us
          → Detached (remove l d) (us ++ vs)
      by_end empty vs k w = remove_first vs k
      by_end (snoc zs e f) [] k w = remove_last zs e f k w
      by_end (snoc zs e f) ((b, c) ∷ vs) k w = remove_inner zs e f b c vs k w
