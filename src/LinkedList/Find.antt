-- ===== src/LinkedList/Find.antt =====
-- `list_find` and `list_find_and_del` on a list object that holds a sequence.
use cctrl.Prelude.{
  ℕ, zero, suc, ◌-◌, ◌<◌, ◌≡◌, ◌≢◌, sym, ap, ◌∙◌, Bool, true, false, if◌then◌else◌, Option, none,
  some, List, [], ◌∷◌, ◌++◌, length, arith, length-append, ◌>>=◌,
}
use cctrl.LinkedList.{
  Memory, write, cell, LinkedList, find, find_from, unlink, del_from, find_and_del, rpush,
}
use cctrl.LinkedList.Segment.{
  Entry, Seg, last, Holds, Seg-write, last-snoc, last-append, Ends, empty, snoc, ends, Seg-Through,
}
use cctrl.LinkedList.Pop.{Removes}
use cctrl.LinkedList.Bypass.{bypass}

-- The data of the first node that passes, or NULL.
pub first : (ℕ → Bool) → List Entry → ℕ
first cb [] = 0
first cb ((a, d) ∷ xs) = if cb d then d else first cb xs

abbrev pub Rejects : (ℕ → Bool) → List Entry → Type 0
Rejects cb [] = Unit
Rejects cb ((a, d) ∷ xs) = (cb d ≡ false) × Rejects cb xs

find_from-first :
    (fuel : ℕ) (cb : ℕ → Bool) (m : Memory) (p : ℕ) (xs : List Entry)
    → length xs < fuel
    → Seg m p xs 0
    → find_from fuel cb m p ≡ some (first cb xs)
unfolding find_from first
find_from-first zero cb m p xs f s = absurd (omega arith)
find_from-first (suc fuel) cb m p [] f s = ground (arith, s)
find_from-first (suc fuel) cb m p ((a, d) ∷ xs) f (e, nz, next, g, s) =
    let at : m p ≡ cell d next = rw e g in
    ground (arith, at, e, nz, find_from-first fuel cb m next xs (omega arith) s)

-- `list_find` gives the data of the first node that the callback accepts, and NULL if none is.
find-first :
    {l : LinkedList} (cb : ℕ → Bool) (xs : List Entry) → Holds l xs → find l cb ≡ some (first cb xs)
unfolding find
find-first {l} cb xs h =
    find_from-first (suc l.num) cb l.mem l.head xs (omega (arith, h.num_is)) h.chain

-- The walk of `list_find_and_del` over nodes that are rejected.
del_from_walk :
    (fuel : ℕ) (cb : ℕ → Bool) (l : LinkedList) (prev p : ℕ) (xs : List Entry) (a d : ℕ) (next : ℕ)
    → length xs < fuel
    → Seg l.mem p xs a
    → Rejects cb xs
    → cb d ≡ true
    → a ≢ 0
    → l.mem a ≡ cell d next
    → del_from fuel cb l prev p
      ≡ (unlink l (last prev xs) a (record { item = d; next = next }) >>= λ l'. some (d, l'))
unfolding del_from
del_from_walk zero cb l prev p xs a d next f s r yes' nz at = absurd (omega arith)
del_from_walk (suc fuel) cb l prev p [] a d next f s r yes' nz at =
    let at' : l.mem p ≡ cell d next = rw s at in ground (arith, s, nz, at', yes')
del_from_walk (suc fuel) cb l prev p ((b, c) ∷ xs) a d next f (e, bz, n, g, s) r yes' nz at =
    let at' : l.mem p ≡ cell c n = rw e g in
    let rest = del_from_walk fuel cb l p n xs a d next (omega arith) s r.1 yes' nz at in
    ground (arith, at', bz, e, r.0, rest, ap (λ (u : ℕ). last u xs) e)

-- What the walk has found: an accepted node (a, d) behind rejected ones.
pub record Accepts (cb : ℕ → Bool) (xs : List Entry) (d : ℕ) : Type 0 where
  pub rejected : Rejects cb xs
  pub accepted : cb d ≡ true

Seg-only : (m : Memory) (p a d : ℕ) → Seg m p ((a, d) ∷ []) 0 → m a ≡ cell d 0
Seg-only m p a d s = let (e, nz, next, c, z) = s in rw c (ap (cell d) z)

-- Where the removal of the last node `a` leaves the list object.
pub record Dangles (a d : ℕ) (r : Option (ℕ × LinkedList)) : Type 0 where
  pub left : LinkedList
  pub result : r ≡ some (d, left)
  pub tail_stays : left.tail ≡ a
  pub released : left.mem a ≡ none

module _ {l : LinkedList} (cb : ℕ → Bool) where
  found :
      (xs : List Entry) (a d next : ℕ) (ys : List Entry)
      → Holds l (xs ++ (a, d) ∷ ys)
      → l.mem a ≡ cell d next
      → Accepts cb xs d
      → find_and_del l cb
        ≡ (unlink l (last 0 xs) a (record { item = d; next = next }) >>= λ l'. some (d, l'))
  unfolding find_and_del
  found xs a d next ys h at acc =
      let t = Seg-Through l.mem l.head xs a d ys 0 h.chain in
      del_from_walk (suc l.num) cb l 0 l.head xs a d next
        (omega (arith, h.num_is, length-append xs ((a, d) ∷ ys))) t.before acc.rejected acc.accepted
        t.nonzero at

  del_first :
      (a d b c : ℕ) (ys : List Entry)
      → Holds l ((a, d) ∷ (b, c) ∷ ys)
      → Accepts cb [] d
      → Removes (find_and_del l cb) d ((b, c) ∷ ys)
  unfolding unlink
  del_first a d b c ys h acc =
      let t = Seg-Through l.mem l.head [] a d ((b, c) ∷ ys) 0 h.chain in
      (
        record l { num = l.num - 1; head = t.next; mem = write l.mem a none },
        found [] a d t.next ((b, c) ∷ ys) h t.at acc ∙ ground (arith, h.num_is, t.before),
        record {
          chain = Seg-write l.mem t.next ((b, c) ∷ ys) 0 a none h.distinct.0 t.after;
          distinct = h.distinct.1;
          num_is = omega (arith, h.num_is);
          tail_is = h.tail_is;
        },
      )

  del_later :
      (zs : List Entry) (e f a d b c : ℕ) (ys : List Entry)
      → Holds l ((zs ++ (e, f) ∷ []) ++ (a, d) ∷ (b, c) ∷ ys)
      → Accepts cb (zs ++ (e, f) ∷ []) d
      → Removes (find_and_del l cb) d ((zs ++ (e, f) ∷ []) ++ (b, c) ∷ ys)
  unfolding unlink
  del_later zs e f a d b c ys h acc =
      let xs = zs ++ (e, f) ∷ [] in
      let y = bypass zs e f a d ((b, c) ∷ ys) h in
      (
        record l { num = l.num - 1; mem = write (write l.mem e (cell f y.next)) a none },
        found xs a d y.next ((b, c) ∷ ys) h y.at acc
            ∙ ground (arith, last-snoc 0 zs e f, y.before_at, y.before_nonzero, y.not_head, y.more),
        record {
          chain = y.chain;
          distinct = y.distinct;
          num_is = omega (arith, y.num_is);
          tail_is = h.tail_is ∙ last-append 0 xs a d ((b, c) ∷ ys) ∙ sym (last-append 0 xs b c ys);
        },
      )

  -- `list_find_and_del` takes the first node accepted, if that is not the last node.
  find_and_del-Holds :
      (xs : List Entry) (a d b c : ℕ) (ys : List Entry)
      → Holds l (xs ++ (a, d) ∷ (b, c) ∷ ys)
      → Accepts cb xs d
      → Removes (find_and_del l cb) d (xs ++ (b, c) ∷ ys)
  find_and_del-Holds xs a d b c ys h acc = by_end (ends xs) h acc
    where
      by_end :
          {us : List Entry}
          → Ends us
          → Holds l (us ++ (a, d) ∷ (b, c) ∷ ys)
          → Accepts cb us d
          → Removes (find_and_del l cb) d (us ++ (b, c) ∷ ys)
      by_end empty k r = del_first a d b c ys k r
      by_end (snoc zs e f) k r = del_later zs e f a d b c ys k r

  dangles :
      (xs : List Entry) (a d : ℕ)
      → Holds l (xs ++ (a, d) ∷ [])
      → Accepts cb xs d
      → Dangles a d (find_and_del l cb)
  unfolding unlink
  dangles xs a d h acc = by_end (ends xs) h acc
    where
      by_end :
          {us : List Entry}
          → Ends us
          → Holds l (us ++ (a, d) ∷ [])
          → Accepts cb us d
          → Dangles a d (find_and_del l cb)
      by_end empty k r = record {
        left = record l { num = 0; head = 0; mem = write l.mem a none };
        result =
            found [] a d 0 [] k (Seg-only l.mem l.head a d k.chain) r ∙ ground (arith, k.num_is);
        tail_stays = k.tail_is;
        released = ground arith;
      }
      by_end (snoc zs e f) k r =
          let y = bypass zs e f a d [] k in
          record {
            left = record l { num = l.num - 1; mem = write (write l.mem e (cell f y.next)) a none };
            result =
                found (zs ++ (e, f) ∷ []) a d y.next [] k y.at r
                ∙ ground
                    (arith, last-snoc 0 zs e f, y.before_at, y.before_nonzero, y.not_head, y.more);
            tail_stays = k.tail_is ∙ last-snoc 0 (zs ++ (e, f) ∷ []) a d;
            released = ground arith;
          }

  -- When the accepted node is the last one, `tail` still points to the released node, and the next
  -- `list_rpush` follows it.
  pub find_and_del_dangles :
      (xs : List Entry) (a d : ℕ)
      → Holds l (xs ++ (a, d) ∷ [])
      → Accepts cb xs d
      → a ≢ 0
      → (l' : LinkedList) × (find_and_del l cb ≡ some (d, l'))
        × ((b c : ℕ) → b ≢ 0 → rpush l' b c ≡ none)
  unfolding rpush
  find_and_del_dangles xs a d h acc nz =
      let w = dangles xs a d h acc in
      let gone : w.left.mem w.left.tail ≡ none = rw w.tail_stays w.released in
      (w.left, w.result, λ b c ne. ground (arith, ne, w.tail_stays, nz, gone))

-- The walk of `list_find_and_del` when every node is rejected.
del_from_end :
    (fuel : ℕ) (cb : ℕ → Bool) (l : LinkedList) (prev p : ℕ) (xs : List Entry)
    → length xs < fuel
    → Seg l.mem p xs 0
    → Rejects cb xs
    → del_from fuel cb l prev p ≡ some (0, l)
unfolding del_from
del_from_end zero cb l prev p xs f s r = absurd (omega arith)
del_from_end (suc fuel) cb l prev p [] f s r = ground (arith, s)
del_from_end (suc fuel) cb l prev p ((b, c) ∷ xs) f (e, bz, n, g, s) r =
    let at : l.mem p ≡ cell c n = rw e g in
    let rest = del_from_end fuel cb l p n xs (omega arith) s r.1 in
    ground (arith, at, bz, e, r.0, rest)

-- When no node is accepted, `list_find_and_del` gives NULL and changes nothing.
pub find_and_del_none :
    {l : LinkedList} (cb : ℕ → Bool) (xs : List Entry)
    → Holds l xs
    → Rejects cb xs
    → find_and_del l cb ≡ some (0, l)
unfolding find_and_del
find_and_del_none {l} cb xs h r =
    del_from_end (suc l.num) cb l 0 l.head xs (omega (arith, h.num_is)) h.chain r
