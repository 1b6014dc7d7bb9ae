-- ===== src/LinkedList/Sorted.antt =====
-- `list_sort` of list.c: insertion into a list in descending order.
use mathlib.Core.Path.{subst}
use cctrl.Prelude.{
  ℕ, zero, suc, ◌-◌, ◌^◌, ◌<◌, ◌≡◌, ◌≢◌, sym, ◌∙◌, Bool, true, false, ◌==◌, if◌then◌else◌,
  Bool-cases, inl, inr, Option, none, List, [], ◌∷◌, ◌++◌, length, append_assoc, arith, ◌>>=◌,
  Ordering,
}
use cctrl.LinkedList.{cell, LinkedList, lpush, insert}
use cctrl.LinkedList.Segment.{Entry, Seg, Avoids, last, last-snoc, Holds, Ends, empty, snoc, ends}
use cctrl.LinkedList.Push.{Inserts, lpush-Holds, insert-Holds}

insert_after :
    {l : LinkedList} (a d : ℕ) (xs ys : List Entry)
    → a ≢ 0
    → Holds l (xs ++ ys)
    → Avoids a (xs ++ ys)
    → length (xs ++ ys) < 2 ^ 31 - 1
    → Inserts (insert l (last 0 xs) a d) (xs ++ (a, d) ∷ ys)
unfolding insert
insert_after {l} a d xs ys nz h v few = by_end (ends xs) h v few
  where
    by_end :
        {us : List Entry}
        → Ends us
        → Holds l (us ++ ys)
        → Avoids a (us ++ ys)
        → length (us ++ ys) < 2 ^ 31 - 1
        → Inserts (insert l (last 0 us) a d) (us ++ (a, d) ∷ ys)
    by_end empty k w few = lpush-Holds a d nz ys k w few
    by_end (snoc zs e f) k w few =
        let open_end = append_assoc zs ((e, f) ∷ []) in
        subst (λ p. Inserts (insert l p a d) ((zs ++ (e, f) ∷ []) ++ (a, d) ∷ ys))
          (sym (last-snoc 0 zs e f))
          (subst (Inserts (insert l e a d)) (sym (open_end ((a, d) ∷ ys))) (
            insert-Holds a d nz zs e f ys (subst (Holds l) (open_end ys) k)
              (subst (Avoids a) (open_end ys) w) (rw (open_end ys) at few)))

module _ (cmp : ℕ → ℕ → Ordering) where
  -- The new data is not below that of a node.
  abbrev pub reaches : ℕ → ℕ → Bool
  reaches d c = elim (cmp d c) [ Ordering.lt ↦ false | _ ↦ true ]

  -- The loop of `list_sort`; `a` is what `alloc` returns.
  pub sort_from : ℕ → LinkedList → ℕ → ℕ → ℕ → ℕ → Option (Bool × LinkedList)
  sort_from zero l a d prev curr = none
  sort_from (suc fuel) l a d prev curr =
      if curr == 0
      then insert l prev a d
      else (l.mem curr >>= λ n.
          let rest = sort_from fuel l a d curr n.next in
          if reaches d n.item then insert l prev a d else rest)

  -- `list_sort`
  pub sort : LinkedList → ℕ → ℕ → Option (Bool × LinkedList)
  sort l a d = if l.head == 0 then lpush l a d else sort_from (suc l.num) l a d 0 l.head

  -- Where the node goes: in front of the first node that it reaches.
  abbrev pub place : ℕ → ℕ → List Entry → List Entry
  place a d [] = (a, d) ∷ []
  place a d ((b, c) ∷ xs) = if reaches d c then (a, d) ∷ (b, c) ∷ xs else (b, c) ∷ place a d xs

  -- Descending from a bound on the first datum.
  abbrev pub Falls : ℕ → List Entry → Type 0
  Falls p [] = Unit
  Falls p ((b, c) ∷ xs) = (reaches p c ≡ true) × Falls c xs

  sort_from-Inserts :
      (fuel : ℕ) {l : LinkedList} (a d : ℕ) (xs ys : List Entry) (p : ℕ)
      → a ≢ 0
      → length ys < fuel
      → Holds l (xs ++ ys)
      → Avoids a (xs ++ ys)
      → length (xs ++ ys) < 2 ^ 31 - 1
      → Seg l.mem p ys 0
      → Inserts (sort_from fuel l a d (last 0 xs) p) (xs ++ place a d ys)
  unfolding sort_from
  sort_from-Inserts zero a d xs ys p nz f h v few s = absurd (omega arith)
  sort_from-Inserts (suc fuel) a d xs [] p nz f h v few s =
      let there = insert_after a d xs [] nz h v few in
      (there.0, ground (arith, s, there.1), there.2)
  sort_from-Inserts (suc fuel) {l} a d xs ((b, c) ∷ ys) p nz f h v few (e, bz, n, g, s) =
      let at : l.mem p ≡ cell c n = rw e g in
      elim (Bool-cases (reaches d c)) [
        | inl y ↦
            let there = insert_after a d xs ((b, c) ∷ ys) nz h v few in
            (there.0, ground (arith, at, e, bz, y, there.1), rw y there.2)
        | inr f' ↦
            let assoc = append_assoc xs ((b, c) ∷ []) in
            let later =
              sort_from-Inserts fuel a d (xs ++ (b, c) ∷ []) ys n nz (omega (arith, f))
                (subst (Holds l) (sym (assoc ys)) h) (subst (Avoids a) (sym (assoc ys)) v)
                (rw (sym (assoc ys)) at few) s in
            let here : last 0 (xs ++ (b, c) ∷ []) ≡ p = last-snoc 0 xs b c ∙ sym e in
            (
              later.0,
              ground (arith, at, e, bz, f', here, later.1),
              rw f' (subst (Holds later.0) (assoc (place a d ys)) later.2),
            )
      ]

  -- `list_sort` puts the node in front of the first one that it reaches; its loop ends.
  pub sort-Holds :
      {l : LinkedList} (a d : ℕ) (xs : List Entry)
      → a ≢ 0
      → Holds l xs
      → Avoids a xs
      → length xs < 2 ^ 31 - 1
      → Inserts (sort l a d) (place a d xs)
  unfolding sort
  sort-Holds {l} a d [] nz h v few =
      let there = lpush-Holds a d nz [] h v few in
      (there.0, ground (arith, h.chain, there.1), there.2)
  sort-Holds {l} a d ((b, c) ∷ xs) nz h v few =
      let there =
        sort_from-Inserts (suc l.num) a d [] ((b, c) ∷ xs) l.head nz (omega (arith, h.num_is)) h v
          few h.chain in
      (there.0, ground (arith, h.chain.0, h.chain.1, there.1), there.2)

  abbrev pub IsDescending : List Entry → Type 0
  IsDescending [] = Unit
  IsDescending ((b, c) ∷ xs) = Falls c xs
