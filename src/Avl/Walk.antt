-- ===== src/Avl/Walk.antt =====
-- lib/core/avl_tree.c: `avl_trav`, `avl_find` and `avl_destroy`, which walk the whole tree, and how
-- deep a balanced tree can be.
use mathlib.Core.List.{foldl, foldl-append, perm_middle}
use mathlib.Core.List.Perm
use cctrl.Prelude.{
  ℕ, suc, ◌+◌, ◌/◌, ◌^◌, ◌≤◌, ◌≡◌, refl, sym, ap, ◌∙◌, Bool, Option, some, none, arith, List, [],
  ◌∷◌, ◌++◌, length, length-append, append-nil, Perm, if◌then◌else◌, dec_lt, ◌-◌,
}
use cctrl.Prelude.Bits.{double-pow, pow_mono}
use cctrl.Avl.{Balance, lh, eh, rh, Tree, leaf, node}
use cctrl.Avl.Shape.{height, IsAvl, Fits, to_list}

-- `_avl_trav`; `proc` changes a state of the caller's, and its result is ignored.
trav {ℓ κ} : {A : Type ℓ} {S : Type κ} → (S → A → S) → Tree A → S → S
trav proc leaf s = s
trav proc (node _ l x r) s = trav proc r (proc (trav proc l s) x)

abbrev or_else {ℓ} : {A : Type ℓ} → Option A → Option A → Option A
or_else none b = b
or_else (some a) b = some a

-- `_avl_find`; no data pointer is NULL.
find {ℓ} : {A : Type ℓ} → (A → Bool) → Tree A → Option A
find p leaf = none
find p (node _ l x r) = or_else (find p l) (or_else (if p x then some x else none) (find p r))

-- `_avl_destroy`: the data in the order in which they are released.
destroy {ℓ} : {A : Type ℓ} → Tree A → List A
destroy leaf = []
destroy (node _ l x r) = destroy l ++ (destroy r ++ x ∷ [])

-- The first value of a list that passes a test.
first {ℓ} : {A : Type ℓ} → (A → Bool) → List A → Option A
first p [] = none
first p (x ∷ xs) = if p x then some x else first p xs

Fits-close : (b : Balance) (l r : ℕ) → Fits b l r → (l ≤ r + 1) × (r ≤ l + 1)
Fits-close lh l r f = omega arith
Fits-close eh l r f = omega arith
Fits-close rh l r f = omega arith

module _ {ℓ} {A : Type ℓ} where
  -- `avl_trav` calls `proc` once for each of the data, in ascending order.
  trav-foldl {κ} :
      {S : Type κ} (proc : S → A → S) (t : Tree A) (s : S)
      → trav proc t s ≡ foldl proc s (to_list t)
  unfolding trav
  trav-foldl proc leaf s = refl
  trav-foldl proc (node _ l x r) s =
      trav-foldl proc r _
      ∙ ap (λ u. foldl proc (proc u x) (to_list r)) (trav-foldl proc l s)
      ∙ sym (foldl-append proc s (to_list l) (x ∷ to_list r))

  first-append :
      (p : A → Bool) (xs ys : List A) → first p (xs ++ ys) ≡ or_else (first p xs) (first p ys)
  unfolding first
  first-append p [] ys = refl
  first-append p (x ∷ xs) ys = ground (arith, first-append p xs ys)

  -- `avl_find` gives the first of the data, in ascending order, that the callback accepts.
  find-first : (p : A → Bool) (t : Tree A) → find p t ≡ first p (to_list t)
  unfolding find first
  find-first p leaf = refl
  find-first p (node _ l x r) =
      ground (arith, find-first p l, find-first p r, first-append p (to_list l) (x ∷ to_list r))

  -- `avl_destroy` releases each of the data exactly once.
  destroy-perm : (t : Tree A) → Perm (destroy t) (to_list t)
  unfolding destroy
  destroy-perm leaf = Perm.refl []
  destroy-perm (node _ l x r) = Perm.append (destroy-perm l) (
      Perm.trans (perm_middle (destroy r) [])
        (Perm.cons x (rw (append-nil (destroy r)) (destroy-perm r))))

  -- A tree whose balance factors are right and that holds n values is no higher than `2 * log2 (n + 1) + 1`.
  pub height_bound : (t : Tree A) → IsAvl t → 2 ^ (height t / 2) ≤ length (to_list t) + 1
  height_bound leaf v = omega arith
  height_bound (node b l x r) v = elim (dec_lt (height (node b l x r)) 2) [
    | yes low ↦ let e : height (node b l x r) / 2 ≡ 0 = omega arith in rw e (omega arith)
    | no high ↦
        let m = height (node b l x r) / 2 - 1 in
        let e : height (node b l x r) / 2 ≡ suc m = omega arith in
        let (p, q) = Fits-close b (height l) (height r) v.0 in
        rw (e, double-pow m)
          (omega (
            arith,
            pow_mono m (height l / 2) (omega arith),
            pow_mono m (height r / 2) (omega arith),
            height_bound l v.1,
            height_bound r v.2,
            length-append (to_list l) (x ∷ to_list r),
          ))
  ]
