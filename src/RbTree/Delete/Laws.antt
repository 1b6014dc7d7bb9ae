-- ===== src/RbTree/Delete/Laws.antt =====
-- `rbt_delete` of rb_tree.c on a whole tree, against the ordered set.
use mathlib.Core.Path.{subst}
use cctrl.Prelude.{
  ℕ, zero, suc, ◌+◌, ◌^◌, ◌<◌, ◌≡◌, refl, sym, ap, ◌∙◌, Option, some, Ordering, List, [], ◌∷◌, ◌++◌,
  length, append-nil, append_assoc, arith,
}
use cctrl.Prelude.Compare.{Ranked}
use cctrl.OrderedSet.{lookup, remove}
use cctrl.OrderedSet.Laws.{remove-IsSorted, length-remove, remove-absent}
use cctrl.RbTree.{
  Color, red, black, Tree, leaf, node, Frame, on_left, on_right, color, zip, Spot, descend, RbTree,
  down64,
}
use cctrl.RbTree.Shape.{Valid, Fits, Joins, zip-IsRb, to_list}
use cctrl.RbTree.Insert.{Fixed}
use cctrl.RbTree.Search.{Reaches, at_node, at_leaf, zip-append, Joins-black, Joins-black_below}
use cctrl.RbTree.Correct.{IsValid, root-Reaches}
use cctrl.RbTree.Delete.{unhook, Next, next, delete_here, delete_at, delete}
use cctrl.RbTree.Delete.Repair.{Short, delete_fixup-Fixed}

module _ {ℓ} {A : Type ℓ} where
  Valid-Short : (n : ℕ) (t : Tree A) → Valid n t → Short n t
  Valid-Short n leaf v = v
  Valid-Short n (node red l x r) v = (v.2, v.3)
  Valid-Short n (node black l x r) v = v

  unhook-Fixed :
      (c : Color) (n : ℕ) (l : Tree A) (x : A) (r : Tree A) (p : List (Frame A))
      → Valid n (node c l x r)
      → Fits n p
      → Joins c p
      → Fixed (zip p l) (unhook c l p) × Fixed (zip p r) (unhook c r p)
  unfolding unhook
  unhook-Fixed red n l x r p v f j = (
    (zip p l, refl, zip-IsRb n l p v.2 f (Joins-black _ p v.0), refl),
    (zip p r, refl, zip-IsRb n r p v.3 f (Joins-black _ p v.1), refl),
  )
  unhook-Fixed black zero l x r p v f j = absurd v
  unhook-Fixed black (suc n) l x r p v f j = (
    delete_fixup-Fixed (length p + 2) n l p (omega arith) (Valid-Short n l v.0) f,
    delete_fixup-Fixed (length p + 2) n r p (omega arith) (Valid-Short n r v.1) f,
  )

  -- What `next` has found below `base`.
  pub record Leftmost (n : Next A) (q base : List (Frame A)) (t : Tree A) : Type ℓ where
    pub height : ℕ
    pub fits : Fits height (n.way ++ base)
    pub joins : Joins n.hue (n.way ++ base)
    pub valid : Valid height (node n.hue leaf n.item n.right)
    pub below : List (Frame A)
    pub way_is : n.way ≡ below ++ q
    pub rest : n.item ∷ to_list (zip below n.right) ≡ to_list t

  Fits-left :
      (c : Color) (n : ℕ) (l : Tree A) (x : A) (r : Tree A) (p : List (Frame A))
      → Valid n (node c l x r)
      → Fits n p
      → Joins c p
      → (m : ℕ) × Fits m (on_left c x r ∷ p) × Valid m l × Joins (color l) (on_left c x r ∷ p)
  Fits-left red n l x r p v f j =
      (n, (v.1, v.3, j, f), v.2, Joins-black _ (on_left red x r ∷ p) v.0)
  Fits-left black zero l x r p v f j = absurd v
  Fits-left black (suc n) l x r p v f j =
      (n, (v.1, f), v.0, Joins-black_below _ (on_left black x r ∷ p) refl)

  Fits-right :
      (c : Color) (n : ℕ) (l : Tree A) (x y : A) (r : Tree A) (p : List (Frame A))
      → Valid n (node c l x r)
      → Fits n p
      → Joins c p
      → (m : ℕ) × Fits m (on_right c l y ∷ p) × Valid m r × Joins (color r) (on_right c l y ∷ p)
  Fits-right red n l x y r p v f j =
      (n, (v.0, v.2, j, f), v.3, Joins-black _ (on_right red l y ∷ p) v.1)
  Fits-right black zero l x y r p v f j = absurd v
  Fits-right black (suc n) l x y r p v f j =
      (n, (v.0, f), v.1, Joins-black_below _ (on_right black l y ∷ p) refl)

  next-Leftmost :
      (c : Color) (l : Tree A) (x : A) (r : Tree A) (q base : List (Frame A)) (n : ℕ)
      → Valid n (node c l x r)
      → Fits n (q ++ base)
      → Joins c (q ++ base)
      → Leftmost (next c l x r q) q base (node c l x r)
  unfolding next
  next-Leftmost c leaf x r q base n v f j = record {
    height = n;
    fits = f;
    joins = j;
    valid = v;
    below = [];
    way_is = refl;
    rest = refl;
  }
  next-Leftmost c (node d l y s) x r q base n v f j =
      let (m, f', v', j') = Fits-left c n (node d l y s) x r (q ++ base) v f j in
      let k = next-Leftmost d l y s (on_left c x r ∷ q) base m v' f' j' in
      record {
        height = k.height;
        fits = k.fits;
        joins = k.joins;
        valid = k.valid;
        below = k.below ++ on_left c x r ∷ [];
        way_is = k.way_is ∙ sym (append_assoc k.below (on_left c x r ∷ []) q);
        rest =
            ap (λ t. (next d l y s (on_left c x r ∷ q)).item ∷ to_list t)
              (zip-append k.below (on_left c x r ∷ []) _)
            ∙ ap (λ z. z ++ x ∷ to_list r) k.rest;
      }

  -- `_rbt_delete` takes the node out and leaves a red-black tree.
  delete_here-Fixed :
      (c : Color) (l : Tree A) (x : A) (r : Tree A) (p : List (Frame A)) (n : ℕ)
      → Valid n (node c l x r)
      → Fits n p
      → Joins c p
      → (t : Tree A) × (to_list t ≡ to_list l ++ to_list r)
        × Fixed (zip p t) (delete_here c l x r p)
  unfolding delete_here
  delete_here-Fixed c leaf x r p n v f j = (r, refl, (unhook-Fixed c n leaf x r p v f j).1)
  delete_here-Fixed c (node d l y s) x leaf p n v f j = (
    node d l y s,
    sym (append-nil (to_list (node d l y s))),
    (unhook-Fixed c n (node d l y s) x leaf p v f j).0,
  )
  delete_here-Fixed c (node d l y s) x (node e m z r) p n v f j =
      let left = node d l y s in
      let k = next e m z r [] in
      let (i, f', v', j') = Fits-right c n left x k.item (node e m z r) p v f j in
      let w = next-Leftmost e m z r [] (on_right c left k.item ∷ p) i v' f' j' in
      (
        node c left k.item (zip w.below k.right),
        ap (λ z. to_list left ++ z) w.rest,
        subst (λ t. Fixed t (unhook k.hue k.right (k.way ++ on_right c left k.item ∷ p)))
            (zip-append k.way (on_right c left k.item ∷ p) k.right
              ∙ ap (λ b. zip (on_right c left k.item ∷ p) (zip b k.right))
                  (w.way_is ∙ append-nil w.below))
            (unhook-Fixed k.hue w.height leaf k.item k.right (k.way ++ on_right c left k.item ∷ p)
              w.valid w.fits w.joins).1,
      )

module _ {ℓ} {A : Type ℓ} {cmp : A → A → Ordering} (o : Ranked cmp) (k : A) where
  abbrev Removed : RbTree A → Option (Option A × RbTree A) → Type ℓ
  Removed t r =
      (t' : RbTree A) × (r ≡ some (lookup cmp k (to_list t.root), t'))
      × IsValid o t'
      × (to_list t'.root ≡ remove cmp k (to_list t.root))

  delete_at-Removed :
      (t : RbTree A) (s : Spot A)
      → IsValid o t
      → t.num < 2 ^ 64
      → Reaches o k t.root [] s
      → Removed t (delete_at t s)
  unfolding delete_at
  delete_at-Removed t _ v small (at_leaf q e f absent added) =
      (t, rw absent refl, v, sym (remove-absent o k (to_list t.root) absent))
  delete_at-Removed t _ v small (at_node {c} {l} {x} {r} {w} q m e vw f j found gone) =
      let (u, du, (u', ru, rb, items)) = delete_here-Fixed c l x r w m vw f j in
      let all : to_list u' ≡ remove cmp k (to_list t.root) =
        items ∙ ap (λ p. to_list (zip p u)) (e ∙ append-nil q) ∙ gone u du in
      let fewer = length-remove o k (to_list t.root) x found in
      (
        record { num = down64 t.num; root = u' },
        rw (ru, found) refl,
        record {
          rb = rb;
          sorted = rw all (remove-IsSorted o k (to_list t.root) v.sorted);
          counted = rw all (omega (arith, fewer, v.counted, small));
        },
        all,
      )

  -- `rbt_delete` on a valid tree of fewer than `2 ^ 64` nodes meets no fault, ends, and leaves a valid
  -- tree; `*data` is the value equal to the key, or NULL, and the data left are those of the ordered
  -- set with it removed.
  pub delete-remove :
      (t : RbTree A)
      → IsValid o t
      → t.num < 2 ^ 64
      → (t' : RbTree A) × (delete cmp k t ≡ some (lookup cmp k (to_list t.root), t'))
        × IsValid o t'
        × (to_list t'.root ≡ remove cmp k (to_list t.root))
  unfolding delete
  delete-remove t v small =
      delete_at-Removed t (descend cmp k t.root []) v small (root-Reaches o k t v)
