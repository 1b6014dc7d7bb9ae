-- ===== src/RbTree/Search.antt =====
-- Where the descent of rb_tree.c ends, and `rbt_query` and `rbt_insert` on a whole tree, against the
-- ordered set.
use mathlib.Core.Path.{subst}
use cctrl.Prelude.{
  ℕ, zero, suc, ◌<◌, ◌≡◌, refl, sym, ap, ◌∙◌, some, none, Ordering, List, [], ◌∷◌, ◌++◌,
  append_assoc,
}
use cctrl.Prelude.Compare.{Ranked, less, same, more, compared}
use cctrl.OrderedSet.{lookup, add, remove, IsSorted}
use cctrl.OrderedSet.Laws.{
  IsSorted-Split, lookup_left, lookup_right, lookup_here, add_left, add_right, remove_left,
  remove_right, remove_here,
}
use cctrl.RbTree.{
  Color, red, black, Tree, leaf, node, Frame, on_left, on_right, color, plug, zip, Spot, here,
  missing, descend,
}
use cctrl.RbTree.Shape.{Valid, TopBlack, Fits, Joins, to_list}

pub zip-append {ℓ} :
    {A : Type ℓ} (p q : List (Frame A)) (t : Tree A) → zip (p ++ q) t ≡ zip q (zip p t)
zip-append [] q t = refl
zip-append (f ∷ p) q t = zip-append p q (plug f t)

pub Joins-black {ℓ} : {A : Type ℓ} (c : Color) (p : List (Frame A)) → c ≡ black → Joins c p
Joins-black c p e = rw e tt

pub Joins-black_below {ℓ} : {A : Type ℓ} (c : Color) (p : List (Frame A)) → TopBlack p → Joins c p
Joins-black_below red p e = e
Joins-black_below black p e = tt

module _ {ℓ} {A : Type ℓ} {cmp : A → A → Ordering} (o : Ranked cmp) (k : A) where
  -- What stands at the spot that the descent for `k` in `t` reaches, from a position with the way up
  -- `p`: `q` is the way down from there.
  pub data Reaches (t : Tree A) (p : List (Frame A)) : Spot A → Type ℓ where
    at_node :
        {c : Color} {l : Tree A} {x : A} {r : Tree A} {w : List (Frame A)} (q : List (Frame A))
        (m : ℕ)
        → w ≡ q ++ p
        → Valid m (node c l x r)
        → Fits m w
        → Joins c w
        → lookup cmp k (to_list t) ≡ some x
        → ((u : Tree A)
            → to_list u ≡ to_list l ++ to_list r
            → to_list (zip q u) ≡ remove cmp k (to_list t))
        → Reaches t p (here c l x r w)
    at_leaf :
        {w : List (Frame A)} (q : List (Frame A))
        → w ≡ q ++ p
        → Fits 0 w
        → lookup cmp k (to_list t) ≡ none
        → ((u : Tree A) → to_list u ≡ k ∷ [] → to_list (zip q u) ≡ add cmp k (to_list t))
        → Reaches t p (missing w)

  -- A spot below the left child, seen from the node.
  left_child :
      (c : Color) (l : Tree A) (x : A) (r : Tree A) (p : List (Frame A)) (s : Spot A)
      → o.rank k < o.rank x
      → IsSorted o (to_list l ++ x ∷ to_list r)
      → Reaches l (on_left c x r ∷ p) s
      → Reaches (node c l x r) p s
  left_child c l x r p s h sorted (at_node q j e v f join found gone) =
      let d = IsSorted-Split o (to_list l) x (to_list r) sorted in
      at_node (q ++ on_left c x r ∷ []) j (e ∙ sym (append_assoc q (on_left c x r ∷ []) p)) v f join
        (lookup_left o k x (to_list l) (to_list r) h d.above ∙ found)
        (λ u b.
          ap to_list (zip-append q (on_left c x r ∷ []) u)
          ∙ ap (λ (z : List A). z ++ x ∷ to_list r) (gone u b)
          ∙ sym (remove_left o k x (to_list l) (to_list r) h d.above))
  left_child c l x r p s h sorted (at_leaf q e f none_found added) =
      let d = IsSorted-Split o (to_list l) x (to_list r) sorted in
      at_leaf (q ++ on_left c x r ∷ []) (e ∙ sym (append_assoc q (on_left c x r ∷ []) p)) f
        (lookup_left o k x (to_list l) (to_list r) h d.above ∙ none_found)
        (λ u b.
          ap to_list (zip-append q (on_left c x r ∷ []) u)
          ∙ ap (λ (z : List A). z ++ x ∷ to_list r) (added u b)
          ∙ sym (add_left o k x (to_list l) (to_list r) h))

  -- A spot below the right child, seen from the node.
  right_child :
      (c : Color) (l : Tree A) (x : A) (r : Tree A) (p : List (Frame A)) (s : Spot A)
      → o.rank x < o.rank k
      → IsSorted o (to_list l ++ x ∷ to_list r)
      → Reaches r (on_right c l x ∷ p) s
      → Reaches (node c l x r) p s
  right_child c l x r p s h sorted (at_node q j e v f join found gone) =
      let d = IsSorted-Split o (to_list l) x (to_list r) sorted in
      at_node (q ++ on_right c l x ∷ []) j (e ∙ sym (append_assoc q (on_right c l x ∷ []) p)) v f
        join (lookup_right o k x (to_list l) (to_list r) h d.below ∙ found)
        (λ u b.
          ap to_list (zip-append q (on_right c l x ∷ []) u)
          ∙ ap (λ (z : List A). to_list l ++ x ∷ z) (gone u b)
          ∙ sym (remove_right o k x (to_list l) (to_list r) h d.below))
  right_child c l x r p s h sorted (at_leaf q e f none_found added) =
      let d = IsSorted-Split o (to_list l) x (to_list r) sorted in
      at_leaf (q ++ on_right c l x ∷ []) (e ∙ sym (append_assoc q (on_right c l x ∷ []) p)) f
        (lookup_right o k x (to_list l) (to_list r) h d.below ∙ none_found)
        (λ u b.
          ap to_list (zip-append q (on_right c l x ∷ []) u)
          ∙ ap (λ (z : List A). to_list l ++ x ∷ z) (added u b)
          ∙ sym (add_right o k x (to_list l) (to_list r) h d.below))

  descend_node :
      (c : Color) (l : Tree A) (x : A) (r : Tree A) (p : List (Frame A))
      → o.rank k ≡ o.rank x
      → (n : ℕ) → Valid n (node c l x r)
      → Fits n p
      → Joins c p
      → IsSorted o (to_list l ++ x ∷ to_list r)
      → Reaches (node c l x r) p (here c l x r p)
  descend_node c l x r p h n v f j sorted =
      let d = IsSorted-Split o (to_list l) x (to_list r) sorted in
      at_node [] n refl v f j (lookup_here o k x (to_list l) (to_list r) h d.below)
        (λ u b. b ∙ sym (remove_here o k x (to_list l) (to_list r) h d.below))

  pub descend-Reaches :
      (t : Tree A) (p : List (Frame A)) (n : ℕ)
      → Valid n t
      → Fits n p
      → Joins (color t) p
      → IsSorted o (to_list t)
      → Reaches t p (descend cmp k t p)
  unfolding descend
  descend-Reaches leaf p n v f j sorted =
      at_leaf [] refl (subst (λ m. Fits m p) v f) (unfold lookup in refl) (λ u b. unfold add in b)
  descend-Reaches (node red l x r) p n v f j sorted =
      let d = IsSorted-Split o (to_list l) x (to_list r) sorted in
      elim (compared o k x) [
        | same e h ↦ rw (e, descend) (descend_node red l x r p h n v f j sorted)
        | less e h ↦
            rw (e, descend)
              (left_child red l x r p _ h sorted (
                descend-Reaches l (on_left red x r ∷ p) n v.2 (v.1, v.3, j, f) (Joins-black _ _ v.0)
                  d.left))
        | more e h ↦
            rw (e, descend)
              (right_child red l x r p _ h sorted (
                descend-Reaches r (on_right red l x ∷ p) n v.3 (v.0, v.2, j, f)
                  (Joins-black _ _ v.1) d.right))
      ]
  descend-Reaches (node black l x r) p zero v f j sorted = absurd v
  descend-Reaches (node black l x r) p (suc n) v f j sorted =
      let d = IsSorted-Split o (to_list l) x (to_list r) sorted in
      elim (compared o k x) [
        | same e h ↦ rw (e, descend) (descend_node black l x r p h (suc n) v f j sorted)
        | less e h ↦
            rw (e, descend)
              (left_child black l x r p _ h sorted (
                descend-Reaches l (on_left black x r ∷ p) n v.0 (v.1, f)
                  (Joins-black_below _ _ refl) d.left))
        | more e h ↦
            rw (e, descend)
              (right_child black l x r p _ h sorted (
                descend-Reaches r (on_right black l x ∷ p) n v.1 (v.0, f)
                  (Joins-black_below _ _ refl) d.right))
      ]
