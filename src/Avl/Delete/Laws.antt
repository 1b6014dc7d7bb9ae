-- ===== src/Avl/Delete/Laws.antt =====
-- `avl_delete` keeps the tree balanced and is the removal of the ordered set.
use cctrl.Prelude.{
  ℕ, suc, ◌+◌, ◌^◌, ◌<◌, ◌≡◌, refl, sym, ap, ◌∙◌, Bool, Option, some, none, arith, Ordering, List,
  [], ◌∷◌, ◌++◌, length, append_assoc, append-nil, max,
}
use cctrl.Prelude.Compare.{Ranked, less, same, more, compared}
use cctrl.OrderedSet.{lookup, remove, IsSorted}
use cctrl.OrderedSet.Laws.{
  IsSorted-Split, lookup_left, lookup_right, lookup_here, remove_left, remove_right, remove_here,
  remove-IsSorted, length-remove, remove-absent,
}
use cctrl.Avl.{Balance, Tree, leaf, node, AvlTree}
use cctrl.Avl.Shape.{height, IsAvl, one_if, to_list}
use cctrl.Avl.Correct.{IsValid}
use cctrl.Avl.Delete.{Deleted, replace_and_delete, delete_here, delete_below, delete, uncounted}
use cctrl.Avl.Delete.Shape.{left_lowered-Lowered, right_lowered-Lowered}

module _ {ℓ} {A : Type ℓ} where
  -- The last node is taken out of a balanced tree.
  replace_and_delete-Lowered :
      (t : Tree A)
      → IsAvl t
      → 0 < height t
      → (lower : Bool) × (d : A) × (u : Tree A) × (replace_and_delete t ≡ some (lower, d, u))
        × IsAvl u
        × (height t ≡ height u + one_if lower)
        × (to_list t ≡ to_list u ++ d ∷ [])
  unfolding replace_and_delete
  replace_and_delete-Lowered leaf v h = absurd (omega arith)
  replace_and_delete-Lowered (node b l x leaf) v h = (_, _, _, refl, v.1, omega arith, refl)
  replace_and_delete-Lowered (node b l x (node c m y r)) v h =
      let (lo, d, t, e, a, ht, items) =
        replace_and_delete-Lowered (node c m y r) v.2 (omega arith) in
      let (lo', u, e', a', hu, items') = right_lowered-Lowered lo b _ l x t v.1 a ht v.0 in
      (
        lo',
        d,
        u,
        rw e (rw e' refl),
        a',
        hu,
        ap (λ z. to_list l ++ x ∷ z) items
            ∙ sym (append_assoc (to_list l) (x ∷ to_list t) (d ∷ []))
            ∙ ap (λ z. z ++ d ∷ []) (sym items'),
      )

  -- The node itself is taken out: its data are found, and those of its children are left.
  delete_here-Lowered :
      (b : Balance) (l : Tree A) (x : A) (r : Tree A)
      → IsAvl (node b l x r)
      → (e : Deleted A) × (delete_here b l x r ≡ some e)
        × IsAvl e.tree
        × (suc (max (height l) (height r)) ≡ height e.tree + one_if e.lower)
        × (e.found ≡ some x)
        × (to_list e.tree ≡ to_list l ++ to_list r)
  unfolding delete_here
  delete_here-Lowered b l x leaf v = (_, refl, v.1, omega arith, refl, sym (append-nil (to_list l)))
  delete_here-Lowered b leaf x (node c m y r) v = (_, refl, v.2, omega arith, refl, refl)
  delete_here-Lowered b (node a k w j) x (node c m y r) v =
      let right = node c m y r in
      let (lo, d, t, e, at, ht, items) =
        replace_and_delete-Lowered (node a k w j) v.1 (omega arith) in
      let (lo', u, e', au, hu, items') = left_lowered-Lowered lo b _ t d right at v.2 ht v.0 in
      (
        record { lower = lo'; found = some x; tree = u },
        rw e (rw e' refl),
        au,
        hu,
        refl,
        items'
            ∙ sym (append_assoc (to_list t) (d ∷ []) (to_list right))
            ∙ ap (λ z. z ++ to_list right) (sym items),
      )

  -- What a deletion leaves of the subtree `t`.
  record Removal (cmp : A → A → Ordering) (k : A) (t : Tree A) (e : Deleted A) : Type ℓ where
    balanced : IsAvl e.tree
    lowered : height t ≡ height e.tree + one_if e.lower
    data_found : e.found ≡ lookup cmp k (to_list t)
    items : to_list e.tree ≡ remove cmp k (to_list t)

module _ {ℓ} {A : Type ℓ} {cmp : A → A → Ordering} (o : Ranked cmp) (k : A) where
  delete_below-Removal :
      (t : Tree A)
      → IsAvl t
      → IsSorted o (to_list t)
      → (e : Deleted A) × (delete_below cmp k t ≡ some e) × Removal cmp k t e
  unfolding delete_below
  delete_below-Removal leaf v s = (
    _,
    refl,
    record {
      balanced = tt;
      lowered = refl;
      data_found = unfold lookup in refl;
      items = unfold remove in refl;
    },
  )
  delete_below-Removal (node b l x r) v s =
      let p = IsSorted-Split o (to_list l) x (to_list r) s in
      let (el, ql, nl) = delete_below-Removal l v.1 p.left in
      let (er, qr, nr) = delete_below-Removal r v.2 p.right in
      elim (compared o k x) [
        | less c h ↦
            let (lo, t, e, a, ht, items) =
              left_lowered-Lowered el.lower b _ el.tree x r nl.balanced v.2 nl.lowered v.0 in
            (
              record { lower = lo; found = el.found; tree = t },
              rw (c, delete_below, ql) (rw e refl),
              record {
                balanced = a;
                lowered = ht;
                data_found = nl.data_found ∙ sym (lookup_left o k x _ _ h p.above);
                items =
                    items
                    ∙ ap (λ z. z ++ x ∷ to_list r) nl.items
                    ∙ sym (remove_left o k x _ _ h p.above);
              },
            )
        | more c h ↦
            let (lo, t, e, a, ht, items) =
              right_lowered-Lowered er.lower b _ l x er.tree v.1 nr.balanced nr.lowered v.0 in
            (
              record { lower = lo; found = er.found; tree = t },
              rw (c, delete_below, qr) (rw e refl),
              record {
                balanced = a;
                lowered = ht;
                data_found = nr.data_found ∙ sym (lookup_right o k x _ _ h p.below);
                items =
                    items
                    ∙ ap (λ z. to_list l ++ x ∷ z) nr.items
                    ∙ sym (remove_right o k x _ _ h p.below);
              },
            )
        | same c h ↦
            let (e, q, a, he, found, items) = delete_here-Lowered b l x r v in
            (
              e,
              rw (c, delete_below) q,
              record {
                balanced = a;
                lowered = he;
                data_found = found ∙ sym (lookup_here o k x _ _ h p.below);
                items = items ∙ sym (remove_here o k x _ _ h p.below);
              },
            )
      ]

  uncounted_lem :
      (xs : List A) (found : Option A) (num : ℕ)
      → found ≡ lookup cmp k xs
      → num ≡ length xs
      → num < 2 ^ 64
      → uncounted found num ≡ length (remove cmp k xs)
  unfolding uncounted
  uncounted_lem xs none num e c small = rw (remove-absent o k xs (sym e)) c
  uncounted_lem xs (some x) num e c small = omega (arith, length-remove o k xs x (sym e))

  -- `avl_delete` on a valid tree of fewer than `2 ^ 64` nodes follows no NULL pointer and leaves a
  -- valid tree: `*data` is the value equal to the key, or NULL if there is none, and the data left
  -- are those of the ordered set with that value removed.
  pub delete_correct :
      (t : AvlTree A)
      → IsValid o t
      → t.num < 2 ^ 64
      → (t' : AvlTree A) × (delete cmp k t ≡ some (lookup cmp k (to_list t.root), t'))
        × IsValid o t'
        × (to_list t'.root ≡ remove cmp k (to_list t.root))
  unfolding delete
  delete_correct t v small =
      let (e, q, n) = delete_below-Removal t.root v.balanced v.sorted in
      (
        record { num = uncounted e.found t.num; root = e.tree },
        rw q (rw n.data_found refl),
        record {
          balanced = n.balanced;
          sorted = rw n.items (remove-IsSorted o k (to_list t.root) v.sorted);
          counted_right =
              uncounted_lem (to_list t.root) e.found t.num n.data_found v.counted_right small
              ∙ ap length (sym n.items);
        },
        n.items,
      )
