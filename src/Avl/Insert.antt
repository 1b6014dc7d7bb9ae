-- ===== src/Avl/Insert.antt =====
-- `avl_insert` keeps the tree balanced and is the insertion of the ordered set.
use cctrl.Prelude.{
  ◌+◌, ◌≡◌, ◌≢◌, refl, sym, ap, ◌∙◌, Bool, true, false, Option, some, none, arith, Ordering, List,
  ◌∷◌, ◌++◌,
}
use cctrl.Prelude.Compare.{Ranked, less, same, more, compared}
use cctrl.OrderedSet.{lookup, add, IsSorted}
use cctrl.OrderedSet.Laws.{
  IsSorted-Split, add_left, add_right, lookup_left, lookup_right, lookup_here,
}
use cctrl.Avl.{
  Balance, lh, eh, rh, Tree, leaf, node, Status, ok, err, exist, Inserted, inserted, new_node,
  left_grown, right_grown, insert_below,
}
use cctrl.Avl.Shape.{
  height, IsAvl, IsTilted, one_if, to_list, left_balance-Turned, right_balance-Turned,
}

-- The code that an insertion returns, by whether memory is left and the value is there already.
abbrev pub expected {ℓ} : {A : Type ℓ} → Bool → Option A → Status
expected mem (some _) = exist
expected true none = ok
expected false none = err

module _ {ℓ} {A : Type ℓ} where
  -- What the two ends of an insertion say of the subtree `i`, which stands for `t`.
  pub record Grew (t : Tree A) (i : Inserted A) : Type ℓ where
    pub balanced : IsAvl i.tree
    pub higher : height i.tree ≡ height t + one_if i.taller
    pub tilted : i.taller ≡ true → IsTilted i.tree
    pub kept : i.ret ≢ ok → (i.taller ≡ false) × (i.tree ≡ t)

  -- The end of an insertion on the left of a node gives a balanced tree, passes the code on, and keeps
  -- the data in order.
  abbrev Ended : Tree A → Status → List A → Option (Inserted A) → Type ℓ
  Ended t s xs o = (j : Inserted A) × (o ≡ some j) × Grew t j × (j.ret ≡ s) × (to_list j.tree ≡ xs)

  failed_end :
      (s : Status) (t : Bool) (u v : Tree A) (f : Tree A → Tree A)
      → s ≢ ok
      → (t ≡ false) × (u ≡ v)
      → IsAvl (f v)
      → Grew (f v) (inserted s t (f u))
  failed_end s t u v f bad (e, p) a =
      rw p (record { balanced = a; higher = ground arith; tilted = λ q. cc; kept = λ _. (e, refl) })

  settled :
      (t u : Tree A) (taller : Bool)
      → IsAvl u
      → height u ≡ height t + one_if taller
      → (taller ≡ true → IsTilted u)
      → Grew t (inserted ok taller u)
  settled t u taller a h q = record {
    balanced = a;
    higher = h;
    tilted = q;
    kept = λ bad. absurd (bad refl);
  }

  module _ (l : Tree A) (x : A) (r : Tree A) where
    left_grown-Grew :
        (b : Balance) (s : Status) (t : Bool) (u : Tree A)
        → IsAvl (node b l x r)
        → Grew l (inserted s t u)
        → Ended (node b l x r) s (to_list u ++ x ∷ to_list r) (left_grown s t b u x r)
    unfolding left_grown
    left_grown-Grew b err t u v g = (
      _,
      refl,
      failed_end err t u l (λ w. node b w x r) (λ q. cc) (g.kept (λ q. cc)) v,
      refl,
      refl,
    )
    left_grown-Grew b exist t u v g = (
      _,
      refl,
      failed_end exist t u l (λ w. node b w x r) (λ q. cc) (g.kept (λ q. cc)) v,
      refl,
      refl,
    )
    left_grown-Grew lh ok false u v g =
        (_, refl, settled _ _ false (ground arith) (omega arith) (λ q. cc), refl, refl)
    left_grown-Grew eh ok false u v g =
        (_, refl, settled _ _ false (ground arith) (omega arith) (λ q. cc), refl, refl)
    left_grown-Grew rh ok false u v g =
        (_, refl, settled _ _ false (ground arith) (omega arith) (λ q. cc), refl, refl)
    left_grown-Grew rh ok true u v g =
        (_, refl, settled _ _ false (ground arith) (omega arith) (λ q. cc), refl, refl)
    left_grown-Grew eh ok true u v g =
        (_, refl, settled _ _ true (ground arith) (omega arith) (λ q. tt), refl, refl)
    left_grown-Grew lh ok true u v g =
        let (t, e, a, h, q) =
          left_balance-Turned lh u x r g.balanced v.2 (g.tilted refl) (omega arith) in
        (_, rw e refl, settled _ t false a (omega arith) (λ p. cc), refl, q)

    right_grown-Grew :
        (b : Balance) (s : Status) (t : Bool) (u : Tree A)
        → IsAvl (node b l x r)
        → Grew r (inserted s t u)
        → Ended (node b l x r) s (to_list l ++ x ∷ to_list u) (right_grown s t b l x u)
    unfolding right_grown
    right_grown-Grew b err t u v g = (
      _,
      refl,
      failed_end err t u r (λ w. node b l x w) (λ q. cc) (g.kept (λ q. cc)) v,
      refl,
      refl,
    )
    right_grown-Grew b exist t u v g = (
      _,
      refl,
      failed_end exist t u r (λ w. node b l x w) (λ q. cc) (g.kept (λ q. cc)) v,
      refl,
      refl,
    )
    right_grown-Grew lh ok false u v g =
        (_, refl, settled _ _ false (ground arith) (omega arith) (λ q. cc), refl, refl)
    right_grown-Grew eh ok false u v g =
        (_, refl, settled _ _ false (ground arith) (omega arith) (λ q. cc), refl, refl)
    right_grown-Grew rh ok false u v g =
        (_, refl, settled _ _ false (ground arith) (omega arith) (λ q. cc), refl, refl)
    right_grown-Grew lh ok true u v g =
        (_, refl, settled _ _ false (ground arith) (omega arith) (λ q. cc), refl, refl)
    right_grown-Grew eh ok true u v g =
        (_, refl, settled _ _ true (ground arith) (omega arith) (λ q. tt), refl, refl)
    right_grown-Grew rh ok true u v g =
        let (t, e, a, h, q) =
          right_balance-Turned rh l x u v.1 g.balanced (g.tilted refl) (omega arith) in
        (_, rw e refl, settled _ t false a (omega arith) (λ p. cc), refl, q)

-- `_avl_insert` at a balanced and sorted subtree: no NULL pointer is followed; the code is `exist` if
-- an equal value is there, else `err` without memory and `ok` with it; on `ok` the data are those of
-- the ordered set with the new value, and on any other code the subtree is as before.
pub record Insertion {ℓ} {A : Type ℓ} (cmp : A → A → Ordering) (mem : Bool) (d : A) (t : Tree A)
    (i : Inserted A) : Type ℓ where
  pub grew : Grew t i
  pub code : i.ret ≡ expected mem (lookup cmp d (to_list t))
  pub items : i.ret ≡ ok → to_list i.tree ≡ add cmp d (to_list t)

module _ {ℓ} {A : Type ℓ} {cmp : A → A → Ordering} (o : Ranked cmp) (mem : Bool) (d : A) where
  pub insert_below-Insertion :
      (t : Tree A)
      → IsAvl t
      → IsSorted o (to_list t)
      → (i : Inserted A) × (insert_below cmp mem d t ≡ some i) × Insertion cmp mem d t i
  unfolding insert_below new_node lookup add
  insert_below-Insertion leaf v s = (_, refl, new_node-Insertion mem)
    where
      new_node-Insertion : (m : Bool) → Insertion cmp m d leaf (new_node m d)
      new_node-Insertion true = record {
        grew = settled _ _ true (ground arith) (omega arith) (λ q. refl);
        code = refl;
        items = λ q. refl;
      }
      new_node-Insertion false = record {
        grew = failed_end err false leaf leaf (λ w. w) (λ q. cc) (refl, refl) tt;
        code = refl;
        items = λ q. cc;
      }
  insert_below-Insertion (node b l x r) v s =
      let p = IsSorted-Split o (to_list l) x (to_list r) s in
      let (il, el, nl) = insert_below-Insertion l v.1 p.left in
      let (ir, er, nr) = insert_below-Insertion r v.2 p.right in
      elim (compared o d x) [
        | less c h ↦
            let (j, e, g, ret, items) =
              left_grown-Grew l x r b il.ret il.taller il.tree v nl.grew in
            (
              j,
              rw (c, insert_below, el) e,
              record {
                grew = g;
                code = ret ∙ nl.code ∙ ap (expected mem) (sym (lookup_left o d x _ _ h p.above));
                items = λ q.
                    items
                    ∙ ap (λ z. z ++ x ∷ to_list r) (nl.items (sym ret ∙ q))
                    ∙ sym (add_left o d x _ _ h);
              },
            )
        | more c h ↦
            let (j, e, g, ret, items) =
              right_grown-Grew l x r b ir.ret ir.taller ir.tree v nr.grew in
            (
              j,
              rw (c, insert_below, er) e,
              record {
                grew = g;
                code = ret ∙ nr.code ∙ ap (expected mem) (sym (lookup_right o d x _ _ h p.below));
                items = λ q.
                    items
                    ∙ ap (λ z. to_list l ++ x ∷ z) (nr.items (sym ret ∙ q))
                    ∙ sym (add_right o d x _ _ h p.below);
              },
            )
        | same c h ↦ (
          _,
          rw (c, insert_below) refl,
          record {
            grew = failed_end exist false _ _ (λ w. w) (λ q. cc) (refl, refl) v;
            code = ap (expected mem) (sym (lookup_here o d x _ _ h p.below));
            items = λ q. cc;
          },
        )
      ]
