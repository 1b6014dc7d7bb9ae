-- ===== src/RbTree/Correct.antt =====
-- `rbt_query` and `rbt_insert` of rb_tree.c on a whole tree, against the ordered set.
use cctrl.Prelude.{
  ℕ, ◌+◌, ◌-◌, ◌^◌, ◌<◌, ◌≡◌, ◌≢◌, refl, sym, ap, ◌∙◌, Bool, true, false, Option, some, none,
  Ordering, List, [], ◌∷◌, ◌++◌, length, length-append, append-nil, arith,
}
use cctrl.Prelude.Compare.{Ranked}
use cctrl.OrderedSet.{lookup, add, IsSorted}
use cctrl.OrderedSet.Laws.{add-IsSorted, length-add}
use cctrl.RbTree.{
  red, black, Tree, leaf, node, Frame, zip, Spot, spot_data, descend, query, insert_at, insert,
  RbTree, Status, ok, err, exist, up64,
}
use cctrl.RbTree.Shape.{IsRb, to_list}
use cctrl.RbTree.Insert.{Rooted, insert_fixup-Fixed}
use cctrl.RbTree.Search.{Reaches, at_node, at_leaf, descend-Reaches}

-- The code that `rbt_insert` promises.
pub expected {ℓ} : {A : Type ℓ} → Bool → Option A → Status
expected mem (some _) = exist
expected true none = ok
expected false none = err

pub expected-ok {ℓ} : {A : Type ℓ} (mem : Bool) (x : Option A) → expected mem x ≡ ok → x ≡ none
unfolding expected
expected-ok mem none e = refl
expected-ok mem (some x) e = cc

-- The tree of `rbt_tree_t`: red-black, sorted, and with its number of nodes counted.
pub record IsValid {ℓ} {A : Type ℓ} {cmp : A → A → Ordering} (o : Ranked cmp) (t : RbTree A)
    : Type ℓ where
  pub rb : IsRb t.root
  pub sorted : IsSorted o (to_list t.root)
  pub counted : t.num ≡ length (to_list t.root)

module _ {ℓ} {A : Type ℓ} {cmp : A → A → Ordering} (o : Ranked cmp) where
  pub root-Reaches :
      (k : A) (t : RbTree A) → IsValid o t → Reaches o k t.root [] (descend cmp k t.root [])
  root-Reaches k t v =
      let b = v.rb.root_black in
      descend-Reaches o k t.root [] v.rb.height v.rb.valid tt (rw b tt) v.sorted

  -- `rbt_query` on a valid tree is the look-up of the ordered set.
  pub query-lookup :
      (k : A) (t : RbTree A) → IsValid o t → query cmp k t ≡ lookup cmp k (to_list t.root)
  unfolding query
  query-lookup k t v = of (root-Reaches k t v)
    where
      of : {s : Spot A} → Reaches o k t.root [] s → spot_data s ≡ lookup cmp k (to_list t.root)
      of (at_node q m e w f j found gone) = sym found
      of (at_leaf q e f absent added) = sym absent

  -- What `rbt_insert` leaves, for a tree with the data `xs`.
  pub record Added (mem : Bool) (d : A) (t : RbTree A) (s : Status) (t' : RbTree A) : Type ℓ where
    pub code : s ≡ expected mem (lookup cmp d (to_list t.root))
    pub valid : IsValid o t'
    pub items : s ≡ ok → to_list t'.root ≡ add cmp d (to_list t.root)
    pub kept : s ≢ ok → t' ≡ t

  -- A way down to a missing child of a tree that is not empty is not empty.
  way_down :
      (d : A) (xs : List A) (w q : List (Frame A))
      → w ≡ q ++ []
      → to_list (zip q (node red leaf d leaf)) ≡ add cmp d xs
      → 1 < length (add cmp d xs)
      → Rooted red w
  way_down d xs (f ∷ w) q e items more = tt
  way_down d xs [] [] e items more = omega (arith, ap length items, more)
  way_down d xs [] (f ∷ q) e items more = absurd (ground (arith, e))

  insert_at_lem :
      (mem : Bool) (d : A) (t : RbTree A) (s : Spot A)
      → IsValid o t
      → 0 < t.num
      → t.num < 2 ^ 64 - 1
      → Reaches o d t.root [] s
      → (c : Status) × (t' : RbTree A) × (insert_at cmp mem d t s ≡ some (c, t'))
        × Added mem d t c t'
  unfolding insert_at expected
  insert_at_lem mem d t _ v pos small (at_node q m e w f j found gone) = (
    exist,
    t,
    refl,
    record { code = rw found refl; valid = v; items = λ z. cc; kept = λ _. refl },
  )
  insert_at_lem false d t _ v pos small (at_leaf q e f absent added) =
      (err, t, refl, record { code = rw absent refl; valid = v; items = λ z. cc; kept = λ _. refl })
  insert_at_lem true d t _ v pos small (at_leaf {w} q e f absent added) =
      let single = node red leaf d leaf in
      let items = added single refl in
      let grown = length-add o d (to_list t.root) absent in
      let (u, r, rb, l) =
        insert_fixup-Fixed (length w + 3) 0 single w (omega arith) (refl, refl, refl, refl) f
          (way_down d (to_list t.root) w q e items (omega (arith, grown, v.counted, pos))) in
      let all : to_list u ≡ add cmp d (to_list t.root) =
        l ∙ ap (λ p. to_list (zip p single)) (e ∙ append-nil q) ∙ items in
      (
        ok,
        record { num = up64 t.num; root = u },
        rw r refl,
        record {
          code = rw absent refl;
          valid = record {
            rb = rb;
            sorted = rw all (add-IsSorted o d (to_list t.root) v.sorted);
            counted = rw all (omega (arith, grown, v.counted, small));
          };
          items = λ _. all;
          kept = λ bad. absurd (bad refl);
        },
      )

  insert_lem :
      (mem : Bool) (d : A) (num : ℕ) (root : Tree A)
      → IsValid o (record { num = num; root = root })
      → num < 2 ^ 64 - 1
      → (s : Status) × (t' : RbTree A) × (insert cmp mem d (record { num = num; root = root })
          ≡ some (s, t'))
        × Added mem d (record { num = num; root = root }) s t'
  unfolding insert expected lookup add
  insert_lem true d num leaf v small = (
    ok,
    record { num = up64 num; root = node black leaf d leaf },
    refl,
    record {
      code = refl;
      valid = record {
        rb = record { root_black = refl; height = 1; valid = (refl, refl) };
        sorted = (tt, tt);
        counted = omega (arith, v.counted);
      };
      items = λ _. refl;
      kept = λ bad. absurd (bad refl);
    },
  )
  insert_lem false d num leaf v small = (
    err,
    record { num = num; root = leaf },
    refl,
    record { code = refl; valid = v; items = λ z. cc; kept = λ _. refl },
  )
  insert_lem mem d num (node c l x r) v small =
      let t : RbTree A = record { num = num; root = node c l x r } in
      let many = length-append (to_list l) (x ∷ to_list r) in
      insert_at_lem mem d t (descend cmp d (node c l x r) []) v (omega (arith, many, v.counted))
        small (root-Reaches d t v)

  -- `rbt_insert` on a valid tree of fewer than `2 ^ 64 - 1` nodes meets no fault, ends, and leaves a
  -- valid tree; it returns `exist` if an equal value is there, else `err` if memory runs out and `ok`
  -- otherwise. On `ok` the data are those of the ordered set with `d` added, and on the other codes
  -- the tree is as before.
  pub insert-Added :
      (mem : Bool) (d : A) (t : RbTree A)
      → IsValid o t
      → t.num < 2 ^ 64 - 1
      → (s : Status) × (t' : RbTree A) × (insert cmp mem d t ≡ some (s, t')) × Added mem d t s t'
  insert-Added mem d t v small = insert_lem mem d t.num t.root v small
