-- ===== src/Avl/Correct.antt =====
-- The operations of avl_tree.h on a whole tree, against the ordered set.
use cctrl.Prelude.{
  ℕ, ◌-◌, ◌^◌, ◌<◌, ◌≡◌, ◌≢◌, refl, sym, ap, ◌∙◌, Bool, true, false, Option, some, none, arith,
  Ordering, length,
}
use cctrl.Prelude.Compare.{Ranked, less, same, more, compared}
use cctrl.OrderedSet.{lookup, add, IsSorted}
use cctrl.OrderedSet.Laws.{
  IsSorted-Split, lookup_left, lookup_right, lookup_here, add-IsSorted, length-add,
}
use cctrl.Avl.{Tree, leaf, node, Status, ok, Inserted, AvlTree, insert, insert_root, counted, query}
use cctrl.Avl.Shape.{IsAvl, to_list}
use cctrl.Avl.Insert.{expected, Insertion, insert_below-Insertion}

-- The tree of `avl_tree_t`: balanced, sorted, and with its number of nodes counted.
pub record IsValid {ℓ} {A : Type ℓ} {cmp : A → A → Ordering} (o : Ranked cmp) (t : AvlTree A)
    : Type ℓ where
  pub balanced : IsAvl t.root
  pub sorted : IsSorted o (to_list t.root)
  pub counted_right : t.num ≡ length (to_list t.root)

pub absent_of_ok {ℓ} : {A : Type ℓ} (mem : Bool) (x : Option A) → expected mem x ≡ ok → x ≡ none
absent_of_ok mem (some x) e = cc
absent_of_ok mem none e = refl

module _ {ℓ} {A : Type ℓ} {cmp : A → A → Ordering} (o : Ranked cmp) where
  -- What `avl_insert` leaves, for a tree with the data `xs`.
  pub record Added (mem : Bool) (d : A) (t : AvlTree A) (s : Status) (t' : AvlTree A) : Type ℓ where
    pub code : s ≡ expected mem (lookup cmp d (to_list t.root))
    pub valid : IsValid o t'
    pub items : s ≡ ok → to_list t'.root ≡ add cmp d (to_list t.root)
    pub kept : s ≢ ok → t' ≡ t

  below_Added :
      (mem : Bool) (d : A) (num : ℕ) (t : Tree A) (i : Inserted A) (s : Status)
      → IsValid o (record { num = num; root = t })
      → num < 2 ^ 64 - 1
      → Insertion cmp mem d t i
      → i.ret ≡ s
      → Added mem d
          (record { num = num; root = t })
          s
          (record { num = counted s num; root = i.tree })
  unfolding counted
  below_Added mem d num t i ok v small ins e =
      let items = ins.items e in
      let absent : lookup cmp d (to_list t) ≡ none = absent_of_ok mem _ (sym ins.code ∙ e) in
      record {
        code = sym e ∙ ins.code;
        valid = record {
          balanced = ins.grew.balanced;
          sorted = rw items (add-IsSorted o d (to_list t) v.sorted);
          counted_right = rw items (omega (arith, length-add o d (to_list t) absent));
        };
        items = λ _. items;
        kept = λ bad. absurd (bad refl);
      }
  below_Added mem d num t i s v small ins e =
      let (_, unchanged) = ins.grew.kept (λ q. cc) in
      record {
        code = sym e ∙ ins.code;
        valid = rw unchanged v;
        items = λ q. cc;
        kept = λ _. ap (λ u. record { num = num; root = u }) unchanged;
      }

  insert_root_lem :
      (mem : Bool) (d : A) (num : ℕ) (root : Tree A)
      → IsValid o (record { num = num; root = root })
      → num < 2 ^ 64 - 1
      → (s : Status) × (t' : AvlTree A) × (insert_root cmp mem d num root ≡ some (s, t'))
        × Added mem d (record { num = num; root = root }) s t'
  unfolding insert_root counted lookup add
  insert_root_lem true d num leaf v small = (
    _,
    _,
    refl,
    record {
      code = refl;
      valid = record { balanced = ground arith; sorted = (tt, tt); counted_right = refl };
      items = λ _. refl;
      kept = λ bad. absurd (bad refl);
    },
  )
  insert_root_lem false d num leaf v small =
      (_, _, refl, record { code = refl; valid = v; items = λ q. cc; kept = λ _. refl })
  insert_root_lem mem d num (node b l x r) v small =
      let (i, e, ins) = insert_below-Insertion o mem d (node b l x r) v.balanced v.sorted in
      (
        i.ret,
        record { num = counted i.ret num; root = i.tree },
        rw e refl,
        below_Added mem d num (node b l x r) i i.ret v small ins refl,
      )

  -- `avl_insert` on a valid tree of fewer than `2 ^ 64 - 1` nodes follows no NULL pointer and leaves
  -- a valid tree. It returns `exist` if an equal value is there, else `err` if memory runs out and
  -- `ok` otherwise; on `ok` the data are those of the ordered set with `d` added, and on the other
  -- codes the tree is as before.
  pub insert_correct :
      (mem : Bool) (d : A) (t : AvlTree A)
      → IsValid o t
      → t.num < 2 ^ 64 - 1
      → (s : Status) × (t' : AvlTree A) × (insert cmp mem d t ≡ some (s, t')) × Added mem d t s t'
  unfolding insert
  insert_correct mem d t v small = insert_root_lem mem d t.num t.root v small

  -- `avl_query` on a sorted tree is the look-up of the ordered set.
  pub query_correct :
      (k : A) (t : Tree A) → IsSorted o (to_list t) → query cmp k t ≡ lookup cmp k (to_list t)
  unfolding query
  query_correct k leaf s = unfold lookup in refl
  query_correct k (node b l x r) s =
      let p = IsSorted-Split o (to_list l) x (to_list r) s in
      elim (compared o k x) [
        | less c h ↦ rw (c, query, lookup_left o k x _ _ h p.above) (query_correct k l p.left)
        | same c h ↦ rw (c, query, lookup_here o k x _ _ h p.below) refl
        | more c h ↦ rw (c, query, lookup_right o k x _ _ h p.below) (query_correct k r p.right)
      ]
