-- ===== src/HashTab/Laws.antt =====
-- The operations of hash_tab.c on a table of valid trees, as updates of a map from keys to data.
use cctrl.Prelude.{
  ℕ, ◌-◌, ◌%◌, ◌^◌, ◌<◌, ◌≡◌, ◌≢◌, refl, sym, ap, ◌∙◌, Bool, Option, none, some, Ordering, List,
  ◌++◌, length, ℕ_discrete, Option-cases, inl, inr, arith,
}
use cctrl.Prelude.Compare.{Ranked}
use cctrl.OrderedSet.{lookup, remove}
use cctrl.OrderedSet.Laws.{
  lookup-add_same, lookup-add_other, lookup-remove_same, lookup-remove_other, length-add,
  length-remove, remove-absent,
}
use cctrl.RbTree.{RbTree, Status, ok, err, exist}
use cctrl.RbTree.Shape.{to_list}
use cctrl.RbTree.Correct as Rb
use cctrl.RbTree.Correct.{expected, expected-ok, query-lookup, insert-Added}
use cctrl.RbTree.Delete.Laws.{delete-remove}
use cctrl.HashTab.{
  HashTab, LockKind, LockCall, lock_slot, unlock_slot, put_tree, slot_of, counted, uncounted,
  insert, query, unlock_key, delete,
}
use cctrl.HashTab.Slots.{
  nodes, nodes-put, put_tree-same, Respects, IsValid, held, slot-lt, num-le-nodes, put_tree-IsValid,
  held-put_here, held-put_elsewhere,
}

module _ {ℓ} {A : Type ℓ} {cmp : A → A → Ordering} (o : Ranked cmp) (hash : A → ℕ) where
  counted-nodes :
      (mem : Bool) (d : A) (h : HashTab A) (i : ℕ) (s : Status) (t' : RbTree A)
      → IsValid o hash h
      → i < h.len
      → h.total < 2 ^ 64 - 1
      → Rb.Added o mem d (h.tree i) s t'
      → counted s h.total ≡ nodes h.len (put_tree h.tree i t')
  counted-nodes mem d h i ok t' v l small a =
      let absent = expected-ok mem _ (sym a.code) in
      let grown = length-add o d (to_list (h.tree i).root) absent in
      let before = (v.trees i).counted in
      let after = a.valid.counted in
      let more = ap length (a.items refl) in
      omega (arith, nodes-put h.len h.tree i t' l, grown, before, after, more, v.total_is, small)
  counted-nodes mem d h i err t' v l small a =
      let same_num = ap (λ (t : RbTree A). t.num) (a.kept (λ q. cc)) in
      omega (arith, nodes-put h.len h.tree i t' l, same_num, v.total_is)
  counted-nodes mem d h i exist t' v l small a =
      let same_num = ap (λ (t : RbTree A). t.num) (a.kept (λ q. cc)) in
      omega (arith, nodes-put h.len h.tree i t' l, same_num, v.total_is)

  -- The table after `d` has been put in, or not.
  pub record Inserted (mem : Bool) (d : A) (h : HashTab A) (s : Status) (h' : HashTab A)
      : Type ℓ where
    pub valid : IsValid o hash h'
    pub code : s ≡ expected mem (held o hash h d)
    pub same_key : s ≡ ok → (k : A) → o.rank k ≡ o.rank d → held o hash h' k ≡ some d
    pub other_key : s ≡ ok → (k : A) → o.rank k ≢ o.rank d → held o hash h' k ≡ held o hash h k
    pub kept : s ≢ ok → (j : ℕ) → h'.tree j ≡ h.tree j

  uncounted-nodes :
      (d : A) (h : HashTab A) (i : ℕ) (x : Option A) (t' : RbTree A)
      → IsValid o hash h
      → i < h.len
      → h.total < 2 ^ 64
      → Rb.IsValid o t'
      → to_list t'.root ≡ remove cmp d (to_list (h.tree i).root)
      → lookup cmp d (to_list (h.tree i).root) ≡ x
      → uncounted x h.total ≡ nodes h.len (put_tree h.tree i t')
  uncounted-nodes d h i (some x) t' v l small a items e =
      let fewer = length-remove o d (to_list (h.tree i).root) x e in
      let before = (v.trees i).counted in
      let after = a.counted in
      let less = ap length items in
      let few = num-le-nodes o hash h.len h.tree i l in
      omega
        (arith, nodes-put h.len h.tree i t' l, fewer, before, after, less, few, v.total_is, small)
  uncounted-nodes d h i none t' v l small a items e =
      let same_items = remove-absent o d (to_list (h.tree i).root) e in
      let before = (v.trees i).counted in
      let after = a.counted in
      let equal = ap length (items ∙ same_items) in
      omega (arith, nodes-put h.len h.tree i t' l, before, after, equal, v.total_is)

  -- The table after the key `d` has been taken out.
  pub record Taken (d : A) (h : HashTab A) (h' : HashTab A) : Type ℓ where
    pub valid : IsValid o hash h'
    pub same_key : (k : A) → o.rank k ≡ o.rank d → held o hash h' k ≡ none
    pub other_key : (k : A) → o.rank k ≢ o.rank d → held o hash h' k ≡ held o hash h k

  module _ (respects : Respects o hash) where
    -- `hash_tab_insert` on a valid table of fewer than `2 ^ 64 - 1` data ends and leaves a valid
    -- table. The code is as for a tree; on `ok` the keys equal to `d` find it and the others what they
    -- found before, and on the other codes the trees are as before.
    pub insert-Inserted :
        (mem : Bool) (d : A) (lock : LockKind) (h : HashTab A)
        → IsValid o hash h
        → h.total < 2 ^ 64 - 1
        → (s : Status) × (calls : List LockCall) × (h' : HashTab A) × (insert cmp hash mem d lock h
            ≡ some (s, calls, h'))
          × Inserted mem d h s h'
    unfolding insert
    insert-Inserted mem d lock h v small =
        let i = slot_of cmp hash h d in
        let l = slot-lt o hash h d v in
        let few = num-le-nodes o hash h.len h.tree i l in
        let (s, t', e, a) =
          insert-Added o mem d (h.tree i) (v.trees i) (omega (arith, few, small, v.total_is)) in
        (
          s,
          lock_slot i lock ++ unlock_slot i lock,
          record h { total = counted s h.total; tree = put_tree h.tree i t' },
          rw e refl,
          record {
            valid = record {
              slots = v.slots;
              trees = put_tree-IsValid o hash h.tree i t' v.trees a.valid;
              total_is = counted-nodes mem d h i s t' v l small a;
            };
            code = a.code;
            same_key = λ ok_is k q.
                let absent = expected-ok mem _ (sym a.code ∙ ok_is) in
                held-put_here o hash h (counted s h.total) i t' k
                  (ap (λ (u : ℕ). u % h.len) (respects k d q))
                ∙ ap (lookup cmp k) (a.items ok_is)
                ∙ lookup-add_same o k d (to_list (h.tree i).root) q absent;
            other_key = λ ok_is k q. elim (ℕ_discrete (slot_of cmp hash h k) i) [
              | yes e2 ↦
                  held-put_here o hash h (counted s h.total) i t' k e2
                  ∙ ap (lookup cmp k) (a.items ok_is)
                  ∙ lookup-add_other o k d (to_list (h.tree i).root) q
                  ∙ ap (λ (u : ℕ). lookup cmp k (to_list (h.tree u).root)) (sym e2)
              | no ne ↦ held-put_elsewhere o hash h (counted s h.total) i t' k ne
            ];
            kept = λ bad j. put_tree-same h.tree i t' (a.kept bad) j;
          },
        )

    -- `hash_tab_delete` on a valid table of fewer than `2 ^ 64` data, with a hash that is equal on equal
    -- keys, ends and leaves a valid table. It
    -- gives what the key finds; afterwards the keys equal to it find nothing, and the others what they
    -- found before.
    pub delete-Taken :
        (d : A) (lock : LockKind) (h : HashTab A)
        → IsValid o hash h
        → h.total < 2 ^ 64
        → (calls : List LockCall) × (h' : HashTab A) × (delete cmp hash d lock h
            ≡ some (held o hash h d, calls, h'))
          × Taken d h h'
    unfolding delete
    delete-Taken d lock h v small =
        let i = slot_of cmp hash h d in
        let l = slot-lt o hash h d v in
        let few = num-le-nodes o hash h.len h.tree i l in
        let (t', e, a, items) =
          delete-remove o d (h.tree i) (v.trees i) (omega (arith, few, small, v.total_is)) in
        (
          lock_slot i lock ++ unlock_slot i lock,
          record h { total = uncounted (held o hash h d) h.total; tree = put_tree h.tree i t' },
          rw e refl,
          record {
            valid = record {
              slots = v.slots;
              trees = put_tree-IsValid o hash h.tree i t' v.trees a;
              total_is = uncounted-nodes d h i (held o hash h d) t' v l small a items refl;
            };
            same_key = λ k q.
                held-put_here o hash h (uncounted (held o hash h d) h.total) i t' k
                  (ap (λ (u : ℕ). u % h.len) (respects k d q))
                ∙ ap (lookup cmp k) items
                ∙ lookup-remove_same o k d (to_list (h.tree i).root) q (v.trees i).sorted;
            other_key = λ k q. elim (ℕ_discrete (slot_of cmp hash h k) i) [
              | yes e2 ↦
                  held-put_here o hash h (uncounted (held o hash h d) h.total) i t' k e2
                  ∙ ap (lookup cmp k) items
                  ∙ lookup-remove_other o k d (to_list (h.tree i).root) q
                  ∙ ap (λ (u : ℕ). lookup cmp k (to_list (h.tree u).root)) (sym e2)
              | no ne ↦ held-put_elsewhere o hash h (uncounted (held o hash h d) h.total) i t' k ne
            ];
          },
        )

  -- `hash_tab_query` gives what the key finds, and keeps the slot locked exactly when it finds
  -- something: then the calls of the query and those of `hash_tab_unlock` lock and unlock the slot.
  pub query-held :
      (k : A) (lock : LockKind) (h : HashTab A)
      → IsValid o hash h
      → ((query cmp hash k lock h).0 ≡ held o hash h k)
        × ((held o hash h k ≢ none
              → (query cmp hash k lock h).1 ++ unlock_key cmp hash k lock h
                ≡ lock_slot (slot_of cmp hash h k) lock ++ unlock_slot (slot_of cmp hash h k) lock)
            × (held o hash h k ≡ none
                → (query cmp hash k lock h).1
                  ≡ lock_slot (slot_of cmp hash h k) lock
                    ++ unlock_slot (slot_of cmp hash h k) lock))
  unfolding query unlock_key
  query-held k lock h v =
      let e = query-lookup o k (h.tree (slot_of cmp hash h k)) (v.trees _) in
      elim (Option-cases (held o hash h k)) [
        | inl n ↦
            (rw (e, query) (rw n refl), ((λ ne. absurd (ne n)), λ _. rw (e, query) (rw n refl)))
        | inr (x, y) ↦ (
          rw (e, query) (rw y refl),
          ((λ ne. rw (e, query) (rw y refl)), λ n. absurd (ground (arith, n, y))),
        )
      ]
