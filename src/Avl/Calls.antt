-- ===== src/Avl/Calls.antt =====
-- Sequences of calls on a tree of avl_tree.c, and how many values `avl_query` then compares with.
use cctrl.Prelude.{
  ℕ, suc, ◌+◌, ◌-◌, ◌/◌, ◌^◌, ◌<◌, ◌≤◌, ◌≡◌, refl, sym, ap, Bool, Option, some, none, arith, List,
  [], ◌∷◌, length, Ordering, ◌>>=◌,
}
use cctrl.Prelude.Bits.{pow_mono}
use cctrl.Prelude.Compare.{Ranked}
use cctrl.OrderedSet.{lookup, remove}
use cctrl.OrderedSet.Laws.{length-add, length-remove, remove-absent}
use cctrl.Avl.{Tree, leaf, node, Status, ok, err, exist, AvlTree, creat, insert}
use cctrl.Avl.Shape.{height, to_list}
use cctrl.Avl.Correct.{IsValid, Added, insert_correct, absent_of_ok}
use cctrl.Avl.Delete.{delete}
use cctrl.Avl.Delete.Laws.{delete_correct}
use cctrl.Avl.Walk.{height_bound}

-- A call of `avl_insert`, with what its allocation gives, or of `avl_delete`.
pub data Call {ℓ} (A : Type ℓ) : Type ℓ where
  inserts : (mem : Bool) → A → Call A
  deletes : A → Call A

module _ {ℓ} {A : Type ℓ} (cmp : A → A → Ordering) where
  -- The tree after a call, and after calls one after the other.
  abbrev pub call : Call A → AvlTree A → Option (AvlTree A)
  call (inserts mem d) t = insert cmp mem d t >>= λ r. some r.1
  call (deletes k) t = delete cmp k t >>= λ r. some r.1

  unfoldable pub run : List (Call A) → AvlTree A → Option (AvlTree A)
  run [] t = some t
  run (c ∷ cs) t = call c t >>= λ t'. run cs t'

  -- The rounds of the loop of `avl_query`, each of which compares the key with the data of a node.
  unfoldable pub rounds : A → Tree A → ℕ
  rounds k leaf = 0
  rounds k (node b l x r) = elim (cmp k x) [
    | Ordering.lt ↦ suc (rounds k l)
    | Ordering.eq ↦ 1
    | Ordering.gt ↦ suc (rounds k r)
  ]

  rounds-height : (k : A) (t : Tree A) → rounds k t ≤ height t
  unfolding rounds
  rounds-height k leaf = omega arith
  rounds-height k (node b l x r) = ground (arith, rounds-height k l, rounds-height k r)

module _ {ℓ} {A : Type ℓ} {cmp : A → A → Ordering} (o : Ranked cmp) where
  -- A call adds one value at most.
  Added-length :
      (mem : Bool) (d : A) (t t' : AvlTree A) (s : Status)
      → Added o mem d t s t'
      → IsValid o t
      → t'.num ≤ t.num + 1
  Added-length mem d t t' s a v = by_code s a
    where
      by_code : (s : Status) → Added o mem d t s t' → t'.num ≤ t.num + 1
      by_code ok a =
          let absent = absent_of_ok mem (lookup cmp d (to_list t.root)) (sym a.code) in
          let items = ap length (a.items refl) in
          omega (
            arith,
            items,
            length-add o d (to_list t.root) absent,
            a.valid.counted_right,
            v.counted_right,
          )
      by_code err a = let e = ap (λ (u : AvlTree A). u.num) (a.kept (λ q. cc)) in omega (arith, e)
      by_code exist a = let e = ap (λ (u : AvlTree A). u.num) (a.kept (λ q. cc)) in omega (arith, e)

  length-remove_le : (k : A) (xs : List A) → length (remove cmp k xs) ≤ length xs
  length-remove_le k xs = by_found (lookup cmp k xs) refl
    where
      by_found : (x : Option A) → lookup cmp k xs ≡ x → length (remove cmp k xs) ≤ length xs
      by_found none e = omega (arith, ap length (remove-absent o k xs e))
      by_found (some x) e = omega (arith, length-remove o k xs x e)

  call-IsValid :
      (c : Call A) (t : AvlTree A)
      → IsValid o t
      → t.num < 2 ^ 64 - 1
      → (t' : AvlTree A) × (call cmp c t ≡ some t') × IsValid o t' × (t'.num ≤ t.num + 1)
  call-IsValid (inserts mem d) t v small =
      let (s, t', e, a) = insert_correct o mem d t v small in
      (t', rw e refl, a.valid, Added-length mem d t t' s a v)
  call-IsValid (deletes k) t v small =
      let (t', e, v', items) = delete_correct o k t v (omega (arith, small)) in
      let less = length-remove_le k (to_list t.root) in
      let same = ap length items in
      (t', rw e refl, v', omega (arith, v.counted_right, v'.counted_right, same, less))

  run-IsValid :
      (cs : List (Call A)) (t : AvlTree A)
      → IsValid o t
      → t.num + length cs < 2 ^ 64
      → (t' : AvlTree A) × (run cmp cs t ≡ some t') × IsValid o t'
  unfolding run
  run-IsValid [] t v small = (t, refl, v)
  run-IsValid (c ∷ cs) t v small =
      let (t', e, v', few) = call-IsValid c t v (omega (arith, small)) in
      let (u, e', w) = run-IsValid cs t' v' (omega (arith, small, few)) in (u, rw (e, run) e', w)

  -- Fewer than `2 ^ 64` calls of avl_insert and avl_delete, one after the other on the tree of
  -- avl_creat, follow no NULL pointer and leave a valid tree, in which avl_query of any key compares it
  -- with r values at most, where 2 ^ (r / 2) is at most one more than the number of values.
  pub run-rounds :
      (cs : List (Call A))
      → length cs < 2 ^ 64
      → (t : AvlTree A) × (run cmp cs creat ≡ some t)
        × IsValid o t
        × ((k : A) → 2 ^ (rounds cmp k t.root / 2) ≤ t.num + 1)
  unfolding creat
  run-rounds cs few =
      let (t, e, v) =
        run-IsValid cs creat (record { balanced = tt; sorted = tt; counted_right = refl })
          (omega (arith, few)) in
      (
        t,
        e,
        v,
        λ k. omega (
          arith,
          pow_mono (rounds cmp k t.root / 2) (height t.root / 2)
              (omega (arith, rounds-height cmp k t.root)),
          height_bound t.root v.balanced,
          v.counted_right,
        ),
      )
