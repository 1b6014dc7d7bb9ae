-- ===== src/HashTab/Slots.antt =====
-- The slots of a hash table of trees: how many nodes they have, and what a slot put in changes.
use native.Mathlib.Nat.{mod-lt}
use cctrl.Prelude.{
  ℕ, zero, suc, ◌+◌, ◌<◌, ◌≤◌, ◌≡◌, ◌≢◌, refl, ap, ◌==◌, Option, Ordering, ℕ_discrete, Bool-cases,
  inl, inr, arith,
}
use cctrl.Prelude.Compare.{Ranked}
use cctrl.OrderedSet.{lookup}
use cctrl.RbTree.{RbTree}
use cctrl.RbTree.Shape.{to_list}
use cctrl.RbTree.Correct as Rb
use cctrl.RbTree.Correct.{expected, expected-ok, query-lookup, insert-Added}
use cctrl.HashTab.{HashTab, put_tree, slot_of}

module _ {ℓ} {A : Type ℓ} where
  -- The nodes of the first `n` trees.
  abbrev pub nodes : ℕ → (ℕ → RbTree A) → ℕ
  nodes zero f = 0
  nodes (suc n) f = (f n).num + nodes n f

  nodes-put_beyond :
      (n : ℕ) (f : ℕ → RbTree A) (i : ℕ) (t : RbTree A)
      → n ≤ i
      → nodes n (put_tree f i t) ≡ nodes n f
  nodes-put_beyond zero f i t h = refl
  nodes-put_beyond (suc n) f i t h = ground (arith, nodes-put_beyond n f i t (omega (arith, h)), h)

  pub nodes-put :
      (n : ℕ) (f : ℕ → RbTree A) (i : ℕ) (t : RbTree A)
      → i < n
      → nodes n (put_tree f i t) + (f i).num ≡ nodes n f + t.num
  nodes-put zero f i t h = absurd (omega arith)
  nodes-put (suc n) f i t h = elim (ℕ_discrete i n) [
    | yes p ↦ ground (arith, p, nodes-put_beyond n f i t (omega (arith, p)))
    | no np ↦ ground (arith, np, nodes-put n f i t (omega (arith, np, h)))
  ]

  pub put_tree-same :
      (f : ℕ → RbTree A) (i : ℕ) (t : RbTree A) → t ≡ f i → (j : ℕ) → put_tree f i t j ≡ f j
  put_tree-same f i t e j = elim (ℕ_discrete i j) [
    | yes p ↦ ground (arith, p, e)
    | no np ↦ ground (arith, np)
  ]

module _ {ℓ} {A : Type ℓ} {cmp : A → A → Ordering} (o : Ranked cmp) (hash : A → ℕ) where
  -- Equal keys have the same hash.
  abbrev pub Respects : Type ℓ
  Respects = (a b : A) → o.rank a ≡ o.rank b → hash a ≡ hash b

  pub record IsValid (h : HashTab A) : Type ℓ where
    pub slots : 0 < h.len
    pub trees : (i : ℕ) → Rb.IsValid o (h.tree i)
    pub total_is : h.total ≡ nodes h.len h.tree

  -- What the table holds at a key.
  abbrev pub held : HashTab A → A → Option A
  held h k = lookup cmp k (to_list (h.tree (slot_of cmp hash h k)).root)

  pub slot-lt : (h : HashTab A) (k : A) → IsValid h → slot_of cmp hash h k < h.len
  slot-lt h k v = mod-lt (hash k) v.slots

  pub num-le-nodes : (n : ℕ) (f : ℕ → RbTree A) (i : ℕ) → i < n → (f i).num ≤ nodes n f
  num-le-nodes zero f i l = absurd (omega arith)
  num-le-nodes (suc n) f i l = elim (ℕ_discrete i n) [
    | yes p ↦ rw p (omega arith)
    | no np ↦ let rest = num-le-nodes n f i (omega (arith, np, l)) in omega (arith, rest)
  ]

  pub put_tree-IsValid :
      (f : ℕ → RbTree A) (i : ℕ) (t : RbTree A)
      → ((j : ℕ) → Rb.IsValid o (f j))
      → Rb.IsValid o t
      → (j : ℕ) → Rb.IsValid o (put_tree f i t j)
  put_tree-IsValid f i t v w j = elim (Bool-cases (i == j)) [ inl y ↦ rw y w | inr n ↦ rw n (v j) ]

  module _ (h : HashTab A) (n i : ℕ) (t : RbTree A) (k : A) where
    pub held-put_here :
        slot_of cmp hash h k ≡ i
        → held (record h { total = n; tree = put_tree h.tree i t }) k
          ≡ lookup cmp k (to_list t.root)
    held-put_here e =
        let put_here : put_tree h.tree i t (slot_of cmp hash h k) ≡ t = rw e (ground arith) in
        ap (λ u. lookup cmp k (to_list u.root)) put_here

    pub held-put_elsewhere :
        slot_of cmp hash h k ≢ i
        → held (record h { total = n; tree = put_tree h.tree i t }) k ≡ held h k
    held-put_elsewhere ne =
        let put_there : put_tree h.tree i t (slot_of cmp hash h k) ≡ h.tree (slot_of cmp hash h k) =
          ground (arith, ne) in
        ap (λ u. lookup cmp k (to_list u.root)) put_there
