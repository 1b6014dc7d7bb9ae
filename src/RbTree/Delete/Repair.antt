-- ===== src/RbTree/Delete/Repair.antt =====
-- `rbt_delete_fixup` makes a red-black tree of one with a way that is one black node short.
use mathlib.Core.Path.{subst}
use cctrl.Prelude.{ℕ, zero, suc, ◌+◌, ◌<◌, ◌≡◌, refl, List, [], ◌∷◌, length, append_assoc, arith}
use cctrl.RbTree.{Color, red, black, Tree, leaf, node, Frame, on_left, on_right, color, zip}
use cctrl.RbTree.Shape.{Valid, Fits, Joins, zip-IsRb, zip-cong}
use cctrl.RbTree.Insert.{Fixed, same_data}
use cctrl.RbTree.Delete.{even_out, with_brother, delete_fixup}
use cctrl.RbTree.Delete.Brother.{through, even_left-Fixed, even_right-Fixed}

module _ {ℓ} {A : Type ℓ} where
  -- The subtree at the position: with its root made black, it has `n` or, at a red root, one more.
  abbrev pub Short : ℕ → Tree A → Type 0
  Short n leaf = n ≡ 0
  Short n (node red l x r) = Valid n l × Valid n r
  Short n (node black l x r) = Valid n (node black l x r)

  Short-node :
      (c : Color) (n : ℕ) (l : Tree A) (x : A) (r : Tree A)
      → Valid n l
      → Valid n r
      → Short (through c n) (node c l x r)
  Short-node red n l x r v w = (v, w)
  Short-node black n l x r v w = (v, w)

  -- What a parent on the way up says of the other child and of what is above.
  pub record Parent (n : ℕ) (c : Color) (b : Tree A) (p : List (Frame A)) : Type 0 where
    pub brother : Valid n b
    pub above : Fits (through c n) p
    pub joins : Joins c p
    pub red_brother : color b ≡ red → c ≡ black

  left-Parent :
      (n : ℕ) (c : Color) (x : A) (b : Tree A) (p : List (Frame A))
      → Fits n (on_left c x b ∷ p)
      → Parent n c b p
  left-Parent n black x b p f = record {
    brother = f.0;
    above = f.1;
    joins = tt;
    red_brother = λ _. refl;
  }
  left-Parent n red x b p f = record {
    brother = f.1;
    above = f.3;
    joins = f.2;
    red_brother = λ e. absurd (ground (arith, f.0, e));
  }

  right-Parent :
      (n : ℕ) (c : Color) (b : Tree A) (x : A) (p : List (Frame A))
      → Fits n (on_right c b x ∷ p)
      → Parent n c b p
  right-Parent n black b x p f = record {
    brother = f.0;
    above = f.1;
    joins = tt;
    red_brother = λ _. refl;
  }
  right-Parent n red b x p f = record {
    brother = f.1;
    above = f.3;
    joins = f.2;
    red_brother = λ e. absurd (ground (arith, f.0, e));
  }

  Fits-through :
      (c : Color) (n : ℕ) (p : List (Frame A))
      → Fits (through c (suc n)) p
      → Fits (suc (through c n)) p
  Fits-through red n p f = f
  Fits-through black n p f = f

  -- A red position ends the loop.
  at_red :
      (fuel n : ℕ) (l : Tree A) (x : A) (r : Tree A) (p : List (Frame A))
      → Valid n l
      → Valid n r
      → Fits (suc n) p
      → Fixed (zip p (node red l x r)) (delete_fixup (suc fuel) (node red l x r) p)
  unfolding delete_fixup
  at_red fuel n l x r [] v w f =
      (node black l x r, refl, record { root_black = refl; height = suc n; valid = (v, w) }, refl)
  at_red fuel n l x r (k ∷ p) v w f = (
    zip (k ∷ p) (node black l x r),
    refl,
    zip-IsRb (suc n) (node black l x r) (k ∷ p) (v, w) f tt,
    zip-cong (k ∷ p) (node black l x r) (node red l x r) refl,
  )

  -- A round at a black position that is the left child.
  left_round :
      (fuel n : ℕ) (t : Tree A) (c : Color) (x : A) (b : Tree A) (p : List (Frame A))
      → Valid n t
      → color t ≡ black
      → Fits (suc n) (on_left c x b ∷ p)
      → ((m : ℕ) (s : Tree A)
          → Short m s
          → Fits (suc m) p
          → Fixed (zip p s) (delete_fixup (suc fuel) s p))
      → Fixed (zip p (node c t x b)) (with_brother (delete_fixup (suc fuel)) t (on_left c x b) p)
  unfolding with_brother even_out
  left_round fuel n t c x leaf p v tb f ih =
      let q = left-Parent (suc n) c x leaf p f in absurd (omega (arith, q.brother))
  left_round fuel n t c x (node black l y r) p v tb f ih =
      let q = left-Parent (suc n) c x (node black l y r) p f in
      even_left-Fixed (delete_fixup (suc fuel)) (color l) (color r) c n t x black l y r p refl refl
        v q.brother.0 q.brother.1 q.above q.joins
        (λ a b.
          ih (through c n) (node c t x (node red l y r))
            (Short-node c n t x (node red l y r) v (a, b, q.brother.0, q.brother.1))
            (Fits-through c n p q.above))
  left_round fuel n t c x (node red leaf y r) p v tb f ih =
      let q = left-Parent (suc n) c x (node red leaf y r) p f in absurd (omega (arith, q.brother.2))
  left_round fuel n t c x (node red (node red i w m) y r) p v tb f ih =
      let q = left-Parent (suc n) c x (node red (node red i w m) y r) p f in
      absurd (ground (arith, q.brother.0))
  left_round fuel n t c x (node red (node black i w m) y r) p v tb f ih =
      let q = left-Parent (suc n) c x (node red (node black i w m) y r) p f in
      let up : Fits (suc n) (on_left black y r ∷ p) =
        (q.brother.3, subst (λ k. Fits (through k (suc n)) p) (q.red_brother refl) q.above) in
      same_data p (node black (node red t x (node black i w m)) y r) _
        (even_left-Fixed (delete_fixup (suc fuel)) (color i) (color m) red n t x black i w m
          (on_left black y r ∷ p) refl refl v q.brother.2.0 q.brother.2.1 up refl
          (λ a b.
            at_red fuel n t x (node red i w m) (on_left black y r ∷ p) v
              (a, b, q.brother.2.0, q.brother.2.1) up))
        (simp append_assoc)

  -- A round at a black position that is the right child.
  right_round :
      (fuel n : ℕ) (t : Tree A) (c : Color) (x : A) (b : Tree A) (p : List (Frame A))
      → Valid n t
      → color t ≡ black
      → Fits (suc n) (on_right c b x ∷ p)
      → ((m : ℕ) (s : Tree A)
          → Short m s
          → Fits (suc m) p
          → Fixed (zip p s) (delete_fixup (suc fuel) s p))
      → Fixed (zip p (node c b x t)) (with_brother (delete_fixup (suc fuel)) t (on_right c b x) p)
  unfolding with_brother even_out
  right_round fuel n t c x leaf p v tb f ih =
      let q = right-Parent (suc n) c leaf x p f in absurd (omega (arith, q.brother))
  right_round fuel n t c x (node black l y r) p v tb f ih =
      let q = right-Parent (suc n) c (node black l y r) x p f in
      even_right-Fixed (delete_fixup (suc fuel)) (color l) (color r) c n t x black l y r p refl refl
        v q.brother.0 q.brother.1 q.above q.joins
        (λ a b.
          ih (through c n) (node c (node red l y r) x t)
            (Short-node c n (node red l y r) x t (a, b, q.brother.0, q.brother.1) v)
            (Fits-through c n p q.above))
  right_round fuel n t c x (node red l y leaf) p v tb f ih =
      let q = right-Parent (suc n) c (node red l y leaf) x p f in
      absurd (omega (arith, q.brother.3))
  right_round fuel n t c x (node red l y (node red i w m)) p v tb f ih =
      let q = right-Parent (suc n) c (node red l y (node red i w m)) x p f in
      absurd (ground (arith, q.brother.1))
  right_round fuel n t c x (node red l y (node black i w m)) p v tb f ih =
      let q = right-Parent (suc n) c (node red l y (node black i w m)) x p f in
      let up : Fits (suc n) (on_right black l y ∷ p) =
        (q.brother.2, subst (λ k. Fits (through k (suc n)) p) (q.red_brother refl) q.above) in
      same_data p (node black l y (node red (node black i w m) x t)) _
        (even_right-Fixed (delete_fixup (suc fuel)) (color i) (color m) red n t x black i w m
          (on_right black l y ∷ p) refl refl v q.brother.3.0 q.brother.3.1 up refl
          (λ a b.
            at_red fuel n (node red i w m) x t (on_right black l y ∷ p)
              (a, b, q.brother.3.0, q.brother.3.1) v up))
        (simp append_assoc)

  -- With two rounds more than there are frames `rbt_delete_fixup` ends in a red-black tree with the
  -- data it was given.
  pub delete_fixup-Fixed :
      (fuel n : ℕ) (t : Tree A) (p : List (Frame A))
      → length p + 1 < fuel
      → Short n t
      → Fits (suc n) p
      → Fixed (zip p t) (delete_fixup fuel t p)
  unfolding delete_fixup
  delete_fixup-Fixed zero n t p h v f = absurd (omega arith)
  delete_fixup-Fixed (suc zero) n t p h v f = absurd (omega arith)
  delete_fixup-Fixed (suc (suc fuel)) n (node red l x r) p h v f =
      at_red (suc fuel) n l x r p v.0 v.1 f
  delete_fixup-Fixed (suc (suc fuel)) n leaf [] h v f =
      (leaf, refl, record { root_black = refl; height = n; valid = v }, refl)
  delete_fixup-Fixed (suc (suc fuel)) n (node black l x r) [] h v f =
      (node black l x r, refl, record { root_black = refl; height = n; valid = v }, refl)
  delete_fixup-Fixed (suc (suc fuel)) n leaf (on_left c x b ∷ p) h v f =
      left_round fuel n leaf c x b p v refl f
        (λ m s w k. delete_fixup-Fixed (suc fuel) m s p (omega (arith, h)) w k)
  delete_fixup-Fixed (suc (suc fuel)) n leaf (on_right c b x ∷ p) h v f =
      right_round fuel n leaf c x b p v refl f
        (λ m s w k. delete_fixup-Fixed (suc fuel) m s p (omega (arith, h)) w k)
  delete_fixup-Fixed (suc (suc fuel)) n (node black l y r) (on_left c x b ∷ p) h v f =
      left_round fuel n (node black l y r) c x b p v refl f
        (λ m s w k. delete_fixup-Fixed (suc fuel) m s p (omega (arith, h)) w k)
  delete_fixup-Fixed (suc (suc fuel)) n (node black l y r) (on_right c b x ∷ p) h v f =
      right_round fuel n (node black l y r) c x b p v refl f
        (λ m s w k. delete_fixup-Fixed (suc fuel) m s p (omega (arith, h)) w k)
