-- ===== src/RbTree/Insert.antt =====
-- `rbt_insert_fixup` makes a red-black tree of one in which a red node may stand below a red one.
use cctrl.Prelude.{
  ℕ, zero, suc, ◌+◌, ◌<◌, ◌≡◌, refl, ◌∙◌, Option, some, List, [], ◌∷◌, length, append_assoc, arith,
}
use cctrl.RbTree.{
  Color, red, black, Tree, leaf, node, Frame, on_left, on_right, color, zip, left_rotate,
  right_rotate, go_up, round, with_grandparent, with_parent, insert_fixup,
}
use cctrl.RbTree.Shape.{Valid, Fits, IsRb, zip-IsRb, to_list, zip-cong}

module _ {ℓ} {A : Type ℓ} where
  -- The result is a red-black tree with the data of `t`.
  abbrev pub Fixed : Tree A → Option (Tree A) → Type ℓ
  Fixed t r = (u : Tree A) × (r ≡ some u) × IsRb u × (to_list u ≡ to_list t)

  pub same_data :
      (q : List (Frame A)) (a b : Tree A) {r : Option (Tree A)}
      → Fixed (zip q a) r
      → to_list a ≡ to_list b
      → Fixed (zip q b) r
  same_data q a b (u, e, v, d) h = (u, e, v, d ∙ zip-cong q a b h)

  -- The position above a black tree is in order.
  settle :
      (fuel n : ℕ) (t : Tree A) (p : List (Frame A))
      → color t ≡ black
      → Fits n p
      → go_up (insert_fixup (suc fuel)) t p ≡ some (zip p t)
  unfolding insert_fixup with_parent
  settle fuel n t [] b f = refl
  settle fuel n t (on_left black x u ∷ p) b f = refl
  settle fuel n t (on_right black u x ∷ p) b f = refl
  settle fuel n t (on_left red x u ∷ []) b f = absurd f.2
  settle fuel n t (on_right red u x ∷ []) b f = absurd f.2
  settle fuel n t (on_left red x u ∷ on_left c y s ∷ p) b f = rw f.2 refl
  settle fuel n t (on_left red x u ∷ on_right c s y ∷ p) b f = rw f.2 refl
  settle fuel n t (on_right red u x ∷ on_left c y s ∷ p) b f = rw f.2 refl
  settle fuel n t (on_right red u x ∷ on_right c s y ∷ p) b f = rw f.2 refl

  -- The node is the outer child of a left child, below a black uncle: one rotation settles it.
  outer_left :
      (fuel n : ℕ) (l : Tree A) (x : A) (r : Tree A) (y : A) (s : Tree A) (z : A) (u : Tree A)
      (q : List (Frame A))
      → Valid n (node red l x r)
      → Fits n (on_left red y s ∷ on_left black z u ∷ q)
      → color u ≡ black
      → Fixed
          (zip (on_left red y s ∷ on_left black z u ∷ q) (node red l x r))
          (insert_fixup (suc (suc fuel)) (node red l x r) (on_left red y s ∷ on_left black z u ∷ q))
  unfolding insert_fixup with_parent with_grandparent round left_rotate right_rotate
  outer_left fuel n l x r y s z u q v f ub =
      let t = node black (node red l x r) y (node red s z u) in
      (
        zip q t,
        rw ub (settle fuel (suc n) t q refl f.3.1),
        zip-IsRb (suc n) t q (v, (f.0, ub, f.1, f.3.0)) f.3.1 tt,
        zip-cong q _ _ (simp append_assoc),
      )

  -- The inner child: a rotation at the parent makes it the case above.
  inner_left :
      (fuel n : ℕ) (l : Tree A) (x : A) (r : Tree A) (y : A) (s : Tree A) (z : A) (u : Tree A)
      (q : List (Frame A))
      → Valid n (node red l x r)
      → Fits n (on_right red s y ∷ on_left black z u ∷ q)
      → color u ≡ black
      → Fixed (zip (on_right red s y ∷ on_left black z u ∷ q) (node red l x r)) (
          insert_fixup
            (suc (suc (suc fuel)))
            (node red l x r)
            (on_right red s y ∷ on_left black z u ∷ q))
  unfolding insert_fixup with_parent with_grandparent round left_rotate right_rotate
  inner_left fuel n l x r y s z u q v f ub = rw ub (
      same_data q _ _
        (outer_left fuel n s y l x r z u q (f.0, v.0, f.1, v.2) (v.1, v.3, refl, f.3) ub)
        (simp append_assoc))

  -- The node is the outer child of a right child, below a black uncle: one rotation settles it.
  outer_right :
      (fuel n : ℕ) (l : Tree A) (x : A) (r : Tree A) (y : A) (s : Tree A) (z : A) (u : Tree A)
      (q : List (Frame A))
      → Valid n (node red l x r)
      → Fits n (on_right red s y ∷ on_right black u z ∷ q)
      → color u ≡ black
      → Fixed (zip (on_right red s y ∷ on_right black u z ∷ q) (node red l x r)) (
          insert_fixup
            (suc (suc fuel))
            (node red l x r)
            (on_right red s y ∷ on_right black u z ∷ q))
  unfolding insert_fixup with_parent with_grandparent round left_rotate right_rotate
  outer_right fuel n l x r y s z u q v f ub =
      let t = node black (node red u z s) y (node red l x r) in
      (
        zip q t,
        rw ub (settle fuel (suc n) t q refl f.3.1),
        zip-IsRb (suc n) t q ((ub, f.0, f.3.0, f.1), v) f.3.1 tt,
        zip-cong q _ _ (simp append_assoc),
      )

  -- The inner child: a rotation at the parent makes it the case above.
  inner_right :
      (fuel n : ℕ) (l : Tree A) (x : A) (r : Tree A) (y : A) (s : Tree A) (z : A) (u : Tree A)
      (q : List (Frame A))
      → Valid n (node red l x r)
      → Fits n (on_left red y s ∷ on_right black u z ∷ q)
      → color u ≡ black
      → Fixed (zip (on_left red y s ∷ on_right black u z ∷ q) (node red l x r)) (
          insert_fixup
            (suc (suc (suc fuel)))
            (node red l x r)
            (on_left red y s ∷ on_right black u z ∷ q))
  unfolding insert_fixup with_parent with_grandparent round left_rotate right_rotate
  inner_right fuel n l x r y s z u q v f ub = rw ub (
      same_data q _ _
        (outer_right fuel n r y s x l z u q (v.1, f.0, v.3, f.1) (v.0, v.2, refl, f.3) ub)
        (simp append_assoc))

  abbrev pub Rooted : Color → List (Frame A) → Type 0
  Rooted black p = Unit
  Rooted red [] = ⊥
  Rooted red (_ ∷ _) = Unit

  insert_fixup_black :
      (fuel n : ℕ) (t : Tree A) (p : List (Frame A))
      → color t ≡ black
      → Valid n t
      → Fits n p
      → Fixed (zip p t) (insert_fixup (suc fuel) t p)
  unfolding insert_fixup with_parent
  insert_fixup_black fuel n t p b v f = (zip p t, rw b refl, zip-IsRb n t p v f (rw b tt), refl)

  -- With three rounds more than there are frames `rbt_insert_fixup` ends in a red-black tree with the
  -- data it was given.
  pub insert_fixup-Fixed :
      (fuel n : ℕ) (t : Tree A) (p : List (Frame A))
      → length p + 2 < fuel
      → Valid n t
      → Fits n p
      → Rooted (color t) p
      → Fixed (zip p t) (insert_fixup fuel t p)
  unfolding insert_fixup with_parent with_grandparent round
  insert_fixup-Fixed zero n t p h v f o = absurd (omega arith)
  insert_fixup-Fixed (suc zero) n t p h v f o = absurd (omega arith)
  insert_fixup-Fixed (suc (suc zero)) n t p h v f o = absurd (omega arith)
  insert_fixup-Fixed (suc (suc (suc fuel))) n leaf p h v f o =
      insert_fixup_black (suc (suc fuel)) n leaf p refl v f
  insert_fixup-Fixed (suc (suc (suc fuel))) n (node black l x r) p h v f o =
      insert_fixup_black (suc (suc fuel)) n (node black l x r) p refl v f
  insert_fixup-Fixed (suc (suc (suc fuel))) n (node red l x r) [] h v f o = absurd o
  insert_fixup-Fixed (suc (suc (suc fuel))) n (node red l x r) (on_left black y s ∷ p) h v f o =
      (_, refl, zip-IsRb n (node red l x r) (on_left black y s ∷ p) v f refl, refl)
  insert_fixup-Fixed (suc (suc (suc fuel))) n (node red l x r) (on_right black s y ∷ p) h v f o =
      (_, refl, zip-IsRb n (node red l x r) (on_right black s y ∷ p) v f refl, refl)
  insert_fixup-Fixed (suc (suc (suc fuel))) n (node red l x r) (on_left red y s ∷ []) h v f o =
      absurd f.2
  insert_fixup-Fixed (suc (suc (suc fuel))) n (node red l x r) (on_right red s y ∷ []) h v f o =
      absurd f.2
  insert_fixup-Fixed (suc (suc (suc fuel))) n (node red l x r)
        (on_left red y s ∷ on_left red z u ∷ q) h v f o =
      absurd (ground (arith, f.2))
  insert_fixup-Fixed (suc (suc (suc fuel))) n (node red l x r)
        (on_left red y s ∷ on_left black z (node red i w j) ∷ []) h v f o =
      insert_fixup_black (suc fuel) (suc (suc n))
        (node black (node black (node red l x r) y s) z (node black i w j)) [] refl
        ((v, f.1), (f.3.0.2, f.3.0.3)) tt
  insert_fixup-Fixed (suc (suc (suc fuel))) n (node red l x r)
        (on_left red y s ∷ on_left black z (node red i w j) ∷ k ∷ q) h v f o =
      same_data (k ∷ q) (node red (node black (node red l x r) y s) z (node black i w j)) _
        (insert_fixup-Fixed (suc (suc fuel)) (suc n)
          (node red (node black (node red l x r) y s) z (node black i w j)) (k ∷ q)
          (omega (arith, h)) (refl, refl, (v, f.1), (f.3.0.2, f.3.0.3)) f.3.1 tt)
        refl
  insert_fixup-Fixed (suc (suc (suc fuel))) n (node red l x r)
        (on_left red y s ∷ on_left black z leaf ∷ q) h v f o =
      outer_left (suc fuel) n l x r y s z leaf q v f refl
  insert_fixup-Fixed (suc (suc (suc fuel))) n (node red l x r)
        (on_left red y s ∷ on_left black z (node black i w j) ∷ q) h v f o =
      outer_left (suc fuel) n l x r y s z (node black i w j) q v f refl
  insert_fixup-Fixed (suc (suc (suc fuel))) n (node red l x r)
        (on_left red y s ∷ on_right red u z ∷ q) h v f o =
      absurd (ground (arith, f.2))
  insert_fixup-Fixed (suc (suc (suc fuel))) n (node red l x r)
        (on_left red y s ∷ on_right black (node red i w j) z ∷ []) h v f o =
      insert_fixup_black (suc fuel) (suc (suc n))
        (node black (node black i w j) z (node black (node red l x r) y s)) [] refl
        ((f.3.0.2, f.3.0.3), (v, f.1)) tt
  insert_fixup-Fixed (suc (suc (suc fuel))) n (node red l x r)
        (on_left red y s ∷ on_right black (node red i w j) z ∷ k ∷ q) h v f o =
      same_data (k ∷ q) (node red (node black i w j) z (node black (node red l x r) y s)) _
        (insert_fixup-Fixed (suc (suc fuel)) (suc n)
          (node red (node black i w j) z (node black (node red l x r) y s)) (k ∷ q)
          (omega (arith, h)) (refl, refl, (f.3.0.2, f.3.0.3), (v, f.1)) f.3.1 tt)
        refl
  insert_fixup-Fixed (suc (suc (suc fuel))) n (node red l x r)
        (on_left red y s ∷ on_right black leaf z ∷ q) h v f o =
      inner_right fuel n l x r y s z leaf q v f refl
  insert_fixup-Fixed (suc (suc (suc fuel))) n (node red l x r)
        (on_left red y s ∷ on_right black (node black i w j) z ∷ q) h v f o =
      inner_right fuel n l x r y s z (node black i w j) q v f refl
  insert_fixup-Fixed (suc (suc (suc fuel))) n (node red l x r)
        (on_right red s y ∷ on_left red z u ∷ q) h v f o =
      absurd (ground (arith, f.2))
  insert_fixup-Fixed (suc (suc (suc fuel))) n (node red l x r)
        (on_right red s y ∷ on_left black z (node red i w j) ∷ []) h v f o =
      insert_fixup_black (suc fuel) (suc (suc n))
        (node black (node black s y (node red l x r)) z (node black i w j)) [] refl
        ((f.1, v), (f.3.0.2, f.3.0.3)) tt
  insert_fixup-Fixed (suc (suc (suc fuel))) n (node red l x r)
        (on_right red s y ∷ on_left black z (node red i w j) ∷ k ∷ q) h v f o =
      same_data (k ∷ q) (node red (node black s y (node red l x r)) z (node black i w j)) _
        (insert_fixup-Fixed (suc (suc fuel)) (suc n)
          (node red (node black s y (node red l x r)) z (node black i w j)) (k ∷ q)
          (omega (arith, h)) (refl, refl, (f.1, v), (f.3.0.2, f.3.0.3)) f.3.1 tt)
        refl
  insert_fixup-Fixed (suc (suc (suc fuel))) n (node red l x r)
        (on_right red s y ∷ on_left black z leaf ∷ q) h v f o =
      inner_left fuel n l x r y s z leaf q v f refl
  insert_fixup-Fixed (suc (suc (suc fuel))) n (node red l x r)
        (on_right red s y ∷ on_left black z (node black i w j) ∷ q) h v f o =
      inner_left fuel n l x r y s z (node black i w j) q v f refl
  insert_fixup-Fixed (suc (suc (suc fuel))) n (node red l x r)
        (on_right red s y ∷ on_right red u z ∷ q) h v f o =
      absurd (ground (arith, f.2))
  insert_fixup-Fixed (suc (suc (suc fuel))) n (node red l x r)
        (on_right red s y ∷ on_right black (node red i w j) z ∷ []) h v f o =
      insert_fixup_black (suc fuel) (suc (suc n))
        (node black (node black i w j) z (node black s y (node red l x r))) [] refl
        ((f.3.0.2, f.3.0.3), (f.1, v)) tt
  insert_fixup-Fixed (suc (suc (suc fuel))) n (node red l x r)
        (on_right red s y ∷ on_right black (node red i w j) z ∷ k ∷ q) h v f o =
      same_data (k ∷ q) (node red (node black i w j) z (node black s y (node red l x r))) _
        (insert_fixup-Fixed (suc (suc fuel)) (suc n)
          (node red (node black i w j) z (node black s y (node red l x r))) (k ∷ q)
          (omega (arith, h)) (refl, refl, (f.3.0.2, f.3.0.3), (f.1, v)) f.3.1 tt)
        refl
  insert_fixup-Fixed (suc (suc (suc fuel))) n (node red l x r)
        (on_right red s y ∷ on_right black leaf z ∷ q) h v f o =
      outer_right (suc fuel) n l x r y s z leaf q v f refl
  insert_fixup-Fixed (suc (suc (suc fuel))) n (node red l x r)
        (on_right red s y ∷ on_right black (node black i w j) z ∷ q) h v f o =
      outer_right (suc fuel) n l x r y s z (node black i w j) q v f refl
