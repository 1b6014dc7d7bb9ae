-- ===== src/OrderedSet/Laws.antt =====
-- How the operations of the ordered set split at a value of the list.
use cctrl.Prelude.{
  ◌<◌, ◌≡◌, ◌≢◌, refl, Ordering, none, some, List, [], ◌∷◌, ◌++◌, arith, length, ◌+◌,
}
use cctrl.Prelude.Compare.{Ranked}
use cctrl.OrderedSet.{lookup, add, remove, Above, Below, IsSorted}

module _ {ℓ} {A : Type ℓ} {cmp : A → A → Ordering} (o : Ranked cmp) where
  Above-of_lt : (x y : A) (ys : List A) → o.rank x < o.rank y → Above o y ys → Above o x ys
  Above-of_lt x y [] h a = tt
  Above-of_lt x y (z ∷ ys) h a = (omega arith, Above-of_lt x y ys h a.1)

  -- A sorted list, split at one of its values.
  pub record Split (xs : List A) (x : A) (ys : List A) : Type 0 where
    pub left : IsSorted o xs
    pub below : Below o x xs
    pub above : Above o x ys
    pub right : IsSorted o ys

  Above-append :
      (a : A) (xs : List A) (x : A) (ys : List A)
      → Above o a (xs ++ x ∷ ys)
      → Above o a xs × (o.rank a < o.rank x) × Above o a ys
  Above-append a [] x ys h = (tt, h.0, h.1)
  Above-append a (y ∷ xs) x ys h = let (p, q, r) = Above-append a xs x ys h.1 in ((h.0, p), q, r)

  pub IsSorted-Split :
      (xs : List A) (x : A) (ys : List A) → IsSorted o (xs ++ x ∷ ys) → Split xs x ys
  IsSorted-Split [] x ys h = record { left = tt; below = tt; above = h.0; right = h.1 }
  IsSorted-Split (y ∷ xs) x ys h =
      let s = IsSorted-Split xs x ys h.1 in
      let (p, q, r) = Above-append y xs x ys h.0 in
      record { left = (p, s.left); below = (q, s.below); above = s.above; right = s.right }

  append-Above :
      (a : A) (xs : List A) (x : A) (ys : List A)
      → Above o a xs
      → o.rank a < o.rank x
      → Above o a ys
      → Above o a (xs ++ x ∷ ys)
  append-Above a [] x ys p q r = (q, r)
  append-Above a (y ∷ xs) x ys p q r = (p.0, append-Above a xs x ys p.1 q r)

  module _ (k x : A) where
    -- A key below `x` concerns what stands in front of `x`.
    pub add_left :
        (xs ys : List A) → o.rank k < o.rank x → add cmp k (xs ++ x ∷ ys) ≡ add cmp k xs ++ x ∷ ys
    unfolding add
    add_left [] ys h = ground (arith, o.agrees k x)
    add_left (y ∷ xs) ys h = ground (arith, add_left xs ys h)

    lookup-Above : (ys : List A) → o.rank k < o.rank x → Above o x ys → lookup cmp k ys ≡ none
    unfolding lookup
    lookup-Above [] h a = refl
    lookup-Above (y ∷ ys) h a = ground (arith, o.agrees k y, lookup-Above ys h a.1)

    pub lookup_left :
        (xs ys : List A)
        → o.rank k < o.rank x
        → Above o x ys
        → lookup cmp k (xs ++ x ∷ ys) ≡ lookup cmp k xs
    unfolding lookup
    lookup_left [] ys h a = ground (arith, o.agrees k x, lookup-Above ys h a)
    lookup_left (y ∷ xs) ys h a = ground (arith, lookup_left xs ys h a)

    remove-Above : (ys : List A) → o.rank k < o.rank x → Above o x ys → remove cmp k ys ≡ ys
    unfolding remove
    remove-Above [] h a = refl
    remove-Above (y ∷ ys) h a = ground (arith, o.agrees k y, remove-Above ys h a.1)

    pub remove_left :
        (xs ys : List A)
        → o.rank k < o.rank x
        → Above o x ys
        → remove cmp k (xs ++ x ∷ ys) ≡ remove cmp k xs ++ x ∷ ys
    unfolding remove
    remove_left [] ys h a = ground (arith, o.agrees k x, remove-Above ys h a)
    remove_left (y ∷ xs) ys h a = ground (arith, remove_left xs ys h a)

    -- A key above `x` concerns what stands behind `x`.
    pub add_right :
        (xs ys : List A)
        → o.rank x < o.rank k
        → Below o x xs
        → add cmp k (xs ++ x ∷ ys) ≡ xs ++ x ∷ add cmp k ys
    unfolding add
    add_right [] ys h b = ground (arith, o.agrees k x)
    add_right (y ∷ xs) ys h b = ground (arith, o.agrees k y, add_right xs ys h b.1)

    pub lookup_right :
        (xs ys : List A)
        → o.rank x < o.rank k
        → Below o x xs
        → lookup cmp k (xs ++ x ∷ ys) ≡ lookup cmp k ys
    unfolding lookup
    lookup_right [] ys h b = ground (arith, o.agrees k x)
    lookup_right (y ∷ xs) ys h b = ground (arith, o.agrees k y, lookup_right xs ys h b.1)

    pub remove_right :
        (xs ys : List A)
        → o.rank x < o.rank k
        → Below o x xs
        → remove cmp k (xs ++ x ∷ ys) ≡ xs ++ x ∷ remove cmp k ys
    unfolding remove
    remove_right [] ys h b = ground (arith, o.agrees k x)
    remove_right (y ∷ xs) ys h b = ground (arith, o.agrees k y, remove_right xs ys h b.1)

    -- A key equal to `x` finds it.
    pub lookup_here :
        (xs ys : List A) → o.rank k ≡ o.rank x → Below o x xs → lookup cmp k (xs ++ x ∷ ys) ≡ some x
    unfolding lookup
    lookup_here [] ys h b = ground (arith, o.agrees k x)
    lookup_here (y ∷ xs) ys h b = ground (arith, o.agrees k y, lookup_here xs ys h b.1)

    pub remove_here :
        (xs ys : List A)
        → o.rank k ≡ o.rank x
        → Below o x xs
        → remove cmp k (xs ++ x ∷ ys) ≡ xs ++ ys
    unfolding remove
    remove_here [] ys h b = ground (arith, o.agrees k x)
    remove_here (y ∷ xs) ys h b = ground (arith, o.agrees k y, remove_here xs ys h b.1)

  Above-add :
      (x d : A) (xs : List A) → o.rank x < o.rank d → Above o x xs → Above o x (add cmp d xs)
  unfolding add
  Above-add x d [] h a = (h, tt)
  Above-add x d (y ∷ ys) h a = ground (arith, Above-add x d ys h a.1)

  -- Both updates keep a list sorted.
  pub add-IsSorted : (d : A) (xs : List A) → IsSorted o xs → IsSorted o (add cmp d xs)
  unfolding add
  add-IsSorted d [] s = (tt, tt)
  add-IsSorted d (x ∷ xs) s =
      ground (arith, o.agrees d x, add-IsSorted d xs s.1, Above-add x d xs, Above-of_lt d x xs)

  Above-remove : (x k : A) (xs : List A) → Above o x xs → Above o x (remove cmp k xs)
  unfolding remove
  Above-remove x k [] a = tt
  Above-remove x k (y ∷ ys) a = ground (arith, Above-remove x k ys a.1)

  pub remove-IsSorted : (k : A) (xs : List A) → IsSorted o xs → IsSorted o (remove cmp k xs)
  unfolding remove
  remove-IsSorted k [] s = tt
  remove-IsSorted k (x ∷ xs) s =
      ground (arith, o.agrees k x, remove-IsSorted k xs s.1, Above-remove x k xs s.0)

  pub length-add :
      (d : A) (xs : List A) → lookup cmp d xs ≡ none → length (add cmp d xs) ≡ length xs + 1
  unfolding add lookup
  length-add d [] h = omega arith
  length-add d (x ∷ xs) h = ground (arith, length-add d xs)

  pub length-remove :
      (k : A) (xs : List A) (found : A)
      → lookup cmp k xs ≡ some found
      → length xs ≡ length (remove cmp k xs) + 1
  unfolding remove lookup
  length-remove k [] found h = cc
  length-remove k (x ∷ xs) found h = ground (arith, length-remove k xs found)

  pub remove-absent : (k : A) (xs : List A) → lookup cmp k xs ≡ none → remove cmp k xs ≡ xs
  unfolding remove lookup
  remove-absent k [] h = refl
  remove-absent k (x ∷ xs) h = ground (arith, remove-absent k xs)

  -- What a look-up finds after an update: `d` at a key equal to it, and at another what was there.
  pub lookup-add_same :
      (k d : A) (xs : List A)
      → o.rank k ≡ o.rank d
      → lookup cmp d xs ≡ none
      → lookup cmp k (add cmp d xs) ≡ some d
  unfolding add lookup
  lookup-add_same k d [] e h = ground (arith, o.agrees k d)
  lookup-add_same k d (x ∷ xs) e h =
      ground (arith, o.agrees k d, o.agrees d x, o.agrees k x, lookup-add_same k d xs e)

  pub lookup-add_other :
      (k d : A) (xs : List A) → o.rank k ≢ o.rank d → lookup cmp k (add cmp d xs) ≡ lookup cmp k xs
  unfolding add lookup
  lookup-add_other k d [] e = ground (arith, o.agrees k d)
  lookup-add_other k d (x ∷ xs) e =
      ground (arith, o.agrees k d, o.agrees d x, o.agrees k x, lookup-add_other k d xs e)

  lookup-Above_equal :
      (k x : A) (xs : List A) → o.rank k ≡ o.rank x → Above o x xs → lookup cmp k xs ≡ none
  unfolding lookup
  lookup-Above_equal k x [] e a = refl
  lookup-Above_equal k x (y ∷ ys) e a =
      ground (arith, o.agrees k y, lookup-Above_equal k x ys e a.1)

  pub lookup-remove_same :
      (k d : A) (xs : List A)
      → o.rank k ≡ o.rank d
      → IsSorted o xs
      → lookup cmp k (remove cmp d xs) ≡ none
  unfolding remove lookup
  lookup-remove_same k d [] e s = refl
  lookup-remove_same k d (x ∷ xs) e s = ground (
    arith,
    o.agrees d x,
    o.agrees k x,
    lookup-remove_same k d xs e s.1,
    lookup-Above_equal k x xs,
  )

  pub lookup-remove_other :
      (k d : A) (xs : List A)
      → o.rank k ≢ o.rank d
      → lookup cmp k (remove cmp d xs) ≡ lookup cmp k xs
  unfolding remove lookup
  lookup-remove_other k d [] e = refl
  lookup-remove_other k d (x ∷ xs) e =
      ground (arith, o.agrees d x, o.agrees k x, lookup-remove_other k d xs e)
