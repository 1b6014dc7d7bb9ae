-- ===== src/OrderedSet.antt =====
-- The ordered set that the search trees of lib/core promise: a strictly ascending list of values
-- under a comparison, with look-up, insertion and removal.
pub mod Laws
use cctrl.Prelude.{ℕ, ◌<◌, Ordering, Option, none, some, List, [], ◌∷◌}
use cctrl.Prelude.Compare.{Ranked}

module _ {ℓ} {A : Type ℓ} (cmp : A → A → Ordering) where
  -- The first value equal to the key.
  unfoldable pub lookup : A → List A → Option A
  lookup k [] = none
  lookup k (x ∷ xs) = elim (cmp k x) [ Ordering.eq ↦ some x | _ ↦ lookup k xs ]

  -- An equal value stays, and a new one goes in front of the first greater one.
  unfoldable pub add : A → List A → List A
  add d [] = d ∷ []
  add d (x ∷ xs) = elim (cmp d x) [
    | Ordering.lt ↦ d ∷ x ∷ xs
    | Ordering.eq ↦ x ∷ xs
    | Ordering.gt ↦ x ∷ add d xs
  ]

  -- The first value equal to the key goes.
  unfoldable pub remove : A → List A → List A
  remove k [] = []
  remove k (x ∷ xs) = elim (cmp k x) [ Ordering.eq ↦ xs | _ ↦ x ∷ remove k xs ]

module _ {ℓ} {A : Type ℓ} {cmp : A → A → Ordering} (o : Ranked cmp) where
  abbrev pub Above : A → List A → Type 0
  Above x [] = Unit
  Above x (y ∷ ys) = (o.rank x < o.rank y) × Above x ys

  abbrev pub Below : A → List A → Type 0
  Below x [] = Unit
  Below x (y ∷ ys) = (o.rank y < o.rank x) × Below x ys

  abbrev pub IsSorted : List A → Type 0
  IsSorted [] = Unit
  IsSorted (x ∷ xs) = Above x xs × IsSorted xs
