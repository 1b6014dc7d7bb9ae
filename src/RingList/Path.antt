-- ===== src/RingList/Path.antt =====
-- Chains of nodes that are linked in both directions.
use cctrl.Prelude.Distinct.{Absent, IsDistinct}
use cctrl.Prelude.{ℕ, ◌≡◌, ◌≢◌, refl, sym, ap, ◌∙◌, List, [], ◌∷◌, ◌++◌}

-- From `a` the links lead through `bs`, and back, and `e` is the last node.
abbrev pub Linked : (ℕ → ℕ) → (ℕ → ℕ) → ℕ → List ℕ → ℕ → Type 0
Linked nx pv a [] e = a ≡ e
Linked nx pv a (b ∷ bs) e = (nx a ≡ b) × (pv b ≡ a) × Linked nx pv b bs e

pub last_apart :
    (nx pv : ℕ → ℕ) (a b e : ℕ) (bs : List ℕ) → Absent a (b ∷ bs) → Linked nx pv b bs e → a ≢ e
last_apart nx pv a b e [] (ne, _) w = λ x. ne (x ∙ sym w)
last_apart nx pv a b e (c ∷ cs) (ne, a') (p, q, w) = last_apart nx pv a c e cs a' w

pub not_last :
    (nx pv : ℕ → ℕ) (n a e : ℕ) (bs : List ℕ) → Absent n (a ∷ bs) → Linked nx pv a bs e → n ≢ e
not_last nx pv n a e [] (ne, _) w = λ x. ne (x ∙ sym w)
not_last nx pv n a e (b ∷ bs) (ne, z) (p, q, w) = not_last nx pv n b e bs z w

-- Links that change only behind the last node, before the first one, and at a node elsewhere.
pub Linked-kept :
    (nx pv nx' pv' : ℕ → ℕ) (h n a e : ℕ) (bs : List ℕ)
    → ((j : ℕ) → j ≢ e → j ≢ n → nx' j ≡ nx j)
    → ((j : ℕ) → j ≢ h → j ≢ n → pv' j ≡ pv j)
    → Absent h bs
    → Absent n (a ∷ bs)
    → IsDistinct (a ∷ bs)
    → Linked nx pv a bs e
    → Linked nx' pv' a bs e
Linked-kept nx pv nx' pv' h n a e [] f g x z d w = w
Linked-kept nx pv nx' pv' h n a e (b ∷ bs) f g (ne, x) (na, (nb, z)) (y, d) (p, q, w) = (
  f a (last_apart nx pv a b e bs y w) (λ k. na (sym k)) ∙ p,
  g b (λ k. ne (sym k)) (λ k. nb (sym k)) ∙ q,
  Linked-kept nx pv nx' pv' h n b e bs f g x (nb, z) d w,
)

pub Linked-snoc :
    (nx pv : ℕ → ℕ) (a e n : ℕ) (bs : List ℕ)
    → Linked nx pv a bs e
    → nx e ≡ n
    → pv n ≡ e
    → Linked nx pv a (bs ++ n ∷ []) n
Linked-snoc nx pv a e n [] w p q = (ap nx w ∙ p, q ∙ sym w, refl)
Linked-snoc nx pv a e n (b ∷ bs) (x, y, w) p q = (x, y, Linked-snoc nx pv b e n bs w p q)

-- The last node, taken from a chain.
pub Linked-init :
    (nx pv : ℕ → ℕ) (a n e : ℕ) (bs : List ℕ)
    → Linked nx pv a (bs ++ n ∷ []) e
    → (p : ℕ) × Linked nx pv a bs p × (nx p ≡ n) × (pv n ≡ p) × (n ≡ e)
Linked-init nx pv a n e [] (x, y, w) = (a, refl, x, y, w)
Linked-init nx pv a n e (b ∷ bs) (x, y, w) =
    let (p, v, q, r, t) = Linked-init nx pv b n e bs w in (p, (x, y, v), q, r, t)
