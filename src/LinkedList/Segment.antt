-- ===== src/LinkedList/Segment.antt =====
-- Chains of nodes in memory, for the list of list.c.
use mathlib.Core.Path.{subst}
use cctrl.Prelude.{ℕ, ◌≡◌, ◌≢◌, refl, sym, ◌∙◌, Option, List, [], ◌∷◌, ◌++◌, length, arith}
use cctrl.LinkedList.{Node, Memory, write, cell, LinkedList}

-- A node by its address and its data.
abbrev pub Entry : Type 0
Entry = ℕ × ℕ

-- From `p` the chain leads through the nodes `xs` to `q`.
abbrev pub Seg : Memory → ℕ → List Entry → ℕ → Type 0
Seg m p [] q = p ≡ q
Seg m p ((a, d) ∷ xs) q = (p ≡ a) × (a ≢ 0) × (next : ℕ) × (m a ≡ cell d next) × Seg m next xs q

-- No node of `xs` stands at `a`.
abbrev pub Avoids : ℕ → List Entry → Type 0
Avoids a [] = Unit
Avoids a ((b, d) ∷ xs) = (a ≢ b) × Avoids a xs

abbrev pub IsDistinct : List Entry → Type 0
IsDistinct [] = Unit
IsDistinct ((a, d) ∷ xs) = Avoids a xs × IsDistinct xs

-- The address of the last node, or NULL.
abbrev pub last : ℕ → List Entry → ℕ
last p [] = p
last p ((a, d) ∷ xs) = last a xs

-- The list object `l` holds the nodes `xs`.
pub record Holds (l : LinkedList) (xs : List Entry) : Type 0 where
  pub chain : Seg l.mem l.head xs 0
  pub distinct : IsDistinct xs
  pub num_is : l.num ≡ length xs
  pub tail_is : l.tail ≡ last 0 xs

-- A write elsewhere leaves a chain alone.
pub Seg-write :
    (m : Memory) (p : ℕ) (xs : List Entry) (q a : ℕ) (v : Option Node)
    → Avoids a xs
    → Seg m p xs q
    → Seg (write m a v) p xs q
Seg-write m p [] q a v h s = s
Seg-write m p ((b, d) ∷ xs) q a v h (e, nz, next, c, s) =
    (e, nz, next, ground arith, Seg-write m next xs q a v h.1 s)

-- Two chains one behind the other.
pub Seg-append :
    (m : Memory) (p : ℕ) (xs ys : List Entry) (r q : ℕ)
    → Seg m p xs r
    → Seg m r ys q
    → Seg m p (xs ++ ys) q
Seg-append m p [] ys r q s t = subst (λ u. Seg m u ys q) (sym s) t
Seg-append m p ((a, d) ∷ xs) ys r q (e, nz, next, c, s) t =
    (e, nz, next, c, Seg-append m next xs ys r q s t)

pub Seg-split :
    (m : Memory) (p : ℕ) (xs ys : List Entry) (q : ℕ)
    → Seg m p (xs ++ ys) q
    → (r : ℕ) × Seg m p xs r × Seg m r ys q
Seg-split m p [] ys q s = (p, refl, s)
Seg-split m p ((a, d) ∷ xs) ys q (e, nz, next, c, s) =
    let (r, t, u) = Seg-split m next xs ys q s in (r, (e, nz, next, c, t), u)

pub Avoids-append : (a : ℕ) (xs ys : List Entry) → Avoids a (xs ++ ys) → Avoids a xs × Avoids a ys
Avoids-append a [] ys h = (tt, h)
Avoids-append a ((b, d) ∷ xs) ys h = let (p, q) = Avoids-append a xs ys h.1 in ((h.0, p), q)

pub append-Avoids : (a : ℕ) (xs ys : List Entry) → Avoids a xs → Avoids a ys → Avoids a (xs ++ ys)
append-Avoids a [] ys p q = q
append-Avoids a ((b, d) ∷ xs) ys p q = (p.0, append-Avoids a xs ys p.1 q)

-- The front, one node and the rest of a list of distinct nodes avoid each other.
pub record Apart (xs : List Entry) (a : ℕ) (ys : List Entry) : Type 0 where
  pub front : IsDistinct xs
  pub front_avoids : Avoids a xs
  pub rest_avoids : Avoids a ys
  pub joined : IsDistinct (xs ++ ys)
  pub rest : IsDistinct ys

pub IsDistinct-Apart :
    (xs : List Entry) (a d : ℕ) (ys : List Entry) → IsDistinct (xs ++ (a, d) ∷ ys) → Apart xs a ys
IsDistinct-Apart [] a d ys h = record {
  front = tt;
  front_avoids = tt;
  rest_avoids = h.0;
  joined = h.1;
  rest = h.1;
}
IsDistinct-Apart ((b, c) ∷ xs) a d ys h =
    let p = IsDistinct-Apart xs a d ys h.1 in
    let (f, r) = Avoids-append b xs ((a, d) ∷ ys) h.0 in
    record {
      front = (f, p.front);
      front_avoids = ((λ e. r.0 (sym e)), p.front_avoids);
      rest_avoids = p.rest_avoids;
      joined = (append-Avoids b xs ys f r.1, p.joined);
      rest = p.rest;
    }

pub IsDistinct-snoc :
    (xs : List Entry) (a d : ℕ) → IsDistinct xs → Avoids a xs → IsDistinct (xs ++ (a, d) ∷ [])
IsDistinct-snoc [] a d h v = (tt, tt)
IsDistinct-snoc ((b, c) ∷ xs) a d h v =
    (append-Avoids b xs ((a, d) ∷ []) h.0 ((λ e. v.0 (sym e)), tt), IsDistinct-snoc xs a d h.1 v.1)

pub last-snoc : (p : ℕ) (xs : List Entry) (a d : ℕ) → last p (xs ++ (a, d) ∷ []) ≡ a
last-snoc p [] a d = refl
last-snoc p ((b, c) ∷ xs) a d = last-snoc b xs a d

-- The end of a non-empty list.
pub data Ends : List Entry → Type 0 where
  empty : Ends []
  snoc : (xs : List Entry) (a d : ℕ) → Ends (xs ++ (a, d) ∷ [])

pub ends : (xs : List Entry) → Ends xs
ends [] = empty
ends ((a, d) ∷ xs) = push (ends xs)
  where
    push : {ys : List Entry} → Ends ys → Ends ((a, d) ∷ ys)
    push empty = snoc [] a d
    push (snoc zs b c) = snoc ((a, d) ∷ zs) b c

-- A chain through a node: what leads to it, its cell, and what follows.
pub record Through (m : Memory) (p : ℕ) (xs : List Entry) (a d : ℕ) (ys : List Entry) (q : ℕ)
    : Type 0 where
  pub before : Seg m p xs a
  pub nonzero : a ≢ 0
  pub next : ℕ
  pub at : m a ≡ cell d next
  pub after : Seg m next ys q

pub Seg-Through :
    (m : Memory) (p : ℕ) (xs : List Entry) (a d : ℕ) (ys : List Entry) (q : ℕ)
    → Seg m p (xs ++ (a, d) ∷ ys) q
    → Through m p xs a d ys q
Seg-Through m p xs a d ys q s =
    let (r, t, (e, nz, next, c, u)) = Seg-split m p xs ((a, d) ∷ ys) q s in
    record { before = subst (Seg m p xs) e t; nonzero = nz; next = next; at = c; after = u }

pub Through-Seg :
    {m : Memory} {p : ℕ} {xs : List Entry} {a d : ℕ} {ys : List Entry} {q : ℕ}
    → Through m p xs a d ys q
    → Seg m p (xs ++ (a, d) ∷ ys) q
Through-Seg {m} {p} {xs} {a} {d} {ys} {q} t =
    Seg-append m p xs ((a, d) ∷ ys) a q t.before (refl, t.nonzero, t.next, t.at, t.after)

pub last-append :
    (p : ℕ) (xs : List Entry) (b c : ℕ) (ys : List Entry) → last p (xs ++ (b, c) ∷ ys) ≡ last b ys
last-append p [] b c ys = refl
last-append p ((e, f) ∷ xs) b c ys = last-append e xs b c ys

pub last-Avoids : (b e : ℕ) (ys : List Entry) → b ≢ e → Avoids b ys → b ≢ last e ys
last-Avoids b e [] ne h = ne
last-Avoids b e ((f, g) ∷ ys) ne h = last-Avoids b f ys h.0 h.1

pub IsDistinct-insert :
    (xs : List Entry) (a d : ℕ) (ys : List Entry)
    → IsDistinct (xs ++ ys)
    → Avoids a (xs ++ ys)
    → IsDistinct (xs ++ (a, d) ∷ ys)
IsDistinct-insert [] a d ys h v = (v, h)
IsDistinct-insert ((b, c) ∷ xs) a d ys h v =
    let (p, q) = Avoids-append b xs ys h.0 in
    (
      append-Avoids b xs ((a, d) ∷ ys) p ((λ e. v.0 (sym e)), q),
      IsDistinct-insert xs a d ys h.1 v.1,
    )

-- A chain that is not empty starts at a node of its own.
pub Seg-start :
    (m : Memory) (p : ℕ) (xs : List Entry) (b c : ℕ) (ys : List Entry) (q : ℕ)
    → Seg m p (xs ++ (b, c) ∷ ys) q
    → (p ≢ 0) × ((a : ℕ) → Avoids a (xs ++ (b, c) ∷ ys) → p ≢ a)
Seg-start m p [] b c ys q s = (rw s.0 s.1, λ a v k. v.0 (sym k ∙ s.0))
Seg-start m p ((x, y) ∷ xs) b c ys q s = (rw s.0 s.1, λ a v k. v.0 (sym k ∙ s.0))
