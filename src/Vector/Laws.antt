-- ===== src/Vector/Laws.antt =====
-- The operations of the growing array of vector.c.
use cctrl.Prelude.{
  ℕ, zero, suc, ◌+◌, ◌-◌, ◌*◌, ◌<◌, ◌≤◌, ◌≡◌, ◌≢◌, refl, Bool, true, false, ◌==◌, Option, none,
  some, ℕ_discrete, dec_lt, Bool-cases, ◌⊎◌, inl, inr, arith,
}
use cctrl.Prelude.Arrays.{put, one, count, count-put_beyond, count-fill}
use cctrl.Vector.{
  Vector, fits, load, save, append, scan, entry_found, find, index, fill_gap, del_by_idx, taken,
  find_and_del, deleted, delete,
}

-- The block has room for `cap` entries, and `len` of them are in use.
pub record IsValid (v : Vector) : Type 0 where
  pub block : v.arr ≢ 0
  pub size : v.bytes ≡ 8 * v.cap
  pub room : v.len ≤ v.cap

-- How often an address is in the vector.
abbrev pub held : Vector → ℕ → ℕ
held v x = count v.len v.cells x

fits_lem : {v : Vector} → IsValid v → (i : ℕ) → i < v.cap → fits v i ≡ true
unfolding fits
fits_lem h i l = ground (arith, h.block, h.size)

load_lem : {v : Vector} → IsValid v → (i : ℕ) → i < v.cap → load v i ≡ some (v.cells i)
unfolding load
load_lem h i l = ground (arith, fits_lem h i l)

-- What `vector_append` leaves when it returns 0.
abbrev pub Appended : Vector → ℕ → Option (Bool × Vector) → Type 0
Appended v addr r =
    (v' : Vector) × (r ≡ some (true, v'))
    × IsValid v'
    × (v'.cells v.len ≡ addr)
    × (v'.len ≡ suc v.len)
    × ((j : ℕ) → j < v.len → v'.cells j ≡ v.cells j)

-- What the removal of `addr` leaves.
abbrev pub Removed {ℓ} : {A : Type ℓ} → Vector → ℕ → A → Option (A × Vector) → Type ℓ
Removed v addr a r =
    (v' : Vector) × (r ≡ some (a, v')) × IsValid v' × ((x : ℕ) → held v' x + one addr x ≡ held v x)

module _ {v : Vector} (h : IsValid v) where
  -- `vector_append` below the capacity adds the address at the end.
  append_room : (block addr : ℕ) → v.len < v.cap → Appended v addr (append v block addr)
  unfolding append save
  append_room block addr l = (
    record v { len = suc v.len; cells = put v.cells v.len addr },
    ground (arith, l, fits_lem h v.len l),
    record { block = h.block; size = h.size; room = l },
    ground arith,
    refl,
    λ j b. ground (arith, b),
  )

  -- A full vector, with an increment below seven times its capacity and one entry, takes nothing:
  -- `vector_append` returns -1 when the block grows in place, and else writes behind the new block.
  append_full :
      (block addr : ℕ)
      → v.len ≡ v.cap
      → v.incr < 7 * v.cap + 8
      → ((v' : Vector) × (append v block addr ≡ some (false, v')) × (v'.len ≡ v.len))
        ⊎ (append v block addr ≡ none)
  unfolding append save fits
  append_full block addr full small = elim (ℕ_discrete v.arr block) [
    | yes p ↦ inl (record v { arr = block; bytes = v.cap + v.incr }, ground (arith, p, full), refl)
    | no np ↦ inr (ground (arith, np, full, small))
  ]

  -- `vector_append` on a valid vector with an increment below seven times its capacity and one entry
  -- adds the address at the end when there is room; a full vector takes nothing: -1 when the block
  -- grows in place, and else a write behind the new block.
  pub append_cases :
      (block addr : ℕ)
      → v.incr < 7 * v.cap + 8
      → ((v.len < v.cap) × Appended v addr (append v block addr))
        ⊎ ((v.len ≡ v.cap)
            × (((v' : Vector) × (append v block addr ≡ some (false, v')) × (v'.len ≡ v.len))
                ⊎ (append v block addr ≡ none)))
  append_cases block addr small = elim (dec_lt v.len v.cap) [
    | yes l ↦ inl (l, append_room block addr l)
    | no n ↦
        let full : v.len ≡ v.cap = omega (arith, n, h.room) in
        inr (full, append_full block addr full small)
  ]

  fill_gap-Removed : (i : ℕ) → i < v.len → Removed v (v.cells i) (v.cells i) (fill_gap v i)
  unfolding fill_gap save fits
  fill_gap-Removed i l =
      let n = v.len - 1 in
      let e = v.cells in
      let here = load_lem h i (omega (arith, l, h.room)) in
      let last = load_lem h n (omega (arith, l, h.room)) in
      let fits_here = fits_lem h i (omega (arith, l, h.room)) in
      let fits_last = fits_lem h n (omega (arith, l, h.room)) in
      let fill = λ (x : ℕ). count-fill v.len e i x l in
      elim (ℕ_discrete i n) [
        | yes p ↦ (
          record v { len = n; cells = put e n 0 },
          ground (arith, p, here, fits_last),
          record { block = h.block; size = h.size; room = omega (arith, h.room) },
          λ x.
              let beyond = count-put_beyond n e n 0 x (omega arith) in
              let beyond' = count-put_beyond n e i (e n) x (omega (arith, p)) in
              omega (arith, fill x, beyond, beyond'),
        )
        | no np ↦ (
          record v { len = n; cells = put (put e i (e n)) n 0 },
          ground (arith, np, here, last, fits_here, fits_last, kept (put e i (e n))),
          record { block = h.block; size = h.size; room = omega (arith, h.room) },
          λ x.
              let beyond = count-put_beyond n (put e i (e n)) n 0 x (omega arith) in
              omega (arith, fill x, beyond),
        )
      ]
    where
      kept : (c : ℕ → ℕ) → fits (record v { cells = c }) (v.len - 1) ≡ fits v (v.len - 1)
      kept c = refl

  -- `vector_del_by_idx` takes out the entry at an index in use, and behind the end changes nothing.
  del_by_idx-Removed :
      (i : ℕ)
      → ((i < v.len) × Removed v (v.cells i) (v.cells i) (del_by_idx v i))
        ⊎ ((v.len ≤ i) × (del_by_idx v i ≡ some (0, v)))
  unfolding del_by_idx
  del_by_idx-Removed i = elim (dec_lt i v.len) [
    | yes l ↦
        let (v', r, ok, c) = fill_gap-Removed i l in inl (l, (v', ground (arith, l, r), ok, c))
    | no nl ↦ inr (omega (arith, nl), ground (arith, nl))
  ]

  -- What a search has found.
  pub data Scanned (cb : ℕ → Bool) : Option ℕ → Type 0 where
    nothing : ((j : ℕ) → j < v.len → cb (v.cells j) ≡ false) → Scanned cb none
    entry :
        (i : ℕ)
        → i < v.len
        → cb (v.cells i) ≡ true
        → ((j : ℕ) → j < i → cb (v.cells j) ≡ false)
        → Scanned cb (some i)

  scan-Scanned :
      (rest : ℕ) (cb : ℕ → Bool) (idx : ℕ)
      → idx + rest ≡ v.len
      → ((j : ℕ) → j < idx → cb (v.cells j) ≡ false)
      → (r : Option ℕ) × (scan rest v cb idx ≡ some r) × Scanned cb r
  unfolding scan
  scan-Scanned zero cb idx e before = (none, refl, nothing (λ j l. before j (omega (arith, l, e))))
  scan-Scanned (suc rest) cb idx e before =
      let here = load_lem h idx (omega (arith, e, h.room)) in
      elim (Bool-cases (cb (v.cells idx))) [
        | inl y ↦ (some idx, ground (arith, here, y), entry idx (omega (arith, e)) y before)
        | inr n ↦
            let (r, q, s) = scan-Scanned rest cb (suc idx) (omega (arith, e)) (λ j l.
              elim (ℕ_discrete j idx) [
                | yes p ↦ rw p n
                | no np ↦ before j (omega (arith, np, l))
              ]) in
            (r, ground (arith, here, n, q), s)
      ]

  -- The first entry accepted.
  pub record First (cb : ℕ → Bool) (i : ℕ) : Type 0 where
    pub in_use : i < v.len
    pub accepted : cb (v.cells i) ≡ true
    pub before : (j : ℕ) → j < i → cb (v.cells j) ≡ false

  searched :
      (cb : ℕ → Bool)
      → (scan v.len v cb 0 ≡ some none) × ((j : ℕ) → j < v.len → cb (v.cells j) ≡ false)
        ⊎ ((i : ℕ) × (scan v.len v cb 0 ≡ some (some i)) × First cb i)
  searched cb = of (scan-Scanned v.len cb 0 (omega arith) (λ j l. absurd (omega (arith, l))))
    where
      of :
          (r : Option ℕ) × (scan v.len v cb 0 ≡ some r) × Scanned cb r
          → (scan v.len v cb 0 ≡ some none) × ((j : ℕ) → j < v.len → cb (v.cells j) ≡ false)
            ⊎ ((i : ℕ) × (scan v.len v cb 0 ≡ some (some i)) × First cb i)
      of (r, q, nothing f) = inl (q, f)
      of (r, q, entry i l y b) = inr (i, q, record { in_use = l; accepted = y; before = b })

  -- `vector_find_and_del` takes out the first entry accepted, and changes nothing if none is.
  find_and_del-Removed :
      (cb : ℕ → Bool)
      → (((j : ℕ) → j < v.len → cb (v.cells j) ≡ false) × (find_and_del v cb ≡ some (0, v)))
        ⊎ ((i : ℕ) × First cb i × Removed v (v.cells i) (v.cells i) (find_and_del v cb))
  unfolding find_and_del taken
  find_and_del-Removed cb = elim (searched cb) [
    | inl (q, none_is) ↦ inl (none_is, rw q refl)
    | inr (i, q, f) ↦
        let (v', r, ok, c) = fill_gap-Removed i f.in_use in inr (i, f, (v', (rw q r), ok, c))
  ]

  -- `vector_find` gives the first entry accepted, and NULL if none is.
  find-First :
      (cb : ℕ → Bool)
      → (((j : ℕ) → j < v.len → cb (v.cells j) ≡ false) × (find v cb ≡ some 0))
        ⊎ ((i : ℕ) × First cb i × (find v cb ≡ some (v.cells i)))
  unfolding find entry_found
  find-First cb = elim (searched cb) [
    | inl (q, none_is) ↦ inl (none_is, rw q refl)
    | inr (i, q, f) ↦ inr (i, f, rw q (load_lem h i (omega (arith, f.in_use, h.room))))
  ]

  -- `vector_delete` takes out one occurrence of an address, and returns -1 if there is none.
  pub delete-Removed :
      (addr : ℕ)
      → (((j : ℕ) → j < v.len → v.cells j ≢ addr) × (delete v addr ≡ some (false, v)))
        ⊎ Removed v addr true (delete v addr)
  unfolding delete deleted index del_by_idx
  delete-Removed addr = elim (searched (λ x. x == addr)) [
    | inl (q, none_is) ↦ inl ((λ j l p. let n = none_is j l in ground (arith, n, p)), rw q refl)
    | inr (i, q, f) ↦
        let hit = f.accepted in
        let (v', r, ok, c) = fill_gap-Removed i f.in_use in
        let same : v.cells i ≡ addr = ground (arith, hit) in
        inr (
          v',
          (rw q (ground (arith, f.in_use, r))),
          ok,
          λ x. (let k = c x in ground (arith, k, same)),
        )
  ]
