-- ===== src/Iovec/Laws.antt =====
-- What `wiov_item_adjust` leaves of the bytes to write.
use cctrl.Prelude.{
  ℕ, zero, suc, ◌+◌, ◌-◌, ◌<◌, ◌≤◌, ◌≡◌, ◌≢◌, refl, sym, ap, ◌∙◌, ◌==◌, leb, List, [], ◌∷◌, ◌++◌,
  length, drop, true, false, arith, length-append, length-drop, dec_le, ℕ_discrete, append_assoc,
}
use cctrl.Iovec.{Item, Wiov, iov_cnt, isempty, item_add, addresses, adjust_from, item_adjust}

abbrev pub pending : List Item → List ℕ
pending [] = []
pending (x ∷ xs) = x.bytes ++ pending xs

pub pending-append : (xs ys : List Item) → pending (xs ++ ys) ≡ pending xs ++ pending ys
pending-append [] ys = refl
pending-append (x ∷ xs) ys =
    ap (λ (t : List ℕ). x.bytes ++ t) (pending-append xs ys)
    ∙ sym (append_assoc x.bytes (pending xs) (pending ys))

drop_longer : (n : ℕ) (xs ys : List ℕ) → length xs ≤ n → drop n (xs ++ ys) ≡ drop (n - length xs) ys
drop_longer n [] ys h = let e : n - 0 ≡ n = omega arith in rw e refl
drop_longer zero (x ∷ xs) ys h = absurd (omega (arith, h))
drop_longer (suc n) (x ∷ xs) ys h =
    let e : suc n - suc (length xs) ≡ n - length xs = omega arith in
    rw e (drop_longer n xs ys (omega (arith, h)))

drop_shorter : (n : ℕ) (xs ys : List ℕ) → n ≤ length xs → drop n (xs ++ ys) ≡ drop n xs ++ ys
drop_shorter zero xs ys h = refl
drop_shorter (suc n) [] ys h = absurd (omega (arith, h))
drop_shorter (suc n) (x ∷ xs) ys h = drop_shorter n xs ys (omega (arith, h))

-- The loop drops `n - len` bytes, the index and the entries left count all entries, and each entry
-- is either handed to its callback or left.
adjust_from-pending :
    (n len idx : ℕ) (xs : List Item)
    → len ≤ n
    → (pending (adjust_from n len idx xs).2 ≡ drop (n - len) (pending xs))
      × ((adjust_from n len idx xs).1 + length (adjust_from n len idx xs).2 ≡ idx + length xs)
      × ((adjust_from n len idx xs).0 ++ addresses (adjust_from n len idx xs).2 ≡ addresses xs)
unfolding adjust_from
adjust_from-pending n len idx [] h = (no_more (n - len), omega arith, refl)
  where
    no_more : (k : ℕ) → [] ≡ drop {A = ℕ} k []
    no_more zero = refl
    no_more (suc k) = refl
adjust_from-pending n len idx (x ∷ xs) h = elim (dec_le (len + length x.bytes) n) [
  | yes l ↦
      let (a, b, c) = adjust_from-pending n (len + length x.bytes) (idx + 1) xs l in
      let test : leb (len + length x.bytes) n ≡ true = ground (arith, l) in
      let less : n - (len + length x.bytes) ≡ n - len - length x.bytes = omega arith in
      let more = drop_longer (n - len) x.bytes (pending xs) (omega (arith, l)) in
      (
        rw (test, adjust_from) (rw less at a ∙ sym more),
        rw (test, adjust_from) (omega (arith, b)),
        rw (test, adjust_from) (ap (λ (t : List ℕ). x.addr ∷ t) c),
      )
  | no nl ↦
      let test : leb (len + length x.bytes) n ≡ false = ground (arith, nl) in
      (
        rw (test, adjust_from)
            (sym (drop_shorter (n - len) x.bytes (pending xs) (omega (arith, nl)))),
        rw (test, adjust_from) refl,
        rw (test, adjust_from) refl,
      )
]

pub no_items : (xs : List Item) → length xs ≡ 0 → xs ≡ []
no_items [] h = refl
no_items (x ∷ xs) h = absurd (omega (arith, h))

-- The first entry has bytes left to write.
abbrev pub HasBytes : List Item → Type 0
HasBytes [] = Unit
HasBytes (x ∷ xs) = 0 < length x.bytes

adjust_from-HasBytes :
    (n len idx : ℕ) (xs : List Item) → len ≤ n → HasBytes (adjust_from n len idx xs).2
unfolding adjust_from
adjust_from-HasBytes n len idx [] h = tt
adjust_from-HasBytes n len idx (x ∷ xs) h = elim (dec_le (len + length x.bytes) n) [
  | yes l ↦
      let test : leb (len + length x.bytes) n ≡ true = ground (arith, l) in
      rw (test, adjust_from) (adjust_from-HasBytes n (len + length x.bytes) (idx + 1) xs l)
  | no nl ↦
      let test : leb (len + length x.bytes) n ≡ false = ground (arith, nl) in
      rw (test, adjust_from) (omega (arith, length-drop (n - len) x.bytes, nl))
]

-- `wiov_item_adjust` drops the `n` bytes that were written from those that wait, keeps the room for
-- entries or wins some, and gives each address to its callback once, when its entry has left. An entry
-- leaves when all its bytes were written: the first one that is left has bytes to write, and when none
-- is left the object is empty.
pub item_adjust-pending :
    (w : Wiov) (n : ℕ)
    → (pending (item_adjust w n).1.items ≡ drop n (pending w.items))
      × ((item_adjust w n).0 ++ addresses (item_adjust w n).1.items ≡ addresses w.items)
      × (iov_cnt (item_adjust w n).1 ≤ iov_cnt w)
      × ((item_adjust w n).1.iov_max ≡ w.iov_max)
      × HasBytes (item_adjust w n).1.items
      × ((item_adjust w n).1.items ≡ [] → isempty (item_adjust w n).1 ≡ true)
unfolding item_adjust
item_adjust-pending w n =
    let r = adjust_from n 0 w.iov_idx w.items in
    let (a, b, c) = adjust_from-pending n 0 w.iov_idx w.items (omega arith) in
    let whole : n - 0 ≡ n = omega arith in
    let bytes : pending r.2 ≡ drop n (pending w.items) = rw whole at a in
    elim (ℕ_discrete r.1 (iov_cnt w)) [
      | yes y ↦
          let test : (r.1 == iov_cnt w) ≡ true = ground (arith, y) in
          let empty = no_items r.2 (omega (arith, y, b)) in
          rw test (rw empty at bytes, rw empty at c, omega arith, refl, tt, λ e. refl)
      | no ne ↦
          let test : (r.1 == iov_cnt w) ≡ false = ground (arith, ne) in
          let has = adjust_from-HasBytes n 0 w.iov_idx w.items (omega arith) in
          rw test (
            bytes,
            c,
            omega (arith, b),
            refl,
            has,
            (λ e. let len = ap length e in absurd (omega (arith, len, b, ne))),
          )
    ]

abbrev pub AllHold : List Item → Type 0
AllHold [] = Unit
AllHold (x ∷ xs) = (0 < length x.bytes) × AllHold xs

-- Each entry has bytes to write, there is room for the entries, and an empty list starts at the front.
pub record IsReady (w : Wiov) : Type 0 where
  pub room : iov_cnt w ≤ w.iov_max
  pub hold : AllHold w.items
  pub front : length w.items ≡ 0 → w.iov_idx ≡ 0

pub nothing_pending : (xs : List Item) → AllHold xs → length (pending xs) ≡ 0 → length xs ≡ 0
nothing_pending [] h e = refl
nothing_pending (x ∷ xs) h e = absurd (omega (arith, h.0, e, length-append x.bytes (pending xs)))

AllHold-snoc :
    (xs : List Item) (x : Item) → AllHold xs → 0 < length x.bytes → AllHold (xs ++ x ∷ [])
AllHold-snoc [] x h p = (p, tt)
AllHold-snoc (y ∷ xs) x h p = (h.0, AllHold-snoc xs x h.1 p)

pub item_add-IsReady :
    (w : Wiov) (x : Item)
    → IsReady w
    → iov_cnt w ≢ w.iov_max
    → 0 < length x.bytes
    → IsReady (item_add w x)
item_add-IsReady w x h ne p =
    let longer = length-append w.items (x ∷ []) in
    record {
      room = omega (arith, longer, h.room, ne);
      hold = AllHold-snoc w.items x h.hold p;
      front = λ e. absurd (omega (arith, longer, e));
    }

adjust_from-AllHold :
    (n len idx : ℕ) (xs : List Item) → AllHold xs → len ≤ n → AllHold (adjust_from n len idx xs).2
unfolding adjust_from
adjust_from-AllHold n len idx [] h l = tt
adjust_from-AllHold n len idx (x ∷ xs) (p, h) l = elim (dec_le (len + length x.bytes) n) [
  | yes y ↦
      let test : leb (len + length x.bytes) n ≡ true = ground (arith, y) in
      rw (test, adjust_from) (adjust_from-AllHold n (len + length x.bytes) (idx + 1) xs h y)
  | no ny ↦
      let test : leb (len + length x.bytes) n ≡ false = ground (arith, ny) in
      rw (test, adjust_from) (omega (arith, length-drop (n - len) x.bytes, ny), h)
]

pub item_adjust-IsReady : (w : Wiov) (n : ℕ) → IsReady w → IsReady (item_adjust w n).1
unfolding item_adjust
item_adjust-IsReady w n h =
    let r = adjust_from n 0 w.iov_idx w.items in
    let (a, b, c) = adjust_from-pending n 0 w.iov_idx w.items (omega arith) in
    elim (ℕ_discrete r.1 (iov_cnt w)) [
      | yes y ↦
          let test : (r.1 == iov_cnt w) ≡ true = ground (arith, y) in
          rw test (record { room = omega arith; hold = tt; front = λ e. refl })
      | no ne ↦
          let test : (r.1 == iov_cnt w) ≡ false = ground (arith, ne) in
          rw test (record {
            room = omega (arith, b, h.room);
            hold = adjust_from-AllHold n 0 w.iov_idx w.items h.hold (omega arith);
            front = λ e. absurd (omega (arith, e, b, ne));
          })
    ]
