-- ===== src/Rtmq/Routes/Removal.antt =====
-- What `rtmq_node_to_svr_map_del` leaves of the map.
use cctrl.Prelude.{
  ℕ, ◌-◌, ◌^◌, ◌<◌, ◌≡◌, ◌≢◌, refl, sym, ap, ◌∙◌, Bool, true, false, ◌==◌, if◌then◌else◌, Option,
  none, some, List, [], ◌∷◌, length, compare, arith, ℕ_discrete,
}
use cctrl.OrderedSet.{lookup, remove}
use cctrl.OrderedSet.Laws.{lookup-remove_same, lookup-remove_other}
use cctrl.Avl.{AvlTree}
use cctrl.Avl.Shape.{to_list}
use cctrl.Avl.Correct.{IsValid}
use cctrl.Avl.Delete.Laws.{delete_correct}
use cctrl.Rtmq.Routes.{Routes, set_ids, drop_id, emptied, map_del}
use cctrl.Rtmq.Routes.Drop.{occurs, occurs-drop_id, length-drop_id}
use cctrl.Rtmq.Routes.Laws.{
  numbers, found, ids_of, routes_of, IsRoutes, set_here, set_other, query_is,
}

pub record DroppedRoute (nid id : ℕ) (r : Routes) (done : Bool) (r' : Routes) : Type 0 where
  pub routes : IsRoutes r'
  pub lost :
      (x : ℕ)
      → occurs x (routes_of r' nid)
        ≡ (if x == id then occurs x (routes_of r nid) - 1 else occurs x (routes_of r nid))
  pub others : (n : ℕ) → n ≢ nid → routes_of r' n ≡ routes_of r n
  pub refused : done ≡ false → (routes_of r nid ≡ []) × (r' ≡ r)
  pub there : done ≡ true → 0 < length (routes_of r nid)

emptied_lem : (xs ids : List ℕ) → 0 < length xs → emptied xs ids ≡ (length ids == 0)
emptied_lem [] ids pos = absurd (omega (arith, pos))
emptied_lem (x ∷ xs) ids pos = refl

none_occurs : (x : ℕ) (xs : List ℕ) → length xs ≡ 0 → occurs x xs ≡ 0
none_occurs x [] e = refl
none_occurs x (y ∷ ys) e = absurd (omega (arith, e))

module _ (nid id k : ℕ) (r : Routes) (h : IsRoutes r) (e : found r nid ≡ some k) where
  left : List ℕ
  left = drop_id id (r.rsvr_id nid)

  kept_entry :
      length left ≢ 0
      → DroppedRoute nid id r true (record r { rsvr_id = set_ids r.rsvr_id nid left })
  unfolding left
  kept_entry some_left =
      let here = set_here r.rsvr_id nid left in
      record {
        routes = record {
          valid = h.valid;
          sizes = λ n j q. elim (ℕ_discrete n nid) [
            | yes y ↦
                let same = ap length (ap (set_ids r.rsvr_id nid left) y ∙ here) in
                (
                  omega (arith, same, some_left),
                  omega (arith, same, length-drop_id id (r.rsvr_id nid), (h.sizes nid k e).1),
                )
            | no ne ↦ rw (set_other r.rsvr_id nid n left ne) (h.sizes n j q)
          ];
        };
        lost = λ x. rw e (ap (occurs x) here ∙ occurs-drop_id id x (r.rsvr_id nid));
        others = λ n ne. ap (ids_of (found r n)) (set_other r.rsvr_id nid n left ne);
        refused = λ d. cc;
        there = λ d. rw e (h.sizes nid k e).0;
      }

  dropped_entry :
      (t : AvlTree ℕ)
      → length left ≡ 0
      → IsValid numbers t
      → to_list t.root ≡ remove compare nid (to_list r.tree.root)
      → DroppedRoute nid id r true (record { tree = t; rsvr_id = set_ids r.rsvr_id nid left })
  unfolding left
  dropped_entry t none_left v items =
      let new : Routes = record { tree = t; rsvr_id = set_ids r.rsvr_id nid left } in
      let gone : found new nid ≡ none =
        ap (lookup compare nid) items
        ∙ lookup-remove_same numbers nid nid (to_list r.tree.root) refl h.valid.sorted in
      let elsewhere : (n : ℕ) → n ≢ nid → found new n ≡ found r n = λ n ne.
        ap (lookup compare n) items ∙ lookup-remove_other numbers n nid (to_list r.tree.root) ne in
      record {
        routes = record {
          valid = v;
          sizes = λ n j q. elim (ℕ_discrete n nid) [
            | yes y ↦ absurd (cc (sym q ∙ ap (found new) y ∙ gone))
            | no ne ↦
                rw (set_other r.rsvr_id nid n left ne) (h.sizes n j (sym (elsewhere n ne) ∙ q))
          ];
        };
        lost = λ x.
            rw (gone, e) (sym (none_occurs x left none_left) ∙ occurs-drop_id id x (r.rsvr_id nid));
        others = λ n ne.
            ap (λ (q : Option ℕ). ids_of q (set_ids r.rsvr_id nid left n)) (elsewhere n ne)
            ∙ ap (ids_of (found r n)) (set_other r.rsvr_id nid n left ne);
        refused = λ d. cc;
        there = λ d. rw e (h.sizes nid k e).0;
      }

  entry_there :
      r.tree.num < 2 ^ 64
      → (done : Bool) × (r' : Routes) × (map_del nid id r ≡ some (done, r'))
        × DroppedRoute nid id r done r'
  unfolding map_del left
  entry_there small = elim (ℕ_discrete (length left) 0) [
    | yes y ↦
        let test = emptied_lem (r.rsvr_id nid) left (h.sizes nid k e).0 in
        let zero_left : (length left == 0) ≡ true = ground (arith, y) in
        let (t, ran, v, items) = delete_correct numbers nid r.tree h.valid small in
        (
          true,
          record { tree = t; rsvr_id = set_ids r.rsvr_id nid left },
          rw (query_is r nid h, map_del) (rw e (rw (test ∙ zero_left) (rw ran refl))),
          dropped_entry t y v items,
        )
    | no ny ↦
        let test = emptied_lem (r.rsvr_id nid) left (h.sizes nid k e).0 in
        let some_left : (length left == 0) ≡ false = ground (arith, ny) in
        (
          true,
          record r { rsvr_id = set_ids r.rsvr_id nid left },
          rw (query_is r nid h, map_del) (rw e (rw (test ∙ some_left) refl)),
          kept_entry ny,
        )
  ]

-- `rtmq_node_to_svr_map_del` on a valid map of fewer than `2 ^ 64` nodes leaves a valid map, from which
-- a node goes with its last thread. It fails, and changes nothing, only for a node that has no
-- threads; else the node loses one entry of the given thread, if it has one. Other nodes keep theirs.
pub map_del-DroppedRoute :
    (nid id : ℕ) (r : Routes)
    → IsRoutes r
    → r.tree.num < 2 ^ 64
    → (done : Bool) × (r' : Routes) × (map_del nid id r ≡ some (done, r'))
      × DroppedRoute nid id r done r'
unfolding map_del
map_del-DroppedRoute nid id r h small = at (found r nid) refl
  where
    at :
        (q : Option ℕ)
        → found r nid ≡ q
        → (done : Bool) × (r' : Routes) × (map_del nid id r ≡ some (done, r'))
          × DroppedRoute nid id r done r'
    at (some k) e = entry_there nid id k r h e small
    at none e = (
      false,
      r,
      rw (query_is r nid h, map_del) (rw e refl),
      record {
        routes = h;
        lost = λ x. rw e (ground arith);
        others = λ n ne. refl;
        refused = λ d. (rw e refl, refl);
        there = λ d. cc;
      },
    )
