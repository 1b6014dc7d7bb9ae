-- ===== src/Rtmq/Routes/Laws.antt =====
-- The map from nodes to receiving threads, by the threads that each node has.
use cctrl.Prelude.{
  ℕ, ◌-◌, ◌%◌, ◌^◌, ◌<◌, ◌≤◌, ◌≡◌, ◌≢◌, refl, sym, ap, ◌∙◌, Bool, true, false, ◌==◌, ltb, Option,
  none, some, List, [], ◌∷◌, ◌++◌, length, compare, get_or, ◌⊎◌, inl, inr, arith, ℕ_discrete,
  dec_lt, length-append,
}
use cctrl.Prelude.Compare.{Ranked}
use cctrl.OrderedSet.{lookup}
use cctrl.OrderedSet.Laws.{lookup-add_same, lookup-add_other}
use cctrl.Avl.{Status, ok, err, exist, AvlTree, query}
use cctrl.Avl.Shape.{to_list}
use cctrl.Avl.Correct.{IsValid, Added, insert_correct, query_correct}
use cctrl.Avl.Insert.{expected}
use cctrl.Rtmq.Routes.{Routes, max_len, set_ids, put_id, inserted, map_add, map_rand}

abbrev pub numbers : Ranked {A = ℕ} compare
numbers = record { rank = λ n. n; agrees = λ a b. refl }

abbrev pub found : Routes → ℕ → Option ℕ
found r nid = lookup compare nid (to_list r.tree.root)

abbrev pub ids_of : Option ℕ → List ℕ → List ℕ
ids_of none ids = []
ids_of (some k) ids = ids

-- The threads of a node.
abbrev pub routes_of : Routes → ℕ → List ℕ
routes_of r nid = ids_of (found r nid) (r.rsvr_id nid)

-- A node that is in the map has at least one thread, and no more than there is room for.
pub record IsRoutes (r : Routes) : Type 0 where
  pub valid : IsValid numbers r.tree
  pub sizes :
      (n k : ℕ) → found r n ≡ some k → (0 < length (r.rsvr_id n)) × (length (r.rsvr_id n) ≤ max_len)

pub set_here : (f : ℕ → List ℕ) (nid : ℕ) (ids : List ℕ) → set_ids f nid ids nid ≡ ids
set_here f nid ids = ground arith

pub set_other : (f : ℕ → List ℕ) (nid n : ℕ) (ids : List ℕ) → n ≢ nid → set_ids f nid ids n ≡ f n
set_other f nid n ids ne = let b : (nid == n) ≡ false = ground (arith, ne) in rw b refl

pub query_is : (r : Routes) (nid : ℕ) → IsRoutes r → query compare nid r.tree.root ≡ found r nid
query_is r nid h = query_correct numbers nid r.tree.root h.valid.sorted

-- `rtmq_node_to_svr_map_rand` on a valid map never divides by 0: it gives -1 for a node that has no
-- thread, and one of the node's threads else.
pub map_rand_lem :
    (random nid : ℕ) (r : Routes)
    → IsRoutes r
    → ((routes_of r nid ≡ []) × (map_rand random nid r ≡ some none))
      ⊎ ((i : ℕ) × (i < length (routes_of r nid))
          × (map_rand random nid r ≡ some (some (get_or (routes_of r nid) i 0))))
unfolding map_rand
map_rand_lem random nid r h = at (found r nid) refl
  where
    at :
        (q : Option ℕ)
        → found r nid ≡ q
        → ((routes_of r nid ≡ []) × (map_rand random nid r ≡ some none))
          ⊎ ((i : ℕ) × (i < length (routes_of r nid))
              × (map_rand random nid r ≡ some (some (get_or (routes_of r nid) i 0))))
    at none e = inl (rw e refl, rw (query_is r nid h, map_rand) (rw e refl))
    at (some k) e =
        let (pos, _) = h.sizes nid k e in
        let more : (length (r.rsvr_id nid) == 0) ≡ false = ground (arith, pos) in
        inr (
          random % length (r.rsvr_id nid),
          rw e (omega (arith, pos)),
          rw (query_is r nid h, map_rand) (rw e (rw more refl)),
        )

-- What `rtmq_node_to_svr_map_add` leaves.
pub record AddedRoute (mem node_mem : Bool) (nid id : ℕ) (r : Routes) (done : Bool) (r' : Routes)
    : Type 0 where
  pub routes : IsRoutes r'
  pub added : done ≡ true → routes_of r' nid ≡ routes_of r nid ++ id ∷ []
  pub refused :
      done ≡ false
      → (routes_of r' nid ≡ routes_of r nid)
        × ((mem ≡ false) ⊎ ((node_mem ≡ false) ⊎ (length (routes_of r nid) ≡ max_len)))
  pub others : (n : ℕ) → n ≢ nid → routes_of r' n ≡ routes_of r n

-- One more thread for a node whose entry is there.
more_ids-IsRoutes :
    (nid id k : ℕ) (r : Routes)
    → IsValid numbers r.tree
    → found r nid ≡ some k
    → length (r.rsvr_id nid) < max_len
    → ((n j : ℕ)
        → n ≢ nid
        → found r n ≡ some j
        → (0 < length (r.rsvr_id n)) × (length (r.rsvr_id n) ≤ max_len))
    → IsRoutes (record r { rsvr_id = set_ids r.rsvr_id nid (r.rsvr_id nid ++ id ∷ []) })
more_ids-IsRoutes nid id k r v e room sizes = record {
  valid = v;
  sizes = λ n j q. elim (ℕ_discrete n nid) [
    | yes y ↦
        let same = ap length (
          ap (set_ids r.rsvr_id nid (r.rsvr_id nid ++ id ∷ [])) y
          ∙ set_here r.rsvr_id nid (r.rsvr_id nid ++ id ∷ [])) in
        let longer = length-append (r.rsvr_id nid) (id ∷ []) in
        (omega (arith, same, longer), omega (arith, same, longer, room))
    | no ne ↦ rw (set_other r.rsvr_id nid n (r.rsvr_id nid ++ id ∷ []) ne) (sizes n j ne q)
  ];
}

put_id-AddedRoute :
    (mem node_mem : Bool) (nid id k : ℕ) (r : Routes)
    → IsRoutes r
    → found r nid ≡ some k
    → AddedRoute mem node_mem nid id r (put_id nid id r).0 (put_id nid id r).1
put_id-AddedRoute mem node_mem nid id k r h e = elim (dec_lt (length (r.rsvr_id nid)) max_len) [
  | yes l ↦
      let test : ltb (length (r.rsvr_id nid)) max_len ≡ true = ground (arith, l) in
      rw test (record {
        routes = more_ids-IsRoutes nid id k r h.valid e l (λ n j ne q. h.sizes n j q);
        added = λ d. rw e (set_here r.rsvr_id nid (r.rsvr_id nid ++ id ∷ []));
        refused = λ d. cc;
        others = λ n ne.
            ap (ids_of (found r n)) (set_other r.rsvr_id nid n (r.rsvr_id nid ++ id ∷ []) ne);
      })
  | no nl ↦
      let test : ltb (length (r.rsvr_id nid)) max_len ≡ false = ground (arith, nl) in
      rw test (record {
        routes = h;
        added = λ d. cc;
        refused = λ d. (refl, inr (inr (rw e (omega (arith, nl, (h.sizes nid k e).1)))));
        others = λ n ne. refl;
      })
]

expected-err :
    (node_mem : Bool) (q : Option ℕ) → q ≡ none → err ≡ expected node_mem q → node_mem ≡ false
expected-err true none e c = cc
expected-err false none e c = refl
expected-err m (some x) e c = cc

expected-not_exist : (node_mem : Bool) (q : Option ℕ) → q ≡ none → exist ≡ expected node_mem q → ⊥
expected-not_exist true none e c = absurd (cc c)
expected-not_exist false none e c = absurd (cc c)
expected-not_exist m (some x) e c = absurd (cc e)

same_tree-AddedRoute :
    (mem node_mem : Bool) (nid id : ℕ) (r : Routes) (t : AvlTree ℕ)
    → IsRoutes r
    → t ≡ r.tree
    → node_mem ≡ false
    → AddedRoute mem node_mem nid id r false (record r { tree = t })
same_tree-AddedRoute mem node_mem nid id r t h e m = rw e (record {
  routes = h;
  added = λ d. cc;
  refused = λ d. (refl, inr (inl m));
  others = λ n ne. refl;
})

inserted-AddedRoute :
    (mem node_mem : Bool) (nid id : ℕ) (r : Routes) (s : Status) (t : AvlTree ℕ)
    → IsRoutes r
    → found r nid ≡ none
    → Added numbers node_mem nid r.tree s t
    → AddedRoute mem node_mem nid id r (inserted nid id r (s, t)).0 (inserted nid id r (s, t)).1
inserted-AddedRoute mem node_mem nid id r ok t h e a =
    let fresh = set_here r.rsvr_id nid [] in
    let new : Routes = record { tree = t; rsvr_id = set_ids r.rsvr_id nid [] } in
    let here : found new nid ≡ some nid =
      ap (lookup compare nid) (a.items refl)
      ∙ lookup-add_same numbers nid nid (to_list r.tree.root) refl e in
    let elsewhere : (n : ℕ) → n ≢ nid → found new n ≡ found r n = λ n ne.
      ap (lookup compare n) (a.items refl)
      ∙ lookup-add_other numbers n nid (to_list r.tree.root) ne in
    let test : ltb (length (set_ids r.rsvr_id nid [] nid)) max_len ≡ true = rw fresh refl in
    let both : set_ids r.rsvr_id nid [] nid ++ id ∷ [] ≡ id ∷ [] = rw fresh refl in
    rw test (record {
      routes = more_ids-IsRoutes nid id nid new a.valid here (rw fresh (omega arith)) (λ n j ne q.
          rw (set_other r.rsvr_id nid n [] ne) (h.sizes n j (sym (elsewhere n ne) ∙ q)));
      added = λ d.
          rw here (set_here new.rsvr_id nid (new.rsvr_id nid ++ id ∷ []) ∙ both ∙ sym (rw e refl));
      refused = λ d. cc;
      others = λ n ne.
          ap (λ (q : Option ℕ). ids_of q (set_ids new.rsvr_id nid (new.rsvr_id nid ++ id ∷ []) n))
            (elsewhere n ne)
          ∙ ap (ids_of (found r n)) (
              set_other new.rsvr_id nid n (new.rsvr_id nid ++ id ∷ []) ne
              ∙ set_other r.rsvr_id nid n [] ne);
    })
inserted-AddedRoute mem node_mem nid id r err t h e a =
    same_tree-AddedRoute mem node_mem nid id r t h (a.kept (λ q. cc))
      (expected-err node_mem (found r nid) e a.code)
inserted-AddedRoute mem node_mem nid id r exist t h e a =
    absurd (expected-not_exist node_mem (found r nid) e a.code)

-- `rtmq_node_to_svr_map_add` on a valid map of fewer than `2 ^ 64 - 1` nodes leaves a valid map. On
-- `RTMQ_OK` the thread stands behind the other ones of its node; else the node's threads are as
-- before, and memory ran out or the node has as many threads as there is room for. Other nodes keep
-- their threads.
pub map_add-AddedRoute :
    (mem node_mem : Bool) (nid id : ℕ) (r : Routes)
    → IsRoutes r
    → r.tree.num < 2 ^ 64 - 1
    → (done : Bool) × (r' : Routes) × (map_add mem node_mem nid id r ≡ some (done, r'))
      × AddedRoute mem node_mem nid id r done r'
unfolding map_add
map_add-AddedRoute mem node_mem nid id r h small = at (found r nid) mem refl refl
  where
    at :
        (q : Option ℕ) (m : Bool)
        → found r nid ≡ q
        → m ≡ mem
        → (done : Bool) × (r' : Routes) × (map_add mem node_mem nid id r ≡ some (done, r'))
          × AddedRoute mem node_mem nid id r done r'
    at (some k) m e em = (
      _,
      _,
      rw (query_is r nid h, map_add) (rw e refl),
      put_id-AddedRoute mem node_mem nid id k r h e,
    )
    at none true e em =
        let (s, t, ran, a) = insert_correct numbers node_mem nid r.tree h.valid small in
        (
          _,
          _,
          rw (query_is r nid h, map_add) (rw e (rw (sym em) (rw ran refl))),
          inserted-AddedRoute mem node_mem nid id r s t h e a,
        )
    at none false e em = (
      false,
      r,
      rw (query_is r nid h, map_add) (rw e (rw (sym em) refl)),
      record {
        routes = h;
        added = λ d. cc;
        refused = λ d. (refl, inl (sym em));
        others = λ n ne. refl;
      },
    )
