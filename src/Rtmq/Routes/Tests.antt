-- ===== src/Rtmq/Routes/Tests.antt =====
-- The map from nodes to receiving threads at concrete nodes.
use cctrl.Prelude.{
  ℕ, ◌<◌, ◌≡◌, refl, Bool, true, none, some, List, [], ◌∷◌, get_or, ◌⊎◌, arith, ℕ_discrete, ◌==◌,
  if◌then◌else◌,
}
use cctrl.OrderedSet.{lookup}
use cctrl.Avl.{eh, leaf, node}
use cctrl.Rtmq.Routes.{Routes, drop_id, map_add, map_del, map_rand}
use cctrl.Rtmq.Routes.Laws.{IsRoutes, AddedRoute, map_rand_lem, map_add-AddedRoute}
use cctrl.Rtmq.Routes.Removal.{DroppedRoute, map_del-DroppedRoute}

abbrev one_node : Routes
one_node = record {
  tree = record { num = 1; root = node eh leaf 7 leaf };
  rsvr_id = λ n. if n == 7 then 2 ∷ 4 ∷ [] else [];
}

one_node-IsRoutes : IsRoutes one_node
unfolding lookup
one_node-IsRoutes = record {
  valid = record { balanced = omega arith; sorted = omega arith; counted_right = refl };
  sizes = λ n k e. elim (ℕ_discrete n 7) [
    | yes y ↦ ground (arith, y)
    | no ne ↦ absurd (ground (arith, e, ne))
  ];
}

-- The last thread takes the place of the one that goes.
filled_up : drop_id 2 (2 ∷ 4 ∷ 6 ∷ []) ≡ 6 ∷ 4 ∷ []
filled_up = refl

map_rand_lem_example :
    ((◌≡◌ {A = List ℕ} (2 ∷ 4 ∷ []) []) × (map_rand 5 7 one_node ≡ some none))
    ⊎ ((i : ℕ) × (i < 2) × (map_rand 5 7 one_node ≡ some (some (get_or (2 ∷ 4 ∷ []) i 0))))
unfolding lookup
map_rand_lem_example = map_rand_lem 5 7 one_node one_node-IsRoutes

map_add-AddedRoute_example :
    (done : Bool) × (r' : Routes) × (map_add true true 8 3 one_node ≡ some (done, r'))
    × AddedRoute true true 8 3 one_node done r'
map_add-AddedRoute_example =
    map_add-AddedRoute true true 8 3 one_node one_node-IsRoutes (omega arith)

map_del-DroppedRoute_example :
    (done : Bool) × (r' : Routes) × (map_del 7 2 one_node ≡ some (done, r'))
    × DroppedRoute 7 2 one_node done r'
map_del-DroppedRoute_example = map_del-DroppedRoute 7 2 one_node one_node-IsRoutes (omega arith)
