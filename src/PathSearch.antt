-- ===== src/PathSearch.antt =====
-- The search for a path, `AStarNodes` of map.h and map.cpp: the nodes of the search, each a position that
-- has been reached, with the node from which it was. A pointer to a node is its index.
mod Target
mod Search
mod Links
mod Visits
mod Walks
mod Ends
mod Tests
use otchronos.Prelude.{
  ℕ, zero, suc, ◌+◌, ◌-◌, ◌*◌, ◌^◌, ◌%◌, Option, none, some, Bool, true, false, ◌==◌, ◌&&◌,
  if◌then◌else◌, ltb, leb,
}

-- `AStarNode`.
pub record AStarNode : Type 0 where
  pub parent : Option ℕ
  pub f : ℕ
  pub x : ℕ
  pub y : ℕ

-- `AStarNodes`. The arrays have `max_nodes` entries, of which the first `cur_node` are in use.
pub record AStarNodes : Type 0 where
  pub nodes : ℕ → AStarNode
  pub open_nodes : ℕ → Bool
  pub node_table : ℕ → Option ℕ
  pub cur_node : ℕ
  pub closed_nodes : ℕ

-- MAX_NODES, MAP_NORMALWALKCOST and MAP_DIAGONALWALKCOST.
abbrev pub max_nodes : ℕ
max_nodes = 512

abbrev pub map_normal_walk_cost : ℕ
map_normal_walk_cost = 10

abbrev pub map_diagonal_walk_cost : ℕ
map_diagonal_walk_cost = 25

-- A write to an array, or to a map.
abbrev pub put {ℓ} : {A : Type ℓ} → ℕ → A → (ℕ → A) → ℕ → A
put i v g j = if j == i then v else g j

-- `(x << 16) | y`, for coordinates of 16 bits.
abbrev pub node_key : ℕ → ℕ → ℕ
node_key x y = x * 2 ^ 16 + y

-- `AStarNodes::AStarNodes`.
unfoldable pub new_nodes : ℕ → ℕ → AStarNodes
new_nodes x y = record {
  nodes = λ i. record { parent = none; f = 0; x = x; y = y };
  open_nodes = λ i. i == 0;
  node_table = put (node_key x y) (some 0) (λ k. none);
  cur_node = 1;
  closed_nodes = 0;
}

-- A new node, where there is room.
unfoldable pub created : ℕ → ℕ → ℕ → ℕ → AStarNodes → AStarNodes
created parent x y f a = record {
  nodes = put a.cur_node record { parent = some parent; f = f; x = x; y = y } a.nodes;
  open_nodes = put a.cur_node true a.open_nodes;
  node_table = put (node_key x y) (some a.cur_node) a.node_table;
  cur_node = suc a.cur_node;
  closed_nodes = a.closed_nodes;
}

-- `AStarNodes::createOpenNode`.
unfoldable pub create_open_node : ℕ → ℕ → ℕ → ℕ → AStarNodes → Option AStarNodes
unfolding created
create_open_node parent x y f a =
    if leb max_nodes a.cur_node then none else some (created parent x y f a)

-- The loop of `AStarNodes::getBestNode` over the first nodes: the best of them and its `f`, or none and the
-- largest number of 32 bits.
unfoldable pub best_of : ℕ → AStarNodes → Option ℕ × ℕ
best_of zero a = (none, 2 ^ 31 - 1)
best_of (suc i) a =
    let (best, f) = best_of i a in
    if a.open_nodes i && ltb (a.nodes i).f f then (some i, (a.nodes i).f) else (best, f)

-- `AStarNodes::getBestNode`.
unfoldable pub get_best_node : AStarNodes → Option ℕ
unfolding best_of
get_best_node a = (best_of a.cur_node a).0

-- `AStarNodes::closeNode`, of a node that is there.
unfoldable pub close_node : ℕ → AStarNodes → AStarNodes
close_node i a = record a {
  open_nodes = put i false a.open_nodes;
  closed_nodes = suc a.closed_nodes;
}

-- `AStarNodes::openNode`, of a node that is there.
unfoldable pub open_node : ℕ → AStarNodes → AStarNodes
open_node i a =
    if a.open_nodes i
    then a
    else record a { open_nodes = put i true a.open_nodes; closed_nodes = a.closed_nodes - 1 }

-- `AStarNodes::getNodeByPosition`.
abbrev pub get_node_by_position : ℕ → ℕ → AStarNodes → Option ℕ
get_node_by_position x y a = a.node_table (node_key x y)

-- `Position::getDistanceX` and `Position::getDistanceY`.
abbrev pub get_distance : ℕ → ℕ → ℕ
get_distance a b = if leb a b then b - a else a - b

-- `AStarNodes::getMapWalkCost`.
abbrev pub get_map_walk_cost : ℕ → ℕ → ℕ → ℕ → ℕ
get_map_walk_cost x y u v =
    if get_distance x u == get_distance y v then map_diagonal_walk_cost else map_normal_walk_cost

-- The new cost and way of a node that is there.
unfoldable pub relink : ℕ → ℕ → ℕ → AStarNodes → AStarNodes
relink k parent f a = record a {
  nodes =
      put k record { parent = some parent; f = f; x = (a.nodes k).x; y = (a.nodes k).y } a.nodes;
}
