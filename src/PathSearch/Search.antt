-- ===== src/PathSearch/Search.antt =====
-- `Map::getPathMatching` of map.cpp.
use otchronos.Prelude.{
  ℕ, zero, suc, ◌+◌, ◌-◌, ◌^◌, ◌%◌, Option, none, some, Bool, true, false, not, ◌==◌, ◌&&◌, ◌||◌,
  if◌then◌else◌, ltb, leb, List, [], ◌∷◌,
}
use otchronos.Map.{QTree, get_tile, is_some}
use otchronos.PathSearch.{
  AStarNodes, new_nodes, create_open_node, get_best_node, close_node, open_node,
  get_node_by_position, get_distance, get_map_walk_cost, relink,
}
use otchronos.PathSearch.Target.{FindPathParams, PathingCondition, is_in_range, path_condition}

-- What the search asks of the creature and of the tiles: `Creature::getWalkCache`, the tile of the
-- creature, whether it may be added to a tile (`Tile::__queryAdd`), and `AStarNodes::getTileWalkCost`, also
-- for the tile of a node that has lost it.
pub record Env : Type 0 where
  pub map : QTree
  pub z : ℕ
  pub walk_cache : ℕ → ℕ → ℕ
  pub creature_tile : Option ℕ
  pub query_add : ℕ → Bool
  pub tile_walk_cost : Option ℕ → ℕ
  pub condition : PathingCondition
  pub fpp : FindPathParams
  pub start_x : ℕ
  pub start_y : ℕ

abbrev pub same_tile : Option ℕ → Option ℕ → Bool
same_tile none none = true
same_tile none (some t) = false
same_tile (some s) none = false
same_tile (some s) (some t) = s == t

-- `Map::canWalkTo`.
unfoldable pub can_walk_to : Env → ℕ → ℕ → Option ℕ
can_walk_to env x y =
    let tile = get_tile x y env.z env.map in
    if env.walk_cache x y == 0
    then none
    else if env.walk_cache x y == 1
    then tile
    else if same_tile env.creature_tile tile
    then tile
    else elim tile [ none ↦ none | some t ↦ if env.query_add t then some t else none ]

-- The offsets of the neighbors; -1 is a number of 16 bits, as a coordinate is.
abbrev pub minus : ℕ
minus = 2 ^ 16 - 1

abbrev pub Offsets : Type 0
Offsets = List (ℕ × ℕ)

abbrev pub all_neighbors : Offsets
all_neighbors =
    (minus, 0)
    ∷ (0, 1)
    ∷ (1, 0)
    ∷ (0, minus)
    ∷ (minus, minus)
    ∷ (1, minus)
    ∷ (1, 1)
    ∷ (minus, 1)
    ∷ []

-- `dirNeighbors` of a direction: the first three, and the two that only a diagonal step reaches.
abbrev pub dir_neighbors : ℕ × ℕ → ℕ × ℕ → ℕ × ℕ → ℕ × ℕ → ℕ × ℕ → Bool → Offsets
dir_neighbors a b c d e diagonal = if diagonal then a ∷ b ∷ c ∷ d ∷ e ∷ [] else a ∷ b ∷ c ∷ []

-- The choice of the neighbors by the parent of a node, at `u` and `v`.
unfoldable pub neighbors_from : Bool → ℕ → ℕ → ℕ → ℕ → Offsets
neighbors_from diagonal u v x y =
    if v == y
    then if u + 1 == x
      then dir_neighbors (0, 1) (1, 0) (0, minus) (1, minus) (1, 1) diagonal
      else dir_neighbors (minus, 0) (0, 1) (0, minus) (minus, minus) (minus, 1) diagonal
    else if not diagonal || u == x
    then if v + 1 == y
      then dir_neighbors (minus, 0) (0, 1) (1, 0) (1, 1) (minus, 1) diagonal
      else dir_neighbors (minus, 0) (1, 0) (0, minus) (minus, minus) (1, minus) diagonal
    else if v + 1 == y
    then if u + 1 == x
      then dir_neighbors (0, 1) (1, 0) (1, minus) (1, 1) (minus, 1) diagonal
      else dir_neighbors (minus, 0) (0, 1) (minus, minus) (1, 1) (minus, 1) diagonal
    else if u + 1 == x
    then dir_neighbors (1, 0) (0, minus) (minus, minus) (1, minus) (1, 1) diagonal
    else dir_neighbors (minus, 0) (0, minus) (minus, minus) (1, minus) (minus, 1) diagonal

-- The neighbors of a node: all eight of the first one.
unfoldable pub neighbors : Bool → AStarNodes → ℕ → Offsets
unfolding neighbors_from
neighbors diagonal a n = elim (a.nodes n).parent [
  | none ↦ all_neighbors
  | some p ↦ neighbors_from diagonal (a.nodes p).x (a.nodes p).y (a.nodes n).x (a.nodes n).y
]

-- Neighbors that the parameters leave out.
abbrev pub is_left_out : Env → ℕ → ℕ → Bool
is_left_out env x y =
    (not (env.fpp.max_search_dist == 0)
      && (ltb env.fpp.max_search_dist (get_distance env.start_x x)
          || ltb env.fpp.max_search_dist (get_distance env.start_y y)))
    || (env.fpp.keep_distance
        && not (is_in_range env.condition env.start_x env.start_y x y env.fpp))

-- A neighbor that has a node already, `k`, and costs `f` by the node `n`.
unfoldable pub revisit : ℕ → ℕ → ℕ → AStarNodes → AStarNodes
unfolding relink open_node
revisit n k f a = if leb (a.nodes k).f f then a else open_node k (relink k n f a)

-- One round of the loop over the neighbors of the node `n`, at `x` and `y`. There is no result if a new node
-- has no room.
unfoldable pub visit_at : Env → ℕ → ℕ → ℕ → AStarNodes → Option AStarNodes
unfolding can_walk_to create_open_node revisit
visit_at env n x y a =
    let tile = get_tile x y env.z env.map in
    let step = get_map_walk_cost (a.nodes n).x (a.nodes n).y x y in
    if is_left_out env x y then some a else elim (get_node_by_position x y a) [
      | some k ↦ some (revisit n k ((a.nodes n).f + step + env.tile_walk_cost tile) a)
      | none ↦ elim (can_walk_to env x y) [
        | none ↦ some a
        | some t ↦ create_open_node n x y ((a.nodes n).f + step + env.tile_walk_cost (some t)) a
      ]
    ]

unfoldable pub visit_neighbor : Env → ℕ → ℕ × ℕ → AStarNodes → Option AStarNodes
unfolding visit_at
visit_neighbor env n (dx, dy) a =
    visit_at env n (((a.nodes n).x + dx) % 2 ^ 16) (((a.nodes n).y + dy) % 2 ^ 16) a

-- The loop over the neighbors; without room it ends, and the search with it if no end has been found.
unfoldable pub visits : Env → ℕ → Bool → Offsets → AStarNodes → Option AStarNodes
unfolding visit_neighbor
visits env n found [] a = some a
visits env n found (d ∷ ds) a = elim (visit_neighbor env n d a) [
  | none ↦ if found then some a else none
  | some a' ↦ visits env n found ds a'
]

-- The variables of the search; `found` is a node at which a path may end.
pub record State : Type 0 where
  pub nodes : AStarNodes
  pub found : Option ℕ
  pub best_match : ℕ

-- What a round of the search comes to.
pub data Round : Type 0 where
  going : State → Round
  broken : State → Round
  failed : Round

-- The rest of a round, once it is known whether the path may end at the node.
unfoldable pub expand : Env → ℕ → State → Round
unfolding neighbors visits close_node
expand env n s =
    elim (visits env n (is_some s.found) (neighbors env.fpp.allow_diagonal s.nodes n) s.nodes) [
      | none ↦ failed
      | some a ↦ going record s { nodes = close_node n a }
    ]

-- Whether the path may end at a node, and the new `bestMatch`.
abbrev pub look : Env → ℕ → State → Bool × ℕ
look env n s =
    path_condition env.condition env.start_x env.start_y (s.nodes.nodes n).x (s.nodes.nodes n).y
      env.fpp s.best_match

unfoldable pub looked : Env → ℕ → State → State
looked env n s = record {
  nodes = s.nodes;
  found = if (look env n s).0 then some n else s.found;
  best_match = (look env n s).1;
}

-- A round for the best node.
unfoldable pub round_at : Env → ℕ → State → Round
unfolding expand looked
round_at env n s =
    if (look env n s).0 && (look env n s).1 == 0
    then broken (looked env n s)
    else expand env n (looked env n s)

unfoldable pub round : Env → State → Round
unfolding round_at
round env s = elim (get_best_node s.nodes) [
  | none ↦ if is_some s.found then broken s else failed
  | some n ↦ round_at env n s
]

-- The loop of the search, with fuel. `none` means that the fuel ran out, `some none` that the search
-- has failed.
unfoldable pub search_nodes : Env → ℕ → State → Option (Option State)
unfolding round
search_nodes env zero s = none
search_nodes env (suc fuel) s =
    if env.fpp.max_search_dist == 0 && leb 100 s.nodes.closed_nodes
    then some (some s)
    else elim (round env s) [
      | going s' ↦ search_nodes env fuel s'
      | broken s' ↦ some (some s')
      | failed ↦ some none
    ]

-- `Direction`, as far as creatures walk.
pub data Direction : Type 0 where
  north east south west southwest southeast northwest northeast : Direction

-- `getNextPosition` of tools.cpp.
unfoldable pub get_next_position : Direction → ℕ → ℕ → ℕ × ℕ
get_next_position north x y = (x, (y + minus) % 2 ^ 16)
get_next_position south x y = (x, (y + 1) % 2 ^ 16)
get_next_position west x y = ((x + minus) % 2 ^ 16, y)
get_next_position east x y = ((x + 1) % 2 ^ 16, y)
get_next_position southwest x y = ((x + minus) % 2 ^ 16, (y + 1) % 2 ^ 16)
get_next_position northwest x y = ((x + minus) % 2 ^ 16, (y + minus) % 2 ^ 16)
get_next_position northeast x y = ((x + 1) % 2 ^ 16, (y + minus) % 2 ^ 16)
get_next_position southeast x y = ((x + 1) % 2 ^ 16, (y + 1) % 2 ^ 16)

-- The direction of the step from the node before, at `x` and `y`, to the node at `u` and `v`; there is none
-- between nodes that do not touch.
unfoldable pub direction_to : ℕ → ℕ → ℕ → ℕ → Option Direction
direction_to x y u v =
    if u + 1 == x && v + 1 == y
    then some northwest
    else if x + 1 == u && v + 1 == y
    then some northeast
    else if u + 1 == x && y + 1 == v
    then some southwest
    else if x + 1 == u && y + 1 == v
    then some southeast
    else if u + 1 == x
    then some west
    else if x + 1 == u
    then some east
    else if v + 1 == y
    then some north
    else if y + 1 == v
    then some south
    else none

abbrev pub push_front : Option Direction → List Direction → List Direction
push_front none ds = ds
push_front (some d) ds = d ∷ ds

-- The loop that follows the parents back from the node `i`, with fuel, and collects the directions.
unfoldable pub trace : ℕ → AStarNodes → ℕ → List Direction → Option (List Direction)
unfolding direction_to
trace zero a i ds = none
trace (suc fuel) a i ds = elim (a.nodes i).parent [
  | none ↦ some ds
  | some p ↦
      let d = direction_to (a.nodes p).x (a.nodes p).y (a.nodes i).x (a.nodes i).y in
      trace fuel a p (push_front d ds)
]

-- The directions of the path that the search has found, or none.
unfoldable pub get_path : State → Option (Option (List Direction))
unfolding trace
get_path s = elim s.found [
  | none ↦ some none
  | some i ↦ elim (trace (suc (s.nodes.nodes i).f) s.nodes i []) [
    | none ↦ none
    | some ds ↦ some (some ds)
  ]
]

-- `Map::getPathMatching`, with fuel for the search; the way back needs as much as the cost of the path.
unfoldable pub get_path_matching : ℕ → Env → Option (Option (List Direction))
unfolding search_nodes get_path new_nodes
get_path_matching fuel env =
    let start : State = record {
      nodes = new_nodes env.start_x env.start_y;
      found = none;
      best_match = 0;
    } in
    elim (search_nodes env fuel start) [
      | none ↦ none
      | some none ↦ some none
      | some (some s) ↦ get_path s
    ]
